-- ===== src/Queue/Pop.antt =====
-- redis_stream_message_queue.py, `pop` by itself: it ends, and what it returns.
use boxify_agent.Prelude.{
  String, ℕ, zero, suc, Bool, true, Option, none, some, List, [], ◌∷◌, ◌≡◌, refl, ◌∙◌, eq_iff,
  Bool-cases, inl, inr, if◌then◌else◌,
}
use boxify_agent.Queue.{
  Entry, Redis, Net, answered, lost_before, lost_after, Phase, acquiring, locked, found, leaving,
  returned, raised, advance, release_script, is_value, run_pop,
}
use boxify_agent.Queue.Fifo.{is_over, head, tail, over-run_pop}

module _ (r : Redis) where
  open r use {Server, entries, lock}

  -- The rest of a call after one more command.
  abbrev after : (ℕ → Net) → ℕ → Phase × Server → Bool
  after net n (p, s) = is_over (run_pop r net n p s).0

  leaving_ends :
      (net : ℕ → Net) (x : Net) (n : ℕ) (value : String) (result : Option Entry) (s : Server)
      → after net n (advance r x (leaving value result) s) ≡ true
  unfolding advance
  leaving_ends net answered n value result s = over-run_pop r net n (returned result) _ refl
  leaving_ends net lost_before n value result s = over-run_pop r net n (returned result) _ refl
  leaving_ends net lost_after n value result s = over-run_pop r net n (returned result) _ refl

  found_ends :
      (net : ℕ → Net) (x : Net) (n : ℕ) (value : String) (e : Entry) (s : Server)
      → after net (suc n) (advance r x (found value e) s) ≡ true
  unfolding advance run_pop
  found_ends net answered n value e s = leaving_ends net (net n) n value (some e) _
  found_ends net lost_before n value e s = leaving_ends net (net n) n value none _
  found_ends net lost_after n value e s = leaving_ends net (net n) n value none _

  locked_ends :
      (net : ℕ → Net) (x : Net) (n : ℕ) (value : String) (s : Server)
      → after net (suc (suc n)) (advance r x (locked value) s) ≡ true
  unfolding advance run_pop
  locked_ends net lost_before n value s = leaving_ends net (net (suc n)) (suc n) value none s
  locked_ends net lost_after n value s = leaving_ends net (net (suc n)) (suc n) value none s
  locked_ends net answered n value s = go (entries s) refl
    where
      go :
          (es : List Entry)
          → entries s ≡ es
          → after net (suc (suc n)) (advance r answered (locked value) s) ≡ true
      go [] e = rw e (leaving_ends net (net (suc n)) (suc n) value none s)
      go (x ∷ rest) e = rw e (found_ends net (net (suc n)) n value x s)

  acquiring_ends :
      (net : ℕ → Net) (x : Net) (n : ℕ) (value : String) (s : Server)
      → after net (suc (suc n)) (advance r x (acquiring value n) s) ≡ true
  unfolding advance run_pop
  acquiring_ends net answered zero value s = over-run_pop r net 2 (returned none) s refl
  acquiring_ends net lost_before zero value s = over-run_pop r net 2 (returned none) s refl
  acquiring_ends net lost_after zero value s = over-run_pop r net 2 (returned none) s refl
  acquiring_ends net lost_before (suc n) value s =
      over-run_pop r net (suc (suc (suc n))) raised s refl
  acquiring_ends net lost_after (suc n) value s =
      over-run_pop r net (suc (suc (suc n))) raised (r.set_nx value s).1 refl
  acquiring_ends net answered (suc n) value s = elim (Bool-cases (r.set_nx value s).0) [
    | inl won ↦ rw won (locked_ends net (net (suc (suc n))) n value (r.set_nx value s).1)
    | inr lost ↦ rw lost (acquiring_ends net (net (suc (suc n))) n value (r.set_nx value s).1)
  ]

  -- Whatever the commands answer, and whether they raise or not, a call of `pop` that may ask `n` times for
  -- the lock is over after at most `n + 3` commands.
  pub run_pop_ends :
      (net : ℕ → Net) (n : ℕ) (value : String) (s : Server)
      → is_over (run_pop r net (suc (suc (suc n))) (acquiring value n) s).0 ≡ true
  unfolding run_pop
  run_pop_ends net n value s = acquiring_ends net (net (suc (suc n))) n value s

  -- A call has returned `result`, and the stream is `rest` and the lock free.
  abbrev pub Popped : Option Entry → List Entry → Phase × Server → Type 0
  Popped result rest (p, s) = (p ≡ returned result) × (entries s ≡ rest) × (lock s ≡ none)

  returned-run_pop :
      (net : ℕ → Net) (n : ℕ) (result : Option Entry) (s : Server)
      → run_pop r net n (returned result) s ≡ (returned result, s)
  unfolding run_pop advance
  returned-run_pop net zero result s = refl
  returned-run_pop net (suc n) result s = returned-run_pop net n result s

  leaving_lem :
      (value : String) (result : Option Entry) (s : Server) (n : ℕ)
      → lock s ≡ some value
      → Popped result (entries s) (run_pop r (λ _. answered) (suc n) (leaving value result) s)
  unfolding run_pop advance release_script
  leaving_lem value result s n mine =
      rw
        (
          returned-run_pop (λ _. answered) n result
              (if is_value r value (lock s) then r.del s else s),
          mine,
          (eq_iff value value).1 refl,
        )
        (refl, r.entries-del s, r.lock-del s)

  locked_lem :
      (value : String) (s : Server) (es : List Entry)
      → entries s ≡ es
      → lock s ≡ some value
      → Popped (head es) (tail es) (run_pop r (λ _. answered) 3 (locked value) s)
  unfolding run_pop advance
  locked_lem value s [] e mine = let done = leaving_lem value none s 1 mine in rw e (rw e at done)
  locked_lem value s (x ∷ rest) e mine =
      let after_del = r.entries-xdel x rest s e in
      let done = leaving_lem value (some x) (r.xdel x.id s) 0 (r.lock-xdel x.id s ∙ mine) in
      rw e (rw after_del at done)

  -- Where the lock is free and every command is answered, `pop` returns the first message and takes it off
  -- the stream, or returns nothing of an empty one, in four commands, and the lock is free again.
  pub run_pop_lem :
      (n : ℕ) (value : String) (s : Server)
      → lock s ≡ none
      → Popped
          (head (entries s))
          (tail (entries s))
          (run_pop r (λ _. answered) 4 (acquiring value (suc n)) s)
  unfolding run_pop advance
  run_pop_lem n value s free =
      let (won, mine) = r.set_nx_free value s free in
      let done =
        locked_lem value (r.set_nx value s).1 (entries s) (r.entries-set_nx value s) mine in
      rw won done
