-- ===== src/Queue/Fifo.antt =====
-- redis_stream_message_queue.py: the queue that producers and callers of `pop` see, in any interleaving.
use boxify_agent.Prelude.{
  String, ℕ, zero, suc, Bool, true, false, Option, none, some, List, [], ◌∷◌, ◌++◌, ◌≡◌, refl, sym,
  ◌∙◌, Bool-cases, inl, inr, nat_eq, nat_eq_iff,
}
use mathlib.Core.List.{append_assoc}
use boxify_agent.Queue.{
  Entry, Redis, Net, Phase, acquiring, locked, found, leaving, returned, raised, advance, put,
  run_pop,
}
use boxify_agent.Queue.System.{
  key_of, removed_by, Act, produce, begin, step, expire, System, act, run, Allowed, AllAllowed,
}
use boxify_agent.Queue.Invariant.{Inv, alone, stepped-Inv}
use boxify_agent.Queue.Steps.{advance-Keeps, no_key-IsFirst, IsFirst-append}

abbrev pub is_over : Phase → Bool
is_over (acquiring value n) = false
is_over (locked value) = false
is_over (found value e) = false
is_over (leaving value result) = false
is_over (returned result) = true
is_over raised = true

-- What `pop` answers of a stream, and what it leaves.
abbrev pub head : List Entry → Option Entry
head [] = none
head (e ∷ es) = some e

abbrev pub tail : List Entry → List Entry
tail [] = []
tail (e ∷ es) = es

module _ (r : Redis) where
  open r use {Server, entries, lock}

  begin-Inv :
      (i : ℕ) (value : String) (rounds : ℕ) (s : System r)
      → Allowed r (begin i value rounds) s
      → Inv r s
      → Inv r (act r (begin i value rounds) s)
  unfolding act
  begin-Inv i value rounds s (quiet, new) h = record {
    held = λ j v. elim (Bool-cases (nat_eq j i)) [
      | inl same ↦ rw same (λ e. cc e)
      | inr other ↦ rw other (h.held j v)
    ];
    own = λ j l v. elim (Bool-cases (nat_eq j i)) [
      | inl same ↦ elim (Bool-cases (nat_eq l i)) [
        | inl same' ↦ λ _ _. (nat_eq_iff j i).0 same ∙ sym ((nat_eq_iff l i).0 same')
        | inr other' ↦ rw (same, other') (λ e e'. absurd (new l (e' ∙ sym e)))
      ]
      | inr other ↦ elim (Bool-cases (nat_eq l i)) [
        | inl same' ↦ rw (other, same') (λ e e'. absurd (new j (e ∙ sym e')))
        | inr other' ↦ rw (other, other') (h.own j l v)
      ]
    ];
    first = λ j. elim (Bool-cases (nat_eq j i)) [
      | inl same ↦ rw same tt
      | inr other ↦ rw other (h.first j)
    ];
    log = h.log;
  }

  act-Inv : (a : Act) (s : System r) → Allowed r a s → Inv r s → Inv r (act r a s)
  unfolding act put
  act-Inv (produce message) s ok h = record {
    held = λ j v e. r.lock-xadd message s.server ∙ h.held j v e;
    own = h.own;
    first = λ j.
        rw (r.entries-xadd message s.server)
          (IsFirst-append (entries s.server) _ (s.callers j) (h.first j));
    log =
        rw (r.entries-xadd message s.server, h.log)
          (append_assoc s.gone (entries s.server)
            ((record { id = (r.xadd message s.server).0; content = message }) ∷ []));
  }
  act-Inv (begin i value rounds) s ok h = begin-Inv i value rounds s ok h
  act-Inv (step i net) s ok h =
      stepped-Inv r s i (removed_by net (s.callers i)) _ _ h
        (advance-Keeps r s h i net (s.callers i) refl)
  act-Inv expire s ok h = record {
    held = λ j v e. let out = ok j in cc (out, e);
    own = h.own;
    first = λ j. no_key-IsFirst (entries (r.del s.server)) (s.callers j) (ok j);
    log = rw (r.entries-del s.server) h.log;
  }

  run-Inv : (acts : List Act) (s : System r) → AllAllowed r acts s → Inv r s → Inv r (run r acts s)
  unfolding run
  run-Inv [] s ok h = h
  run-Inv (a ∷ acts) s ok h = run-Inv acts (act r a s) ok.1 (act-Inv a s ok.0 h)

  -- Nobody is in a call, and what stands in the stream is what was put.
  abbrev pub started : Server → System r
  started server = record {
    server = server;
    callers = λ _. returned none;
    added = entries server;
    gone = [];
  }

  started-Inv : (server : Server) → Inv r (started server)
  started-Inv server = record {
    held = λ i v e. cc e;
    own = λ i j v e e'. cc e;
    first = λ i. tt;
    log = refl;
  }

  -- In every interleaving of producers, of callers of `pop` whose commands may fail, and of expiries of the
  -- lock while nobody holds it: what was taken off the stream, and then what stands in it, is what was
  -- put, each message once and in the order of the puts.
  pub run_fifo :
      (acts : List Act) (server : Server)
      → AllAllowed r acts (started server)
      → (run r acts (started server)).added
        ≡ (run r acts (started server)).gone ++ entries (run r acts (started server)).server
  run_fifo acts server ok = (run-Inv acts (started server) ok (started-Inv server)).log

  -- In every such interleaving two callers are never both between the lock and its release.
  pub run_alone :
      (acts : List Act) (server : Server) (i j : ℕ) (v w : String)
      → AllAllowed r acts (started server)
      → key_of ((run r acts (started server)).callers i) ≡ some v
      → key_of ((run r acts (started server)).callers j) ≡ some w
      → i ≡ j
  run_alone acts server i j v w ok =
      alone r (run r acts (started server)) (run-Inv acts (started server) ok (started-Inv server))
        i j v w

  pub over-run_pop :
      (net : ℕ → Net) (n : ℕ) (p : Phase) (s : Server)
      → is_over p ≡ true
      → is_over (run_pop r net n p s).0 ≡ true
  unfolding run_pop advance
  over-run_pop net zero p s h = h
  over-run_pop net (suc n) (acquiring value k) s h = cc h
  over-run_pop net (suc n) (locked value) s h = cc h
  over-run_pop net (suc n) (found value e) s h = cc h
  over-run_pop net (suc n) (leaving value result) s h = cc h
  over-run_pop net (suc n) (returned result) s h = over-run_pop net n (returned result) s h
  over-run_pop net (suc n) raised s h = over-run_pop net n raised s h
