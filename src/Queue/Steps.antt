-- ===== src/Queue/Steps.antt =====
-- redis_stream_message_queue.py, `pop`: every command of a call keeps the invariant.
use boxify_agent.Prelude.{
  String, ℕ, zero, suc, Option, none, some, List, [], ◌∷◌, ◌++◌, ◌≡◌, ◌≢◌, refl, sym, ◌∙◌, eq_iff,
  Option-cases, inl, inr,
}
use boxify_agent.Queue.{
  Entry, Redis, Net, answered, lost_before, lost_after, Phase, acquiring, locked, found, leaving,
  returned, raised, advance, release_script,
}
use boxify_agent.Queue.System.{value_of, key_of, removed_by, System}
use boxify_agent.Queue.Invariant.{Inv, Keeps, IsFirst, alone}

pub no_key-IsFirst : (es : List Entry) (p : Phase) → key_of p ≡ none → IsFirst es p
no_key-IsFirst es (acquiring value n) h = tt
no_key-IsFirst es (locked value) h = tt
no_key-IsFirst es (found value e) h = cc h
no_key-IsFirst es (leaving value result) h = tt
no_key-IsFirst es (returned result) h = tt
no_key-IsFirst es raised h = tt

pub IsFirst-append : (es more : List Entry) (p : Phase) → IsFirst es p → IsFirst (es ++ more) p
IsFirst-append es more (acquiring value n) h = tt
IsFirst-append es more (locked value) h = tt
IsFirst-append es more (found value e) (rest, h) = (rest ++ more, rw h refl)
IsFirst-append es more (leaving value result) h = tt
IsFirst-append es more (returned result) h = tt
IsFirst-append es more raised h = tt

module _ (r : Redis) (s : System r) (h : Inv r s) (i : ℕ) where
  open r use {Server, entries, lock, set_nx, del, xdel}

  -- A step that leaves the lock and the stream.
  quiet-Keeps :
      (p : Phase) (server : Server)
      → lock server ≡ lock s.server
      → entries server ≡ entries s.server
      → ((v : String) → key_of p ≡ some v → key_of (s.callers i) ≡ some v)
      → ((v : String) → value_of p ≡ some v → value_of (s.callers i) ≡ some v)
      → IsFirst (entries s.server) p
      → Keeps r s i [] p server
  quiet-Keeps p server same_lock same keys values front = record {
    held = λ v e. same_lock ∙ h.held i v (keys v e);
    others = λ j w ne e. same_lock ∙ h.held j w e;
    value = values;
    first = rw same front;
    firsts = λ j ne. rw same (h.first j);
    log = sym same;
  }

  -- While `i` holds the lock, no other caller does.
  others_out :
      (v : String) → key_of (s.callers i) ≡ some v → (j : ℕ) → j ≢ i → key_of (s.callers j) ≡ none
  others_out v in_i j ne = elim (Option-cases (key_of (s.callers j))) [
    | inl out ↦ out
    | inr (w, in_j) ↦ absurd (ne (sym (alone r s h i j v w in_i in_j)))
  ]

  -- A step of the lock's holder, which may change the lock and takes `removed` off.
  holder-Keeps :
      (v : String) (removed : List Entry) (p : Phase) (server : Server)
      → key_of (s.callers i) ≡ some v
      → ((w : String) → key_of p ≡ some w → lock server ≡ some w)
      → ((w : String) → value_of p ≡ some w → value_of (s.callers i) ≡ some w)
      → IsFirst (entries server) p
      → entries s.server ≡ removed ++ entries server
      → Keeps r s i removed p server
  holder-Keeps v removed p server in_i keys values front taken = record {
    held = keys;
    others = λ j w ne e. let out = others_out v in_i j ne in cc (out, e);
    value = values;
    first = front;
    firsts = λ j ne. no_key-IsFirst (entries server) (s.callers j) (others_out v in_i j ne);
    log = taken;
  }

  try_lock-Keeps :
      (value : String) (n : ℕ)
      → s.callers i ≡ acquiring value (suc n)
      → Keeps r s i []
          (advance r answered (acquiring value (suc n)) s.server).0
          (advance r answered (acquiring value (suc n)) s.server).1
  unfolding advance
  try_lock-Keeps value n at_i = elim (Option-cases (lock s.server)) [
    | inl free ↦
        let (won, set) = r.set_nx_free value s.server free in
        rw won record {
          held = λ v e. set ∙ e;
          others = λ j w ne e. let taken = h.held j w e in cc (free, taken);
          value = λ v e. rw at_i e;
          first = tt;
          firsts = λ j ne. rw (r.entries-set_nx value s.server) (h.first j);
          log = sym (r.entries-set_nx value s.server);
        }
    | inr (w, taken) ↦
        let (lost, kept) = r.set_nx_held value w s.server taken in
        rw lost (
          quiet-Keeps (acquiring value n) (set_nx value s.server).1 (kept ∙ sym taken)
            (r.entries-set_nx value s.server) (λ v e. cc e) (λ v e. rw at_i e) tt)
  ]

  lost_lock-Keeps : (value : String) → Keeps r s i [] raised (set_nx value s.server).1
  lost_lock-Keeps value = record {
    held = λ v e. cc e;
    others = λ j w ne e. (r.set_nx_held value w s.server (h.held j w e)).1;
    value = λ v e. cc e;
    first = tt;
    firsts = λ j ne. rw (r.entries-set_nx value s.server) (h.first j);
    log = sym (r.entries-set_nx value s.server);
  }

  release-Keeps :
      (value : String) (result : Option Entry)
      → s.callers i ≡ leaving value result
      → Keeps r s i [] (returned result) (release_script r value s.server)
  unfolding release_script
  release-Keeps value result at_i =
      let in_i : key_of (s.callers i) ≡ some value = rw at_i refl in
      let mine = h.held i value in_i in
      rw (mine, (eq_iff value value).1 refl)
        (holder-Keeps value [] (returned result) (del s.server) in_i (λ w e. cc e) (λ w e. cc e) tt
          (sym (r.entries-del s.server)))

  read-Keeps :
      (value : String)
      → s.callers i ≡ locked value
      → Keeps r s i [] (advance r answered (locked value) s.server).0 s.server
  unfolding advance
  read-Keeps value at_i = go (entries s.server) refl
    where
      go :
          (es : List Entry)
          → entries s.server ≡ es
          → Keeps r s i [] (advance r answered (locked value) s.server).0 s.server
      go [] e = rw e (
          quiet-Keeps (leaving value none) s.server refl refl (λ v k. rw at_i k) (λ v k. rw at_i k)
            tt)
      go (x ∷ rest) e = rw e (
          quiet-Keeps (found value x) s.server refl refl (λ v k. rw at_i k) (λ v k. rw at_i k)
            (rest, e))

  delete-Keeps :
      (value : String) (e : Entry) (result : Option Entry)
      → s.callers i ≡ found value e
      → Keeps r s i (e ∷ []) (leaving value result) (xdel e.id s.server)
  delete-Keeps value e result at_i =
      let in_i : key_of (s.callers i) ≡ some value = rw at_i refl in
      let front : IsFirst (entries s.server) (found value e) = rw at_i at (h.first i) in
      let after = r.entries-xdel e front.0 s.server front.1 in
      holder-Keeps value (e ∷ []) (leaving value result) (xdel e.id s.server) in_i
        (λ w k. r.lock-xdel e.id s.server ∙ h.held i value in_i ∙ k) (λ w k. rw at_i k) tt
        (rw after front.1)

  pub advance-Keeps :
      (net : Net) (p : Phase)
      → s.callers i ≡ p
      → Keeps r s i (removed_by net p) (advance r net p s.server).0 (advance r net p s.server).1
  unfolding advance
  advance-Keeps net (acquiring value zero) at_i =
      quiet-Keeps (returned none) s.server refl refl (λ v k. cc k) (λ v k. cc k) tt
  advance-Keeps answered (acquiring value (suc n)) at_i = try_lock-Keeps value n at_i
  advance-Keeps lost_before (acquiring value (suc n)) at_i =
      quiet-Keeps raised s.server refl refl (λ v k. cc k) (λ v k. cc k) tt
  advance-Keeps lost_after (acquiring value (suc n)) at_i = lost_lock-Keeps value
  advance-Keeps answered (locked value) at_i = read-Keeps value at_i
  advance-Keeps lost_before (locked value) at_i =
      quiet-Keeps (leaving value none) s.server refl refl (λ v k. rw at_i k) (λ v k. rw at_i k) tt
  advance-Keeps lost_after (locked value) at_i =
      quiet-Keeps (leaving value none) s.server refl refl (λ v k. rw at_i k) (λ v k. rw at_i k) tt
  advance-Keeps answered (found value e) at_i = delete-Keeps value e (some e) at_i
  advance-Keeps lost_before (found value e) at_i =
      quiet-Keeps (leaving value none) s.server refl refl (λ v k. rw at_i k) (λ v k. rw at_i k) tt
  advance-Keeps lost_after (found value e) at_i = delete-Keeps value e none at_i
  advance-Keeps answered (leaving value result) at_i = release-Keeps value result at_i
  advance-Keeps lost_before (leaving value result) at_i =
      quiet-Keeps (returned result) s.server refl refl (λ v k. cc k) (λ v k. cc k) tt
  advance-Keeps lost_after (leaving value result) at_i = release-Keeps value result at_i
  advance-Keeps net (returned result) at_i =
      quiet-Keeps (returned result) s.server refl refl (λ v k. cc k) (λ v k. cc k) tt
  advance-Keeps net raised at_i =
      quiet-Keeps raised s.server refl refl (λ v k. cc k) (λ v k. cc k) tt
