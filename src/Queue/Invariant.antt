-- ===== src/Queue/Invariant.antt =====
-- redis_stream_message_queue.py, `pop`: what every command keeps, whoever runs it.
use boxify_agent.Prelude.{
  String, ℕ, false, some, List, ◌∷◌, ◌++◌, ◌≡◌, ◌≢◌, sym, ap, ◌∙◌, Bool-cases, inl, inr, nat_eq,
  nat_eq_iff,
}
use mathlib.Core.List.{append_assoc}
use boxify_agent.Queue.{Entry, Redis, Phase, acquiring, locked, found, leaving, returned, raised}
use boxify_agent.Queue.System.{value_of, key_of, System, set_caller}

-- An entry that a caller has found is still the first.
abbrev pub IsFirst : List Entry → Phase → Type 0
IsFirst es (found value e) = (rest : List Entry) × (es ≡ e ∷ rest)
IsFirst es (acquiring value n) = Unit {0}
IsFirst es (locked value) = Unit {0}
IsFirst es (leaving value result) = Unit {0}
IsFirst es (returned result) = Unit {0}
IsFirst es raised = Unit {0}

module _ (r : Redis) where
  open r use {Server, entries, lock}

  pub record Inv (s : System r) : Type 0 where
    pub held : (i : ℕ) (v : String) → key_of (s.callers i) ≡ some v → lock s.server ≡ some v
    pub own :
        (i j : ℕ) (v : String)
        → value_of (s.callers i) ≡ some v
        → value_of (s.callers j) ≡ some v
        → i ≡ j
    pub first : (i : ℕ) → IsFirst (entries s.server) (s.callers i)
    pub log : s.added ≡ s.gone ++ entries s.server

  pub key-value : (p : Phase) (v : String) → key_of p ≡ some v → value_of p ≡ some v
  key-value (acquiring value n) v h = cc h
  key-value (locked value) v h = h
  key-value (found value e) v h = h
  key-value (leaving value result) v h = h
  key-value (returned result) v h = cc h
  key-value raised v h = cc h

  -- One caller at most is between the lock and its release.
  pub alone :
      (s : System r)
      → Inv s
      → (i j : ℕ) (v w : String) → key_of (s.callers i) ≡ some v
      → key_of (s.callers j) ≡ some w
      → i ≡ j
  alone s h i j v w in_i in_j =
      let same : some v ≡ some w = sym (h.held i v in_i) ∙ h.held j w in_j in
      h.own i j v (key-value (s.callers i) v in_i) (key-value (s.callers j) v (in_j ∙ sym same))

  -- What a step of caller `i` has to keep.
  pub record Keeps (s : System r) (i : ℕ) (removed : List Entry) (p : Phase) (server : Server)
      : Type 0 where
    pub held : (v : String) → key_of p ≡ some v → lock server ≡ some v
    pub others : (j : ℕ) (w : String) → j ≢ i → key_of (s.callers j) ≡ some w → lock server ≡ some w
    pub value : (v : String) → value_of p ≡ some v → value_of (s.callers i) ≡ some v
    pub first : IsFirst (entries server) p
    pub firsts : (j : ℕ) → j ≢ i → IsFirst (entries server) (s.callers j)
    pub log : entries s.server ≡ removed ++ entries server

  pub stepped-Inv :
      (s : System r) (i : ℕ) (removed : List Entry) (p : Phase) (server : Server)
      → Inv s
      → Keeps s i removed p server
      → Inv record s {
        server = server;
        callers = set_caller r i p s.callers;
        gone = s.gone ++ removed;
      }
  stepped-Inv s i removed p server h k = record {
    held = λ j v. elim (Bool-cases (nat_eq j i)) [
      | inl same ↦ rw same (k.held v)
      | inr other ↦ rw other (λ e. k.others j v (apart j other) e)
    ];
    own = λ j l v in_j in_l. h.own j l v (before j v in_j) (before l v in_l);
    first = λ j. elim (Bool-cases (nat_eq j i)) [
      | inl same ↦ rw same k.first
      | inr other ↦ rw other (k.firsts j (apart j other))
    ];
    log = rw (append_assoc s.gone removed (entries server)) (h.log ∙ ap (λ t. s.gone ++ t) k.log);
  }
    where
      apart : (j : ℕ) → nat_eq j i ≡ false → j ≢ i
      apart j other e = cc (other, (nat_eq_iff j i).1 e)

      before :
          (j : ℕ) (v : String)
          → value_of (set_caller r i p s.callers j) ≡ some v
          → value_of (s.callers j) ≡ some v
      before j v in_j = elim (Bool-cases (nat_eq j i)) [
        | inl same ↦ rw ((nat_eq_iff j i).0 same) (k.value v (rw same at in_j))
        | inr other ↦ rw other at in_j
      ]
