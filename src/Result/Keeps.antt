-- ===== src/Result/Keeps.antt =====
-- Computations whose every run keeps a predicate of the state, whether it returns or raises.
use boxify_agent.Result.{
  Error, Exec, Result, ok, err, cancelled, resume, caught, catching, commit_or_rollback,
}

module _ {S : Type 0} (P : S → Type 0) where
  -- A computation whose every run keeps a predicate of the state.
  abbrev pub Keeps : {A : Type 0} → Exec S A → Type 0
  Keeps m = (st : S) → P st → P (m st).1

  pub resume-Keeps :
      {A B : Type 0} (r : Result A × S) (k : A → Exec S B)
      → P r.1
      → ((a : A) → Keeps (k a))
      → P (resume r k).1
  resume-Keeps (ok a, st) k p h = h a st p
  resume-Keeps (err e, st) k p h = p

  pub bind-Keeps :
      {A B : Type 0} (m : Exec S A) (k : A → Exec S B)
      → Keeps m
      → ((a : A) → Keeps (k a))
      → Keeps (λ st. resume (m st) k)
  bind-Keeps m k first h st p = resume-Keeps (m st) k (first st p) h

  pub caught-Keeps :
      {A : Type 0} (handler : Error → Exec S A) (r : Result A × S)
      → P r.1
      → ((e : Error) → Keeps (handler e))
      → P (caught handler r).1
  caught-Keeps handler (ok a, st) p h = p
  caught-Keeps handler (err cancelled, st) p h = p
  caught-Keeps handler (err e, st) p h = h e st p

  pub transaction-Keeps :
      {A : Type 0} (before : S) (r : Result A × S)
      → P before
      → P r.1
      → P (commit_or_rollback before r).1
  transaction-Keeps before (ok a, after) p q = q
  transaction-Keeps before (err e, after) p q = p

  pub catching-Keeps :
      {A : Type 0} (m : Exec S A) (handler : Error → Exec S A)
      → Keeps m
      → ((e : Error) → Keeps (handler e))
      → Keeps (catching m handler)
  catching-Keeps m handler first h st p = caught-Keeps handler (m st) (first st p) h
