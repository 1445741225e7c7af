-- ===== src/Result.antt =====
-- Python's exceptions as values, and the monad of code that changes a state and may raise: the
-- changes made before a `raise` stay.
pub mod Keeps
use boxify_agent.Prelude.{String, ◌≡◌, refl, ◌⊎◌, inl, inr, Bool, true, false}

-- The exceptions that the modelled code raises, each with the values that its message shows.
pub data Error : Type 0 where
  -- application/errors/exceptions.py
  not_found bad_request server_error : String → Error
  -- Python's and pydantic's own
  value_error runtime_error key_error validation_error : String → Error
  -- the database refuses a foreign key
  integrity_error : String → Error
  -- raised by a service outside the repository: a model, a tool, a sandbox, a parser
  external_error : String → Error
  -- asyncio.CancelledError, which `except Exception` does not catch
  cancelled : Error

pub data Result {ℓ} (A : Type ℓ) : Type ℓ where
  ok : A → Result A
  err : Error → Result A

abbrev pub Exec : Type 0 → Type 0 → Type 0
Exec S A = S → Result A × S

abbrev pub resume : {S A B : Type 0} → Result A × S → (A → Exec S B) → Result B × S
resume (ok a, s) f = f a s
resume (err e, s) f = (err e, s)

infixl 5 ◌>>=◌ ◌>>◌
abbrev pub ◌>>=◌ : {S A B : Type 0} → Exec S A → (A → Exec S B) → Exec S B
◌>>=◌ m f s = resume (m s) f

abbrev pub ◌>>◌ : {S B : Type 0} → Exec S (Unit {0}) → Exec S B → Exec S B
◌>>◌ m k s = resume (m s) (λ _. k)

abbrev pub pure : {S A : Type 0} → A → Exec S A
pure a s = (ok a, s)

abbrev pub raise : {S A : Type 0} → Error → Exec S A
raise e s = (err e, s)

abbrev pub gets : {S A : Type 0} → (S → A) → Exec S A
gets f s = (ok (f s), s)

abbrev pub modify : {S : Type 0} → (S → S) → Exec S (Unit {0})
modify f s = (ok tt, f s)

-- A call that raises or returns, and changes nothing here.
abbrev pub lift : {S A : Type 0} → Result A → Exec S A
lift r s = (r, s)

-- `if test: action`
abbrev pub when : {S : Type 0} → Bool → Exec S (Unit {0}) → Exec S (Unit {0})
when true m = m
when false m = pure tt

-- `async with uow_factory() as uow`: committed at the end of the block, rolled back if it raises.
abbrev pub commit_or_rollback : {S A : Type 0} → S → Result A × S → Result A × S
commit_or_rollback before (ok a, after) = (ok a, after)
commit_or_rollback before (err e, after) = (err e, before)

abbrev pub transaction : {S A : Type 0} → Exec S A → Exec S A
transaction m s = commit_or_rollback s (m s)

pub Result-cases {ℓ} :
    {A : Type ℓ} (r : Result A) → ((a : A) × (r ≡ ok a)) ⊎ ((e : Error) × (r ≡ err e))
Result-cases (ok a) = inl (a, refl)
Result-cases (err e) = inr (e, refl)

-- `try: body except Exception as e: handler`
abbrev pub caught : {A S : Type 0} → (Error → Exec S A) → Result A × S → Result A × S
caught handler (ok a, s) = (ok a, s)
caught handler (err cancelled, s) = (err cancelled, s)
caught handler (err e, s) = handler e s

abbrev pub catching : {A S : Type 0} → Exec S A → (Error → Exec S A) → Exec S A
catching body handler s = caught handler (body s)

-- What holds of the value and the state of a call that returns.
abbrev pub IfReturns : {A S : Type 0} → (A → S → Type 0) → Result A × S → Type 0
IfReturns P (ok a, s) = P a s
IfReturns P (err e, s) = Unit {0}

pub resume-IfReturns :
    {A B S : Type 0} (P : A → S → Type 0) (Q : B → S → Type 0) (r : Result A × S) (k : A → Exec S B)
    → IfReturns P r
    → ((a : A) (s : S) → P a s → IfReturns Q (k a s))
    → IfReturns Q (resume r k)
resume-IfReturns P Q (ok a, s) k h next = next a s h
resume-IfReturns P Q (err e, s) k h next = tt

pub skip-IfReturns :
    {A B S : Type 0} (Q : B → S → Type 0) (r : Result A × S) (k : A → Exec S B)
    → ((a : A) (s : S) → IfReturns Q (k a s))
    → IfReturns Q (resume r k)
skip-IfReturns Q (ok a, s) k next = next a s
skip-IfReturns Q (err e, s) k next = tt
