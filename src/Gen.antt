-- ===== src/Gen.antt =====
-- Python's async generators: the events that one yields in order, each with the state at that `yield`,
-- which is what stays if the consumer stops there. While a generator is suspended its consumer may
-- write the database: the generator resumes with the database as it is then.
use boxify_agent.Result.{Error, Result, ok, err}
use boxify_agent.Store.{Database}

pub data Gen (S E : Type 0) : Type 0 where
  -- The body returned, or raised.
  finished : S → Gen S E
  raised : Error → S → Gen S E
  yielded : S → E → (Database → Gen S E) → Gen S E
  -- The rounds given to a `while True` ran out.
  unfinished : S → Gen S E

-- Awaits a call, and goes on with its result.
abbrev pub awaiting : {S E A : Type 0} → Result A × S → (A → S → Gen S E) → Gen S E
awaiting (ok a, s) k = k a s
awaiting (err e, s) k = raised e s

-- The same where the call works on a part of the generator's state.
abbrev pub awaiting_in : {S T E A : Type 0} → (T → S) → Result A × T → (A → T → Gen S E) → Gen S E
awaiting_in into (ok a, t) k = k a t
awaiting_in into (err e, t) k = raised e (into t)

-- A property of every suspension and of the end, whatever the consumer writes in between.
module _ {S E : Type 0} (at : S → E → Type 0) (ends : S → Type 0) (fails : Error → S → Type 0) where
  abbrev pub Always : Gen S E → Type 0
  Always (finished s) = ends s
  Always (raised e s) = fails e s
  Always (yielded s e rest) = at s e × ((db : Database) → Always (rest db))
  Always (unfinished s) = Unit
