-- ===== src/Runner/Status.antt =====
-- app/domain/agent_task_runner.py: the status in which a run of the task runner leaves its session.
use boxify_agent.Prelude.{◌≤◌, String, ℕ, Bool, true, false, Option, none, some, List, ◌≡◌}
use boxify_agent.Result.{Result, ok, err, cancelled}
use boxify_agent.Event.{Event}
use boxify_agent.Session.{Session, SessionStatus}
use boxify_agent.Store
use boxify_agent.Store.{Database, row_of}
use boxify_agent.Gen.{Gen}
use boxify_agent.Agent.{Services}
use boxify_agent.Runner.{Host, RunState, db_of, put_output}
use boxify_agent.Runner.Loop.{Outcome, over, interrupted, waiting, failed, out_of_rounds}
use boxify_agent.Runner.Log.{Agrees, AddsFromService}

-- The session is there with a status.
abbrev pub StatusIs : String → SessionStatus → Database → Type 0
StatusIs id status db = (row : Session) × (row_of id db.sessions ≡ some row) × (row.status ≡ status)

-- A result that is a value, which meets a condition.
abbrev Succeeds : {A : Type 0} → (A → RunState → Type 0) → Result A × RunState → Type 0
Succeeds P (ok a, st) = P a st
Succeeds P (err e, st) = ⊥

-- From here on no block of statements fails by itself.
abbrev pub Steady : Host → RunState → Type 0
Steady host st = (k : ℕ) → st.calls ≤ k → host.store_fault k ≡ none

module _ (env : Services) (host : Host) where
  -- What the loops know of their outcome: who waits has stored so.
  abbrev Waits : Outcome → RunState → Type 0
  Waits waiting st = StatusIs env.session_id SessionStatus.waiting (db_of st)
  Waits over st = Unit
  Waits interrupted st = Unit
  Waits out_of_rounds st = Unit
  Waits failed st = ⊥

  abbrev WaitsIf : Bool → RunState → Type 0
  WaitsIf true st = StatusIs env.session_id SessionStatus.waiting (db_of st)
  WaitsIf false st = Unit

  module _ (recall : Option (String → String)) (rounds : ℕ) where
    -- The status that goes with the outcome of a run.
    abbrev pub Settles : Outcome → RunState → Type 0
    Settles waiting st = StatusIs env.session_id SessionStatus.waiting (db_of st)
    Settles out_of_rounds st = Unit
    Settles over st = StatusIs env.session_id SessionStatus.completed (db_of st)
    Settles interrupted st = StatusIs env.session_id SessionStatus.completed (db_of st)
    Settles failed st = StatusIs env.session_id SessionStatus.completed (db_of st)

    module _ (accepts : (n : ℕ) (e : Event) → (id : String) × (host.put_output n e ≡ ok id))
        (others : AddsFromService host env.session_id) where
      abbrev AgreesAt : List Event → RunState → Type 0
      AgreesAt base st = Agrees host env.session_id base (db_of st) st.output

      -- A value settles the session; only a cancellation is raised, and then the session is completed.
      abbrev pub Concluded : Result Outcome × RunState → Type 0
      Concluded (ok outcome, st) = Settles outcome st
      Concluded (err cancelled, st) = StatusIs env.session_id SessionStatus.completed (db_of st)
      Concluded (err e, st) = ⊥
