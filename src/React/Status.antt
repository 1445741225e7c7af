-- ===== src/React/Status.antt =====
-- app/domain/services/agents/react.py: the status in which `execute_step` leaves its step.
use boxify_agent.Store.{Database}
use boxify_agent.Prelude.{
  String, Bool, true, false, Option, none, some, ◌≡◌, refl, ◌⊎◌, inl, inr, ◌==◌, Bool-cases,
  is_empty,
}
use boxify_agent.Result.{Result, ok, err}
use boxify_agent.Plan.{Plan, Step, ExecutionStatus}
use boxify_agent.Event.{
  Event, EventBody, UserMessage, ToolEventStatus, calling, called, plan_event, title_event,
  message_event, tool_event, step_event, error_event, wait_event, done_event,
}
use boxify_agent.Gen.{Gen, finished, raised, yielded, unfinished}
use boxify_agent.Agent.{with_db, Services, World, react}
use boxify_agent.Agent.Loop.{invoke}
use boxify_agent.React.{
  question, ask_user, take_answer, on_event, completed_step, answered_step, failed_step,
  tell_result, started_step, step_events, execute_step,
}

abbrev pub is_wait : Event → Bool
is_wait e = elim e.body [ wait_event ↦ true | _ ↦ false ]

-- If the generator returns, its step is `COMPLETED`, or the last event was a `WaitEvent` (`waited`,
-- for the event before).
abbrev pub Completes : Bool → Gen (World × Step) Event → Type 0
Completes waited (finished (w, step)) = (step.status ≡ ExecutionStatus.completed) ⊎ (waited ≡ true)
Completes waited (raised e s) = Unit
Completes waited (unfinished s) = Unit
Completes waited (yielded s e rest) = (db : Database) → Completes (is_wait e) (rest db)

tell_result-Completes :
    (result : Option String) (s : World × Step) (waited : Bool)
    (rest : Database → Gen (World × Step) Event) (db : Database)
    → ((b : Bool) (db' : Database) → Completes b (rest db'))
    → Completes waited (tell_result result s rest db)
tell_result-Completes none s waited rest db h = h waited db
tell_result-Completes (some r) (w, step) waited rest db h = elim (Bool-cases (is_empty r)) [
  | inl empty ↦ rw empty (h waited db)
  | inr full ↦ rw full (h false)
]

module _ (env : Services) where
  ask_user-Completes :
      (step : Step) (w : World) (status : ToolEventStatus) (asked : Result Event)
      (next : Step → Database → Gen (World × Step) Event) (waited : Bool)
      → ((b : Bool) (s : Step) (db : Database) → Completes b (next s db))
      → Completes waited (ask_user env step w status asked next)
  unfolding ask_user
  ask_user-Completes step w calling (ok asked) next waited h = h (is_wait asked) step
  ask_user-Completes step w calling (err error) next waited h = tt
  ask_user-Completes step w called asked next waited h = λ db. inr refl

  take_answer-Completes :
      (step : Step) (w : World) (answer : Result Step)
      (next : Step → Database → Gen (World × Step) Event) (waited : Bool)
      → ((b : Bool) (s : Step) (db : Database) → Completes b (next s db))
      → Completes waited (take_answer env step w answer next)
  unfolding take_answer
  take_answer-Completes step w (ok new) next waited h = λ db.
      tell_result-Completes (answered_step step new).result (w, answered_step step new) false _ db
        (λ b db'. h b (answered_step step new) db')
  take_answer-Completes step w (err error) next waited h = tt

  on_event-Completes :
      (step : Step) (w : World) (e : Event) (body : EventBody)
      (next : Step → Database → Gen (World × Step) Event) (waited : Bool)
      → ((b : Bool) (s : Step) (db : Database) → Completes b (next s db))
      → Completes waited (on_event env step w e body next)
  unfolding on_event
  on_event-Completes step w e (tool_event call) next waited h =
      elim (Bool-cases (call.function_name == "message_ask_user")) [
        | inl ask ↦
            rw ask
              (ask_user-Completes step w call.status (question call.function_args) next waited h)
        | inr other ↦ rw other (h (is_wait e) step)
      ]
  on_event-Completes step w e (message_event answer) next waited h =
      take_answer-Completes step w (env.parse_step answer.message) next waited h
  on_event-Completes step w e (error_event error) next waited h =
      λ db db'. h (is_wait e) (failed_step step error) db'
  on_event-Completes step w e (plan_event p s) next waited h = h (is_wait e) step
  on_event-Completes step w e (title_event t) next waited h = h (is_wait e) step
  on_event-Completes step w e (step_event t s) next waited h = h (is_wait e) step
  on_event-Completes step w e wait_event next waited h = h (is_wait e) step
  on_event-Completes step w e done_event next waited h = h (is_wait e) step

  pub step_events-Completes :
      (g : Gen World Event) (step : Step) (waited : Bool)
      → Completes waited (step_events env step g)
  unfolding step_events completed_step
  step_events-Completes (finished w) step waited = inl refl
  step_events-Completes (raised e w) step waited = tt
  step_events-Completes (unfinished w) step waited = tt
  step_events-Completes (yielded w e rest) step waited =
      on_event-Completes step w e e.body _ waited (λ b s db. step_events-Completes (rest db) s b)

  -- When `execute_step` returns, the step is `COMPLETED` or its last event was a `WaitEvent`.
  pub execute_step-Completes :
      (plan : Plan) (step : Step) (message : UserMessage) (w : World)
      → Completes false (execute_step env plan step message w)
  unfolding execute_step
  execute_step-Completes plan step message w = λ db.
      step_events-Completes
        (invoke env react (env.execution_prompt message plan.language step.description)
          (with_db db w))
        (started_step step) false
