-- ===== src/Flow/Answers.antt =====
-- app/domain/services/agents/planner.py and react.py: what their generators write in the database
-- between two suspensions, for a relation that the save of a memory keeps.
use boxify_agent.Prelude.{String, Option, none, some, Bool-cases, inl, inr, ◌==◌, is_empty}
use boxify_agent.Result.{Result, ok, err}
use boxify_agent.Plan.{Plan, Step}
use boxify_agent.Event.{
  Event, EventBody, UserMessage, ToolEventStatus, calling, called, plan_event, title_event,
  step_event, message_event, tool_event, error_event, wait_event, done_event,
}
use boxify_agent.Store.{Database}
use boxify_agent.Gen.{Gen, finished, raised, yielded, unfinished}
use boxify_agent.Agent.{Services, World, planner, react, with_db}
use boxify_agent.Agent.Frame.{Frame, Steps, db_of_world}
use boxify_agent.Agent.Steps.{invoke-Steps}
use boxify_agent.Agent.Loop
use boxify_agent.Planner.{
  plan_answers, on_planning, take_plan, create_plan, update_answers, on_update, take_update,
  update_plan, updated_plan,
}
use boxify_agent.React.{
  question, started_step, ask_user, take_answer, on_event, tell_result, answered_step, failed_step,
  step_events, execute_step, take_summary, on_summary, summary_events, summarize,
}
use boxify_agent.Flow.{FlowState}

module _ (f : Frame) where
  open f use {Rel, here, next}

  -- The database of a generator's state.
  abbrev pub db_of_flow : FlowState → Database
  db_of_flow s = s.world.db

  abbrev pub db_of_first : {A : Type 0} → World × A → Database
  db_of_first (w, a) = w.db

  abbrev pub WorldSteps : Database → Gen World Event → Type 0
  WorldSteps = Steps f (db_of_world f)

  abbrev pub StepSteps : Database → Gen (World × Step) Event → Type 0
  StepSteps = Steps f db_of_first

  abbrev pub PlanSteps : Database → Gen (World × Plan) Event → Type 0
  PlanSteps = Steps f db_of_first

  abbrev pub FlowSteps : Database → Gen FlowState Event → Type 0
  FlowSteps = Steps f db_of_flow

  module _ (env : Services) where
    take_plan-Steps :
        (db : Database) (w : World) (answer : Result Plan) (rest : Database → Gen World Event)
        → Rel db w.db
        → ((db' : Database) → WorldSteps db' (rest db'))
        → WorldSteps db (take_plan env w answer rest)
    unfolding take_plan
    take_plan-Steps db w (ok plan) rest first h = (first, h)
    take_plan-Steps db w (err error) rest first h = first

    on_planning-Steps :
        (db : Database) (w : World) (e : Event) (body : EventBody)
        (rest : Database → Gen World Event)
        → Rel db w.db
        → ((db' : Database) → WorldSteps db' (rest db'))
        → WorldSteps db (on_planning env w e body rest)
    unfolding on_planning
    on_planning-Steps db w e (message_event answer) rest first h =
        take_plan-Steps db w (env.parse_plan answer.message) rest first h
    on_planning-Steps db w e (plan_event p s) rest first h = (first, h)
    on_planning-Steps db w e (title_event p) rest first h = (first, h)
    on_planning-Steps db w e (step_event p s) rest first h = (first, h)
    on_planning-Steps db w e (tool_event p) rest first h = (first, h)
    on_planning-Steps db w e (error_event p) rest first h = (first, h)
    on_planning-Steps db w e wait_event rest first h = (first, h)
    on_planning-Steps db w e done_event rest first h = (first, h)

    plan_answers-Steps :
        (g : Gen World Event) (db : Database) → WorldSteps db g → WorldSteps db (plan_answers env g)
    unfolding plan_answers
    plan_answers-Steps (finished w) db h = h
    plan_answers-Steps (raised e w) db h = h
    plan_answers-Steps (unfinished w) db h = h
    plan_answers-Steps (yielded w e rest) db h =
        on_planning-Steps db w e e.body _ h.0 (λ db'. plan_answers-Steps (rest db') db' (h.1 db'))

    pub create_plan-Steps :
        (db : Database) (message : UserMessage) (w : World)
        → Rel db w.db
        → WorldSteps db (create_plan env message w)
    unfolding create_plan
    create_plan-Steps db message w first =
        plan_answers-Steps (Loop.invoke env planner (env.create_plan_prompt message) w) db
          (invoke-Steps f env db planner _ w first)

    take_update-Steps :
        (db : Database) (plan : Plan) (w : World) (answer : Result Plan)
        (next' : Plan → Database → Gen (World × Plan) Event)
        → Rel db w.db
        → ((p : Plan) (db' : Database) → PlanSteps db' (next' p db'))
        → PlanSteps db (take_update env plan w answer next')
    unfolding take_update
    take_update-Steps db plan w (ok parsed) next' first h = (first, h (updated_plan plan parsed))
    take_update-Steps db plan w (err error) next' first h = first

    on_update-Steps :
        (db : Database) (plan : Plan) (w : World) (e : Event) (body : EventBody)
        (next' : Plan → Database → Gen (World × Plan) Event)
        → Rel db w.db
        → ((p : Plan) (db' : Database) → PlanSteps db' (next' p db'))
        → PlanSteps db (on_update env plan w e body next')
    unfolding on_update
    on_update-Steps db plan w e (message_event answer) next' first h =
        take_update-Steps db plan w (env.parse_plan answer.message) next' first h
    on_update-Steps db plan w e (plan_event p s) next' first h = (first, h plan)
    on_update-Steps db plan w e (title_event p) next' first h = (first, h plan)
    on_update-Steps db plan w e (step_event p s) next' first h = (first, h plan)
    on_update-Steps db plan w e (tool_event p) next' first h = (first, h plan)
    on_update-Steps db plan w e (error_event p) next' first h = (first, h plan)
    on_update-Steps db plan w e wait_event next' first h = (first, h plan)
    on_update-Steps db plan w e done_event next' first h = (first, h plan)

    update_answers-Steps :
        (g : Gen World Event) (db : Database) (plan : Plan)
        → WorldSteps db g
        → PlanSteps db (update_answers env plan g)
    unfolding update_answers
    update_answers-Steps (finished w) db plan h = h
    update_answers-Steps (raised e w) db plan h = h
    update_answers-Steps (unfinished w) db plan h = h
    update_answers-Steps (yielded w e rest) db plan h =
        on_update-Steps db plan w e e.body _ h.0
          (λ p db'. update_answers-Steps (rest db') db' p (h.1 db'))

    pub update_plan-Steps :
        (db : Database) (plan : Plan) (step : Step) (w : World)
        → Rel db w.db
        → PlanSteps db (update_plan env plan step w)
    unfolding update_plan
    update_plan-Steps db plan step w first =
        update_answers-Steps (Loop.invoke env planner (env.update_plan_prompt plan step) w) db plan
          (invoke-Steps f env db planner _ w first)

    ask_user-Steps :
        (db : Database) (step : Step) (w : World) (status : ToolEventStatus) (asked : Result Event)
        (next' : Step → Database → Gen (World × Step) Event)
        → Rel db w.db
        → ((p : Step) (db' : Database) → StepSteps db' (next' p db'))
        → StepSteps db (ask_user env step w status asked next')
    unfolding ask_user
    ask_user-Steps db step w calling (ok e) next' first h = (first, h step)
    ask_user-Steps db step w calling (err e) next' first h = first
    ask_user-Steps db step w called asked next' first h = (first, here)

    tell_result-Steps :
        (result : Option String) (s : World × Step) (rest : Database → Gen (World × Step) Event)
        (db : Database)
        → ((db' : Database) → StepSteps db' (rest db'))
        → StepSteps db (tell_result result s rest db)
    tell_result-Steps none s rest db h = h db
    tell_result-Steps (some r) (w, step) rest db h = elim (Bool-cases (is_empty r)) [
      | inl empty ↦ rw empty (h db)
      | inr full ↦ rw full (here db, h)
    ]

    take_answer-Steps :
        (db : Database) (step : Step) (w : World) (answer : Result Step)
        (next' : Step → Database → Gen (World × Step) Event)
        → Rel db w.db
        → ((p : Step) (db' : Database) → StepSteps db' (next' p db'))
        → StepSteps db (take_answer env step w answer next')
    unfolding take_answer
    take_answer-Steps db step w (ok new) next' first h = (
      first,
      λ db'.
          tell_result-Steps (answered_step step new).result (w, answered_step step new) _ db'
            (h (answered_step step new)),
    )
    take_answer-Steps db step w (err error) next' first h = first

    on_event-Steps :
        (db : Database) (step : Step) (w : World) (e : Event) (body : EventBody)
        (next' : Step → Database → Gen (World × Step) Event)
        → Rel db w.db
        → ((p : Step) (db' : Database) → StepSteps db' (next' p db'))
        → StepSteps db (on_event env step w e body next')
    unfolding on_event
    on_event-Steps db step w e (tool_event call) next' first h =
        elim (Bool-cases (call.function_name == "message_ask_user")) [
          | inl ask ↦
              rw ask
                (ask_user-Steps db step w call.status (question call.function_args) next' first h)
          | inr others ↦ rw others (first, h step)
        ]
    on_event-Steps db step w e (message_event answer) next' first h =
        take_answer-Steps db step w (env.parse_step answer.message) next' first h
    on_event-Steps db step w e (error_event t) next' first h =
        (first, λ db'. (here db', h (failed_step step t)))
    on_event-Steps db step w e (plan_event p s) next' first h = (first, h step)
    on_event-Steps db step w e (title_event p) next' first h = (first, h step)
    on_event-Steps db step w e (step_event p s) next' first h = (first, h step)
    on_event-Steps db step w e wait_event next' first h = (first, h step)
    on_event-Steps db step w e done_event next' first h = (first, h step)

    step_events-Steps :
        (g : Gen World Event) (db : Database) (step : Step)
        → WorldSteps db g
        → StepSteps db (step_events env step g)
    unfolding step_events
    step_events-Steps (finished w) db step h = h
    step_events-Steps (raised e w) db step h = h
    step_events-Steps (unfinished w) db step h = h
    step_events-Steps (yielded w e rest) db step h =
        on_event-Steps db step w e e.body _ h.0
          (λ p db'. step_events-Steps (rest db') db' p (h.1 db'))

    pub execute_step-Steps :
        (db : Database) (plan : Plan) (step : Step) (message : UserMessage) (w : World)
        → Rel db w.db
        → StepSteps db (execute_step env plan step message w)
    unfolding execute_step
    execute_step-Steps db plan step message w first = (
      first,
      λ db'.
          step_events-Steps
            (Loop.invoke env react (env.execution_prompt message plan.language step.description)
              (with_db db' w))
            db' (started_step step) (invoke-Steps f env db' react _ (with_db db' w) (here db')),
    )

    take_summary-Steps :
        (db : Database) (w : World) (answer : Result UserMessage)
        (rest : Database → Gen World Event)
        → Rel db w.db
        → ((db' : Database) → WorldSteps db' (rest db'))
        → WorldSteps db (take_summary env w answer rest)
    unfolding take_summary
    take_summary-Steps db w (ok message) rest first h = (first, h)
    take_summary-Steps db w (err error) rest first h = first

    on_summary-Steps :
        (db : Database) (w : World) (e : Event) (body : EventBody)
        (rest : Database → Gen World Event)
        → Rel db w.db
        → ((db' : Database) → WorldSteps db' (rest db'))
        → WorldSteps db (on_summary env w e body rest)
    unfolding on_summary
    on_summary-Steps db w e (message_event answer) rest first h =
        take_summary-Steps db w (env.parse_message answer.message) rest first h
    on_summary-Steps db w e (plan_event p s) rest first h = (first, h)
    on_summary-Steps db w e (title_event p) rest first h = (first, h)
    on_summary-Steps db w e (step_event p s) rest first h = (first, h)
    on_summary-Steps db w e (tool_event p) rest first h = (first, h)
    on_summary-Steps db w e (error_event p) rest first h = (first, h)
    on_summary-Steps db w e wait_event rest first h = (first, h)
    on_summary-Steps db w e done_event rest first h = (first, h)

    summary_events-Steps :
        (g : Gen World Event) (db : Database)
        → WorldSteps db g
        → WorldSteps db (summary_events env g)
    unfolding summary_events
    summary_events-Steps (finished w) db h = h
    summary_events-Steps (raised e w) db h = h
    summary_events-Steps (unfinished w) db h = h
    summary_events-Steps (yielded w e rest) db h =
        on_summary-Steps db w e e.body _ h.0 (λ db'. summary_events-Steps (rest db') db' (h.1 db'))

    pub summarize-Steps :
        (db : Database) (w : World) → Rel db w.db → WorldSteps db (summarize env w)
    unfolding summarize
    summarize-Steps db w first =
        summary_events-Steps (Loop.invoke env react env.summarize_prompt w) db
          (invoke-Steps f env db react _ w first)
