-- ===== src/Flow/Quiet.antt =====
-- app/domain/services/agents/planner.py and react.py: which plan events their generators pass on.
use boxify_agent.Store.{Database}
use boxify_agent.Prelude.{
  String, ℕ, zero, suc, Option, none, some, List, [], ◌∷◌, ◌≡◌, refl, Bool-cases, Option-cases, inl,
  inr, ◌==◌, is_empty,
}
use boxify_agent.Result.{Result, ok, err}
use boxify_agent.Plan.{Plan, Step}
use boxify_agent.Memory.{ChatMessage, ToolCall}
use boxify_agent.Event.{
  Event, EventBody, UserMessage, Value, text, other, ToolEventStatus, calling, called,
  PlanEventStatus, plan_event, title_event, step_event, message_event, tool_event, error_event,
  wait_event, done_event,
}
use boxify_agent.Gen.{Gen, finished, raised, yielded, unfinished, awaiting, Always}
use boxify_agent.Agent.{with_db, Services, Agent, World, planner, react, agent_format}
use boxify_agent.Agent.Llm.{invoke_llm, invoke_tool}
use boxify_agent.Agent.Loop.{iterate, invoke, tool_loop, one_call, prepare, final_event}
use boxify_agent.Planner.{
  plan_answers, on_planning, take_plan, create_plan, update_answers, on_update, take_update,
  update_plan, updated_plan,
}
use boxify_agent.React.{
  question, asked_by, lookup_arg, started_step, summary, ask_user, take_answer, on_event,
  tell_result, answered_step, failed_step, step_events, execute_step, take_summary, on_summary,
  summary_events, summarize,
}

-- No report of a completed plan.
abbrev pub Quiet : EventBody → Type 0
Quiet (plan_event plan PlanEventStatus.completed) = ⊥
Quiet body = Unit

abbrev pub AlwaysQuiet : {S : Type 0} → Gen S Event → Type 0
AlwaysQuiet = Always (λ s e. Quiet e.body) (λ s. Unit {0}) (λ e s. Unit {0})

awaiting-Quiet :
    {A S : Type 0} (r : Result A × S) (k : A → S → Gen S Event)
    → ((a : A) (s : S) → AlwaysQuiet (k a s))
    → AlwaysQuiet (awaiting r k)
awaiting-Quiet (ok a, s) k h = h a s
awaiting-Quiet (err e, s) k h = tt

module _ (env : Services) where
  tool_loop-Quiet :
      (calls : List ToolCall) (answers : List ChatMessage) (w : World)
      (k : List ChatMessage → World → Gen World Event)
      → ((ms : List ChatMessage) (w' : World) → AlwaysQuiet (k ms w'))
      → AlwaysQuiet (tool_loop env calls answers w k)
  unfolding tool_loop one_call
  tool_loop-Quiet [] answers w k h = h answers w
  tool_loop-Quiet (call ∷ calls) answers w k h = elim (Option-cases call.function) [
    | inl missing ↦ rw (missing, tool_loop) (tool_loop-Quiet calls answers w k h)
    | inr (function, e) ↦
        rw (e, tool_loop)
          (awaiting-Quiet (prepare env call.id function w) _ (λ invocation w'. (
            tt,
            λ db.
                awaiting-Quiet
                  (invoke_tool env invocation.tool_name invocation.function_name invocation.args
                    (with_db db w'))
                  _ (λ result w''. (tt, λ db'. tool_loop-Quiet calls _ (with_db db' w'') k h)),
          )))
  ]

  final_event-Quiet : (message : ChatMessage) (w : World) → AlwaysQuiet (final_event env message w)
  unfolding final_event
  final_event-Quiet message w = elim (Option-cases message.content) [
    | inl missing ↦ rw (missing, final_event) tt
    | inr (content, e) ↦ rw (e, final_event) (tt, λ db. tt)
  ]

  iterate-Quiet :
      (n : ℕ) (agent : Agent) (message : ChatMessage) (calls : List ToolCall) (w : World)
      → message.tool_calls ≡ calls
      → AlwaysQuiet (iterate env n agent message w)
  unfolding iterate
  iterate-Quiet zero agent message calls w e = (tt, λ db. final_event-Quiet message (with_db db w))
  iterate-Quiet (suc n) agent message [] w e = rw (e, iterate) (final_event-Quiet message w)
  iterate-Quiet (suc n) agent message (call ∷ calls) w e =
      rw (e, iterate)
        (tool_loop-Quiet (call ∷ calls) [] w _ (λ answers w'.
          awaiting-Quiet (invoke_llm env agent answers none w') _
            (λ next w''. iterate-Quiet n agent next next.tool_calls w'' refl)))

  invoke-Quiet :
      (agent : Agent) (query : String) (w : World) → AlwaysQuiet (invoke env agent query w)
  unfolding invoke
  invoke-Quiet agent query w =
      awaiting-Quiet (invoke_llm env agent _ (agent_format agent) w) _
        (λ message w'. iterate-Quiet env.max_iterations agent message message.tool_calls w' refl)

  take_plan-Quiet :
      (w : World) (answer : Result Plan) (rest : Database → Gen World Event)
      → ((db : Database) → AlwaysQuiet (rest db))
      → AlwaysQuiet (take_plan env w answer rest)
  unfolding take_plan
  take_plan-Quiet w (ok plan) rest h = (tt, h)
  take_plan-Quiet w (err error) rest h = tt

  on_planning-Quiet :
      (w : World) (e : Event) (body : EventBody) (rest : Database → Gen World Event)
      → e.body ≡ body
      → Quiet body
      → ((db : Database) → AlwaysQuiet (rest db))
      → AlwaysQuiet (on_planning env w e body rest)
  unfolding on_planning
  on_planning-Quiet w e (message_event answer) rest b q h =
      take_plan-Quiet w (env.parse_plan answer.message) rest h
  on_planning-Quiet w e (tool_event c) rest b q h = (rw b tt, h)
  on_planning-Quiet w e (plan_event p s) rest b q h = (rw b q, h)
  on_planning-Quiet w e (title_event t) rest b q h = (rw b tt, h)
  on_planning-Quiet w e (step_event t s) rest b q h = (rw b tt, h)
  on_planning-Quiet w e (error_event t) rest b q h = (rw b tt, h)
  on_planning-Quiet w e wait_event rest b q h = (rw b tt, h)
  on_planning-Quiet w e done_event rest b q h = (rw b tt, h)

  plan_answers-Quiet : (g : Gen World Event) → AlwaysQuiet g → AlwaysQuiet (plan_answers env g)
  unfolding plan_answers
  plan_answers-Quiet (finished w) h = tt
  plan_answers-Quiet (raised e w) h = tt
  plan_answers-Quiet (unfinished w) h = tt
  plan_answers-Quiet (yielded w e rest) h =
      on_planning-Quiet w e e.body _ refl h.0 (λ db. plan_answers-Quiet (rest db) (h.1 db))

  pub create_plan-Quiet :
      (message : UserMessage) (w : World) → AlwaysQuiet (create_plan env message w)
  unfolding create_plan
  create_plan-Quiet message w =
      plan_answers-Quiet (invoke env planner (env.create_plan_prompt message) w)
        (invoke-Quiet planner _ w)

  take_update-Quiet :
      (plan : Plan) (w : World) (answer : Result Plan)
      (next : Plan → Database → Gen (World × Plan) Event)
      → ((p : Plan) (db : Database) → AlwaysQuiet (next p db))
      → AlwaysQuiet (take_update env plan w answer next)
  unfolding take_update
  take_update-Quiet plan w (ok parsed) next h = (tt, h (updated_plan plan parsed))
  take_update-Quiet plan w (err error) next h = tt

  on_update-Quiet :
      (plan : Plan) (w : World) (e : Event) (body : EventBody)
      (next : Plan → Database → Gen (World × Plan) Event)
      → e.body ≡ body
      → Quiet body
      → ((p : Plan) (db : Database) → AlwaysQuiet (next p db))
      → AlwaysQuiet (on_update env plan w e body next)
  unfolding on_update
  on_update-Quiet plan w e (message_event answer) next b q h =
      take_update-Quiet plan w (env.parse_plan answer.message) next h
  on_update-Quiet plan w e (tool_event c) next b q h = (rw b tt, h plan)
  on_update-Quiet plan w e (plan_event p s) next b q h = (rw b q, h plan)
  on_update-Quiet plan w e (title_event t) next b q h = (rw b tt, h plan)
  on_update-Quiet plan w e (step_event t s) next b q h = (rw b tt, h plan)
  on_update-Quiet plan w e (error_event t) next b q h = (rw b tt, h plan)
  on_update-Quiet plan w e wait_event next b q h = (rw b tt, h plan)
  on_update-Quiet plan w e done_event next b q h = (rw b tt, h plan)

  update_answers-Quiet :
      (g : Gen World Event) (plan : Plan) → AlwaysQuiet g → AlwaysQuiet (update_answers env plan g)
  unfolding update_answers
  update_answers-Quiet (finished w) plan h = tt
  update_answers-Quiet (raised e w) plan h = tt
  update_answers-Quiet (unfinished w) plan h = tt
  update_answers-Quiet (yielded w e rest) plan h =
      on_update-Quiet plan w e e.body _ refl h.0 (λ p db. update_answers-Quiet (rest db) p (h.1 db))

  pub update_plan-Quiet :
      (plan : Plan) (step : Step) (w : World) → AlwaysQuiet (update_plan env plan step w)
  unfolding update_plan
  update_plan-Quiet plan step w =
      update_answers-Quiet (invoke env planner (env.update_plan_prompt plan step) w) plan
        (invoke-Quiet planner _ w)

  ask_user-Quiet :
      (step : Step) (w : World) (status : ToolEventStatus) (value : Option Value)
      (next : Step → Database → Gen (World × Step) Event)
      → ((p : Step) (db : Database) → AlwaysQuiet (next p db))
      → AlwaysQuiet (ask_user env step w status (asked_by value) next)
  unfolding ask_user asked_by
  ask_user-Quiet step w calling none next h = (tt, h step)
  ask_user-Quiet step w calling (some (text s)) next h = (tt, h step)
  ask_user-Quiet step w calling (some (other json)) next h = tt
  ask_user-Quiet step w called value next h = (tt, λ db. tt)

  tell_result-Quiet :
      (result : Option String) (s : World × Step) (rest : Database → Gen (World × Step) Event)
      (db : Database)
      → ((db' : Database) → AlwaysQuiet (rest db'))
      → AlwaysQuiet (tell_result result s rest db)
  tell_result-Quiet none s rest db h = h db
  tell_result-Quiet (some r) (w, step) rest db h = elim (Bool-cases (is_empty r)) [
    | inl empty ↦ rw empty (h db)
    | inr full ↦ rw full (tt, h)
  ]

  take_answer-Quiet :
      (step : Step) (w : World) (answer : Result Step)
      (next : Step → Database → Gen (World × Step) Event)
      → ((p : Step) (db : Database) → AlwaysQuiet (next p db))
      → AlwaysQuiet (take_answer env step w answer next)
  unfolding take_answer
  take_answer-Quiet step w (ok new) next h = (
    tt,
    λ db.
        tell_result-Quiet (answered_step step new).result (w, answered_step step new) _ db
          (h (answered_step step new)),
  )
  take_answer-Quiet step w (err error) next h = tt

  on_event-Quiet :
      (step : Step) (w : World) (e : Event) (body : EventBody)
      (next : Step → Database → Gen (World × Step) Event)
      → e.body ≡ body
      → Quiet body
      → ((p : Step) (db : Database) → AlwaysQuiet (next p db))
      → AlwaysQuiet (on_event env step w e body next)
  unfolding on_event question
  on_event-Quiet step w e (tool_event call) next b q h =
      elim (Bool-cases (call.function_name == "message_ask_user")) [
        | inl ask ↦
            rw ask (ask_user-Quiet step w call.status (lookup_arg "text" call.function_args) next h)
        | inr others ↦ rw others (rw b tt, h step)
      ]
  on_event-Quiet step w e (message_event answer) next b q h =
      take_answer-Quiet step w (env.parse_step answer.message) next h
  on_event-Quiet step w e (error_event t) next b q h = (tt, λ db. (rw b tt, h (failed_step step t)))
  on_event-Quiet step w e (plan_event p s) next b q h = (rw b q, h step)
  on_event-Quiet step w e (title_event t) next b q h = (rw b tt, h step)
  on_event-Quiet step w e (step_event t s) next b q h = (rw b tt, h step)
  on_event-Quiet step w e wait_event next b q h = (rw b tt, h step)
  on_event-Quiet step w e done_event next b q h = (rw b tt, h step)

  step_events-Quiet :
      (g : Gen World Event) (step : Step) → AlwaysQuiet g → AlwaysQuiet (step_events env step g)
  unfolding step_events
  step_events-Quiet (finished w) step h = tt
  step_events-Quiet (raised e w) step h = tt
  step_events-Quiet (unfinished w) step h = tt
  step_events-Quiet (yielded w e rest) step h =
      on_event-Quiet step w e e.body _ refl h.0 (λ p db. step_events-Quiet (rest db) p (h.1 db))

  pub execute_step-Quiet :
      (plan : Plan) (step : Step) (message : UserMessage) (w : World)
      → AlwaysQuiet (execute_step env plan step message w)
  unfolding execute_step
  execute_step-Quiet plan step message w = (
    tt,
    λ db.
        step_events-Quiet
          (invoke env react (env.execution_prompt message plan.language step.description)
            (with_db db w))
          (started_step step) (invoke-Quiet react _ (with_db db w)),
  )

  take_summary-Quiet :
      (w : World) (answer : Result UserMessage) (rest : Database → Gen World Event)
      → ((db : Database) → AlwaysQuiet (rest db))
      → AlwaysQuiet (take_summary env w answer rest)
  unfolding take_summary summary
  take_summary-Quiet w (ok message) rest h = (tt, h)
  take_summary-Quiet w (err error) rest h = tt

  on_summary-Quiet :
      (w : World) (e : Event) (body : EventBody) (rest : Database → Gen World Event)
      → e.body ≡ body
      → Quiet body
      → ((db : Database) → AlwaysQuiet (rest db))
      → AlwaysQuiet (on_summary env w e body rest)
  unfolding on_summary
  on_summary-Quiet w e (message_event answer) rest b q h =
      take_summary-Quiet w (env.parse_message answer.message) rest h
  on_summary-Quiet w e (tool_event c) rest b q h = (rw b tt, h)
  on_summary-Quiet w e (plan_event p s) rest b q h = (rw b q, h)
  on_summary-Quiet w e (title_event t) rest b q h = (rw b tt, h)
  on_summary-Quiet w e (step_event t s) rest b q h = (rw b tt, h)
  on_summary-Quiet w e (error_event t) rest b q h = (rw b tt, h)
  on_summary-Quiet w e wait_event rest b q h = (rw b tt, h)
  on_summary-Quiet w e done_event rest b q h = (rw b tt, h)

  summary_events-Quiet : (g : Gen World Event) → AlwaysQuiet g → AlwaysQuiet (summary_events env g)
  unfolding summary_events
  summary_events-Quiet (finished w) h = tt
  summary_events-Quiet (raised e w) h = tt
  summary_events-Quiet (unfinished w) h = tt
  summary_events-Quiet (yielded w e rest) h =
      on_summary-Quiet w e e.body _ refl h.0 (λ db. summary_events-Quiet (rest db) (h.1 db))

  pub summarize-Quiet : (w : World) → AlwaysQuiet (summarize env w)
  unfolding summarize
  summarize-Quiet w =
      summary_events-Quiet (invoke env react env.summarize_prompt w) (invoke-Quiet react _ w)
