-- ===== src/Planner.antt =====
-- app/domain/services/agents/planner.py: the planning agent.
pub mod Update
use boxify_agent.Store.{Database}
use boxify_agent.Prelude.{
  String, ℕ, zero, suc, Bool, true, false, not, Option, none, some, List, [], ◌∷◌, ◌++◌,
  if◌then◌else◌, is_none,
}
use boxify_agent.Result.{Error, Result, ok, err}
use boxify_agent.Plan.{Plan, Step, step_done}
use boxify_agent.Event.{
  Event, EventBody, UserMessage, PlanEventStatus, plan_event, message_event, event,
}
use boxify_agent.Gen.{Gen, finished, raised, yielded, unfinished}
use boxify_agent.Agent.{Services, World, planner}
use boxify_agent.Agent.Loop.{invoke}

-- `plan.steps[:first_pending_index]`, the whole list if no step is pending.
unfoldable pub done_prefix : List Step → List Step
unfolding step_done
done_prefix [] = []
done_prefix (step ∷ steps) = if step_done step then step ∷ done_prefix steps else []

unfoldable pub all_done : List Step → Bool
unfolding step_done
all_done [] = true
all_done (step ∷ steps) = if step_done step then all_done steps else false

-- Steps 7 to 10: the steps from the first pending one on give way to the new ones.
unfoldable pub updated_steps : List Step → List Step → List Step
unfolding done_prefix all_done
updated_steps old new = if all_done old then old else done_prefix old ++ new

unfoldable pub updated_plan : Plan → Plan → Plan
unfolding updated_steps
updated_plan plan parsed = record plan { steps = updated_steps plan.steps parsed.steps }

module _ (env : Services) where
  unfoldable pub take_plan : World → Result Plan → (Database → Gen World Event) → Gen World Event
  take_plan w (ok plan) rest = yielded w (event (plan_event plan PlanEventStatus.created)) rest
  take_plan w (err error) rest = raised error w

  -- The body of the loop over the agent's events: an answer is parsed as a plan, and every other
  -- event goes through.
  unfoldable pub on_planning :
      World → Event → EventBody → (Database → Gen World Event) → Gen World Event
  unfolding take_plan
  on_planning w e (message_event answer) rest = take_plan w (env.parse_plan answer.message) rest
  on_planning w e body rest = yielded w e rest

  unfoldable pub plan_answers : Gen World Event → Gen World Event
  unfolding on_planning
  plan_answers (finished w) = finished w
  plan_answers (raised e w) = raised e w
  plan_answers (unfinished w) = unfinished w
  plan_answers (yielded w e rest) = on_planning w e e.body (λ db. plan_answers (rest db))

  unfoldable pub create_plan : UserMessage → World → Gen World Event
  unfolding plan_answers
  create_plan message w = plan_answers (invoke env planner (env.create_plan_prompt message) w)

  unfoldable pub take_update :
      Plan
      → World
      → Result Plan
      → (Plan → Database → Gen (World × Plan) Event)
      → Gen (World × Plan) Event
  unfolding updated_plan
  take_update plan w (err error) next = raised error (w, plan)
  take_update plan w (ok parsed) next =
      let plan' = updated_plan plan parsed in
      yielded (w, plan') (event (plan_event plan' PlanEventStatus.updated)) (next plan')

  unfoldable pub on_update :
      Plan
      → World
      → Event
      → EventBody
      → (Plan → Database → Gen (World × Plan) Event)
      → Gen (World × Plan) Event
  unfolding take_update
  on_update plan w e (message_event answer) next =
      take_update plan w (env.parse_plan answer.message) next
  on_update plan w e body next = yielded (w, plan) e (next plan)

  -- `plan` is the caller's object: each suspension carries it as it is then.
  unfoldable pub update_answers : Plan → Gen World Event → Gen (World × Plan) Event
  unfolding on_update
  update_answers plan (finished w) = finished (w, plan)
  update_answers plan (raised e w) = raised e (w, plan)
  update_answers plan (unfinished w) = unfinished (w, plan)
  update_answers plan (yielded w e rest) =
      on_update plan w e e.body (λ plan' db. update_answers plan' (rest db))

  unfoldable pub update_plan : Plan → Step → World → Gen (World × Plan) Event
  unfolding update_answers
  update_plan plan step w =
      update_answers plan (invoke env planner (env.update_plan_prompt plan step) w)
