-- ===== src/Flow.antt =====
-- app/domain/services/flows/planner_react.py: the loop that plans, carries out the steps one by one,
-- updates the plan after each, and sums up.
mod Quiet
pub mod Samples
pub mod Done
pub mod Answers
pub mod Frame
use boxify_agent.Store.{Database}
use boxify_agent.Prelude.{
  String, ℕ, zero, suc, Bool, true, false, not, Option, none, some, List, [], ◌∷◌, if◌then◌else◌,
  is_empty,
}
use Prim.Native.String.{◌++◌ as concat}
use boxify_agent.Result.{
  Error, Result, Exec, ok, err, value_error, runtime_error, ◌>>=◌, ◌>>◌, pure, when, raise,
}
use boxify_agent.Plan.{Plan, Step, ExecutionStatus, get_next_step, step_done}
use boxify_agent.Event.{
  Event, EventBody, UserMessage, PlanEventStatus, plan_event, title_event, done_event, event,
  assistant_message,
}
use boxify_agent.Session.{Session, SessionStatus, get_latest_plan}
use boxify_agent.Store
use boxify_agent.Gen.{Gen, finished, raised, yielded, unfinished, awaiting_in}
use boxify_agent.Agent.{with_db, Services, World, planner, react, in_db, compact_memory, roll_back}
use boxify_agent.Planner.{create_plan, update_plan}
use boxify_agent.React.{execute_step, summarize}

-- app/domain/services/flows/base.py
pub data FlowStatus : Type 0 where
  idle planning executing updating summarizing completed : FlowStatus

pub record FlowState : Type 0 where
  pub world : World
  pub status : FlowStatus
  pub plan : Option Plan
  -- the local variable `step` of `invoke`
  pub step : Option Step

-- The flow with the database as its consumer left it.
abbrev pub at_db : Database → FlowState → FlowState
at_db db s = record s { world = with_db db s.world }

-- The object that `get_next_step` returned is the first pending step of the plan's own list, so what
-- is written to it is written there.
unfoldable pub put_step : Step → List Step → List Step
unfolding step_done
put_step new [] = []
put_step new (step ∷ steps) = if step_done step then step ∷ put_step new steps else new ∷ steps

abbrev pub plan_with : Plan → Step → Plan
plan_with plan step = record plan { steps = put_step step plan.steps }

abbrev pub is_some_step : List Step → Bool
is_some_step [] = false
is_some_step (step ∷ steps) = true

-- `self.plan and len(self.plan.steps) != 0`
unfoldable pub has_steps : Option Plan → Bool
has_steps none = false
has_steps (some plan) = is_some_step plan.steps

-- Follows a generator with its state put into the flow's, and goes on when it returns.
unfoldable pub follow :
    {S : Type 0}
    → (S → FlowState)
    → Gen S Event
    → (FlowState → Gen FlowState Event)
    → Gen FlowState Event
follow into (finished s) k = k (into s)
follow into (raised e s) k = raised e (into s)
follow into (unfinished s) k = unfinished (into s)
follow into (yielded s e rest) k = yielded (into s) e (λ db. follow into (rest db) k)

-- The body of the loop over `create_plan`: a new plan is taken over and its title and message are
-- reported before it.
unfoldable pub on_created :
    FlowState
    → Event
    → EventBody
    → (FlowState → Database → Gen FlowState Event)
    → Gen FlowState Event
on_created s e (plan_event plan PlanEventStatus.created) next =
    let s' = record s { plan = some plan } in
    yielded s' (event (title_event plan.title)) λ db.
      yielded (at_db db s') (assistant_message plan.message)
        λ db'. yielded (at_db db' s') e (next s')
on_created s e body next = yielded s e (next s)

unfoldable pub follow_planning :
    FlowState → Gen World Event → (FlowState → Gen FlowState Event) → Gen FlowState Event
unfolding on_created
follow_planning s (finished w) k = k (record s { world = w })
follow_planning s (raised e w) k = raised e (record s { world = w })
follow_planning s (unfinished w) k = unfinished (record s { world = w })
follow_planning s (yielded w e rest) k =
    on_created (record s { world = w }) e e.body (λ s' db. follow_planning s' (rest db) k)

abbrev pub after_planning : FlowState → FlowState
after_planning s = record s {
  status = if has_steps s.plan then FlowStatus.executing else FlowStatus.completed;
}

-- `plan = cast(Plan, self.plan)`: without a plan the next line raises an AttributeError.
unfoldable pub with_plan :
    FlowState → Option Plan → (Plan → Gen FlowState Event) → Gen FlowState Event
with_plan s none k = raised (runtime_error "plan") s
with_plan s (some plan) k = k plan

abbrev pub running_plan : Plan → Plan
running_plan plan = record plan { status = ExecutionStatus.running }

abbrev completed_plan : Plan → Plan
completed_plan plan = record plan { status = ExecutionStatus.completed }

abbrev pub is_pending : SessionStatus → Bool
is_pending SessionStatus.pending = true
is_pending _ = false

-- The status with which the loop starts: a running session is planned anew, and one that waited
-- for the user goes on with its plan.
unfoldable pub resumed_status : SessionStatus → FlowStatus → FlowStatus
resumed_status SessionStatus.running old = planning
resumed_status SessionStatus.waiting old = executing
resumed_status _ old = old

module _ (env : Services) (message : UserMessage) where
  -- The branch of `EXECUTING` once a step is found.
  unfoldable pub run_step :
      FlowState → Plan → Step → (FlowState → Gen FlowState Event) → Gen FlowState Event
  unfolding follow put_step
  run_step s plan step k =
      follow
        (λ (w, step'). record s {
          world = w;
          plan = some (plan_with plan step');
          step = some step';
        })
        (execute_step env plan step message s.world)
        λ s'.
          awaiting_in (λ w. record s' { world = w }) (compact_memory env react s'.world)
            λ _ w. k (record s' { world = w; status = FlowStatus.updating })

  -- The branch of `EXECUTING`, by the next step.
  unfoldable pub execute_next :
      FlowState → Plan → Option Step → (FlowState → Gen FlowState Event) → Gen FlowState Event
  unfolding run_step
  execute_next s plan none k =
      k (record s { status = FlowStatus.summarizing; plan = some plan; step = none })
  execute_next s plan (some step) k =
      run_step (record s { plan = some plan; step = some step }) plan step k

  unfoldable pub execute_branch :
      FlowState → Plan → (FlowState → Gen FlowState Event) → Gen FlowState Event
  unfolding execute_next get_next_step
  execute_branch s plan k = execute_next s (running_plan plan) (get_next_step (running_plan plan)) k

  -- `cast(Step, step)` is a step in every run that reaches `UPDATING`.
  unfoldable pub update_branch :
      FlowState → Plan → Option Step → (FlowState → Gen FlowState Event) → Gen FlowState Event
  unfolding follow
  update_branch s plan none k = raised (runtime_error "step") s
  update_branch s plan (some step) k =
      follow (λ (w, plan'). record s { world = w; plan = some plan' })
        (update_plan env plan step s.world) λ s'. k (record s' { status = FlowStatus.executing })

  -- One round of the `while True`, by the status; `k` is the next round.
  unfoldable pub round :
      FlowState → FlowStatus → (FlowState → Gen FlowState Event) → Gen FlowState Event
  unfolding follow_planning has_steps with_plan execute_branch update_branch follow
  round s idle k = k (record s { status = FlowStatus.planning })
  round s planning k =
      follow_planning s (create_plan env message s.world) (λ s'. k (after_planning s'))
  round s executing k = with_plan s s.plan (λ plan. execute_branch s plan k)
  round s updating k = with_plan s s.plan (λ plan. update_branch s plan s.step k)
  round s summarizing k =
      follow (λ w. record s { world = w }) (summarize env s.world)
        λ s'. k (record s' { status = FlowStatus.completed })
  round s completed k = with_plan s s.plan λ plan.
      let s' = record s { plan = some (completed_plan plan); status = FlowStatus.idle } in
      yielded s' (event (plan_event (completed_plan plan) PlanEventStatus.completed))
        λ db. yielded (at_db db s') (event done_event) (λ db'. finished (at_db db' s'))

  unfoldable pub run_rounds : ℕ → FlowState → Gen FlowState Event
  unfolding round
  run_rounds zero s = unfinished s
  run_rounds (suc n) s = round s s.status (λ s'. run_rounds n s')

  unfoldable pub prepare_memories : Session → Exec World (Unit {0})
  prepare_memories session =
      when (not (is_pending session.status))
        (roll_back env planner message >> roll_back env react message)

  unfoldable pub load_session : Exec World Session
  load_session = do
    found ← in_db (Store.get_by_id env.session_id)
    elim found [ none ↦ raise (value_error env.session_id) | some session ↦ pure session ]

  -- Everything before the loop: the session as it was read, and the world after.
  unfoldable pub open_session : Exec World Session
  unfolding load_session prepare_memories
  open_session = do
    session ← load_session
    prepare_memories session
    in_db (Store.update_status env.session_id SessionStatus.running)
    pure session

-- `_message_with_active_recall`: `recall` is the context that was recalled for a text.
unfoldable pub message_with_recall : Option (String → String) → UserMessage → UserMessage
message_with_recall none message = message
message_with_recall (some recall) message =
    if is_empty (recall message.message) then message else record message {
      message = concat (recall message.message) (concat "\n\n当前用户问题：\n" message.message);
    }

-- `PlannerReActFlow.invoke`, with the rounds of its `while True`.
unfoldable pub invoke :
    Services → Option (String → String) → ℕ → UserMessage → FlowState → Gen FlowState Event
unfolding open_session resumed_status message_with_recall run_rounds
invoke env recall rounds message s =
    awaiting_in (λ w. record s { world = w }) (open_session env message s.world)
      λ session w. run_rounds env (message_with_recall recall message) rounds (record s {
        world = w;
        status = resumed_status session.status s.status;
        plan = get_latest_plan session;
        step = none;
      })
