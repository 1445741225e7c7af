-- ===== src/Flow/Done.antt =====
-- app/domain/services/flows/planner_react.py: when the flow reports its plan as completed, and how it
-- ends.
use boxify_agent.Store.{Database}
use boxify_agent.Prelude.{
  String, ℕ, zero, suc, Bool, false, Option, none, some, List, [], ◌∷◌, ◌≡◌, refl, sym, subst,
  Bool-cases, inl, inr, find, if◌then◌else◌,
}
use boxify_agent.Result.{Result, ok, err}
use boxify_agent.Plan.{Plan, Step, ExecutionStatus, get_next_step}
use boxify_agent.Event.{
  Event, EventBody, UserMessage, PlanEventStatus, plan_event, title_event, step_event,
  message_event, tool_event, error_event, wait_event, done_event,
}
use boxify_agent.Session.{Session, SessionStatus, get_latest_plan}
use boxify_agent.Gen.{Gen, finished, raised, yielded, unfinished, awaiting_in, Always}
use boxify_agent.Agent.{Services, World, react, compact_memory}
use boxify_agent.Planner.{create_plan, update_plan}
use boxify_agent.React.{execute_step, summarize}
use boxify_agent.Flow.{
  FlowStatus, FlowState, idle, planning, executing, updating, summarizing, completed, has_steps,
  is_some_step, follow, on_created, follow_planning, after_planning, with_plan, plan_with,
  running_plan, completed_plan, run_step, execute_next, execute_branch, update_branch, round,
  run_rounds, open_session, resumed_status, message_with_recall, invoke,
}
use boxify_agent.Flow.Quiet.{
  Quiet, AlwaysQuiet, create_plan-Quiet, update_plan-Quiet, execute_step-Quiet, summarize-Quiet,
}

-- A plan that is reported as completed has no step left.
abbrev pub ReportsDone : EventBody → Type 0
ReportsDone (plan_event plan PlanEventStatus.completed) = get_next_step plan ≡ none
ReportsDone body = Unit

-- The flow is idle again, and its plan is `COMPLETED` with no step left.
pub record IsOver (s : FlowState) : Type 0 where
  pub idle_again : s.status ≡ idle
  pub plan : Plan
  pub kept : s.plan ≡ some plan
  pub marked : plan.status ≡ ExecutionStatus.completed
  pub none_left : get_next_step plan ≡ none

abbrev pub EndsDone : Gen FlowState Event → Type 0
EndsDone = Always (λ s e. ReportsDone e.body) IsOver (λ e s. Unit {0})

abbrev NothingLeft : Option Plan → Type 0
NothingLeft none = Unit
NothingLeft (some plan) = get_next_step plan ≡ none

-- What the loop relies on when it starts a round.
abbrev pub Ready : FlowStatus → Option Plan → Type 0
Ready summarizing plan = NothingLeft plan
Ready completed plan = NothingLeft plan
Ready idle plan = Unit
Ready planning plan = Unit
Ready executing plan = Unit
Ready updating plan = Unit

Quiet-ReportsDone : (body : EventBody) → Quiet body → ReportsDone body
Quiet-ReportsDone (plan_event p PlanEventStatus.completed) q = absurd q
Quiet-ReportsDone (plan_event p PlanEventStatus.created) q = tt
Quiet-ReportsDone (plan_event p PlanEventStatus.updated) q = tt
Quiet-ReportsDone (title_event t) q = tt
Quiet-ReportsDone (step_event t s) q = tt
Quiet-ReportsDone (message_event m) q = tt
Quiet-ReportsDone (tool_event m) q = tt
Quiet-ReportsDone (error_event m) q = tt
Quiet-ReportsDone wait_event q = tt
Quiet-ReportsDone done_event q = tt

follow-EndsDone :
    {S : Type 0} (into : S → FlowState) (g : Gen S Event) (k : FlowState → Gen FlowState Event)
    → AlwaysQuiet g
    → ((t : S) → EndsDone (k (into t)))
    → EndsDone (follow into g k)
unfolding follow
follow-EndsDone into (finished t) k q h = h t
follow-EndsDone into (raised e t) k q h = tt
follow-EndsDone into (unfinished t) k q h = tt
follow-EndsDone into (yielded t e rest) k q h =
    (Quiet-ReportsDone e.body q.0, λ db. follow-EndsDone into (rest db) k (q.1 db) h)

on_created-EndsDone :
    (s : FlowState) (e : Event) (body : EventBody)
    (next : FlowState → Database → Gen FlowState Event)
    → e.body ≡ body
    → Quiet body
    → ((s' : FlowState) (db : Database) → EndsDone (next s' db))
    → EndsDone (on_created s e body next)
unfolding on_created
on_created-EndsDone s e (plan_event p PlanEventStatus.created) next b q h =
    (tt, λ db. (tt, λ db'. (rw b tt, h _)))
on_created-EndsDone s e (plan_event p PlanEventStatus.updated) next b q h = (rw b tt, h s)
on_created-EndsDone s e (plan_event p PlanEventStatus.completed) next b q h = absurd q
on_created-EndsDone s e (title_event t) next b q h = (rw b tt, h s)
on_created-EndsDone s e (step_event t u) next b q h = (rw b tt, h s)
on_created-EndsDone s e (message_event m) next b q h = (rw b tt, h s)
on_created-EndsDone s e (tool_event m) next b q h = (rw b tt, h s)
on_created-EndsDone s e (error_event m) next b q h = (rw b tt, h s)
on_created-EndsDone s e wait_event next b q h = (rw b tt, h s)
on_created-EndsDone s e done_event next b q h = (rw b tt, h s)

follow_planning-EndsDone :
    (g : Gen World Event) (s : FlowState) (k : FlowState → Gen FlowState Event)
    → AlwaysQuiet g
    → ((s' : FlowState) → EndsDone (k s'))
    → EndsDone (follow_planning s g k)
unfolding follow_planning
follow_planning-EndsDone (finished w) s k q h = h _
follow_planning-EndsDone (raised e w) s k q h = tt
follow_planning-EndsDone (unfinished w) s k q h = tt
follow_planning-EndsDone (yielded w e rest) s k q h =
    on_created-EndsDone _ e e.body _ refl q.0
      (λ s' db. follow_planning-EndsDone (rest db) s' k (q.1 db) h)

-- A plan without steps has no next one.
no_steps :
    (test : Step → Bool) (steps : List Step) → is_some_step steps ≡ false → find test steps ≡ none
no_steps test [] h = refl
no_steps test (s ∷ ss) h = cc h

after_planning-Ready :
    (plan : Option Plan) → Ready (if has_steps plan then executing else completed) plan
unfolding has_steps get_next_step
after_planning-Ready none = tt
after_planning-Ready (some plan) = elim (Bool-cases (is_some_step plan.steps)) [
  | inl steps ↦ rw steps tt
  | inr none_there ↦ rw none_there (no_steps _ plan.steps none_there)
]

module _ (env : Services) (message : UserMessage) where
  -- What the next round is known to give.
  abbrev Continues : (FlowState → Gen FlowState Event) → Type 0
  Continues k = (s : FlowState) → Ready s.status s.plan → EndsDone (k s)

  execute_next-EndsDone :
      (s : FlowState) (plan : Plan) (step : Option Step) (k : FlowState → Gen FlowState Event)
      → get_next_step plan ≡ step
      → Continues k
      → EndsDone (execute_next env message s plan step k)
  unfolding execute_next run_step
  execute_next-EndsDone s plan none k e h = h _ e
  execute_next-EndsDone s plan (some step) k e h =
      follow-EndsDone _ (execute_step env plan step message s.world) _
        (execute_step-Quiet env plan step message s.world)
        (λ (w, step').
          compacted (compact_memory env react w)
            (record s { world = w; plan = some (plan_with plan step'); step = some step' }))
    where
      compacted :
          (r : Result (Unit {0}) × World) (s' : FlowState)
          → EndsDone (
              awaiting_in
                (λ w. record s' { world = w })
                r
                (λ _ w. k (record s' { world = w; status = updating })))
      compacted (ok a, w) s' = h _ tt
      compacted (err error, w) s' = tt

  update_branch-EndsDone :
      (s : FlowState) (plan : Plan) (step : Option Step) (k : FlowState → Gen FlowState Event)
      → Continues k
      → EndsDone (update_branch env message s plan step k)
  unfolding update_branch
  update_branch-EndsDone s plan none k h = tt
  update_branch-EndsDone s plan (some step) k h =
      follow-EndsDone _ (update_plan env plan step s.world) _
        (update_plan-Quiet env plan step s.world) (λ (w, plan'). h _ tt)

  executing-EndsDone :
      (s : FlowState) (plan : Option Plan) (k : FlowState → Gen FlowState Event)
      → Continues k
      → EndsDone (with_plan s plan (λ p. execute_branch env message s p k))
  unfolding with_plan execute_branch
  executing-EndsDone s none k h = tt
  executing-EndsDone s (some plan) k h =
      execute_next-EndsDone s (running_plan plan) (get_next_step (running_plan plan)) k refl h

  updating-EndsDone :
      (s : FlowState) (plan : Option Plan) (k : FlowState → Gen FlowState Event)
      → Continues k
      → EndsDone (with_plan s plan (λ p. update_branch env message s p s.step k))
  unfolding with_plan
  updating-EndsDone s none k h = tt
  updating-EndsDone s (some plan) k h = update_branch-EndsDone s plan s.step k h

  completed-EndsDone :
      (s : FlowState) (plan : Option Plan) (k : FlowState → Gen FlowState Event)
      → NothingLeft plan
      → EndsDone (round env message (record s { plan = plan }) completed k)
  unfolding round with_plan get_next_step
  completed-EndsDone s none k left = tt
  completed-EndsDone s (some plan) k left = (
    left,
    λ db. (
      tt,
      λ db'. record {
        idle_again = refl;
        plan = completed_plan plan;
        kept = refl;
        marked = refl;
        none_left = left;
      },
    ),
  )

  round-EndsDone :
      (s : FlowState) (status : FlowStatus) (k : FlowState → Gen FlowState Event)
      → Ready status s.plan
      → Continues k
      → EndsDone (round env message s status k)
  unfolding round
  round-EndsDone s idle k r h = h _ tt
  round-EndsDone s planning k r h =
      follow_planning-EndsDone (create_plan env message s.world) s _
        (create_plan-Quiet env message s.world)
        (λ s'. h (after_planning s') (after_planning-Ready s'.plan))
  round-EndsDone s executing k r h = executing-EndsDone s s.plan k h
  round-EndsDone s updating k r h = updating-EndsDone s s.plan k h
  round-EndsDone s summarizing k r h =
      follow-EndsDone (λ w. record s { world = w }) (summarize env s.world) _
        (summarize-Quiet env s.world) (λ w. h _ r)
  round-EndsDone s completed k r h = completed-EndsDone s s.plan k r

  pub run_rounds-EndsDone :
      (n : ℕ) (s : FlowState) → Ready s.status s.plan → EndsDone (run_rounds env message n s)
  unfolding run_rounds
  run_rounds-EndsDone zero s r = tt
  run_rounds-EndsDone (suc n) s r = round-EndsDone s s.status _ r (run_rounds-EndsDone n)

resumed-Ready :
    (session : SessionStatus) (plan : Option Plan) → Ready (resumed_status session idle) plan
unfolding resumed_status
resumed-Ready SessionStatus.pending plan = tt
resumed-Ready SessionStatus.running plan = tt
resumed-Ready SessionStatus.waiting plan = tt
resumed-Ready SessionStatus.completed plan = tt

-- In a run that starts idle, whatever the model, the tools and the number of rounds: every plan that
-- is reported as completed has no step left, and if the run returns, the flow is idle and its plan
-- is marked `COMPLETED` with no step left.
pub invoke-EndsDone :
    (env : Services) (recall : Option (String → String)) (rounds : ℕ) (message : UserMessage)
    (s : FlowState)
    → s.status ≡ idle
    → EndsDone (invoke env recall rounds message s)
unfolding invoke
invoke-EndsDone env recall rounds message s e = opened (open_session env message s.world)
  where
    opened :
        (r : Result Session × World)
        → EndsDone (
            awaiting_in
              (λ w. record s { world = w })
              r
              (λ session w. run_rounds env (message_with_recall recall message) rounds (record s {
                world = w;
                status = resumed_status session.status s.status;
                plan = get_latest_plan session;
                step = none;
              })))
    opened (ok session, w) = run_rounds-EndsDone env (message_with_recall recall message) rounds _ (
        subst (λ st. Ready (resumed_status session.status st) (get_latest_plan session)) (sym e)
          (resumed-Ready session.status (get_latest_plan session)))
    opened (err error, w) = tt
