-- ===== src/Flow/Frame.antt =====
-- app/domain/services/flows/planner_react.py: what the flow writes in the database between two
-- suspensions, for a relation that the save of a memory and the update of a status keep.
use boxify_agent.Prelude.{
  String, ℕ, zero, suc, Option, none, some, ◌≡◌, refl, Bool-cases, inl, inr, not,
}
use boxify_agent.Result.{Result, ok, err, pure, raise, value_error}
use boxify_agent.Plan.{Plan, Step, get_next_step}
use boxify_agent.Event.{
  Event, EventBody, UserMessage, PlanEventStatus, plan_event, title_event, step_event,
  message_event, tool_event, error_event, wait_event, done_event,
}
use boxify_agent.Session.{Session, SessionStatus, get_latest_plan}
use boxify_agent.Store
use boxify_agent.Store.{Database}
use boxify_agent.Gen.{Gen, finished, raised, yielded, unfinished, awaiting_in}
use boxify_agent.Agent.{Services, World, planner, react, in_db, compact_memory, roll_back}
use boxify_agent.Agent.Frame.{
  Frame, Steps, Moves, db_of_world, bind-Moves, in_db-Moves, compact_memory-Moves, roll_back-Moves,
}
use boxify_agent.Planner.{create_plan, update_plan}
use boxify_agent.React.{execute_step, summarize}
use boxify_agent.Flow.{
  FlowStatus, FlowState, idle, planning, executing, updating, summarizing, completed, follow,
  on_created, follow_planning, after_planning, with_plan, plan_with, running_plan, run_step,
  execute_next, execute_branch, update_branch, round, run_rounds, load_session, prepare_memories,
  is_pending, open_session, resumed_status, message_with_recall, invoke,
}
use boxify_agent.Flow.Answers.{
  db_of_first, WorldSteps, FlowSteps, create_plan-Steps, update_plan-Steps, execute_step-Steps,
  summarize-Steps,
}

module _ (f : Frame) where
  open f use {Rel, here, next, statuses}

  follow-Steps :
      {S : Type 0} (db_of : S → Database) (into : S → FlowState) (g : Gen S Event)
      (k : FlowState → Gen FlowState Event) (db : Database)
      → ((t : S) → (into t).world.db ≡ db_of t)
      → Steps f db_of db g
      → ((t : S) (db' : Database) → Rel db' (db_of t) → FlowSteps f db' (k (into t)))
      → FlowSteps f db (follow into g k)
  unfolding follow
  follow-Steps db_of into (finished t) k db e h after = after t db h
  follow-Steps db_of into (raised error t) k db e h after = rw (e t) h
  follow-Steps db_of into (unfinished t) k db e h after = rw (e t) h
  follow-Steps db_of into (yielded t event rest) k db e h after =
      (rw (e t) h.0, λ db'. follow-Steps db_of into (rest db') k db' e (h.1 db') after)

  on_created-Steps :
      (db : Database) (s : FlowState) (e : Event) (body : EventBody)
      (next' : FlowState → Database → Gen FlowState Event)
      → Rel db s.world.db
      → ((s' : FlowState) (db' : Database) → FlowSteps f db' (next' s' db'))
      → FlowSteps f db (on_created s e body next')
  unfolding on_created
  on_created-Steps db s e (plan_event p PlanEventStatus.created) next' first h =
      (first, λ db'. (here db', λ db''. (here db'', h _)))
  on_created-Steps db s e (plan_event p PlanEventStatus.updated) next' first h = (first, h s)
  on_created-Steps db s e (plan_event p PlanEventStatus.completed) next' first h = (first, h s)
  on_created-Steps db s e (title_event t) next' first h = (first, h s)
  on_created-Steps db s e (step_event t u) next' first h = (first, h s)
  on_created-Steps db s e (message_event m) next' first h = (first, h s)
  on_created-Steps db s e (tool_event m) next' first h = (first, h s)
  on_created-Steps db s e (error_event m) next' first h = (first, h s)
  on_created-Steps db s e wait_event next' first h = (first, h s)
  on_created-Steps db s e done_event next' first h = (first, h s)

  follow_planning-Steps :
      (g : Gen World Event) (db : Database) (s : FlowState) (k : FlowState → Gen FlowState Event)
      → WorldSteps f db g
      → ((s' : FlowState) (db' : Database) → Rel db' s'.world.db → FlowSteps f db' (k s'))
      → FlowSteps f db (follow_planning s g k)
  unfolding follow_planning
  follow_planning-Steps (finished w) db s k h after = after _ db h
  follow_planning-Steps (raised e w) db s k h after = h
  follow_planning-Steps (unfinished w) db s k h after = h
  follow_planning-Steps (yielded w e rest) db s k h after =
      on_created-Steps db _ e e.body _ h.0
        (λ s' db'. follow_planning-Steps (rest db') db' s' k (h.1 db') after)

  module _ (env : Services) (message : UserMessage) where
    -- What a round may rely on, and what the next one gives.
    abbrev Continues : (FlowState → Gen FlowState Event) → Type 0
    Continues k = (s : FlowState) (db : Database) → Rel db s.world.db → FlowSteps f db (k s)

    run_step-Steps :
        (db : Database) (s : FlowState) (plan : Plan) (step : Step)
        (k : FlowState → Gen FlowState Event)
        → Rel db s.world.db
        → Continues k
        → FlowSteps f db (run_step env message s plan step k)
    unfolding run_step
    run_step-Steps db s plan step k first h =
        follow-Steps (db_of_first f)
          (λ (w, step'). record s {
            world = w;
            plan = some (plan_with plan step');
            step = some step';
          })
          (execute_step env plan step message s.world) _ db (λ t. refl)
          (execute_step-Steps f env db plan step message s.world first)
          (λ (w, step') db' r.
            compacted db' (compact_memory env react w)
              (record s { world = w; plan = some (plan_with plan step'); step = some step' })
              (next db' w.db _ r (compact_memory-Moves f env react w)))
      where
        compacted :
            (db' : Database) (r : Result (Unit {0}) × World) (s' : FlowState)
            → Rel db' r.1.db
            → FlowSteps f db' (
                awaiting_in
                  (λ w. record s' { world = w })
                  r
                  (λ _ w. k (record s' { world = w; status = updating })))
        compacted db' (ok a, w) s' r = h _ db' r
        compacted db' (err error, w) s' r = r

    execute_next-Steps :
        (db : Database) (s : FlowState) (plan : Plan) (step : Option Step)
        (k : FlowState → Gen FlowState Event)
        → Rel db s.world.db
        → Continues k
        → FlowSteps f db (execute_next env message s plan step k)
    unfolding execute_next
    execute_next-Steps db s plan none k first h = h _ db first
    execute_next-Steps db s plan (some step) k first h =
        run_step-Steps db (record s { plan = some plan; step = some step }) plan step k first h

    executing-Steps :
        (db : Database) (s : FlowState) (plan : Option Plan) (k : FlowState → Gen FlowState Event)
        → Rel db s.world.db
        → Continues k
        → FlowSteps f db (with_plan s plan (λ p. execute_branch env message s p k))
    unfolding with_plan execute_branch
    executing-Steps db s none k first h = first
    executing-Steps db s (some plan) k first h =
        execute_next-Steps db s (running_plan plan) (get_next_step (running_plan plan)) k first h

    update_branch-Steps :
        (db : Database) (s : FlowState) (plan : Plan) (step : Option Step)
        (k : FlowState → Gen FlowState Event)
        → Rel db s.world.db
        → Continues k
        → FlowSteps f db (update_branch env message s plan step k)
    unfolding update_branch
    update_branch-Steps db s plan none k first h = first
    update_branch-Steps db s plan (some step) k first h =
        follow-Steps (db_of_first f) (λ (w, plan'). record s { world = w; plan = some plan' })
          (update_plan env plan step s.world) _ db (λ t. refl)
          (update_plan-Steps f env db plan step s.world first) (λ (w, plan') db' r. h _ db' r)

    updating-Steps :
        (db : Database) (s : FlowState) (plan : Option Plan) (k : FlowState → Gen FlowState Event)
        → Rel db s.world.db
        → Continues k
        → FlowSteps f db (with_plan s plan (λ p. update_branch env message s p s.step k))
    unfolding with_plan
    updating-Steps db s none k first h = first
    updating-Steps db s (some plan) k first h = update_branch-Steps db s plan s.step k first h

    completed-Steps :
        (db : Database) (s : FlowState) (plan : Option Plan) (k : FlowState → Gen FlowState Event)
        → Rel db s.world.db
        → FlowSteps f db (round env message (record s { plan = plan }) completed k)
    unfolding round with_plan
    completed-Steps db s none k first = first
    completed-Steps db s (some plan) k first = (first, λ db'. (here db', λ db''. here db''))

    round-Steps :
        (db : Database) (s : FlowState) (status : FlowStatus) (k : FlowState → Gen FlowState Event)
        → Rel db s.world.db
        → Continues k
        → FlowSteps f db (round env message s status k)
    unfolding round
    round-Steps db s idle k first h = h _ db first
    round-Steps db s planning k first h =
        follow_planning-Steps (create_plan env message s.world) db s _
          (create_plan-Steps f env db message s.world first)
          (λ s' db' r. h (after_planning s') db' r)
    round-Steps db s executing k first h = executing-Steps db s s.plan k first h
    round-Steps db s updating k first h = updating-Steps db s s.plan k first h
    round-Steps db s summarizing k first h =
        follow-Steps (db_of_world f) (λ w. record s { world = w }) (summarize env s.world) _ db
          (λ t. refl) (summarize-Steps f env db s.world first) (λ w db' r. h _ db' r)
    round-Steps db s completed k first h = completed-Steps db s s.plan k first

    run_rounds-Steps :
        (n : ℕ) (s : FlowState) (db : Database)
        → Rel db s.world.db
        → FlowSteps f db (run_rounds env message n s)
    unfolding run_rounds
    run_rounds-Steps zero s db first = first
    run_rounds-Steps (suc n) s db first =
        round-Steps db s s.status _ first (λ s' db' r. run_rounds-Steps n s' db' r)

    load_session-Moves : Moves f (load_session env message)
    unfolding load_session boxify_agent.Store.get_by_id
    load_session-Moves =
        bind-Moves f {B = Session} (in_db (Store.get_by_id env.session_id))
          (λ found. elim found [
            | none ↦ raise (value_error env.session_id)
            | some session ↦ pure session
          ])
          (in_db-Moves f (Store.get_by_id env.session_id) here) either
      where
        either :
            (found : Option Session)
            → Moves f {A = Session} (elim found [
              | none ↦ raise (value_error env.session_id)
              | some session ↦ pure session
            ])
        either none = λ w. here w.db
        either (some session) = λ w. here w.db

    prepare_memories-Moves : (session : Session) → Moves f (prepare_memories env message session)
    unfolding prepare_memories
    prepare_memories-Moves session = elim (Bool-cases (not (is_pending session.status))) [
      | inl busy ↦ rw busy (
          bind-Moves f (roll_back env planner message) _ (roll_back-Moves f env planner message)
            (λ _. roll_back-Moves f env react message))
      | inr quiet ↦ rw quiet here_all
    ]
      where
        here_all : (w : World) → Rel w.db w.db
        here_all w = here w.db

    open_session-Moves : Moves f (open_session env message)
    unfolding open_session
    open_session-Moves = bind-Moves f (load_session env message) _ load_session-Moves (λ session.
        bind-Moves f (prepare_memories env message session) _ (prepare_memories-Moves session) (λ _.
          bind-Moves f (in_db (Store.update_status env.session_id SessionStatus.running)) _
            (in_db-Moves f (Store.update_status env.session_id SessionStatus.running)
              (statuses env.session_id SessionStatus.running))
            (λ _ w. here w.db)))

-- Take any relation of databases that holds from each one to itself, along any two steps, and across
-- `save_memory` and `update_status`. It holds from the database in which the flow starts or is resumed,
-- whatever its consumer has written, to the one at the next event or at the end, raised or not.
pub invoke-Steps :
    (f : Frame) (env : Services) (recall : Option (String → String)) (rounds : ℕ)
    (message : UserMessage) (s : FlowState)
    → FlowSteps f s.world.db (invoke env recall rounds message s)
unfolding invoke
invoke-Steps f env recall rounds message s =
    opened (open_session env message s.world) (open_session-Moves f env message s.world)
  where
    opened :
        (r : Result Session × World)
        → f.Rel s.world.db r.1.db
        → FlowSteps f s.world.db (
            awaiting_in
              (λ w. record s { world = w })
              r
              (λ session w. run_rounds env (message_with_recall recall message) rounds (record s {
                world = w;
                status = resumed_status session.status s.status;
                plan = get_latest_plan session;
                step = none;
              })))
    opened (ok session, w) r =
        run_rounds-Steps f env (message_with_recall recall message) rounds _ s.world.db r
    opened (err error, w) r = r
