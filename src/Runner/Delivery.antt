-- ===== src/Runner/Delivery.antt =====
-- app/domain/agent_task_runner.py: a whole run of the task runner beside the events of its session.
use boxify_agent.Prelude.{
  String, ℕ, zero, suc, Bool, true, false, Option, none, some, List, [], ◌∷◌, refl, if◌then◌else◌,
  Bool-cases, inl, inr, length, is_empty,
}
use boxify_agent.Result.{Exec, Result, ok, err, resume}
use boxify_agent.Event.{
  Event, EventBody, UserMessage, plan_event, title_event, step_event, message_event, tool_event,
  error_event, wait_event, done_event,
}
use boxify_agent.Session.{SessionStatus}
use boxify_agent.Store
use boxify_agent.Store.{Database, update_session_row}
use boxify_agent.Gen.{Gen, finished, raised, yielded, unfinished}
use boxify_agent.Agent.{Services}
use boxify_agent.Flow.{FlowState}
use boxify_agent.Flow.Answers.{FlowSteps}
use boxify_agent.Flow.Frame.{invoke-Steps}
use boxify_agent.Runner.{
  Host, RunState, db_of, external, waited, in_store, arrived, input_is_empty, taken, pop_event,
  put_and_add_event,
}
use boxify_agent.Runner.Files.{
  sync_message_attachments_to_sandbox, sync_message_attachments_to_storage,
}
use boxify_agent.Runner.Tools.{handle_tool_event}
use boxify_agent.Runner.Loop.{
  Outcome, over, interrupted, waiting, failed, out_of_rounds, with_flow, run_flow, enrich,
  read_message, react, deliver, go_on, consume, message_object, serve_event, serve_popped,
  after_entry, serve, complete_session, finish, body,
}
use boxify_agent.Runner.Log.{
  AddsFromService, SameLog, log_frame, update_session_row-SameLog, update_status-SameLog,
}
use boxify_agent.Runner.InStep.{
  AgreesAt, waited-Agrees, InStep, same-Agrees, in_store-InStep, put_and_add_event-Keeps,
}
use boxify_agent.Runner.Recorded.{
  message_to_sandbox-Keeps, message_to_storage-Keeps, handle_tool_event-Keeps,
}
use boxify_agent.Result.Keeps.{bind-Keeps, resume-Keeps}

module _ (env : Services) (host : Host) (base : List Event)
    (others : AddsFromService host env.session_id) where
  abbrev Keeps : {A : Type 0} → Exec RunState A → Type 0
  Keeps = InStep host env.session_id base others

  abbrev Now : RunState → Type 0
  Now = AgreesAt host env.session_id base others

  enrich-Keeps : (e : Event) (b : EventBody) → Keeps (enrich env host e b)
  unfolding enrich
  enrich-Keeps e (tool_event call) =
      bind-Keeps Now (handle_tool_event env host call) _
        (handle_tool_event-Keeps env host base others call) (λ c st a. a)
  enrich-Keeps e (message_event m) =
      bind-Keeps Now (sync_message_attachments_to_storage env host m) _
        (message_to_storage-Keeps env host base others m) (λ m' st a. a)
  enrich-Keeps e (plan_event p s) = λ st a. a
  enrich-Keeps e (title_event t) = λ st a. a
  enrich-Keeps e (step_event t s) = λ st a. a
  enrich-Keeps e (error_event t) = λ st a. a
  enrich-Keeps e wait_event = λ st a. a
  enrich-Keeps e done_event = λ st a. a

  resume-SameLog :
      (db : Database) (r : Result (Unit {0}) × Database) (k : Exec Database (Unit {0}))
      → SameLog env.session_id db r.1
      → ((db' : Database) → SameLog env.session_id db' (k db').1)
      → SameLog env.session_id db (resume r (λ _. k)).1
  resume-SameLog db (err e, db') k first h = first
  resume-SameLog db (ok a, db') k first h =
      (log_frame env.session_id).next db db' (k db').1 first (h db')

  read_message-SameLog :
      (message : String) (timestamp : ℕ) (db : Database)
      → SameLog env.session_id db (read_message env host message timestamp db).1
  unfolding read_message boxify_agent.Store.update_latest_message
      boxify_agent.Store.increment_unread_message_count
  read_message-SameLog message timestamp db =
      resume-SameLog db (Store.update_latest_message env.session_id message timestamp db)
        (Store.increment_unread_message_count env.session_id)
        (update_session_row-SameLog env.session_id env.session_id _ db (λ r. refl) (λ r. refl))
        (λ db'.
          update_session_row-SameLog env.session_id env.session_id _ db' (λ r. refl) (λ r. refl))

  title-SameLog :
      (title : String) (db : Database)
      → SameLog env.session_id db (Store.update_title env.session_id title db).1
  unfolding boxify_agent.Store.update_title
  title-SameLog title db =
      update_session_row-SameLog env.session_id env.session_id _ db (λ r. refl) (λ r. refl)

  -- A statement that leaves the log alone, and then a value.
  store_then :
      {A : Type 0} (m : Exec Database (Unit {0})) (value : A)
      → ((db : Database) → SameLog env.session_id db (m db).1)
      → Keeps (λ st. resume (in_store host m st) (λ _ st'. (ok value, st')))
  store_then m value h =
      bind-Keeps Now (in_store host m) (λ _ st'. (ok value, st'))
        (in_store-InStep host env.session_id base others m h) (λ _ st a. a)

  react-Keeps : (b : EventBody) → Keeps (react env host b)
  unfolding react
  react-Keeps (title_event t) =
      store_then (Store.update_title env.session_id t) false (title-SameLog t)
  react-Keeps (message_event m) = λ st a.
      store_then (read_message env host m.message (host.created_at (length st.output))) false
        (read_message-SameLog m.message (host.created_at (length st.output))) st a
  react-Keeps wait_event =
      store_then (Store.update_status env.session_id SessionStatus.waiting) true
        (update_status-SameLog env.session_id env.session_id SessionStatus.waiting)
  react-Keeps (plan_event p s) = λ st a. a
  react-Keeps (tool_event c) = λ st a. a
  react-Keeps (step_event t s) = λ st a. a
  react-Keeps (error_event t) = λ st a. a
  react-Keeps done_event = λ st a. a

  deliver-Keeps : (e : Event) → Keeps (deliver env host e)
  unfolding deliver
  deliver-Keeps e = bind-Keeps Now (enrich env host e e.body) _ (enrich-Keeps e e.body) (λ e'.
      bind-Keeps Now (put_and_add_event env host e') (λ _. react env host e'.body)
        (put_and_add_event-Keeps env host base others e') (λ _. react-Keeps e'.body))

  arrived-Now :
      (st : RunState) (more : Result (List (Result Event))) → Now st → Now (arrived st more).1
  arrived-Now st (ok more) a = a
  arrived-Now st (err e) a = a

  input_is_empty-Keeps : Keeps (input_is_empty env host)
  unfolding input_is_empty
  input_is_empty-Keeps st a =
      arrived-Now (waited host st) (host.arrivals st.checks)
        (waited-Agrees host env.session_id base others st a)

  taken-Keeps : (input : List (Result Event)) → Keeps (taken input)
  taken-Keeps [] = λ st a. a
  taken-Keeps (ok e ∷ rest) = λ st a. a
  taken-Keeps (err e ∷ rest) = λ st a. a

  pop_event-Keeps : Keeps (pop_event env host)
  unfolding pop_event
  pop_event-Keeps = bind-Keeps Now (external host.pop_refused) _ (λ st a. a) after
    where
      after :
          (refused : Bool)
          → Keeps (if refused then (λ st. (ok none, st)) else (λ st. taken st.input st))
      after true = λ st a. a
      after false = λ st a. taken-Keeps st.input st a

  -- The rest of the loop need keep the two in step only from here.
  go_on-Now :
      (rest : Exec RunState Outcome) (waits : Bool) (st : RunState)
      → Now st
      → Keeps rest
      → Now (go_on env host rest waits st).1
  unfolding go_on
  go_on-Now rest true st a h = a
  go_on-Now rest false st a h =
      bind-Keeps Now (input_is_empty env host) _ input_is_empty-Keeps after st a
    where
      after : (quiet : Bool) → Keeps (if quiet then rest else (λ st'. (ok interrupted, st')))
      after true = h
      after false = λ st' a'. a'

  consume-Now :
      (g : Gen FlowState Event) (st : RunState)
      → Now st
      → FlowSteps (log_frame env.session_id) (db_of st) g
      → Now (consume env host g st).1
  unfolding consume
  consume-Now (finished s) st a h =
      same-Agrees host env.session_id base others (db_of st) s.world.db st.output h a
  consume-Now (raised e s) st a h =
      same-Agrees host env.session_id base others (db_of st) s.world.db st.output h a
  consume-Now (unfinished s) st a h =
      same-Agrees host env.session_id base others (db_of st) s.world.db st.output h a
  consume-Now (yielded s e rest) st a h =
      resume-Keeps Now (deliver env host e (with_flow s st)) _
        (deliver-Keeps e (with_flow s st)
          (same-Agrees host env.session_id base others (db_of st) s.world.db st.output h.0 a))
        (λ waits st' a'.
          go_on-Now (λ st''. consume env host (rest (db_of st'')) st'') waits st' a'
            (λ st'' a''. consume-Now (rest (db_of st'')) st'' a'' (h.1 (db_of st''))))

  run_flow-Steps :
      (recall : Option (String → String)) (rounds : ℕ) (message : UserMessage) (s : FlowState)
      → FlowSteps (log_frame env.session_id) s.world.db (run_flow env host recall rounds message s)
  unfolding run_flow
  run_flow-Steps recall rounds message s = elim (Bool-cases (is_empty message.message)) [
    | inl empty ↦
        rw empty
          ((log_frame env.session_id).here s.world.db, λ db. (log_frame env.session_id).here db)
    | inr full ↦ rw full (invoke-Steps (log_frame env.session_id) env recall rounds message s)
  ]

  module _ (recall : Option (String → String)) (rounds : ℕ) where
    serve_event-Keeps : (e : Event) (b : EventBody) → Keeps (serve_event env host recall rounds e b)
    unfolding serve_event
    serve_event-Keeps e (message_event m) =
        bind-Keeps Now (sync_message_attachments_to_sandbox env host m) _
          (message_to_sandbox-Keeps env host base others m)
          (λ m' st a.
            consume-Now (run_flow env host recall rounds (message_object m') st.flow) st a
              (run_flow-Steps recall rounds (message_object m') st.flow))
    serve_event-Keeps e (plan_event p s) = λ st a. a
    serve_event-Keeps e (title_event t) = λ st a. a
    serve_event-Keeps e (tool_event c) = λ st a. a
    serve_event-Keeps e (step_event t s) = λ st a. a
    serve_event-Keeps e (error_event t) = λ st a. a
    serve_event-Keeps e wait_event = λ st a. a
    serve_event-Keeps e done_event = λ st a. a

    serve_popped-Keeps : (e : Option Event) → Keeps (serve_popped env host recall rounds e)
    unfolding serve_popped
    serve_popped-Keeps none = λ st a. a
    serve_popped-Keeps (some e) = serve_event-Keeps e e.body

    after_entry-Keeps :
        (rest : Exec RunState Outcome) (outcome : Outcome)
        → Keeps rest
        → Keeps (after_entry env host rest outcome)
    unfolding after_entry
    after_entry-Keeps rest over h = h
    after_entry-Keeps rest interrupted h = h
    after_entry-Keeps rest waiting h = λ st a. a
    after_entry-Keeps rest failed h = λ st a. a
    after_entry-Keeps rest out_of_rounds h = λ st a. a

    serve-Keeps : (n : ℕ) → Keeps (serve env host recall rounds n)
    unfolding serve
    serve-Keeps zero = λ st a. a
    serve-Keeps (suc n) =
        bind-Keeps Now (input_is_empty env host) _ input_is_empty-Keeps (entry (serve-Keeps n))
      where
        entry :
            Keeps (serve env host recall rounds n)
            → (quiet : Bool)
            → Keeps (
                if quiet then (λ st. (ok over, st)) else (λ st.
                  resume (pop_event env host st) (λ popped st'.
                    resume (serve_popped env host recall rounds popped st') (λ outcome.
                      after_entry env host (λ st''. serve env host recall rounds n st'') outcome))))
        entry later true = λ st a. a
        entry later false = bind-Keeps Now (pop_event env host) _ pop_event-Keeps (λ popped.
            bind-Keeps Now (serve_popped env host recall rounds popped) _
              (serve_popped-Keeps popped)
              (λ outcome.
                after_entry-Keeps (λ st''. serve env host recall rounds n st'') outcome later))

    complete-Keeps : Keeps (complete_session env host)
    unfolding complete_session
    complete-Keeps =
        in_store-InStep host env.session_id base others
          (Store.update_status env.session_id SessionStatus.completed)
          (update_status-SameLog env.session_id env.session_id SessionStatus.completed)

    finish-Keeps : (outcome : Outcome) → Keeps (finish env host outcome)
    unfolding finish
    finish-Keeps waiting = λ st a. a
    finish-Keeps failed = λ st a. a
    finish-Keeps out_of_rounds = λ st a. a
    finish-Keeps over = bind-Keeps Now (complete_session env host) _ complete-Keeps (λ _ st a. a)
    finish-Keeps interrupted =
        bind-Keeps Now (complete_session env host) _ complete-Keeps (λ _ st a. a)

    pub body-Keeps : (n : ℕ) → Keeps (body env host recall rounds n)
    unfolding body
    body-Keeps n =
        bind-Keeps Now (external host.ensure_sandbox) _ (λ st a. a)
          (λ _.
            bind-Keeps Now (external host.initialize_mcp) _ (λ st a. a)
              (λ _.
                bind-Keeps Now (external host.initialize_a2a) _ (λ st a. a)
                  (λ _.
                    bind-Keeps Now (serve env host recall rounds n) (finish env host)
                      (serve-Keeps n) finish-Keeps)))
