-- ===== src/AgentService.antt =====
-- app/application/services/agent_service.py: the chat of a user with the agent of a session, over the tables
-- of Store and the registry of Tasks. The sandboxes, the streams, the long-term memory and the clock are
-- outside, and so is what other coroutines do to the tables and the tasks while the service awaits.
pub mod Starts
pub mod Writes
pub mod Heard
pub mod Refused
mod Samples
use boxify_agent.Prelude.{
  pos, String, ℕ, zero, suc, ◌+◌, Bool, true, false, not, ◌&&◌, Option, none, some, List, [], ◌∷◌,
  ◌++◌, map, ◌==◌, if◌then◌else◌, is_empty,
}
use boxify_agent.Result.{
  Error, Exec, Result, ok, err, runtime_error, transaction, pure, raise, lift, gets, modify, ◌>>=◌,
  ◌>>◌, catching, resume,
}
use boxify_agent.Event.{Event, File, event, message_event, error_event, wait_event, done_event}
use boxify_agent.Session.{Session, SessionStatus, SessionType}
use boxify_agent.Store
use boxify_agent.Store.{Database}
use boxify_agent.Tasks
use boxify_agent.Tasks.{Registry}

-- What `output_stream.get` answers: no entry, an entry without data, or an entry as pydantic reads it.
pub data Reading : Type 0 where
  nothing : Reading
  blank : (event_id : String) → Reading
  entry : (event_id : String) → Result Event → Reading

-- A number is how many awaits went before.
pub record Outside : Type 0 where
  -- the id of the sandbox, if it is still there
  pub get_sandbox : ℕ → String → Result (Option String)
  pub create_sandbox : ℕ → Result String
  pub get_browser : ℕ → String → Result Bool
  pub new_task_id : ℕ → String
  pub put_input : ℕ → (task_id : String) → Event → Result String
  pub read_output : ℕ → (task_id : String) → (start_id : Option String) → Result Reading
  pub remember_text : ℕ → (message session_id : String) → Result (Unit {0})
  pub now : ℕ → ℕ
  pub show_error : Error → String
  pub loop_closed : ℕ → Bool
  pub destroy_runner : String → Result (Unit {0})
  -- what other coroutines make of the tables and of the tasks during an await
  pub others_write : ℕ → Database → Database
  pub others_run : ℕ → Registry → Registry

-- The tables, the tasks, the entries put to input streams with the ids of their tasks, the events that
-- `chat` has yielded, the sessions whose unread count a background task will reset, and the awaits so far.
pub record ChatState : Type 0 where
  pub db : Database
  pub tasks : Registry
  pub inputs : List (String × Event)
  pub yielded : List Event
  pub scheduled : List String
  pub awaits : ℕ

abbrev pub yield_event : Event → Exec ChatState (Unit {0})
yield_event e = modify (λ st. record st { yielded = st.yielded ++ e ∷ [] })

abbrev pub stored : {A : Type 0} → ChatState → Result A × Database → Result A × ChatState
stored st (r, db) = (r, record st { db = db })

abbrev pub is_running : Session → Bool
is_running session = elim session.status [ SessionStatus.running ↦ true | _ ↦ false ]

abbrev pub is_task : Session → Bool
is_task session = elim session.type [ SessionType.task ↦ true | _ ↦ false ]

-- `isinstance(event, (DoneEvent, ErrorEvent, WaitEvent))`
unfoldable pub is_final : Event → Bool
is_final e = elim e.body [
  | error_event words ↦ true
  | wait_event ↦ true
  | done_event ↦ true
  | _ ↦ false
]

-- `File(id=file_id)`
abbrev pub named_file : String → File
named_file id = record {
  id = id;
  filename = "";
  filepath = "";
  key = "";
  extension = "";
  mime_type = "";
  size = 0;
}

abbrev pub attached : Option (List String) → List File
attached none = []
attached (some ids) = map named_file ids

-- `MessageEvent(role="user", ...)`
abbrev pub user_message : String → Option (List String) → Event
user_message message attachments = event (
    message_event (record { role = "user"; message = message; attachments = attached attachments }))

abbrev pub task_in : Option String → Registry → Option String
task_in none reg = none
task_in (some id) reg = if is_empty id then none else Tasks.get id reg

-- `_get_task`
unfoldable pub get_task : Session → Exec ChatState (Option String)
get_task session = gets (λ st. task_in session.task_id st.tasks)

abbrev pub ignored : {A : Type 0} → Result A × ChatState → Result (Unit {0}) × ChatState
ignored (r, st) = (ok tt, st)

abbrev pub put_to : String → Event → Result String → Exec ChatState String
put_to task e (err error) st = (err error, st)
put_to task e (ok id) st = (ok id, record st { inputs = st.inputs ++ (task, e) ∷ [] })

abbrev pub time_or : Option ℕ → ℕ → ℕ
time_or none now = now
time_or (some t) now = t

-- The `finally` of `chat`, once the generator ends.
abbrev pub concluded : Bool → String → Result Bool × ChatState → Result Bool × ChatState
concluded closed id (ok false, st) = (ok false, st)
concluded closed id (r, st) =
    (r, if closed then st else record st { scheduled = st.scheduled ++ id ∷ [] })

module _ (user_id : String) (remembers : Bool) (outside : Outside) where
  abbrev pub paused : ChatState → ChatState
  paused st = record st {
    db = outside.others_write st.awaits st.db;
    tasks = outside.others_run st.awaits st.tasks;
    awaits = st.awaits + 1;
  }

  abbrev pub await : {A : Type 0} → (ℕ → Result A) → Exec ChatState A
  await call st = (call st.awaits, paused st)

  -- `async with self._uow_factory() as uow: ...`
  abbrev pub in_store : {A : Type 0} → Exec Database A → Exec ChatState A
  in_store m st = stored (paused st) (transaction m (paused st).db)

  abbrev pub find_sandbox : Option String → Exec ChatState (Option String)
  find_sandbox none = pure none
  find_sandbox (some id) = if is_empty id then pure none else await (λ n. outside.get_sandbox n id)

  abbrev pub start_task : Session → Exec ChatState String
  start_task session = do
    id ← gets (λ st. outside.new_task_id st.awaits)
    modify (λ st. record st { tasks = Tasks.create id st.tasks })
    in_store (Store.save (record session { task_id = some id }))
    pure id

  abbrev pub run_in : Session → String → Exec ChatState String
  run_in session sandbox = do
    browser ← await (λ n. outside.get_browser n sandbox)
    if browser then start_task session else raise (runtime_error "browser")

  -- The sandbox that was found, or a new one that the session takes over.
  abbrev pub run_in_found : Session → Option String → Exec ChatState String
  run_in_found session (some sandbox) = run_in session sandbox
  run_in_found session none = do
    sandbox ← await outside.create_sandbox
    run_in (record session { sandbox_id = some sandbox }) sandbox

  unfoldable pub create_task : Session → Exec ChatState String
  create_task session = do found ← find_sandbox session.sandbox_id; run_in_found session found

  unfoldable pub safe_update_unread_count : String → Exec ChatState (Unit {0})
  safe_update_unread_count id =
      catching (in_store (Store.update_unread_message_count id (pos 0))) (λ e. pure tt)

  unfoldable pub safe_remember_session_text : (id message : String) → Exec ChatState (Unit {0})
  safe_remember_session_text id message =
      if remembers
      then catching (await (λ n. outside.remember_text n message id)) (λ e. pure tt)
      else pure tt

  -- The checks of `chat` on the session that it reads.
  abbrev pub opened : Option Session → Exec ChatState Session
  opened none = raise (runtime_error "no session")
  opened (some session) =
      if not (is_empty user_id) && not (session.user_id == user_id)
      then raise (runtime_error "no session")
      else if is_task session
      then pure session
      else raise (runtime_error "not a task session")

  abbrev pub task_for : Session → Option String → Exec ChatState String
  task_for session none = create_task session
  task_for session (some id) = elim (is_running session) [
    | true ↦ pure id
    | false ↦ create_task session
  ]

  abbrev pub put_input : String → Event → Exec ChatState String
  put_input task e st = put_to task e (outside.put_input st.awaits task e) (paused st)

  module _ (id : String) where
    abbrev pub keep_message : (message : String) (timestamp : ℕ) → Event → Exec Database (Unit {0})
    keep_message message timestamp e = do
      Store.update_latest_message id message timestamp
      Store.add_event id e

    -- What follows the `put` of the message: the tables, the memory, and the task's `invoke`.
    abbrev pub go_on :
        (message : String) → Option ℕ → Event → (task : String) → Exec ChatState String
    go_on message timestamp e task st =
        resume (in_store (keep_message message (time_or timestamp (outside.now st.awaits)) e) st)
          (λ x. do
            safe_remember_session_text id message
            modify (λ st. record st { tasks = Tasks.invoke task st.tasks })
            pure task)

    -- The branch of `chat` for a message.
    unfoldable pub send :
        String → Option (List String) → Option ℕ → Session → Option String → Exec ChatState String
    unfolding create_task safe_remember_session_text
    send message attachments timestamp session task = do
      task_id ← task_for session task
      event_id ← put_input task_id (user_message message attachments)
      go_on message timestamp (record (user_message message attachments) { id = event_id }) task_id

    abbrev pub deliver :
        (Option String → Exec ChatState Bool) → String → Event → Exec ChatState Bool
    deliver next event_id e = do
      in_store (Store.update_unread_message_count id (pos 0))
      yield_event e
      elim (is_final e) [ true ↦ pure true | false ↦ next (some event_id) ]

    abbrev pub heard : (Option String → Exec ChatState Bool) → Reading → Exec ChatState Bool
    heard next nothing = next none
    heard next (blank event_id) = next (some event_id)
    heard next (entry event_id parsed) = do
      e ← lift parsed
      deliver next event_id (record e { id = event_id })

    -- The `while` of `chat`, which ends with `true`; `false` says that the rounds ran out.
    unfoldable pub listen : ℕ → (task : String) → Option String → Exec ChatState Bool
    unfolding is_final
    listen zero task latest st = (ok false, st)
    listen (suc n) task latest st = elim (Tasks.done task st.tasks) [
      | true ↦ (ok true, st)
      | false ↦ resume (await (λ k. outside.read_output k task latest) st) (heard (listen n task))
    ]

    abbrev pub send_given :
        Option String
        → Option (List String)
        → Option ℕ
        → Session
        → Option String
        → Exec ChatState (Option String)
    send_given none attachments timestamp session task = pure task
    send_given (some message) attachments timestamp session task = elim (is_empty message) [
      | true ↦ pure task
      | false ↦ do started ← send message attachments timestamp session task; pure (some started)
    ]

    abbrev pub listen_to : ℕ → Option String → Option String → Exec ChatState Bool
    listen_to n latest none = pure true
    listen_to n latest (some task) = listen n task latest

    -- The body of the `try`.
    unfoldable pub converse :
        ℕ → Option String → Option (List String) → Option String → Option ℕ → Exec ChatState Bool
    unfolding get_task send listen
    converse n message attachments latest timestamp = do
      found ← in_store (Store.get_by_id id)
      session ← opened found
      task ← get_task session
      task' ← send_given message attachments timestamp session task
      listen_to n latest task'

    -- The `except`.
    unfoldable pub report : Error → Exec ChatState Bool
    report error = do
      (λ st.
          ignored
            (in_store (Store.add_event id (event (error_event (outside.show_error error)))) st))
      yield_event (event (error_event (outside.show_error error)))
      pure true

    unfoldable pub chat :
        ℕ → Option String → Option (List String) → Option String → Option ℕ → Exec ChatState Bool
    unfolding converse report
    chat n message attachments latest timestamp st =
        let r = catching (converse n message attachments latest timestamp) report st in
        concluded (outside.loop_closed r.1.awaits) id r

    abbrev pub existing : Option Session → Exec ChatState Session
    existing none = raise (runtime_error "no session")
    existing (some session) = pure session

    abbrev pub cancel_given : Option String → Exec ChatState (Unit {0})
    cancel_given none = pure tt
    cancel_given (some task) = modify (λ st. record st { tasks = (Tasks.cancel task st.tasks).1 })

    unfoldable pub stop_session : Exec ChatState (Unit {0})
    unfolding get_task
    stop_session = do
      found ← in_store (Store.get_by_id id)
      session ← existing found
      task ← get_task session
      cancel_given task
      in_store (Store.update_status id SessionStatus.completed)

  abbrev pub destroyed : ChatState → Result (Unit {0}) × Registry → Result (Unit {0}) × ChatState
  destroyed st (r, reg) = (r, record st { tasks = reg })

  unfoldable pub shutdown : Exec ChatState (Unit {0})
  shutdown st = destroyed st (Tasks.destroy outside.destroy_runner st.tasks)
