-- ===== src/AgentService/Starts.antt =====
-- app/application/services/agent_service.py: the start of a task and the sending of a message keep what the
-- statements on the session keep.
use boxify_agent.Prelude.{
  String, ℕ, Bool, ◌≡◌, refl, ap, Option, none, some, List, is_empty, Bool-cases, inl, inr,
}
use boxify_agent.Result.{Exec, Result, ok, err, transaction, pure}
use boxify_agent.Event.{Event}
use boxify_agent.Session.{Session}
use boxify_agent.Store
use boxify_agent.Store.{Database, row_of}
use boxify_agent.Store.Calls.{Call, saves, latest, adds_event, run_call}
use boxify_agent.Store.Frame.{target}
use boxify_agent.AgentService.{
  Outside, ChatState, paused, await, in_store, stored, put_to, put_input, create_task, send,
  safe_remember_session_text, is_running, find_sandbox, start_task, run_in, run_in_found, task_for,
  keep_message, go_on, time_or, user_message,
}
use boxify_agent.Tasks
use boxify_agent.Result.Keeps.{Keeps, resume-Keeps, bind-Keeps, caught-Keeps, transaction-Keeps}

-- The predicate of the tables in a state, and the computations that keep it.
abbrev pub AtDb : (Database → Type 0) → ChatState → Type 0
AtDb P st = P st.db

abbrev pub Safe : (Database → Type 0) → {A : Type 0} → Exec ChatState A → Type 0
Safe P m = Keeps (AtDb P) m

module _ (user_id : String) (remembers : Bool) (outside : Outside) (id : String)
    (P : Database → Type 0)
    (others : (n : ℕ) (db : Database) → P db → P (outside.others_write n db))
    (own : (call : Call) (db : Database)
      → target call ≡ some id
      → P db
      → P (run_call call db).1) where
  await-Safe : {A : Type 0} (call : ℕ → Result A) → Safe P (await user_id remembers outside call)
  await-Safe call st p = others st.awaits st.db p

  stored-AtDb :
      {A : Type 0} (st : ChatState) (r : Result A × Database) → P r.1 → AtDb P (stored st r).1
  stored-AtDb st (r, db) p = p

  in_store-Safe :
      {A : Type 0} (m : Exec Database A) → Keeps P m → Safe P (in_store user_id remembers outside m)
  in_store-Safe m h st p =
      let st' = paused user_id remembers outside st in
      let p' : P st'.db = others st.awaits st.db p in
      stored-AtDb st' (transaction m st'.db)
        (transaction-Keeps P st'.db (m st'.db) p' (h st'.db p'))

  pub call-Safe :
      (call : Call)
      → target call ≡ some id
      → Safe P (in_store user_id remembers outside (run_call call))
  call-Safe call t = in_store-Safe (run_call call) (λ db. own call db t)

  pub pure-Safe : {A : Type 0} (a : A) → Safe P (λ (st : ChatState). (ok a, st))
  pure-Safe a st p = p

  find_sandbox-Safe :
      (given : Option String) → Safe P (find_sandbox user_id remembers outside given)
  find_sandbox-Safe none st p = p
  find_sandbox-Safe (some s) st p = elim (Bool-cases (is_empty s)) [
    | inl blank_id ↦ rw blank_id p
    | inr given_id ↦ rw given_id (others st.awaits st.db p)
  ]

  start_task-Safe :
      (session : Session) → session.id ≡ id → Safe P (start_task user_id remembers outside session)
  unfolding run_call
  start_task-Safe session e st p =
      let task = outside.new_task_id st.awaits in
      let row : Session = record session { task_id = some task } in
      let st' : ChatState = record st { tasks = Tasks.create task st.tasks } in
      resume-Keeps (AtDb P) (in_store user_id remembers outside (Store.save row) st')
        (λ x st. (ok task, st)) (call-Safe (saves row) (ap some e) st' p) (λ x. pure-Safe task)

  run_in-Safe :
      (session : Session) (sandbox : String)
      → session.id ≡ id
      → Safe P (run_in user_id remembers outside session sandbox)
  run_in-Safe session sandbox e =
      bind-Keeps (AtDb P) (await user_id remembers outside (λ n. outside.get_browser n sandbox)) _
        (await-Safe (λ n. outside.get_browser n sandbox))
        (λ browser st p. elim (Bool-cases browser) [
          | inl there ↦ rw there (start_task-Safe session e st p)
          | inr missing ↦ rw missing p
        ])

  run_in_found-Safe :
      (session : Session) (found : Option String)
      → session.id ≡ id
      → Safe P (run_in_found user_id remembers outside session found)
  run_in_found-Safe session (some sandbox) e = run_in-Safe session sandbox e
  run_in_found-Safe session none e =
      bind-Keeps (AtDb P) (await user_id remembers outside outside.create_sandbox) _
        (await-Safe outside.create_sandbox)
        (λ sandbox. run_in-Safe (record session { sandbox_id = some sandbox }) sandbox e)

  create_task-Safe :
      (session : Session) → session.id ≡ id → Safe P (create_task user_id remembers outside session)
  unfolding create_task
  create_task-Safe session e =
      bind-Keeps (AtDb P) (find_sandbox user_id remembers outside session.sandbox_id) _
        (find_sandbox-Safe session.sandbox_id) (λ found. run_in_found-Safe session found e)

  task_for-Safe :
      (session : Session) (task : Option String)
      → session.id ≡ id
      → Safe P (task_for user_id remembers outside session task)
  task_for-Safe session none e st p = create_task-Safe session e st p
  task_for-Safe session (some task) e st p = elim (Bool-cases (is_running session)) [
    | inl running ↦ rw (running, task_for) p
    | inr other ↦ rw (other, task_for) (create_task-Safe session e st p)
  ]

  put_to-AtDb :
      (task : String) (e : Event) (r : Result String) (st : ChatState)
      → AtDb P st
      → AtDb P (put_to task e r st).1
  put_to-AtDb task e (ok i) st p = p
  put_to-AtDb task e (err error) st p = p

  remember-Safe :
      (message : String) → Safe P (safe_remember_session_text user_id remembers outside id message)
  unfolding safe_remember_session_text
  remember-Safe message st p = elim (Bool-cases remembers) [
    | inl on ↦ rw on (
        caught-Keeps (AtDb P) (λ e. pure tt)
          (await user_id remembers outside (λ n. outside.remember_text n message id) st)
          (others st.awaits st.db p) (λ e. pure-Safe tt))
    | inr off ↦ rw off p
  ]

  keep_message-Keeps :
      (message : String) (timestamp : ℕ) (e : Event)
      → Keeps P (keep_message user_id remembers outside id message timestamp e)
  unfolding run_call
  keep_message-Keeps message timestamp e =
      bind-Keeps P (Store.update_latest_message id message timestamp) (λ x. Store.add_event id e)
        (λ db. own (latest id message timestamp) db refl) (λ x db. own (adds_event id e) db refl)

  go_on-Safe :
      (message : String) (timestamp : Option ℕ) (e : Event) (task : String)
      → Safe P (go_on user_id remembers outside id message timestamp e task)
  go_on-Safe message timestamp e task st p =
      let t = time_or timestamp (outside.now st.awaits) in
      let m = keep_message user_id remembers outside id message t e in
      resume-Keeps (AtDb P) (in_store user_id remembers outside m st) _
        (in_store-Safe m (keep_message-Keeps message t e) st p)
        (λ x.
          bind-Keeps (AtDb P) (safe_remember_session_text user_id remembers outside id message) _
            (remember-Safe message) (λ y st p. p))

  pub send-Safe :
      (message : String) (attachments : Option (List String)) (timestamp : Option ℕ)
      (session : Session) (task : Option String)
      → session.id ≡ id
      → Safe P (send user_id remembers outside id message attachments timestamp session task)
  unfolding send
  send-Safe message attachments timestamp session task e =
      let said = user_message message attachments in
      bind-Keeps (AtDb P) (task_for user_id remembers outside session task) _
        (task_for-Safe session task e)
        (λ task_id.
          bind-Keeps (AtDb P) (put_input user_id remembers outside task_id said) _
            (λ st p.
              put_to-AtDb task_id said (outside.put_input st.awaits task_id said)
                (paused user_id remembers outside st) (others st.awaits st.db p))
            (λ event_id. go_on-Safe message timestamp (record said { id = event_id }) task_id))
