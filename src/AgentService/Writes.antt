-- ===== src/AgentService/Writes.antt =====
-- app/application/services/agent_service.py: what the service writes in the tables, for a predicate that
-- the statements on its session keep.
use boxify_agent.Prelude.{
  pos, String, ℕ, zero, suc, Bool, true, false, not, ◌&&◌, ◌≡◌, ◌≢◌, refl, ◌∙◌, Option, none, some,
  List, ◌==◌, is_empty, Bool-cases, inl, inr,
}
use boxify_agent.Result.{Error, Exec, Result, ok, err, resume, catching, ◌>>◌, pure}
use boxify_agent.Event.{Event, event, error_event}
use boxify_agent.Session.{Session, SessionStatus}
use boxify_agent.Store
use boxify_agent.Store.{Database, row_of}
use boxify_agent.Store.Tables.{row_of-id}
use boxify_agent.Store.Calls.{Call, adds_event, sets_status, sets_unread, run_call}
use boxify_agent.Store.Frame.{target, run_call-other}
use boxify_agent.AgentService.{
  Outside, ChatState, Reading, nothing, blank, entry, paused, await, in_store, opened, concluded,
  send, heard, deliver, listen, converse, report, chat, stop_session, shutdown,
  safe_update_unread_count, is_task, is_final, get_task, ignored, send_given, listen_to, existing,
  cancel_given, task_in, yield_event,
}
use boxify_agent.Tasks
use boxify_agent.Result.Keeps.{resume-Keeps, bind-Keeps, caught-Keeps}
use boxify_agent.AgentService.Starts.{AtDb, Safe, call-Safe, send-Safe, pure-Safe}

-- The requests to the service, and the background task that a chat leaves.
pub data Request : Type 0 where
  chats :
      (fuel : ℕ) (message : Option String) (attachments : Option (List String))
      (latest_event_id : Option String) (timestamp : Option ℕ)
      → Request
  stops resets shuts_down : Request

abbrev forget : {A : Type 0} → Result A × ChatState → ChatState
forget r = r.1

unfoldable pub serve : String → Bool → Outside → String → Request → ChatState → ChatState
unfolding chat stop_session safe_update_unread_count shutdown
serve user_id remembers outside id (chats fuel message attachments latest_event_id timestamp) st =
    forget (chat user_id remembers outside id fuel message attachments latest_event_id timestamp st)
serve user_id remembers outside id stops st = forget (stop_session user_id remembers outside id st)
serve user_id remembers outside id resets st =
    forget (safe_update_unread_count user_id remembers outside id st)
serve user_id remembers outside id shuts_down st = forget (shutdown user_id remembers outside st)

module _ (user_id : String) (remembers : Bool) (outside : Outside) (id : String)
    (P : Database → Type 0)
    (others : (n : ℕ) (db : Database) → P db → P (outside.others_write n db))
    (own : (call : Call) (db : Database)
      → target call ≡ some id
      → P db
      → P (run_call call db).1) where
  reset-Safe :
      Safe P (in_store user_id remembers outside (Store.update_unread_message_count id (pos 0)))
  unfolding run_call
  reset-Safe = call-Safe user_id remembers outside id P others own (sets_unread id (pos 0)) refl

  deliver-Safe :
      (next : Option String → Exec ChatState Bool) (event_id : String) (e : Event)
      → ((start : Option String) → Safe P (next start))
      → Safe P (deliver user_id remembers outside id next event_id e)
  deliver-Safe next event_id e h st p =
      resume-Keeps (AtDb P)
        (in_store user_id remembers outside (Store.update_unread_message_count id (pos 0)) st) _
        (reset-Safe st p)
        (λ x st p. elim (Bool-cases (is_final e)) [
          | inl final ↦ rw final p
          | inr other ↦ rw other (h (some event_id) _ p)
        ])

  heard-Safe :
      (next : Option String → Exec ChatState Bool) (reading : Reading)
      → ((start : Option String) → Safe P (next start))
      → Safe P (heard user_id remembers outside id next reading)
  heard-Safe next nothing h = h none
  heard-Safe next (blank event_id) h = h (some event_id)
  heard-Safe next (entry event_id (ok e)) h =
      deliver-Safe next event_id (record e { id = event_id }) h
  heard-Safe next (entry event_id (err error)) h = λ st p. p

  listen-Safe :
      (n : ℕ) (task : String) (start : Option String)
      → Safe P (listen user_id remembers outside id n task start)
  unfolding listen
  listen-Safe zero task start st p = p
  listen-Safe (suc n) task start st p = elim (Bool-cases (Tasks.done task st.tasks)) [
    | inl over ↦ rw (over, listen) p
    | inr on ↦
        rw (on, listen)
          (resume-Keeps (AtDb P)
            (await user_id remembers outside (λ k. outside.read_output k task start) st)
            (heard user_id remembers outside id (listen user_id remembers outside id n task))
            (others st.awaits st.db p)
            (λ reading.
              heard-Safe (listen user_id remembers outside id n task) reading (listen-Safe n task)))
  ]

  send_given-Safe :
      (message : Option String) (attachments : Option (List String)) (timestamp : Option ℕ)
      (session : Session) (task : Option String)
      → session.id ≡ id
      → Safe P (send_given user_id remembers outside id message attachments timestamp session task)
  send_given-Safe none attachments timestamp session task e st p = p
  send_given-Safe (some message) attachments timestamp session task e st p =
      elim (Bool-cases (is_empty message)) [
        | inl silent ↦ rw (silent, send_given) p
        | inr said ↦
            rw (said, send_given)
              (bind-Keeps (AtDb P)
                (send user_id remembers outside id message attachments timestamp session task) _
                (send-Safe user_id remembers outside id P others own message attachments timestamp
                  session task e)
                (λ x st p. p) st p)
      ]

  listen_to-Safe :
      (n : ℕ) (start task : Option String)
      → Safe P (listen_to user_id remembers outside id n start task)
  listen_to-Safe n start none st p = p
  listen_to-Safe n start (some task) st p = listen-Safe n task start st p

  -- A session that `get_by_id` answers has the id that was asked for.
  opened-Safe :
      {B : Type 0} (found : Option Session) (k : Session → Exec ChatState B)
      → ((session : Session) → found ≡ some session → session.id ≡ id)
      → ((session : Session) → session.id ≡ id → Safe P (k session))
      → Safe P (λ st. resume (opened user_id remembers outside found st) k)
  opened-Safe none k named h st p = p
  opened-Safe (some session) k named h st p =
      elim (Bool-cases (not (is_empty user_id) && not (session.user_id == user_id))) [
        | inl foreign ↦ rw foreign p
        | inr own_session ↦ elim (Bool-cases (is_task session)) [
          | inl task ↦ rw (own_session, task) (h session (named session refl) st p)
          | inr talk ↦ rw (own_session, talk) p
        ]
      ]

  existing-Safe :
      {B : Type 0} (found : Option Session) (k : Session → Exec ChatState B)
      → ((session : Session) → Safe P (k session))
      → Safe P (λ st. resume (existing user_id remembers outside id found st) k)
  existing-Safe none k h st p = p
  existing-Safe (some session) k h st p = h session st p

  converse-Safe :
      (n : ℕ) (message : Option String) (attachments : Option (List String)) (start : Option String)
      (timestamp : Option ℕ)
      → Safe P (converse user_id remembers outside id n message attachments start timestamp)
  unfolding converse Store.get_by_id get_task
  converse-Safe n message attachments start timestamp st p =
      let st' = paused user_id remembers outside st in
      opened-Safe (row_of id st'.db.sessions) _ (row_of-id id st'.db.sessions)
        (λ session e st p.
          bind-Keeps (AtDb P)
            (send_given user_id remembers outside id message attachments timestamp session
              (task_in session.task_id st.tasks))
            (listen_to user_id remembers outside id n start)
            (send_given-Safe message attachments timestamp session
              (task_in session.task_id st.tasks) e)
            (listen_to-Safe n start) st p)
        st' (others st.awaits st.db p)

  ignored-AtDb : {A : Type 0} (r : Result A × ChatState) → AtDb P r.1 → AtDb P (ignored r).1
  ignored-AtDb (r, st) p = p

  report-Safe : (error : Error) → Safe P (report user_id remembers outside id error)
  unfolding report run_call
  report-Safe error st p =
      let e = event (error_event (outside.show_error error)) in
      let r = in_store user_id remembers outside (Store.add_event id e) st in
      resume-Keeps (AtDb P) (ignored r) (λ x. yield_event e >> pure true)
        (ignored-AtDb r
          (call-Safe user_id remembers outside id P others own (adds_event id e) refl st p))
        (λ x st p. p)

  concluded-AtDb :
      (closed : Bool) (r : Result Bool × ChatState) → AtDb P r.1 → AtDb P (concluded closed id r).1
  concluded-AtDb closed (ok false, st) p = p
  concluded-AtDb true (ok true, st) p = p
  concluded-AtDb false (ok true, st) p = p
  concluded-AtDb true (err e, st) p = p
  concluded-AtDb false (err e, st) p = p

  cancel_given-Safe :
      (task : Option String) → Safe P (cancel_given user_id remembers outside id task)
  cancel_given-Safe none st p = p
  cancel_given-Safe (some task) st p = p

  stop_session-Safe : Safe P (stop_session user_id remembers outside id)
  unfolding stop_session Store.get_by_id get_task run_call
  stop_session-Safe st p =
      let st' = paused user_id remembers outside st in
      existing-Safe (row_of id st'.db.sessions) _
        (λ session st p.
          bind-Keeps (AtDb P)
            (cancel_given user_id remembers outside id (task_in session.task_id st.tasks))
            (λ x.
              in_store user_id remembers outside (Store.update_status id SessionStatus.completed))
            (cancel_given-Safe (task_in session.task_id st.tasks))
            (λ x.
              call-Safe user_id remembers outside id P others own
                (sets_status id SessionStatus.completed) refl)
            st p)
        st' (others st.awaits st.db p)

  pub serve-AtDb :
      (request : Request) (st : ChatState)
      → AtDb P st
      → AtDb P (serve user_id remembers outside id request st)
  unfolding serve chat safe_update_unread_count shutdown
  serve-AtDb (chats n message attachments start timestamp) st p =
      let m = converse user_id remembers outside id n message attachments start timestamp in
      let r = catching m (report user_id remembers outside id) st in
      concluded-AtDb (outside.loop_closed r.1.awaits) r (
        caught-Keeps (AtDb P) (report user_id remembers outside id) (m st)
          (converse-Safe n message attachments start timestamp st p) report-Safe)
  serve-AtDb stops st p = stop_session-Safe st p
  serve-AtDb resets st p =
      caught-Keeps (AtDb P) (λ e. pure tt) _ (reset-Safe st p)
        (λ e. pure-Safe user_id remembers outside id P others own tt)
  serve-AtDb shuts_down st p = p

-- Whatever the sandboxes, the streams and the memory answer, and wherever a request fails, it leaves the
-- row of every other session as it was, if the coroutines that run during its awaits do.
pub serve-other :
    (user_id : String) (remembers : Bool) (outside : Outside) (id j : String) (request : Request)
    (st : ChatState)
    → id ≢ j
    → ((n : ℕ) (db : Database)
        → row_of j (outside.others_write n db).sessions ≡ row_of j db.sessions)
    → row_of j (serve user_id remembers outside id request st).db.sessions ≡ row_of j st.db.sessions
serve-other user_id remembers outside id j request st other quiet =
    serve-AtDb user_id remembers outside id (λ db. row_of j db.sessions ≡ row_of j st.db.sessions)
      (λ n db p. quiet n db ∙ p) (λ call db t p. run_call-other call id j db t other ∙ p) request st
      refl
