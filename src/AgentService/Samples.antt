-- ===== src/AgentService/Samples.antt =====
-- A session of app/application/services/agent_service.py with a scripted stream, and the theorems at it.
use boxify_agent.Prelude.{
  ℕ, arith, if◌then◌else◌, ◌==◌, String, true, false, ◌≡◌, refl, subst, sym, ◌∙◌, none, some, List,
  [], ◌∷◌, map, inl, eq_iff,
}
use boxify_agent.Result.{Result, ok, err, external_error}
use boxify_agent.Event.{Event, event, title_event, done_event}
use boxify_agent.Session.{Session, SessionType, SessionStatus}
use boxify_agent.SessionService.{blank_session}
use boxify_agent.Store.{Database, row_of}
use boxify_agent.Tasks.{Registry, Execution, running, ended}
use boxify_agent.AgentService.{Outside, ChatState, Reading, entry, listen, chat}
use boxify_agent.AgentService.Writes.{chats, serve, serve-other}
use boxify_agent.AgentService.Heard.{
  Answers, Delivered, after, stamped, until_final, Increasing, listen-Delivered,
}
use boxify_agent.AgentService.Refused.{Refusal, TurnedAway, chat-Refusal}

-- Two events of one round, and one that comes after it.
abbrev three_entries : List (String × Event)
three_entries =
    ("1-0", event (title_event "hello"))
    ∷ ("2-0", event done_event)
    ∷ ("3-0", event (title_event "late"))
    ∷ []

abbrev rank : String → ℕ
rank id = if id == "1-0" then 10 else if id == "2-0" then 20 else if id == "3-0" then 30 else 9

abbrev first_of : List (String × Event) → Result Reading
first_of [] = err (external_error "still waiting")
first_of ((i, e) ∷ es) = ok (entry i (ok e))

abbrev scripted : Outside
scripted = record {
  get_sandbox = λ n id. ok none;
  create_sandbox = λ n. ok "box";
  get_browser = λ n id. ok true;
  new_task_id = λ n. "new";
  put_input = λ n task e. ok "9-0";
  read_output = λ n task start. first_of (after rank start three_entries);
  remember_text = λ n message id. err (external_error "memory");
  now = λ n. n;
  show_error = λ e. "error";
  loop_closed = λ n. false;
  destroy_runner = λ id. ok tt;
  others_write = λ n db. db;
  others_run = λ n reg. reg;
}

abbrev a_session : (id user_id : String) → Session
a_session id user_id = record (blank_session id user_id SessionType.task none false) {
  status = SessionStatus.running;
  task_id = some "t";
}

abbrev with_task : Execution → ChatState
with_task execution = record {
  db = record { sessions = a_session "a" "u" ∷ a_session "b" "v" ∷ []; projects = [] };
  tasks = record { tasks = record { id = "t"; execution = execution } ∷ []; registered = "t" ∷ [] };
  inputs = [];
  yielded = [];
  scheduled = [];
  awaits = 0;
}

first_of-Answers : (es : List (String × Event)) (r : Reading) → first_of es ≡ ok r → Answers r es
first_of-Answers [] r h = cc h
first_of-Answers ((i, e) ∷ es) r h =
    let same : entry i (ok e) ≡ r = cc h in subst (λ x. Answers x ((i, e) ∷ es)) same (es, refl)

three_entries-Increasing : Increasing rank three_entries
three_entries-Increasing = ((omega arith, (omega arith, tt)), ((omega arith, tt), (tt, tt)))

-- The id that the client names is no entry of this stream.
listen-Delivered_example :
    Delivered "t"
      (until_final (map stamped (after rank (some "0-9") three_entries)))
      (with_task running)
      (listen "u" false scripted "a" 5 "t" (some "0-9") (with_task running))
listen-Delivered_example =
    listen-Delivered "u" false scripted "a" "t" rank three_entries three_entries-Increasing
      (λ n start r. first_of-Answers (after rank start three_entries) r) 5 (some "0-9")
      (with_task running)

-- What stands in the stream when the task is over is not read any more.
unread_at_the_end : (listen "u" false scripted "a" 5 "t" none (with_task ended)).1.yielded ≡ []
unfolding listen boxify_agent.Tasks.done
unread_at_the_end = refl

-- A message on a running task, with the events of its round.
answered :
    (chat "u" true scripted "a" 5 (some "hi") none none none (with_task running)).1.yielded
    ≡ map stamped (("1-0", event (title_event "hello")) ∷ ("2-0", event done_event) ∷ [])
unfolding chat boxify_agent.Tasks.done boxify_agent.Tasks.get boxify_agent.Tasks.invoke
    boxify_agent.Store.get_by_id boxify_agent.Store.update_latest_message
    boxify_agent.Store.add_event boxify_agent.Store.update_unread_message_count blank_session
answered = refl

serve-other_example :
    row_of "b"
      (serve "u" true scripted "a"
        (chats 5 (some "hi") none none none)
        (with_task running)).db.sessions
    ≡ row_of "b" (with_task running).db.sessions
serve-other_example =
    serve-other "u" true scripted "a" "b" (chats 5 (some "hi") none none none) (with_task running)
      (λ e. cc ((eq_iff "a" "b").1 e)) (λ n db. refl)

owned_by_v :
    (session : Session)
    → row_of "b" (with_task running).db.sessions ≡ some session
    → TurnedAway "u" session
unfolding blank_session
owned_by_v session e =
    let owner : session.user_id ≡ "v" = cc e in
    inl (refl, λ same. cc ((eq_iff "v" "u").1 (sym owner ∙ same)))

chat-Refusal_example :
    Refusal scripted "b"
      (with_task running).db
      (with_task running)
      (chat "u" true scripted "b" 5 (some "hi") none none none (with_task running)).1
chat-Refusal_example =
    chat-Refusal "u" true scripted "b" 5 (some "hi") none none none (with_task running) owned_by_v
