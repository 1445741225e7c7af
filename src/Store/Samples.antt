-- ===== src/Store/Samples.antt =====
-- Tests of the repositories on a small database, and the theorems on them at concrete inputs.
use boxify_agent.Prelude.{
  pos, List, false, String, ◌≡◌, ◌⊎◌, ◌↔◌, ◌≢◌, refl, none, some, [], ◌∷◌, eq_iff, Elem, map,
  if◌then◌else◌, ◌==◌,
}
use boxify_agent.Result.{ok, err, value_error}
use boxify_agent.Memory.{Memory}
use boxify_agent.Event.{File}
use boxify_agent.Session.{Session, SessionProject, SessionType}
use boxify_agent.Store.{Database, row_of, remove_file, without_file, get_memory, save_memory}
use boxify_agent.Store.Calls.{
  Call, saves, deletes_project, removes_file, increments, run_call, run_calls,
}
use boxify_agent.Store.Tables.{IsWellFormed}
use boxify_agent.Store.WellFormed.{run_calls-IsWellFormed}
use boxify_agent.Store.Frame.{run_call-other}
use boxify_agent.Store.Memories.{get_memory-save_memory}
use boxify_agent.Store.Unread.{Count, up, down, reset, call_of, count_after, run_calls-unread}
use boxify_agent.Store.Files.{remove_file_lem}

abbrev a_file : String → File
a_file id = record {
  id = id;
  filename = "f";
  filepath = "/f";
  key = "";
  extension = "";
  mime_type = "";
  size = 1;
}

abbrev a_session : String → Session
a_session id = record {
  id = id;
  user_id = "u";
  project_id = some "p";
  type = SessionType.task;
  is_pinned = false;
  sandbox_id = none;
  task_id = none;
  title = "t";
  unread_message_count = pos 1;
  latest_message = "";
  latest_message_at = none;
  events = [];
  files = a_file "f1" ∷ a_file "f2" ∷ [];
  memories = [];
  status = boxify_agent.Session.SessionStatus.pending;
}

abbrev a_project : SessionProject
a_project = record { id = "p"; user_id = "u"; name = []; sort_order = 0; is_pinned = false }

abbrev two_sessions : Database
two_sessions = record { sessions = a_session "a" ∷ a_session "b" ∷ []; projects = a_project ∷ [] }

two_sessions-IsWellFormed : IsWellFormed two_sessions
two_sessions-IsWellFormed = record {
  keyed = (((λ e. cc ((eq_iff "a" "b").1 e)), tt), (tt, tt));
  keyed_projects = (tt, tt);
  linked = (refl, (refl, tt));
}

abbrev some_calls : List Call
some_calls =
    saves (a_session "c") ∷ increments "b" ∷ deletes_project "p" "u" ∷ saves (a_session "d") ∷ []

-- The project's sessions go with it, and a session of a project that is gone is refused.
run_some_calls : run_calls some_calls two_sessions ≡ record { sessions = []; projects = [] }
unfolding run_calls boxify_agent.Store.save boxify_agent.Store.delete_project_for_user
    boxify_agent.Store.increment_unread_message_count
run_some_calls = refl

run_calls-IsWellFormed_example : IsWellFormed (run_calls some_calls two_sessions)
run_calls-IsWellFormed_example =
    run_calls-IsWellFormed some_calls two_sessions two_sessions-IsWellFormed

run_call-other_example :
    row_of "b" (run_call (removes_file "a" "f1") two_sessions).1.sessions ≡ some (a_session "b")
run_call-other_example =
    run_call-other (removes_file "a" "f1") "a" "b" two_sessions refl
      (λ e. cc ((eq_iff "a" "b").1 e))

abbrev no_memory : Memory
no_memory = record { messages = [] }

get_memory-save_memory_example :
    ((row_of "a" two_sessions.sessions ≡ none)
      × (save_memory "a" "planner" no_memory two_sessions ≡ (err (value_error "a"), two_sessions)))
    ⊎ ((get_memory "a" "react" (save_memory "a" "planner" no_memory two_sessions).1).0
        ≡ (if "planner" == "react" then ok no_memory else (get_memory "a" "react" two_sessions).0))
get_memory-save_memory_example = get_memory-save_memory "a" "planner" "react" no_memory two_sessions

abbrev counts : List Count
counts = down ∷ down ∷ up ∷ reset 3 ∷ up ∷ []

run_calls-unread_example :
    row_of "a" (run_calls (map (call_of "a") counts) two_sessions).sessions
    ≡ some (record (a_session "a") { unread_message_count = pos (count_after counts 1) })
run_calls-unread_example = run_calls-unread "a" counts two_sessions (a_session "a") 1 refl refl

remove_file_lem_example :
    (row_of "a" (remove_file "a" "f1" two_sessions).1.sessions
      ≡ some (record (a_session "a") { files = without_file "f1" (a_session "a").files }))
    × ((f : File)
        → Elem f (without_file "f1" (a_session "a").files)
          ↔ (Elem f (a_session "a").files × (f.id ≢ "f1")))
remove_file_lem_example = remove_file_lem "a" "f1" two_sessions (a_session "a") refl
