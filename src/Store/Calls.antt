-- ===== src/Store/Calls.antt =====
-- The statements of db_session_repository.py and db_session_project_repository.py that write a
-- table, as data, and the runs of them.
use boxify_agent.Prelude.{String, ℕ, ℤ, List, [], ◌∷◌}
use boxify_agent.Result.{Exec}
use boxify_agent.Memory.{Memory}
use boxify_agent.Event.{Event, File}
use boxify_agent.Session.{Session, SessionProject, SessionStatus}
use boxify_agent.Store.{
  Database, save, delete_by_id, delete_by_id_for_user, delete_by_project, update_title,
  update_latest_message, add_event, add_file, remove_file, update_status,
  update_unread_message_count, increment_unread_message_count, decrement_unread_message_count,
  save_memory, save_project, delete_project_for_user,
}

pub data Call : Type 0 where
  saves : Session → Call
  deletes : (id : String) → Call
  deletes_for_user deletes_in_project deletes_project : (id user_id : String) → Call
  titles : (id title : String) → Call
  latest : (id message : String) (timestamp : ℕ) → Call
  adds_event : (id : String) → Event → Call
  adds_file : (id : String) → File → Call
  removes_file : (id file_id : String) → Call
  sets_status : (id : String) → SessionStatus → Call
  sets_unread : (id : String) (count : ℤ) → Call
  increments decrements : (id : String) → Call
  saves_memory : (id agent_name : String) → Memory → Call
  saves_project : SessionProject → Call

unfoldable pub run_call : Call → Exec Database (Unit {0})
run_call (saves session) = save session
run_call (deletes id) = delete_by_id id
run_call (deletes_for_user id user_id) = delete_by_id_for_user id user_id
run_call (deletes_in_project id user_id) = delete_by_project id user_id
run_call (deletes_project id user_id) = delete_project_for_user id user_id
run_call (titles id title) = update_title id title
run_call (latest id message timestamp) = update_latest_message id message timestamp
run_call (adds_event id event) = add_event id event
run_call (adds_file id file) = add_file id file
run_call (removes_file id file_id) = remove_file id file_id
run_call (sets_status id status) = update_status id status
run_call (sets_unread id count) = update_unread_message_count id count
run_call (increments id) = increment_unread_message_count id
run_call (decrements id) = decrement_unread_message_count id
run_call (saves_memory id agent_name memory) = save_memory id agent_name memory
run_call (saves_project project) = save_project project

-- The database after the calls; a call that raises is followed by the next.
unfoldable pub run_calls : List Call → Database → Database
unfolding run_call
run_calls [] db = db
run_calls (call ∷ calls) db = run_calls calls (run_call call db).1
