-- ===== src/Store.antt =====
-- The session and project tables, and app/infrastructure/repositories/db_session_repository.py and
-- db_session_project_repository.py over them. A table is its list of rows; the rows of a select
-- keep the table's order, since the timestamps that ORDER BY reads are not modelled.
pub mod Tables
pub mod Calls
pub mod Sessions
pub mod WellFormed
pub mod Frame
pub mod Memories
pub mod Unread
pub mod Files
mod Samples
use mathlib.Core.Option
use boxify_agent.Prelude.{
  String, ℕ, ℤ, pos, succ_ℤ, pred_ℤ, greatest, Bool, true, false, not, ◌&&◌, Option, none, some,
  List, [], ◌∷◌, ◌++◌, map, filterb, find, ◌==◌, if◌then◌else◌, is_none, length, nat_eq,
}
use boxify_agent.Prelude.Text.{text_eq}
use boxify_agent.Result.{
  Error, Exec, Result, ok, err, value_error, integrity_error, pure, raise, gets, ◌>>=◌, ◌>>◌, when,
}
use boxify_agent.Memory.{Memory, ChatMessage}
use boxify_agent.Event.{Event, File}
use boxify_agent.Session.{Session, SessionProject, SessionStatus}

pub record Database : Type 0 where
  pub sessions : List Session
  pub projects : List SessionProject

abbrev pub has_id : String → Session → Bool
has_id id row = row.id == id

-- `WHERE id = :id`, where the primary key leaves one row at most.
abbrev pub row_of : String → List Session → Option Session
row_of id rows = find (has_id id) rows

-- An UPDATE of the rows with an id.
unfoldable pub update_rows : String → (Session → Session) → List Session → List Session
update_rows id change [] = []
update_rows id change (row ∷ rows) =
    (if has_id id row then change row else row) ∷ update_rows id change rows

-- The UPDATE of one session, and the test that it met a row.
unfoldable pub update_session_row : String → (Session → Session) → Exec Database (Unit {0})
unfolding update_rows
update_session_row id change db =
    if is_none (row_of id db.sessions)
    then (err (value_error id), db)
    else (ok tt, record db { sessions = update_rows id change db.sessions })

abbrev pub project_exists : String → List SessionProject → Bool
project_exists id projects = not (is_none (find (λ p. p.id == id) projects))

-- The foreign key of `project_id`, which is checked when the row is written.
abbrev pub project_known : Option String → List SessionProject → Bool
project_known none projects = true
project_known (some id) projects = project_exists id projects

-- The stored row takes every field of the session over.
unfoldable pub save : Session → Exec Database (Unit {0})
unfolding update_rows
save session db =
    if not (project_known session.project_id db.projects)
    then (err (integrity_error session.id), db)
    else if is_none (row_of session.id db.sessions)
    then (ok tt, record db { sessions = db.sessions ++ session ∷ [] })
    else (ok tt, record db { sessions = update_rows session.id (λ row. session) db.sessions })

unfoldable pub get_all : Exec Database (List Session)
get_all = gets (λ db. db.sessions)

unfoldable pub get_all_by_user : String → Exec Database (List Session)
get_all_by_user user_id = gets (λ db. filterb (λ row. row.user_id == user_id) db.sessions)

unfoldable pub get_by_id : String → Exec Database (Option Session)
get_by_id id = gets (λ db. row_of id db.sessions)

abbrev pub is_users : String → String → Session → Bool
is_users id user_id row = has_id id row && row.user_id == user_id

unfoldable pub get_by_id_for_user : String → String → Exec Database (Option Session)
get_by_id_for_user id user_id = gets (λ db. find (is_users id user_id) db.sessions)

unfoldable pub delete_by_id : String → Exec Database (Unit {0})
delete_by_id id db =
    (ok tt, record db { sessions = filterb (λ row. not (has_id id row)) db.sessions })

unfoldable pub delete_by_id_for_user : String → String → Exec Database (Unit {0})
delete_by_id_for_user id user_id db =
    (ok tt, record db { sessions = filterb (λ row. not (is_users id user_id row)) db.sessions })

abbrev pub is_link : String → Option String → Bool
is_link id none = false
is_link id (some p) = p == id

abbrev pub in_project : String → Session → Bool
in_project id row = is_link id row.project_id

unfoldable pub delete_by_project : String → String → Exec Database (Unit {0})
delete_by_project project_id user_id db = (
  ok tt,
  record db {
    sessions =
        filterb (λ row. not (in_project project_id row && row.user_id == user_id)) db.sessions;
  },
)

unfoldable pub update_title : String → String → Exec Database (Unit {0})
unfolding update_session_row
update_title id title = update_session_row id (λ row. record row { title = title })

unfoldable pub update_latest_message : String → String → ℕ → Exec Database (Unit {0})
unfolding update_session_row
update_latest_message id message timestamp =
    update_session_row id
      (λ row. record row { latest_message = message; latest_message_at = some timestamp })

unfoldable pub add_event : String → Event → Exec Database (Unit {0})
unfolding update_session_row
add_event id event = update_session_row id (λ row. record row { events = row.events ++ event ∷ [] })

unfoldable pub add_file : String → File → Exec Database (Unit {0})
unfolding update_session_row
add_file id file = update_session_row id (λ row. record row { files = row.files ++ file ∷ [] })

unfoldable pub without_file : String → List File → List File
without_file file_id files = filterb (λ f. not (f.id == file_id)) files

-- The row is read under a lock, and written if the filtered list is shorter.
unfoldable pub remove_file : String → String → Exec Database (Unit {0})
unfolding update_rows without_file
remove_file id file_id db = elim (row_of id db.sessions) [
  | none ↦ (err (value_error id), db)
  | some row ↦
      if nat_eq (length (without_file file_id row.files)) (length row.files) then (ok tt, db) else (
        ok tt,
        record db {
          sessions =
              update_rows id (λ r. record r { files = without_file file_id row.files }) db.sessions;
        },
      )
]

abbrev pub file_in : String → Option Session → Option File
file_in filepath none = none
file_in filepath (some row) = find (λ f. f.filepath == filepath) row.files

unfoldable pub get_file_by_path : String → String → Exec Database (Option File)
get_file_by_path id filepath = gets (λ db. file_in filepath (row_of id db.sessions))

unfoldable pub update_status : String → SessionStatus → Exec Database (Unit {0})
unfolding update_session_row
update_status id status = update_session_row id (λ row. record row { status = status })

unfoldable pub update_unread_message_count : String → ℤ → Exec Database (Unit {0})
unfolding update_session_row
update_unread_message_count id count =
    update_session_row id (λ row. record row { unread_message_count = count })

unfoldable pub increment_unread_message_count : String → Exec Database (Unit {0})
unfolding update_session_row
increment_unread_message_count id =
    update_session_row id
      (λ row. record row { unread_message_count = succ_ℤ row.unread_message_count })

-- GREATEST(count - 1, 0), on an integer column.
unfoldable pub decrement_unread_message_count : String → Exec Database (Unit {0})
unfolding update_session_row
decrement_unread_message_count id = update_session_row id (λ row. record row {
  unread_message_count = greatest (pred_ℤ row.unread_message_count) (pos 0);
})

-- `memories || {agent_name: memory}`
unfoldable pub put_memory : String → Memory → List (String × Memory) → List (String × Memory)
put_memory name memory [] = (name, memory) ∷ []
put_memory name memory ((key, old) ∷ rest) =
    if key == name then (key, memory) ∷ rest else (key, old) ∷ put_memory name memory rest

unfoldable pub memory_of : String → List (String × Memory) → Option Memory
memory_of name [] = none
memory_of name ((key, memory) ∷ rest) = if key == name then some memory else memory_of name rest

unfoldable pub save_memory : String → String → Memory → Exec Database (Unit {0})
unfolding update_session_row put_memory
save_memory id agent_name memory =
    update_session_row id
      (λ row. record row { memories = put_memory agent_name memory row.memories })

abbrev pub no_messages : Memory
no_messages = record { messages = [] }

-- The memory that a row holds, if the select met one.
unfoldable pub memory_in : String → Option Session → Memory
unfolding memory_of
memory_in agent_name none = no_messages
memory_in agent_name (some row) = Option.get_or (memory_of agent_name row.memories) no_messages

unfoldable pub get_memory : String → String → Exec Database Memory
unfolding memory_in
get_memory id agent_name = gets (λ db. memory_in agent_name (row_of id db.sessions))

-- db_session_project_repository.py

abbrev pub is_users_project : String → String → SessionProject → Bool
is_users_project id user_id p = p.id == id && p.user_id == user_id

unfoldable pub put_project : SessionProject → List SessionProject → List SessionProject
put_project project [] = project ∷ []
put_project project (p ∷ ps) =
    if p.id == project.id then project ∷ ps else p ∷ put_project project ps

-- Another project of the user has the name, which UNIQUE (user_id, name) refuses.
abbrev pub is_namesake : SessionProject → SessionProject → Bool
is_namesake project p =
    not (p.id == project.id) && p.user_id == project.user_id && text_eq p.name project.name

unfoldable pub save_project : SessionProject → Exec Database (Unit {0})
unfolding put_project
save_project project db =
    if is_none (find (is_namesake project) db.projects)
    then (ok tt, record db { projects = put_project project db.projects })
    else (err (integrity_error project.id), db)

unfoldable pub list_projects_by_user : String → Exec Database (List SessionProject)
list_projects_by_user user_id = gets (λ db. filterb (λ p. p.user_id == user_id) db.projects)

unfoldable pub get_project_for_user : String → String → Exec Database (Option SessionProject)
get_project_for_user id user_id = gets (λ db. find (is_users_project id user_id) db.projects)

-- `ON DELETE CASCADE`: the sessions of a project that is gone go with it, whoever owns them.
abbrev pub outlives : String → Bool → Session → Bool
outlives id gone row = not (gone && in_project id row)

unfoldable pub delete_project_for_user : String → String → Exec Database (Unit {0})
delete_project_for_user id user_id db =
    let gone = not (is_none (find (is_users_project id user_id) db.projects)) in
    (
      ok tt,
      record {
        sessions = filterb (outlives id gone) db.sessions;
        projects = filterb (λ p. not (is_users_project id user_id p)) db.projects;
      },
    )
