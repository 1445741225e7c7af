-- ===== src/Store/Frame.antt =====
-- db_session_repository.py: the rows that a statement leaves alone.
use boxify_agent.Prelude.{
  String, Bool, true, false, ◌≡◌, ◌≢◌, refl, Option, none, some, List, [], ◌∷◌, filterb, ◌==◌,
  eq_iff, arith, Option-cases, inl, inr,
}
use boxify_agent.Session.{Session}
use boxify_agent.Store.{
  Database, has_id, row_of, update_rows, update_session_row, without_file, save, delete_by_id,
  delete_by_id_for_user, update_title, update_latest_message, add_event, add_file, remove_file,
  update_status, update_unread_message_count, increment_unread_message_count,
  decrement_unread_message_count, save_memory,
}
use boxify_agent.Store.Tables.{row_of-update_rows, row_of-filterb, row_of-append}
use boxify_agent.Store.Calls.{
  Call, saves, deletes, deletes_for_user, deletes_in_project, deletes_project, titles, latest,
  adds_event, adds_file, removes_file, sets_status, sets_unread, increments, decrements,
  saves_memory, saves_project, run_call,
}

-- The one session that a statement names by its id, where it names one.
abbrev pub target : Call → Option String
target (saves session) = some session.id
target (deletes id) = some id
target (deletes_for_user id user_id) = some id
target (deletes_in_project id user_id) = none
target (deletes_project id user_id) = none
target (titles id title) = some id
target (latest id message timestamp) = some id
target (adds_event id event) = some id
target (adds_file id file) = some id
target (removes_file id file_id) = some id
target (sets_status id status) = some id
target (sets_unread id count) = some id
target (increments id) = some id
target (decrements id) = some id
target (saves_memory id agent_name memory) = some id
target (saves_project project) = none

module _ (id j : String) (db : Database) (other : id ≢ j) where
  other-eq : (id == j) ≡ false
  other-eq = ground (arith, eq_iff id j)

  update_session_row-other :
      (change : Session → Session)
      → ((row : Session) → (change row).id ≡ row.id)
      → row_of j (update_session_row id change db).1.sessions ≡ row_of j db.sessions
  unfolding update_session_row
  update_session_row-other change keeps =
      ground (arith, other-eq, row_of-update_rows id j change db.sessions keeps)

  keep_rows-other :
      (keep : Session → Bool)
      → ((row : Session) → has_id j row ≡ true → keep row ≡ true)
      → row_of j (filterb keep db.sessions) ≡ row_of j db.sessions
  keep_rows-other keep h = row_of-filterb j keep db.sessions h

  delete_by_id-other : row_of j (delete_by_id id db).1.sessions ≡ row_of j db.sessions
  unfolding delete_by_id
  delete_by_id-other =
      keep_rows-other _ (λ row h. ground (arith, other, eq_iff row.id j, eq_iff row.id id))

  delete_by_id_for_user-other :
      (user_id : String)
      → row_of j (delete_by_id_for_user id user_id db).1.sessions ≡ row_of j db.sessions
  unfolding delete_by_id_for_user
  delete_by_id_for_user-other user_id =
      keep_rows-other _ (λ row h. ground (arith, other, eq_iff row.id j, eq_iff row.id id))

  remove_file-other :
      (file_id : String) → row_of j (remove_file id file_id db).1.sessions ≡ row_of j db.sessions
  unfolding remove_file
  remove_file-other file_id = elim (Option-cases (row_of id db.sessions)) [
    | inl missing ↦ rw (missing, remove_file)
    | inr (row, e) ↦
        let change : Session → Session = λ r. record r { files = without_file file_id row.files } in
        rw (e, remove_file)
          (ground (arith, other-eq, row_of-update_rows id j change db.sessions (λ r. refl)))
  ]

-- Overwriting the row of a session's id leaves the rows of other ids.
overwrite-other :
    (session : Session) (j : String) (rows : List Session)
    → session.id ≢ j
    → row_of j (update_rows session.id (λ row. session) rows) ≡ row_of j rows
unfolding update_rows
overwrite-other session j [] other = refl
overwrite-other session j (row ∷ rows) other = ground (
  arith,
  other,
  eq_iff row.id session.id,
  eq_iff row.id j,
  eq_iff session.id j,
  overwrite-other session j rows,
)

save-other :
    (session : Session) (j : String) (db : Database)
    → session.id ≢ j
    → row_of j (save session db).1.sessions ≡ row_of j db.sessions
unfolding save
save-other session j db other = ground (
  arith,
  other,
  eq_iff session.id j,
  row_of-append j db.sessions session,
  overwrite-other session j db.sessions,
)

-- A statement that names one session leaves every other session as it was.
pub run_call-other :
    (call : Call) (id j : String) (db : Database)
    → target call ≡ some id
    → id ≢ j
    → row_of j (run_call call db).1.sessions ≡ row_of j db.sessions
unfolding run_call update_title update_latest_message add_event add_file update_status
    update_unread_message_count increment_unread_message_count decrement_unread_message_count
    save_memory
run_call-other (saves session) id j db t other = save-other session j db (λ e. other (cc))
run_call-other (deletes i) id j db t other = delete_by_id-other i j db (λ e. other (cc))
run_call-other (deletes_for_user i u) id j db t other =
    delete_by_id_for_user-other i j db (λ e. other (cc)) u
run_call-other (deletes_in_project i u) id j db t other = cc t
run_call-other (deletes_project i u) id j db t other = cc t
run_call-other (saves_project project) id j db t other = cc t
run_call-other (removes_file i file_id) id j db t other =
    remove_file-other i j db (λ e. other (cc)) file_id
run_call-other (titles i x) id j db t other =
    update_session_row-other i j db (λ e. other (cc)) _ (λ r. refl)
run_call-other (latest i x y) id j db t other =
    update_session_row-other i j db (λ e. other (cc)) _ (λ r. refl)
run_call-other (adds_event i x) id j db t other =
    update_session_row-other i j db (λ e. other (cc)) _ (λ r. refl)
run_call-other (adds_file i x) id j db t other =
    update_session_row-other i j db (λ e. other (cc)) _ (λ r. refl)
run_call-other (sets_status i x) id j db t other =
    update_session_row-other i j db (λ e. other (cc)) _ (λ r. refl)
run_call-other (sets_unread i x) id j db t other =
    update_session_row-other i j db (λ e. other (cc)) _ (λ r. refl)
run_call-other (increments i) id j db t other =
    update_session_row-other i j db (λ e. other (cc)) _ (λ r. refl)
run_call-other (decrements i) id j db t other =
    update_session_row-other i j db (λ e. other (cc)) _ (λ r. refl)
run_call-other (saves_memory i x y) id j db t other =
    update_session_row-other i j db (λ e. other (cc)) _ (λ r. refl)
