-- ===== src/Store/WellFormed.antt =====
-- db_session_repository.py and db_session_project_repository.py: the writing statements, on
-- well-formed tables.
use boxify_agent.Prelude.{
  String, true, false, not, ◌&&◌, ◌≡◌, ◌≢◌, refl, sym, ap, Option, none, some, List, [], ◌∷◌,
  filterb, find, ◌==◌, is_none, All, eq_iff, arith, Bool-cases, inl, inr,
}
use boxify_agent.Session.{Session, SessionProject}
use boxify_agent.Store.{
  Database, project_exists, project_known, put_project, is_users_project, is_namesake, is_link,
  outlives, delete_by_id, delete_by_id_for_user, delete_by_project, update_title,
  update_latest_message, add_event, add_file, update_status, update_unread_message_count,
  increment_unread_message_count, decrement_unread_message_count, save_memory, save_project,
  delete_project_for_user,
}
use boxify_agent.Store.Tables.{IsWellFormed, Distinct, project_ids, Distinct-filterb}
use boxify_agent.Store.Calls.{
  Call, saves, deletes, deletes_for_user, deletes_in_project, deletes_project, titles, latest,
  adds_event, adds_file, removes_file, sets_status, sets_unread, increments, decrements,
  saves_memory, saves_project, run_call, run_calls,
}
use boxify_agent.Store.Sessions.{
  Linked, update_session_row-IsWellFormed, keep_rows-IsWellFormed, save-IsWellFormed,
  remove_file-IsWellFormed,
}

project_exists-put :
    (project : SessionProject) (id : String) (projects : List SessionProject)
    → project_exists id projects ≡ true
    → project_exists id (put_project project projects) ≡ true
unfolding put_project
project_exists-put project id [] h = cc h
project_exists-put project id (p ∷ ps) h = ground (
  arith,
  eq_iff p.id project.id,
  eq_iff p.id id,
  eq_iff project.id id,
  project_exists-put project id ps,
)

project_known-put :
    (project : SessionProject) (id : Option String) (projects : List SessionProject)
    → project_known id projects ≡ true
    → project_known id (put_project project projects) ≡ true
project_known-put project none projects h = h
project_known-put project (some id) projects h = project_exists-put project id projects h

All-put :
    (k : String) (project : SessionProject) (projects : List SessionProject)
    → k ≢ project.id
    → All (λ j. k ≢ j) (project_ids projects)
    → All (λ j. k ≢ j) (project_ids (put_project project projects))
unfolding put_project
All-put k project [] ne h = (ne, tt)
All-put k project (p ∷ ps) ne h = elim (Bool-cases (p.id == project.id)) [
  | inl same ↦ rw same (ne, h.1)
  | inr other ↦ rw other (h.0, All-put k project ps ne h.1)
]

Distinct-put :
    (project : SessionProject) (projects : List SessionProject)
    → Distinct (project_ids projects)
    → Distinct (project_ids (put_project project projects))
unfolding put_project
Distinct-put project [] d = (tt, tt)
Distinct-put project (p ∷ ps) d = elim (Bool-cases (p.id == project.id)) [
  | inl same ↦ rw (same, sym ((eq_iff p.id project.id).0 same)) d
  | inr other ↦ rw other (
    All-put p.id project ps (λ e. cc (other, (eq_iff p.id project.id).1 e)) d.0,
    Distinct-put project ps d.1,
  )
]

put_project-Linked :
    (project : SessionProject) (projects : List SessionProject) (rows : List Session)
    → All (Linked projects) rows
    → All (Linked (put_project project projects)) rows
put_project-Linked project projects [] h = tt
put_project-Linked project projects (row ∷ rows) h = (
  project_known-put project row.project_id projects h.0,
  put_project-Linked project projects rows h.1,
)

save_project-IsWellFormed :
    (project : SessionProject) (db : Database)
    → IsWellFormed db
    → IsWellFormed (save_project project db).1
unfolding save_project
save_project-IsWellFormed project db w =
    elim (Bool-cases (is_none (find (is_namesake project) db.projects))) [
      | inr taken ↦ rw taken w
      | inl free ↦ rw free (record {
        keyed = w.keyed;
        keyed_projects = Distinct-put project db.projects w.keyed_projects;
        linked = put_project-Linked project db.projects db.sessions w.linked;
      })
    ]

-- A project other than the deleted one is still there.
project_exists-delete :
    (id user_id other : String) (projects : List SessionProject)
    → (other == id) ≡ false
    → project_exists other projects ≡ true
    → project_exists other (filterb (λ p. not (is_users_project id user_id p)) projects) ≡ true
project_exists-delete id user_id other [] ne h = h
project_exists-delete id user_id other (p ∷ ps) ne h = ground (
  arith,
  eq_iff p.id id,
  eq_iff p.id other,
  eq_iff other id,
  project_exists-delete id user_id other ps,
)

-- Where no project of that id and user is found, the delete keeps every project.
filterb-none :
    (id user_id : String) (projects : List SessionProject)
    → is_none (find (is_users_project id user_id) projects) ≡ true
    → filterb (λ p. not (is_users_project id user_id p)) projects ≡ projects
filterb-none id user_id [] h = refl
filterb-none id user_id (p ∷ ps) h = ground (arith, filterb-none id user_id ps)

Linked-delete :
    (id user_id : String) (projects : List SessionProject) (link : Option String)
    → not (true && is_link id link) ≡ true
    → project_known link projects ≡ true
    → project_known link (filterb (λ p. not (is_users_project id user_id p)) projects) ≡ true
Linked-delete id user_id projects none kept h = h
Linked-delete id user_id projects (some p) kept h =
    project_exists-delete id user_id p projects (ground arith) h

All-Linked-delete :
    (id user_id : String) (projects : List SessionProject) (rows : List Session)
    → All (Linked projects) rows
    → All
        (Linked (filterb (λ p. not (is_users_project id user_id p)) projects))
        (filterb (outlives id true) rows)
All-Linked-delete id user_id projects [] h = tt
All-Linked-delete id user_id projects (row ∷ rows) h = elim (Bool-cases (outlives id true row)) [
  | inl kept ↦ rw kept (
    Linked-delete id user_id projects row.project_id kept h.0,
    All-Linked-delete id user_id projects rows h.1,
  )
  | inr gone ↦ rw gone (All-Linked-delete id user_id projects rows h.1)
]

filterb-true : (id : String) (rows : List Session) → filterb (outlives id false) rows ≡ rows
filterb-true id [] = refl
filterb-true id (row ∷ rows) = ap (λ rest. row ∷ rest) (filterb-true id rows)

delete_project-IsWellFormed :
    (id user_id : String) (db : Database)
    → IsWellFormed db
    → IsWellFormed (delete_project_for_user id user_id db).1
unfolding delete_project_for_user
delete_project-IsWellFormed id user_id db w =
    elim (Bool-cases (is_none (find (is_users_project id user_id) db.projects))) [
      | inl absent ↦
          rw (absent, filterb-none id user_id db.projects absent, filterb-true id db.sessions) w
      | inr there ↦ rw there (record {
        keyed = Distinct-filterb (λ row. row.id) (outlives id true) db.sessions w.keyed;
        keyed_projects = Distinct-filterb (λ p. p.id) _ db.projects w.keyed_projects;
        linked = All-Linked-delete id user_id db.projects db.sessions w.linked;
      })
    ]

-- Every statement, whether it meets a row or raises, keeps the tables well formed.
run_call-IsWellFormed :
    (call : Call) (db : Database) → IsWellFormed db → IsWellFormed (run_call call db).1
unfolding run_call delete_by_id delete_by_id_for_user delete_by_project update_title
    update_latest_message add_event add_file update_status update_unread_message_count
    increment_unread_message_count decrement_unread_message_count save_memory
run_call-IsWellFormed (saves session) db w = save-IsWellFormed session db w
run_call-IsWellFormed (deletes id) db w = keep_rows-IsWellFormed _ db w
run_call-IsWellFormed (deletes_for_user id user_id) db w = keep_rows-IsWellFormed _ db w
run_call-IsWellFormed (deletes_in_project id user_id) db w = keep_rows-IsWellFormed _ db w
run_call-IsWellFormed (deletes_project id user_id) db w =
    delete_project-IsWellFormed id user_id db w
run_call-IsWellFormed (removes_file id file_id) db w = remove_file-IsWellFormed id file_id db w
run_call-IsWellFormed (saves_project project) db w = save_project-IsWellFormed project db w
run_call-IsWellFormed (titles id title) db w =
    update_session_row-IsWellFormed id _ db (λ r. refl) (λ r. refl) w
run_call-IsWellFormed (latest id message timestamp) db w =
    update_session_row-IsWellFormed id _ db (λ r. refl) (λ r. refl) w
run_call-IsWellFormed (adds_event id event) db w =
    update_session_row-IsWellFormed id _ db (λ r. refl) (λ r. refl) w
run_call-IsWellFormed (adds_file id file) db w =
    update_session_row-IsWellFormed id _ db (λ r. refl) (λ r. refl) w
run_call-IsWellFormed (sets_status id status) db w =
    update_session_row-IsWellFormed id _ db (λ r. refl) (λ r. refl) w
run_call-IsWellFormed (sets_unread id count) db w =
    update_session_row-IsWellFormed id _ db (λ r. refl) (λ r. refl) w
run_call-IsWellFormed (increments id) db w =
    update_session_row-IsWellFormed id _ db (λ r. refl) (λ r. refl) w
run_call-IsWellFormed (decrements id) db w =
    update_session_row-IsWellFormed id _ db (λ r. refl) (λ r. refl) w
run_call-IsWellFormed (saves_memory id agent_name memory) db w =
    update_session_row-IsWellFormed id _ db (λ r. refl) (λ r. refl) w

-- On well-formed tables, after any writing statements, raising ones included, the ids of sessions and
-- of projects are distinct and every session's project exists.
pub run_calls-IsWellFormed :
    (calls : List Call) (db : Database) → IsWellFormed db → IsWellFormed (run_calls calls db)
unfolding run_calls
run_calls-IsWellFormed [] db w = w
run_calls-IsWellFormed (call ∷ calls) db w =
    run_calls-IsWellFormed calls (run_call call db).1 (run_call-IsWellFormed call db w)
