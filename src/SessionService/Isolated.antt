-- ===== src/SessionService/Isolated.antt =====
-- app/application/services/session_service.py: what the requests of one user leave of another user's session.
use boxify_agent.Prelude.{
  pos, is_none, String, ℕ, Bool, true, false, ◌≡◌, ◌≢◌, refl, ap, sym, ◌∙◌, Option, none, some,
  List, [], ◌∷◌, filterb, find, ◌==◌, is_empty, Elem, All-Elem, eq_iff, arith, Bool-cases,
  Option-cases, inl, inr,
}
use boxify_agent.Prelude.Text.{Text, strip}
use boxify_agent.Result.{Exec, Result, ok, err, resume, commit_or_rollback}
use boxify_agent.Result.Keeps.{Keeps, resume-Keeps, bind-Keeps, transaction-Keeps}
use boxify_agent.Session.{Session, SessionProject}
use boxify_agent.Store
use boxify_agent.Store.{
  Database, has_id, is_users, row_of, is_users_project, is_namesake, in_project, outlives, is_link,
}
use boxify_agent.Store.Calls.{saves, sets_unread, deletes_for_user, run_call}
use boxify_agent.Store.Frame.{run_call-other}
use boxify_agent.Store.Tables.{Distinct, ids}
use boxify_agent.SessionService.{
  ProjectChange, unset, move_to, is_blank_text, normalize_session_type, project_name,
  create_session, create_project, update_project, delete_project, update_session,
  clear_unread_message_count, delete_session, get_session_for_user, check_change, check_project,
  ensure_project_exists, blank_session, made_project, set_or, keep_project, given_project,
  or_not_found, new_project_name, changed,
}
use boxify_agent.SessionService.Requests.{
  Request, creates_session, creates_project, updates_project, deletes_project, updates_session,
  clears_unread, deletes_session, handle, forget,
}

find-users-Elem :
    (id user : String) (rows : List Session) (s : Session)
    → find (is_users id user) rows ≡ some s
    → Elem s.id (ids rows)
find-users-Elem id user [] s h = cc h
find-users-Elem id user (r ∷ rows) s h = elim (Bool-cases (is_users id user r)) [
  | inl hit ↦ let same : r ≡ s = cc (rw hit at h) in inl (ap (λ x. x.id) (sym same))
  | inr miss ↦ inr (find-users-Elem id user rows s (rw miss at h))
]

is_users-owner :
    (id user : String) (r : Session) → is_users id user r ≡ true → (r.id ≡ id) × (r.user_id ≡ user)
is_users-owner id user r h =
    (ground (arith, h, eq_iff r.id id), ground (arith, h, eq_iff r.user_id user))

-- Where ids are distinct, a session that is found for a user is not the row of another user.
users-other :
    (id user j : String) (row s : Session) (rows : List Session)
    → Distinct (ids rows)
    → row_of j rows ≡ some row
    → row.user_id ≢ user
    → find (is_users id user) rows ≡ some s
    → s.id ≢ j
users-other id user j row s [] d e foreign h = cc h
users-other id user j row s (r ∷ rows) d e foreign h = elim (Bool-cases (has_id j r)) [
  | inl here ↦
      let same : r ≡ row = cc (rw here at e) in
      let r_id : r.id ≡ j = (eq_iff r.id j).0 here in
      elim (Bool-cases (is_users id user r)) [
        | inl hit ↦
            absurd (foreign (sym (ap (λ x. x.user_id) same) ∙ (is_users-owner id user r hit).1))
        | inr miss ↦
            let apart =
              All-Elem (λ k. r.id ≢ k) (ids rows) d.0
                (find-users-Elem id user rows s (rw miss at h)) in
            λ s_id. apart (r_id ∙ sym s_id)
      ]
  | inr there ↦ elim (Bool-cases (is_users id user r)) [
    | inl hit ↦
        let same : r ≡ s = cc (rw hit at h) in
        λ s_id. cc (there, (eq_iff r.id j).1 (ap (λ x. x.id) same ∙ s_id))
    | inr miss ↦ users-other id user j row s rows d.1 (rw there at e) foreign (rw miss at h)
  ]
]

find-users-id :
    (id user : String) (rows : List Session) (s : Session)
    → find (is_users id user) rows ≡ some s
    → s.id ≡ id
find-users-id id user [] s h = cc h
find-users-id id user (r ∷ rows) s h = elim (Bool-cases (is_users id user r)) [
  | inl hit ↦
      let same : r ≡ s = cc (rw hit at h) in
      sym (ap (λ x. x.id) same) ∙ (is_users-owner id user r hit).0
  | inr miss ↦ find-users-id id user rows s (rw miss at h)
]

row_of-kept :
    (j : String) (keep : Session → Bool) (row : Session) (rows : List Session)
    → row_of j rows ≡ some row
    → keep row ≡ true
    → row_of j (filterb keep rows) ≡ some row
row_of-kept j keep row [] h k = h
row_of-kept j keep row (r ∷ rows) h k = ground (arith, h, k, row_of-kept j keep row rows)

module _ (user j : String) (row : Session) (given : is_empty user ≡ false)
    (foreign : row.user_id ≢ user) where
  abbrev Stays : Database → Type 0
  Stays db = row_of j db.sessions ≡ some row

  -- A computation on a session that `_get_session_for_user` answers.
  session-Stays :
      {B : Type 0} (id : String) (k : Session → Exec Database B) (db : Database)
      → Distinct (ids db.sessions)
      → Stays db
      → ((s : Session) → s.id ≡ id → s.id ≢ j → Keeps Stays (k s))
      → Stays (resume (get_session_for_user user id db) k).1
  unfolding get_session_for_user Store.get_by_id_for_user
  session-Stays id k db d p h = elim (Option-cases (find (is_users id user) db.sessions)) [
    | inl missing ↦ rw (given, missing) p
    | inr (s, found) ↦
        rw (given, found)
          (h s (find-users-id id user db.sessions s found)
            (users-other id user j row s db.sessions d p foreign found) db p)
  ]

  saves-Stays : (s : Session) → s.id ≢ j → Keeps Stays (Store.save s)
  unfolding run_call
  saves-Stays s other db p = run_call-other (saves s) s.id j db refl other ∙ p

  ensure-Stays : (project_id : String) → Keeps Stays (ensure_project_exists user project_id)
  unfolding ensure_project_exists Store.get_project_for_user
  ensure-Stays project_id db p =
      elim (Option-cases (find (is_users_project project_id user) db.projects)) [
        | inl missing ↦ rw missing p
        | inr (project, found) ↦ rw found p
      ]

  check_project-Stays : (project_id : Option String) → Keeps Stays (check_project user project_id)
  unfolding check_project
  check_project-Stays none db p = p
  check_project-Stays (some project_id) db p = ensure-Stays project_id db p

  check_change-Stays : (change : ProjectChange) → Keeps Stays (check_change user change)
  unfolding check_change
  check_change-Stays unset db p = p
  check_change-Stays (move_to project_id) db p = check_project-Stays (given_project project_id) db p

  forgotten-Stays : {A : Type 0} (r : Result A × Database) → Stays r.1 → Stays (forget r).1
  forgotten-Stays (ok a, db) p = p
  forgotten-Stays (err e, db) p = p

  or_not_found-Stays :
      {A B : Type 0} (what : String) (o : Option A) (k : A → Exec Database B)
      → ((a : A) → Keeps Stays (k a))
      → Keeps Stays (λ db. resume (or_not_found what o db) k)
  or_not_found-Stays what none k h db p = p
  or_not_found-Stays what (some a) k h db p = h a db p

  project_name-Stays : (name : Text) → Keeps Stays (project_name name)
  unfolding project_name
  project_name-Stays name db p = elim (Bool-cases (is_blank_text (strip name))) [
    | inl blank ↦ rw blank p
    | inr filled ↦ rw filled p
  ]

  new_project_name-Stays :
      (name : Option Text) (old : Text) → Keeps Stays (new_project_name name old)
  new_project_name-Stays none old db p = p
  new_project_name-Stays (some name) old db p = project_name-Stays name db p

  -- The row is in no project that the user deletes.
  outside-project :
      (id : String) (db : Database) (project : SessionProject)
      → ((q : String) → row.project_id ≡ some q → find (is_users_project q user) db.projects ≡ none)
      → find (is_users_project id user) db.projects ≡ some project
      → in_project id row ≡ false
  outside-project id db project apart found = elim (Option-cases row.project_id) [
    | inl alone ↦ rw alone refl
    | inr (q, linked) ↦ elim (Bool-cases (q == id)) [
      | inl same ↦ cc (apart q linked, found, (eq_iff q id).0 same)
      | inr other ↦ rw linked other
    ]
  ]

  delete_project-Stays :
      (id : String) (db : Database)
      → ((q : String) → row.project_id ≡ some q → find (is_users_project q user) db.projects ≡ none)
      → Stays db
      → Stays (delete_project user id db).1
  unfolding delete_project Store.get_project_for_user Store.delete_by_project
      Store.delete_project_for_user
  delete_project-Stays id db apart p =
      elim (Option-cases (find (is_users_project id user) db.projects)) [
        | inl missing ↦ rw missing p
        | inr (project, found) ↦
            let away = outside-project id db project apart found in
            rw found (
              row_of-kept j _ row _ (row_of-kept j _ row db.sessions p (rw away refl))
                (rw (found, away) refl))
      ]

  -- A project that is saved, or refused for its name.
  save_project-Stays : (project : SessionProject) → Keeps Stays (keep_project project)
  unfolding Store.save_project
  save_project-Stays project db p =
      elim (Bool-cases (is_none (find (is_namesake project) db.projects))) [
        | inl free ↦ rw free p
        | inr taken ↦ rw taken p
      ]

  update_project-Stays :
      (id : String) (name : Option Text) (sort_order : Option ℕ) (is_pinned : Option Bool)
      (db : Database)
      → Stays db
      → Stays (update_project user id name sort_order is_pinned db).1
  unfolding update_project Store.get_project_for_user
  update_project-Stays id name sort_order is_pinned db p = transaction-Keeps Stays db _ p (
      or_not_found-Stays "project" (find (is_users_project id user) db.projects) _
        (λ project.
          bind-Keeps Stays (new_project_name name project.name) _
            (new_project_name-Stays name project.name)
            (λ name'. save_project-Stays (record project {
              name = name';
              sort_order = set_or sort_order project.sort_order;
              is_pinned = set_or is_pinned project.is_pinned;
            })))
        db p)

  create_session-Stays :
      (id type_name : String) (project_id : Option String) (is_pinned : Bool) (db : Database)
      → id ≢ j
      → Stays db
      → Stays (create_session user id type_name project_id is_pinned db).1
  unfolding create_session blank_session
  create_session-Stays id type_name project_id is_pinned db fresh p =
      resume-Keeps Stays (normalize_session_type type_name, db) _ p
        (λ type db p. transaction-Keeps Stays db _ p (
          bind-Keeps Stays (check_project user (given_project project_id)) _
            (check_project-Stays (given_project project_id))
            (λ x.
              bind-Keeps Stays (Store.save (blank_session id user type project_id is_pinned)) _
                (saves-Stays (blank_session id user type project_id is_pinned) fresh) (λ y db p. p))
            db p))

  update_session-Stays :
      (id : String) (title : Option String) (project : ProjectChange) (is_pinned : Option Bool)
      (db : Database)
      → Distinct (ids db.sessions)
      → Stays db
      → Stays (update_session user id title project is_pinned db).1
  unfolding update_session
  update_session-Stays id title project is_pinned db d p = transaction-Keeps Stays db _ p (
      session-Stays id _ db d p (λ s same other.
        bind-Keeps Stays (check_change user project) _ (check_change-Stays project) (λ x.
          bind-Keeps Stays (Store.save (changed s title project is_pinned)) _
            (saves-Stays (changed s title project is_pinned) other) (λ y db p. p))))

-- The id that a request draws is new.
abbrev pub Fresh : String → Request → Type 0
Fresh j (creates_session id type_name project_id is_pinned) = id ≢ j
Fresh j request = Unit {0}

-- Where session ids are distinct, no request of a user, allowed or refused, changes or removes a session
-- of another user that is in none of this user's projects, if an id that it draws is new.
pub handle-isolated :
    (user j : String) (row : Session) (request : Request) (db : Database)
    → is_empty user ≡ false
    → Distinct (ids db.sessions)
    → row_of j db.sessions ≡ some row
    → row.user_id ≢ user
    → ((q : String) → row.project_id ≡ some q → find (is_users_project q user) db.projects ≡ none)
    → Fresh j request
    → row_of j (handle user request db).1.sessions ≡ some row
unfolding handle create_project clear_unread_message_count delete_session project_name run_call
handle-isolated user j row (creates_session id type_name project_id is_pinned) db given d p foreign
      apart fresh =
    forgotten-Stays user j row given foreign _
      (create_session-Stays user j row given foreign id type_name project_id is_pinned db fresh p)
handle-isolated user j row (creates_project id name sort_order is_pinned) db given d p foreign apart
      fresh =
    elim (Bool-cases (is_blank_text (strip name))) [
      | inl blank ↦ rw blank p
      | inr filled ↦
          let m = keep_project (made_project id user (strip name) sort_order is_pinned) in
          rw filled (
            forgotten-Stays user j row given foreign (commit_or_rollback db (m db)) (
              transaction-Keeps (Stays user j row given foreign) db (m db) p (
                save_project-Stays user j row given foreign
                  (made_project id user (strip name) sort_order is_pinned) db p)))
    ]
handle-isolated user j row (updates_project id name sort_order is_pinned) db given d p foreign apart
      fresh =
    forgotten-Stays user j row given foreign _
      (update_project-Stays user j row given foreign id name sort_order is_pinned db p)
handle-isolated user j row (deletes_project id) db given d p foreign apart fresh =
    delete_project-Stays user j row given foreign id db apart p
handle-isolated user j row (updates_session id title project is_pinned) db given d p foreign apart
      fresh =
    forgotten-Stays user j row given foreign _
      (update_session-Stays user j row given foreign id title project is_pinned db d p)
handle-isolated user j row (clears_unread id) db given d p foreign apart fresh =
    transaction-Keeps (Stays user j row given foreign) db _ p (
      session-Stays user j row given foreign id _ db d p (λ s same other db p.
        run_call-other (sets_unread id (pos 0)) id j db refl (λ e. other (same ∙ e)) ∙ p))
handle-isolated user j row (deletes_session id) db given d p foreign apart fresh =
    transaction-Keeps (Stays user j row given foreign) db _ p (
      session-Stays user j row given foreign id _ db d p (λ s same other db p.
        run_call-other (deletes_for_user id user) id j db refl (λ e. other (same ∙ e)) ∙ p))
