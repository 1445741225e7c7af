-- ===== src/Store/Sessions.antt =====
-- db_session_repository.py: the statements on sessions, on well-formed tables.
use boxify_agent.Prelude.{
  String, Bool, true, ◌≡◌, refl, ap, ◌∙◌, List, [], ◌∷◌, filterb, is_none, nat_eq, length, All,
  All-append, eq_iff, arith, Bool-cases, Option-cases, inl, inr,
}
use boxify_agent.Session.{Session, SessionProject}
use boxify_agent.Store.{
  Database, has_id, row_of, update_rows, update_session_row, project_known, save, remove_file,
  without_file,
}
use boxify_agent.Store.Tables.{IsWellFormed, ids, ids-update_rows, Distinct-filterb, Distinct-snoc}

-- A session whose project is known.
abbrev pub Linked : List SessionProject → Session → Type 0
Linked projects row = project_known row.project_id projects ≡ true

pub Linked-update_rows :
    (projects : List SessionProject) (id : String) (change : Session → Session)
    (rows : List Session)
    → ((row : Session) → Linked projects row → Linked projects (change row))
    → All (Linked projects) rows
    → All (Linked projects) (update_rows id change rows)
unfolding update_rows
Linked-update_rows projects id change [] keeps h = tt
Linked-update_rows projects id change (row ∷ rows) keeps h = elim (Bool-cases (has_id id row)) [
  | inl hit ↦ rw hit (keeps row h.0, Linked-update_rows projects id change rows keeps h.1)
  | inr miss ↦ rw miss (h.0, Linked-update_rows projects id change rows keeps h.1)
]

pub Linked-filterb :
    (projects : List SessionProject) (keep : Session → Bool) (rows : List Session)
    → All (Linked projects) rows
    → All (Linked projects) (filterb keep rows)
Linked-filterb projects keep [] h = tt
Linked-filterb projects keep (row ∷ rows) h = elim (Bool-cases (keep row)) [
  | inl kept ↦ rw kept (h.0, Linked-filterb projects keep rows h.1)
  | inr gone ↦ rw gone (Linked-filterb projects keep rows h.1)
]

pub update_session_row-IsWellFormed :
    (id : String) (change : Session → Session) (db : Database)
    → ((row : Session) → (change row).id ≡ row.id)
    → ((row : Session) → (change row).project_id ≡ row.project_id)
    → IsWellFormed db
    → IsWellFormed (update_session_row id change db).1
unfolding update_session_row
update_session_row-IsWellFormed id change db same_id same_project w =
    elim (Bool-cases (is_none (row_of id db.sessions))) [
      | inl missing ↦ rw missing w
      | inr there ↦ rw there (record {
        keyed = rw (ids-update_rows id change db.sessions same_id) w.keyed;
        keyed_projects = w.keyed_projects;
        linked =
            Linked-update_rows db.projects id change db.sessions
              (λ row h. ap (λ p. project_known p db.projects) (same_project row) ∙ h) w.linked;
      })
    ]

pub keep_rows-IsWellFormed :
    (keep : Session → Bool) (db : Database)
    → IsWellFormed db
    → IsWellFormed (record db { sessions = filterb keep db.sessions })
keep_rows-IsWellFormed keep db w = record {
  keyed = Distinct-filterb (λ row. row.id) keep db.sessions w.keyed;
  keyed_projects = w.keyed_projects;
  linked = Linked-filterb db.projects keep db.sessions w.linked;
}

-- Writing a session over the row of its id keeps the ids.
ids-overwrite :
    (session : Session) (rows : List Session)
    → ids (update_rows session.id (λ row. session) rows) ≡ ids rows
unfolding update_rows
ids-overwrite session [] = refl
ids-overwrite session (row ∷ rows) =
    ground (arith, eq_iff row.id session.id, ids-overwrite session rows)

pub save-IsWellFormed :
    (session : Session) (db : Database) → IsWellFormed db → IsWellFormed (save session db).1
unfolding save
save-IsWellFormed session db w = elim (Bool-cases (project_known session.project_id db.projects)) [
  | inr unknown ↦ rw unknown w
  | inl known ↦ elim (Option-cases (row_of session.id db.sessions)) [
    | inl new ↦
        rw (known, new)
          (record {
            keyed = Distinct-snoc db.sessions session new w.keyed;
            keyed_projects = w.keyed_projects;
            linked =
                All-append (Linked db.projects) db.sessions (session ∷ []) w.linked (known, tt);
          })
    | inr (row, old) ↦
        rw (known, old)
          (record {
            keyed = rw (ids-overwrite session db.sessions) w.keyed;
            keyed_projects = w.keyed_projects;
            linked =
                Linked-update_rows db.projects session.id (λ row. session) db.sessions
                  (λ r h. known) w.linked;
          })
  ]
]

pub remove_file-IsWellFormed :
    (id file_id : String) (db : Database)
    → IsWellFormed db
    → IsWellFormed (remove_file id file_id db).1
unfolding remove_file
remove_file-IsWellFormed id file_id db w = elim (Option-cases (row_of id db.sessions)) [
  | inl missing ↦ rw (missing, remove_file) w
  | inr (row, e) ↦
      elim (Bool-cases (nat_eq (length (without_file file_id row.files)) (length row.files))) [
        | inl same ↦ rw (e, remove_file) (rw same w)
        | inr shorter ↦
            let change : Session → Session =
              λ r. record r { files = without_file file_id row.files } in
            rw (e, remove_file)
              (rw shorter (record {
                keyed = rw (ids-update_rows id change db.sessions (λ r. refl)) w.keyed;
                keyed_projects = w.keyed_projects;
                linked = Linked-update_rows db.projects id change db.sessions (λ r h. h) w.linked;
              }))
      ]
]
