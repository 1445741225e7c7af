-- ===== src/Runner/Log.antt =====
-- app/domain/agent_task_runner.py: the output stream beside the events of the session's row.
use boxify_agent.Prelude.{
  ◌⊎◌, String, ℕ, All, ◌≢◌, [], ◌∷◌, some, List, ◌++◌, ◌≡◌, refl, ◌∙◌, ◌==◌, is_none, Bool-cases,
  Option-cases, inl, inr, nat_eq, length,
}
use boxify_agent.Memory.{Memory}
use boxify_agent.Event.{Event, MessageEvent, message_event, error_event}
use boxify_agent.Result.{Error}
use boxify_agent.Runner.{Host}
use boxify_agent.Session.{Session, SessionStatus}
use boxify_agent.Store
use boxify_agent.Store.{Database, row_of, update_rows, update_session_row, without_file}
use boxify_agent.Store.Tables.{row_of-update_rows}
use boxify_agent.Agent.Frame.{Frame}

-- The session's row is still there, and has the same events.
abbrev pub SameLog : String → Database → Database → Type 0
SameLog id before after =
    (row : Session)
    → row_of id before.sessions ≡ some row
    → (row' : Session) × (row_of id after.sessions ≡ some row') × (row'.events ≡ row.events)

-- What the agent service adds to the session by itself: a message of the user, or the error of a chat.
abbrev pub IsFromService : Event → Type 0
IsFromService e =
    ((m : MessageEvent) × (e.body ≡ message_event m) × (m.role ≡ "user"))
    ⊎ ((words : String) × (e.body ≡ error_event words))

-- The event of an entry, with the entry's id unless that is blank.
abbrev pub Stamped : String → Event → Event → Type 0
Stamped i e e' = (e'.body ≡ e.body) × (i ≢ "" → e'.id ≡ i)

-- The events of a session beside the entries of the output stream: the events before the run, and then those of the
-- entries in their order, each with its entry's id, with what the agent service adds between them. An entry's event is
-- missing only where a block of statements failed by itself.
pub data Weave (host : Host) (base : List Event) : List Event → List (String × Event) → Type 0 where
  begins : Weave host base base []
  recorded :
      (log : List Event) (output : List (String × Event)) (i : String) (e e' : Event)
      → Stamped i e e'
      → Weave host base log output
      → Weave host base (log ++ e' ∷ []) (output ++ (i, e) ∷ [])
  missed :
      (log : List Event) (output : List (String × Event)) (i : String) (e : Event) (n : ℕ)
      (error : Error)
      → host.store_fault n ≡ some error
      → Weave host base log output
      → Weave host base log (output ++ (i, e) ∷ [])
  interleaved :
      (log added : List Event) (output : List (String × Event))
      → All IsFromService added
      → Weave host base log output
      → Weave host base (log ++ added) output

-- The session is there, and its events and the entries of the output stream are woven so.
pub record Agrees (host : Host) (id : String) (base : List Event) (db : Database)
    (output : List (String × Event)) : Type 0 where
  pub row : Session
  pub found : row_of id db.sessions ≡ some row
  pub woven : Weave host base row.events output

-- Other coroutines keep the session, and add to its events nothing but what the agent service adds.
abbrev pub AddsFromService : Host → String → Type 0
AddsFromService host id =
    (n : ℕ) (db : Database) (row : Session)
    → row_of id db.sessions ≡ some row
    → (row' : Session) × (added : List Event) × (row_of id (host.others_write n db).sessions
        ≡ some row')
      × (row'.events ≡ row.events ++ added)
      × All IsFromService added

module _ (id : String) where
  -- An update of some row's other columns.
  pub update_session_row-SameLog :
      (other : String) (change : Session → Session) (db : Database)
      → ((row : Session) → (change row).id ≡ row.id)
      → ((row : Session) → (change row).events ≡ row.events)
      → SameLog id db (update_session_row other change db).1
  unfolding update_session_row
  update_session_row-SameLog other change db same_id same_events row e =
      elim (Bool-cases (is_none (row_of other db.sessions))) [
        | inl missing ↦ rw missing (row, e, refl)
        | inr there ↦ elim (Bool-cases (other == id)) [
          | inl hit ↦ rw there (
            change row,
            row_of-update_rows other id change db.sessions same_id ∙ rw (hit, e) refl,
            same_events row,
          )
          | inr miss ↦ rw there (
            row,
            row_of-update_rows other id change db.sessions same_id ∙ rw (miss, e) refl,
            refl,
          )
        ]
      ]

  pub save_memory-SameLog :
      (other name : String) (memory : Memory) (db : Database)
      → SameLog id db (Store.save_memory other name memory db).1
  unfolding boxify_agent.Store.save_memory
  save_memory-SameLog other name memory db =
      update_session_row-SameLog other _ db (λ row. refl) (λ row. refl)

  pub update_status-SameLog :
      (other : String) (status : SessionStatus) (db : Database)
      → SameLog id db (Store.update_status other status db).1
  unfolding boxify_agent.Store.update_status
  update_status-SameLog other status db =
      update_session_row-SameLog other _ db (λ row. refl) (λ row. refl)

  pub remove_file-SameLog :
      (other file_id : String) (db : Database)
      → SameLog id db (Store.remove_file other file_id db).1
  unfolding boxify_agent.Store.remove_file
  remove_file-SameLog other file_id db row e = elim (Option-cases (row_of other db.sessions)) [
    | inl missing ↦ rw (missing, Store.remove_file) (row, e, refl)
    | inr (r, e') ↦
        let change : Session → Session = λ x. record x { files = without_file file_id r.files } in
        elim (Bool-cases (nat_eq (length (without_file file_id r.files)) (length r.files))) [
          | inl same ↦ rw (e', Store.remove_file) (rw same (row, e, refl))
          | inr shorter ↦ elim (Bool-cases (other == id)) [
            | inl hit ↦
                rw (e', Store.remove_file)
                  (rw shorter (
                    change row,
                    row_of-update_rows other id change db.sessions (λ x. refl) ∙ rw (hit, e) refl,
                    refl,
                  ))
            | inr miss ↦
                rw (e', Store.remove_file)
                  (rw shorter (
                    row,
                    row_of-update_rows other id change db.sessions (λ x. refl) ∙ rw (miss, e) refl,
                    refl,
                  ))
          ]
        ]
  ]

  -- The relation that flow and agents keep.
  abbrev pub log_frame : Frame
  log_frame = record {
    Rel = SameLog id;
    here = λ db row e. (row, e, refl);
    next = λ a b c f g row e.
        let (row', e', same) = f row e in
        let (row'', e'', same') = g row' e' in (row'', e'', same' ∙ same);
    saves = save_memory-SameLog;
    statuses = update_status-SameLog;
  }
