-- ===== src/Runner/InStep.antt =====
-- app/domain/agent_task_runner.py: the computations of the runner that keep the output stream and the
-- events of the session's row in step.
use boxify_agent.Prelude.{
  String, ℕ, Option, none, some, List, [], ◌∷◌, ◌++◌, refl, ◌∙◌, sym, subst, is_empty, Bool-cases,
  Option-cases, inl, inr, eq_iff,
}
use boxify_agent.Result.{Error, Exec, Result, ok, err, resume, transaction, commit_or_rollback}
use boxify_agent.Event.{Event}
use boxify_agent.Store
use boxify_agent.Store.{Database, row_of, update_rows, update_session_row}
use boxify_agent.Store.Tables.{row_of-update_rows}
use boxify_agent.Agent.{Services}
use boxify_agent.Runner.{
  Host, RunState, db_of, waited, at_store, in_store, stored, pushed, with_id, put_output,
  put_and_add_event,
}
use boxify_agent.Runner.Log.{
  SameLog, Agrees, AddsFromService, Stamped, Weave, recorded, missed, interleaved,
}

module _ (host : Host) (id : String) (base : List Event) (others : AddsFromService host id) where
  pub same-Agrees :
      (before after : Database) (output : List (String × Event))
      → SameLog id before after
      → Agrees host id base before output
      → Agrees host id base after output
  same-Agrees before after output h a =
      let (row', e', same') = h a.row a.found in
      record {
        row = row';
        found = e';
        woven = subst (λ log. Weave host base log output) (sym same') a.woven;
      }

  others-Agrees :
      (n : ℕ) (db : Database) (output : List (String × Event))
      → Agrees host id base db output
      → Agrees host id base (host.others_write n db) output
  others-Agrees n db output a =
      let (row', added, e', more, from_service) = others n db a.row a.found in
      record {
        row = row';
        found = e';
        woven =
            subst (λ log. Weave host base log output) (sym more)
              (interleaved a.row.events added output from_service a.woven);
      }

  abbrev pub AgreesAt : RunState → Type 0
  AgreesAt st = Agrees host id base (db_of st) st.output

  -- A computation whose every run keeps the two in step.
  abbrev pub InStep : {A : Type 0} → Exec RunState A → Type 0
  InStep m = (st : RunState) → AgreesAt st → AgreesAt (m st).1

  pub waited-Agrees : (st : RunState) → AgreesAt st → AgreesAt (waited host st)
  waited-Agrees st a = others-Agrees st.calls (db_of st) st.output a

  stored-Agrees :
      {A : Type 0} (st : RunState) (r : Result A × Database)
      → SameLog id (db_of st) r.1
      → AgreesAt st
      → AgreesAt (stored st (commit_or_rollback (db_of st) r)).1
  stored-Agrees st (ok x, db) h a = same-Agrees (db_of st) db st.output h a
  stored-Agrees st (err e, db) h a = a

  at_store-Agrees :
      {A : Type 0} (fault : Option Error) (m : Exec Database A) (st : RunState)
      → ((db : Database) → SameLog id db (m db).1)
      → AgreesAt st
      → AgreesAt (at_store fault m st).1
  at_store-Agrees (some e) m st h a = a
  at_store-Agrees none m st h a = stored-Agrees st (m (db_of st)) (h (db_of st)) a

  pub in_store-InStep :
      {A : Type 0} (m : Exec Database A)
      → ((db : Database) → SameLog id db (m db).1)
      → InStep (in_store host m)
  in_store-InStep m h st a =
      at_store-Agrees (host.store_fault st.calls) m (waited host st) h (waited-Agrees st a)

module _ (env : Services) (host : Host) (base : List Event)
    (others : AddsFromService host env.session_id) where
  -- With the section's session, which is the runner's.
  abbrev pub Keeps : {A : Type 0} → Exec RunState A → Type 0
  Keeps = InStep host env.session_id base others

  with_id-Stamped : (i : String) (e : Event) → Stamped i e (with_id i e)
  with_id-Stamped i e = elim (Bool-cases (is_empty i)) [
    | inl empty ↦ rw empty (refl, λ given. absurd (given ((eq_iff i "").0 empty)))
    | inr filled ↦ rw filled (refl, λ given. refl)
  ]

  -- The event of a new entry is added to the session.
  added-Agrees :
      (i : String) (e e' : Event) (db : Database) (output : List (String × Event))
      → Stamped i e e'
      → Agrees host env.session_id base db output
      → Agrees host env.session_id base
          (transaction (Store.add_event env.session_id e') db).1
          (output ++ (i, e) ∷ [])
  unfolding boxify_agent.Store.add_event update_session_row
  added-Agrees i e e' db output same a = rw a.found (record {
    row = record a.row { events = a.row.events ++ e' ∷ [] };
    found =
        row_of-update_rows env.session_id env.session_id
          (λ row. record row { events = row.events ++ e' ∷ [] }) db.sessions (λ row. refl)
        ∙ rw (a.found, (eq_iff env.session_id env.session_id).1 refl) refl;
    woven = recorded a.row.events output i e e' same a.woven;
  })

  -- The entry stands in the stream, and the block that adds its event runs or fails.
  entered :
      (i : String) (e : Event) (n : ℕ) (st : RunState)
      → AgreesAt host env.session_id base others st
      → AgreesAt host env.session_id base others
          (at_store
            (host.store_fault n)
            (Store.add_event env.session_id (with_id i e))
            (record st { output = st.output ++ (i, e) ∷ [] })).1
  entered i e n st a = elim (Option-cases (host.store_fault n)) [
    | inl fine ↦
        rw fine (added-Agrees i e (with_id i e) (db_of st) st.output (with_id-Stamped i e) a)
    | inr (error, fault) ↦ rw fault (record {
      row = a.row;
      found = a.found;
      woven = missed a.row.events st.output i e n error fault a.woven;
    })
  ]

  put_in :
      (e : Event) (answer : Result String) (st : RunState)
      → AgreesAt host env.session_id base others st
      → AgreesAt host env.session_id base others
          (resume
            (pushed e answer st)
            (λ i. in_store host (Store.add_event env.session_id (with_id i e)))).1
  put_in e (err error) st a = a
  put_in e (ok i) st a =
      entered i e st.calls (waited host st) (waited-Agrees host env.session_id base others st a)

  -- An event that is put out is recorded in the session too.
  pub put_and_add_event-Keeps : (e : Event) → Keeps (put_and_add_event env host e)
  unfolding put_and_add_event put_output
  put_and_add_event-Keeps e st a =
      put_in e (host.put_output st.calls e) (waited host st)
        (waited-Agrees host env.session_id base others st a)
