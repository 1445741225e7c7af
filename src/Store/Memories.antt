-- ===== src/Store/Memories.antt =====
-- db_session_repository.py: `save_memory` and `get_memory`.
use boxify_agent.Prelude.{
  String, ◌≡◌, refl, none, some, List, [], ◌∷◌, ◌==◌, ◌⊎◌, if◌then◌else◌, eq_iff, arith,
  Option-cases, inl, inr,
}
use boxify_agent.Result.{ok, err, value_error}
use boxify_agent.Memory.{Memory}
use boxify_agent.Session.{Session}
use boxify_agent.Store.{
  Database, row_of, update_session_row, save_memory, get_memory, put_memory, memory_of,
}
use boxify_agent.Store.Tables.{row_of-update_rows}

memory_of-put_memory :
    (name other : String) (memory : Memory) (memories : List (String × Memory))
    → memory_of other (put_memory name memory memories)
      ≡ (if name == other then some memory else memory_of other memories)
unfolding memory_of put_memory
memory_of-put_memory name other memory [] = refl
memory_of-put_memory name other memory ((key, old) ∷ rest) = ground (
  arith,
  eq_iff name other,
  eq_iff key name,
  eq_iff key other,
  memory_of-put_memory name other memory rest,
)

-- In a session that exists, an agent reads the memory that it saved last, and a save of one agent
-- does not change what another agent reads. Without the session the save raises and changes nothing.
pub get_memory-save_memory :
    (id name other : String) (memory : Memory) (db : Database)
    → ((row_of id db.sessions ≡ none)
        × (save_memory id name memory db ≡ (err (value_error id), db)))
      ⊎ ((get_memory id other (save_memory id name memory db).1).0
          ≡ (if name == other then ok memory else (get_memory id other db).0))
unfolding save_memory get_memory update_session_row
get_memory-save_memory id name other memory db = elim (Option-cases (row_of id db.sessions)) [
  | inl missing ↦ inl (missing, rw missing)
  | inr (row, e) ↦
      let change : Session → Session =
        λ r. record r { memories = put_memory name memory r.memories } in
      inr (
        rw e (
          rw (row_of-update_rows id id change db.sessions (λ r. refl), e, (eq_iff id id).1 refl)
            (ground (arith, memory_of-put_memory name other memory row.memories))))
]
