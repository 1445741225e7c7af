-- ===== src/Store/Tables.antt =====
-- Laws of the row operations, and the well-formed tables: ids are distinct, and every session's
-- project exists.
use mathlib.Core.Option
use boxify_agent.Prelude.{
  String, Bool, true, ◌≡◌, ◌≢◌, refl, none, some, List, [], ◌∷◌, ◌++◌, map, filterb, ◌==◌,
  if◌then◌else◌, is_none, All, eq_iff, arith, Bool-cases, inl, inr,
}
use boxify_agent.Session.{Session, SessionProject}
use boxify_agent.Store.{Database, has_id, row_of, update_rows, project_known}

pub row_of-update_rows :
    (id j : String) (change : Session → Session) (rows : List Session)
    → ((row : Session) → (change row).id ≡ row.id)
    → row_of j (update_rows id change rows)
      ≡ (if id == j then Option.map change (row_of j rows) else row_of j rows)
unfolding update_rows
row_of-update_rows id j change [] keeps = ground arith
row_of-update_rows id j change (row ∷ rows) keeps = ground (
  arith,
  keeps row,
  eq_iff id j,
  eq_iff row.id id,
  eq_iff row.id j,
  eq_iff (change row).id j,
  row_of-update_rows id j change rows keeps,
)

pub row_of-filterb :
    (j : String) (keep : Session → Bool) (rows : List Session)
    → ((row : Session) → has_id j row ≡ true → keep row ≡ true)
    → row_of j (filterb keep rows) ≡ row_of j rows
row_of-filterb j keep [] h = refl
row_of-filterb j keep (row ∷ rows) h = ground (arith, h row, row_of-filterb j keep rows h)

pub row_of-append :
    (j : String) (rows : List Session) (row : Session)
    → row_of j (rows ++ row ∷ []) ≡ (
        if is_none (row_of j rows)
        then (if has_id j row then some row else none)
        else row_of j rows)
row_of-append j [] row = refl
row_of-append j (r ∷ rows) row = ground (arith, row_of-append j rows row)

pub row_of-id :
    (j : String) (rows : List Session) (row : Session) → row_of j rows ≡ some row → row.id ≡ j
row_of-id j [] row h = cc h
row_of-id j (r ∷ rows) row h = ground (arith, eq_iff r.id j, row_of-id j rows row)

-- No key stands twice.
abbrev pub Distinct : List String → Type 0
Distinct [] = Unit {0}
Distinct (k ∷ ks) = All (λ j. k ≢ j) ks × Distinct ks

abbrev pub ids : List Session → List String
ids rows = map (λ row. row.id) rows

abbrev pub project_ids : List SessionProject → List String
project_ids projects = map (λ p. p.id) projects

pub record IsWellFormed (db : Database) : Type 0 where
  pub keyed : Distinct (ids db.sessions)
  pub keyed_projects : Distinct (project_ids db.projects)
  pub linked : All (λ row. project_known row.project_id db.projects ≡ true) db.sessions

pub ids-update_rows :
    (id : String) (change : Session → Session) (rows : List Session)
    → ((row : Session) → (change row).id ≡ row.id)
    → ids (update_rows id change rows) ≡ ids rows
unfolding update_rows
ids-update_rows id change [] keeps = refl
ids-update_rows id change (row ∷ rows) keeps =
    ground (arith, keeps row, ids-update_rows id change rows keeps)

module _ {A : Type 0} (key : A → String) (keep : A → Bool) where
  All-map-filterb :
      (k : String) (rows : List A)
      → All (λ j. k ≢ j) (map key rows)
      → All (λ j. k ≢ j) (map key (filterb keep rows))
  All-map-filterb k [] h = tt
  All-map-filterb k (row ∷ rows) h = elim (Bool-cases (keep row)) [
    | inl kept ↦ rw kept (h.0, All-map-filterb k rows h.1)
    | inr gone ↦ rw gone (All-map-filterb k rows h.1)
  ]

  pub Distinct-filterb :
      (rows : List A) → Distinct (map key rows) → Distinct (map key (filterb keep rows))
  Distinct-filterb [] h = tt
  Distinct-filterb (row ∷ rows) h = elim (Bool-cases (keep row)) [
    | inl kept ↦ rw kept (All-map-filterb (key row) rows h.0, Distinct-filterb rows h.1)
    | inr gone ↦ rw gone (Distinct-filterb rows h.1)
  ]

All-snoc :
    (k x : String) (rows : List Session)
    → All (λ j. k ≢ j) (ids rows)
    → k ≢ x
    → (row : Session) → row.id ≡ x
    → All (λ j. k ≢ j) (ids (rows ++ row ∷ []))
All-snoc k x [] h ne row e = (rw e ne, tt)
All-snoc k x (r ∷ rows) h ne row e = (h.0, All-snoc k x rows h.1 ne row e)

pub Distinct-snoc :
    (rows : List Session) (row : Session)
    → row_of row.id rows ≡ none
    → Distinct (ids rows)
    → Distinct (ids (rows ++ row ∷ []))
Distinct-snoc [] row h d = (tt, tt)
Distinct-snoc (r ∷ rows) row h d = elim (Bool-cases (has_id row.id r)) [
  | inl same ↦ absurd (cc (rw same at h))
  | inr other ↦ (
    All-snoc r.id row.id rows d.0 (λ e. cc (other, (eq_iff r.id row.id).1 e)) row refl,
    Distinct-snoc rows row (rw other at h) d.1,
  )
]
