-- ===== src/Store/Files.antt =====
-- db_session_repository.py: `remove_file` and its early returns.
use boxify_agent.Prelude.{
  String, ◌≤◌, ◌≡◌, ◌≢◌, ◌↔◌, refl, sym, ap, ◌∙◌, some, List, [], ◌∷◌, ◌==◌, eq_iff, arith, Elem,
  length, nat_eq, nat_eq_iff, Bool-cases, inl, inr,
}
use boxify_agent.Event.{File}
use boxify_agent.Session.{Session}
use boxify_agent.Store.{Database, row_of, without_file, remove_file}
use boxify_agent.Store.Tables.{row_of-update_rows}

length-without_file-le :
    (file_id : String) (files : List File) → length (without_file file_id files) ≤ length files
unfolding without_file
length-without_file-le file_id [] = omega arith
length-without_file-le file_id (f ∷ fs) = ground (arith, length-without_file-le file_id fs)

-- The list is as long as before only if nothing was filtered out.
without_file-same :
    (file_id : String) (files : List File)
    → length (without_file file_id files) ≡ length files
    → without_file file_id files ≡ files
unfolding without_file
without_file-same file_id [] h = refl
without_file-same file_id (f ∷ fs) h = elim (Bool-cases (f.id == file_id)) [
  | inl same ↦ absurd (omega (arith, rw same at h, length-without_file-le file_id fs))
  | inr other ↦
      rw other (ap (λ rest. f ∷ rest) (without_file-same file_id fs (omega (arith, rw other at h))))
]

Elem-without_file :
    (file_id : String) (f : File) (files : List File)
    → Elem f (without_file file_id files) ↔ (Elem f files × (f.id ≢ file_id))
unfolding without_file
Elem-without_file file_id f files = (to files, from files)
  where
    to : (files : List File) → Elem f (without_file file_id files) → Elem f files × (f.id ≢ file_id)
    to [] m = absurd m
    to (x ∷ xs) m = elim (Bool-cases (x.id == file_id)) [
      | inl same ↦ let (inside, ne) = to xs (rw same at m) in (inr inside, ne)
      | inr other ↦ elim (rw other at m) [
        | inl here ↦ (
          inl here,
          λ e. cc (other, (eq_iff x.id file_id).1 (ap (λ (y : File). y.id) (sym here) ∙ e)),
        )
        | inr later ↦ let (inside, ne) = to xs later in (inr inside, ne)
      ]
    ]

    from :
        (files : List File) → Elem f files × (f.id ≢ file_id) → Elem f (without_file file_id files)
    from [] (m, ne) = absurd m
    from (x ∷ xs) (inl here, ne) = elim (Bool-cases (x.id == file_id)) [
      | inl same ↦ absurd (ne (ap (λ (y : File). y.id) here ∙ (eq_iff x.id file_id).0 same))
      | inr other ↦ rw other (inl here)
    ]
    from (x ∷ xs) (inr later, ne) = elim (Bool-cases (x.id == file_id)) [
      | inl same ↦ rw same (from xs (later, ne))
      | inr other ↦ rw other (inr (from xs (later, ne)))
    ]

-- After `remove_file` on a session that exists, its files are those of another id, in their order
-- and each as before; nothing else of the session changes.
pub remove_file_lem :
    (id file_id : String) (db : Database) (row : Session)
    → row_of id db.sessions ≡ some row
    → (row_of id (remove_file id file_id db).1.sessions
        ≡ some (record row { files = without_file file_id row.files }))
      × ((f : File)
          → Elem f (without_file file_id row.files) ↔ (Elem f row.files × (f.id ≢ file_id)))
unfolding remove_file
remove_file_lem id file_id db row e = (result, λ f. Elem-without_file file_id f row.files)
  where
    change : Session → Session
    change r = record r { files = without_file file_id row.files }

    result :
        row_of id (remove_file id file_id db).1.sessions
        ≡ some (record row { files = without_file file_id row.files })
    result =
        elim (Bool-cases (nat_eq (length (without_file file_id row.files)) (length row.files))) [
          | inl same ↦
              rw (e, remove_file)
                (rw (same, without_file-same file_id row.files ((nat_eq_iff _ _).0 same)) e)
          | inr shorter ↦
              rw (e, remove_file)
                (rw (
                  shorter,
                  row_of-update_rows id id change db.sessions (λ r. refl),
                  e,
                  (eq_iff id id).1 refl,
                ))
        ]
