-- ===== src/Dedup/Mentions.antt =====
-- app/domain/services/memory/entity_deduplicator.py, `dedup_batch` and `_result`: the mentions of a batch.
use boxify_agent.Prelude.{
  String, ℕ, Bool, true, false, not, ◌||◌, Option, none, some, List, [], ◌∷◌, refl, All, Elem, find,
  filterb, take, Bool-cases, inl, inr, nat_eq, if◌then◌else◌,
}
use boxify_agent.Result.{cancelled, Exec, Result, ok, err, resume}
use boxify_agent.Dedup.{
  EntityNode, Decision, Deduplicator, is_exact, is_candidate, should_merge, decide, decided,
}
use boxify_agent.Dedup.Batch.{
  State, find_exact, candidate_items, asking, ask, take_over, join, try_candidates, add_unmerged,
  dedup_one, dedup_each,
}
use boxify_agent.Dedup.Kept.{refs}
use boxify_agent.Dedup.Conserved.{KeptAt, join-Kept, add-Kept, take_over-Kept}

-- A value has the property, and nothing but a cancellation is raised.
abbrev pub Returns : {A S : Type 0} → (A → S → Type 0) → Result A × S → Type 0
Returns P (ok a, s) = P a s
Returns P (err cancelled, s) = Unit {0}
Returns P (err e, s) = ⊥

pub resume-Returns :
    {A B S : Type 0} (P : A → S → Type 0) (Q : B → S → Type 0) (r : Result A × S) (k : A → Exec S B)
    → Returns P r
    → ((a : A) (s : S) → P a s → Returns Q (k a s))
    → Returns Q (resume r k)
resume-Returns P Q (ok a, s) k h next = next a s h
resume-Returns P Q (err cancelled, s) k h next = tt
resume-Returns P Q (err e, s) k h next = absurd h

-- Each item's object is among the canonical ones.
abbrev Among : List ℕ → List (ℕ × ℕ) → Type 0
Among cs items = All (λ item. Elem item.1 cs) items

abbrev FoundAmong : List ℕ → Option (ℕ × ℕ) → Type 0
FoundAmong cs none = Unit {0}
FoundAmong cs (some item) = Elem item.1 cs

Among-more : (x : ℕ) (cs : List ℕ) (items : List (ℕ × ℕ)) → Among cs items → Among (x ∷ cs) items
Among-more x cs [] h = tt
Among-more x cs (item ∷ items) h = (inr h.0, Among-more x cs items h.1)

refs-Among : (items : List (ℕ × ℕ)) → Among (refs items) items
refs-Among [] = tt
refs-Among (item ∷ items) = (inl refl, Among-more item.1 (refs items) items (refs-Among items))

filterb-Among :
    (keep : ℕ × ℕ → Bool) (cs : List ℕ) (items : List (ℕ × ℕ))
    → Among cs items
    → Among cs (filterb keep items)
filterb-Among keep cs [] h = tt
filterb-Among keep cs (item ∷ items) h = elim (Bool-cases (keep item)) [
  | inl kept ↦ rw kept (h.0, filterb-Among keep cs items h.1)
  | inr gone ↦ rw gone (filterb-Among keep cs items h.1)
]

take-Among : (n : ℕ) (cs : List ℕ) (items : List (ℕ × ℕ)) → Among cs items → Among cs (take n items)
take-Among Prim.Native.Nat.zero cs items h = tt
take-Among (Prim.Native.Nat.suc n) cs [] h = tt
take-Among (Prim.Native.Nat.suc n) cs (item ∷ items) h = (h.0, take-Among n cs items h.1)

find-Among :
    (test : ℕ × ℕ → Bool) (cs : List ℕ) (items : List (ℕ × ℕ))
    → Among cs items
    → FoundAmong cs (find test items)
find-Among test cs [] h = tt
find-Among test cs (item ∷ items) h = elim (Bool-cases (test item)) [
  | inl hit ↦ rw hit h.0
  | inr miss ↦ rw miss (find-Among test cs items h.1)
]

module _ {F : Type 0} (d : Deduplicator F) (id_of : ℕ → String) (whole : ℕ) where
  abbrev Before : List (ℕ × ℕ) → State F → Type 0
  Before rest st = KeptAt d id_of whole rest st

  abbrev Trying : List (ℕ × ℕ) → List (ℕ × ℕ) → State F → Type 0
  Trying rest items st = Before rest st × Among (refs st.canonical_items) items

  decided-Returns :
      (rest items : List (ℕ × ℕ)) (st : State F) (answer : Result (Decision F)) (n : ℕ)
      → Trying rest items st
      → Returns (λ _ st'. Trying rest items st') (asking d st (decided d answer, n))
  decided-Returns rest items st (ok decision) n h = h
  decided-Returns rest items st (err cancelled) n h = tt
  decided-Returns rest items st (err e) n h = h

  ask-Returns :
      (left right : EntityNode F) (i j : ℕ) (rest items : List (ℕ × ℕ)) (st : State F)
      → Trying rest items st
      → Returns (λ _ st'. Trying rest items st') (ask d left right i j st)
  unfolding ask decide
  ask-Returns left right i j rest items st h =
      elim (Bool-cases (not d.enable_llm || not d.has_llm || not d.has_json_parser)) [
        | inl off ↦ rw off h
        | inr on ↦ rw on (decided-Returns rest items st _ _ h)
      ]

  -- After the candidates: the entity was merged, or is still to be added.
  abbrev Tried : ℕ → ℕ → List (ℕ × ℕ) → Bool → State F → Type 0
  Tried idx r rest true st = Before rest st
  Tried idx r rest false st = Before ((idx, r) ∷ rest) st

  merged-Before :
      (idx r c : ℕ) (rest : List (ℕ × ℕ)) (b : Bool) (st : State F)
      → Before ((idx, r) ∷ rest) st
      → Elem c (refs st.canonical_items)
      → Before rest ((if b then take_over d idx r c else join d idx r c) st)
  merged-Before idx r c rest true st h e = take_over-Kept d id_of whole idx r c st rest h e
  merged-Before idx r c rest false st h e = join-Kept d id_of whole idx r c st rest h e

  try_candidates-Tried :
      (idx r : ℕ) (rest items : List (ℕ × ℕ)) (st : State F)
      → Trying ((idx, r) ∷ rest) items st
      → Returns (Tried idx r rest) (try_candidates d idx r items st)
  unfolding try_candidates
  try_candidates-Tried idx r rest [] st h = h.0
  try_candidates-Tried idx r rest ((c_idx, c) ∷ items) st h =
      resume-Returns (λ _ st'. Trying ((idx, r) ∷ rest) ((c_idx, c) ∷ items) st') (Tried idx r rest)
        (ask d (st.heap c) (st.heap r) c_idx idx st) _
        (ask-Returns (st.heap c) (st.heap r) c_idx idx ((idx, r) ∷ rest) ((c_idx, c) ∷ items) st h)
        (λ decision st' h'. elim (Bool-cases (should_merge d decision)) [
          | inl merge ↦
              rw merge
                (merged-Before idx r c rest (nat_eq decision.canonical_idx idx) st' h'.0 h'.1.0)
          | inr keep ↦ rw keep (try_candidates-Tried idx r rest items st' (h'.0, h'.1.1))
        ])

  add_unmerged-Before :
      (idx r : ℕ) (rest : List (ℕ × ℕ)) (b : Bool) (st : State F)
      → Tried idx r rest b st
      → Returns (λ _ st'. Before rest st') (add_unmerged d idx r b st)
  unfolding add_unmerged
  add_unmerged-Before idx r rest true st h = h
  add_unmerged-Before idx r rest false st h = add-Kept d id_of whole idx r st rest h

  dedup_one-Before :
      (idx r : ℕ) (rest : List (ℕ × ℕ)) (exact : Option (ℕ × ℕ)) (st : State F)
      → Before ((idx, r) ∷ rest) st
      → FoundAmong (refs st.canonical_items) exact
      → Returns (λ _ st'. Before rest st') (dedup_one d idx r exact st)
  unfolding dedup_one candidate_items
  dedup_one-Before idx r rest (some exact) st h e =
      join-Kept d id_of whole idx r exact.1 st rest h e
  dedup_one-Before idx r rest none st h e =
      resume-Returns (Tried idx r rest) (λ _ st'. Before rest st')
        (try_candidates d idx r (candidate_items d r st) st) _
        (try_candidates-Tried idx r rest (candidate_items d r st) st (
          h,
          take-Among d.max_candidates (refs st.canonical_items) _ (
              filterb-Among (λ item. is_candidate d (st.heap item.1) (st.heap r))
                (refs st.canonical_items) st.canonical_items (refs-Among st.canonical_items)),
        ))
        (λ merged st' h'. add_unmerged-Before idx r rest merged st' h')

  pub dedup_each-Before :
      (items : List (ℕ × ℕ)) (st : State F)
      → Before items st
      → Returns (λ _ st'. Before [] st') (dedup_each d items st)
  unfolding dedup_each find_exact
  dedup_each-Before [] st h = h
  dedup_each-Before ((idx, r) ∷ rest) st h =
      resume-Returns (λ _ st'. Before rest st') (λ _ st'. Before [] st')
        (dedup_one d idx r (find_exact d r st st.canonical_items) st) _
        (dedup_one-Before idx r rest (find_exact d r st st.canonical_items) st h (
          find-Among (λ item. is_exact d (st.heap r) (st.heap item.1)) (refs st.canonical_items)
            st.canonical_items (refs-Among st.canonical_items)))
        (λ _ st' h'. dedup_each-Before rest st' h')
