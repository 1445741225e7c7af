-- ===== src/Dedup/Asked.antt =====
-- app/domain/services/memory/entity_deduplicator.py: how many questions the model is asked.
use boxify_agent.Prelude.{
  String, ℕ, suc, ◌+◌, ◌*◌, ◌≤◌, Bool, true, false, not, ◌||◌, Option, none, some, List, [], ◌∷◌,
  ◌≡◌, refl, ◌∙◌, arith, length, length-take-le, Bool-cases, inl, inr, nat_eq, ◌==◌, filterb,
  if◌then◌else◌,
}
use boxify_agent.Result.{Exec, Result, ok, err, resume}
use boxify_agent.Dedup.{EntityNode, Deduplicator, decide, should_merge, is_candidate}
use boxify_agent.Dedup.Batch.{
  State, redirect_changed, merge_into, find_exact, candidate_items, ask, take_over, join,
  try_candidates, add_unmerged, dedup_one, dedup_each, add_unique, collect, result, dedup_batch,
}

module _ {F : Type 0} where
  -- Not more than n questions in the state at the end, raised or not.
  abbrev pub Asked : {A : Type 0} → ℕ → Result A × State F → Type 0
  Asked n r = r.1.asked ≤ n

  resume-Asked :
      {A B : Type 0} (n m : ℕ) (r : Result A × State F) (k : A → Exec (State F) B)
      → Asked n r
      → n ≤ m
      → ((a : A) (st : State F) → st.asked ≤ n → Asked m (k a st))
      → Asked m (resume r k)
  resume-Asked n m (ok a, st) k h le next = next a st h
  resume-Asked n m (err e, st) k h le next = omega arith

  redirect_changed-asked :
      (old new : String) (st : State F) → (redirect_changed old new st).asked ≡ st.asked
  redirect_changed-asked old new st = elim (Bool-cases (old == new)) [
    | inl same ↦ rw same refl
    | inr other ↦ rw other refl
  ]

module _ {F : Type 0} (d : Deduplicator F) where
  ask-Asked :
      (left right : EntityNode F) (i j : ℕ) (st : State F)
      → Asked (suc st.asked) (ask d left right i j st)
  unfolding ask decide
  ask-Asked left right i j st =
      elim (Bool-cases (not d.enable_llm || not d.has_llm || not d.has_json_parser)) [
        | inl off ↦ rw off omega arith
        | inr on ↦ rw on omega arith
      ]

  join-asked : (idx r c : ℕ) (st : State F) → (join d idx r c st).asked ≡ st.asked
  unfolding join merge_into
  join-asked idx r c st = redirect_changed-asked _ _ _

  take_over-asked : (idx r c : ℕ) (st : State F) → (take_over d idx r c st).asked ≡ st.asked
  unfolding take_over merge_into
  take_over-asked idx r c st = refl

  merged-asked :
      (idx r c : ℕ) (b : Bool) (st : State F)
      → ((if b then take_over d idx r c else join d idx r c) st).asked ≡ st.asked
  merged-asked idx r c true st = take_over-asked idx r c st
  merged-asked idx r c false st = join-asked idx r c st

  try_candidates-Asked :
      (idx r : ℕ) (items : List (ℕ × ℕ)) (st : State F)
      → Asked (st.asked + length items) (try_candidates d idx r items st)
  unfolding try_candidates
  try_candidates-Asked idx r [] st = omega arith
  try_candidates-Asked idx r ((c_idx, c) ∷ rest) st =
      resume-Asked (suc st.asked) (st.asked + suc (length rest))
        (ask d (st.heap c) (st.heap r) c_idx idx st) _
        (ask-Asked (st.heap c) (st.heap r) c_idx idx st) (omega arith)
        (λ decision st' h. elim (Bool-cases (should_merge d decision)) [
          | inl merge ↦
              let same = merged-asked idx r c (nat_eq decision.canonical_idx idx) st' in
              rw merge (omega arith)
          | inr keep ↦ let later = try_candidates-Asked idx r rest st' in rw keep (omega arith)
        ])

  add_unmerged-asked :
      (idx r : ℕ) (b : Bool) (st : State F) → (add_unmerged d idx r b st).1.asked ≡ st.asked
  unfolding add_unmerged
  add_unmerged-asked idx r true st = refl
  add_unmerged-asked idx r false st = refl

  dedup_one-Asked :
      (idx r : ℕ) (exact : Option (ℕ × ℕ)) (st : State F)
      → Asked (st.asked + d.max_candidates) (dedup_one d idx r exact st)
  unfolding dedup_one candidate_items
  dedup_one-Asked idx r (some exact) st = let same = join-asked idx r exact.1 st in omega arith
  dedup_one-Asked idx r none st =
      resume-Asked (st.asked + d.max_candidates) (st.asked + d.max_candidates)
        (try_candidates d idx r (candidate_items d r st) st) _
        (let bound =
            length-take-le d.max_candidates
              (filterb (λ item. is_candidate d (st.heap item.1) (st.heap r)) st.canonical_items) in
          let tried = try_candidates-Asked idx r (candidate_items d r st) st in omega arith)
        (omega arith)
        (λ merged st' h. let same = add_unmerged-asked idx r merged st' in omega arith)

  dedup_each-Asked :
      (items : List (ℕ × ℕ)) (st : State F)
      → Asked (st.asked + length items * d.max_candidates) (dedup_each d items st)
  unfolding dedup_each
  dedup_each-Asked [] st = omega arith
  dedup_each-Asked ((idx, r) ∷ rest) st =
      resume-Asked (st.asked + d.max_candidates) (st.asked + suc (length rest) * d.max_candidates)
        (dedup_one d idx r (find_exact d r st st.canonical_items) st) _
        (dedup_one-Asked idx r (find_exact d r st st.canonical_items) st) (omega arith)
        (λ _ st' h. let later = dedup_each-Asked rest st' in omega arith)

  add_unique-asked :
      (r : ℕ) (found : Option ℕ) (us : List (String × ℕ) × State F)
      → (add_unique d r found us).1.asked ≡ us.1.asked
  unfolding add_unique merge_into
  add_unique-asked r none us = refl
  add_unique-asked r (some u) us = elim (Bool-cases (nat_eq u r)) [
    | inl same ↦ rw same refl
    | inr other ↦ rw other refl
  ]

  collect-asked :
      (items : List (ℕ × ℕ)) (us : List (String × ℕ) × State F)
      → (collect d items us).1.asked ≡ us.1.asked
  unfolding collect
  collect-asked [] us = refl
  collect-asked ((idx, r) ∷ items) us = collect-asked items _ ∙ add_unique-asked r _ us

  result-asked : (st : State F) → (result d st).1.asked ≡ st.asked
  unfolding result
  result-asked st = collect-asked st.final_by_idx ([], st)

  -- Whether it returns or raises, `dedup_batch` asks the model at most `max_candidates` times for each
  -- entity of the batch.
  pub dedup_batch-Asked :
      (entity_by_idx : List (ℕ × ℕ)) (st : State F)
      → Asked (st.asked + length entity_by_idx * d.max_candidates) (dedup_batch d entity_by_idx st)
  unfolding dedup_batch
  dedup_batch-Asked entity_by_idx st =
      let start = record st { canonical_items = []; final_by_idx = []; redirects = [] } in
      resume-Asked (st.asked + length entity_by_idx * d.max_candidates)
        (st.asked + length entity_by_idx * d.max_candidates) (dedup_each d entity_by_idx start) _
        (dedup_each-Asked entity_by_idx start) (omega arith)
        (λ _ st' h. let same = result-asked st' in omega arith)
