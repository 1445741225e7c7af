-- ===== src/Dedup/Batch.antt =====
-- app/domain/services/memory/entity_deduplicator.py: `dedup_batch`, `merge_with_graph` and `_result`.
use boxify_agent.Prelude.{
  String, ℕ, suc, Bool, true, false, Option, none, some, List, [], ◌∷◌, ◌++◌, take, filterb, find,
  map, if◌then◌else◌, ◌==◌, nat_eq, is_none,
}
use boxify_agent.Result.{Exec, Result, ok, pure, gets, modify, ◌>>=◌, ◌>>◌}
use boxify_agent.Utils.{put_item, get_item, same_id}
use boxify_agent.Dedup.{
  EntityNode, Decision, Deduplicator, is_candidate, is_exact, merged_into, reusing, should_merge,
  decide,
}

-- The objects by their identity, the three variables of the loops, the cache of `merge_with_graph`, and
-- how many questions the model and the graph were asked.
pub record State (F : Type 0) : Type 0 where
  pub heap : ℕ → EntityNode F
  pub canonical_items : List (ℕ × ℕ)
  pub final_by_idx : List (ℕ × ℕ)
  pub redirects : List (String × String)
  pub cache : List (String × List (EntityNode F))
  pub asked : ℕ
  pub listed : ℕ

-- `MemoryEntityDeduplication`, its entities by their identity.
pub record Deduplication : Type 0 where
  pub entities : List ℕ
  pub entity_by_idx : List (ℕ × ℕ)
  pub redirects : List (String × String)

module _ {F : Type 0} where
  abbrev pub write : ℕ → EntityNode F → State F → State F
  write r e st = record st { heap = λ o. if nat_eq o r then e else st.heap o }

  abbrev pub set_final : ℕ → ℕ → State F → State F
  set_final idx r st = record st { final_by_idx = put_item nat_eq idx r st.final_by_idx }

  -- `redirects[old] = new`, by itself and under `if old != new`.
  abbrev pub redirect : String → String → State F → State F
  redirect old new st = record st { redirects = put_item same_id old new st.redirects }

  abbrev pub redirect_changed : String → String → State F → State F
  redirect_changed old new st = if old == new then st else redirect old new st

  abbrev pub add_canonical : ℕ → ℕ → State F → State F
  add_canonical idx r st = record st { canonical_items = st.canonical_items ++ (idx, r) ∷ [] }

-- The first item of the old object, and every index of it.
unfoldable pub replace_item : ℕ → ℕ → ℕ → List (ℕ × ℕ) → List (ℕ × ℕ)
replace_item old new_idx new [] = []
replace_item old new_idx new ((idx, r) ∷ items) =
    if nat_eq r old then (new_idx, new) ∷ items else (idx, r) ∷ replace_item old new_idx new items

unfoldable pub replace_final : ℕ → ℕ → List (ℕ × ℕ) → List (ℕ × ℕ)
replace_final old new [] = []
replace_final old new ((idx, r) ∷ items) =
    (idx, if nat_eq r old then new else r) ∷ replace_final old new items

-- `_unique_idx_entities`
unfoldable pub unique_idx_entities : List ℕ → List (ℕ × ℕ) → List (ℕ × ℕ)
unique_idx_entities seen [] = []
unique_idx_entities seen ((idx, r) ∷ items) =
    if is_none (find (nat_eq r) seen)
    then (idx, r) ∷ unique_idx_entities (r ∷ seen) items
    else unique_idx_entities seen items

-- `remapped` of `_result`
unfoldable pub remapped : (ℕ → String) → List (String × ℕ) → List (ℕ × ℕ) → List (ℕ × ℕ)
remapped id_of unique [] = []
remapped id_of unique ((idx, r) ∷ items) = elim (get_item same_id (id_of r) unique) [
  | none ↦ remapped id_of unique items
  | some u ↦ (idx, u) ∷ remapped id_of unique items
]

module _ {F : Type 0} (d : Deduplicator F) where
  unfoldable pub merge_into : ℕ → ℕ → State F → State F
  unfolding merged_into
  merge_into canonical duplicate st =
      write canonical (merged_into d (st.heap canonical) (st.heap duplicate)) st

  unfoldable pub find_exact : ℕ → State F → List (ℕ × ℕ) → Option (ℕ × ℕ)
  unfolding is_exact
  find_exact r st items = find (λ item. is_exact d (st.heap r) (st.heap item.1)) items

  unfoldable pub candidate_items : ℕ → State F → List (ℕ × ℕ)
  unfolding is_candidate
  candidate_items r st =
      take d.max_candidates
        (filterb (λ item. is_candidate d (st.heap item.1) (st.heap r)) st.canonical_items)

  abbrev pub asking : State F → Result (Decision F) × ℕ → Result (Decision F) × State F
  asking st (decision, n) = (decision, record st { asked = n })

  unfoldable pub ask :
      (left right : EntityNode F) (left_idx right_idx : ℕ) → Exec (State F) (Decision F)
  unfolding decide
  ask left right left_idx right_idx st = asking st (decide d left right left_idx right_idx st.asked)

  -- The entity that is seen later becomes the canonical one.
  unfoldable pub take_over : ℕ → ℕ → ℕ → State F → State F
  unfolding merge_into replace_item replace_final
  take_over idx r old st =
      let st1 = merge_into r old st in
      let st2 = record st1 {
        canonical_items = replace_item old idx r st1.canonical_items;
        final_by_idx = replace_final old r st1.final_by_idx;
      } in
      set_final idx r (redirect (st2.heap old).id (st2.heap r).id st2)

  -- The entity joins the canonical one.
  unfoldable pub join : ℕ → ℕ → ℕ → State F → State F
  unfolding merge_into
  join idx r canonical st =
      let st1 = set_final idx canonical (merge_into canonical r st) in
      redirect_changed (st1.heap r).id (st1.heap canonical).id st1

  -- `for canonical_idx, canonical in ...`: whether the entity was merged.
  unfoldable pub try_candidates : ℕ → ℕ → List (ℕ × ℕ) → Exec (State F) Bool
  unfolding ask should_merge take_over join
  try_candidates idx r [] = pure false
  try_candidates idx r ((canonical_idx, canonical) ∷ rest) = do
    left ← gets (λ st. st.heap canonical)
    right ← gets (λ st. st.heap r)
    decision ← ask left right canonical_idx idx
    (if should_merge d decision
        then (do
          modify (
              if nat_eq decision.canonical_idx idx
              then take_over idx r canonical
              else join idx r canonical)
          pure true)
        else try_candidates idx r rest)

  unfoldable pub add_unmerged : ℕ → ℕ → Bool → Exec (State F) (Unit {0})
  add_unmerged idx r true = pure tt
  add_unmerged idx r false = modify (λ st. set_final idx r (add_canonical idx r st))

  unfoldable pub dedup_one : ℕ → ℕ → Option (ℕ × ℕ) → Exec (State F) (Unit {0})
  unfolding candidate_items try_candidates add_unmerged join
  dedup_one idx r (some exact) = modify (join idx r exact.1)
  dedup_one idx r none = do
    candidates ← gets (candidate_items r)
    merged ← try_candidates idx r candidates
    add_unmerged idx r merged

  unfoldable pub dedup_each : List (ℕ × ℕ) → Exec (State F) (Unit {0})
  unfolding find_exact dedup_one
  dedup_each [] = pure tt
  dedup_each ((idx, r) ∷ rest) = do
    exact ← gets (λ st. find_exact r st st.canonical_items)
    dedup_one idx r exact
    dedup_each rest

  -- One turn of the first loop of `_result`.
  unfoldable pub add_unique :
      ℕ → Option ℕ → List (String × ℕ) × State F → List (String × ℕ) × State F
  unfolding merge_into
  add_unique r none (unique, st) = (unique ++ ((st.heap r).id, r) ∷ [], st)
  add_unique r (some u) (unique, st) =
      if nat_eq u r then (unique, st) else (unique, merge_into u r st)

  unfoldable pub collect : List (ℕ × ℕ) → List (String × ℕ) × State F → List (String × ℕ) × State F
  unfolding add_unique
  collect [] us = us
  collect ((idx, r) ∷ items) us =
      collect items (add_unique r (get_item same_id (us.1.heap r).id us.0) us)

  abbrev settled : List (String × ℕ) × State F → Result Deduplication × State F
  settled (unique, st) = (
    ok record {
      entities = map (λ entry. entry.1) unique;
      entity_by_idx = remapped (λ r. (st.heap r).id) unique st.final_by_idx;
      redirects = st.redirects;
    },
    st,
  )

  -- `_result`
  unfoldable pub result : Exec (State F) Deduplication
  unfolding collect remapped
  result st = settled (collect st.final_by_idx ([], st))

  unfoldable pub dedup_batch : List (ℕ × ℕ) → Exec (State F) Deduplication
  unfolding dedup_each result
  dedup_batch entity_by_idx = do
    modify (λ st. record st { canonical_items = []; final_by_idx = []; redirects = [] })
    dedup_each entity_by_idx
    result

  -- `graph_repository.list_entities_by_type(user_id, type)`, the n-th time.
  module _ (list_entities_by_type : ℕ → String → Result (List (EntityNode F))) where
    unfoldable pub list_cached :
        String → Option (List (EntityNode F)) → Exec (State F) (List (EntityNode F))
    list_cached kind (some existing) = pure existing
    list_cached kind none = do
      n ← gets (λ st. st.listed)
      (λ st. (list_entities_by_type n kind, record st { listed = suc st.listed }))

    -- `_reuse_existing` with the redirect.
    unfoldable pub reuse_existing : ℕ → EntityNode F → State F → State F
    unfolding reusing
    reuse_existing r existing st =
        redirect_changed (st.heap r).id existing.id (write r (reusing d (st.heap r) existing) st)

    unfoldable pub try_existing : ℕ → ℕ → List (EntityNode F) → Exec (State F) (Unit {0})
    unfolding ask should_merge reuse_existing
    try_existing idx r [] = pure tt
    try_existing idx r (existing ∷ rest) = do
      right ← gets (λ st. st.heap r)
      decision ← ask existing right 0 idx
      (if should_merge d decision
          then modify (reuse_existing r existing)
          else try_existing idx r rest)

    unfoldable pub merge_one : ℕ → ℕ → List (EntityNode F) → Exec (State F) (Unit {0})
    unfolding try_existing reuse_existing is_exact is_candidate
    merge_one idx r existing_entities = do
      entity ← gets (λ st. st.heap r)
      elim (find (is_exact d entity) existing_entities) [
        | some exact ↦ modify (reuse_existing r exact)
        | none ↦
            try_existing idx r
              (take d.max_candidates (filterb (λ e. is_candidate d e entity) existing_entities))
      ]

    unfoldable pub merge_each : List (ℕ × ℕ) → Exec (State F) (Unit {0})
    unfolding list_cached merge_one
    merge_each [] = pure tt
    merge_each ((idx, r) ∷ rest) = do
      kind ← gets (λ st. (st.heap r).kind)
      cached ← gets (λ st. get_item same_id kind st.cache)
      existing ← list_cached kind cached
      modify (λ st. record st { cache = put_item same_id kind existing st.cache })
      merge_one idx r existing
      merge_each rest

    unfoldable pub merge_with_graph : List (ℕ × ℕ) → Exec (State F) Deduplication
    unfolding merge_each unique_idx_entities result
    merge_with_graph entity_by_idx = do
      modify (λ st. record st { final_by_idx = entity_by_idx; redirects = []; cache = [] })
      merge_each (unique_idx_entities [] entity_by_idx)
      result
