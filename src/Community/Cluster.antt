-- ===== src/Community/Cluster.antt =====
-- app/domain/services/memory/community_clusterer.py, `cluster`: labels are propagated through the whole graph,
-- or the entities of one dialogue join their neighbours' communities.
use boxify_agent.Prelude.{
  String, ℕ, zero, suc, ◌-◌, Option, none, some, List, [], ◌∷◌, ◌++◌, length, map, if◌then◌else◌,
  ◌==◌, nat_eq, find, is_none,
}
use boxify_agent.Result.{key_error, raise, Exec, pure, ◌>>=◌, ◌>>◌}
use boxify_agent.Utils.{put_item, get_item, same_id}
use boxify_agent.Community.{
  CommunityVoteEntity, CommunityVoteNeighbor, ClusterStats, upsert_community,
  assign_entity_community, refresh_community_member_count, prune_empty_communities, Clusterer,
  State, reading, writing, weighted_vote, community_id_for_label, update_metadata, given_label,
}
use boxify_agent.Community.Merge.{merge_communities}

-- `MemoryCommunityClusterStats(skipped=reason)`
abbrev pub skipped_stats : String → ClusterStats
skipped_stats reason = record {
  communities = 0;
  assigned_entities = 0;
  merged_communities = 0;
  enhanced_communities = 0;
  skipped = some reason;
}

abbrev or_nil : {A : Type 0} → Option (List A) → List A
or_nil none = []
or_nil (some xs) = xs

-- `entity.community_id or entity.id`
abbrev own_label : {F : Type 0} → CommunityVoteEntity F → Option String → String
own_label entity none = entity.id
own_label entity (some label) = label

-- `if voted and voted != labels[entity_id]`
abbrev changed_label : Option String → Option String → Option String
changed_label none old = none
changed_label (some voted) none = none
changed_label (some voted) (some old) = if voted == old then none else some voted

-- Labels without repetition, by their first occurrence.
unfoldable pub distinct : List String → List String → List String
distinct seen [] = []
distinct seen (label ∷ labels) =
    let new = is_none (find (same_id label) seen) in
    let rest = distinct (if new then label ∷ seen else seen) labels in
    if new then label ∷ rest else rest

module _ {F : Type 0} (c : Clusterer F) where
  -- `{entity.id: entity for entity in entities}` and the labels to start with.
  unfoldable pub entities_by_id :
      List (CommunityVoteEntity F)
      → List (String × CommunityVoteEntity F)
      → List (String × CommunityVoteEntity F)
  entities_by_id [] table = table
  entities_by_id (entity ∷ entities) table =
      entities_by_id entities (put_item same_id entity.id entity table)

  unfoldable pub first_labels :
      List (CommunityVoteEntity F) → List (String × String) → List (String × String)
  first_labels [] labels = labels
  first_labels (entity ∷ entities) labels =
      first_labels entities
        (put_item same_id entity.id (own_label entity (given_label entity.community_id)) labels)

  abbrev relabelled :
      String → Option String → List (String × String) × ℕ → List (String × String) × ℕ
  relabelled entity_id none (labels, changed) = (labels, changed)
  relabelled entity_id (some voted) (labels, changed) =
      (put_item same_id entity_id voted labels, suc changed)

  module _ (neighbors : List (String × List (CommunityVoteNeighbor F))) where
    -- One round of the votes, with the number of labels that changed.
    unfoldable pub vote_round :
        List (String × CommunityVoteEntity F)
        → List (String × String) × ℕ
        → List (String × String) × ℕ
    unfolding weighted_vote
    vote_round [] state = state
    vote_round ((entity_id, entity) ∷ entities) state = vote_round entities (
        relabelled entity_id
          (changed_label
            (given_label (
              weighted_vote c (or_nil (get_item same_id entity_id neighbors)) entity.embedding
                state.0))
            (get_item same_id entity_id state.0))
          state)

    unfoldable pub vote_rounds :
        ℕ → List (String × CommunityVoteEntity F) → List (String × String) → List (String × String)
    unfolding vote_round
    vote_rounds zero entities labels = labels
    vote_rounds (suc n) entities labels =
        let after = vote_round entities (labels, 0) in
        let rest = vote_rounds n entities after.0 in if nat_eq after.1 0 then after.0 else rest

  unfoldable pub upsert_each : List String → Exec State (Unit {0})
  upsert_each [] = pure tt
  upsert_each (community_id ∷ community_ids) = do
    writing c (upsert_community community_id)
    upsert_each community_ids

  unfoldable pub refresh_each : List String → Exec State (Unit {0})
  refresh_each [] = pure tt
  refresh_each (community_id ∷ community_ids) = do
    writing c (refresh_community_member_count community_id)
    refresh_each community_ids

  -- `community_by_label`, and its values
  unfoldable pub community_by_label : List (String × String) → List (String × String)
  unfolding distinct community_id_for_label
  community_by_label labels =
      map (λ label. (label, community_id_for_label c label))
        (c.set_order (distinct [] (map (λ entry. entry.1) labels)))

  unfoldable pub label_communities : List (String × String) → List String
  unfolding community_by_label
  label_communities labels = map (λ entry. entry.1) (community_by_label labels)

  -- `community_by_label[label]`
  abbrev pub looked_up : String → Option String → Exec State String
  looked_up label none = raise (key_error label)
  looked_up label (some id) = pure id

  unfoldable pub assign_each :
      List (String × String) → List (String × String) → Exec State (Unit {0})
  assign_each table [] = pure tt
  assign_each table ((entity_id, label) ∷ labels) = do
    community_id ← looked_up label (get_item same_id label table)
    writing c (assign_entity_community entity_id community_id)
    assign_each table labels

  unfoldable pub flush_labels : List (String × String) → Exec State (List String)
  unfolding community_by_label label_communities upsert_each assign_each refresh_each
  flush_labels labels = do
    upsert_each (label_communities labels)
    assign_each (community_by_label labels) labels
    refresh_each (label_communities labels)
    pure (label_communities labels)

  abbrev full_stats : List String → List (String × String) → Option ℕ → ℕ → Option ClusterStats
  full_stats community_ids labels none enhanced = none
  full_stats community_ids labels (some merged) enhanced = some record {
    communities = length community_ids - merged;
    assigned_entities = length labels;
    merged_communities = merged;
    enhanced_communities = enhanced;
    skipped = none;
  }

  -- The rest of `_full_cluster` once the communities are merged; nothing where a `while` ran out of fuel.
  unfoldable pub finish_full :
      List String → List (String × String) → Option ℕ → Exec State (Option ClusterStats)
  unfolding update_metadata
  finish_full community_ids labels none = pure none
  finish_full community_ids labels (some merged) = do
    enhanced ← update_metadata c community_ids
    writing c prune_empty_communities
    pure (full_stats community_ids labels (some merged) enhanced)

  unfoldable pub cluster_entities : List (CommunityVoteEntity F) → Exec State (Option ClusterStats)
  unfolding entities_by_id first_labels vote_rounds flush_labels merge_communities finish_full
  cluster_entities [] = pure (some (skipped_stats "no_entities"))
  cluster_entities (first ∷ others) = do
    let entity_by_id = entities_by_id (first ∷ others) []
    neighbors ← reading (λ n. c.community_vote_neighbors n (map (λ entry. entry.0) entity_by_id))
    let labels =
        vote_rounds neighbors c.max_iterations entity_by_id (first_labels (first ∷ others) [])
    community_ids ← flush_labels labels
    merged ← merge_communities c community_ids
    finish_full community_ids labels merged

  unfoldable pub full_cluster : Exec State (Option ClusterStats)
  unfolding cluster_entities
  full_cluster = do
    entities ← reading (λ n. c.community_vote_entities n none)
    cluster_entities entities

  -- The neighbours' choice, or a community of the entity's own.
  abbrev target_of : String → Option String → String
  target_of id none = community_id_for_label c id
  target_of id (some target) = target

  abbrev touch : String → List String → List String
  touch target touched =
      if is_none (find (same_id target) touched) then touched ++ target ∷ [] else touched

  -- The loop, with the set of the communities that were touched.
  unfoldable pub join_each :
      List (String × List (CommunityVoteNeighbor F))
      → List (CommunityVoteEntity F)
      → List String
      → Exec State (List String)
  unfolding weighted_vote community_id_for_label
  join_each neighbors [] touched = pure touched
  join_each neighbors (entity ∷ entities) touched = do
    let target = target_of entity.id (
        given_label
          (weighted_vote c (or_nil (get_item same_id entity.id neighbors)) entity.embedding []))
    writing c (upsert_community target)
    writing c (assign_entity_community entity.id target)
    writing c (refresh_community_member_count target)
    join_each neighbors entities (touch target touched)

  unfoldable pub join_neighbors : List (CommunityVoteEntity F) → Exec State (Option ClusterStats)
  unfolding join_each update_metadata
  join_neighbors [] = pure (some (skipped_stats "no_entities"))
  join_neighbors (first ∷ others) = do
    neighbors ←
        reading (λ n. c.community_vote_neighbors n (map (λ entity. entity.id) (first ∷ others)))
    touched ← join_each neighbors (first ∷ others) []
    enhanced ← update_metadata c (c.set_order touched)
    pure (
        some record {
          communities = length touched;
          assigned_entities = length (first ∷ others);
          merged_communities = 0;
          enhanced_communities = enhanced;
          skipped = none;
        })

  unfoldable pub incremental_cluster : List String → Exec State (Option ClusterStats)
  unfolding join_neighbors
  incremental_cluster entity_ids = do
    entities ← reading (λ n. c.community_vote_entities n (some entity_ids))
    join_neighbors entities

  abbrev pub incremental_unless_empty : List String → Exec State (Option ClusterStats)
  incremental_unless_empty [] = pure (some (skipped_stats "no_entities"))
  incremental_unless_empty (id ∷ ids) = incremental_cluster (id ∷ ids)

  abbrev pub cluster_dialogue : String → Exec State (Option ClusterStats)
  cluster_dialogue dialogue_id = do
    entity_ids ← reading (λ n. c.dialogue_entity_ids n dialogue_id)
    incremental_unless_empty entity_ids

  abbrev pub cluster_given : Option String → Exec State (Option ClusterStats)
  cluster_given none = full_cluster
  cluster_given (some dialogue_id) = do
    known ← reading c.has_communities
    (if known then cluster_dialogue dialogue_id else full_cluster)

  -- `cluster`; nothing where a `while` of the merging ran out of fuel.
  unfoldable pub cluster : Option String → Exec State (Option ClusterStats)
  unfolding full_cluster incremental_cluster
  cluster dialogue_id = cluster_given (given_label dialogue_id)
