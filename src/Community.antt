-- ===== src/Community.antt =====
-- app/domain/services/memory/community_clusterer.py and community_summarizer.py over the models of
-- app/domain/models/memory_graph.py: entities vote for the communities of their neighbours, and similar
-- communities are merged. The graph is outside: reads answer as they please, writes are kept in order.
pub mod Merge
pub mod Cluster
pub mod Roots
pub mod Ends
pub mod Finish
mod Samples
use boxify_agent.Prelude.{
  Elem, ◌↔◌, ◌≡◌, String, ℕ, zero, suc, ◌+◌, Bool, true, false, not, ◌||◌, ◌&&◌, Option, none, some,
  List, [], ◌∷◌, ◌++◌, length, take, map, if◌then◌else◌, ◌==◌, is_empty, nat_eq,
}
use boxify_agent.Prelude.Text.{Text, codes, strip, starts_with, join_lines}
use boxify_agent.Result.{Error, Exec, Result, ok, err, cancelled, pure, gets, catching, ◌>>=◌, ◌>>◌}
use boxify_agent.Utils.{Floats, is_nil, put_item, get_item, same_id, cosine_similarity, object_or}

pub record CommunityVoteEntity (F : Type 0) : Type 0 where
  pub id : String
  pub embedding : List F
  pub community_id : Option String

pub record CommunityVoteNeighbor (F : Type 0) : Type 0 where
  pub id : String
  pub community_id : Option String
  pub embedding : List F

pub record CommunityMember (F : Type 0) : Type 0 where
  pub entity_id : String
  pub entity_name : Text
  pub entity_type : Text
  pub description : Text
  pub embedding : List F

pub record CommunityRelationFact : Type 0 where
  pub source_name : Text
  pub target_name : Text
  pub name : Text

-- `MemoryCommunityClusterStats`
pub record ClusterStats : Type 0 where
  pub communities : ℕ
  pub assigned_entities : ℕ
  pub merged_communities : ℕ
  pub enhanced_communities : ℕ
  pub skipped : Option String

-- The writing calls of the graph repository, for the user of the clusterer.
pub data GraphCall : Type 0 where
  upsert_community : (community_id : String) → GraphCall
  assign_entity_community : (entity_id community_id : String) → GraphCall
  refresh_community_member_count : (community_id : String) → GraphCall
  update_community_metadata : (community_id : String) → Text → Text → GraphCall
  prune_empty_communities : GraphCall

-- The settings, the graph repository, and what the summarizer calls. A number is how many calls went before.
pub record Clusterer (F : Type 0) : Type 0 where
  pub floats : Floats F
  pub max_iterations : ℕ
  pub merge_threshold : F
  pub semantic_weight : F
  pub relation_weight : F
  pub metadata_member_limit : ℕ
  -- `stable_memory_graph_id(user_id, "community", label)`
  pub stable_id : String → String
  -- the order in which a set is walked, of all its elements, each as often as before
  pub set_order : List String → List String
  pub Elem-set_order : (xs : List String) (x : String) → Elem x (set_order xs) ↔ Elem x xs
  pub length-set_order : (xs : List String) → length (set_order xs) ≡ length xs
  pub has_communities : ℕ → Result Bool
  pub dialogue_entity_ids : ℕ → String → Result (List String)
  pub community_vote_entities : ℕ → Option (List String) → Result (List (CommunityVoteEntity F))
  pub community_vote_neighbors :
      ℕ → List String → Result (List (String × List (CommunityVoteNeighbor F)))
  pub community_members : ℕ → String → Result (List (CommunityMember F))
  pub community_relationships : ℕ → String → Result (List CommunityRelationFact)
  pub write : ℕ → GraphCall → Result (Unit {0})
  pub has_summarizer : Bool
  -- the content of the model's answer to the members and the relations
  pub invoke_llm : ℕ → (members relationships : Text) → Result String
  pub parse_json : String → Result (Option String)
  -- the name and the summary
  pub validate_summary : String → Result (Text × Text)

-- The calls so far, and the writes that were made.
pub record State : Type 0 where
  pub calls : ℕ
  pub writes : List GraphCall

abbrev pub reading : {A : Type 0} → (ℕ → Result A) → Exec State A
reading call st = (call st.calls, record st { calls = suc st.calls })

abbrev pub written : GraphCall → State → Result (Unit {0}) → Result (Unit {0}) × State
written call st (err e) = (err e, record st { calls = suc st.calls })
written call st (ok _) = (ok tt, record { calls = suc st.calls; writes = st.writes ++ call ∷ [] })

-- `_format_members` and `_format_relationships`
abbrev member_suffix : Text → Text
member_suffix [] = []
member_suffix (c ∷ cs) = codes "：" ++ (c ∷ cs)

abbrev member_line : {F : Type 0} → CommunityMember F → Text
member_line m =
    codes "- "
    ++ (m.entity_name
        ++ (codes "（" ++ (m.entity_type ++ (codes "）" ++ member_suffix m.description))))

unfoldable pub format_members : {F : Type 0} → List (CommunityMember F) → Text
format_members members = join_lines (map (λ m. member_line m) members)

abbrev relation_line : CommunityRelationFact → Text
relation_line relation =
    codes "- "
    ++ (relation.source_name
        ++ (codes " " ++ (relation.name ++ (codes " " ++ relation.target_name))))

unfoldable pub format_relationships : List CommunityRelationFact → Text
format_relationships [] = codes "无"
format_relationships (relation ∷ relations) = join_lines (map relation_line (relation ∷ relations))

-- The names that are left when they are stripped.
unfoldable pub stripped_names : {F : Type 0} → List (CommunityMember F) → List Text
stripped_names [] = []
stripped_names (m ∷ members) =
    let rest = stripped_names members in
    if is_nil (strip m.entity_name) then rest else strip m.entity_name ∷ rest

abbrev join_with : Text → List Text → Text
join_with separator [] = []
join_with separator (t ∷ []) = t
join_with separator (t ∷ u ∷ ts) = t ++ (separator ++ join_with separator (u ∷ ts))

abbrev described : List Text → Text × Text
described [] = (codes "未命名社区", codes "包含实体：")
described (name ∷ names) = (
  join_with (codes "、") (take 3 (name ∷ names)),
  codes "包含实体：" ++ join_with (codes ", ") (take 10 (name ∷ names)),
)

unfoldable pub fallback_metadata : {F : Type 0} → List (CommunityMember F) → Text × Text
unfolding stripped_names
fallback_metadata members = described (stripped_names members)

-- `if not label`
abbrev pub given_label : Option String → Option String
given_label none = none
given_label (some label) = if is_empty label then none else some label

-- `labels.get(neighbor.id, neighbor.community_id)`
abbrev pub label_or : Option String → Option String → Option String
label_or none community_id = community_id
label_or (some label) community_id = some label

module _ {F : Type 0} (c : Clusterer F) where
  unfoldable pub writing : GraphCall → Exec State (Unit {0})
  writing call st = written call st (c.write st.calls call)

  -- `votes.get(label, 0.0) + weight`
  abbrev vote_sum : Option F → F → F
  vote_sum none weight = c.floats.add c.floats.zero_float weight
  vote_sum (some votes) weight = c.floats.add votes weight

  unfoldable pub add_vote : String → F → List (String × F) → List (String × F)
  add_vote label weight votes =
      put_item same_id label (vote_sum (get_item same_id label votes) weight) votes

  unfoldable pub weight_of : List F → List F → F
  weight_of embedding other =
      c.floats.add (c.floats.mul c.semantic_weight (cosine_similarity c.floats embedding other))
        c.relation_weight

  abbrev voted_for : Option String → F → List (String × F) → List (String × F)
  voted_for none weight votes = votes
  voted_for (some label) weight votes = add_vote label weight votes

  unfoldable pub count_votes :
      List (CommunityVoteNeighbor F)
      → List F
      → List (String × String)
      → List (String × F)
      → List (String × F)
  unfolding add_vote weight_of
  count_votes [] embedding labels votes = votes
  count_votes (n ∷ neighbors) embedding labels votes = count_votes neighbors embedding labels (
      voted_for (given_label (label_or (get_item same_id n.id labels) n.community_id))
        (weight_of embedding n.embedding) votes)

  -- `max(votes, key=votes.__getitem__)`: the first of the greatest.
  abbrev best_of : String × F → List (String × F) → String
  best_of best [] = best.0
  best_of best (v ∷ votes) = best_of (if c.floats.greater v.1 best.1 then v else best) votes

  abbrev winner : List (String × F) → Option String
  winner [] = none
  winner (v ∷ votes) = some (best_of v votes)

  unfoldable pub weighted_vote :
      List (CommunityVoteNeighbor F) → List F → List (String × String) → Option String
  unfolding count_votes
  weighted_vote neighbors embedding labels = winner (count_votes neighbors embedding labels [])

  unfoldable pub community_id_for_label : String → String
  community_id_for_label label =
      if starts_with (codes "community-") (codes label) then label else c.stable_id label

  abbrev validated_summary : Result String → Result (Text × Text)
  validated_summary (err e) = err e
  validated_summary (ok json) = c.validate_summary json

  abbrev parsed_summary : Result String → Result (Text × Text)
  parsed_summary (err e) = err e
  parsed_summary (ok content) = validated_summary (object_or (c.parse_json content))

  -- `MemoryCommunitySummarizer.summarize`
  unfoldable pub summarize_with_llm :
      List (CommunityMember F) → List CommunityRelationFact → Exec State (Text × Text)
  unfolding format_members format_relationships
  summarize_with_llm members relationships = do
    found ← reading (λ n.
        parsed_summary
          (c.invoke_llm n (format_members members) (format_relationships relationships)))
    pure (take 10 (strip found.0), take 80 (strip found.1))

  unfoldable pub summarize :
      List (CommunityMember F) → List CommunityRelationFact → Exec State (Text × Text)
  unfolding summarize_with_llm fallback_metadata
  summarize members relationships =
      if c.has_summarizer
      then (do
        found ← summarize_with_llm (take c.metadata_member_limit members) relationships
        pure (if is_nil found.0 || is_nil found.1 then fallback_metadata members else found))
      else pure (fallback_metadata members)

  -- The body of the `try`, and 1 for the community where it does not raise.
  unfoldable pub try_describe :
      String → List (CommunityMember F) → List CommunityRelationFact → Exec State ℕ
  unfolding summarize writing
  try_describe community_id members relationships = do
    found ← summarize members relationships
    writing (update_community_metadata community_id found.0 found.1)
    pure 1

  unfoldable pub describe_members : String → List (CommunityMember F) → Exec State ℕ
  unfolding try_describe
  describe_members community_id [] = pure 0
  describe_members community_id (m ∷ members) = do
    relationships ← reading (λ n. c.community_relationships n community_id)
    catching (try_describe community_id (m ∷ members) relationships) (λ e. pure 0)

  unfoldable pub update_metadata : List String → Exec State ℕ
  unfolding describe_members
  update_metadata [] = pure 0
  update_metadata (community_id ∷ community_ids) = do
    members ← reading (λ n. c.community_members n community_id)
    enhanced ← describe_members community_id members
    rest ← update_metadata community_ids
    pure (enhanced + rest)
