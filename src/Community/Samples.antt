-- ===== src/Community/Samples.antt =====
-- Runs of app/domain/services/memory/community_clusterer.py on three entities, and the theorems on runs at them.
use boxify_agent.Prelude.{
  String, ℕ, ◌+◌, ◌*◌, false, none, some, [], ◌∷◌, ◌≡◌, refl, ltb, leb, nat_eq,
}
use boxify_agent.Prelude.Text.{codes}
use boxify_agent.Result.{ok, IfReturns}
use boxify_agent.Utils.{average_vector, cosine_similarity}
use boxify_agent.Community.{
  CommunityVoteEntity, CommunityVoteNeighbor, CommunityMember, Clusterer, State, writing,
}
use boxify_agent.Community.Merge.{merge_communities}
use boxify_agent.Community.Cluster.{flush_labels}
use boxify_agent.Community.Ends.{LeavesOne, merge_communities-LeavesOne}
use boxify_agent.Community.Finish.{Flushed, flush_labels-Flushed}

abbrev vote_entity : String → CommunityVoteEntity ℕ
vote_entity id = record { id = id; embedding = 1 ∷ []; community_id = none }

abbrev neighbor : String → CommunityVoteNeighbor ℕ
neighbor id = record { id = id; community_id = none; embedding = 1 ∷ [] }

abbrev member : String → CommunityMember ℕ
member id = record {
  entity_id = id;
  entity_name = codes id;
  entity_type = codes "person";
  description = [];
  embedding = 1 ∷ [];
}

-- Whole numbers for floats, and every two communities alike.
abbrev clusterer : Clusterer ℕ
clusterer = record {
  floats = record {
    zero_float = 0;
    add = λ a b. a + b;
    mul = λ a b. a * b;
    div = λ a b. a;
    sqrt = λ a. a;
    is_zero = nat_eq 0;
    greater = λ a b. ltb b a;
    at_least = λ a b. leb b a;
    of_nat = λ n. n;
  };
  max_iterations = 10;
  merge_threshold = 0;
  semantic_weight = 6;
  relation_weight = 4;
  metadata_member_limit = 20;
  stable_id = λ label. label;
  set_order = λ labels. labels;
  Elem-set_order = λ xs x. ((λ m. m), (λ m. m));
  length-set_order = λ xs. refl;
  has_communities = λ n. ok false;
  dialogue_entity_ids = λ n id. ok [];
  community_vote_entities = λ n ids. ok (vote_entity "a" ∷ vote_entity "b" ∷ vote_entity "c" ∷ []);
  community_vote_neighbors = λ n ids. ok (("a", neighbor "b" ∷ []) ∷ ("b", neighbor "a" ∷ []) ∷ []);
  community_members = λ n id. ok (member "a" ∷ []);
  community_relationships = λ n id. ok [];
  write = λ n call. ok tt;
  has_summarizer = false;
  invoke_llm = λ n members relationships. ok "{}";
  parse_json = λ s. ok none;
  validate_summary = λ s. ok ([], []);
}

abbrev start : State
start = record { calls = 0; writes = [] }

-- Of three communities that are alike, two are dissolved.
two_dissolved : (merge_communities clusterer ("a" ∷ "b" ∷ "c" ∷ []) start).0 ≡ ok (some 2)
unfolding merge_communities average_vector cosine_similarity writing
two_dissolved = refl

merge_communities-LeavesOne_example :
    IfReturns
      (LeavesOne clusterer ("a" ∷ "b" ∷ "c" ∷ []))
      (merge_communities clusterer ("a" ∷ "b" ∷ "c" ∷ []) start)
merge_communities-LeavesOne_example =
    merge_communities-LeavesOne clusterer ("a" ∷ "b" ∷ "c" ∷ []) start

flush_labels-Flushed_example :
    Flushed clusterer
      (("a", "b") ∷ ("b", "b") ∷ [])
      start
      (flush_labels clusterer (("a", "b") ∷ ("b", "b") ∷ []) start)
flush_labels-Flushed_example = flush_labels-Flushed clusterer (("a", "b") ∷ ("b", "b") ∷ []) start
