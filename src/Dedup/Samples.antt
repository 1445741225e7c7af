-- ===== src/Dedup/Samples.antt =====
-- Runs of app/domain/services/memory/entity_deduplicator.py on two entities, and the theorems on runs at them.
use boxify_agent.Prelude.{
  String, ℕ, zero, suc, ◌+◌, ◌*◌, true, none, some, List, [], ◌∷◌, ◌≡◌, refl, eq_iff, ltb, leb,
  nat_eq,
}
use boxify_agent.Prelude.Text.{codes, strip, is_space}
use boxify_agent.Result.{ok}
use boxify_agent.Dedup.{EntityNode, Deduplicator}
use boxify_agent.Utils.{merge_unique_strings}
use boxify_agent.Dedup.Batch.{State, dedup_batch, merge_with_graph}
use boxify_agent.Dedup.Mentions.{Returns}
use boxify_agent.Dedup.Once.{AddUp, dedup_batch-AddUp}
use boxify_agent.Dedup.Asked.{Asked, dedup_batch-Asked}

-- Whole numbers for floats; a model that takes any two candidates for the same entity and prefers the
-- one that it is given as `canonical_idx`.
abbrev deduplicator : ℕ → Deduplicator ℕ
deduplicator canonical_idx = record {
  floats = record {
    zero_float = 0;
    add = λ a b. a + b;
    mul = λ a b. a * b;
    div = λ a b. a;
    sqrt = λ a. a;
    is_zero = nat_eq 0;
    greater = λ a b. ltb b a;
    at_least = λ a b. leb b a;
    of_nat = λ n. n;
  };
  lower = λ t. t;
  ratio = λ s t. 0;
  similarity_threshold = 8;
  merge_confidence = 8;
  max_candidates = 20;
  enable_llm = true;
  has_llm = true;
  has_json_parser = true;
  invoke_llm = λ n i j c. ok "{}";
  parse_json = λ s. ok (some s);
  validate_decision = λ s.
      ok record { same_entity = true; canonical_idx = canonical_idx; confidence = 9; reason = "" };
}

abbrev entity : String → String → ℕ → EntityNode ℕ
entity id name mentions = record {
  id = id;
  user_id = "u";
  name = codes name;
  kind = "person";
  description = [];
  embedding = [];
  importance = 5;
  confidence = 8;
  mention_count = mentions;
  access_count = 0;
  last_access_at = none;
  memory_layer = "short_term";
  core_facts = "f" ∷ [];
  traits = [];
}

abbrev heap : ℕ → EntityNode ℕ
heap zero = entity "a" "Ann" 1
heap (suc zero) = entity "b" "Ann Lee" 2
heap (suc (suc o)) = entity "c" "Bob" 4

abbrev start : State ℕ
start = record {
  heap = heap;
  canonical_items = [];
  final_by_idx = [];
  redirects = [];
  cache = [];
  asked = 0;
  listed = 0;
}

abbrev batch : List (ℕ × ℕ)
batch = (1, 0) ∷ (2, 1) ∷ (3, 2) ∷ []

-- "Ann" stays, and takes the mentions of "Ann Lee".
joined :
    (dedup_batch (deduplicator 1) batch start).0
    ≡ ok record {
      entities = 0 ∷ 2 ∷ [];
      entity_by_idx = (1, 0) ∷ (2, 0) ∷ (3, 2) ∷ [];
      redirects = ("b", "a") ∷ [];
    }
unfolding dedup_batch strip is_space
joined = refl

joined_mentions : ((dedup_batch (deduplicator 1) batch start).1.heap 0).mention_count ≡ 3
unfolding dedup_batch strip is_space
joined_mentions = refl

-- "Ann Lee" becomes the canonical entity.
taken_over :
    (dedup_batch (deduplicator 2) batch start).0
    ≡ ok record {
      entities = 1 ∷ 2 ∷ [];
      entity_by_idx = (1, 1) ∷ (2, 1) ∷ (3, 2) ∷ [];
      redirects = ("a", "b") ∷ [];
    }
unfolding dedup_batch strip is_space
taken_over = refl

-- Both entities join "Ann" of the graph, whose ten mentions are then counted twice.
counted_twice :
    ((merge_with_graph
        (deduplicator 0)
        (λ n kind. ok (entity "x" "Ann" 10 ∷ []))
        ((1, 0) ∷ (2, 1) ∷ [])
        start).1.heap
      0).mention_count
    ≡ 23
unfolding merge_with_graph strip is_space
counted_twice = refl

merge_unique_strings_drops : merge_unique_strings ("f" ∷ "" ∷ []) ("g" ∷ "f" ∷ []) ≡ "f" ∷ "g" ∷ []
unfolding merge_unique_strings
merge_unique_strings_drops = refl

dedup_batch-Asked_example : Asked 60 (dedup_batch (deduplicator 1) batch start)
dedup_batch-Asked_example = dedup_batch-Asked (deduplicator 1) batch start

dedup_batch-AddUp_example :
    Returns (AddUp (deduplicator 1) 7) (dedup_batch (deduplicator 1) batch start)
dedup_batch-AddUp_example =
    dedup_batch-AddUp (deduplicator 1) batch start
      (((λ e. cc e), ((λ e. cc e), tt)), (((λ e. cc e), tt), (tt, tt)))
      (
        ((λ e. cc ((eq_iff "a" "b").1 e)), ((λ e. cc ((eq_iff "a" "c").1 e)), tt)),
        (((λ e. cc ((eq_iff "b" "c").1 e)), tt), (tt, tt)),
      )
