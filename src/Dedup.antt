-- ===== src/Dedup.antt =====
-- app/domain/services/memory/entity_deduplicator.py over the entities of
-- app/domain/models/memory_graph.py: two entities compared, judged and merged. Dedup/Batch has the loops. An entity is an object that several indices
-- may share, so the objects stand in a heap. Floats are a type whose operations are parameters. `kind` is the field `type`.
pub mod Batch
pub mod Asked
pub mod Totals
pub mod Kept
pub mod Conserved
pub mod Mentions
pub mod Once
mod Samples
use boxify_agent.Prelude.{
  String, ℕ, suc, ◌+◌, Bool, true, false, not, ◌&&◌, ◌||◌, Option, none, some, List, [], ◌∷◌, ◌++◌,
  length, take, filterb, find, map, if◌then◌else◌, ◌==◌, is_empty, ltb, nat_eq, max,
}
use boxify_agent.Prelude.Text.{Text, strip, starts_with}
use boxify_agent.Utils.{Floats, is_nil, merge_unique_strings, cosine_similarity, object_or}
use boxify_agent.Result.{Error, Exec, Result, ok, err, cancelled, pure, gets, ◌>>=◌}

pub record EntityNode (F : Type 0) : Type 0 where
  pub id : String
  pub user_id : String
  pub name : Text
  pub kind : String
  pub description : Text
  pub embedding : List F
  pub importance : F
  pub confidence : F
  pub mention_count : ℕ
  pub access_count : ℕ
  pub last_access_at : Option ℕ
  pub memory_layer : String
  pub core_facts : List String
  pub traits : List String

pub record Decision (F : Type 0) : Type 0 where
  pub same_entity : Bool
  pub canonical_idx : ℕ
  pub confidence : F
  pub reason : String

pub record Candidate (F : Type 0) : Type 0 where
  pub left : EntityNode F
  pub right : EntityNode F
  pub name_similarity : F
  pub embedding_similarity : F
  pub name_contains : Bool

-- The settings of the constructor, and what runs outside: floats, `str.lower`, difflib, the model, the
-- JSON parser and pydantic. The model and the parser may be missing.
pub record Deduplicator (F : Type 0) : Type 0 where
  pub floats : Floats F
  pub lower : Text → Text
  -- `SequenceMatcher(None, left, right).ratio()`
  pub ratio : Text → Text → F
  pub similarity_threshold : F
  pub merge_confidence : F
  pub max_candidates : ℕ
  pub enable_llm : Bool
  pub has_llm : Bool
  pub has_json_parser : Bool
  -- the content of the answer to the n-th question
  pub invoke_llm : ℕ → (left_idx right_idx : ℕ) → Candidate F → Result String
  -- the parsed JSON, or nothing where it is no object
  pub parse_json : String → Result (Option String)
  pub validate_decision : String → Result (Decision F)

-- `left in right` for texts.
abbrev text_in : Text → Text → Bool
text_in s [] = is_nil s
text_in s (c ∷ cs) = starts_with s (c ∷ cs) || text_in s cs

-- The later of two times of access, as `_merge_into` keeps it.
abbrev later_access : Option ℕ → Option ℕ → Option ℕ
later_access canonical none = canonical
later_access none (some t) = some t
later_access (some s) (some t) = if ltb s t then some t else some s

module _ {F : Type 0} (d : Deduplicator F) where
  -- `max` of two floats: the first unless the second is greater
  abbrev pub max_float : F → F → F
  max_float a b = if d.floats.greater b a then b else a

  unfoldable pub norm_name : Text → Text
  norm_name name = d.lower (strip name)

  unfoldable pub candidate : EntityNode F → EntityNode F → Candidate F
  unfolding norm_name cosine_similarity
  candidate left right =
      let left_name = norm_name left.name in
      let right_name = norm_name right.name in
      record {
        left = left;
        right = right;
        name_similarity = d.ratio left_name right_name;
        embedding_similarity = cosine_similarity d.floats left.embedding right.embedding;
        name_contains =
            not (is_nil left_name)
            && not (is_nil right_name)
            && (text_in left_name right_name || text_in right_name left_name);
      }

  unfoldable pub is_candidate : EntityNode F → EntityNode F → Bool
  unfolding candidate
  is_candidate left right =
      if not (left.kind == right.kind)
      then false
      else d.floats.at_least (candidate left right).name_similarity d.similarity_threshold
        || d.floats.at_least (candidate left right).embedding_similarity d.similarity_threshold
        || (candidate left right).name_contains

  -- `==` of two normalised names
  abbrev same_text : Text → Text → Bool
  same_text [] [] = true
  same_text [] (c ∷ cs) = false
  same_text (c ∷ cs) [] = false
  same_text (c ∷ cs) (e ∷ es) = nat_eq c e && same_text cs es

  unfoldable pub is_exact : EntityNode F → EntityNode F → Bool
  unfolding norm_name
  is_exact entity other =
      other.kind == entity.kind && same_text (norm_name other.name) (norm_name entity.name)

  -- `MemoryEntityDedupDecision()`
  abbrev pub no_decision : Decision F
  no_decision = record {
    same_entity = false;
    canonical_idx = 0;
    confidence = d.floats.zero_float;
    reason = "";
  }

  unfoldable pub should_merge : Decision F → Bool
  should_merge decision =
      decision.same_entity && d.floats.at_least decision.confidence d.merge_confidence

  -- `_merge_into`: what becomes of the canonical entity.
  unfoldable pub merged_into : EntityNode F → EntityNode F → EntityNode F
  unfolding merge_unique_strings
  merged_into canonical duplicate = record canonical {
    mention_count = canonical.mention_count + duplicate.mention_count;
    access_count = max canonical.access_count duplicate.access_count;
    importance = max_float canonical.importance duplicate.importance;
    confidence = max_float canonical.confidence duplicate.confidence;
    last_access_at = later_access canonical.last_access_at duplicate.last_access_at;
    memory_layer =
        (if duplicate.memory_layer == "long_term" then "long_term" else canonical.memory_layer);
    description =
        (if ltb (length canonical.description) (length duplicate.description)
          then duplicate.description
          else canonical.description);
    embedding = (if is_nil canonical.embedding then duplicate.embedding else canonical.embedding);
    core_facts = merge_unique_strings canonical.core_facts duplicate.core_facts;
    traits = merge_unique_strings canonical.traits duplicate.traits;
  }

  -- `_reuse_existing`: what becomes of the new entity.
  unfoldable pub reusing : EntityNode F → EntityNode F → EntityNode F
  unfolding merge_unique_strings
  reusing entity existing = record entity {
    id = existing.id;
    name = existing.name;
    description =
        (if ltb (length existing.description) (length entity.description)
          then entity.description
          else existing.description);
    embedding = (if is_nil existing.embedding then entity.embedding else existing.embedding);
    mention_count = existing.mention_count + entity.mention_count;
    access_count = existing.access_count;
    last_access_at = existing.last_access_at;
    memory_layer =
        (if existing.memory_layer == "long_term" || entity.memory_layer == "long_term"
          then "long_term"
          else existing.memory_layer);
    core_facts = merge_unique_strings existing.core_facts entity.core_facts;
    traits = merge_unique_strings existing.traits entity.traits;
    importance = max_float entity.importance existing.importance;
    confidence = max_float entity.confidence existing.confidence;
  }

  -- The `except Exception` of `_decide`.
  abbrev pub decided : Result (Decision F) → Result (Decision F)
  decided (err cancelled) = err cancelled
  decided (err e) = ok no_decision
  decided (ok decision) = ok decision

  abbrev validated : Result String → Result (Decision F)
  validated (err e) = err e
  validated (ok json) = d.validate_decision json

  abbrev pub answered : Result String → Result (Decision F)
  answered (err e) = err e
  answered (ok content) = validated (object_or (d.parse_json content))

  -- `_decide`, with the number of questions asked before.
  unfoldable pub decide : (left right : EntityNode F) (left_idx right_idx : ℕ) → Exec ℕ (Decision F)
  unfolding candidate
  decide left right left_idx right_idx asked =
      if not d.enable_llm || not d.has_llm || not d.has_json_parser
      then (ok no_decision, asked)
      else (
        decided (answered (d.invoke_llm asked left_idx right_idx (candidate left right))),
        suc asked,
      )
