-- ===== src/Community/Merge.antt =====
-- app/domain/services/memory/community_clusterer.py, `_merge_communities`: communities whose average vectors are
-- alike are merged in pairs. `merged_into` leads from a dissolved community to the one that it joined.
use boxify_agent.Prelude.{
  String, ℕ, zero, suc, ◌+◌, Option, none, some, List, [], ◌∷◌, length, map, if◌then◌else◌, ◌==◌,
  leb,
}
use boxify_agent.Result.{Exec, pure, lift, ◌>>=◌, ◌>>◌}
use boxify_agent.Utils.{put_item, get_item, same_id, cosine_similarity, average_vector}
use boxify_agent.Community.{
  CommunityMember, assign_entity_community, refresh_community_member_count, Clusterer, State,
  reading, writing,
}

-- `root`: the `while` on fuel, and nothing where the fuel runs out.
unfoldable pub root : ℕ → List (String × String) → String → Option String
root zero merged_into community_id = none
root (suc fuel) merged_into community_id = elim (get_item same_id community_id merged_into) [
  | none ↦ some community_id
  | some next ↦ root fuel merged_into next
]

-- More rounds than dissolved communities.
abbrev pub root_of : List (String × String) → String → Option String
root_of merged_into community_id = root (suc (length merged_into)) merged_into community_id

-- `sizes.get(community_id, 0)`
abbrev pub size_or_zero : Option ℕ → ℕ
size_or_zero none = 0
size_or_zero (some n) = n

abbrev pub size_of : List (String × ℕ) → String → ℕ
size_of sizes community_id = size_or_zero (get_item same_id community_id sizes)

abbrev pub list_or_nil : {A : Type 0} → Option (List A) → List A
list_or_nil none = []
list_or_nil (some xs) = xs

-- The local variables of the loops.
pub record Merging : Type 0 where
  pub merged_into : List (String × String)
  pub sizes : List (String × ℕ)

abbrev pub moved_sizes : String → String → List (String × ℕ) → List (String × ℕ)
moved_sizes keep dissolve sizes =
    put_item same_id dissolve 0
      (put_item same_id keep (size_of sizes keep + size_of sizes dissolve) sizes)

module _ {F : Type 0} (c : Clusterer F) where
  -- The members of each community, and the average of their vectors.
  unfoldable pub read_members : List String → Exec State (List (String × List (CommunityMember F)))
  read_members [] = pure []
  read_members (community_id ∷ community_ids) = do
    rows ← reading (λ n. c.community_members n community_id)
    rest ← read_members community_ids
    pure ((community_id, rows) ∷ rest)

  unfoldable pub read_averages :
      List (String × List (CommunityMember F)) → Exec State (List (String × List F))
  read_averages [] = pure []
  read_averages ((community_id, rows) ∷ members) = do
    average ← lift (average_vector c.floats (map (λ m. m.embedding) rows))
    rest ← read_averages members
    pure ((community_id, average) ∷ rest)

  unfoldable pub sizes_of : List (String × List (CommunityMember F)) → List (String × ℕ)
  sizes_of [] = []
  sizes_of ((community_id, rows) ∷ members) = (community_id, length rows) ∷ sizes_of members

  unfoldable pub assign_members : String → List (CommunityMember F) → Exec State (Unit {0})
  assign_members keep [] = pure tt
  assign_members keep (m ∷ members) = do
    writing c (assign_entity_community m.entity_id keep)
    assign_members keep members

  module _ (members : List (String × List (CommunityMember F)))
      (averages : List (String × List F)) where
    abbrev pub average_of : String → List F
    average_of community_id = list_or_nil (get_item same_id community_id averages)

    -- The one community is dissolved into the other.
    unfoldable pub dissolve_into : String → String → Merging → Exec State Merging
    unfolding assign_members
    dissolve_into keep dissolve m = do
      assign_members keep (list_or_nil (get_item same_id dissolve members))
      writing c (refresh_community_member_count keep)
      writing c (refresh_community_member_count dissolve)
      pure record {
        merged_into = put_item same_id dissolve keep m.merged_into;
        sizes = moved_sizes keep dissolve m.sizes;
      }

    -- The greater one is kept, the left one if they are equal.
    unfoldable pub merge_roots : String → String → Merging → Exec State Merging
    unfolding dissolve_into
    merge_roots left_root right_root m =
        if left_root == right_root
        then pure m
        else if c.floats.at_least c.merge_threshold
            (cosine_similarity c.floats (average_of left_root) (average_of right_root))
        then pure m
        else if leb (size_of m.sizes right_root) (size_of m.sizes left_root)
        then dissolve_into left_root right_root m
        else dissolve_into right_root left_root m

    -- One pair; nothing where a `while` of `root` ran out of fuel.
    unfoldable pub merge_found :
        Option String → Option String → Merging → Exec State (Option Merging)
    unfolding merge_roots
    merge_found none right m = pure none
    merge_found (some left_root) none m = pure none
    merge_found (some left_root) (some right_root) m = do
      m' ← merge_roots left_root right_root m
      pure (some m')

    unfoldable pub merge_pair : String → String → Merging → Exec State (Option Merging)
    unfolding merge_found root
    merge_pair left right m =
        merge_found (root_of m.merged_into left) (root_of m.merged_into right) m

    abbrev pub going_on :
        (Merging → Exec State (Option Merging)) → Option Merging → Exec State (Option Merging)
    going_on rest none = pure none
    going_on rest (some m) = rest m

    unfoldable pub merge_with_each : String → List String → Merging → Exec State (Option Merging)
    unfolding merge_pair
    merge_with_each left [] m = pure (some m)
    merge_with_each left (right ∷ rights) m = do
      next ← merge_pair left right m
      going_on (merge_with_each left rights) next

    unfoldable pub merge_all : List String → Merging → Exec State (Option Merging)
    unfolding merge_with_each
    merge_all [] m = pure (some m)
    merge_all (left ∷ rights) m = do
      next ← merge_with_each left rights m
      going_on (merge_all rights) next

  abbrev pub merged_count : Option Merging → Option ℕ
  merged_count none = none
  merged_count (some m) = some (length m.merged_into)

  -- `_merge_communities`; nothing where a `while` ran out of fuel.
  unfoldable pub merge_communities : List String → Exec State (Option ℕ)
  unfolding read_members read_averages sizes_of merge_all
  merge_communities [] = pure (some 0)
  merge_communities (only ∷ []) = pure (some 0)
  merge_communities (first ∷ second ∷ others) = do
    members ← read_members (first ∷ second ∷ others)
    averages ← read_averages members
    merged ←
        merge_all members averages (first ∷ second ∷ others)
          record { merged_into = []; sizes = sizes_of members }
    pure (merged_count merged)
