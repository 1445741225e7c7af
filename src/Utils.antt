-- ===== src/Utils.antt =====
-- app/utils/{collections,vector,json_utils}.py, and Python's dicts in the order of their insertion. Floats
-- are a type whose operations are parameters.
use boxify_agent.Prelude.{
  String, ℕ, zero, suc, Bool, true, false, not, ◌&&◌, ◌||◌, Option, none, some, List, [], ◌∷◌, ◌++◌,
  length, get_elem?, if◌then◌else◌, ◌==◌, is_empty, nat_eq,
}
use boxify_agent.Result.{Result, ok, err, cancelled, runtime_error}

pub record Floats (F : Type 0) : Type 0 where
  pub zero_float : F
  pub add : F → F → F
  pub mul : F → F → F
  pub div : F → F → F
  pub sqrt : F → F
  pub is_zero : F → Bool
  pub greater : F → F → Bool
  pub at_least : F → F → Bool
  -- a whole number as a divisor
  pub of_nat : ℕ → F

abbrev pub is_nil : {A : Type 0} → List A → Bool
is_nil [] = true
is_nil (x ∷ xs) = false

-- `value in merged`
abbrev has_string : String → List String → Bool
has_string value [] = false
has_string value (x ∷ xs) = x == value || has_string value xs

unfoldable pub merge_strings : List String → List String → List String
merge_strings merged [] = merged
merge_strings merged (value ∷ values) =
    if not (is_empty value) && not (has_string value merged)
    then merge_strings (merged ++ value ∷ []) values
    else merge_strings merged values

unfoldable pub merge_unique_strings : List String → List String → List String
unfolding merge_strings
merge_unique_strings left right = merge_strings [] (left ++ right)

-- `entries[key] = value`
abbrev pub put_item : {K V : Type 0} → (K → K → Bool) → K → V → List (K × V) → List (K × V)
put_item same key value [] = (key, value) ∷ []
put_item same key value ((k, v) ∷ entries) =
    if same k key then (k, value) ∷ entries else (k, v) ∷ put_item same key value entries

abbrev pub get_item : {K V : Type 0} → (K → K → Bool) → K → List (K × V) → Option V
get_item same key [] = none
get_item same key ((k, v) ∷ entries) = if same k key then some v else get_item same key entries

abbrev pub same_id : String → String → Bool
same_id a b = a == b

-- `parse_json_object`: `{}` where the parser raises or answers no object.
abbrev pub object_or : Result (Option String) → Result String
object_or (err cancelled) = err cancelled
object_or (err e) = ok "{}"
object_or (ok none) = ok "{}"
object_or (ok (some json)) = ok json

module _ {F : Type 0} (f : Floats F) where
  -- `sum(a * b for a, b in zip(left, right))`
  abbrev dot : List F → List F → F → F
  dot [] right total = total
  dot (a ∷ left) [] total = total
  dot (a ∷ left) (b ∷ right) total = dot left right (f.add total (f.mul a b))

  unfoldable pub cosine_similarity : List F → List F → F
  cosine_similarity left right =
      if is_nil left || is_nil right || not (nat_eq (length left) (length right))
      then f.zero_float
      else let left_norm = f.sqrt (dot left left f.zero_float) in
        let right_norm = f.sqrt (dot right right f.zero_float) in
        if f.is_zero left_norm || f.is_zero right_norm
        then f.zero_float
        else f.div (dot left right f.zero_float) (f.mul left_norm right_norm)

  -- `sum(vector[index] for vector in vectors)`, which raises where a vector is shorter.
  abbrev component_sum : ℕ → List (List F) → F → Result F
  component_sum index [] total = ok total
  component_sum index (vector ∷ vectors) total = elim (get_elem? vector index) [
    | none ↦ err (runtime_error "list index out of range")
    | some x ↦ component_sum index vectors (f.add total x)
  ]

  abbrev prepend : F → Result (List F) → Result (List F)
  prepend x (err e) = err e
  prepend x (ok xs) = ok (x ∷ xs)

  -- The components from `index` on, as many as `count`.
  unfoldable pub components : ℕ → ℕ → List (List F) → Result (List F)
  components zero index vectors = ok []
  components (suc count) index vectors = elim (component_sum index vectors f.zero_float) [
    | err e ↦ err e
    | ok total ↦
        prepend (f.div total (f.of_nat (length vectors))) (components count (suc index) vectors)
  ]

  abbrev valid_vectors : List (List F) → List (List F)
  valid_vectors [] = []
  valid_vectors (vector ∷ vectors) =
      if is_nil vector then valid_vectors vectors else vector ∷ valid_vectors vectors

  abbrev average_of : List (List F) → Result (List F)
  average_of [] = ok []
  average_of (vector ∷ vectors) = components (length vector) 0 (vector ∷ vectors)

  unfoldable pub average_vector : List (List F) → Result (List F)
  unfolding components
  average_vector vectors = average_of (valid_vectors vectors)
