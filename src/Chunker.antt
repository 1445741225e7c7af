-- ===== src/Chunker.antt =====
-- app/domain/services/notebook/chunker.py: parent and child windows of a document's text.
pub mod Bounds
pub mod Cover
mod Samples
use boxify_agent.Prelude.{
  ℕ, zero, suc, ◌+◌, ◌-◌, max, List, [], ◌∷◌, map, Bool, true, false, Option, none, some, ltb, leb,
  length, take, drop, filterb, if◌then◌else◌, not, ◌>>=◌,
}
use mathlib.Core.Option
use boxify_agent.Prelude.Text.{Text, strip, splitlines, join_lines}

pub record ParentChunk : Type 0 where
  pub content : Text
  pub children : List Text

abbrev pub is_nil : Text → Bool
is_nil [] = true
is_nil (c ∷ cs) = false

-- `text[start : start + size]`
abbrev pub slice : Text → ℕ → ℕ → Text
slice text start size = take size (drop start text)

-- `if chunk: chunks.append(chunk)`, for what the rest of the loop appends.
unfoldable pub keep_chunk : Text → List Text → List Text
keep_chunk chunk rest = if is_nil chunk then rest else chunk ∷ rest

-- The `while` loop from `start`: `none` if the rounds run out.
unfoldable pub window_loop : ℕ → Text → (size step start : ℕ) → Option (List Text)
unfolding keep_chunk
window_loop zero text size step start = none
window_loop (suc rounds) text size step start =
    let rest = window_loop rounds text size step (start + step) in
    if ltb start (length text)
    then Option.map (keep_chunk (strip (slice text start size))) rest
    else some []

-- `_window`; `len(text)` rounds are enough, as the step is at least 1.
unfoldable pub window : Text → (size overlap : ℕ) → Option (List Text)
window text size overlap =
    if leb (length text) size
    then some (text ∷ [])
    else window_loop (suc (length text)) text size (max (size - overlap) 1) 0

-- "\n".join(line.strip() for line in text.splitlines() if line.strip())
unfoldable pub normalized : Text → Text
normalized text =
    join_lines (map strip (filterb (λ line. not (is_nil (strip line))) (splitlines text)))

unfoldable pub chunk_parents : (child_size overlap : ℕ) → List Text → Option (List ParentChunk)
unfolding window
chunk_parents child_size overlap [] = some []
chunk_parents child_size overlap (parent ∷ parents) = do
  children ← window parent child_size overlap
  rest ← chunk_parents child_size overlap parents
  some (record { content = parent; children = children } ∷ rest)

unfoldable pub chunk_parent_child :
    Text → (parent_size child_size overlap : ℕ) → Option (List ParentChunk)
unfolding normalized window chunk_parents
chunk_parent_child text parent_size child_size overlap =
    if is_nil (normalized text) then some [] else do
      parents ← window (normalized text) parent_size overlap
      chunk_parents child_size overlap parents
