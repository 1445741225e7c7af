-- ===== src/Chunker/Samples.antt =====
-- Tests of the chunker, and its theorems at concrete documents.
use boxify_agent.Prelude.{some, ◌≡◌, refl, [], ◌∷◌, List, ℕ, inl, inr, All, length, ◌≤◌, arith}
use boxify_agent.Prelude.Text.{codes, Text, is_space, strip, splitlines, join_lines}
use boxify_agent.Chunker.{window, window_loop, chunk_parent_child, ParentChunk}
use boxify_agent.Chunker.Bounds.{window_bounds}
use boxify_agent.Chunker.Cover.{
  Covers, HoldsTwice, window-Covers, chunk_parent_child-HoldsTwice, chunk_parent_child_returns,
}

abbrev letters : Text
letters = codes "abcdefgh"

abbrev letter_windows : List Text
letter_windows = codes "abcd" ∷ codes "defg" ∷ codes "gh" ∷ []

window_runs : window letters 4 1 ≡ some letter_windows
unfolding window window_loop strip is_space
window_runs = refl

abbrev note_text : Text
note_text = codes "  ab \r\n\n cd\n"

abbrev note_parents : List ParentChunk
note_parents =
    record { content = codes "ab\ncd"; children = codes "ab" ∷ codes "cd" ∷ codes "d" ∷ [] } ∷ []

chunk_runs : chunk_parent_child note_text 100 3 1 ≡ some note_parents
unfolding chunk_parent_child join_lines splitlines strip is_space window_loop
chunk_runs = refl

window_bounds_example : All (λ c. (1 ≤ length c) × (length c ≤ 4)) letter_windows
window_bounds_example = window_bounds letters 4 1 letter_windows (omega arith) window_runs

window-Covers_example : (s : ℕ) × Covers letters 4 5 s letter_windows
unfolding is_space
window-Covers_example =
    window-Covers letters 4 1 letter_windows 5 b'f' (omega arith) (omega arith) window_runs refl
      refl

chunk_parent_child-HoldsTwice_example : HoldsTwice b'c' note_parents
unfolding join_lines splitlines strip is_space boxify_agent.Chunker.normalized
chunk_parent_child-HoldsTwice_example =
    chunk_parent_child-HoldsTwice note_text 100 3 1 note_parents b'c' (omega arith) (omega arith)
      chunk_runs (inr (inr (inr (inl refl)))) refl

chunk_parent_child_returns_example :
    (made : List ParentChunk) × (chunk_parent_child note_text 0 0 0 ≡ some made)
chunk_parent_child_returns_example = chunk_parent_child_returns note_text 0 0 0
