-- ===== src/Chunker/Bounds.antt =====
-- app/domain/services/notebook/chunker.py: the rounds of `_window` and the lengths of its chunks.
use boxify_agent.Prelude.{
  ℕ, zero, suc, ◌+◌, ◌-◌, ◌≤◌, ◌<◌, ◌≡◌, ◌⊎◌, inl, inr, max, List, [], ◌∷◌, some, ltb, leb, arith,
  length, drop, All, Bool-cases, Option-cases, length-take-le,
}
use boxify_agent.Prelude.Text.{Text, strip, length-strip-le}
use boxify_agent.Chunker.{slice, keep_chunk, window_loop, window}

module _ (rounds : ℕ) (text : Text) (size step start : ℕ) where
  -- One round: the loop has ended, or it goes on one step further.
  pub window_loop-suc :
      (chunks : List Text)
      → window_loop (suc rounds) text size step start ≡ some chunks
      → ((length text ≤ start) × (chunks ≡ []))
        ⊎ ((rest : List Text) × (start < length text)
            × (window_loop rounds text size step (start + step) ≡ some rest)
            × (chunks ≡ keep_chunk (strip (slice text start size)) rest))
  unfolding window_loop
  window_loop-suc chunks h = elim (Bool-cases (ltb start (length text))) [
    | inl going ↦ elim (Option-cases (window_loop rounds text size step (start + step))) [
      | inl lost ↦ absurd (cc (rw (going, lost) at h))
      | inr (rest, e) ↦ inr (rest, ground arith, e, cc (rw (going, e) at h))
    ]
    | inr over ↦ inl (ground arith, cc (rw over at h))
  ]

-- Enough rounds let the loop return.
pub window_loop_returns :
    (rounds : ℕ) (text : Text) (size step start : ℕ)
    → 1 ≤ step
    → 1 ≤ rounds
    → length text < start + rounds
    → (chunks : List Text) × (window_loop rounds text size step start ≡ some chunks)
unfolding window_loop
window_loop_returns zero text size step start pos some_left h = absurd (omega arith)
window_loop_returns (suc rounds) text size step start pos some_left h =
    elim (Bool-cases (ltb start (length text))) [
      | inl going ↦
          let (rest, e) =
            window_loop_returns rounds text size step (start + step) pos (ground arith)
              (ground arith) in
          (keep_chunk (strip (slice text start size)) rest, rw (going, e))
      | inr over ↦ ([], rw over)
    ]

-- `_window` returns, whatever the text, the window and the overlap.
pub window_returns :
    (text : Text) (size overlap : ℕ)
    → (chunks : List Text) × (window text size overlap ≡ some chunks)
unfolding window
window_returns text size overlap = elim (Bool-cases (leb (length text) size)) [
  | inl short ↦ (text ∷ [], rw short)
  | inr long ↦ rw long (
      window_loop_returns (suc (length text)) text size (max (size - overlap) 1) 0 (omega arith)
        (omega arith) (omega arith))
]

keep_chunk-All :
    (size : ℕ) (chunk : Text) (rest : List Text)
    → length chunk ≤ size
    → All (λ c. (1 ≤ length c) × (length c ≤ size)) rest
    → All (λ c. (1 ≤ length c) × (length c ≤ size)) (keep_chunk chunk rest)
unfolding keep_chunk
keep_chunk-All size [] rest h r = r
keep_chunk-All size (c ∷ cs) rest h r = ((omega arith, h), r)

pub window_loop_bounds :
    (rounds : ℕ) (text : Text) (size step start : ℕ) (chunks : List Text)
    → window_loop rounds text size step start ≡ some chunks
    → All (λ c. (1 ≤ length c) × (length c ≤ size)) chunks
unfolding window_loop
window_loop_bounds zero text size step start chunks h = cc h
window_loop_bounds (suc rounds) text size step start chunks h =
    elim (window_loop-suc rounds text size step start chunks h) [
      | inl (_, e) ↦ rw e tt
      | inr (rest, _, e, made) ↦ rw made (
          keep_chunk-All size (strip (slice text start size)) rest
            (omega (
              arith,
              length-strip-le (slice text start size),
              length-take-le size (drop start text),
            ))
            (window_loop_bounds rounds text size step (start + step) rest e))
    ]

-- Every chunk that `_window` cuts from a text longer than the window is non-empty and fits the window.
pub window_bounds :
    (text : Text) (size overlap : ℕ) (chunks : List Text)
    → size < length text
    → window text size overlap ≡ some chunks
    → All (λ c. (1 ≤ length c) × (length c ≤ size)) chunks
unfolding window
window_bounds text size overlap chunks long h = elim (Bool-cases (leb (length text) size)) [
  | inl short ↦ absurd (ground arith)
  | inr e ↦
      window_loop_bounds (suc (length text)) text size (max (size - overlap) 1) 0 chunks (rw e at h)
]
