-- ===== src/Chunker/Cover.antt =====
-- app/domain/services/notebook/chunker.py: what the windows of `_window` cover, and the two levels of
-- `chunk_parent_child`.
use boxify_agent.Prelude.{
  ℕ, zero, suc, ◌+◌, ◌-◌, ◌≤◌, ◌<◌, ◌≡◌, refl, sym, inl, inr, max, List, [], ◌∷◌, some, leb, arith,
  true, false, length, drop, Elem, get_elem?, get_elem?-take, get_elem?-drop, get_elem?-lt,
  get_elem?-Elem, Elem-get_elem?, Option-cases, Bool-cases, ◌∙◌, ap,
}
use boxify_agent.Prelude.Text.{Text, strip, is_space, mem-strip}
use boxify_agent.Chunker.{
  slice, keep_chunk, window_loop, window, ParentChunk, is_nil, normalized, chunk_parents,
  chunk_parent_child,
}
use boxify_agent.Chunker.Bounds.{window_loop-suc, window_returns}

-- The stripped window that starts at `start` holds position `i`, and is one of the chunks.
pub record Covers (text : Text) (size i start : ℕ) (chunks : List Text) : Type 0 where
  pub begins : start ≤ i
  pub reaches : i < start + size
  pub listed : Elem (strip (slice text start size)) chunks

slice-Elem :
    (text : Text) (start size i c : ℕ)
    → start ≤ i
    → i < start + size
    → get_elem? text i ≡ some c
    → Elem c (slice text start size)
slice-Elem text start size i c lo hi at = get_elem?-Elem (slice text start size) (i - start) c (
    get_elem?-take size (i - start) (drop start text) (omega arith)
    ∙ get_elem?-drop start (i - start) text
    ∙ ap (get_elem? text) (omega arith)
    ∙ at)

keep_chunk_self :
    (chunk : Text) (rest : List Text) (c : ℕ) → Elem c chunk → Elem chunk (keep_chunk chunk rest)
unfolding keep_chunk
keep_chunk_self [] rest c m = absurd m
keep_chunk_self (d ∷ ds) rest c m = inl refl

keep_chunk-rest : (chunk x : Text) (rest : List Text) → Elem x rest → Elem x (keep_chunk chunk rest)
unfolding keep_chunk
keep_chunk-rest [] x rest m = m
keep_chunk-rest (d ∷ ds) x rest m = inr m

window_loop-Covers :
    (rounds : ℕ) (text : Text) (size step start : ℕ) (chunks : List Text) (i c : ℕ)
    → step ≤ size
    → window_loop rounds text size step start ≡ some chunks
    → start ≤ i
    → get_elem? text i ≡ some c
    → is_space c ≡ false
    → (s : ℕ) × Covers text size i s chunks
unfolding window_loop
window_loop-Covers zero text size step start chunks i c fits h from at solid = cc h
window_loop-Covers (suc rounds) text size step start chunks i c fits h from at solid =
    elim (window_loop-suc rounds text size step start chunks h) [
      | inl (over, _) ↦ absurd (omega (arith, get_elem?-lt text i at))
      | inr (rest, _, e, made) ↦ elim (Bool-cases (leb (start + size) i)) [
        | inl later ↦
            let (s, covers) =
              window_loop-Covers rounds text size step (start + step) rest i c fits e (ground arith)
                at solid in
            (
              s,
              record {
                begins = covers.begins;
                reaches = covers.reaches;
                listed =
                    rw made (keep_chunk-rest (strip (slice text start size)) _ rest covers.listed);
              },
            )
        | inr here ↦ (
          start,
          record {
            begins = from;
            reaches = ground arith;
            listed = rw made (
                keep_chunk_self (strip (slice text start size)) rest c (
                  mem-strip (slice text start size) c solid
                    (slice-Elem text start size i c from (ground arith) at)));
          },
        )
      ]
    ]

-- In a text longer than the window, every code point but a space lies in a window whose stripped
-- text is a chunk, for every positive size and every overlap.
pub window-Covers :
    (text : Text) (size overlap : ℕ) (chunks : List Text) (i c : ℕ)
    → 1 ≤ size
    → size < length text
    → window text size overlap ≡ some chunks
    → get_elem? text i ≡ some c
    → is_space c ≡ false
    → (s : ℕ) × Covers text size i s chunks
unfolding window
window-Covers text size overlap chunks i c pos long h at solid =
    elim (Bool-cases (leb (length text) size)) [
      | inl short ↦ absurd (ground arith)
      | inr e ↦
          window_loop-Covers (suc (length text)) text size (max (size - overlap) 1) 0 chunks i c
            (omega arith) (rw e at h) (omega arith) at solid
    ]

-- Some chunk holds the code point.
pub record Holds (c : ℕ) (chunks : List Text) : Type 0 where
  pub chunk : Text
  pub listed : Elem chunk chunks
  pub inside : Elem c chunk

window-Holds :
    (text : Text) (size overlap : ℕ) (chunks : List Text) (c : ℕ)
    → 1 ≤ size
    → window text size overlap ≡ some chunks
    → Elem c text
    → is_space c ≡ false
    → Holds c chunks
unfolding window
window-Holds text size overlap chunks c pos h m solid = elim (Bool-cases (leb (length text) size)) [
  | inl short ↦
      let only : chunks ≡ text ∷ [] = cc (rw short at h) in
      record { chunk = text; listed = rw only (inl refl); inside = m }
  | inr long ↦
      let (i, at) = Elem-get_elem? text c m in
      let (s, covers) = window-Covers text size overlap chunks i c pos (ground arith) h at solid in
      record {
        chunk = strip (slice text s size);
        listed = covers.listed;
        inside =
            mem-strip (slice text s size) c solid
              (slice-Elem text s size i c covers.begins covers.reaches at);
      }
]

-- Some parent holds the code point, and so does one of its children.
pub record HoldsTwice (c : ℕ) (parents : List ParentChunk) : Type 0 where
  pub parent : ParentChunk
  pub listed : Elem parent parents
  pub inside : Elem c parent.content
  pub child : Holds c parent.children

chunk_parents_hold :
    (child_size overlap : ℕ) (parents : List Text) (made : List ParentChunk) (c : ℕ) (parent : Text)
    → 1 ≤ child_size
    → chunk_parents child_size overlap parents ≡ some made
    → Elem parent parents
    → Elem c parent
    → is_space c ≡ false
    → HoldsTwice c made
unfolding chunk_parents
chunk_parents_hold child_size overlap [] made c parent pos h listed inside solid = absurd listed
chunk_parents_hold child_size overlap (p ∷ ps) made c parent pos h listed inside solid =
    elim (Option-cases (window p child_size overlap)) [
      | inl lost ↦ absurd (cc (rw lost at h))
      | inr (children, e) ↦ elim (Option-cases (chunk_parents child_size overlap ps)) [
        | inl lost ↦ absurd (cc (rw (e, lost) at h))
        | inr (rest, e') ↦
            let all : made ≡ record { content = p; children = children } ∷ rest =
              cc (rw (e, e') at h) in
            rw all (elim listed [
              | inl here ↦ record {
                parent = record { content = p; children = children };
                listed = inl refl;
                inside = rw (sym here) inside;
                child =
                    window-Holds p child_size overlap children c pos e (rw (sym here) inside) solid;
              }
              | inr later ↦
                  let found =
                    chunk_parents_hold child_size overlap ps rest c parent pos e' later inside
                      solid in
                  record {
                    parent = found.parent;
                    listed = inr found.listed;
                    inside = found.inside;
                    child = found.child;
                  }
            ])
      ]
    ]

-- For positive sizes, every code point of the normalised text but a space stands in a parent, and in
-- a child of that parent, whatever the overlap.
pub chunk_parent_child-HoldsTwice :
    (text : Text) (parent_size child_size overlap : ℕ) (parents : List ParentChunk) (c : ℕ)
    → 1 ≤ parent_size
    → 1 ≤ child_size
    → chunk_parent_child text parent_size child_size overlap ≡ some parents
    → Elem c (normalized text)
    → is_space c ≡ false
    → HoldsTwice c parents
unfolding chunk_parent_child
chunk_parent_child-HoldsTwice text parent_size child_size overlap parents c pos pos' h m solid =
    elim (Bool-cases (is_nil (normalized text))) [
      | inl empty ↦ absurd (not_nil (normalized text) c empty m)
      | inr full ↦ elim (Option-cases (window (normalized text) parent_size overlap)) [
        | inl lost ↦ absurd (cc (rw (full, lost) at h))
        | inr (contents, e) ↦
            let held =
              window-Holds (normalized text) parent_size overlap contents c pos e m solid in
            chunk_parents_hold child_size overlap contents parents c held.chunk pos'
              (rw (full, e) at h) held.listed held.inside solid
      ]
    ]
  where
    not_nil : (t : Text) (c : ℕ) → is_nil t ≡ true → Elem c t → ⊥
    not_nil [] c e m = m
    not_nil (d ∷ ds) c e m = cc e

chunk_parents_return :
    (child_size overlap : ℕ) (parents : List Text)
    → (made : List ParentChunk) × (chunk_parents child_size overlap parents ≡ some made)
unfolding chunk_parents
chunk_parents_return child_size overlap [] = ([], refl)
chunk_parents_return child_size overlap (p ∷ ps) =
    let (children, e) = window_returns p child_size overlap in
    let (rest, e') = chunk_parents_return child_size overlap ps in
    (record { content = p; children = children } ∷ rest, rw (e, e'))

-- `chunk_parent_child` returns, whatever the text and the three sizes.
pub chunk_parent_child_returns :
    (text : Text) (parent_size child_size overlap : ℕ)
    → (made : List ParentChunk) × (chunk_parent_child text parent_size child_size overlap
        ≡ some made)
unfolding chunk_parent_child
chunk_parent_child_returns text parent_size child_size overlap =
    elim (Bool-cases (is_nil (normalized text))) [
      | inl empty ↦ ([], rw empty)
      | inr full ↦
          let (contents, e) = window_returns (normalized text) parent_size overlap in
          rw (full, e) (chunk_parents_return child_size overlap contents)
    ]
