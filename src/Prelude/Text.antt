-- ===== src/Prelude/Text.antt =====
-- Texts that the program walks, as lists of code points, with Python's `str.strip`,
-- `str.splitlines` and `"\n".join` on them.
use Prim.Native.Nat.{ℕ, suc, ◌≤◌}
use mathlib.Core.Path.{◌≡◌, refl, ap, sym}
use mathlib.Core.Logic.{◌⊎◌, inl, inr}
use mathlib.Core.Bool.{Bool, true, false, ◌&&◌, ◌||◌}
use mathlib.Core.List.{List, [], ◌∷◌, ◌++◌}
use Prim.Native.String.{String}
use Prim.Native.Char.{code}
use native.Mathlib.Omega.{arith}
use boxify_agent.Prelude.Tests.{leb, nat_eq, if◌then◌else◌, Bool-cases}
use boxify_agent.Prelude.Lists.{length, Elem}

abbrev pub Text : Type 0
Text = List ℕ

-- `==`
abbrev pub text_eq : Text → Text → Bool
text_eq [] [] = true
text_eq [] (d ∷ ds) = false
text_eq (c ∷ cs) [] = false
text_eq (c ∷ cs) (d ∷ ds) = nat_eq c d && text_eq cs ds

abbrev pub codes : String → Text
codes String.[] = []
codes (String.◌∷◌ c s) = code c ∷ codes s

-- `str.isspace` of one code point.
unfoldable pub is_space : ℕ → Bool
is_space c =
    (leb 9 c && leb c 13)
    || (leb 28 c && leb c 32)
    || nat_eq c 133
    || nat_eq c 160
    || nat_eq c 5760
    || (leb 8192 c && leb c 8202)
    || nat_eq c 8232
    || nat_eq c 8233
    || nat_eq c 8239
    || nat_eq c 8287
    || nat_eq c 12288

-- The code points at which `str.splitlines` ends a line.
unfoldable pub is_line_break : ℕ → Bool
is_line_break c =
    (leb 10 c && leb c 13)
    || (leb 28 c && leb c 30)
    || nat_eq c 133
    || nat_eq c 8232
    || nat_eq c 8233

unfoldable pub strip_left : Text → Text
strip_left [] = []
strip_left (c ∷ cs) = let rest = strip_left cs in if is_space c then rest else c ∷ cs

push_right : ℕ → Text → Text
push_right c [] = if is_space c then [] else c ∷ []
push_right c (d ∷ ds) = c ∷ d ∷ ds

unfoldable pub strip_right : Text → Text
unfolding push_right
strip_right [] = []
strip_right (c ∷ cs) = push_right c (strip_right cs)

unfoldable pub strip : Text → Text
unfolding strip_left strip_right
strip t = strip_right (strip_left t)

-- `str.splitlines()`: "\r\n" is one break, and a break at the end opens no line.
add_to_line : ℕ → List Text → List Text
add_to_line c [] = (c ∷ []) ∷ []
add_to_line c (line ∷ rest) = (c ∷ line) ∷ rest

starts_with_lf : Text → Bool
starts_with_lf [] = false
starts_with_lf (c ∷ cs) = nat_eq c 10

unfoldable pub splitlines : Text → List Text
unfolding add_to_line starts_with_lf is_line_break
splitlines [] = []
splitlines (c ∷ cs) =
    let rest = splitlines cs in
    if is_line_break c
    then (if nat_eq c 13 && starts_with_lf cs then rest else [] ∷ rest)
    else add_to_line c rest

-- `"\n".join(lines)`
unfoldable pub join_lines : List Text → Text
join_lines [] = []
join_lines (line ∷ []) = line
join_lines (line ∷ next ∷ rest) = line ++ 10 ∷ join_lines (next ∷ rest)

length-strip_left-le : (t : Text) → length (strip_left t) ≤ length t
unfolding strip_left
length-strip_left-le [] = omega arith
length-strip_left-le (c ∷ cs) = ground (arith, length-strip_left-le cs)

length-strip_right-le : (t : Text) → length (strip_right t) ≤ length t
unfolding strip_right
length-strip_right-le [] = omega arith
length-strip_right-le (c ∷ cs) = length_push c (strip_right cs) (length-strip_right-le cs)
  where
    length_push :
        (c : ℕ) (t : Text) → length t ≤ length cs → length (push_right c t) ≤ suc (length cs)
    length_push c [] h = ground arith
    length_push c (d ∷ ds) h = omega arith

pub length-strip-le : (t : Text) → length (strip t) ≤ length t
unfolding strip
length-strip-le t = omega (arith, length-strip_left-le t, length-strip_right-le (strip_left t))

mem-strip_left : (t : Text) (c : ℕ) → is_space c ≡ false → Elem c t → Elem c (strip_left t)
unfolding strip_left
mem-strip_left [] c h m = m
mem-strip_left (d ∷ cs) c h (inl e) = elim (Bool-cases (is_space d)) [
  | inl space ↦ cc (ap is_space e)
  | inr other ↦ rw other (inl e)
]
mem-strip_left (d ∷ cs) c h (inr m) = elim (Bool-cases (is_space d)) [
  | inl space ↦ rw space (mem-strip_left cs c h m)
  | inr other ↦ rw other (inr m)
]

mem-push_right :
    (d : ℕ) (t : Text) (c : ℕ) → is_space c ≡ false → (c ≡ d) ⊎ Elem c t → Elem c (push_right d t)
unfolding push_right
mem-push_right d [] c h (inl e) = rw (sym e, h) (inl refl)
mem-push_right d [] c h (inr m) = absurd m
mem-push_right d (x ∷ xs) c h m = m

mem-strip_right : (t : Text) (c : ℕ) → is_space c ≡ false → Elem c t → Elem c (strip_right t)
unfolding strip_right
mem-strip_right [] c h m = m
mem-strip_right (d ∷ cs) c h (inl e) = mem-push_right d (strip_right cs) c h (inl e)
mem-strip_right (d ∷ cs) c h (inr m) =
    mem-push_right d (strip_right cs) c h (inr (mem-strip_right cs c h m))

-- `strip` drops no code point but spaces.
pub mem-strip : (t : Text) (c : ℕ) → is_space c ≡ false → Elem c t → Elem c (strip t)
unfolding strip
mem-strip t c h m = mem-strip_right (strip_left t) c h (mem-strip_left t c h m)

-- `t.startswith(s)`
abbrev pub starts_with : Text → Text → Bool
starts_with [] t = true
starts_with (c ∷ cs) [] = false
starts_with (c ∷ cs) (d ∷ ds) = nat_eq c d && starts_with cs ds
