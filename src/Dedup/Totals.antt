-- ===== src/Dedup/Totals.antt =====
-- Sums over the objects of app/domain/services/memory/entity_deduplicator.py, no two of one id.
use boxify_agent.Prelude.{
  String, ℕ, ◌+◌, ◌≤◌, List, [], ◌∷◌, ◌++◌, ◌≡◌, ◌≢◌, refl, sym, ap, ◌∙◌, arith, All, Elem,
  Bool-cases, inl, inr, ◌⊎◌, nat_eq, nat_eq_iff, if◌then◌else◌,
}

abbrev pub total : (ℕ → ℕ) → List ℕ → ℕ
total w [] = 0
total w (r ∷ rs) = w r + total w rs

abbrev pub put : (ℕ → ℕ) → ℕ → ℕ → ℕ → ℕ
put w c v o = if nat_eq o c then v else w o

-- The first occurrence gives way to another object.
abbrev pub replaced : ℕ → ℕ → List ℕ → List ℕ
replaced old new [] = []
replaced old new (r ∷ rs) = if nat_eq r old then new ∷ rs else r ∷ replaced old new rs

abbrev removed : ℕ → List ℕ → List ℕ
removed old [] = []
removed old (r ∷ rs) = if nat_eq r old then rs else r ∷ removed old rs

pub total-append : (w : ℕ → ℕ) (xs ys : List ℕ) → total w (xs ++ ys) ≡ total w xs + total w ys
total-append w [] ys = omega arith
total-append w (x ∷ xs) ys = omega (arith, total-append w xs ys)

total-removed :
    (w : ℕ → ℕ) (x : ℕ) (ys : List ℕ) → Elem x ys → total w ys ≡ w x + total w (removed x ys)
total-removed w x [] e = absurd e
total-removed w x (y ∷ ys) (inl same) = elim (Bool-cases (nat_eq y x)) [
  | inl hit ↦ rw (hit, same) refl
  | inr miss ↦ absurd (cc (miss, (nat_eq_iff y x).1 (sym same)))
]
total-removed w x (y ∷ ys) (inr e) = elim (Bool-cases (nat_eq y x)) [
  | inl hit ↦ rw (hit, (nat_eq_iff y x).0 hit) refl
  | inr miss ↦ let rest = total-removed w x ys e in rw miss (omega arith)
]

Elem-removed : (v x : ℕ) (ys : List ℕ) → Elem v ys → v ≢ x → Elem v (removed x ys)
Elem-removed v x [] e ne = absurd e
Elem-removed v x (y ∷ ys) (inl same) ne = elim (Bool-cases (nat_eq y x)) [
  | inl hit ↦ absurd (ne (same ∙ (nat_eq_iff y x).0 hit))
  | inr miss ↦ rw miss (inl same)
]
Elem-removed v x (y ∷ ys) (inr e) ne = elim (Bool-cases (nat_eq y x)) [
  | inl hit ↦ rw hit e
  | inr miss ↦ rw miss (inr (Elem-removed v x ys e ne))
]

pub total-replaced :
    (w : ℕ → ℕ) (c r : ℕ) (rs : List ℕ)
    → Elem c rs
    → total w (replaced c r rs) + w c ≡ total w rs + w r
total-replaced w c r [] e = absurd e
total-replaced w c r (x ∷ xs) (inl same) = elim (Bool-cases (nat_eq x c)) [
  | inl hit ↦ rw (hit, same) (omega arith)
  | inr miss ↦ absurd (cc (miss, (nat_eq_iff x c).1 (sym same)))
]
total-replaced w c r (x ∷ xs) (inr e) = elim (Bool-cases (nat_eq x c)) [
  | inl hit ↦ rw (hit, (nat_eq_iff x c).0 hit) (omega arith)
  | inr miss ↦ let rest = total-replaced w c r xs e in rw miss (omega arith)
]

pub All-replaced {κ} :
    (P : ℕ → Type κ) (c r : ℕ) (rs : List ℕ) → P r → All P rs → All P (replaced c r rs)
All-replaced P c r [] p h = tt
All-replaced P c r (x ∷ xs) p h = elim (Bool-cases (nat_eq x c)) [
  | inl hit ↦ rw hit (p, h.1)
  | inr miss ↦ rw miss (h.0, All-replaced P c r xs p h.1)
]

pub Elem-replaced-new : (c r : ℕ) (rs : List ℕ) → Elem c rs → Elem r (replaced c r rs)
Elem-replaced-new c r [] e = absurd e
Elem-replaced-new c r (x ∷ xs) (inl same) = elim (Bool-cases (nat_eq x c)) [
  | inl hit ↦ rw hit (inl refl)
  | inr miss ↦ absurd (cc (miss, (nat_eq_iff x c).1 (sym same)))
]
Elem-replaced-new c r (x ∷ xs) (inr e) = elim (Bool-cases (nat_eq x c)) [
  | inl hit ↦ rw hit (inl refl)
  | inr miss ↦ rw miss (inr (Elem-replaced-new c r xs e))
]

pub Elem-replaced-other : (c r v : ℕ) (rs : List ℕ) → Elem v rs → v ≢ c → Elem v (replaced c r rs)
Elem-replaced-other c r v [] e ne = absurd e
Elem-replaced-other c r v (x ∷ xs) (inl same) ne = elim (Bool-cases (nat_eq x c)) [
  | inl hit ↦ absurd (ne (same ∙ (nat_eq_iff x c).0 hit))
  | inr miss ↦ rw miss (inl same)
]
Elem-replaced-other c r v (x ∷ xs) (inr e) ne = elim (Bool-cases (nat_eq x c)) [
  | inl hit ↦ rw hit (inr e)
  | inr miss ↦ rw miss (inr (Elem-replaced-other c r v xs e ne))
]

pub Elem-append-left : (v : ℕ) (xs ys : List ℕ) → Elem v xs → Elem v (xs ++ ys)
Elem-append-left v [] ys e = absurd e
Elem-append-left v (x ∷ xs) ys (inl same) = inl same
Elem-append-left v (x ∷ xs) ys (inr e) = inr (Elem-append-left v xs ys e)

pub Elem-append-right : (v : ℕ) (xs ys : List ℕ) → Elem v ys → Elem v (xs ++ ys)
Elem-append-right v [] ys e = e
Elem-append-right v (x ∷ xs) ys e = inr (Elem-append-right v xs ys e)

pub Elem-snoc : (v y : ℕ) (xs : List ℕ) → Elem v (xs ++ y ∷ []) → Elem v xs ⊎ (v ≡ y)
Elem-snoc v y [] (inl same) = inr same
Elem-snoc v y [] (inr e) = absurd e
Elem-snoc v y (x ∷ xs) (inl same) = inl (inl same)
Elem-snoc v y (x ∷ xs) (inr e) = elim (Elem-snoc v y xs e) [
  | inl before ↦ inl (inr before)
  | inr last ↦ inr last
]

pub total-ext : (w u : ℕ → ℕ) (rs : List ℕ) → ((o : ℕ) → w o ≡ u o) → total w rs ≡ total u rs
total-ext w u [] h = refl
total-ext w u (r ∷ rs) h = omega (arith, h r, total-ext w u rs h)

pub All-map :
    (P : ℕ → Type 0) (Q : ℕ → Type 0) (rs : List ℕ) → All P rs → ((r : ℕ) → P r → Q r) → All Q rs
All-map P Q [] h f = tt
All-map P Q (r ∷ rs) h f = (f r h.0, All-map P Q rs h.1 f)

pub All-snoc : (P : ℕ → Type 0) (x : ℕ) (rs : List ℕ) → All P rs → P x → All P (rs ++ x ∷ [])
All-snoc P x [] h p = (p, tt)
All-snoc P x (r ∷ rs) h p = (h.0, All-snoc P x rs h.1 p)

pub All-lookup {κ} : (P : ℕ → Type κ) (v : ℕ) (rs : List ℕ) → All P rs → Elem v rs → P v
All-lookup P v [] h e = absurd e
All-lookup P v (r ∷ rs) h (inl same) = rw same h.0
All-lookup P v (r ∷ rs) h (inr e) = All-lookup P v rs h.1 e

module _ (id_of : ℕ → String) where
  abbrev pub Fresh : ℕ → List ℕ → Type 0
  Fresh r rs = All (λ o. id_of r ≢ id_of o) rs

  abbrev pub Apart : List ℕ → Type 0
  Apart [] = Unit {0}
  Apart (r ∷ rs) = Fresh r rs × Apart rs

  pub Fresh-ne : (r v : ℕ) (rs : List ℕ) → Fresh r rs → Elem v rs → v ≢ r
  Fresh-ne r v rs h e same = All-lookup (λ o. id_of r ≢ id_of o) v rs h e (ap id_of (sym same))

  pub total-put-Fresh :
      (w : ℕ → ℕ) (c v : ℕ) (rs : List ℕ) → Fresh c rs → total (put w c v) rs ≡ total w rs
  total-put-Fresh w c v [] h = refl
  total-put-Fresh w c v (x ∷ xs) h = elim (Bool-cases (nat_eq x c)) [
    | inl hit ↦ absurd (h.0 (ap id_of (sym ((nat_eq_iff x c).0 hit))))
    | inr miss ↦ let rest = total-put-Fresh w c v xs h.1 in rw miss (omega arith)
  ]

  pub total-put :
      (w : ℕ → ℕ) (c v : ℕ) (rs : List ℕ)
      → Elem c rs
      → Apart rs
      → total (put w c v) rs + w c ≡ total w rs + v
  total-put w c v [] e a = absurd e
  total-put w c v (x ∷ xs) (inl same) a = elim (Bool-cases (nat_eq x c)) [
    | inl hit ↦
        let rest = total-put-Fresh w c v xs (rw same a.0) in rw (hit, sym same) (omega arith)
    | inr miss ↦ absurd (cc (miss, (nat_eq_iff x c).1 (sym same)))
  ]
  total-put w c v (x ∷ xs) (inr e) a = elim (Bool-cases (nat_eq x c)) [
    | inl hit ↦ absurd (Fresh-ne x c xs a.0 e (sym ((nat_eq_iff x c).0 hit)))
    | inr miss ↦ let rest = total-put w c v xs e a.1 in rw miss (omega arith)
  ]

  pub Apart-replaced : (c r : ℕ) (rs : List ℕ) → Fresh r rs → Apart rs → Apart (replaced c r rs)
  Apart-replaced c r [] f a = tt
  Apart-replaced c r (x ∷ xs) f a = elim (Bool-cases (nat_eq x c)) [
    | inl hit ↦ rw hit (f.1, a.1)
    | inr miss ↦ rw miss (
      All-replaced (λ o. id_of x ≢ id_of o) c r xs (λ e. f.0 (sym e)) a.0,
      Apart-replaced c r xs f.1 a.1,
    )
  ]

  pub Apart-snoc : (r : ℕ) (rs : List ℕ) → Fresh r rs → Apart rs → Apart (rs ++ r ∷ [])
  Apart-snoc r [] f a = (tt, tt)
  Apart-snoc r (x ∷ xs) f a = (snoc xs a.0, Apart-snoc r xs f.1 a.1)
    where
      snoc : (ys : List ℕ) → Fresh x ys → Fresh x (ys ++ r ∷ [])
      snoc [] h = (λ e. f.0 (sym e), tt)
      snoc (y ∷ ys) h = (h.0, snoc ys h.1)

  pub total-le :
      (w : ℕ → ℕ) (xs ys : List ℕ)
      → Apart xs
      → ((v : ℕ) → Elem v xs → Elem v ys)
      → total w xs ≤ total w ys
  total-le w [] ys a sub = omega arith
  total-le w (x ∷ xs) ys a sub =
      let split = total-removed w x ys (sub x (inl refl)) in
      let rest =
        total-le w xs (removed x ys) a.1
          (λ v e. Elem-removed v x ys (sub v (inr e)) (Fresh-ne x v xs a.0 e)) in
      omega arith

pub put-same : (w : ℕ → ℕ) (c v : ℕ) → put w c v c ≡ v
put-same w c v = rw ((nat_eq_iff c c).1 refl) refl

pub put-other : (w : ℕ → ℕ) (c v o : ℕ) → o ≢ c → put w c v o ≡ w o
put-other w c v o ne = elim (Bool-cases (nat_eq o c)) [
  | inl hit ↦ absurd (ne ((nat_eq_iff o c).0 hit))
  | inr miss ↦ rw miss refl
]
