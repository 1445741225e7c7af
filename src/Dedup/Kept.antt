-- ===== src/Dedup/Kept.antt =====
-- app/domain/services/memory/entity_deduplicator.py, `dedup_batch`: what holds before each entity of
-- the batch is taken.
use boxify_agent.Prelude.{
  String, ℕ, List, [], ◌∷◌, ◌++◌, ◌≡◌, ◌≢◌, refl, sym, ap, ◌∙◌, All, Elem, map, Bool-cases, inl,
  inr, ◌⊎◌, nat_eq, nat_eq_iff,
}
use boxify_agent.Dedup.Batch.{replace_item, replace_final}
use boxify_agent.Utils.{put_item}
use boxify_agent.Dedup.Totals.{replaced, Apart, Fresh-ne}

abbrev pub refs : List (ℕ × ℕ) → List ℕ
refs items = map (λ item. item.1) items

abbrev pub indices : List (ℕ × ℕ) → List ℕ
indices items = map (λ item. item.0) items

-- No index of a dict stands twice.
abbrev pub OtherThan : List ℕ → ℕ → Type 0
OtherThan js k = All (λ j. k ≢ j) js

abbrev pub AreKeys : List ℕ → Type 0
AreKeys [] = Unit {0}
AreKeys (k ∷ ks) = OtherThan ks k × AreKeys ks

pub refs-put :
    (idx r : ℕ) (items : List (ℕ × ℕ))
    → All (λ k. k ≢ idx) (indices items)
    → refs (put_item nat_eq idx r items) ≡ refs items ++ r ∷ []
refs-put idx r [] h = refl
refs-put idx r ((k, v) ∷ items) h = elim (Bool-cases (nat_eq k idx)) [
  | inl hit ↦ absurd (h.0 ((nat_eq_iff k idx).0 hit))
  | inr miss ↦ rw miss (ap (λ t. v ∷ t) (refs-put idx r items h.1))
]

pub indices-put :
    (idx r : ℕ) (items : List (ℕ × ℕ))
    → All (λ k. k ≢ idx) (indices items)
    → indices (put_item nat_eq idx r items) ≡ indices items ++ idx ∷ []
indices-put idx r [] h = refl
indices-put idx r ((k, v) ∷ items) h = elim (Bool-cases (nat_eq k idx)) [
  | inl hit ↦ absurd (h.0 ((nat_eq_iff k idx).0 hit))
  | inr miss ↦ rw miss (ap (λ t. k ∷ t) (indices-put idx r items h.1))
]

pub refs-snoc :
    (i r : ℕ) (items : List (ℕ × ℕ)) → refs (items ++ (i, r) ∷ []) ≡ refs items ++ r ∷ []
refs-snoc i r [] = refl
refs-snoc i r (item ∷ items) = ap (λ t. item.1 ∷ t) (refs-snoc i r items)

pub refs-replace_item :
    (old i new : ℕ) (items : List (ℕ × ℕ))
    → refs (replace_item old i new items) ≡ replaced old new (refs items)
unfolding replace_item
refs-replace_item old i new [] = refl
refs-replace_item old i new ((k, v) ∷ items) = elim (Bool-cases (nat_eq v old)) [
  | inl hit ↦ rw hit refl
  | inr miss ↦ rw miss (ap (λ t. v ∷ t) (refs-replace_item old i new items))
]

pub indices-replace_final :
    (old new : ℕ) (items : List (ℕ × ℕ)) → indices (replace_final old new items) ≡ indices items
unfolding replace_final
indices-replace_final old new [] = refl
indices-replace_final old new ((k, v) ∷ items) =
    ap (λ t. k ∷ t) (indices-replace_final old new items)

-- What stands in the replaced list is new, or stood there and is not the old one.
pub Elem-replace_final :
    (old new v : ℕ) (items : List (ℕ × ℕ))
    → Elem v (refs (replace_final old new items))
    → (v ≡ new) ⊎ (Elem v (refs items) × (v ≢ old))
unfolding replace_final
Elem-replace_final old new v [] e = absurd e
Elem-replace_final old new v ((k, u) ∷ items) (inl same) = elim (Bool-cases (nat_eq u old)) [
  | inl hit ↦ inl (rw hit at same)
  | inr miss ↦ inr (
    inl (rw miss at same),
    λ is_old. cc (miss, (nat_eq_iff u old).1 (sym (rw miss at same) ∙ is_old)),
  )
]
Elem-replace_final old new v ((k, u) ∷ items) (inr e) =
    elim (Elem-replace_final old new v items e) [ inl same ↦ inl same | inr h ↦ inr (inr h.0, h.1) ]

pub replace_final-Elem :
    (old new v : ℕ) (items : List (ℕ × ℕ))
    → Elem v (refs items)
    → v ≢ old
    → Elem v (refs (replace_final old new items))
unfolding replace_final
replace_final-Elem old new v [] e ne = absurd e
replace_final-Elem old new v ((k, u) ∷ items) (inl same) ne = elim (Bool-cases (nat_eq u old)) [
  | inl hit ↦ absurd (ne (same ∙ (nat_eq_iff u old).0 hit))
  | inr miss ↦ rw miss (inl same)
]
replace_final-Elem old new v ((k, u) ∷ items) (inr e) ne =
    inr (replace_final-Elem old new v items e ne)

pub replaced-Elem :
    (id_of : ℕ → String) (c r v : ℕ) (rs : List ℕ)
    → Apart id_of rs
    → Elem v (replaced c r rs)
    → (v ≡ r) ⊎ (Elem v rs × (v ≢ c))
replaced-Elem id_of c r v [] a e = absurd e
replaced-Elem id_of c r v (x ∷ xs) a e = elim (Bool-cases (nat_eq x c)) [
  | inl hit ↦ elim (rw hit at e) [
    | inl same ↦ inl same
    | inr there ↦ inr (
      inr there,
      λ is_old. Fresh-ne id_of x v xs a.0 there (is_old ∙ sym ((nat_eq_iff x c).0 hit)),
    )
  ]
  | inr miss ↦ elim (rw miss at e) [
    | inl same ↦ inr (inl same, λ is_old. cc (miss, (nat_eq_iff x c).1 (sym same ∙ is_old)))
    | inr there ↦ elim (replaced-Elem id_of c r v xs a.1 there) [
      | inl same ↦ inl same
      | inr h ↦ inr (inr h.0, h.1)
    ]
  ]
]
