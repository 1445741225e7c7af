-- ===== src/Community/Roots.antt =====
-- app/domain/services/memory/community_clusterer.py, `root` in `_merge_communities`: the chains of dissolved
-- communities end.
use boxify_agent.Prelude.{
  String, ℕ, zero, suc, Option, none, some, List, [], ◌∷◌, ◌++◌, ◌≡◌, ◌≢◌, refl, sym, ap, subst,
  ◌∙◌, eq_iff, All, length, Bool-cases, Option-cases, inl, inr, ◌==◌,
}
use boxify_agent.Utils.{put_item, get_item, same_id}
use boxify_agent.Community.Merge.{root, root_of}

-- A dissolved community joins another one, and no later entry names it.
abbrev pub Acyclic : List (String × String) → Type 0
Acyclic [] = Unit {0}
Acyclic ((d, k) ∷ post) = (k ≢ d) × All (λ e. (e.0 ≢ d) × (e.1 ≢ d)) post × Acyclic post

abbrev pub Absent : String → List (String × String) → Type 0
Absent x m = All (λ e. e.0 ≢ x) m

pub get_item-Absent :
    (x : String) (m : List (String × String)) → get_item same_id x m ≡ none → Absent x m
get_item-Absent x [] h = tt
get_item-Absent x ((d, k) ∷ post) h = elim (Bool-cases (d == x)) [
  | inl hit ↦ absurd (cc (rw hit at h))
  | inr miss ↦ (λ e. cc (miss, (eq_iff d x).1 e), get_item-Absent x post (rw miss at h))
]

Absent-get_item :
    (x : String) (m : List (String × String)) → Absent x m → get_item same_id x m ≡ none
Absent-get_item x [] h = refl
Absent-get_item x ((d, k) ∷ post) h = elim (Bool-cases (d == x)) [
  | inl hit ↦ absurd (h.0 ((eq_iff d x).0 hit))
  | inr miss ↦ rw miss (Absent-get_item x post h.1)
]

abbrev text_or : String → Option String → String
text_or s none = s
text_or s (some t) = t

get_item-value :
    (P : String → Type 0) (x v : String) (m : List (String × String))
    → get_item same_id x m ≡ some v
    → All (λ e. P e.1) m
    → P v
get_item-value P x v [] h all = cc h
get_item-value P x v ((d, k) ∷ post) h all = elim (Bool-cases (d == x)) [
  | inl hit ↦ subst P (ap (text_or k) (rw hit at h)) all.0
  | inr miss ↦ get_item-value P x v post (rw miss at h) all.1
]

root-none :
    (f : ℕ) (m : List (String × String)) (x : String)
    → get_item same_id x m ≡ none
    → root (suc f) m x ≡ some x
unfolding root
root-none f m x e = rw (e, root) refl

root-some :
    (f : ℕ) (m : List (String × String)) (x v : String)
    → get_item same_id x m ≡ some v
    → root (suc f) m x ≡ root f m v
unfolding root
root-some f m x v e = rw (e, root) refl

get_item-skip :
    (d k : String) (post : List (String × String)) (x : String)
    → x ≢ d
    → get_item same_id x ((d, k) ∷ post) ≡ get_item same_id x post
get_item-skip d k post x ne = elim (Bool-cases (d == x)) [
  | inl hit ↦ absurd (ne (sym ((eq_iff d x).0 hit)))
  | inr miss ↦ rw miss refl
]

get_item-here :
    (d k : String) (post : List (String × String)) → get_item same_id d ((d, k) ∷ post) ≡ some k
get_item-here d k post = rw ((eq_iff d d).1 refl) refl

-- An entry that nothing leads to does not change a chain.
root-skip :
    (f : ℕ) (d k : String) (post : List (String × String)) (x : String)
    → All (λ e. e.1 ≢ d) post
    → x ≢ d
    → root f ((d, k) ∷ post) x ≡ root f post x
unfolding root
root-skip zero d k post x all ne = refl
root-skip (suc f) d k post x all ne =
    let skip = get_item-skip d k post x ne in
    elim (Option-cases (get_item same_id x post)) [
      | inl gone ↦ root-none f ((d, k) ∷ post) x (skip ∙ gone) ∙ sym (root-none f post x gone)
      | inr (v, found) ↦
          root-some f ((d, k) ∷ post) x v (skip ∙ found)
          ∙ root-skip f d k post v all (get_item-value (λ v. v ≢ d) x v post found all)
          ∙ sym (root-some f post x v found)
    ]

root-more :
    (f : ℕ) (m : List (String × String)) (x y : String)
    → root f m x ≡ some y
    → root (suc f) m x ≡ some y
unfolding root
root-more zero m x y h = cc h
root-more (suc f) m x y h = elim (Option-cases (get_item same_id x m)) [
  | inl gone ↦ root-none (suc f) m x gone ∙ sym (root-none f m x gone) ∙ h
  | inr (v, found) ↦
      root-some (suc f) m x v found ∙ root-more f m v y (sym (root-some f m x v found) ∙ h)
]

-- A chain ends after at most as many steps as there are entries, in a community that is not dissolved and
-- has every property of the first and of those that were joined.
pub root_of-ends :
    (m : List (String × String)) (P : String → Type 0) (x : String)
    → Acyclic m
    → P x
    → All (λ e. P e.1) m
    → (y : String) × (root_of m x ≡ some y) × Absent y m × P y
unfolding root
root_of-ends [] P x a p all = (x, root-none 0 [] x refl, tt, p)
root_of-ends ((d, k) ∷ post) P x a p all = elim (Bool-cases (d == x)) [
  | inl hit ↦
      let next = root_of-ends post (λ z. (z ≢ d) × P z) k a.2 (a.0, all.0) (both post a.1 all.1) in
      let skip = root-skip (suc (length post)) d k post k (values post a.1) a.0 in
      (
        next.0,
        rw (sym ((eq_iff d x).0 hit)) (
            root-some (suc (length post)) ((d, k) ∷ post) d k (get_item-here d k post)
            ∙ skip
            ∙ next.1),
        ((λ e. next.3.0 (sym e)), next.2),
        next.3.1,
      )
  | inr miss ↦
      let x_ne : x ≢ d = λ e. cc (miss, (eq_iff d x).1 (sym e)) in
      let next = root_of-ends post (λ z. (z ≢ d) × P z) x a.2 (x_ne, p) (both post a.1 all.1) in
      let skip = root-skip (suc (suc (length post))) d k post x (values post a.1) x_ne in
      (
        next.0,
        skip ∙ root-more (suc (length post)) post x next.0 next.1,
        ((λ e. next.3.0 (sym e)), next.2),
        next.3.1,
      )
]
  where
    values :
        (es : List (String × String)) → All (λ e. (e.0 ≢ d) × (e.1 ≢ d)) es → All (λ e. e.1 ≢ d) es
    values [] h = tt
    values (e ∷ es) h = (h.0.1, values es h.1)

    both :
        (es : List (String × String))
        → All (λ e. (e.0 ≢ d) × (e.1 ≢ d)) es
        → All (λ e. P e.1) es
        → All (λ e. (e.1 ≢ d) × P e.1) es
    both [] h q = tt
    both (e ∷ es) h q = ((h.0.1, q.0), both es h.1 q.1)

-- A root that joins another root is a new entry, and leaves no cycle.
pub put_item-Absent :
    (d k : String) (m : List (String × String))
    → Absent d m
    → put_item same_id d k m ≡ m ++ (d, k) ∷ []
put_item-Absent d k [] h = refl
put_item-Absent d k ((x, v) ∷ m) h = elim (Bool-cases (x == d)) [
  | inl hit ↦ absurd (h.0 ((eq_iff x d).0 hit))
  | inr miss ↦ rw miss (ap (λ t. (x, v) ∷ t) (put_item-Absent d k m h.1))
]

pub Acyclic-snoc :
    (d k : String) (m : List (String × String))
    → Acyclic m
    → Absent d m
    → Absent k m
    → k ≢ d
    → Acyclic (m ++ (d, k) ∷ [])
Acyclic-snoc d k [] a hd hk ne = (ne, tt, tt)
Acyclic-snoc d k ((x, v) ∷ m) a hd hk ne = (a.0, snoc m a.1, Acyclic-snoc d k m a.2 hd.1 hk.1 ne)
  where
    snoc :
        (es : List (String × String))
        → All (λ e. (e.0 ≢ x) × (e.1 ≢ x)) es
        → All (λ e. (e.0 ≢ x) × (e.1 ≢ x)) (es ++ (d, k) ∷ [])
    snoc [] h = (((λ e. hd.0 (sym e)), (λ e. hk.0 (sym e))), tt)
    snoc (e ∷ es) h = (h.0, snoc es h.1)
