-- ===== src/Dedup/Once.antt =====
-- app/domain/services/memory/entity_deduplicator.py, `_result` after `dedup_batch`: every canonical
-- entity once, with all the mentions of the batch.
use boxify_agent.Prelude.{
  String, ℕ, none, some, List, [], ◌∷◌, ◌++◌, ◌≡◌, ◌≢◌, refl, sym, ap, ◌∙◌, arith, All, Elem, map,
  Bool-cases, inl, inr, ◌⊎◌, nat_eq_iff, ◌==◌, eq_iff,
}
use boxify_agent.Dedup.{Deduplicator}
use boxify_agent.Dedup.Batch.{
  State, Deduplication, add_unique, collect, result, dedup_each, dedup_batch,
}
use boxify_agent.Utils.{get_item, same_id}
use boxify_agent.Dedup.Totals.{
  total, Apart, Fresh, total-le, All-lookup, Elem-append-left, Elem-append-right, Apart-snoc,
}
use boxify_agent.Dedup.Kept.{refs, indices, AreKeys}
use boxify_agent.Dedup.Conserved.{mentions, KeptAt}
use boxify_agent.Dedup.Mentions.{Returns, resume-Returns, dedup_each-Before}

abbrev objects : List (String × ℕ) → List ℕ
objects unique = map (λ entry. entry.1) unique

objects-snoc :
    (k : String) (r : ℕ) (unique : List (String × ℕ))
    → objects (unique ++ (k, r) ∷ []) ≡ objects unique ++ r ∷ []
objects-snoc k r [] = refl
objects-snoc k r (entry ∷ unique) = ap (λ t. entry.1 ∷ t) (objects-snoc k r unique)

module _ (id_of : ℕ → String) where
  -- The table's keys are the ids of its objects, which are among `cs`.
  abbrev Keyed : List ℕ → List (String × ℕ) → Type 0
  Keyed cs unique = All (λ entry. (entry.0 ≡ id_of entry.1) × Elem entry.1 cs) unique

  Keyed-snoc :
      (cs : List ℕ) (k : String) (r : ℕ) (unique : List (String × ℕ))
      → Keyed cs unique
      → k ≡ id_of r
      → Elem r cs
      → Keyed cs (unique ++ (k, r) ∷ [])
  Keyed-snoc cs k r [] h same e = ((same, e), tt)
  Keyed-snoc cs k r (entry ∷ unique) h same e = (h.0, Keyed-snoc cs k r unique h.1 same e)

  objects-Elem :
      (cs : List ℕ) (unique : List (String × ℕ)) (v : ℕ)
      → Keyed cs unique
      → Elem v (objects unique)
      → Elem v cs
  objects-Elem cs [] v h e = absurd e
  objects-Elem cs (entry ∷ unique) v h (inl same) = rw same h.0.1
  objects-Elem cs (entry ∷ unique) v h (inr e) = objects-Elem cs unique v h.1 e

  Apart-injective :
      (cs : List ℕ) (u v : ℕ) → Apart id_of cs → Elem u cs → Elem v cs → id_of u ≡ id_of v → u ≡ v
  Apart-injective [] u v a e f same = absurd e
  Apart-injective (c ∷ cs) u v a (inl p) (inl q) same = p ∙ sym q
  Apart-injective (c ∷ cs) u v a (inl p) (inr f) same =
      absurd (All-lookup (λ o. id_of c ≢ id_of o) v cs a.0 f (ap id_of (sym p) ∙ same))
  Apart-injective (c ∷ cs) u v a (inr e) (inl q) same =
      absurd (All-lookup (λ o. id_of c ≢ id_of o) u cs a.0 e (ap id_of (sym q) ∙ sym same))
  Apart-injective (c ∷ cs) u v a (inr e) (inr f) same = Apart-injective cs u v a.1 e f same

  -- What a look-up by the id of `r` finds.
  get_item-cases :
      (cs : List ℕ) (r : ℕ) (unique : List (String × ℕ))
      → Keyed cs unique
      → ((get_item same_id (id_of r) unique ≡ none) × Fresh id_of r (objects unique))
        ⊎ ((u : ℕ) × (get_item same_id (id_of r) unique ≡ some u)
            × Elem u (objects unique)
            × (id_of u ≡ id_of r))
  get_item-cases cs r [] h = inl (refl, tt)
  get_item-cases cs r ((k, u) ∷ unique) h = elim (Bool-cases (k == id_of r)) [
    | inl hit ↦ rw hit (inr (u, refl, inl refl, sym h.0.0 ∙ (eq_iff k (id_of r)).0 hit))
    | inr miss ↦ elim (get_item-cases cs r unique h.1) [
      | inl gone ↦
          rw miss
            (inl (gone.0, ((λ same. cc (miss, (eq_iff k (id_of r)).1 (h.0.0 ∙ sym same))), gone.1)))
      | inr there ↦ rw miss (inr (there.0, there.1, inr there.2, there.3))
    ]
  ]

module _ {F : Type 0} (d : Deduplicator F) (id_of : ℕ → String) (cs : List ℕ) where
  -- The loop of `_result` merges nothing: its table comes to hold every object of the items.
  record Collected (items : List (ℕ × ℕ)) (unique : List (String × ℕ)) (st : State F) : Type 0 where
    out : List (String × ℕ)
    same : collect d items (unique, st) ≡ (out, st)
    keyed : Keyed id_of cs out
    apart : Apart id_of (objects out)
    keeps : (v : ℕ) → Elem v (objects unique) → Elem v (objects out)
    takes : (v : ℕ) → Elem v (refs items) → Elem v (objects out)

  collect-Collected :
      (items : List (ℕ × ℕ)) (unique : List (String × ℕ)) (st : State F)
      → ((o : ℕ) → (st.heap o).id ≡ id_of o)
      → Apart id_of cs
      → All (λ v. Elem v cs) (refs items)
      → Keyed id_of cs unique
      → Apart id_of (objects unique)
      → Collected items unique st
  unfolding collect add_unique
  collect-Collected [] unique st ids a sub k u = record {
    out = unique;
    same = refl;
    keyed = k;
    apart = u;
    keeps = λ v e. e;
    takes = λ v e. absurd e;
  }
  collect-Collected ((idx, r) ∷ items) unique st ids a sub k u =
      elim (get_item-cases id_of cs r unique k) [
        | inl gone ↦
            let found : get_item same_id (st.heap r).id unique ≡ none = rw (ids r) gone.0 in
            let snoc = objects-snoc (st.heap r).id r unique in
            let rest =
              collect-Collected items (unique ++ ((st.heap r).id, r) ∷ []) st ids a sub.1
                (Keyed-snoc id_of cs (st.heap r).id r unique k (ids r) sub.0)
                (rw snoc (Apart-snoc id_of r (objects unique) gone.1 u)) in
            record {
              out = rest.out;
              same = rw found rest.same;
              keyed = rest.keyed;
              apart = rest.apart;
              keeps =
                  λ v e. rest.keeps v (rw snoc (Elem-append-left v (objects unique) (r ∷ []) e));
              takes = λ v e'. elim e' [
                | inl new ↦
                    rest.keeps v (rw snoc (Elem-append-right v (objects unique) (r ∷ []) (inl new)))
                | inr e ↦ rest.takes v e
              ];
            }
        | inr there ↦
            let same_object =
              Apart-injective id_of cs there.0 r a (objects-Elem id_of cs unique there.0 k there.2)
                sub.0 there.3 in
            let rest = collect-Collected items unique st ids a sub.1 k u in
            record {
              out = rest.out;
              same = rw (ids r, there.1, (nat_eq_iff there.0 r).1 same_object) rest.same;
              keyed = rest.keyed;
              apart = rest.apart;
              keeps = rest.keeps;
              takes = λ v e'. elim e' [
                | inl new ↦ rest.keeps v (rw (new, sym same_object) there.2)
                | inr e ↦ rest.takes v e
              ];
            }
      ]

module _ {F : Type 0} (d : Deduplicator F) where
  -- The mentions of the listed entities add up to `whole`.
  abbrev pub AddUp : ℕ → Deduplication → State F → Type 0
  AddUp whole found st = total (mentions st.heap) found.entities ≡ whole

  result-AddUp :
      (id_of : ℕ → String) (whole : ℕ) (st : State F)
      → KeptAt d id_of whole [] st
      → Returns (AddUp whole) (result d st)
  unfolding result
  result-AddUp id_of whole st h =
      let all =
        collect-Collected d id_of (refs st.canonical_items) st.final_by_idx [] st h.same_ids h.apart
          (All-Elem (refs st.final_by_idx) h.listed) tt tt in
      let same = all.same in
      let most =
        total-le id_of (mentions st.heap) (objects all.out) (refs st.canonical_items) all.apart
          (λ v e. objects-Elem id_of (refs st.canonical_items) all.out v all.keyed e) in
      let least =
        total-le id_of (mentions st.heap) (refs st.canonical_items) (objects all.out) h.apart
          (λ v e. all.takes v (h.used v e)) in
      let before = h.sum in rw same (omega arith)
    where
      All-Elem :
          (vs : List ℕ)
          → ((v : ℕ) → Elem v vs → Elem v (refs st.canonical_items))
          → All (λ v. Elem v (refs st.canonical_items)) vs
      All-Elem [] f = tt
      All-Elem (v ∷ vs) f = (f v (inl refl), All-Elem vs (λ u e. f u (inr e)))

  -- If the indices of the batch are distinct, and the ids of its entities are, then `dedup_batch` raises
  -- nothing but a cancellation, and the mentions of the entities that it returns add up to those of the
  -- batch: none is lost and none counts twice.
  pub dedup_batch-AddUp :
      (entity_by_idx : List (ℕ × ℕ)) (st : State F)
      → AreKeys (indices entity_by_idx)
      → Apart (λ o. (st.heap o).id) (refs entity_by_idx)
      → Returns
          (AddUp (total (mentions st.heap) (refs entity_by_idx)))
          (dedup_batch d entity_by_idx st)
  unfolding dedup_batch
  dedup_batch-AddUp entity_by_idx st keys apart =
      let id_of = λ (o : ℕ). (st.heap o).id in
      let whole = total (mentions st.heap) (refs entity_by_idx) in
      let start = record st { canonical_items = []; final_by_idx = []; redirects = [] } in
      resume-Returns (λ _ st'. KeptAt d id_of whole [] st') (AddUp whole)
        (dedup_each d entity_by_idx start) _
        (dedup_each-Before d id_of whole entity_by_idx start record {
          same_ids = λ o. refl;
          apart = tt;
          ahead = tt;
          rest_apart = apart;
          new_keys = tt;
          rest_keys = keys;
          listed = λ v e. e;
          used = λ v e. e;
          sum = omega arith;
        })
        (λ _ st' h. result-AddUp id_of whole st' h)
