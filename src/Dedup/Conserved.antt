-- ===== src/Dedup/Conserved.antt =====
-- app/domain/services/memory/entity_deduplicator.py, `dedup_batch`: the mentions of the canonical
-- entities and of those that are still to come.
use boxify_agent.Prelude.{
  String, ℕ, ◌+◌, List, [], ◌∷◌, ◌++◌, ◌≡◌, ◌≢◌, refl, sym, ap, ◌∙◌, arith, All, Elem, Bool-cases,
  inl, inr, nat_eq, nat_eq_iff, if◌then◌else◌, ◌==◌,
}
use boxify_agent.Dedup.{EntityNode, Deduplicator, merged_into}
use boxify_agent.Dedup.Batch.{
  State, redirect_changed, add_canonical, set_final, replace_item, replace_final, merge_into,
  take_over, join,
}
use boxify_agent.Utils.{put_item}
use boxify_agent.Dedup.Totals.{
  total, put, replaced, total-append, total-replaced, All-replaced, Elem-replaced-new,
  Elem-replaced-other, Elem-append-left, Elem-append-right, Elem-snoc, total-ext, All-map,
  All-lookup, Fresh, Apart, Fresh-ne, total-put-Fresh, total-put, put-same, put-other,
  Apart-replaced, Apart-snoc, All-snoc,
}
use boxify_agent.Dedup.Kept.{
  refs, indices, OtherThan, AreKeys, refs-put, indices-put, refs-snoc, refs-replace_item,
  indices-replace_final, Elem-replace_final, replace_final-Elem, replaced-Elem,
}

abbrev pub mentions : {F : Type 0} → (ℕ → EntityNode F) → ℕ → ℕ
mentions heap o = (heap o).mention_count

-- Before the entities `rest` are taken: no id has changed, no two objects have one id, the indices so
-- far are those of the canonical entities, and the mentions add up to `whole`.
pub record Kept {F : Type 0} (id_of : ℕ → String) (whole : ℕ) (rest : List (ℕ × ℕ))
    (heap : ℕ → EntityNode F) (canonical final : List (ℕ × ℕ)) : Type 0 where
  pub same_ids : (o : ℕ) → (heap o).id ≡ id_of o
  pub apart : Apart id_of (refs canonical)
  pub ahead : All (λ c. Fresh id_of c (refs rest)) (refs canonical)
  pub rest_apart : Apart id_of (refs rest)
  pub new_keys : All (OtherThan (indices rest)) (indices final)
  pub rest_keys : AreKeys (indices rest)
  pub listed : (v : ℕ) → Elem v (refs final) → Elem v (refs canonical)
  pub used : (v : ℕ) → Elem v (refs canonical) → Elem v (refs final)
  pub sum : total (mentions heap) (refs canonical) + total (mentions heap) (refs rest) ≡ whole

module _ {F : Type 0} (d : Deduplicator F) (id_of : ℕ → String) (whole : ℕ) where
  abbrev pub KeptAt : List (ℕ × ℕ) → State F → Type 0
  KeptAt rest st = Kept id_of whole rest st.heap st.canonical_items st.final_by_idx

  redirect_changed-Kept :
      (old new : String) (st : State F) (rest : List (ℕ × ℕ))
      → KeptAt rest st
      → KeptAt rest (redirect_changed old new st)
  redirect_changed-Kept old new st rest h = elim (Bool-cases (old == new)) [
    | inl same ↦ rw same h
    | inr other ↦ rw other h
  ]

  merge_into-id :
      (c r : ℕ) (st : State F) (o : ℕ) → ((merge_into d c r st).heap o).id ≡ (st.heap o).id
  unfolding merge_into merged_into
  merge_into-id c r st o = elim (Bool-cases (nat_eq o c)) [
    | inl hit ↦ rw hit (ap (λ i. (st.heap i).id) (sym ((nat_eq_iff o c).0 hit)))
    | inr miss ↦ rw miss refl
  ]

  merge_into-mentions :
      (c r : ℕ) (st : State F) (o : ℕ)
      → ((merge_into d c r st).heap o).mention_count ≡ (
          if nat_eq o c
          then (st.heap c).mention_count + (st.heap r).mention_count
          else (st.heap o).mention_count)
  unfolding merge_into merged_into
  merge_into-mentions c r st o = elim (Bool-cases (nat_eq o c)) [
    | inl hit ↦ rw hit refl
    | inr miss ↦ rw miss refl
  ]

  -- The sum of the mentions after a merge.
  total-merge_into :
      (c r : ℕ) (st : State F) (rs : List ℕ)
      → total (mentions (merge_into d c r st).heap) rs
        ≡ total (put (mentions st.heap) c (mentions st.heap c + mentions st.heap r)) rs
  total-merge_into c r st rs = total-ext _ _ rs (merge_into-mentions c r st)

  pub join-Kept :
      (idx r c : ℕ) (st : State F) (rest : List (ℕ × ℕ))
      → KeptAt ((idx, r) ∷ rest) st
      → Elem c (refs st.canonical_items)
      → KeptAt rest (join d idx r c st)
  unfolding join
  join-Kept idx r c st rest h e =
      redirect_changed-Kept _ _ (set_final idx c (merge_into d c r st)) rest record {
        same_ids = λ o. merge_into-id c r st o ∙ h.same_ids o;
        apart = h.apart;
        ahead = All-map _ _ (refs st.canonical_items) h.ahead (λ _ f. f.1);
        rest_apart = h.rest_apart.1;
        new_keys = rw (indices-put idx c st.final_by_idx fresh) (
            All-snoc _ idx (indices st.final_by_idx)
              (All-map _ _ (indices st.final_by_idx) h.new_keys (λ _ f. f.1)) h.rest_keys.0);
        rest_keys = h.rest_keys.1;
        listed = λ v there. elim (Elem-snoc v c (refs st.final_by_idx) (rw refs_after at there)) [
          | inl before ↦ h.listed v before
          | inr last ↦ rw last e
        ];
        used = λ v there.
            rw refs_after (Elem-append-left v (refs st.final_by_idx) (c ∷ []) (h.used v there));
        sum =
            let kept =
              total-put id_of (mentions st.heap) c (mentions st.heap c + mentions st.heap r)
                (refs st.canonical_items) e h.apart in
            let later =
              total-put-Fresh id_of (mentions st.heap) c (mentions st.heap c + mentions st.heap r)
                (refs rest) (All-lookup _ c (refs st.canonical_items) h.ahead e).1 in
            let before = h.sum in
            rw
              (
                total-merge_into c r st (refs st.canonical_items),
                total-merge_into c r st (refs rest),
              )
              (omega arith);
      }
    where
      fresh : All (λ k. k ≢ idx) (indices st.final_by_idx)
      fresh = All-map _ _ (indices st.final_by_idx) h.new_keys (λ _ f. f.0)

      refs_after : refs (put_item nat_eq idx c st.final_by_idx) ≡ refs st.final_by_idx ++ c ∷ []
      refs_after = refs-put idx c st.final_by_idx fresh

  -- The entity at the head is of no canonical entity's id.
  head-Fresh :
      (idx r : ℕ) (st : State F) (rest : List (ℕ × ℕ))
      → KeptAt ((idx, r) ∷ rest) st
      → Fresh id_of r (refs st.canonical_items)
  head-Fresh idx r st rest h =
      All-map _ _ (refs st.canonical_items) h.ahead (λ _ f same. f.0 (sym same))

  pub add-Kept :
      (idx r : ℕ) (st : State F) (rest : List (ℕ × ℕ))
      → KeptAt ((idx, r) ∷ rest) st
      → KeptAt rest (set_final idx r (add_canonical idx r st))
  add-Kept idx r st rest h = record {
    same_ids = h.same_ids;
    apart =
        rw cs_after
          (Apart-snoc id_of r (refs st.canonical_items) (head-Fresh idx r st rest h) h.apart);
    ahead = rw cs_after (
        All-snoc _ r (refs st.canonical_items)
          (All-map _ _ (refs st.canonical_items) h.ahead (λ _ f. f.1)) h.rest_apart.0);
    rest_apart = h.rest_apart.1;
    new_keys = rw (indices-put idx r st.final_by_idx fresh) (
        All-snoc _ idx (indices st.final_by_idx)
          (All-map _ _ (indices st.final_by_idx) h.new_keys (λ _ f. f.1)) h.rest_keys.0);
    rest_keys = h.rest_keys.1;
    listed = λ v there.
        rw cs_after (elim (Elem-snoc v r (refs st.final_by_idx) (rw refs_after at there)) [
          | inl before ↦ Elem-append-left v (refs st.canonical_items) (r ∷ []) (h.listed v before)
          | inr last ↦ Elem-append-right v (refs st.canonical_items) (r ∷ []) (inl last)
        ]);
    used = λ v there.
        rw refs_after (elim (Elem-snoc v r (refs st.canonical_items) (rw cs_after at there)) [
          | inl before ↦ Elem-append-left v (refs st.final_by_idx) (r ∷ []) (h.used v before)
          | inr last ↦ Elem-append-right v (refs st.final_by_idx) (r ∷ []) (inl last)
        ]);
    sum =
        let split = total-append (mentions st.heap) (refs st.canonical_items) (r ∷ []) in
        let before = h.sum in rw cs_after (omega arith);
  }
    where
      fresh : All (λ k. k ≢ idx) (indices st.final_by_idx)
      fresh = All-map _ _ (indices st.final_by_idx) h.new_keys (λ _ f. f.0)

      refs_after : refs (put_item nat_eq idx r st.final_by_idx) ≡ refs st.final_by_idx ++ r ∷ []
      refs_after = refs-put idx r st.final_by_idx fresh

      cs_after : refs (st.canonical_items ++ (idx, r) ∷ []) ≡ refs st.canonical_items ++ r ∷ []
      cs_after = refs-snoc idx r st.canonical_items

  pub take_over-Kept :
      (idx r c : ℕ) (st : State F) (rest : List (ℕ × ℕ))
      → KeptAt ((idx, r) ∷ rest) st
      → Elem c (refs st.canonical_items)
      → KeptAt rest (take_over d idx r c st)
  unfolding take_over
  take_over-Kept idx r c st rest h e = record {
    same_ids = λ o. merge_into-id r c st o ∙ h.same_ids o;
    apart =
        rw cs_after
          (Apart-replaced id_of c r (refs st.canonical_items) (head-Fresh idx r st rest h) h.apart);
    ahead = rw cs_after (
        All-replaced _ c r (refs st.canonical_items) h.rest_apart.0
          (All-map _ _ (refs st.canonical_items) h.ahead (λ _ f. f.1)));
    rest_apart = h.rest_apart.1;
    new_keys =
        rw (indices-put idx r (replace_final c r st.final_by_idx) fresh, same_keys)
          (All-snoc _ idx (indices st.final_by_idx)
            (All-map _ _ (indices st.final_by_idx) h.new_keys (λ _ f. f.1)) h.rest_keys.0);
    rest_keys = h.rest_keys.1;
    listed = λ v there.
        rw cs_after
          (elim (Elem-snoc v r (refs (replace_final c r st.final_by_idx))
            (rw refs_after at there)) [
              | inl before ↦ elim (Elem-replace_final c r v st.final_by_idx before) [
                | inl new ↦ rw new (Elem-replaced-new c r (refs st.canonical_items) e)
                | inr old ↦
                    Elem-replaced-other c r v (refs st.canonical_items) (h.listed v old.0) old.1
              ]
              | inr last ↦ rw last (Elem-replaced-new c r (refs st.canonical_items) e)
            ]);
    used = λ v there.
        rw refs_after
          (elim (replaced-Elem id_of c r v (refs st.canonical_items) h.apart
            (rw cs_after at there)) [
              | inl new ↦
                  Elem-append-right v (refs (replace_final c r st.final_by_idx)) (r ∷ []) (inl new)
              | inr old ↦
                  Elem-append-left v (refs (replace_final c r st.final_by_idx)) (r ∷ [])
                    (replace_final-Elem c r v st.final_by_idx (h.used v old.0) old.1)
            ]);
    sum =
        let w = mentions st.heap in
        let v = w r + w c in
        let swap = total-replaced (put w r v) c r (refs st.canonical_items) e in
        let new = put-same w r v in
        let old =
          put-other w r v c
            (Fresh-ne id_of r c (refs st.canonical_items) (head-Fresh idx r st rest h) e) in
        let now =
          total-put-Fresh id_of w r v (refs st.canonical_items) (head-Fresh idx r st rest h) in
        let later = total-put-Fresh id_of w r v (refs rest) h.rest_apart.0 in
        let before = h.sum in
        rw
          (
            cs_after,
            total-merge_into r c st (replaced c r (refs st.canonical_items)),
            total-merge_into r c st (refs rest),
          )
          (omega arith);
  }
    where
      same_keys : indices (replace_final c r st.final_by_idx) ≡ indices st.final_by_idx
      same_keys = indices-replace_final c r st.final_by_idx

      fresh : All (λ k. k ≢ idx) (indices (replace_final c r st.final_by_idx))
      fresh = rw same_keys (All-map _ _ (indices st.final_by_idx) h.new_keys (λ _ f. f.0))

      refs_after :
          refs (put_item nat_eq idx r (replace_final c r st.final_by_idx))
          ≡ refs (replace_final c r st.final_by_idx) ++ r ∷ []
      refs_after = refs-put idx r (replace_final c r st.final_by_idx) fresh

      cs_after :
          refs (replace_item c idx r st.canonical_items) ≡ replaced c r (refs st.canonical_items)
      cs_after = refs-replace_item c idx r st.canonical_items
