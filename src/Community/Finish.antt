-- ===== src/Community/Finish.antt =====
-- app/domain/services/memory/community_clusterer.py: what `_flush_labels` writes.
use mathlib.Core.List.{append_assoc, append-nil}
use boxify_agent.Prelude.{
  String, ℕ, false, some, List, [], ◌∷◌, ◌++◌, ◌≡◌, refl, sym, ap, ◌∙◌, subst, map, find, inl, inr,
  ◌⊎◌, ◌↔◌, if◌then◌else◌, ◌==◌, is_none, eq_iff, Elem, All, Bool-cases,
}
use boxify_agent.Prelude.Text.{codes, starts_with}
use boxify_agent.Utils.{get_item, same_id}
use boxify_agent.Result.{Result, ok, err, Exec, resume}
use boxify_agent.Community.{
  GraphCall, upsert_community, assign_entity_community, refresh_community_member_count, Clusterer,
  State, writing, written, community_id_for_label,
}
use boxify_agent.Community.Cluster.{
  distinct, upsert_each, refresh_each, assign_each, community_by_label, label_communities,
  flush_labels,
}

found-Elem :
    (label : String) (seen : List String)
    → is_none (find (same_id label) seen) ≡ false
    → Elem label seen
found-Elem label [] h = cc h
found-Elem label (x ∷ xs) h = elim (Bool-cases (label == x)) [
  | inl same ↦ inl ((eq_iff label x).0 same)
  | inr other ↦ inr (found-Elem label xs (rw other at h))
]

-- `distinct` leaves the elements.
Elem-distinct : (x : String) (seen xs : List String) → Elem x (distinct seen xs) → Elem x xs
unfolding distinct
Elem-distinct x seen [] m = m
Elem-distinct x seen (l ∷ ls) m = elim (Bool-cases (is_none (find (same_id l) seen))) [
  | inl new ↦
      let m' : (x ≡ l) ⊎ Elem x (distinct (l ∷ seen) ls) = rw new at m in
      elim m' [ inl e ↦ inl e | inr later ↦ inr (Elem-distinct x (l ∷ seen) ls later) ]
  | inr old ↦ inr (Elem-distinct x seen ls (rw old at m))
]

distinct-Elem :
    (x : String) (seen xs : List String) → Elem x xs → Elem x seen ⊎ Elem x (distinct seen xs)
unfolding distinct
distinct-Elem x seen [] m = absurd m
distinct-Elem x seen (l ∷ ls) (inl e) = elim (Bool-cases (is_none (find (same_id l) seen))) [
  | inl new ↦ rw new (inr (inl e))
  | inr old ↦ inl (subst (λ y. Elem y seen) (sym e) (found-Elem l seen old))
]
distinct-Elem x seen (l ∷ ls) (inr m) = elim (Bool-cases (is_none (find (same_id l) seen))) [
  | inl new ↦ rw new (elim (distinct-Elem x (l ∷ seen) ls m) [
    | inl (inl e) ↦ inr (inl e)
    | inl (inr before) ↦ inl before
    | inr later ↦ inr (inr later)
  ])
  | inr old ↦ rw old (distinct-Elem x seen ls m)
]

module _ {A B : Type 0} (f : A → B) where
  Elem-map : (y : B) (xs : List A) → Elem y (map f xs) → (x : A) × Elem x xs × (y ≡ f x)
  Elem-map y [] m = absurd m
  Elem-map y (x ∷ xs) (inl e) = (x, inl refl, e)
  Elem-map y (x ∷ xs) (inr m) = let (z, there, e) = Elem-map y xs m in (z, inr there, e)

  map-Elem : (y : B) (x : A) (xs : List A) → Elem x xs → y ≡ f x → Elem y (map f xs)
  map-Elem y x [] m e = absurd m
  map-Elem y x (z ∷ zs) (inl same) e = inl (e ∙ ap f same)
  map-Elem y x (z ∷ zs) (inr m) e = inr (map-Elem y x zs m e)

module _ {F : Type 0} (c : Clusterer F) where
  -- The community of a label: a label that is one already, or the stable id that is made of it.
  abbrev pub community_of : String → String
  community_of label =
      if starts_with (codes "community-") (codes label) then label else c.stable_id label

  -- The value and the state meet a condition, or the graph repository has raised the error.
  abbrev pub Ends : {A : Type 0} → (A → State → Type 0) → Result A × State → Type 0
  Ends P (ok a, st) = P a st
  Ends P (err e, st) = (n : ℕ) × (call : GraphCall) × (c.write n call ≡ err e)

  resume-Ends :
      {A B : Type 0} (P : A → State → Type 0) (Q : B → State → Type 0) (r : Result A × State)
      (k : A → Exec State B)
      → Ends P r
      → ((a : A) (st : State) → P a st → Ends Q (k a st))
      → Ends Q (resume r k)
  resume-Ends P Q (ok a, st) k h next = next a st h
  resume-Ends P Q (err e, st) k h next = h

  -- A call that returns has added these writes.
  abbrev Wrote : {A : Type 0} → State → List GraphCall → A → State → Type 0
  Wrote before calls a after = after.writes ≡ before.writes ++ calls

  writing-Wrote : (call : GraphCall) (st : State) → Ends (Wrote st (call ∷ [])) (writing c call st)
  unfolding writing
  writing-Wrote call st = go (c.write st.calls call) refl
    where
      go :
          (r : Result (Unit {0}))
          → c.write st.calls call ≡ r
          → Ends (Wrote st (call ∷ [])) (written call st r)
      go (ok _) same = refl
      go (err e) same = (st.calls, call, same)

  after-Wrote :
      {A : Type 0} (xs ys : List GraphCall) (st st' : State) (r : Result A × State)
      → st'.writes ≡ st.writes ++ xs
      → Ends (Wrote st' ys) r
      → Ends (Wrote st (xs ++ ys)) r
  after-Wrote xs ys st st' (ok a, st'') here there =
      there ∙ ap (λ t. t ++ ys) here ∙ append_assoc st.writes xs ys
  after-Wrote xs ys st st' (err e, st'') here there = there

  -- Some writes, and then more.
  then-Wrote :
      {A B : Type 0} (xs ys : List GraphCall) (st : State) (r : Result B × State)
      (k : B → Exec State A)
      → Ends (Wrote st xs) r
      → ((b : B) (st' : State) → Ends (Wrote st' ys) (k b st'))
      → Ends (Wrote st (xs ++ ys)) (resume r k)
  then-Wrote xs ys st r k first next =
      resume-Ends (Wrote st xs) (Wrote st (xs ++ ys)) r k first
        (λ b st' here. after-Wrote xs ys st st' (k b st') here (next b st'))

  abbrev upserts : List String → List GraphCall
  upserts ids = map (λ id. upsert_community id) ids

  abbrev refreshes : List String → List GraphCall
  refreshes ids = map (λ id. refresh_community_member_count id) ids

  upsert_each-Wrote :
      (ids : List String) (st : State) → Ends (Wrote st (upserts ids)) (upsert_each c ids st)
  unfolding upsert_each
  upsert_each-Wrote [] st = sym (append-nil st.writes)
  upsert_each-Wrote (id ∷ ids) st =
      then-Wrote (upsert_community id ∷ []) (upserts ids) st (writing c (upsert_community id) st) _
        (writing-Wrote (upsert_community id) st) (λ _ st'. upsert_each-Wrote ids st')

  refresh_each-Wrote :
      (ids : List String) (st : State) → Ends (Wrote st (refreshes ids)) (refresh_each c ids st)
  unfolding refresh_each
  refresh_each-Wrote [] st = sym (append-nil st.writes)
  refresh_each-Wrote (id ∷ ids) st =
      then-Wrote (refresh_community_member_count id ∷ []) (refreshes ids) st
        (writing c (refresh_community_member_count id) st) _
        (writing-Wrote (refresh_community_member_count id) st) (λ _ st'. refresh_each-Wrote ids st')

  -- The assignment of an entity to the community of its label.
  abbrev pub assignment : String × String → GraphCall
  assignment (entity_id, label) = assign_entity_community entity_id (community_of label)

  -- The table has the community of every label.
  abbrev Known : List (String × String) → List (String × String) → Type 0
  Known table labels =
      All (λ entry. get_item same_id entry.1 table ≡ some (community_of entry.1)) labels

  assign_each-Wrote :
      (table labels : List (String × String)) (st : State)
      → Known table labels
      → Ends (Wrote st (map assignment labels)) (assign_each c table labels st)
  unfolding assign_each
  assign_each-Wrote table [] st known = sym (append-nil st.writes)
  assign_each-Wrote table ((entity_id, label) ∷ labels) st known =
      let call = assign_entity_community entity_id (community_of label) in
      rw known.0 (
        then-Wrote (call ∷ []) (map assignment labels) st (writing c call st) _
          (writing-Wrote call st) (λ _ st'. assign_each-Wrote table labels st' known.1))

  abbrev named : String → String × String
  named label = (label, community_of label)

  abbrev table_of : List String → List (String × String)
  table_of labels = map named labels

  get_item-table_of :
      (label : String) (xs : List String)
      → Elem label xs
      → get_item same_id label (table_of xs) ≡ some (community_of label)
  get_item-table_of label [] m = absurd m
  get_item-table_of label (x ∷ xs) m = elim (Bool-cases (x == label)) [
    | inl same ↦ rw same (ap (λ l. some (community_of l)) ((eq_iff x label).0 same))
    | inr other ↦ elim m [
      | inl e ↦ cc (other, (eq_iff x label).1 (sym e))
      | inr there ↦ rw other (get_item-table_of label xs there)
    ]
  ]

  -- The labels that are given.
  abbrev values : List (String × String) → List String
  values labels = map (λ entry. entry.1) labels

  table_of-Known :
      (xs : List String) (labels : List (String × String))
      → ((label : String) → Elem label (values labels) → Elem label xs)
      → Known (table_of xs) labels
  table_of-Known xs [] h = tt
  table_of-Known xs ((entity_id, label) ∷ labels) h = (
    get_item-table_of label xs (h label (inl refl)),
    table_of-Known xs labels (λ l m. h l (inr m)),
  )

  -- The writes of `_flush_labels`, and its answer: each community of a label, and no other.
  abbrev pub Flushed : List (String × String) → State → Result (List String) × State → Type 0
  Flushed labels before r =
      Ends
        (λ ids after.
          (after.writes
            ≡ before.writes
              ++ (map (λ id. upsert_community id) ids
                  ++ (map assignment labels ++ map (λ id. refresh_community_member_count id) ids)))
          × ((id : String)
              → Elem id ids
                ↔ ((entry : String × String) × Elem entry labels × (id ≡ community_of entry.1))))
        r

  module _ (labels : List (String × String)) where
    abbrev walked : List String
    walked = c.set_order (distinct [] (values labels))

    abbrev ids_of : List String
    ids_of = map (λ (entry : String × String). entry.1) (table_of walked)

    Elem-walked : (label : String) → Elem label walked ↔ Elem label (values labels)
    Elem-walked label =
        let order = c.Elem-set_order (distinct [] (values labels)) label in
        (
          λ m. Elem-distinct label [] (values labels) (order.0 m),
          λ m. elim (distinct-Elem label [] (values labels) m) [
            | inl nowhere ↦ absurd nowhere
            | inr there ↦ order.1 there
          ],
        )

    Elem-ids_of :
        (id : String)
        → Elem id ids_of
          ↔ ((entry : String × String) × Elem entry labels × (id ≡ community_of entry.1))
    Elem-ids_of id = (
      λ m.
          let (pair, in_table, e) = Elem-map (λ entry. entry.1) id (table_of walked) m in
          let (label, in_walked, e') = Elem-map named pair walked in_table in
          let (entry, there, e'') =
            Elem-map (λ x. x.1) label labels ((Elem-walked label).0 in_walked) in
          (entry, there, e ∙ ap (λ x. x.1) e' ∙ ap community_of e''),
      λ (entry, there, e).
          map-Elem (λ x. x.1) id (named entry.1) (table_of walked)
            (map-Elem named (named entry.1) entry.1 walked
              ((Elem-walked entry.1).1 (map-Elem (λ x. x.1) entry.1 entry labels there refl)) refl)
            e,
    )

  -- Whatever the order of a set, `_flush_labels` raises nothing but what the graph repository raises; if it
  -- returns, its answer has the community of every label and no other, and its writes are exactly these
  -- communities, then for every entity in order the community of its label, then the counts of the communities.
  pub flush_labels-Flushed :
      (labels : List (String × String)) (st : State) → Flushed labels st (flush_labels c labels st)
  unfolding flush_labels label_communities community_by_label community_id_for_label
  flush_labels-Flushed labels st =
      let ids = ids_of labels in
      let table = table_of (walked labels) in
      resume-Ends (Wrote st (upserts ids)) _ (upsert_each c ids st) _ (upsert_each-Wrote ids st)
        (λ _ st1 one.
          resume-Ends (Wrote st1 (map assignment labels)) _ (assign_each c table labels st1) _
            (assign_each-Wrote table labels st1
              (table_of-Known (walked labels) labels (λ l. (Elem-walked labels l).1)))
            (λ _ st2 two.
              resume-Ends (Wrote st2 (refreshes ids)) _ (refresh_each c ids st2) _
                (refresh_each-Wrote ids st2)
                (λ _ st3 three. (
                  three
                      ∙ ap (λ t. t ++ refreshes ids)
                          (two ∙ ap (λ t. t ++ map assignment labels) one)
                      ∙ (append_assoc (st.writes ++ upserts ids) (map assignment labels)
                            (refreshes ids)
                          ∙ append_assoc st.writes (upserts ids)
                              (map assignment labels ++ refreshes ids)),
                  Elem-ids_of labels,
                ))))
