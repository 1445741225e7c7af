-- ===== src/Community/Ends.antt =====
-- app/domain/services/memory/community_clusterer.py: every `while` of `_merge_communities` ends, and at least one
-- community is left.
use boxify_agent.Prelude.{
  String, ℕ, suc, ◌-◌, ◌≤◌, Option, none, some, List, [], ◌∷◌, ◌++◌, ◌≡◌, ◌≢◌, refl, sym, ap, ◌∙◌,
  arith, eq_iff, All, Elem, length, Bool-cases, inl, inr, ◌==◌, leb,
}
use boxify_agent.Result.{Exec, IfReturns, resume-IfReturns, skip-IfReturns}
use boxify_agent.Utils.{put_item, get_item, same_id, cosine_similarity}
use boxify_agent.Community.{
  CommunityMember, Clusterer, State, writing, refresh_community_member_count,
}
use boxify_agent.Community.Merge.{
  size_of, Merging, dissolve_into, merge_roots, merge_found, merge_pair, merge_with_each, merge_all,
  merge_communities, read_members, read_averages, sizes_of, average_of, going_on, assign_members,
  list_or_nil, merged_count,
}
use boxify_agent.Community.Roots.{Acyclic, Absent, root_of-ends, put_item-Absent, Acyclic-snoc}

-- A member of a list, and the others.
split_Elem :
    (x : String) (ys : List String)
    → Elem x ys
    → (rest : List String) × (length ys ≡ suc (length rest))
      × ((v : String) → Elem v ys → v ≢ x → Elem v rest)
split_Elem x [] e = absurd e
split_Elem x (y ∷ ys) (inl same) = (ys, refl, others)
  where
    others : (v : String) → Elem v (y ∷ ys) → v ≢ x → Elem v ys
    others v (inl here) ne = absurd (ne (here ∙ sym same))
    others v (inr there) ne = there
split_Elem x (y ∷ ys) (inr e) =
    let found = split_Elem x ys e in
    (y ∷ found.0, ap (λ (n : ℕ). suc n) found.1, others found.0 found.2)
  where
    others :
        (rest : List String)
        → ((v : String) → Elem v ys → v ≢ x → Elem v rest)
        → (v : String) → Elem v (y ∷ ys)
        → v ≢ x
        → Elem v (y ∷ rest)
    others rest keeps v (inl here) ne = inl here
    others rest keeps v (inr there) ne = inr (keeps v there ne)

-- Dissolved communities among `ids`, each once.
abbrev InIds : List String → List (String × String) → Type 0
InIds ids m = All (λ e. Elem e.0 ids × Elem e.1 ids) m

-- Distinct members of a list are no more than it has.
keys_length :
    (m : List (String × String)) (ids : List String)
    → Acyclic m
    → All (λ e. Elem e.0 ids) m
    → length m ≤ length ids
keys_length [] ids a h = omega arith
keys_length ((d, k) ∷ m) ids a h =
    let found = split_Elem d ids h.0 in
    let rest = keys_length m found.0 a.2 (others m found.0 found.2 a.1 h.1) in
    let whole = found.1 in omega arith
  where
    others :
        (es : List (String × String)) (rest : List String)
        → ((v : String) → Elem v ids → v ≢ d → Elem v rest)
        → All (λ e. (e.0 ≢ d) × (e.1 ≢ d)) es
        → All (λ e. Elem e.0 ids) es
        → All (λ e. Elem e.0 rest) es
    others [] rest keeps ne h = tt
    others (e ∷ es) rest keeps ne h = (keeps e.0 h.0 ne.0.0, others es rest keeps ne.1 h.1)

-- With a community that is not dissolved, there are fewer.
fewer :
    (m : List (String × String)) (ids : List String) (y : String)
    → Acyclic m
    → InIds ids m
    → Elem y ids
    → Absent y m
    → suc (length m) ≤ length ids
fewer m ids y a h e absent =
    let found = split_Elem y ids e in
    let rest = keys_length m found.0 a (others m found.0 found.2 absent h) in
    let whole = found.1 in omega arith
  where
    others :
        (es : List (String × String)) (rest : List String)
        → ((v : String) → Elem v ids → v ≢ y → Elem v rest)
        → Absent y es
        → InIds ids es
        → All (λ e. Elem e.0 rest) es
    others [] rest keeps ne h = tt
    others (e ∷ es) rest keeps ne h = (keeps e.0 h.0.0 ne.0, others es rest keeps ne.1 h.1)

InIds-snoc :
    (ids : List String) (m : List (String × String)) (d k : String)
    → InIds ids m
    → Elem d ids
    → Elem k ids
    → InIds ids (m ++ (d, k) ∷ [])
InIds-snoc ids [] d k h ed ek = ((ed, ek), tt)
InIds-snoc ids (e ∷ m) d k h ed ek = (h.0, InIds-snoc ids m d k h.1 ed ek)

values_in :
    (ids : List String) (m : List (String × String)) → InIds ids m → All (λ e. Elem e.1 ids) m
values_in ids [] h = tt
values_in ids (e ∷ m) h = (h.0.1, values_in ids m h.1)

module _ {F : Type 0} (c : Clusterer F) (ids : List String)
    (members : List (String × List (CommunityMember F))) (averages : List (String × List F)) where
  abbrev Sound : Merging → Type 0
  Sound m = Acyclic m.merged_into × InIds ids m.merged_into

  -- The fuel has not run out, and the table is sound.
  abbrev SoundIf : Option Merging → Type 0
  SoundIf none = ⊥
  SoundIf (some m) = Sound m

  dissolve_into-Sound :
      (keep dissolve : String) (m : Merging) (st : State)
      → Sound m
      → Absent dissolve m.merged_into
      → Absent keep m.merged_into
      → keep ≢ dissolve
      → Elem dissolve ids
      → Elem keep ids
      → IfReturns (λ m' _. Sound m') (dissolve_into c members averages keep dissolve m st)
  unfolding dissolve_into
  dissolve_into-Sound keep dissolve m st h ad ak ne ed ek =
      skip-IfReturns (λ m' _. Sound m')
        (assign_members c keep (list_or_nil (get_item same_id dissolve members)) st) _
        (λ _ st1.
          skip-IfReturns (λ m' _. Sound m') (writing c (refresh_community_member_count keep) st1) _
            (λ _ st2.
              skip-IfReturns (λ m' _. Sound m')
                (writing c (refresh_community_member_count dissolve) st2) _ (λ _ st3. sound)))
    where
      sound :
          Acyclic (put_item same_id dissolve keep m.merged_into)
          × InIds ids (put_item same_id dissolve keep m.merged_into)
      sound = rw (put_item-Absent dissolve keep m.merged_into ad) (
        Acyclic-snoc dissolve keep m.merged_into h.0 ad ak ne,
        InIds-snoc ids m.merged_into dissolve keep h.1 ed ek,
      )

  merge_roots-Sound :
      (left_root right_root : String) (m : Merging) (st : State)
      → Sound m
      → Absent left_root m.merged_into
      → Absent right_root m.merged_into
      → Elem left_root ids
      → Elem right_root ids
      → IfReturns (λ m' _. Sound m') (merge_roots c members averages left_root right_root m st)
  unfolding merge_roots
  merge_roots-Sound l r m st h al ar el er = elim (Bool-cases (l == r)) [
    | inl same ↦ rw same h
    | inr other ↦
        let ne : l ≢ r = λ e. cc (other, (eq_iff l r).1 e) in
        elim (Bool-cases (
          c.floats.at_least c.merge_threshold (
            cosine_similarity c.floats (average_of c members averages l)
              (average_of c members averages r)))) [
                | inl low ↦ rw (other, low) h
                | inr high ↦ elim (Bool-cases (leb (size_of m.sizes r) (size_of m.sizes l))) [
                  | inl left ↦
                      rw (other, high, left) (dissolve_into-Sound l r m st h ar al ne er el)
                  | inr right ↦
                      rw (other, high, right)
                        (dissolve_into-Sound r l m st h al ar (λ e. ne (sym e)) el er)
                ]
              ]
  ]

  merge_pair-Sound :
      (left right : String) (m : Merging) (st : State)
      → Sound m
      → Elem left ids
      → Elem right ids
      → IfReturns (λ o _. SoundIf o) (merge_pair c members averages left right m st)
  unfolding merge_pair merge_found
  merge_pair-Sound left right m st h el er =
      let l =
        root_of-ends m.merged_into (λ x. Elem x ids) left h.0 el
          (values_in ids m.merged_into h.1) in
      let r =
        root_of-ends m.merged_into (λ x. Elem x ids) right h.0 er
          (values_in ids m.merged_into h.1) in
      rw (l.1, r.1)
        (resume-IfReturns (λ m' _. Sound m') (λ o _. SoundIf o)
          (merge_roots c members averages l.0 r.0 m st) _
          (merge_roots-Sound l.0 r.0 m st h l.2 r.2 l.3 r.3) (λ m' st' h'. h'))

  going_on-Sound :
      (rest : Merging → Exec State (Option Merging)) (o : Option Merging) (st : State)
      → SoundIf o
      → ((m : Merging) (st' : State) → Sound m → IfReturns (λ o' _. SoundIf o') (rest m st'))
      → IfReturns (λ o' _. SoundIf o') (going_on c members averages rest o st)
  going_on-Sound rest none st h next = absurd h
  going_on-Sound rest (some m) st h next = next m st h

  merge_with_each-Sound :
      (left : String) (rights : List String) (m : Merging) (st : State)
      → Sound m
      → Elem left ids
      → All (λ x. Elem x ids) rights
      → IfReturns (λ o _. SoundIf o) (merge_with_each c members averages left rights m st)
  unfolding merge_with_each
  merge_with_each-Sound left [] m st h el er = h
  merge_with_each-Sound left (right ∷ rights) m st h el er =
      resume-IfReturns (λ o _. SoundIf o) (λ o _. SoundIf o)
        (merge_pair c members averages left right m st) _
        (merge_pair-Sound left right m st h el er.0)
        (λ o st' h'.
          going_on-Sound (merge_with_each c members averages left rights) o st' h'
            (λ m' st'' h''. merge_with_each-Sound left rights m' st'' h'' el er.1))

  merge_all-Sound :
      (lefts : List String) (m : Merging) (st : State)
      → Sound m
      → All (λ x. Elem x ids) lefts
      → IfReturns (λ o _. SoundIf o) (merge_all c members averages lefts m st)
  unfolding merge_all
  merge_all-Sound [] m st h el = h
  merge_all-Sound (left ∷ rights) m st h el =
      resume-IfReturns (λ o _. SoundIf o) (λ o _. SoundIf o)
        (merge_with_each c members averages left rights m st) _
        (merge_with_each-Sound left rights m st h el.0 el.1)
        (λ o st' h'.
          going_on-Sound (merge_all c members averages rights) o st' h'
            (λ m' st'' h''. merge_all-Sound rights m' st'' h'' el.1))

weaken_in :
    (x : String) (ids xs : List String) → All (λ y. Elem y ids) xs → All (λ y. Elem y (x ∷ ids)) xs
weaken_in x ids [] h = tt
weaken_in x ids (y ∷ ys) h = (inr h.0, weaken_in x ids ys h.1)

ids_in_themselves : (ids : List String) → All (λ x. Elem x ids) ids
ids_in_themselves [] = tt
ids_in_themselves (x ∷ ids) = (inl refl, weaken_in x ids ids (ids_in_themselves ids))

module _ {F : Type 0} (c : Clusterer F) where
  -- No `while` has run out of fuel, and fewer communities were dissolved than there are.
  abbrev pub LeavesOne : List String → Option ℕ → State → Type 0
  LeavesOne ids none st = ⊥
  LeavesOne ids (some merged) st = merged ≤ length ids - 1

  -- Whatever the graph answers, every `while` of `_merge_communities` ends within as many rounds as
  -- communities were dissolved, and one, and if no call raises at least one community is left.
  pub merge_communities-LeavesOne :
      (ids : List String) (st : State) → IfReturns (LeavesOne ids) (merge_communities c ids st)
  unfolding merge_communities
  merge_communities-LeavesOne [] st = omega arith
  merge_communities-LeavesOne (only ∷ []) st = omega arith
  merge_communities-LeavesOne (first ∷ second ∷ others) st =
      skip-IfReturns (LeavesOne ids) (read_members c ids st) _ (λ members st1.
        skip-IfReturns (LeavesOne ids) (read_averages c members st1) _ (λ averages st2.
          resume-IfReturns (λ o _. SoundIf c ids members averages o) (LeavesOne ids)
            (merge_all c members averages ids
              (record { merged_into = []; sizes = sizes_of c members }) st2)
            _
            (merge_all-Sound c ids members averages ids
              (record { merged_into = []; sizes = sizes_of c members }) st2 (tt, tt)
              (ids_in_themselves ids))
            (λ o st3 h. counted members averages o st3 h)))
    where
      ids : List String
      ids = first ∷ second ∷ others

      counted :
          (members : List (String × List (CommunityMember F))) (averages : List (String × List F))
          (o : Option Merging) (st3 : State)
          → SoundIf c ids members averages o
          → LeavesOne ids (merged_count c o) st3
      counted members averages none st3 h = absurd h
      counted members averages (some m) st3 h =
          let end =
            root_of-ends m.merged_into (λ x. Elem x ids) first h.0 (inl refl)
              (values_in ids m.merged_into h.1) in
          let bound = fewer m.merged_into ids end.0 h.0 h.1 end.3 end.2 in omega arith
