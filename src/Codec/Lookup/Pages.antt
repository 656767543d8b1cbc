-- ===== src/Codec/Lookup/Pages.antt =====
-- Fences over groups of records: the group whose fence is the last at or before the target holds
-- the predecessor in all the groups. A group is a page under a leaf, and a leaf under an internal
-- root.
use fossil.Base.{
  All, Bool-cases, List, Option, Option-cases, [], ap, arith, false, inl, inr, none, refl, some,
  sym, true, ◌++◌, ◌∙◌, ◌∷◌, ◌≡◌,
}
use fossil.Bytes.{Version, version_le, version_lt}
use fossil.Bytes.Order.{version_lt_trans, version_lt_le_trans, lt→version_le}
use fossil.Codec.{Record, Fence, version_of, fence_version}
use fossil.Codec.Data.RoundTrip.{AscendingFrom}
use fossil.Codec.Lookup.{partition_point, before_point, fence_within}
use fossil.Codec.Lookup.Newest.{
  predecessor, predecessor-none, before_point_passes, before_point_fails, lt_of_not_le,
}

abbrev pub Group : Type 0
Group = Fence × List Record

abbrev pub all_records : List Group → List Record
all_records [] = []
all_records ((f, rs) ∷ groups) = rs ++ all_records groups

abbrev pub fences_of : List Group → List Fence
fences_of [] = []
fences_of ((f, rs) ∷ groups) = f ∷ fences_of groups

-- A group begins with the record that its fence names.
abbrev pub Begins : Group → Type 0
Begins (f, []) = ⊥
Begins (f, r ∷ rs) = fence_version f ≡ version_of r

-- The records of the group whose fence `before_point` finds.
unfoldable pub found_group : List Group → Version → Option Group
found_group groups t = before_point (λ (g : Group). fence_within t g.0) groups

predecessor-append_none :
    (xs ys : List Record) (t : Version)
    → predecessor ys t ≡ none
    → predecessor (xs ++ ys) t ≡ predecessor xs t
unfolding predecessor
predecessor-append_none [] ys t h = h
predecessor-append_none (x ∷ xs) ys t h = ground (arith, predecessor-append_none xs ys t h)

predecessor-append_some :
    (xs ys : List Record) (t : Version) (p : Record)
    → predecessor ys t ≡ some p
    → predecessor (xs ++ ys) t ≡ some p
unfolding predecessor
predecessor-append_some [] ys t p h = h
predecessor-append_some (x ∷ xs) ys t p h = ground (arith, predecessor-append_some xs ys t p h)

predecessor_cons :
    (r : Record) (rs : List Record) (t : Version)
    → version_le (version_of r) t ≡ true
    → (p : Record) × (predecessor (r ∷ rs) t ≡ some p)
unfolding predecessor
predecessor_cons r rs t le = elim (Option-cases (predecessor rs t)) [
  | inl e ↦ (r, ground (arith, e, le))
  | inr (p, e) ↦ (p, ground (arith, e))
]

predecessor_head_none :
    (prior : Option Record) (r : Record) (rs : List Record) (t : Version)
    → AscendingFrom prior (r ∷ rs)
    → version_le (version_of r) t ≡ false
    → predecessor (r ∷ rs) t ≡ none
unfolding predecessor
predecessor_head_none prior r rs t (after, asc) gt =
    rw (predecessor-none r rs t asc (lt_of_not_le (version_of r) t gt), gt)

ascending_behind :
    (p r : Record) (xs ys : List Record)
    → AscendingFrom (some p) (xs ++ r ∷ ys)
    → version_lt (version_of p) (version_of r) ≡ true
ascending_behind p r [] ys (after, asc) = after
ascending_behind p r (x ∷ xs) ys (after, asc) =
    version_lt_trans (version_of p) (version_of x) (version_of r) after
      (ascending_behind x r xs ys asc)

pub ascending_rest :
    (prior : Option Record) (xs ys : List Record)
    → AscendingFrom prior (xs ++ ys)
    → (last : Option Record) × AscendingFrom last ys
ascending_rest prior [] ys asc = (prior, asc)
ascending_rest prior (x ∷ xs) ys (after, asc) = ascending_rest (some x) xs ys asc

pub ascending_front :
    (prior : Option Record) (xs ys : List Record)
    → AscendingFrom prior (xs ++ ys)
    → AscendingFrom prior xs
ascending_front prior [] ys asc = tt
ascending_front prior (x ∷ xs) ys (after, asc) = (after, ascending_front (some x) xs ys asc)

-- What the records of the found group, or none, have before the target.
abbrev pub in_group : Option Group → Version → Option Record
in_group none t = none
in_group (some (f, rs)) t = predecessor rs t

-- The first group of some that hold the target begins at or before it.
begins_within :
    (f : Fence) (r : Record) (rs : List Record) (groups : List Group) (t : Version) (g : Group)
    → fence_version f ≡ version_of r
    → found_group ((f, r ∷ rs) ∷ groups) t ≡ some g
    → version_le (version_of r) t ≡ true
unfolding found_group fence_within
begins_within f r rs groups t g b e = elim (Bool-cases (version_le (version_of r) t)) [
  | inl le ↦ le
  | inr gt ↦
      let fails : version_le (fence_version f) t ≡ false = rw b gt in
      absurd
        (cc (e, before_point_fails (λ (g : Group). fence_within t g.0) (f, r ∷ rs) groups fails))
]

-- Where a later group holds the target, the records before it do not matter.
later_group :
    (r : Record) (rs : List Record) (groups : List Group) (t : Version) (g : Group)
    → All Begins groups
    → AscendingFrom (some r) (rs ++ all_records groups)
    → found_group groups t ≡ some g
    → predecessor (all_records groups) t ≡ in_group (some g) t
    → (version_le (version_of r) t ≡ true)
      × (predecessor ((r ∷ rs) ++ all_records groups) t ≡ in_group (some g) t)
later_group r rs [] t g b asc e ih =
    absurd (unfold found_group before_point partition_point in cc e)
later_group r rs ((f, []) ∷ groups) t g (b, bs) asc e ih = absurd b
later_group r rs ((f, r' ∷ rs') ∷ groups) t g (b, bs) asc e ih =
    let le = begins_within f r' rs' groups t g b e in
    let lt = ascending_behind r r' rs (rs' ++ all_records groups) asc in
    let (p, found) = predecessor_cons r' (rs' ++ all_records groups) t le in
    (
      lt→version_le (version_of r) t (version_lt_le_trans (version_of r) (version_of r') t lt le),
      predecessor-append_some (r ∷ rs) (r' ∷ (rs' ++ all_records groups)) t p found
          ∙ sym found
          ∙ ih,
    )

this_group :
    (f : Fence) (r : Record) (rs : List Record) (groups : List Group) (t : Version)
    → fence_version f ≡ version_of r
    → version_le (version_of r) t ≡ true
    → found_group ((f, r ∷ rs) ∷ groups) t
      ≡ elim (found_group groups t) [ some g ↦ some g | none ↦ some (f, r ∷ rs) ]
unfolding found_group fence_within
this_group f r rs groups t b le =
    let within : version_le (fence_version f) t ≡ true = rw b le in
    before_point_passes (λ (g : Group). fence_within t g.0) (f, r ∷ rs) groups within

no_group :
    (f : Fence) (r : Record) (rs : List Record) (groups : List Group) (t : Version)
    → fence_version f ≡ version_of r
    → version_le (version_of r) t ≡ false
    → found_group ((f, r ∷ rs) ∷ groups) t ≡ none
unfolding found_group fence_within
no_group f r rs groups t b gt =
    let beyond : version_le (fence_version f) t ≡ false = rw b gt in
    before_point_fails (λ (g : Group). fence_within t g.0) (f, r ∷ rs) groups beyond

-- The predecessor in all the records is the one in the group that is found.
pub found_group-predecessor :
    (prior : Option Record) (groups : List Group) (t : Version)
    → All Begins groups
    → AscendingFrom prior (all_records groups)
    → predecessor (all_records groups) t ≡ in_group (found_group groups t) t
found_group-predecessor prior [] t b asc =
    unfold predecessor found_group before_point partition_point in refl
found_group-predecessor prior ((f, []) ∷ groups) t (b, bs) asc = absurd b
found_group-predecessor prior ((f, r ∷ rs) ∷ groups) t (b, bs) (after, asc) =
    let (last, rest) = ascending_rest (some r) rs (all_records groups) asc in
    let ih = found_group-predecessor last groups t bs rest in
    elim (Option-cases (found_group groups t)) [
      | inl e ↦
          let empty : predecessor (all_records groups) t ≡ none = ih ∙ ap (λ o. in_group o t) e in
          let here = predecessor-append_none (r ∷ rs) (all_records groups) t empty in
          elim (Bool-cases (version_le (version_of r) t)) [
            | inl le ↦
                here
                ∙ sym (
                    ap (λ o. in_group o t)
                      (this_group f r rs groups t b le
                        ∙ ap
                            (λ (o : Option Group). elim o [
                              | some g ↦ some g
                              | none ↦ some (f, r ∷ rs)
                            ])
                            e))
            | inr gt ↦
                predecessor_head_none prior r (rs ++ all_records groups) t (after, asc) gt
                ∙ sym (ap (λ o. in_group o t) (no_group f r rs groups t b gt))
          ]
      | inr (g, e) ↦
          let (le, found) = later_group r rs groups t g bs asc e (ih ∙ ap (λ o. in_group o t) e) in
          found
          ∙ sym (
              ap (λ o. in_group o t)
                (this_group f r rs groups t b le
                  ∙ ap (λ (o : Option Group). elim o [ some g ↦ some g | none ↦ some (f, r ∷ rs) ])
                      e))
    ]
