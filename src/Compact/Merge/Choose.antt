-- ===== src/Compact/Merge/Choose.antt =====
-- What a round of the merge chooses: the least of the records that the scanners hold next.
use fossil.Base.{
  All, Bool-cases, List, Option, Result, [], ap, arith, false, inl, inr, none, ok, refl, some, suc,
  true, zero, ℕ, ◌+◌, ◌<◌, ◌∙◌, ◌∷◌, ◌≡◌, ◌≤◌, ◌⊎◌,
}
use mathlib.Core.Path.{subst}
use fossil.Bytes.{version_eq, version_lt}
use fossil.Bytes.Order.{version_lt_trans, version_lt_total}
use fossil.Codec.{Record, version_of}
use fossil.Codec.Data.RoundTrip.{AscendingFrom}
use fossil.Codec.Lookup.Found.{version_eq_refl}
use fossil.Compact.Merge.{Scan, Cursor, choose}

-- Runs of time-disjoint intervals, oldest first: each run's blocks lie from where the runs before it
-- end.
abbrev pub Timed : ℕ → List (List Record) → Type 0
Timed start [] = Unit
Timed start (rs ∷ lists) =
    (end : ℕ) × (start ≤ end) × All (λ r. (start ≤ r.block) × (r.block < end)) rs × Timed end lists

-- One list loses its first record.
pub data Takes (r : Record) : ℕ → List (List Record) → List (List Record) → Type 0 where
  here :
      (rs : List Record) (lists : List (List Record)) → Takes r zero ((r ∷ rs) ∷ lists) (rs ∷ lists)
  later :
      (k : ℕ) (rs : List Record) (lists lists' : List (List Record))
      → Takes r k lists lists'
      → Takes r (suc k) (rs ∷ lists) (rs ∷ lists')

-- Every list ascends, and ascends from a record.
abbrev pub Ascending : List (List Record) → Type 0
Ascending = All (AscendingFrom none)

abbrev pub Past : Record → List (List Record) → Type 0
Past r = All (AscendingFrom (some r))

-- All lists are empty.
abbrev pub Empty : List (List Record) → Type 0
Empty = All (λ rs. rs ≡ [])

module _ (Scanner : Type 0) (next : Scan Scanner) where
  -- The scanner answers the records one after the other, and then none.
  abbrev pub Delivers : Scanner → List Record → Type 0
  Delivers scanner [] = (after : Scanner) × (next scanner ≡ ok (none, after))
  Delivers scanner (r ∷ rs) =
      (after : Scanner) × (next scanner ≡ ok (some r, after)) × Delivers after rs

  abbrev pub Ready : Cursor Scanner → List Record → Type 0
  Ready (none, scanner) [] = Unit
  Ready (none, scanner) (q ∷ rs) = ⊥
  Ready (some r, scanner) [] = ⊥
  Ready (some r, scanner) (q ∷ rs) = (q ≡ r) × Delivers scanner rs

  abbrev pub AllReady : List (Cursor Scanner) → List (List Record) → Type 0
  AllReady [] [] = Unit
  AllReady [] (rs ∷ lists) = ⊥
  AllReady (cursor ∷ cursors) [] = ⊥
  AllReady (cursor ∷ cursors) (rs ∷ lists) = Ready cursor rs × AllReady cursors lists

  -- A least record is found in one of the lists.
  abbrev pub Found : Result (Option (ℕ × Record)) → ℕ → List (List Record) → Record → Type 0
  Found result index lists r =
      (k : ℕ) × (lists' : List (List Record)) × (result ≡ ok (some (index + k, r)))
      × Takes r k lists lists'
      × Past r lists'

  step_index :
      (result : Result (Option (ℕ × Record))) (index k : ℕ) (r : Record)
      → result ≡ ok (some (suc index + k, r))
      → result ≡ ok (some (index + suc k, r))
  step_index result index k r e = e ∙ ap (λ n. ok (some (n, r))) (omega arith)

  greater :
      (r c : Record)
      → version_eq (version_of r) (version_of c) ≡ false
      → version_lt (version_of r) (version_of c) ≡ false
      → version_lt (version_of c) (version_of r) ≡ true
  greater r c differ not_less = elim (Bool-cases (version_lt (version_of c) (version_of r))) [
    | inl less ↦ less
    | inr no_more ↦
        let same = version_lt_total (version_of r) (version_of c) not_less no_more in
        absurd (cc (differ, version_eq_refl (version_of c), same))
  ]

  other_block :
      (r c : Record) (start : ℕ)
      → c.block < start
      → start ≤ r.block
      → version_eq (version_of r) (version_of c) ≡ false
  unfolding version_eq
  other_block r c start before after = ground arith

  -- What the loop ends with behind a chosen record of an older run: that record, or a lesser one.
  abbrev Rest : Result (Option (ℕ × Record)) → ℕ → ℕ → Record → List (List Record) → Type 0
  Rest result index i c lists =
      ((result ≡ ok (some (i, c))) × Past c lists)
      ⊎ ((r : Record) × Found result index lists r
          × (version_lt (version_of r) (version_of c) ≡ true))

  -- The head of a list that is not less than the chosen record.
  pass_head :
      (result : Result (Option (ℕ × Record))) (q c : Record) (rs : List Record)
      (lists : List (List Record)) (index i : ℕ)
      → version_lt (version_of c) (version_of q) ≡ true
      → AscendingFrom (some q) rs
      → Rest result (suc index) i c lists
      → Rest result index i c ((q ∷ rs) ∷ lists)
  pass_head result q c rs lists index i more a (inl (e, past)) = inl (e, ((more, a), past))
  pass_head result q c rs lists index i more a (inr (r, (k, lists', e, takes, past), less)) = inr (
    r,
    (
      suc k,
      (q ∷ rs) ∷ lists',
      step_index result index k r e,
      later k (q ∷ rs) lists lists' takes,
      ((version_lt_trans (version_of r) (version_of c) (version_of q) less more, a), past),
    ),
    less,
  )

  -- The head of a list becomes the chosen record.
  take_head :
      (result : Result (Option (ℕ × Record))) (q : Record) (rs : List Record)
      (lists : List (List Record)) (index : ℕ)
      → AscendingFrom (some q) rs
      → Rest result (suc index) index q lists
      → (r : Record) × Found result index ((q ∷ rs) ∷ lists) r
        × ((r ≡ q) ⊎ (version_lt (version_of r) (version_of q) ≡ true))
  take_head result q rs lists index a (inl (e, past)) = (
    q,
    (0, rs ∷ lists, e ∙ ap (λ n. ok (some (n, q))) (omega arith), here rs lists, (a, past)),
    inl refl,
  )
  take_head result q rs lists index a (inr (r, (k, lists', e, takes, past), less)) = (
    r,
    (
      suc k,
      (q ∷ rs) ∷ lists',
      step_index result index k r e,
      later k (q ∷ rs) lists lists' takes,
      ((less, a), past),
    ),
    inr less,
  )

  less_of :
      (r q c : Record)
      → (r ≡ q) ⊎ (version_lt (version_of r) (version_of q) ≡ true)
      → version_lt (version_of q) (version_of c) ≡ true
      → version_lt (version_of r) (version_of c) ≡ true
  less_of r q c (inl same) h = rw same h
  less_of r q c (inr less) h = version_lt_trans (version_of r) (version_of q) (version_of c) less h

  -- Behind a chosen record of an older run.
  choose_rest :
      (cursors : List (Cursor Scanner)) (lists : List (List Record)) (index start i : ℕ)
      (c : Record)
      → AllReady cursors lists
      → Timed start lists
      → Ascending lists
      → c.block < start
      → ((choose Scanner cursors index (some (i, c)) ≡ ok (some (i, c))) × Past c lists)
        ⊎ ((r : Record) × Found (choose Scanner cursors index (some (i, c))) index lists r
            × (version_lt (version_of r) (version_of c) ≡ true))
  unfolding choose
  choose_rest [] [] index start i c ready timed asc before = inl (refl, tt)
  choose_rest [] (rs ∷ lists) index start i c ready timed asc before = absurd ready
  choose_rest (cursor ∷ cursors) [] index start i c ready timed asc before = absurd ready
  choose_rest ((none, scanner) ∷ cursors) ([] ∷ lists) index start i c (u, ready)
        (end, le, w, timed) (a, asc) before =
      elim (choose_rest cursors lists (suc index) end i c ready timed asc (omega arith)) [
        | inl (e, past) ↦ inl (e, (tt, past))
        | inr (r, (k, lists', e, takes, past), less) ↦ inr (
          r,
          (suc k, [] ∷ lists', step_index _ index k r e, later k [] lists lists' takes, (tt, past)),
          less,
        )
      ]
  choose_rest ((none, scanner) ∷ cursors) ((q ∷ rs) ∷ lists) index start i c (no_head, ready) timed
        asc before =
      absurd no_head
  choose_rest ((some r, scanner) ∷ cursors) ([] ∷ lists) index start i c (no_head, ready) timed asc
        before =
      absurd no_head
  choose_rest ((some r, scanner) ∷ cursors) ((q ∷ rs) ∷ lists) index start i c ((same, d), ready)
        (end, le, ((lo, hi), w), timed) ((u, a), asc) before =
      let differ = other_block q c start before lo in
      subst
        (λ x.
          Rest (choose Scanner ((some x, scanner) ∷ cursors) index (some (i, c))) index i c
            ((q ∷ rs) ∷ lists))
        same
        (elim (Bool-cases (version_lt (version_of q) (version_of c))) [
          | inl less ↦
              rw (differ, less)
                (let (r, found, order) =
                    take_head _ q rs lists index a
                      (choose_rest cursors lists (suc index) end index q ready timed asc hi) in
                  inr (r, found, less_of r q c order less))
          | inr more ↦
              rw (differ, more)
                (pass_head _ q c rs lists index i (greater q c differ more) a
                  (choose_rest cursors lists (suc index) end i c ready timed asc (omega arith)))
        ])

  -- Over ready scanners of ascending, time-disjoint runs the loop over the heads finds the least
  -- record, from which all lists ascend, unless all are empty.
  pub choose-Found :
      (cursors : List (Cursor Scanner)) (lists : List (List Record)) (index start : ℕ)
      → AllReady cursors lists
      → Timed start lists
      → Ascending lists
      → ((choose Scanner cursors index none ≡ ok none) × Empty lists)
        ⊎ ((r : Record) × Found (choose Scanner cursors index none) index lists r)
  unfolding choose
  choose-Found [] [] index start ready timed asc = inl (refl, tt)
  choose-Found [] (rs ∷ lists) index start ready timed asc = absurd ready
  choose-Found (cursor ∷ cursors) [] index start ready timed asc = absurd ready
  choose-Found ((none, scanner) ∷ cursors) ([] ∷ lists) index start (u, ready) (end, le, w, timed)
        (a, asc) =
      elim (choose-Found cursors lists (suc index) end ready timed asc) [
        | inl (e, empty) ↦ inl (e, (refl, empty))
        | inr (r, (k, lists', e, takes, past)) ↦ inr (
          r,
          (suc k, [] ∷ lists', step_index _ index k r e, later k [] lists lists' takes, (tt, past)),
        )
      ]
  choose-Found ((none, scanner) ∷ cursors) ((q ∷ rs) ∷ lists) index start (no_head, ready) timed
        asc =
      absurd no_head
  choose-Found ((some r, scanner) ∷ cursors) ([] ∷ lists) index start (no_head, ready) timed asc =
      absurd no_head
  choose-Found ((some r, scanner) ∷ cursors) ((q ∷ rs) ∷ lists) index start ((same, d), ready)
        (end, le, ((lo, hi), w), timed) ((u, a), asc) =
      subst
        (λ x.
          ((choose Scanner ((some x, scanner) ∷ cursors) index none ≡ ok none)
            × Empty ((q ∷ rs) ∷ lists))
          ⊎ ((p : Record) × Found (choose Scanner ((some x, scanner) ∷ cursors) index none) index
                ((q ∷ rs) ∷ lists) p))
        same
        (let (p, found, order) =
            take_head _ q rs lists index a
              (choose_rest cursors lists (suc index) end index q ready timed asc hi) in
          inr (p, found))
