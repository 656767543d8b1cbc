-- ===== src/Tiered/Compaction/Carry.antt =====
-- The loop over the levels on a valid head: it never exceeds a level's capacity, it stops at the
-- first level with room, and it takes the runs of the levels that it passes, newest level first.
use fossil.Head.Manifest.{Run, max_levels, fanout, unit, flatten_runs}
use fossil.Head.Manifest.Levels.{LevelsFrom, LevelWeight, unit-suc, unit_pos}
use fossil.Tiered.Compaction.Empties.{
  empties, grow_nil, grow_cons, get_or-empties, set-empties, empties_snoc,
}
use fossil.Tiered.Compaction.{Carried, carry, weight_of, push_run}
use fossil.Base.{
  List, Option, Result, [], ap, arith, capacity_exceeded, err, false, if◌then◌else◌, inl, inr, leb,
  length, le→leb, ltb, lt→ltb, none, not, ok, refl, some, suc, sym, too_many_levels, true, zero, ℕ,
  ◌%◌, ◌*◌, ◌++◌, ◌+◌, ◌-◌, ◌<◌, ◌==◌, ◌^◌, ◌∙◌, ◌∷◌, ◌≡◌, ◌≤◌, ◌⊎◌,
}
use mathlib.Core.List.{append_assoc}
use native.Mathlib.Decide.{dec_lt}

-- `back` is what stands above the level `target`.
pub record CarryOk (levels : List (Option Run)) (deeper : List Run) (c : Carried) : Type 0 where
  pub back : List (Option Run)
  pub levels_eq : c.levels ≡ empties c.target ++ none ∷ back
  pub taken : deeper ++ flatten_runs levels ≡ c.deeper ++ flatten_runs back
  pub weights : LevelsFrom (suc c.target) back
  pub fits : LevelWeight c.target c.weight
  pub bounded : c.target < max_levels
  pub depth : suc c.target + length back ≤ max_levels

unit_below : (gap target : ℕ) → target + gap ≡ 7 → unit target ≤ unit 7
unit_below zero target e =
    let last : target ≡ 7 = omega (arith, e) in let same = ap unit last in omega (arith, same)
unit_below (suc gap) target e =
    let rest = unit_below gap (suc target) (omega (arith, e)) in
    omega (arith, rest, unit-suc target)

-- The units of the levels are small.
unit_bound : (target : ℕ) → target < max_levels → 8 * unit target < 2 ^ 64
unit_bound target lt =
    let below = unit_below (7 - target) target (omega (arith, lt)) in
    let last : unit 7 ≡ 4 * 8 ^ 7 = (unfold unit in refl) in omega (arith, below, last)

-- A sum within the capacity of a level does not wrap.
no_wrap : (target sum : ℕ) → target < max_levels → sum ≤ 8 * unit target → sum % 2 ^ 64 ≡ sum
no_wrap target sum lt small = let bound = unit_bound target lt in omega (arith, bound, small)

-- One round at a level: the weight there is the unit of the level, plus that of the run found.
carry_step :
    (fuel target : ℕ) (level : Option Run) (back : List (Option Run)) (deeper : List Run)
    → target < max_levels
    → unit target + weight_of level ≤ 8 * unit target
    → carry (suc fuel) target (unit target) (empties target ++ level ∷ back) deeper ≡ (
        if ltb (unit target + weight_of level) (unit target * fanout)
        then ok (record {
          target = target;
          weight = unit target + weight_of level;
          levels = empties target ++ none ∷ back;
          deeper = push_run deeper level;
        })
        else if not (unit target + weight_of level == unit target * fanout)
        then err capacity_exceeded
        else carry fuel
            (suc target)
            (unit target + weight_of level)
            (empties target ++ none ∷ back)
            (push_run deeper level))
unfolding carry
carry_step fuel target level back deeper lt small =
    let kept = no_wrap target (unit target + weight_of level) lt small in
    let low : leb max_levels target ≡ false = ground arith in
    rw (
      grow_cons target level back,
      get_or-empties target level back,
      set-empties target level none back,
      kept,
      low,
    )

carry_nil :
    (fuel target weight : ℕ) (deeper : List Run)
    → carry (suc fuel) target weight (empties target ++ []) deeper
      ≡ carry (suc fuel) target weight (empties target ++ none ∷ []) deeper
unfolding carry
carry_nil fuel target weight deeper = rw (grow_nil target, grow_cons target none [])

-- Every level from `index` on holds a run of the largest weight.
abbrev pub FullFrom : ℕ → List (Option Run) → Type 0
FullFrom index [] = Unit
FullFrom index (none ∷ levels) = ⊥
FullFrom index (some run ∷ levels) = (run.weight ≡ 7 * unit index) × FullFrom (suc index) levels

abbrev pub Outcome : ℕ → List (Option Run) → List Run → Result Carried → Type 0
Outcome target back deeper r =
    ((c : Carried) × (r ≡ ok c) × CarryOk back deeper c)
    ⊎ ((r ≡ err too_many_levels) × (target + length back ≡ max_levels) × FullFrom target back)

flatten-push :
    (deeper : List Run) (level : Option Run) (back : List (Option Run))
    → deeper ++ flatten_runs (level ∷ back) ≡ push_run deeper level ++ flatten_runs back
unfolding flatten_runs push_run
flatten-push deeper none back = refl
flatten-push deeper (some run) back = sym (append_assoc deeper (run ∷ []) (flatten_runs back))

-- The loop stops at a level with room.
stop :
    (fuel target : ℕ) (level : Option Run) (back : List (Option Run)) (deeper : List Run)
    → target < max_levels
    → suc target + length back ≤ max_levels
    → LevelWeight target (unit target + weight_of level)
    → LevelsFrom (suc target) back
    → Outcome target
        (level ∷ back)
        deeper
        (carry (suc fuel) target (unit target) (empties target ++ level ∷ back) deeper)
stop fuel target level back deeper lt low (m, lo, hi, e) h = inl (
  record {
    target = target;
    weight = unit target + weight_of level;
    levels = empties target ++ none ∷ back;
    deeper = push_run deeper level;
  },
  carry_step fuel target level back deeper lt (grind (arith, e, hi))
      ∙ rw (lt→ltb (unit target + weight_of level) (unit target * fanout) room),
  record {
    back = back;
    levels_eq = refl;
    taken = flatten-push deeper level back;
    weights = h;
    fits = (m, lo, hi, e);
    bounded = lt;
    depth = omega arith;
  },
)
  where
    room : unit target + weight_of level < unit target * fanout
    room = grind (arith, unit_pos target)

-- A full level is emptied into the next.
pass :
    (fuel target : ℕ) (run : Run) (back : List (Option Run)) (deeper : List Run)
    → target < max_levels
    → run.weight ≡ 7 * unit target
    → carry (suc fuel) target (unit target) (empties target ++ some run ∷ back) deeper
      ≡ carry fuel
          (suc target)
          (unit (suc target))
          (empties (suc target) ++ back)
          (deeper ++ run ∷ [])
unfolding weight_of push_run
pass fuel target run back deeper lt e =
    let w : unit target + run.weight ≡ unit (suc target) = omega (arith, unit-suc target) in
    let small : ltb (unit (suc target)) (unit target * fanout) ≡ false =
      ground (arith, unit-suc target) in
    let same : (unit (suc target) == unit target * fanout) ≡ true =
      ground (arith, unit-suc target) in
    carry_step fuel target (some run) back deeper lt (omega (arith, e))
    ∙ rw (w, small, same)
        (ap (λ t. carry fuel (suc target) (unit (suc target)) t (deeper ++ run ∷ []))
          (empties_snoc target back))

extend :
    (target : ℕ) (run : Run) (back : List (Option Run)) (deeper : List Run) (r : Result Carried)
    → run.weight ≡ 7 * unit target
    → Outcome (suc target) back (deeper ++ run ∷ []) r
    → Outcome target (some run ∷ back) deeper r
unfolding push_run
extend target run back deeper r e (inl (c, h, k)) = inl (
  c,
  h,
  record {
    back = k.back;
    levels_eq = k.levels_eq;
    taken = flatten-push deeper (some run) back ∙ k.taken;
    weights = k.weights;
    fits = k.fits;
    bounded = k.bounded;
    depth = k.depth;
  },
)
extend target run back deeper r e (inr (h, n, full)) = inr (h, omega arith, (e, full))

empty_weight : (target : ℕ) → unit target + weight_of none ≡ 1 * unit target
unfolding weight_of
empty_weight target = omega arith

more_weight :
    (target m : ℕ) (run : Run)
    → run.weight ≡ m * unit target
    → unit target + weight_of (some run) ≡ suc m * unit target
unfolding weight_of
more_weight target m run e = omega arith

carry_over :
    (fuel target weight : ℕ) (levels : List (Option Run)) (deeper : List Run)
    → max_levels ≤ target
    → carry (suc fuel) target weight levels deeper ≡ err too_many_levels
unfolding carry
carry_over fuel target weight levels deeper h = rw (le→leb _ _ h)

-- A level that is not there counts as an empty one.
no_level :
    (target : ℕ) (deeper : List Run) (r : Result Carried)
    → Outcome target (none ∷ []) deeper r
    → Outcome target [] deeper r
unfolding flatten_runs
no_level target deeper r (inl (c, h, k)) = inl (
  c,
  h,
  record {
    back = k.back;
    levels_eq = k.levels_eq;
    taken = k.taken;
    weights = k.weights;
    fits = k.fits;
    bounded = k.bounded;
    depth = k.depth;
  },
)
no_level target deeper r (inr (h, n, full)) = absurd full

-- On levels with the weights of a valid head the loop ends: with room found at a level, or with all
-- levels full.
pub carry-CarryOk :
    (fuel target : ℕ) (back : List (Option Run)) (deeper : List Run)
    → max_levels < target + fuel
    → LevelsFrom target back
    → target + length back ≤ max_levels
    → Outcome target back deeper (carry fuel target (unit target) (empties target ++ back) deeper)
carry-CarryOk zero target back deeper enough h depth = absurd (omega arith)
carry-CarryOk (suc fuel) target [] deeper enough h depth = elim (dec_lt target max_levels) [
  | yes lt ↦ rw carry_nil (
      no_level target deeper _ (
        stop fuel target none [] deeper lt (omega arith)
          (1, omega arith, omega arith, empty_weight target) tt))
  | no over ↦ inr (carry_over fuel target _ _ deeper (omega arith), omega arith, tt)
]
carry-CarryOk (suc fuel) target (none ∷ back) deeper enough (_, h) depth =
    stop fuel target none back deeper (omega arith) (omega arith)
      (1, omega arith, omega arith, empty_weight target) h
carry-CarryOk (suc fuel) target (some run ∷ back) deeper enough ((m, lo, hi, e), h) depth =
    elim (dec_lt m 7) [
      | yes room ↦
          stop fuel target (some run) back deeper (omega arith) (omega arith)
            (suc m, omega arith, omega arith, (more_weight target m run e)) h
      | no full ↦
          let e7 : run.weight ≡ 7 * unit target =
            (let seven : m ≡ 7 = omega arith in e ∙ ap (λ (t : ℕ). t * unit target) seven) in
          rw (pass fuel target run back deeper (omega arith) e7) (
            extend target run back deeper _ e7 (
              carry-CarryOk fuel (suc target) back (deeper ++ run ∷ []) (omega arith) h
                (omega arith)))
    ]
