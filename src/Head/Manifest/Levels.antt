-- ===== src/Head/Manifest/Levels.antt =====
-- The weights that a head's levels may have, and the test of them.
use fossil.Base.{
  All, List, Option, [], arith, bail_if-eq-ok, false, none, ok, refl, some, suc, zero, ℕ, ◌%◌, ◌*◌,
  ◌/◌, ◌<◌, ◌∷◌, ◌≡◌, ◌≢◌, ◌≤◌,
}
use fossil.Head.Manifest.{Run, unit, bad_weight, check_levels, any_heavy}
use native.Mathlib.Nat.{div-add-mod, mul-mod_left}

-- One to seven times the unit of the level.
abbrev pub LevelWeight : ℕ → ℕ → Type 0
LevelWeight index weight = (m : ℕ) × (1 ≤ m) × (m ≤ 7) × (weight ≡ m * unit index)

abbrev pub LevelOk : ℕ → Option Run → Type 0
LevelOk index none = Unit
LevelOk index (some run) = LevelWeight index run.weight

-- The levels from `index` on.
abbrev pub LevelsFrom : ℕ → List (Option Run) → Type 0
LevelsFrom index [] = Unit
LevelsFrom index (level ∷ levels) = LevelOk index level × LevelsFrom (suc index) levels

pub unit-suc : (index : ℕ) → unit (suc index) ≡ 8 * unit index
unfolding unit
unit-suc index = omega arith

pub unit_pos : (index : ℕ) → 0 < unit index
unit_pos zero = unfold unit in omega arith
unit_pos (suc index) = omega (arith, unit_pos index, unit-suc index)

multiple : (w u : ℕ) → w % u ≡ 0 → w ≡ w / u * u
multiple w u h = grind (arith, div-add-mod w u)

quotient_bounds : (q u w : ℕ) → w ≡ q * u → w ≢ 0 → w < u * 8 → (1 ≤ q) × (q ≤ 7)
quotient_bounds zero u w e nz lt = absurd (nz (omega arith))
quotient_bounds (suc q) u w e nz lt = (omega arith, grind arith)

LevelWeight-of : (index w : ℕ) → bad_weight index w ≡ false → LevelWeight index w
unfolding bad_weight
LevelWeight-of index w h =
    let e : w ≡ w / unit index * unit index = multiple w (unit index) (ground arith) in
    let (lo, hi) =
      quotient_bounds (w / unit index) (unit index) w e (ground arith) (ground arith) in
    (w / unit index, lo, hi, e)

LevelWeight→good : (index w : ℕ) → LevelWeight index w → bad_weight index w ≡ false
unfolding bad_weight
LevelWeight→good index w (m, lo, hi, e) =
    let u = unit index in
    let exact : w % u ≡ 0 = rw e (mul-mod_left m u) in
    let above : w < u * 8 = grind (arith, unit_pos index) in
    let positive : 0 < w = grind (arith, unit_pos index) in ground arith

pub check_levels→LevelsFrom :
    (index : ℕ) (levels : List (Option Run))
    → check_levels index levels ≡ ok tt
    → LevelsFrom index levels
unfolding check_levels
check_levels→LevelsFrom index [] h = tt
check_levels→LevelsFrom index (none ∷ levels) h = (tt, check_levels→LevelsFrom (suc index) levels h)
check_levels→LevelsFrom index (some run ∷ levels) h =
    let (good, rest) = bail_if-eq-ok (bad_weight index run.weight) _ _ h in
    (LevelWeight-of index run.weight good, check_levels→LevelsFrom (suc index) levels rest)

pub LevelsFrom→check_levels :
    (index : ℕ) (levels : List (Option Run))
    → LevelsFrom index levels
    → check_levels index levels ≡ ok tt
unfolding check_levels
LevelsFrom→check_levels index [] h = refl
LevelsFrom→check_levels index (none ∷ levels) (_, h) = LevelsFrom→check_levels (suc index) levels h
LevelsFrom→check_levels index (some run ∷ levels) (w, h) =
    rw (LevelWeight→good index run.weight w) (LevelsFrom→check_levels (suc index) levels h)

-- L0 runs weigh one.
abbrev pub IsLight : Run → Type 0
IsLight run = run.weight ≡ 1

pub IsLight-of_any_heavy : (l0 : List Run) → any_heavy l0 ≡ false → All IsLight l0
unfolding any_heavy
IsLight-of_any_heavy [] h = tt
IsLight-of_any_heavy (run ∷ rest) h = (ground arith, IsLight-of_any_heavy rest (ground arith))

pub any_heavy_of_light : (l0 : List Run) → All IsLight l0 → any_heavy l0 ≡ false
unfolding any_heavy
any_heavy_of_light [] h = refl
any_heavy_of_light (run ∷ rest) (w, h) = ground (arith, any_heavy_of_light rest h)
