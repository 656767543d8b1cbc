-- ===== src/Tiered/Compaction/Placed.antt =====
-- The levels with the merged run in place: their weights and their number.
use fossil.Base.{
  List, Option, [], ap, arith, length, length-append, length-replicate, none, refl, set, some, suc,
  zero, ℕ, ◌++◌, ◌+◌, ◌∙◌, ◌∷◌, ◌≡◌, ◌≤◌,
}
use mathlib.Core.Path.{subst}
use fossil.Head.Manifest.{Run, max_levels, flatten_runs}
use fossil.Head.Manifest.Levels.{LevelsFrom, LevelWeight}
use fossil.Tiered.Compaction.{Carried, trim}
use fossil.Tiered.Compaction.Empties.{empties, set-empties}
use fossil.Tiered.Compaction.Carry.{CarryOk}
use fossil.Tiered.Compaction.Segments.{flatten_runs-trim, flatten_runs-empties}

trim_cons-length :
    (level : Option Run) (xs : List (Option Run))
    → length (trim (level ∷ xs)) ≤ suc (length (trim xs))
unfolding trim
trim_cons-length (some run) xs = omega arith
trim_cons-length none xs = ground arith

pub length-trim : (xs : List (Option Run)) → length (trim xs) ≤ length xs
length-trim [] = unfold trim in omega arith
length-trim (level ∷ xs) = omega (arith, length-trim xs, trim_cons-length level xs)

none_in_front :
    (index : ℕ) (xs : List (Option Run))
    → LevelsFrom (suc index) (trim xs)
    → LevelsFrom index (trim (none ∷ xs))
unfolding trim
none_in_front index xs h =
    elim (trim xs)
        as (λ t.
          LevelsFrom (suc index) t
          → LevelsFrom index (elim t [ [] ↦ [] | level ∷ rest ↦ none ∷ level ∷ rest ])) [
            | [] ↦ λ h. tt
            | level ∷ rest ↦ λ h. (tt, h)
          ]
      h

pub LevelsFrom-trim :
    (index : ℕ) (xs : List (Option Run)) → LevelsFrom index xs → LevelsFrom index (trim xs)
unfolding trim
LevelsFrom-trim index [] h = tt
LevelsFrom-trim index (some run ∷ xs) (w, h) = (w, LevelsFrom-trim (suc index) xs h)
LevelsFrom-trim index (none ∷ xs) (_, h) = none_in_front index xs (LevelsFrom-trim (suc index) xs h)

pub LevelsFrom-empties :
    (index n target : ℕ) (xs : List (Option Run))
    → target ≡ index + n
    → LevelsFrom target xs
    → LevelsFrom index (empties n ++ xs)
LevelsFrom-empties index zero target xs e h =
    let same : target ≡ index = omega arith in subst (λ t. LevelsFrom t xs) same h
LevelsFrom-empties index (suc n) target xs e h =
    (tt, LevelsFrom-empties (suc index) n target xs (omega arith) h)

-- The levels that `compact_once` commits for a run `m`.
abbrev pub placed : Carried → Run → List (Option Run)
placed c m = trim (set c.levels c.target (some m))

module _ (levels : List (Option Run)) (c : Carried) (k : CarryOk levels [] c) (m : Run) where
  placed_lem : placed c m ≡ trim (empties c.target ++ some m ∷ k.back)
  placed_lem =
      ap trim
        (ap (λ t. set t c.target (some m)) k.levels_eq ∙ set-empties c.target none (some m) k.back)

  pub flatten_runs-placed : flatten_runs (placed c m) ≡ m ∷ flatten_runs k.back
  flatten_runs-placed =
      ap flatten_runs placed_lem
      ∙ flatten_runs-trim (empties c.target ++ some m ∷ k.back)
      ∙ flatten_runs-empties c.target (some m ∷ k.back)
      ∙ unfold flatten_runs in refl

  pub placed-LevelsFrom : m.weight ≡ c.weight → LevelsFrom 0 (placed c m)
  placed-LevelsFrom e =
      let w : LevelWeight c.target m.weight = rw e k.fits in
      rw placed_lem (
        LevelsFrom-trim 0 _ (LevelsFrom-empties 0 c.target c.target _ (omega arith) (w, k.weights)))

  pub length-placed : length (placed c m) ≤ max_levels
  length-placed = rw placed_lem (
      omega (
        arith,
        length-trim (empties c.target ++ some m ∷ k.back),
        length-append (empties c.target) (some m ∷ k.back),
        length-replicate {A = Option Run} c.target none,
        k.depth,
      ))
