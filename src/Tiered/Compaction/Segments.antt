-- ===== src/Tiered/Compaction/Segments.antt =====
-- Runs in the order of time, and the segment of them that a compaction folds.
use fossil.Base.{
  List, Option, [], ap, arith, false, none, refl, some, suc, sym, zero, ℕ, ◌++◌, ◌+◌, ◌<◌, ◌^◌, ◌∙◌,
  ◌∷◌, ◌≡◌, ◌≢◌,
}
use mathlib.Core.List.{reverse}
use mathlib.Core.List.{append-nil}
use mathlib.Core.List.{reverse-append}
use fossil.Head.Manifest.{Head, Run, runs, flatten_runs}
use fossil.Head.Manifest.Coverage.{Covers, Covers-le}
use fossil.Tiered.Compaction.{any_gap, first_start, last_end, trim}
use fossil.Tiered.Compaction.Empties.{empties}

pub flatten_runs-append :
    (xs ys : List (Option Run)) → flatten_runs (xs ++ ys) ≡ flatten_runs xs ++ flatten_runs ys
unfolding flatten_runs
flatten_runs-append [] ys = refl
flatten_runs-append (none ∷ xs) ys = flatten_runs-append xs ys
flatten_runs-append (some run ∷ xs) ys = ap (λ t. run ∷ t) (flatten_runs-append xs ys)

pub flatten_runs-reverse :
    (xs : List (Option Run)) → flatten_runs (reverse xs) ≡ reverse (flatten_runs xs)
unfolding flatten_runs
flatten_runs-reverse [] = refl
flatten_runs-reverse (none ∷ xs) =
    ap flatten_runs (reverse-append (none ∷ []) xs)
    ∙ flatten_runs-append (reverse xs) (none ∷ [])
    ∙ append-nil _
    ∙ flatten_runs-reverse xs
flatten_runs-reverse (some run ∷ xs) =
    ap flatten_runs (reverse-append (some run ∷ []) xs)
    ∙ flatten_runs-append (reverse xs) (some run ∷ [])
    ∙ ap (λ t. t ++ run ∷ []) (flatten_runs-reverse xs)
    ∙ sym (reverse-append (run ∷ []) (flatten_runs xs))

pub runs_lem : (head : Head) → runs head ≡ reverse (flatten_runs head.levels) ++ head.l0
unfolding runs
runs_lem head = ap (λ t. t ++ head.l0) (flatten_runs-reverse head.levels)

pub flatten_runs-empties :
    (n : ℕ) (xs : List (Option Run)) → flatten_runs (empties n ++ xs) ≡ flatten_runs xs
unfolding flatten_runs
flatten_runs-empties zero xs = refl
flatten_runs-empties (suc n) xs = flatten_runs-empties n xs

pub flatten_runs-trim : (xs : List (Option Run)) → flatten_runs (trim xs) ≡ flatten_runs xs
unfolding flatten_runs trim
flatten_runs-trim [] = refl
flatten_runs-trim (some run ∷ xs) = ap (λ t. run ∷ t) (flatten_runs-trim xs)
flatten_runs-trim (none ∷ xs) = ground (arith, flatten_runs-trim xs)

-- Adjacent runs have no gap, and the merged interval begins and ends with theirs.
pub Covers-any_gap :
    (start next : ℕ) (xs : List Run) → Covers start xs next → next < 2 ^ 64 → any_gap xs ≡ false
unfolding any_gap
Covers-any_gap start next [] c lt = refl
Covers-any_gap start next (a ∷ []) c lt = refl
Covers-any_gap start next (a ∷ b ∷ rest) (s, le, c) lt = ground (
  arith,
  c,
  Covers-any_gap (a.end + 1) next (b ∷ rest) c lt,
  Covers-le (a.end + 1) next (b ∷ rest) c,
)

pub Covers-first_start :
    (start next : ℕ) (xs : List Run) → Covers start xs next → xs ≢ [] → first_start xs ≡ start
unfolding first_start
Covers-first_start start next [] c some_run = absurd (some_run refl)
Covers-first_start start next (run ∷ rest) (s, le, c) some_run = s

pub Covers-last_end :
    (start next : ℕ) (xs : List Run) → Covers start xs next → xs ≢ [] → last_end xs + 1 ≡ next
unfolding last_end
Covers-last_end start next [] c some_run = absurd (some_run refl)
Covers-last_end start next (run ∷ []) (s, le, c) some_run = c
Covers-last_end start next (run ∷ b ∷ rest) (s, le, c) some_run =
    Covers-last_end (run.end + 1) next (b ∷ rest) c (λ e. cc)

pub Covers-lt : (start next : ℕ) (xs : List Run) → Covers start xs next → xs ≢ [] → start < next
Covers-lt start next [] c some_run = absurd (some_run refl)
Covers-lt start next (run ∷ rest) (s, le, c) some_run =
    omega (arith, Covers-le (run.end + 1) next rest c)
