-- ===== src/Tiered/Compaction/Empties.antt =====
-- Levels whose lowest are empty, as the loop of `compact_once` sees them.
use fossil.Base.{
  List, Option, [], ap, arith, eq→==, get_or, length, length-append, length-replicate, none, refl,
  replicate, set, suc, zero, ℕ, ◌++◌, ◌+◌, ◌∷◌, ◌≡◌,
}
use mathlib.Core.List.{append-nil}
use fossil.Head.Manifest.{Run}
use fossil.Tiered.Compaction.{grow}

abbrev pub empties : ℕ → List (Option Run)
empties n = replicate n none

pub grow_nil : (n : ℕ) → grow (empties n ++ []) n ≡ empties n ++ none ∷ []
unfolding grow
grow_nil n =
    let e : length (empties n ++ []) ≡ n =
      omega (arith, length-append (empties n) [], length-replicate {A = Option Run} n none) in
    rw (eq→== _ _ e) (ap (λ t. t ++ none ∷ []) (append-nil (empties n)))

pub grow_cons :
    (n : ℕ) (level : Option Run) (back : List (Option Run))
    → grow (empties n ++ level ∷ back) n ≡ empties n ++ level ∷ back
unfolding grow
grow_cons n level back =
    let e : length (empties n ++ level ∷ back) ≡ n + suc (length back) =
      omega (
        arith,
        length-append (empties n) (level ∷ back),
        length-replicate {A = Option Run} n none,
      ) in
    ground (arith, e)

pub get_or-empties :
    (n : ℕ) (level : Option Run) (back : List (Option Run))
    → get_or (empties n ++ level ∷ back) n none ≡ level
get_or-empties zero level back = refl
get_or-empties (suc n) level back = get_or-empties n level back

pub set-empties :
    (n : ℕ) (level new : Option Run) (back : List (Option Run))
    → set (empties n ++ level ∷ back) n new ≡ empties n ++ new ∷ back
set-empties zero level new back = refl
set-empties (suc n) level new back = ap (λ t. none ∷ t) (set-empties n level new back)

pub empties_snoc :
    (n : ℕ) (back : List (Option Run)) → empties n ++ none ∷ back ≡ empties (suc n) ++ back
empties_snoc zero back = refl
empties_snoc (suc n) back = ap (λ t. none ∷ t) (empties_snoc n back)
