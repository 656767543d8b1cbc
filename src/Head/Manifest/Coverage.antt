-- ===== src/Head/Manifest/Coverage.antt =====
-- Runs that follow one another without gap or overlap.
use fossil.Base.{
  >>=-eq-ok, All, List, [], arith, bail_if-eq-ok, false, if◌then◌else◌, leb, length, ok, refl, suc,
  true, ℕ, ◌%◌, ◌&&◌, ◌++◌, ◌+◌, ◌<◌, ◌^◌, ◌∷◌, ◌≡◌, ◌≤◌,
}
use fossil.Bytes.{Bytes, bytes_eq}
use fossil.Bytes.Order.{eq_of_bytes_eq, bytes_eq_refl}
use fossil.Extern.{Sha256, Hex}
use fossil.Head.Manifest.{Run, is_power_of_two, bad_run, check_runs}

-- The intervals of the runs partition the blocks from `start` up to, and without, `next`.
abbrev pub Covers : ℕ → List Run → ℕ → Type 0
Covers start [] next = start ≡ next
Covers start (run ∷ rest) next =
    (run.start ≡ start) × (run.start ≤ run.end) × Covers (run.end + 1) rest next

pub Covers-append :
    (start mid next : ℕ) (xs ys : List Run)
    → Covers start xs mid
    → Covers mid ys next
    → Covers start (xs ++ ys) next
Covers-append start mid next [] ys h k = rw h k
Covers-append start mid next (run ∷ rest) ys (a, b, h) k =
    (a, b, Covers-append (run.end + 1) mid next rest ys h k)

pub Covers-split :
    (start next : ℕ) (xs ys : List Run)
    → Covers start (xs ++ ys) next
    → (mid : ℕ) × Covers start xs mid × Covers mid ys next
Covers-split start next [] ys h = (start, refl, h)
Covers-split start next (run ∷ rest) ys (a, b, h) =
    let (mid, l, r) = Covers-split (run.end + 1) next rest ys h in (mid, (a, b, l), r)

pub Covers-le : (start next : ℕ) (xs : List Run) → Covers start xs next → start ≤ next
Covers-le start next [] h = omega arith
Covers-le start next (run ∷ rest) (a, b, h) = omega (arith, Covers-le (run.end + 1) next rest h)

-- The block lies in the interval of a run.
abbrev pub Within : ℕ → Run → Type 0
Within block run = (run.start ≤ block) × (block ≤ run.end)

-- How many runs of the list hold the block.
unfoldable pub holders : ℕ → List Run → ℕ
holders block [] = 0
holders block (run ∷ rest) =
    if leb run.start block && leb block run.end
    then suc (holders block rest)
    else holders block rest

pub holders_before :
    (block start next : ℕ) (xs : List Run)
    → Covers start xs next
    → block < start
    → holders block xs ≡ 0
unfolding holders
holders_before block start next [] h lt = refl
holders_before block start next (run ∷ rest) (a, b, h) lt =
    ground (arith, holders_before block (run.end + 1) next rest h)

-- Each block that is covered lies in exactly one run.
pub Covers-holders :
    (block start next : ℕ) (xs : List Run)
    → Covers start xs next
    → start ≤ block
    → block < next
    → holders block xs ≡ 1
unfolding holders
Covers-holders block start next [] h lo hi = absurd (omega arith)
Covers-holders block start next (run ∷ rest) (a, b, h) lo hi = ground (
  arith,
  holders_before block (run.end + 1) next rest h,
  Covers-holders block (run.end + 1) next rest h,
)

-- A run's end fits in a `u64` below the largest value.
abbrev pub EndFits : Run → Type 0
EndFits run = run.end + 1 < 2 ^ 64

module _ (sha : Sha256) (hex : Hex) where
  -- The inline root is the object that the reference names, and the summary count is a power of two.
  abbrev pub RootOk : Run → Type 0
  RootOk run =
      (root : Bytes) × (hex.decode run.root_bytes ≡ ok root)
      × (length root ≡ run.root.size)
      × (sha.digest root ≡ run.root.digest)
      × (is_power_of_two run.shards ≡ true)

  good_run :
      (run : Run) (start : ℕ) (root : Bytes)
      → bad_run sha hex run start root ≡ false
      → (run.start ≡ start)
        × (run.start ≤ run.end)
        × (length root ≡ run.root.size)
        × (sha.digest root ≡ run.root.digest)
        × (is_power_of_two run.shards ≡ true)
  unfolding bad_run
  good_run run start root h =
      (ground arith, ground arith, ground arith, eq_of_bytes_eq _ _ (ground arith), ground arith)

  pub check_runs→Covers :
      (start count : ℕ) (xs : List Run) (next total : ℕ)
      → check_runs sha hex start count xs ≡ ok (next, total)
      → All EndFits xs
      → Covers start xs next × All RootOk xs × (total ≡ count + length xs)
  unfolding check_runs
  check_runs→Covers start count [] next total h fits = ground arith
  check_runs→Covers start count (run ∷ rest) next total h (fit, fits) =
      let (root, d, h1) = >>=-eq-ok (hex.decode run.root_bytes) _ h in
      let (good, h2) = bail_if-eq-ok (bad_run sha hex run start root) _ _ h1 in
      let (s, le, sz, dg, p2) = good_run run start root good in
      let (c, roots, n) =
        check_runs→Covers ((run.end + 1) % 2 ^ 64) (suc count) rest next total h2 fits in
      let e : (run.end + 1) % 2 ^ 64 ≡ run.end + 1 = omega arith in
      ((s, le, rw e at c), ((root, d, sz, dg, p2), roots), omega arith)

  bad_run_of :
      (run : Run) (root : Bytes)
      → run.start ≤ run.end
      → length root ≡ run.root.size
      → sha.digest root ≡ run.root.digest
      → is_power_of_two run.shards ≡ true
      → bad_run sha hex run run.start root ≡ false
  unfolding bad_run
  bad_run_of run root le sz dg p2 =
      let same : bytes_eq (sha.digest root) run.root.digest ≡ true = rw dg (bytes_eq_refl _) in
      ground (arith, same)

  pub Covers→check_runs :
      (start count : ℕ) (xs : List Run) (next : ℕ)
      → Covers start xs next
      → next < 2 ^ 64
      → All RootOk xs
      → check_runs sha hex start count xs ≡ ok (next, count + length xs)
  unfolding check_runs
  Covers→check_runs start count [] next c lt roots = ground arith
  Covers→check_runs start count (run ∷ rest) next (s, le, c) lt ((root, d, sz, dg, p2), roots) =
      let e : (run.end + 1) % 2 ^ 64 ≡ run.end + 1 =
        omega (arith, Covers-le (run.end + 1) next rest c) in
      let n : count + suc (length rest) ≡ suc count + length rest = omega arith in
      rw (← s, d, bad_run_of run root le sz dg p2, e, n)
        (Covers→check_runs (run.end + 1) (suc count) rest next c lt roots)
