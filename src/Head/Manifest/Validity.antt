-- ===== src/Head/Manifest/Validity.antt =====
-- What a validated head promises, stated without the validator.
use fossil.Base.{
  >>=-eq-ok, All, List, [], arith, bail_if-eq-ok, false, length, ok, true, ℕ, ◌+◌, ◌<◌, ◌^◌, ◌∷◌,
  ◌≡◌, ◌≢◌, ◌≤◌,
}
use fossil.Bytes.{bytes_eq}
use fossil.Bytes.Order.{eq_of_bytes_eq, bytes_eq_refl}
use fossil.Extern.{Sha256, Hex}
use fossil.Head.Manifest.{
  Head, Run, head_magic, runs, validate, any_heavy, bad_bounds, uncovered, check_levels, check_runs,
  max_l0_backlog, max_levels,
}
use fossil.Head.Manifest.Levels.{
  LevelsFrom, IsLight, IsLight-of_any_heavy, any_heavy_of_light, check_levels→LevelsFrom,
  LevelsFrom→check_levels,
}
use fossil.Head.Manifest.Coverage.{Covers, EndFits, RootOk, check_runs→Covers, Covers→check_runs}

module _ (sha : Sha256) (hex : Hex) where
  pub record IsValid (head : Head) : Type 0 where
    pub magic : head.magic ≡ head_magic
    pub backlog : length head.l0 ≤ max_l0_backlog
    pub depth : length head.levels ≤ max_levels
    pub light : All IsLight head.l0
    pub weights : LevelsFrom 0 head.levels
    pub roots : All (RootOk sha hex) (runs head)
    pub covers : Covers 0 (runs head) (head.number + 1)

  bounds_of :
      (head : Head)
      → bad_bounds head ≡ false
      → (head.magic ≡ head_magic)
        × (length head.l0 ≤ max_l0_backlog)
        × (length head.levels ≤ max_levels)
  unfolding bad_bounds
  bounds_of head h = (eq_of_bytes_eq _ _ (ground arith), ground arith, ground arith)

  bounds_hold : (head : Head) → IsValid head → bad_bounds head ≡ false
  unfolding bad_bounds
  bounds_hold head v =
      let same : bytes_eq head.magic head_magic ≡ true = rw v.magic (bytes_eq_refl _) in
      ground (arith, same, v.backlog, v.depth)

  cover_of :
      (head : Head) (next count : ℕ)
      → uncovered head next count ≡ false
      → head.number + 1 < 2 ^ 64
      → next ≡ head.number + 1
  unfolding uncovered
  cover_of head next count h small = ground arith

  cover_holds :
      (head : Head) (count : ℕ)
      → head.number + 1 < 2 ^ 64
      → count ≢ 0
      → uncovered head (head.number + 1) count ≡ false
  unfolding uncovered
  cover_holds head count small some_run = ground arith

  Covers-some : (xs : List Run) (n : ℕ) → Covers 0 xs (n + 1) → length xs ≢ 0
  Covers-some [] n c = omega arith
  Covers-some (run ∷ xs) n c = omega arith

  -- A head that passes is unchanged, and its runs partition the blocks from 0 to its number, their
  -- weights and roots as the format has them. Ends at the largest `u64` are set aside.
  pub validate→IsValid :
      (head head' : Head)
      → validate sha hex head ≡ ok head'
      → All EndFits (runs head)
      → head.number + 1 < 2 ^ 64
      → (head ≡ head') × IsValid head
  unfolding validate
  validate→IsValid head head' h fits small =
      let (t1, h1) = bail_if-eq-ok (bad_bounds head) _ _ h in
      let (t2, h2) = bail_if-eq-ok (any_heavy head.l0) _ _ h1 in
      let (u, e3, h3) = >>=-eq-ok (check_levels 0 head.levels) _ h2 in
      let ((next, count), e4, h4) = >>=-eq-ok (check_runs sha hex 0 0 (runs head)) _ h3 in
      let (t5, h5) = bail_if-eq-ok (uncovered head next count) _ _ h4 in
      let (c, roots, n) = check_runs→Covers sha hex 0 0 (runs head) next count e4 fits in
      let (magic, backlog, depth) = bounds_of head t1 in
      (
        cc h5,
        record {
          magic = magic;
          backlog = backlog;
          depth = depth;
          light = IsLight-of_any_heavy head.l0 t2;
          weights = check_levels→LevelsFrom 0 head.levels e3;
          roots = roots;
          covers = rw (cover_of head next count t5 small) at c;
        },
      )

  -- A valid head whose number is below the largest `u64` passes, and is returned unchanged.
  pub IsValid→validate :
      (head : Head) → IsValid head → head.number + 1 < 2 ^ 64 → validate sha hex head ≡ ok head
  unfolding validate
  IsValid→validate head v small = rw (
    bounds_hold head v,
    any_heavy_of_light head.l0 v.light,
    LevelsFrom→check_levels 0 head.levels v.weights,
    Covers→check_runs sha hex 0 0 (runs head) (head.number + 1) v.covers small v.roots,
    cover_holds head (0 + length (runs head)) small
        (omega (arith, Covers-some (runs head) head.number v.covers)),
  )
