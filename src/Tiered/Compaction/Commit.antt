-- ===== src/Tiered/Compaction/Commit.antt =====
-- The committed head: the same blocks, with the folded runs replaced by one.
use fossil.Base.{
  All, All-append, All-drop, All_split, List, Option, [], ap, arith, drop, length, length-append,
  length-drop, length-take, none, ok, refl, some, sym, take, true, ℕ, ◌++◌, ◌+◌, ◌∙◌, ◌∷◌, ◌≡◌, ◌≢◌,
  ◌≤◌,
}
use mathlib.Core.List.{append_assoc}
use mathlib.Core.List.{reverse}
use mathlib.Core.Path.{subst}
use fossil.Bytes.Order.{eq_of_bytes_eq}
use fossil.Extern.{Sha256, Hex}
use fossil.Head.Manifest.{Head, Run, runs, flatten_runs, l0_trigger}
use fossil.Head.Manifest.Levels.{IsLight}
use fossil.Head.Manifest.Coverage.{Covers, Covers-append, RootOk}
use fossil.Head.Manifest.Validity.{IsValid}
use fossil.Tiered.Compaction.{
  Carried, Plan, BuiltRun, commit, merged_run, new_run, run_eq, levels_eq, starts_with,
}
use mathlib.Core.List.{reverse-cons}
use mathlib.Core.Path.{subst₂}
use fossil.Tiered.Compaction.Placed.{placed, flatten_runs-placed, placed-LevelsFrom, length-placed}
use fossil.Tiered.Compaction.Carry.{CarryOk}
use fossil.Tiered.Compaction.Segments.{runs_lem, Covers-first_start, Covers-last_end, Covers-lt}
use fossil.Tiered.Compaction.Planned.{inputs_of, runs-inputs_of, inputs_cover}

eq_of_run_eq : (a b : Run) → run_eq a b ≡ true → a ≡ b
unfolding run_eq
eq_of_run_eq a b h =
    ground
      (arith, eq_of_bytes_eq a.root.digest b.root.digest, eq_of_bytes_eq a.root_bytes b.root_bytes)

eq_of_levels_eq : (xs ys : List (Option Run)) → levels_eq xs ys ≡ true → xs ≡ ys
unfolding levels_eq
eq_of_levels_eq [] [] h = refl
eq_of_levels_eq [] (y ∷ ys) h = cc
eq_of_levels_eq (none ∷ xs) [] h = cc
eq_of_levels_eq (some a ∷ xs) [] h = cc
eq_of_levels_eq (none ∷ xs) (none ∷ ys) h = ap (λ t. none ∷ t) (eq_of_levels_eq xs ys h)
eq_of_levels_eq (none ∷ xs) (some b ∷ ys) h = cc
eq_of_levels_eq (some a ∷ xs) (none ∷ ys) h = cc
eq_of_levels_eq (some a ∷ xs) (some b ∷ ys) h =
    ground (arith, eq_of_run_eq a b, eq_of_levels_eq xs ys)

starts_with-take :
    (l0 prefix : List Run) → starts_with l0 prefix ≡ true → take (length prefix) l0 ≡ prefix
unfolding starts_with
starts_with-take l0 [] h = refl
starts_with-take [] (b ∷ prefix) h = cc
starts_with-take (a ∷ l0) (b ∷ prefix) h =
    ground (arith, eq_of_run_eq a b, starts_with-take l0 prefix)

-- A commit goes through only on the levels and the oldest L0 runs that were planned.
pub commit_of :
    (planned : Head) (levels : List (Option Run)) (current next : Head)
    → l0_trigger ≤ length planned.l0
    → commit planned levels current ≡ ok next
    → (current.levels ≡ planned.levels)
      × (take l0_trigger current.l0 ≡ take l0_trigger planned.l0)
      × (next ≡ record current { l0 = drop l0_trigger current.l0; levels = levels })
unfolding commit
commit_of planned levels current next enough h =
    let n : length (take l0_trigger planned.l0) ≡ l0_trigger =
      omega (arith, length-take l0_trigger planned.l0) in
    let prefix = starts_with-take current.l0 (take l0_trigger planned.l0) in
    (
      eq_of_levels_eq _ _ (ground arith),
      subst (λ k. take k current.l0 ≡ take l0_trigger planned.l0) n (prefix (ground arith)),
      ground arith,
    )

pub CarryOk-moved :
    (xs ys : List (Option Run)) (c : Carried) → xs ≡ ys → CarryOk ys [] c → CarryOk xs [] c
CarryOk-moved xs ys c e k = subst (λ t. CarryOk t [] c) (sym e) k

inputs_some : (head : Head) (c : Carried) → l0_trigger ≤ length head.l0 → inputs_of head c ≢ []
unfolding inputs_of
inputs_some head c enough e = absurd (
    omega (
      arith,
      ap length e,
      length-append (reverse c.deeper) (take l0_trigger head.l0),
      length-take l0_trigger head.l0,
    ))

-- What a commit makes of the current head: the older runs and the later ones stay, and `m`, with
-- the interval of the inputs, stands in the inputs' place.
pub record Folded (current next : Head) (inputs : List Run) (m : Run) : Type 0 where
  pub older : List Run
  pub later : List Run
  pub before : runs current ≡ older ++ (inputs ++ later)
  pub after : runs next ≡ older ++ (m ∷ later)
  pub interval : Covers m.start inputs (m.end + 1)

abbrev pub plan_of : Carried → Head → Plan
plan_of c head = record { carried = c; inputs = inputs_of head c }

-- A head that agrees with the planned one in its levels and in its oldest L0 runs.
module _ (sha : Sha256) (hex : Hex) (current : Head) (c : Carried) (k : CarryOk current.levels [] c)
    (built : BuiltRun) (v : IsValid sha hex current) (enough : l0_trigger ≤ length current.l0) where
  unfoldable pub m : Run
  m = merged_run hex (plan_of c current) built

  unfoldable pub folded : Head
  folded = record current { l0 = drop l0_trigger current.l0; levels = placed c m }

  older : List Run
  older = reverse (flatten_runs k.back)

  runs-folded : runs folded ≡ older ++ (m ∷ drop l0_trigger current.l0)
  unfolding folded older
  runs-folded =
      runs_lem folded
      ∙ ap (λ t. reverse t ++ drop l0_trigger current.l0) (flatten_runs-placed current.levels c k m)
      ∙ ap (λ t. t ++ drop l0_trigger current.l0) (reverse-cons m (flatten_runs k.back))
      ∙ append_assoc (reverse (flatten_runs k.back)) (m ∷ []) (drop l0_trigger current.l0)

  -- The merged run has the interval of the inputs.
  merged_interval :
      (from to : ℕ)
      → Covers from (inputs_of current c) to
      → (m.start ≡ from) × (m.end + 1 ≡ to) × (m.start ≤ m.end)
  unfolding m merged_run new_run
  merged_interval from to cov =
      let some_in = inputs_some current c enough in
      let start = Covers-first_start from to (inputs_of current c) cov some_in in
      let end = Covers-last_end from to (inputs_of current c) cov some_in in
      (start, end, omega (arith, start, end, Covers-lt from to (inputs_of current c) cov some_in))

  folded-Covers : Covers 0 (runs folded) (folded.number + 1)
  unfolding older folded
  folded-Covers =
      let (from, to, c1, c2, c3) = inputs_cover sha hex current c k v in
      let (start, end, le) = merged_interval from to c2 in
      let tail : Covers from (m ∷ drop l0_trigger current.l0) (current.number + 1) = (
        start,
        le,
        subst (λ t. Covers t (drop l0_trigger current.l0) (current.number + 1)) (sym end) c3,
      ) in
      rw runs-folded (Covers-append 0 from (current.number + 1) older _ c1 tail)

  pub folded-Folded : Folded current folded (inputs_of current c) m
  unfolding older
  folded-Folded =
      let (from, to, c1, c2, c3) = inputs_cover sha hex current c k v in
      let (start, end, le) = merged_interval from to c2 in
      record {
        older = older;
        later = drop l0_trigger current.l0;
        before = runs-inputs_of current c k;
        after = runs-folded;
        interval = subst₂ (λ s t. Covers s (inputs_of current c) t) (sym start) (sym end) c2;
      }

  folded-roots : RootOk sha hex m → All (RootOk sha hex) (runs folded)
  unfolding older
  folded-roots root =
      let P = RootOk sha hex in
      let all = subst (All P) (runs-inputs_of current c k) v.roots in
      let (r1, r23) = All_split P older (inputs_of current c ++ drop l0_trigger current.l0) all in
      let (r2, r3) = All_split P (inputs_of current c) (drop l0_trigger current.l0) r23 in
      rw runs-folded (All-append P older _ r1 (root, r3))

  pub folded-IsValid : RootOk sha hex m → IsValid sha hex folded
  unfolding folded m merged_run new_run
  folded-IsValid root = record {
    magic = v.magic;
    backlog = omega (arith, length-drop l0_trigger current.l0, v.backlog);
    depth = length-placed current.levels c k m;
    light = All-drop IsLight l0_trigger current.l0 v.light;
    weights = placed-LevelsFrom current.levels c k m refl;
    roots = folded-roots root;
    covers = folded-Covers;
  }
