-- ===== src/Tiered/Compaction.antt =====
-- `compact_once`: which runs are folded, into which level, and the head that is committed. The
-- merge itself stands between `plan` and `install`.
pub mod Empties
pub mod Carry
pub mod Segments
pub mod Planned
pub mod Placed
pub mod Commit
pub mod Safety
use fossil.Base.{
  Bool, List, Option, Result, [], bail_if, capacity_exceeded, drop, err, false, get_or,
  head_changed, if◌then◌else◌, leb, length, ltb, noncontiguous, none, not, ok, set, some, suc, take,
  too_many_levels, true, zero, ℕ, ◌%◌, ◌&&◌, ◌*◌, ◌++◌, ◌+◌, ◌==◌, ◌>>=◌, ◌>>◌, ◌^◌, ◌||◌, ◌∷◌,
}
use mathlib.Core.List.{reverse}
use fossil.Bytes.{Bytes, bytes_eq}
use fossil.Extern.{Hex}
use fossil.Head.Manifest.{Head, Run, Ref, l0_trigger, fanout, max_levels, unit}

-- What the loop over the levels leaves: its variables `target`, `weight`, `levels`, `deeper`.
pub record Carried : Type 0 where
  pub target : ℕ
  pub weight : ℕ
  pub levels : List (Option Run)
  pub deeper : List Run

unfoldable pub weight_of : Option Run → ℕ
weight_of none = 0
weight_of (some run) = run.weight

unfoldable pub push_run : List Run → Option Run → List Run
push_run deeper none = deeper
push_run deeper (some run) = deeper ++ run ∷ []

-- `if levels.len() == target { levels.push(None); }`
unfoldable pub grow : List (Option Run) → ℕ → List (Option Run)
grow levels target = if length levels == target then levels ++ none ∷ [] else levels

-- The loop. Each round adds one to `target`, so nine rounds reach the bound on levels.
unfoldable pub carry : ℕ → ℕ → ℕ → List (Option Run) → List Run → Result Carried
carry zero target weight levels deeper = err too_many_levels
carry (suc fuel) target weight levels deeper =
    let grown = grow levels target in
    let found = get_or grown target none in
    let emptied = set grown target none in
    let weight' = (weight + weight_of found) % 2 ^ 64 in
    let deeper' = push_run deeper found in
    let next = carry fuel (suc target) weight' emptied deeper' in
    if leb max_levels target
    then err too_many_levels
    else if ltb weight' (unit target * fanout)
    then ok (record { target = target; weight = weight'; levels = emptied; deeper = deeper' })
    else if not (weight' == unit target * fanout)
    then err capacity_exceeded
    else next

-- `pair[0].end.checked_add(1) != Some(pair[1].start)` of some window
unfoldable pub any_gap : List Run → Bool
any_gap [] = false
any_gap (a ∷ []) = false
any_gap (a ∷ b ∷ rest) =
    (leb (2 ^ 64) (a.end + 1) || not (a.end + 1 == b.start)) || any_gap (b ∷ rest)

-- The compaction that a head calls for.
pub record Plan : Type 0 where
  pub carried : Carried
  pub inputs : List Run

unfoldable pub plan : Head → Result (Option Plan)
plan planned = if ltb (length planned.l0) l0_trigger then ok none else (do
  carried ← carry (suc max_levels) 0 l0_trigger planned.levels []
  let inputs = reverse carried.deeper ++ take l0_trigger planned.l0
  bail_if (any_gap inputs) noncontiguous
  ok (some (record { carried = carried; inputs = inputs })))

-- `while levels.last().is_some_and(Option::is_none) { levels.pop(); }`
unfoldable pub trim : List (Option Run) → List (Option Run)
trim [] = []
trim (some run ∷ levels) = some run ∷ trim levels
trim (none ∷ levels) = elim (trim levels) [ [] ↦ [] | level ∷ rest ↦ none ∷ level ∷ rest ]

-- A run that a merge or a publication has written.
pub record BuiltRun : Type 0 where
  pub root : Ref
  pub root_bytes : Bytes
  pub keys : ℕ
  pub shards : ℕ

-- `inputs[0].start` and `inputs.last().unwrap().end`
unfoldable pub first_start : List Run → ℕ
first_start [] = 0
first_start (run ∷ rest) = run.start

unfoldable pub last_end : List Run → ℕ
last_end [] = 0
last_end (run ∷ []) = run.end
last_end (run ∷ next ∷ rest) = last_end (next ∷ rest)

module _ (hex : Hex) where
  unfoldable pub new_run : ℕ → ℕ → ℕ → BuiltRun → Run
  new_run start end weight built = record {
    start = start;
    end = end;
    weight = weight;
    keys = built.keys;
    shards = built.shards;
    root = built.root;
    root_bytes = hex.encode built.root_bytes;
  }

  -- The run that replaces the inputs, and the levels that hold it.
  unfoldable pub merged_run : Plan → BuiltRun → Run
  merged_run p built = new_run (first_start p.inputs) (last_end p.inputs) p.carried.weight built

  unfoldable pub install : Plan → BuiltRun → List (Option Run)
  install p built = trim (set p.carried.levels p.carried.target (some (merged_run p built)))

-- The derived equalities of `Ref`, `Run` and of lists of them.
unfoldable pub run_eq : Run → Run → Bool
run_eq a b =
    a.start == b.start
    && a.end == b.end
    && a.weight == b.weight
    && a.keys == b.keys
    && a.shards == b.shards
    && bytes_eq a.root.digest b.root.digest
    && a.root.size == b.root.size
    && bytes_eq a.root_bytes b.root_bytes

unfoldable pub levels_eq : List (Option Run) → List (Option Run) → Bool
levels_eq [] [] = true
levels_eq (none ∷ xs) (none ∷ ys) = levels_eq xs ys
levels_eq (some a ∷ xs) (some b ∷ ys) = run_eq a b && levels_eq xs ys
levels_eq _ _ = false

-- `l0.starts_with(prefix)`
unfoldable pub starts_with : List Run → List Run → Bool
starts_with l0 [] = true
starts_with [] (b ∷ prefix) = false
starts_with (a ∷ l0) (b ∷ prefix) = run_eq a b && starts_with l0 prefix

-- `next` of a round of the commit loop, from the head read in that round
unfoldable pub commit : Head → List (Option Run) → Head → Result Head
commit planned levels current =
    if not (levels_eq current.levels planned.levels)
      || not (starts_with current.l0 (take l0_trigger planned.l0))
    then err head_changed
    else ok (record current { l0 = drop l0_trigger current.l0; levels = levels })
