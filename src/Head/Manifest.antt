-- ===== src/Head/Manifest.antt =====
-- The manifest in the head, and `Head::decode` behind the JSON parser.
pub mod Levels
pub mod Coverage
pub mod Validity
use fossil.Base.{
  Bool, List, Option, Result, [], bail_if, false, invalid_head, invalid_l0_weight,
  invalid_level_weight, invalid_run, leb, length, ltb, none, not, not_covering, ok, some, suc, zero,
  ℕ, ◌%◌, ◌*◌, ◌++◌, ◌+◌, ◌==◌, ◌>>=◌, ◌>>◌, ◌^◌, ◌||◌, ◌∷◌,
}
use fossil.Bytes.{Bytes, bytes_eq}
use fossil.Extern.{Sha256, Hex}
use mathlib.Core.List.{reverse}

abbrev pub l0_trigger : ℕ
l0_trigger = 4

abbrev pub max_l0_backlog : ℕ
max_l0_backlog = 16

abbrev pub fanout : ℕ
fanout = 8

abbrev pub max_levels : ℕ
max_levels = 8

abbrev pub max_head : ℕ
max_head = 256 * 1024

pub record Ref : Type 0 where
  pub digest : Bytes
  pub size : ℕ

pub record Run : Type 0 where
  pub start : ℕ
  pub end : ℕ
  pub weight : ℕ
  pub keys : ℕ
  pub shards : ℕ
  pub root : Ref
  pub root_bytes : Bytes

pub record Head : Type 0 where
  pub magic : Bytes
  pub chain_id : ℕ
  pub genesis : Bytes
  pub number : ℕ
  pub hash : Bytes
  pub state_root : Bytes
  pub input_sha256 : Bytes
  pub parent : Option Ref
  pub l0 : List Run
  pub levels : List (Option Run)

-- "FTVH1"
abbrev pub head_magic : Bytes
head_magic = b'F' ∷ b'T' ∷ b'V' ∷ b'H' ∷ b'1' ∷ []

-- `flatten` of an iterator of options
unfoldable pub flatten_runs : List (Option Run) → List Run
flatten_runs [] = []
flatten_runs (none ∷ levels) = flatten_runs levels
flatten_runs (some run ∷ levels) = run ∷ flatten_runs levels

-- Runs oldest first.
unfoldable pub runs : Head → List Run
runs head = flatten_runs (reverse head.levels) ++ head.l0

-- 4 * 8 ^ level; a `u64` holds it at each of the levels that a head may have.
unfoldable pub unit : ℕ → ℕ
unit level = 4 * 8 ^ level

-- `run.weight != 1` of some L0 run
unfoldable pub any_heavy : List Run → Bool
any_heavy [] = false
any_heavy (run ∷ rest) = not (run.weight == 1) || any_heavy rest

bad_weight : ℕ → ℕ → Bool
bad_weight index weight =
    weight == 0 || not (weight % unit index == 0) || leb (unit index * fanout) weight

-- the loop over the levels, from `index` on
unfoldable pub check_levels : ℕ → List (Option Run) → Result (Unit {0})
unfolding bad_weight
check_levels index [] = ok tt
check_levels index (none ∷ levels) = check_levels (suc index) levels
check_levels index (some run ∷ levels) = do
  bail_if (bad_weight index run.weight) invalid_level_weight
  check_levels (suc index) levels

-- `u32::is_power_of_two`: one of the `bits` lowest powers.
unfoldable pub power_below : ℕ → ℕ → Bool
power_below zero n = false
power_below (suc bits) n = n == 2 ^ bits || power_below bits n

abbrev pub is_power_of_two : ℕ → Bool
is_power_of_two = power_below 32

-- the first and the last guard of `Head::decode`
unfoldable pub bad_bounds : Head → Bool
bad_bounds head =
    not (bytes_eq head.magic head_magic)
    || ltb max_l0_backlog (length head.l0)
    || ltb max_levels (length head.levels)

unfoldable pub uncovered : Head → ℕ → ℕ → Bool
uncovered head expected_start count =
    count == 0 || not (expected_start == (head.number + 1) % 2 ^ 64)

module _ (sha : Sha256) (hex : Hex) where
  -- the test of one run in the loop over the runs
  unfoldable pub bad_run : Run → ℕ → Bytes → Bool
  bad_run run expected_start root =
      not (run.start == expected_start)
      || ltb run.end run.start
      || not (is_power_of_two run.shards)
      || not (length root == run.root.size)
      || not (bytes_eq (sha.digest root) run.root.digest)

  -- The loop over the runs, with its variables `expected_start` and `count`. `run.end + 1` is a
  -- `u64`, which wraps.
  unfoldable pub check_runs : ℕ → ℕ → List Run → Result (ℕ × ℕ)
  check_runs expected_start count [] = ok (expected_start, count)
  check_runs expected_start count (run ∷ rest) = do
    root ← hex.decode run.root_bytes
    bail_if (bad_run run expected_start root) invalid_run
    check_runs ((run.end + 1) % 2 ^ 64) (suc count) rest

  -- `Head::decode` after `serde_json::from_slice`
  unfoldable pub validate : Head → Result Head
  validate head = do
    bail_if (bad_bounds head) invalid_head
    bail_if (any_heavy head.l0) invalid_l0_weight
    check_levels 0 head.levels
    (expected_start, count) ← check_runs 0 0 (runs head)
    bail_if (uncovered head expected_start count) not_covering
    ok head
