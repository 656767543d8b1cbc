-- ===== src/Tiered/Collect.antt =====
-- `collect_garbage` of src/tiered.rs. A set of keys is a list without repeats; the deletions, which
-- the program runs side by side, are in the order of the listing.
pub mod Live
pub mod Covers
pub mod Safety
use fossil.Base.{
  Bool, List, Option, Result, [], err, false, if◌then◌else◌, length, ltb, missing_head, none, ok,
  some, suc, true, zero, ℕ, ◌+◌, ◌-◌, ◌>>=◌, ◌||◌, ◌∷◌,
}
use fossil.Bytes.{Bytes, bytes_eq}
use fossil.Extern.{Sha256, Hex}
use fossil.Codec.{ObjectRef}
use fossil.Codec.Root.{decode_root}
use fossil.Codec.Walk.{object_refs}
use fossil.Head.Manifest.{Run, Head, Ref, runs, max_head}
use fossil.Summary.{ShardKind, address_shard, spill_shard}
use fossil.Summary.Path.{shard_path, object_key}
use fossil.Tiered.Reader.{fetch}

pub record Listed : Type 0 where
  pub key : Bytes
  pub size : ℕ
  pub modified : ℕ

pub record GcReport : Type 0 where
  pub live_objects : ℕ
  pub deleted_objects : ℕ
  pub deleted_bytes : ℕ
  pub kept_young : ℕ

-- `HashSet::contains`, `insert` and `extend`
unfoldable pub has_key : Bytes → List Bytes → Bool
has_key key [] = false
has_key key (k ∷ live) = bytes_eq k key || has_key key live

unfoldable pub keep : Bytes → List Bytes → List Bytes
keep key live = if has_key key live then live else key ∷ live

unfoldable pub keep_all : List Bytes → List Bytes → List Bytes
keep_all [] live = live
keep_all (key ∷ keys) live = keep_all keys (keep key live)

module _ (sha : Sha256) (hex : Hex) (get_bounded : Bytes → ℕ → Result Bytes) where
  unfoldable pub keys_of : List ObjectRef → List Bytes
  keys_of [] = []
  keys_of (r ∷ refs) = object_key hex r.digest ∷ keys_of refs

  -- The paths of the shards of one kind, from index 0 on.
  unfoldable pub shard_paths : Run → ShardKind → ℕ → List Bytes
  shard_paths run kind zero = []
  shard_paths run kind (suc index) =
      shard_path hex run.root.digest run.shards kind index ∷ shard_paths run kind index

  -- the loop of `reachable` over the runs
  unfoldable pub reach_runs : List Run → List Bytes → Result (List Bytes)
  reach_runs [] live = ok live
  reach_runs (run ∷ rest) live = do
    bytes ← hex.decode run.root_bytes
    let root = object_key hex run.root.digest
    (if has_key root live then reach_runs rest live else (do
      indexes ← decode_root sha (record { digest = run.root.digest; size = run.root.size }) bytes
      refs ← object_refs sha (fetch sha hex get_bounded) indexes
      let objects = keep_all (keys_of refs) (keep root live)
      let address = keep_all (shard_paths run address_shard run.shards) objects
      reach_runs rest (keep_all (shard_paths run spill_shard run.shards) address)))

  -- The copies of replaced heads; `parent_of` is serde_json over a copy, with the parent read out.
  module _ (parent_of : Bytes → Option Ref) where
    unfoldable pub reach_copies : ℕ → Option Ref → List Bytes → List Bytes
    reach_copies zero parent live = live
    reach_copies (suc keep_heads) none live = live
    reach_copies (suc keep_heads) (some reference) live =
        let key = object_key hex reference.digest in
        elim (get_bounded key max_head) [
          | err why ↦ live
          | ok bytes ↦ reach_copies keep_heads (parent_of bytes) (keep key live)
        ]

    unfoldable pub reachable : Head → ℕ → List Bytes → Result (List Bytes)
    reachable head keep_heads live = do
      live' ← reach_runs (runs head) live
      ok (reach_copies keep_heads head.parent live')

-- The listed objects that are not live: how many are young, and the others.
unfoldable pub select : List Bytes → ℕ → List Listed → ℕ × List Listed
select live cutoff [] = (0, [])
select live cutoff (l ∷ listed) =
    let (young, doomed) = select live cutoff listed in
    if has_key l.key live
    then (young, doomed)
    else if ltb cutoff l.modified
    then (suc young, doomed)
    else (young, l ∷ doomed)

-- `is_none_or(|modified| modified > cutoff)`
unfoldable pub is_fresh : ℕ → Option ℕ → Bool
is_fresh cutoff none = true
is_fresh cutoff (some modified) = ltb cutoff modified

-- With the store's `modified` and `delete`.
module _ (modified : Bytes → Result (Option ℕ)) (delete : Bytes → Result (Unit {0})) where
  -- What is done with one candidate: its size, if it was deleted.
  unfoldable pub reap_one : ℕ → Bool → Listed → Result (Option ℕ)
  reap_one cutoff dry_run l = do
    now ← modified l.key
    (if is_fresh cutoff now
        then ok none
        else if dry_run
        then ok (some l.size)
        else (do gone ← delete l.key; ok (some l.size)))

  -- The candidates with their outcomes.
  unfoldable pub reap : ℕ → Bool → List Listed → Result (List (Listed × Option ℕ))
  reap cutoff dry_run [] = ok []
  reap cutoff dry_run (l ∷ doomed) = do
    outcome ← reap_one cutoff dry_run l
    outcomes ← reap cutoff dry_run doomed
    ok ((l, outcome) ∷ outcomes)

unfoldable pub count_deleted : List (Listed × Option ℕ) → ℕ
count_deleted [] = 0
count_deleted ((l, none) ∷ outcomes) = count_deleted outcomes
count_deleted ((l, some size) ∷ outcomes) = suc (count_deleted outcomes)

unfoldable pub count_bytes : List (Listed × Option ℕ) → ℕ
count_bytes [] = 0
count_bytes ((l, none) ∷ outcomes) = count_bytes outcomes
count_bytes ((l, some size) ∷ outcomes) = size + count_bytes outcomes

unfoldable pub count_kept : List (Listed × Option ℕ) → ℕ
count_kept [] = 0
count_kept ((l, none) ∷ outcomes) = suc (count_kept outcomes)
count_kept ((l, some size) ∷ outcomes) = count_kept outcomes

unfoldable pub read_or : Option Head → Result Head
read_or none = err missing_head
read_or (some head) = ok head

module _ (sha : Sha256) (hex : Hex) (get_bounded : Bytes → ℕ → Result Bytes)
    (parent_of : Bytes → Option Ref) (modified : Bytes → Result (Option ℕ))
    (delete : Bytes → Result (Unit {0})) where
  -- `collect_garbage` with the head before the listing, the listing, and the head after it. The
  -- start lies after the epoch by more than the age. Beside the report stands what was done with
  -- each candidate.
  unfoldable pub collect_garbage :
      Option Head
      → List Listed
      → Option Head
      → ℕ
      → ℕ
      → ℕ
      → Bool
      → Result (GcReport × List (Listed × Option ℕ))
  collect_garbage before listed after started keep_heads min_age dry_run = do
    head ← read_or before
    live1 ← reachable sha hex get_bounded parent_of head keep_heads []
    head' ← read_or after
    live ← reachable sha hex get_bounded parent_of head' keep_heads live1
    let cutoff = started - min_age
    let chosen = select live cutoff listed
    outcomes ← reap modified delete cutoff dry_run chosen.1
    ok (
      record {
        live_objects = length live;
        deleted_objects = count_deleted outcomes;
        deleted_bytes = count_bytes outcomes;
        kept_young = chosen.0 + count_kept outcomes;
      },
      outcomes,
    )
