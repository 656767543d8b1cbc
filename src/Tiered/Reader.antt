-- ===== src/Tiered/Reader.antt =====
-- `Reader` of src/tiered.rs: the snapshot pinned to one head. A request passes its budget and the
-- cache of decoded shards along; after an error it ends.
pub mod Spending
pub mod Ends
pub mod Refines
pub mod Newest
use fossil.Base.{
  Bool, Option, Result, bad_fence_ref, bail_if, false, if◌then◌else◌, length, limit, ltb, none, not,
  object_mismatch, ok, over_budget, some, true, ℕ, ◌*◌, ◌+◌, ◌==◌, ◌>>=◌, ◌>>◌, ◌||◌, ◌≡◌, ◌⊎◌,
}
use fossil.Bytes.{Bytes, bytes_eq}
use fossil.Extern.{Sha256, Hex}
use fossil.Head.Account.{zero32}
use fossil.Head.Manifest.{Run}
use fossil.Codec.{ObjectRef}
use fossil.Summary.{
  ShardKind, address_shard, spill_shard, decode_shard, shard_contains, shard_index, spill_index,
  group, route, marker, max_shard_bytes,
}
use fossil.Summary.Path.{shard_path, object_key}

abbrev pub max_gets : ℕ
max_gets = 192

abbrev pub max_bytes : ℕ
max_bytes = 128 * 1024 * 1024

-- `PAGE_LIMIT` of src/compact.rs
abbrev pub page_limit : ℕ
page_limit = 1024 * 1024

-- crate moka, which may drop an entry at any time and answers with what was inserted
pub record ShardCache : Type 1 where
  pub Store : Type 0
  pub empty : Store
  pub get : Store → Bytes → Option Bytes
  pub insert : Store → Bytes → Bytes → Store
  pub get_empty : (path : Bytes) → get empty path ≡ none
  pub get_insert :
      (store : Store) (path shard other found : Bytes)
      → get (insert store path shard) other ≡ some found
      → ((other ≡ path) × (found ≡ shard)) ⊎ (get store other ≡ some found)

module _ (cache : ShardCache) where
  pub record Request : Type 0 where
    pub gets : ℕ
    pub bytes : ℕ
    pub store : cache.Store

  -- `Budget::charge`, with the counters behind it
  unfoldable pub charge : ℕ → Request → Result Request
  charge maximum s = do
    let gets = s.gets + 1
    let bytes = s.bytes + maximum
    bail_if (ltb max_gets gets || ltb max_bytes bytes) over_budget
    ok (record s { gets = gets; bytes = bytes })

module _ (sha : Sha256) (hex : Hex) (get_bounded : Bytes → ℕ → Result Bytes) where
  -- `fetch` of src/compact.rs
  unfoldable pub fetch : ObjectRef → Result Bytes
  fetch reference = do
    let limit = reference.size
    bail_if (limit == 0 || ltb page_limit limit || bytes_eq reference.digest zero32) bad_fence_ref
    bytes ← get_bounded (object_key hex reference.digest) limit
    bail_if (not (length bytes == limit) || not (bytes_eq (sha.digest bytes) reference.digest))
        object_mismatch
    ok bytes

  -- the shard as it is fetched, without the cache
  unfoldable pub fetch_shard : Run → ShardKind → ℕ → Result Bytes
  fetch_shard run kind index = do
    bytes ← get_bounded (shard_path hex run.root.digest run.shards kind index) max_shard_bytes
    decode_shard sha run.root.digest kind index run.shards bytes

  module _ (cache : ShardCache) where
    -- `shard` from what the cache answers
    unfoldable pub load :
        Option Bytes → Run → ShardKind → ℕ → Request cache → Result (Bytes × Request cache)
    load (some found) run kind index s = ok (found, s)
    load none run kind index s = do
      s1 ← charge cache max_shard_bytes s
      found ← fetch_shard run kind index
      let path = shard_path hex run.root.digest run.shards kind index
      ok (found, record s1 { store = cache.insert s1.store path found })

    unfoldable pub shard : Run → ShardKind → ℕ → Request cache → Result (Bytes × Request cache)
    shard run kind index s =
        load (cache.get s.store (shard_path hex run.root.digest run.shards kind index)) run kind
          index s

    -- `Reader::may_contain`
    unfoldable pub probe : Run → Bytes → Request cache → Result (Bool × Request cache)
    probe run key s = do
      (address, s1) ← shard run address_shard (shard_index sha (route (group key)) run.shards) s
      (if shard_contains sha address key
          then ok (true, s1)
          else if not (shard_contains sha address (marker (group key)))
          then ok (false, s1)
          else (do
            (spill, s2) ← shard run spill_shard (spill_index sha (sha.digest key) run.shards) s1
            ok (shard_contains sha spill key, s2)))

    -- the fetch that a lookup is given
    unfoldable pub charged_fetch : ObjectRef → Request cache → Result (Bytes × Request cache)
    charged_fetch reference s = do
      s1 ← charge cache reference.size s
      bytes ← fetch reference
      ok (bytes, s1)
