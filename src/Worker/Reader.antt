-- ===== src/Worker/Reader.antt =====
-- `Reader` of worker/src/core.rs. Its cells are passed along; after an error the request ends, and
-- so does the reader. A HashMap is the list of its inserts, newest first. ArchiveError::Limit is
-- `limit`, and ArchiveError::Integrity is `integrity` and every error of the codec.
pub mod Alike
pub mod Agrees
pub mod Answers
use fossil.Base.{
  Bool, List, Option, Result, [], bail_if, err, false, if◌then◌else◌, integrity, length, limit, ltb,
  min, none, not, ok, some, true, ℕ, ◌*◌, ◌++◌, ◌+◌, ◌==◌, ◌>>=◌, ◌>>◌, ◌||◌, ◌∷◌,
}
use mathlib.Core.List.{reverse}
use fossil.Bytes.{Bytes, bytes_eq}
use fossil.Extern.{Sha256, Hex, Zstd}
use fossil.Head.Account.{zero32, decode}
use fossil.Head.Keys.{account_key, storage_key, code_key}
use fossil.Head.Manifest.{Run, Head, runs, max_head}
use fossil.Codec.{ObjectRef}
use fossil.Codec.Lookup.Spending.{spend_run}
use fossil.Codec.Root.{decode_root}
use fossil.Summary.{
  ShardKind, address_shard, spill_shard, decode_shard, shard_contains, shard_index, spill_index,
  group, route, marker, max_shard_bytes,
}
use fossil.Summary.Path.{shard_path, object_key}

abbrev pub max_remote_gets : ℕ
max_remote_gets = 192

abbrev pub max_request_bytes : ℕ
max_request_bytes = 128 * 1024 * 1024

abbrev pub max_object_bytes : ℕ
max_object_bytes = 1024 * 1024

-- The hash of no code, which the worker writes out.
abbrev pub empty_code_hash : Bytes
empty_code_hash =
    0xc5 ∷ 0xd2 ∷ 0x46 ∷ 0x01 ∷ 0x86 ∷ 0xf7 ∷ 0x23 ∷ 0x3c ∷ 0x92 ∷ 0x7e ∷ 0x7d ∷ 0xb2 ∷ 0xdc ∷ 0xc7
    ∷ 0x03 ∷ 0xc0 ∷ 0xe5 ∷ 0x00 ∷ 0xb6 ∷ 0x53 ∷ 0xca ∷ 0x82 ∷ 0x27 ∷ 0x3b ∷ 0x7b ∷ 0xfa ∷ 0xd8
    ∷ 0x04 ∷ 0x5d ∷ 0x85 ∷ 0xa4 ∷ 0x70 ∷ []

pub record Account : Type 0 where
  pub exists : Bool
  pub incarnation : ℕ
  pub nonce : ℕ
  pub balance : Bytes
  pub code_hash : Bytes

pub record Cells : Type 0 where
  pub gets : ℕ
  pub fetched : ℕ
  pub shards : List (Bytes × Bytes)

abbrev pub fresh_cells : Cells
fresh_cells = record { gets = 0; fetched = 0; shards = [] }

unfoldable pub memoized : List (Bytes × Bytes) → Bytes → Option Bytes
memoized [] path = none
memoized ((key, shard) ∷ entries) path =
    if bytes_eq path key then some shard else memoized entries path

-- `runs` of the reader: a run with the references of its root.
abbrev pub LoadedRun : Type 0
LoadedRun = Run × List ObjectRef

module _ (sha : Sha256) (hex : Hex) (zstd : Zstd) (store : Bytes → ℕ → Result Bytes)
    (prefix : Bytes) where
  unfoldable pub get : Bytes → ℕ → Cells → Result (Bytes × Cells)
  get key maximum s = do
    let gets = s.gets + 1
    let fetched = s.fetched + maximum
    bail_if (ltb max_remote_gets gets || ltb max_request_bytes fetched) limit
    bytes ← store key maximum
    ok (bytes, record s { gets = gets; fetched = fetched })

  unfoldable pub object : ObjectRef → Cells → Result (Bytes × Cells)
  object reference s = do
    bail_if (reference.size == 0 || ltb max_object_bytes reference.size) integrity
    (bytes, s1) ← get (prefix ++ object_key hex reference.digest) reference.size s
    bail_if
        (not (length bytes == reference.size) || not (bytes_eq (sha.digest bytes) reference.digest))
        integrity
    ok (bytes, s1)

  -- `Reader::shard` from what the map answers
  unfoldable pub load_shard : Option Bytes → Run → ShardKind → ℕ → Cells → Result (Bytes × Cells)
  load_shard (some found) run kind index s = ok (found, s)
  load_shard none run kind index s = do
    let path = prefix ++ shard_path hex run.root.digest run.shards kind index
    (bytes, s1) ← get path max_shard_bytes s
    found ← decode_shard sha run.root.digest kind index run.shards bytes
    ok (found, record s1 { shards = (path, found) ∷ s1.shards })

  unfoldable pub shard_of : Run → ShardKind → ℕ → Cells → Result (Bytes × Cells)
  shard_of run kind index s =
      load_shard
        (memoized s.shards (prefix ++ shard_path hex run.root.digest run.shards kind index)) run
        kind index s

  -- `Reader::may_contain`
  unfoldable pub probe_run : Run → Bytes → Cells → Result (Bool × Cells)
  probe_run run key s = do
    (address, s1) ← shard_of run address_shard (shard_index sha (route (group key)) run.shards) s
    (if shard_contains sha address key
        then ok (true, s1)
        else if not (shard_contains sha address (marker (group key)))
        then ok (false, s1)
        else (do
          (spill, s2) ← shard_of run spill_shard (spill_index sha (sha.digest key) run.shards) s1
          ok (shard_contains sha spill key, s2)))

  -- The body of the loop of `Reader::lookup`.
  unfoldable pub visit_loaded : LoadedRun → Bytes → ℕ → Cells → Result (Option Bytes × Cells)
  visit_loaded (run, indexes) key block s = if ltb block run.start then ok (none, s) else (do
    (hit, s1) ← probe_run run key s
    (if hit then spend_run sha zstd object indexes key (min block run.end) s1 else ok (none, s1)))

  unfoldable pub visit_all : List LoadedRun → Bytes → ℕ → Cells → Result (Option Bytes × Cells)
  visit_all [] key block s = ok (none, s)
  visit_all (run ∷ older) key block s = do
    (value, s1) ← visit_loaded run key block s
    elim value [ some v ↦ ok (some v, s1) | none ↦ visit_all older key block s1 ]

  -- `Reader::lookup`, with the runs oldest first
  unfoldable pub lookup_at : List LoadedRun → Bytes → ℕ → Cells → Result (Option Bytes × Cells)
  lookup_at loaded key block s = visit_all (reverse loaded) key block s

  unfoldable pub live : Account → Option Account
  live account = if account.exists then some account else none

  unfoldable pub account_at : List LoadedRun → Bytes → ℕ → Cells → Result (Option Account × Cells)
  account_at loaded address block s = do
    (value, s1) ← lookup_at loaded (account_key address) block s
    elim value [
      | none ↦ ok (none, s1)
      | some bytes ↦ (do
        state ← decode bytes
        ok (
          live (record {
            exists = state.exists;
            incarnation = state.incarnation;
            nonce = state.nonce;
            balance = state.balance;
            code_hash = state.code_hash;
          }),
          s1,
        ))
    ]

  -- `try_into` of a value to 32 bytes
  unfoldable pub word_of : Option Bytes → Result Bytes
  word_of none = ok zero32
  word_of (some value) = if length value == 32 then ok value else err integrity

  unfoldable pub storage_from :
      List LoadedRun → Bytes → Bytes → ℕ → Option Account → Cells → Result (Bytes × Cells)
  storage_from loaded address slot block none s = ok (zero32, s)
  storage_from loaded address slot block (some account) s = do
    (value, s1) ← lookup_at loaded (storage_key address account.incarnation slot) block s
    word ← word_of value
    ok (word, s1)

  unfoldable pub storage_at : List LoadedRun → Bytes → Bytes → ℕ → Cells → Result (Bytes × Cells)
  storage_at loaded address slot block s = do
    (account, s1) ← account_at loaded address block s
    storage_from loaded address slot block account s1

  -- With Keccak-256 of the crate sha3.
  module _ (keccak : Bytes → Bytes) where
    unfoldable pub checked_code : Bytes → Option Bytes → Result Bytes
    checked_code code_hash none = err integrity
    checked_code code_hash (some bytes) = do
      bail_if (ltb max_object_bytes (length bytes) || not (bytes_eq (keccak bytes) code_hash))
          integrity
      ok bytes

    unfoldable pub code_from : List LoadedRun → ℕ → Option Account → Cells → Result (Bytes × Cells)
    code_from loaded block none s = ok ([], s)
    code_from loaded block (some account) s =
        if bytes_eq account.code_hash empty_code_hash then ok ([], s) else (do
          (value, s1) ← lookup_at loaded (code_key account.code_hash) block s
          bytes ← checked_code account.code_hash value
          ok (bytes, s1))

    unfoldable pub code_at : List LoadedRun → Bytes → ℕ → Cells → Result (Bytes × Cells)
    code_at loaded address block s = do
      (account, s1) ← account_at loaded address block s
      code_from loaded block account s1

-- The loop of `Reader::load` over the runs of the head, with `Run::input` read out.
module _ (sha : Sha256) (hex : Hex) where
  unfoldable pub load_runs : List Run → Result (List LoadedRun)
  load_runs [] = ok []
  load_runs (run ∷ rest) = do
    bytes ← hex.decode run.root_bytes
    indexes ← decode_root sha (record { digest = run.root.digest; size = run.root.size }) bytes
    others ← load_runs rest
    ok ((run, indexes) ∷ others)

module _ (sha : Sha256) (hex : Hex) (zstd : Zstd) (store : Bytes → ℕ → Result Bytes)
    (prefix : Bytes) (head_key : ℕ → Bytes) (decode_head : Bytes → Result Head) where
  -- `Reader::load`: the head and its runs, at the price of one GET of the head.
  unfoldable pub load : ℕ → Result (Head × List LoadedRun × Cells)
  load chain_id = do
    (bytes, s) ← get sha hex zstd store prefix (prefix ++ head_key chain_id) max_head fresh_cells
    head ← decode_head bytes
    bail_if (not (head.chain_id == chain_id)) integrity
    loaded ← load_runs sha hex (runs head)
    ok (head, loaded, s)
