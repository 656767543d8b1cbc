-- ===== src/Compact/Write.antt =====
-- `write_sorted` of src/compact.rs, with `finish` of codec/src/summary.rs, over a store whose state
-- is passed along. The puts, which the program runs side by side, are in the order of their list.
pub mod Distinct
pub mod Stored
pub mod Whole
use fossil.Base.{
  Bool, List, Option, Result, [], bad_value, err, get_last?, if◌then◌else◌, none, not, ok, some,
  true, ℕ, ◌++◌, ◌+◌, ◌>>=◌, ◌>>◌, ◌∷◌,
}
use fossil.Bytes.{Bytes, bytes_eq}
use fossil.Extern.{Sha256, Hex, Zstd}
use fossil.Codec.{Record}
use fossil.Codec.Page.{EncodedObject}
use fossil.Codec.Builder.{build}
use fossil.Summary.{
  ShardKind, SummaryBuilder, add, address_shard, encode_shard, flush, new_builder, spill_shard,
}
use fossil.Store.Immutable.{ImmutableStore}
use fossil.Summary.Path.{object_key, shard_path}
use fossil.Tiered.Compaction.{BuiltRun}

-- `index == 0 || records[index - 1].key != record.key`
unfoldable pub is_new_key : Option Bytes → Bytes → Bool
is_new_key none key = true
is_new_key (some prior) key = not (bytes_eq prior key)

unfoldable pub count_distinct : Option Bytes → List Record → ℕ
count_distinct prior [] = 0
count_distinct prior (r ∷ rest) =
    let others = count_distinct (some r.key) rest in
    if is_new_key prior r.key then 1 + others else others

-- A path and the bytes that are stored under it.
abbrev pub Put : Type 0
Put = Bytes × Bytes

module _ (sha : Sha256) where
  unfoldable pub add_distinct : SummaryBuilder → Option Bytes → List Record → SummaryBuilder
  add_distinct b prior [] = b
  add_distinct b prior (r ∷ rest) =
      add_distinct (if is_new_key prior r.key then add sha b r.key else b) (some r.key) rest

  module _ (hex : Hex) where
    -- The shards of one kind, from an index on.
    unfoldable pub finish_kind : Bytes → ℕ → ShardKind → ℕ → List Bytes → List Put
    finish_kind run shards kind index [] = []
    finish_kind run shards kind index (bits ∷ rest) =
        (shard_path hex run shards kind index, encode_shard sha run kind index shards bits)
        ∷ finish_kind run shards kind (index + 1) rest

    -- `SummaryBuilder::finish`
    unfoldable pub finish : SummaryBuilder → Bytes → List Put
    finish b run =
        let last = flush sha b in
        finish_kind run last.shards address_shard 0 last.address
        ++ finish_kind run last.shards spill_shard 0 last.spill

    unfoldable pub object_puts : List EncodedObject → List Put
    object_puts [] = []
    object_puts (o ∷ rest) = (object_key hex o.reference.digest, o.bytes) ∷ object_puts rest

    module _ (zstd : Zstd) (store : ImmutableStore) where
      unfoldable pub put_all : List Put → store.State → Result store.State
      put_all [] s = ok s
      put_all ((key, bytes) ∷ rest) s = store.put key bytes s >>= put_all rest

      unfoldable pub last_bytes : Option EncodedObject → Result Bytes
      last_bytes none = err bad_value
      last_bytes (some o) = ok (o.bytes)

      unfoldable pub write_sorted : List Record → store.State → Result (BuiltRun × store.State)
      write_sorted records s = do
        fresh ← new_builder (count_distinct none records)
        let summary = add_distinct fresh none records
        (root, objects) ← build sha zstd records
        root_bytes ← last_bytes (get_last? objects)
        s1 ← put_all (object_puts objects) s
        s2 ← put_all (finish summary root.digest) s1
        let run : BuiltRun = record {
          root = record { digest = root.digest; size = root.size };
          root_bytes = root_bytes;
          keys = summary.keys;
          shards = summary.shards;
        }
        ok (run, s2)
