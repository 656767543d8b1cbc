-- ===== src/Compact/Runs.antt =====
-- `merge_runs` of src/compact.rs from its scanners on, over any scanners and a store whose state is
-- passed along. Its producer, builder and uploader run side by side and pass records and objects on;
-- where none of them fails that is one after the other. The puts are in the order of their list.
pub mod Whole
use fossil.Base.{List, Result, [], if◌then◌else◌, length, ltb, ok, ℕ, ◌>>=◌, ◌>>◌, ◌∷◌}
use fossil.Bytes.{Bytes}
use fossil.Extern.{Sha256, Hex, Zstd}
use fossil.Codec.Page.{EncodedObject}
use fossil.Codec.Builder.{build}
use fossil.Compact.Merge.{Scan, merge}
use fossil.Compact.Write.{finish, object_puts, put_all}
use fossil.Store.Immutable.{ImmutableStore}
use fossil.Tiered.Compaction.{BuiltRun}

-- the bytes of the last object below 4096 bytes, or those before it
unfoldable pub small_bytes : Bytes → List EncodedObject → Bytes
small_bytes root_bytes [] = root_bytes
small_bytes root_bytes (o ∷ rest) =
    small_bytes (if ltb (length o.bytes) 4096 then o.bytes else root_bytes) rest

module _ (Scanner : Type 0) (sha : Sha256) (hex : Hex) (zstd : Zstd) (store : ImmutableStore) where
  -- The rounds behind the scanners; `next` is the scanners' next record.
  unfoldable pub merge_runs :
      ℕ → Scan Scanner → List Scanner → ℕ → store.State → Result (BuiltRun × store.State)
  merge_runs fuel next scanners expected_keys s = do
    sent ← merge Scanner sha fuel next scanners expected_keys
    (root, objects) ← build sha zstd sent.records
    s1 ← put_all sha hex zstd store (object_puts sha hex objects) s
    s2 ← put_all sha hex zstd store (finish sha hex sent.summary root.digest) s1
    let run : BuiltRun = record {
      root = record { digest = root.digest; size = root.size };
      root_bytes = small_bytes [] objects;
      keys = sent.summary.keys;
      shards = sent.summary.shards;
    }
    ok (run, s2)
