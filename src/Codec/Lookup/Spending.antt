-- ===== src/Codec/Lookup/Spending.antt =====
-- `RunReader::lookup` of codec/src/run.rs over a fetch that passes a state along, such as a budget.
use fossil.Base.{
  List, Option, Result, bad_fence_ref, bad_leaf, bad_page, bail_if, get_or, if◌then◌else◌, none, ok,
  some, take, ℕ, ◌>>=◌, ◌>>◌, ◌||◌,
}
use fossil.Bytes.{Bytes, Version, bytes_eq}
use fossil.Extern.{Sha256, Zstd}
use fossil.Codec.{
  ObjectRef, Fence, fence_version, is_empty, bad_ref, ref_eq, no_object, partition, max_index_bytes,
  max_page_bytes, internal_magic, index_magic,
}
use fossil.Codec.Index.{decode_index}
use fossil.Codec.Page.{decode_data_page}
use fossil.Codec.Lookup.{before_point, fence_within, misses_record, misses_start, search_page}

module _ {S : Type 0} (sha : Sha256) (zstd : Zstd)
    (charged : ObjectRef → S → Result (Bytes × S)) where
  unfoldable pub spend_fence : ℕ → Bytes → ℕ → Option Fence → S → Result (Option Bytes × S)
  spend_fence shard key block none s = ok (none, s)
  spend_fence shard key block (some f) s = do
    bail_if (bad_ref max_page_bytes f.object) bad_fence_ref
    (page_bytes, s1) ← charged f.object s
    records ← decode_data_page sha zstd f.object page_bytes shard
    bail_if (misses_record records (fence_version f)) bad_page
    ok (search_page records key block, s1)

  unfoldable pub spend_leaf :
      ℕ → Bytes → ℕ → ObjectRef → Bytes → Option Version → S → Result (Option Bytes × S)
  spend_leaf shard key block leaf_ref leaf_bytes expected_start s = do
    fences ← decode_index sha leaf_ref leaf_bytes shard index_magic
    bail_if (misses_start fences expected_start) bad_leaf
    spend_fence shard key block
        (before_point (fence_within (record { key = key; block = block })) fences) s

  unfoldable pub spend_parent : ℕ → Bytes → ℕ → Option Fence → S → Result (Option Bytes × S)
  spend_parent shard key block none s = ok (none, s)
  spend_parent shard key block (some entry) s = do
    bail_if (bad_ref max_index_bytes entry.object) bad_fence_ref
    (bytes, s1) ← charged entry.object s
    spend_leaf shard key block entry.object bytes (some (fence_version entry)) s1

  unfoldable pub spend_root : ℕ → Bytes → ℕ → ObjectRef → Bytes → S → Result (Option Bytes × S)
  spend_root shard key block root_ref root_bytes s =
      if bytes_eq (take 4 root_bytes) internal_magic
      then (do
        parents ← decode_index sha root_ref root_bytes shard internal_magic
        spend_parent shard key block
            (before_point (fence_within (record { key = key; block = block })) parents) s)
      else spend_leaf shard key block root_ref root_bytes none s

  unfoldable pub spend_run : List ObjectRef → Bytes → ℕ → S → Result (Option Bytes × S)
  spend_run indexes key block s =
      let shard = partition sha key in
      let root_ref = get_or indexes shard no_object in
      if is_empty key || ref_eq root_ref no_object then ok (none, s) else (do
        bail_if (bad_ref max_index_bytes root_ref) bad_fence_ref
        (root_bytes, s1) ← charged root_ref s
        spend_root shard key block root_ref root_bytes s1)
