-- ===== src/Codec/Lookup.antt =====
-- `RunReader::lookup`: the newest version of a key at or before a block.
pub mod Spending
pub mod Newest
pub mod Pages
pub mod Found
pub mod Tree
use fossil.Base.{
  Bool, List, Option, Result, [], bad_fence_ref, bad_leaf, bad_page, bail_if, false, get_elem?,
  get_or, if◌then◌else◌, none, not, ok, some, suc, take, true, ℕ, ◌-◌, ◌==◌, ◌>>=◌, ◌>>◌, ◌||◌, ◌∷◌,
}
use fossil.Bytes.{Bytes, Version, bytes_eq, version_le, version_eq}
use fossil.Extern.{Sha256, Zstd}
use fossil.Codec.{
  ObjectRef, Record, Fence, version_of, fence_version, is_empty, bad_ref, ref_eq, no_object,
  partition, max_index_bytes, max_page_bytes, internal_magic, index_magic,
}
use fossil.Codec.Index.{decode_index}
use fossil.Codec.Page.{decode_data_page}

-- `slice::partition_point` on a slice that the test splits
unfoldable pub partition_point {ℓ} : {A : Type ℓ} → (A → Bool) → List A → ℕ
partition_point test [] = 0
partition_point test (x ∷ xs) = if test x then suc (partition_point test xs) else 0

-- The element before the partition point, if there is one.
unfoldable pub before_point {ℓ} : {A : Type ℓ} → (A → Bool) → List A → Option A
before_point test xs =
    let position = partition_point test xs in
    if position == 0 then none else get_elem? xs (position - 1)

unfoldable pub record_within : Version → Record → Bool
record_within target r = version_le (version_of r) target

unfoldable pub fence_within : Version → Fence → Bool
fence_within target f = version_le (fence_version f) target

-- The value of the candidate, if it is one of the key.
unfoldable pub of_key : Bytes → Option Record → Option Bytes
of_key key none = none
of_key key (some candidate) = if bytes_eq candidate.key key then some candidate.value else none

unfoldable pub search_page : List Record → Bytes → ℕ → Option Bytes
search_page records key block =
    of_key key (before_point (record_within (record { key = key; block = block })) records)

-- Whether the first record, or the first fence, is not at the version.
unfoldable pub misses_record : List Record → Version → Bool
misses_record [] v = true
misses_record (r ∷ rs) v = not (version_eq (version_of r) v)

unfoldable pub misses_fence : List Fence → Version → Bool
misses_fence [] v = true
misses_fence (f ∷ fs) v = not (version_eq (fence_version f) v)

unfoldable pub misses_start : List Fence → Option Version → Bool
misses_start fences none = false
misses_start fences (some start) = misses_fence fences start

module _ (sha : Sha256) (zstd : Zstd) (fetch : ObjectRef → Result Bytes) where
  unfoldable pub search_fence : ℕ → Bytes → ℕ → Option Fence → Result (Option Bytes)
  search_fence shard key block none = ok none
  search_fence shard key block (some f) = do
    bail_if (bad_ref max_page_bytes f.object) bad_fence_ref
    page_bytes ← fetch f.object
    records ← decode_data_page sha zstd f.object page_bytes shard
    bail_if (misses_record records (fence_version f)) bad_page
    ok (search_page records key block)

  -- from `let fences = decode_index(…)` to the end
  unfoldable pub search_leaf :
      ℕ → Bytes → ℕ → ObjectRef → Bytes → Option Version → Result (Option Bytes)
  search_leaf shard key block leaf_ref leaf_bytes expected_start = do
    fences ← decode_index sha leaf_ref leaf_bytes shard index_magic
    bail_if (misses_start fences expected_start) bad_leaf
    search_fence shard key block
        (before_point (fence_within (record { key = key; block = block })) fences)

  -- the branch below an internal root
  unfoldable pub search_parent : ℕ → Bytes → ℕ → Option Fence → Result (Option Bytes)
  search_parent shard key block none = ok none
  search_parent shard key block (some entry) = do
    bail_if (bad_ref max_index_bytes entry.object) bad_fence_ref
    bytes ← fetch entry.object
    search_leaf shard key block entry.object bytes (some (fence_version entry))

  unfoldable pub search_root : ℕ → Bytes → ℕ → ObjectRef → Bytes → Result (Option Bytes)
  search_root shard key block root_ref root_bytes =
      if bytes_eq (take 4 root_bytes) internal_magic
      then (do
        parents ← decode_index sha root_ref root_bytes shard internal_magic
        search_parent shard key block
            (before_point (fence_within (record { key = key; block = block })) parents))
      else search_leaf shard key block root_ref root_bytes none

  unfoldable pub lookup : List ObjectRef → Bytes → ℕ → Result (Option Bytes)
  lookup indexes key block =
      let shard = partition sha key in
      let root_ref = get_or indexes shard no_object in
      if is_empty key || ref_eq root_ref no_object then ok none else (do
        bail_if (bad_ref max_index_bytes root_ref) bad_fence_ref
        root_bytes ← fetch root_ref
        search_root shard key block root_ref root_bytes)
