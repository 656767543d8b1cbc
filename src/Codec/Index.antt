-- ===== src/Codec/Index.antt =====
-- Fence indexes: leaves that name data pages, and internal roots that name leaves.
use fossil.Base.{
  Bool, List, Option, Result, [], bad_count, bad_fence, bad_header, bad_length, bail_if, err, false,
  get_last?, get_or, if◌then◌else◌, length, ltb, none, not, not_sorted, ok, some, suc, take,
  too_large, too_long, zero, ℕ, ◌%◌, ◌++◌, ◌+◌, ◌-◌, ◌/◌, ◌==◌, ◌>>=◌, ◌>>◌, ◌^◌, ◌||◌, ◌∷◌,
}
use fossil.Bytes.{Bytes, bytes_eq, version_le, read_bytes, from_be, be_bytes, slice}
use fossil.Extern.{Sha256}
use fossil.Codec.{
  ObjectRef, Fence, fence_version, version, is_empty, read_u32, read_u64, read_ref, put_ref,
  partition, bad_ref, no_object, ref_eq, ref_bytes, max_index_bytes, max_page_bytes, internal_magic,
  verify_object,
}

-- `index_size`; its sums fit in a `usize`
unfoldable pub index_size_from : ℕ → List Fence → ℕ
index_size_from size [] = size
index_size_from size (fence ∷ entries) =
    index_size_from (size + (4 + length fence.key + 8 + ref_bytes)) entries

unfoldable pub index_size : List Fence → ℕ
index_size = index_size_from 9

-- `put_bytes`
unfoldable pub put_bytes : Bytes → Result Bytes
put_bytes bytes =
    if ltb (length bytes) (2 ^ 32) then ok (be_bytes 4 (length bytes) ++ bytes) else err too_long

-- the loop over the entries
unfoldable pub put_fences : Bytes → List Fence → Result Bytes
put_fences out [] = ok out
put_fences out (fence ∷ entries) = do
  key ← put_bytes fence.key
  put_fences (out ++ (key ++ (be_bytes 8 fence.block ++ put_ref fence.object))) entries

-- `entries.len() as u32`
unfoldable pub index_header : Bytes → ℕ → Bytes
index_header magic count = magic ++ (version ∷ be_bytes 4 (count % 2 ^ 32))

unfoldable pub encode_index : List Fence → Bytes → Result Bytes
encode_index entries magic = do
  bail_if (ltb max_index_bytes (index_size entries)) too_large
  put_fences (index_header magic (length entries)) entries

-- The four reads of a round of `decode_index`.
unfoldable pub read_fence : Bytes → ℕ → Result (Fence × ℕ)
read_fence bytes cursor = do
  (key_len, c1) ← read_u32 bytes cursor
  (key, c2) ← read_bytes bytes c1 key_len
  (block, c3) ← read_u64 bytes c2
  (object, c4) ← read_ref bytes c3
  ok (record { key = key; block = block; object = object }, c4)

-- The limit on what a fence names: an index under an internal root, a page under a leaf.
unfoldable pub named_limit : Bytes → ℕ
named_limit magic = if bytes_eq magic internal_magic then max_index_bytes else max_page_bytes

unfoldable pub fence_out_of_order : Option Fence → Fence → Bool
fence_out_of_order none f = false
fence_out_of_order (some prior) f = version_le (fence_version f) (fence_version prior)

module _ (sha : Sha256) where
  unfoldable pub invalid_fence : ℕ → Bytes → Fence → Bool
  invalid_fence shard magic f =
      is_empty f.key
      || not (partition sha f.key == shard)
      || ref_eq f.object no_object
      || bad_ref (named_limit magic) f.object

  unfoldable pub fence_loop : ℕ → ℕ → Bytes → Bytes → ℕ → List Fence → Result (List Fence × ℕ)
  fence_loop zero shard magic bytes cursor fences = ok (fences, cursor)
  fence_loop (suc count) shard magic bytes cursor fences = do
    (f, end) ← read_fence bytes cursor
    bail_if (invalid_fence shard magic f) bad_fence
    bail_if (fence_out_of_order (get_last? fences) f) not_sorted
    fence_loop count shard magic bytes end (fences ++ f ∷ [])

  unfoldable pub bad_index_header : Bytes → Bytes → Bool
  bad_index_header magic bytes =
      ltb max_index_bytes (length bytes)
      || ltb (length bytes) 9
      || not (bytes_eq (take 4 bytes) magic)
      || not (get_or bytes 4 0 == version)

  unfoldable pub index_mismatch : Bytes → List Fence → ℕ → Bool
  index_mismatch bytes fences cursor = not (cursor == length bytes) || is_empty fences

  unfoldable pub decode_index : ObjectRef → Bytes → ℕ → Bytes → Result (List Fence)
  decode_index reference bytes shard magic = do
    bail_if (ltb max_index_bytes (length bytes)) too_large
    verify_object sha reference bytes
    bail_if (bad_index_header magic bytes) bad_header
    let count = from_be (slice bytes 5 9)
    bail_if (ltb ((length bytes - 9) / (4 + 1 + 8 + ref_bytes)) count) bad_count
    (fences, cursor) ← fence_loop count shard magic bytes 9 []
    bail_if (index_mismatch bytes fences cursor) bad_length
    ok fences
