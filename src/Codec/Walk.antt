-- ===== src/Codec/Walk.antt =====
-- `RunReader::walk`: every object that a run refers to, with only its indexes fetched.
use fossil.Base.{
  List, Result, [], bad_fence_ref, bail_if, if◌then◌else◌, ok, suc, take, ℕ, ◌++◌, ◌>>=◌, ◌>>◌, ◌∷◌,
}
use fossil.Bytes.{Bytes, bytes_eq}
use fossil.Extern.{Sha256}
use fossil.Codec.{
  ObjectRef, Fence, bad_ref, ref_eq, no_object, max_index_bytes, internal_magic, index_magic,
}
use fossil.Codec.Index.{decode_index}

-- The indexes of a run, and its data pages by partition.
abbrev pub Walked : Type 0
Walked = List ObjectRef × List (List ObjectRef)

unfoldable pub objects_of : List Fence → List ObjectRef
objects_of [] = []
objects_of (f ∷ fences) = f.object ∷ objects_of fences

-- `flatten` of the pages
unfoldable pub flatten_pages : List (List ObjectRef) → List ObjectRef
flatten_pages [] = []
flatten_pages (pages ∷ rest) = pages ++ flatten_pages rest

module _ (sha : Sha256) (fetch : ObjectRef → Result Bytes) where
  -- The leaves below an internal root: their references, and their fences.
  unfoldable pub walk_parents : ℕ → List Fence → Result (List ObjectRef × List Fence)
  walk_parents shard [] = ok ([], [])
  walk_parents shard (parent ∷ parents) = do
    bail_if (bad_ref max_index_bytes parent.object) bad_fence_ref
    bytes ← fetch parent.object
    leaf ← decode_index sha parent.object bytes shard index_magic
    (refs, fences) ← walk_parents shard parents
    ok (parent.object ∷ refs, leaf ++ fences)

  unfoldable pub walk_root : ℕ → ObjectRef → Bytes → Result (List ObjectRef × List Fence)
  walk_root shard root bytes =
      if bytes_eq (take 4 bytes) internal_magic
      then (do
        parents ← decode_index sha root bytes shard internal_magic
        walk_parents shard parents)
      else (do fences ← decode_index sha root bytes shard index_magic; ok ([], fences))

  -- one partition
  unfoldable pub walk_slot : ℕ → ObjectRef → Result (List ObjectRef × List ObjectRef)
  walk_slot shard root = if ref_eq root no_object then ok ([], []) else (do
    bail_if (bad_ref max_index_bytes root) bad_fence_ref
    bytes ← fetch root
    (refs, fences) ← walk_root shard root bytes
    ok (root ∷ refs, objects_of fences))

  unfoldable pub walk : ℕ → List ObjectRef → Result Walked
  walk shard [] = ok ([], [])
  walk shard (root ∷ indexes) = do
    (refs, pages) ← walk_slot shard root
    (others, rest) ← walk (suc shard) indexes
    ok (refs ++ others, pages ∷ rest)

  unfoldable pub object_refs : List ObjectRef → Result (List ObjectRef)
  object_refs indexes = do (refs, pages) ← walk 0 indexes; ok (refs ++ flatten_pages pages)

  unfoldable pub data_pages : List ObjectRef → Result (List (List ObjectRef))
  data_pages indexes = do (refs, pages) ← walk 0 indexes; ok pages
