-- ===== src/Codec/Builder.antt =====
-- `RunBuilder::build`: a page, the fences of a leaf and the entries of the internal root for each
-- partition. What is emitted is listed in its order.
pub mod Accepted
use fossil.Base.{
  Bool, List, Option, Result, [], bad_page, bail_if, drop, empty_key, err, false, get_last?, get_or,
  if◌then◌else◌, leb, length, ltb, none, not_sorted, ok, replicate, set, some, take, too_large, ℕ,
  ◌++◌, ◌+◌, ◌==◌, ◌>>=◌, ◌>>◌, ◌∷◌,
}
use fossil.Bytes.{Bytes, Version, version_le, be_bytes}
use fossil.Extern.{Sha256, Zstd}
use fossil.Codec.{
  ObjectRef, Record, Fence, version_of, fence_version, no_object, put_ref, partition, partitions,
  is_empty, version, root_magic, internal_magic, index_magic, max_page_bytes, max_index_bytes,
}
use fossil.Codec.Data.{encode_record, page_header, parse_data_payload}
use fossil.Codec.Index.{index_size, encode_index}
use fossil.Codec.Page.{EncodedObject, make_object, encode_page}

-- The buffers of one partition: the records' bytes behind the header, and their count.
pub record Part : Type 0 where
  pub page : Bytes
  pub count : ℕ
  pub leaves : List Fence
  pub parents : List Fence

pub record Build : Type 0 where
  pub parts : List Part
  pub previous : Option Version
  pub emitted : List EncodedObject

unfoldable pub fresh_part : Part
fresh_part = record { page = page_header 0; count = 0; leaves = []; parents = [] }

unfoldable pub start_build : Build
start_build = record { parts = replicate partitions fresh_part; previous = none; emitted = [] }

-- A part with what was emitted so far.
abbrev pub Emitting : Type 0
Emitting = Part × List EncodedObject

-- `decode_first_record`
unfoldable pub first_of : List Record → Result Record
first_of [] = err bad_page
first_of (r ∷ rest) = ok r

unfoldable pub bad_parent : Option Fence → Fence → Bool
bad_parent none entry = false
bad_parent (some prior) entry = version_le (fence_version entry) (fence_version prior)

-- `pages[partition][5..9].copy_from_slice(&count.to_be_bytes())`
unfoldable pub counted : Bytes → ℕ → Bytes
counted page count = take 5 page ++ (be_bytes 4 count ++ drop 9 page)

module _ (sha : Sha256) where
  unfoldable pub decode_first_record : Bytes → Result Record
  decode_first_record page = do records ← parse_data_payload sha page none; first_of records

  -- `emit_leaf` of leaves that begin with a fence
  unfoldable pub emit_entries : Fence → Part → List EncodedObject → Result Emitting
  emit_entries first part emitted = do
    bytes ← encode_index part.leaves index_magic
    object ← make_object sha bytes
    let entry : Fence = record { key = first.key; block = first.block; object = object.reference }
    bail_if (bad_parent (get_last? part.parents) entry) not_sorted
    let parents = part.parents ++ entry ∷ []
    bail_if (ltb max_index_bytes (index_size parents)) too_large
    ok (record part { leaves = []; parents = parents }, emitted ++ object ∷ [])

  unfoldable pub emit_from : List Fence → Part → List EncodedObject → Result Emitting
  emit_from [] part emitted = ok (part, emitted)
  emit_from (first ∷ rest) part emitted = emit_entries first part emitted

  unfoldable pub emit_leaf : Part → List EncodedObject → Result Emitting
  emit_leaf part emitted = emit_from part.leaves part emitted

  -- `append_leaf_fence`: where the fence does not fit, the leaf before it is emitted.
  unfoldable pub append_leaf_fence : Fence → Part → List EncodedObject → Result Emitting
  append_leaf_fence fence part emitted =
      if leb (index_size (part.leaves ++ fence ∷ [])) max_index_bytes
      then ok (record part { leaves = part.leaves ++ fence ∷ [] }, emitted)
      else (do
        bail_if (is_empty part.leaves) too_large
        (part', emitted') ← emit_leaf part emitted
        bail_if (ltb max_index_bytes (index_size (part'.leaves ++ fence ∷ []))) too_large
        ok (record part' { leaves = part'.leaves ++ fence ∷ [] }, emitted'))

  module _ (zstd : Zstd) where
    unfoldable pub flush_page : Part → List EncodedObject → Result Emitting
    flush_page part emitted = if part.count == 0 then ok (part, emitted) else (do
      let page = counted part.page part.count
      first ← decode_first_record page
      object ← encode_page sha zstd page
      let fence : Fence = record { key = first.key; block = first.block; object = object.reference }
      (part', emitted') ← append_leaf_fence fence part (emitted ++ object ∷ [])
      ok (record part' { page = page_header 0; count = 0 }, emitted'))

    -- A page that has no room for the record is flushed.
    unfoldable pub make_room : Bytes → Part → List EncodedObject → Result Emitting
    make_room encoded part emitted =
        if ltb max_page_bytes (length part.page + length encoded)
        then (do
          bail_if (part.count == 0) too_large
          (part', emitted') ← flush_page part emitted
          bail_if (ltb max_page_bytes (length part'.page + length encoded)) too_large
          ok (part', emitted'))
        else ok (part, emitted)

    -- the guards on a record; the sums fit in a `usize`
    unfoldable pub not_after : Option Version → Version → Bool
    not_after none v = false
    not_after (some prior) v = version_le v prior

    unfoldable pub add_record : Build → Record → Result Build
    add_record b r = do
      bail_if (is_empty r.key) empty_key
      bail_if (not_after b.previous (version_of r)) not_sorted
      bail_if (ltb max_page_bytes (length r.key + length r.value + (16 + 9))) too_large
      encoded ← encode_record r
      let index = partition sha r.key
      (part, emitted) ← make_room encoded (get_or b.parts index fresh_part) b.emitted
      ok (record {
        parts =
            set b.parts index (record part { page = part.page ++ encoded; count = part.count + 1 });
        previous = some (version_of r);
        emitted = emitted;
      })

    unfoldable pub add_records : Build → List Record → Result Build
    add_records b [] = ok b
    add_records b (r ∷ rest) = do next ← add_record b r; add_records next rest

    -- The end of each partition: its last page, and its last leaf. The parents are kept.
    unfoldable pub finish_parts :
        List Part → List EncodedObject → Result (List (List Fence) × List EncodedObject)
    finish_parts [] emitted = ok ([], emitted)
    finish_parts (part ∷ rest) emitted = do
      (flushed, emitted1) ← flush_page part emitted
      (closed, emitted2) ← emit_leaf flushed emitted1
      (others, emitted3) ← finish_parts rest emitted2
      ok (closed.parents ∷ others, emitted3)

    -- The slot of a partition in the root: no index, its only leaf, or an internal root.
    unfoldable pub slot_of :
        List Fence → List EncodedObject → Result (ObjectRef × List EncodedObject)
    slot_of [] emitted = ok (no_object, emitted)
    slot_of (only ∷ []) emitted = ok (only.object, emitted)
    slot_of (first ∷ second ∷ rest) emitted = do
      bytes ← encode_index (first ∷ second ∷ rest) internal_magic
      object ← make_object sha bytes
      ok (object.reference, emitted ++ object ∷ [])

    unfoldable pub put_slots :
        Bytes → List (List Fence) → List EncodedObject → Result (Bytes × List EncodedObject)
    put_slots root [] emitted = ok (root, emitted)
    put_slots root (entries ∷ rest) emitted = do
      (slot, emitted') ← slot_of entries emitted
      put_slots (root ++ put_ref slot) rest emitted'

    -- `RunBuilder::build`: the root's reference, and all objects with the root at the end
    unfoldable pub build : List Record → Result (ObjectRef × List EncodedObject)
    build records = do
      b ← add_records start_build records
      (parents, emitted) ← finish_parts b.parts b.emitted
      (bytes, emitted') ← put_slots (root_magic ++ version ∷ []) parents emitted
      root ← make_object sha bytes
      ok (root.reference, emitted' ++ root ∷ [])
