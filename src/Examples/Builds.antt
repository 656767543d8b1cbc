-- ===== src/Examples/Builds.antt =====
-- The builder and the collector at concrete inputs.
use fossil.Base.{
  All, List, Option, Result, [], err, none, ok, refl, replicate, some, unavailable, ℕ, ◌∷◌, ◌≡◌,
  ◌⊎◌,
}
use fossil.Bytes.{Bytes}
use fossil.Codec.{ObjectRef, no_object}
use fossil.Codec.Page.{EncodedObject}
use fossil.Codec.Builder.{build}
use fossil.Codec.Builder.Accepted.{Named, Sorted, EndsWith, build-Sorted}
use fossil.Examples.Setup.{toy_sha, toy_zstd, toy_hex, head_of}
use fossil.Examples.Pages.{versions}
use fossil.Head.Manifest.{Head, Run, Ref}
use fossil.Summary.Path.{object_key, shard_path}
use fossil.Summary.{address_shard, spill_shard}
use fossil.Tiered.Collect.{Listed, GcReport}
use fossil.Tiered.Collect.Covers.{IsIn}

abbrev value_of : Result (ObjectRef × List EncodedObject) → ObjectRef × List EncodedObject
value_of (err why) = (no_object, [])
value_of (ok value) = value

abbrev pub two_versions : ObjectRef × List EncodedObject
two_versions = value_of (build toy_sha toy_zstd versions)

pub two_built : build toy_sha toy_zstd versions ≡ ok (two_versions.0, two_versions.1)
unfolding build fossil.Codec.Builder.add_records fossil.Codec.Builder.add_record
    fossil.Codec.is_empty fossil.Codec.Builder.not_after fossil.Codec.Builder.start_build
    fossil.Codec.Data.encode_record fossil.Codec.Builder.make_room fossil.Codec.partition
    fossil.Codec.Builder.fresh_part fossil.Codec.Data.page_header fossil.Bytes.be_bytes
    fossil.Bytes.version_le fossil.Bytes.version_lt fossil.Bytes.bytes_lt fossil.Bytes.bytes_eq
    fossil.Codec.Builder.finish_parts fossil.Bytes.from_be fossil.Bytes.read_bytes
    fossil.Codec.Builder.append_leaf_fence fossil.Codec.Builder.bad_parent
    fossil.Codec.Builder.counted fossil.Codec.Builder.decode_first_record
    fossil.Codec.Builder.emit_entries fossil.Codec.Builder.emit_from fossil.Codec.Builder.emit_leaf
    fossil.Codec.Builder.first_of fossil.Codec.Builder.flush_page fossil.Codec.Builder.put_slots
    fossil.Codec.Builder.slot_of fossil.Codec.Data.bad_page_header fossil.Codec.Data.misroutes
    fossil.Codec.Data.out_of_order fossil.Codec.Data.page_mismatch
    fossil.Codec.Data.parse_data_payload fossil.Codec.Data.read_record fossil.Codec.Data.record_loop
    fossil.Codec.Index.encode_index fossil.Codec.Index.index_header fossil.Codec.Index.index_size
    fossil.Codec.Index.index_size_from fossil.Codec.Index.put_bytes fossil.Codec.Index.put_fences
    fossil.Codec.Page.encode_page fossil.Codec.Page.make_object fossil.Codec.Page.page_prefix
    fossil.Codec.no_object fossil.Codec.put_ref fossil.Codec.read_u32 fossil.Codec.read_u64
    fossil.Head.Account.zero32
two_built = refl

build-Sorted_example :
    Sorted toy_sha toy_zstd none versions
    × All (Named toy_sha) two_versions.1
    × EndsWith toy_sha toy_zstd two_versions.0 two_versions.1
build-Sorted_example =
    build-Sorted toy_sha toy_zstd versions two_versions.0 two_versions.1 two_built

-- The root of a run without records, and a head over it.
abbrev bare_root : Bytes
bare_root = 70 ∷ 84 ∷ 82 ∷ 84 ∷ 1 ∷ replicate 576 0

abbrev bare_run : Run
bare_run = record {
  start = 0;
  end = 0;
  weight = 1;
  keys = 0;
  shards = 1;
  root = record { digest = replicate 32 69; size = 581 };
  root_bytes = bare_root;
}

abbrev bare_head : Head
bare_head = head_of 0 1 (bare_run ∷ []) []

abbrev nothing_stored : Bytes → ℕ → Result Bytes
nothing_stored key maximum = err unavailable

abbrev bare_key : Bytes
bare_key = object_key toy_hex (replicate 32 69)

abbrev reached : List Bytes
reached =
    shard_path toy_hex (replicate 32 69) 1 spill_shard 0
    ∷ shard_path toy_hex (replicate 32 69) 1 address_shard 0
    ∷ bare_key
    ∷ []

abbrev listing : List Listed
listing =
    record { key = 7 ∷ []; size = 11; modified = 10 }
    ∷ record { key = 8 ∷ []; size = 12; modified = 70 }
    ∷ record { key = bare_key; size = 581; modified = 10 }
    ∷ []

abbrev last_modified : Bytes → Result (Option ℕ)
last_modified key = ok (some 10)

abbrev delete_any : Bytes → Result (Unit {0})
delete_any key = ok tt

abbrev no_parent : Bytes → Option Ref
no_parent bytes = none

abbrev old_object : Listed
old_object = record { key = 7 ∷ []; size = 11; modified = 10 }

abbrev bare_report : GcReport
bare_report = record { live_objects = 3; deleted_objects = 1; deleted_bytes = 11; kept_young = 1 }

abbrev bare_outcomes : List (Listed × Option ℕ)
bare_outcomes = (old_object, some 11) ∷ []

abbrev Bare : Run → Type 0
Bare run = IsIn run (bare_run ∷ []) ⊎ IsIn run (bare_run ∷ [])
