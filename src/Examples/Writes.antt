-- ===== src/Examples/Writes.antt =====
-- `write_sorted` at a concrete input: two versions of one key.
use fossil.Base.{Bool, List, Result, [], err, false, get_last?, none, ok, some, true, ◌∷◌, ◌≡◌}
use fossil.Bytes.{Bytes}
use fossil.Codec.{Record}
use fossil.Compact.Merge.{Sent}
use fossil.Compact.Runs.{small_bytes}
use fossil.Codec.Page.{EncodedObject}
use fossil.Codec.Builder.Accepted.{build-Sorted}
use fossil.Compact.Write.{Put, put_all, add_distinct, finish, object_puts}
use fossil.Examples.Builds.{two_versions, two_built}
use fossil.Examples.Pages.{versions}
use fossil.Examples.Setup.{toy_sha, toy_hex, toy_zstd}
use fossil.Examples.Summaries.{empty_builder}
use fossil.Summary.{add, SummaryBuilder}
use fossil.Store.Memory.{MemoryState, empty_store}
use fossil.Store.Memory.Puts.{memory_store}
use fossil.Tiered.Compaction.{BuiltRun}

-- What a step leaves, where it succeeds.
abbrev left_by : Result MemoryState → MemoryState
left_by (err why) = empty_store
left_by (ok s) = s

abbrev succeeds : Result MemoryState → Bool
succeeds (err why) = false
succeeds (ok s) = true

abbrev stored_all : List Put → MemoryState → MemoryState
stored_all puts s = left_by (put_all toy_sha toy_hex toy_zstd memory_store puts s)

some_last : (object : EncodedObject) × (get_last? two_versions.1 ≡ some object)
some_last =
    let (sorted, named, (object, e, same)) =
      build-Sorted toy_sha toy_zstd versions two_versions.0 two_versions.1 two_built in
    (object, e)

abbrev one_summary : SummaryBuilder
one_summary = add_distinct toy_sha empty_builder none versions

abbrev two_written : BuiltRun
two_written = record {
  root = record { digest = two_versions.0.digest; size = two_versions.0.size };
  root_bytes = some_last.0.bytes;
  keys = one_summary.keys;
  shards = one_summary.shards;
}

abbrev objects_stored : MemoryState
objects_stored = stored_all (object_puts toy_sha toy_hex two_versions.1) empty_store

abbrev whole_stored : MemoryState
whole_stored = stored_all (finish toy_sha toy_hex one_summary two_versions.0.digest) objects_stored

-- The same records, each in a run of its own.
abbrev first_version : List Record
first_version = record { key = 1 ∷ []; block = 5; value = 42 ∷ [] } ∷ []

abbrev second_version : List Record
second_version = record { key = 1 ∷ []; block = 9; value = 43 ∷ 43 ∷ [] } ∷ []

abbrev apart : List (List Record)
apart = first_version ∷ second_version ∷ []

abbrev versions_sent : Sent (List Record) toy_sha
versions_sent = record {
  records = versions;
  summary = add toy_sha empty_builder (1 ∷ []);
  last_key = some (1 ∷ []);
}

abbrev merged_run : BuiltRun
merged_run = record {
  root = record { digest = two_versions.0.digest; size = two_versions.0.size };
  root_bytes = small_bytes [] two_versions.1;
  keys = versions_sent.summary.keys;
  shards = versions_sent.summary.shards;
}

abbrev merge_stored : MemoryState
merge_stored =
    stored_all (finish toy_sha toy_hex versions_sent.summary two_versions.0.digest) objects_stored
