-- ===== src/Compact/Write/Whole.antt =====
-- What `write_sorted` puts into the store is a whole run with its summary.
use fossil.Base.{All, List, [], inl, inr, none, ok, refl, true, ℕ, ◌^◌, ◌∷◌, ◌≡◌, ◌≤◌}
use fossil.Bytes.{Bytes}
use fossil.Extern.{Sha256, Hex, Zstd}
use fossil.Codec.{Record, ObjectRef}
use fossil.Codec.Page.{EncodedObject}
use fossil.Codec.Builder.{build}
use fossil.Codec.Builder.Accepted.{Sorted}
use fossil.Summary.{SummaryBuilder, add_all, flush, may_contain, new_builder}
use fossil.Summary.Shards.{Among}
use fossil.Summary.Probe.{served}
use fossil.Summary.Fresh.{may_contain-new_builder}
use fossil.Store.Immutable.{ImmutableStore}
use fossil.Compact.Write.Stored.{HoldsObjects, HoldsSummary}
use fossil.Tiered.Compaction.{BuiltRun}
use fossil.Compact.Write.{count_distinct, add_distinct}
use fossil.Compact.Write.Distinct.{
  record_keys, distinct_keys, Among-distinct_keys, add_distinct-add_all,
}

module _ (sha : Sha256) where
  -- The probe of the finished summary finds each of the keys.
  abbrev pub Found : SummaryBuilder → List Bytes → Type 0
  Found summary keys =
      All
        (λ key.
          may_contain sha (served sha (flush sha summary)) (flush sha summary).shards key ≡ ok true)
        keys

  probe_each :
      (summary : SummaryBuilder) (keys : List Bytes)
      → ((key : Bytes)
          → Among key keys
          → may_contain sha (served sha (flush sha summary)) (flush sha summary).shards key
            ≡ ok true)
      → Found summary keys
  probe_each summary [] h = tt
  probe_each summary (key ∷ keys) h =
      (h key (inl refl), probe_each summary keys (λ k among. h k (inr among)))

  pub add_distinct-Found :
      (expected : ℕ) (b : SummaryBuilder) (records : List Record)
      → expected ≤ 2 ^ 46
      → new_builder expected ≡ ok b
      → Found (add_distinct sha b none records) (record_keys records)
  add_distinct-Found expected b records small made = rw (add_distinct-add_all sha b none records) (
      probe_each (add_all sha b (distinct_keys none records)) (record_keys records) (λ key among.
        may_contain-new_builder sha expected b (distinct_keys none records) key small made
          (elim (Among-distinct_keys none records key among) [
            | inl e ↦ absurd (cc e)
            | inr here ↦ here
          ])))

  -- What a written run is in a store: the objects of a build of ascending records under their
  -- digests, and under the paths of its shards a summary that has all their keys, each counted once.
  module _ (hex : Hex) (zstd : Zstd) (store : ImmutableStore) where
    pub record IsWritten (records : List Record) (run : BuiltRun) (s : store.State) : Type 0 where
      pub summary : SummaryBuilder
      pub reference : ObjectRef
      pub objects : List EncodedObject
      pub built : build sha zstd records ≡ ok (reference, objects)
      pub ascending : Sorted sha zstd none records
      pub rooted : (run.root.digest ≡ reference.digest) × (run.root.size ≡ reference.size)
      pub stored : HoldsObjects sha hex store s objects
      pub summarised : HoldsSummary sha hex store s run.root.digest (flush sha summary)
      pub counted : run.keys ≡ count_distinct none records
      pub sharded : run.shards ≡ (flush sha summary).shards
      pub found : Found summary (record_keys records)
