-- ===== src/Examples/Summaries.antt =====
-- The summaries of the examples: three keys of two groups.
use fossil.Base.{List, [], arith, false, inl, inr, ok, refl, replicate, true, ◌∷◌, ◌≡◌}
use fossil.Bytes.{Bytes}
use fossil.Examples.Setup.{toy_sha}
use fossil.Summary.{SummaryBuilder, new_builder, add_all, flush, may_contain}
use fossil.Summary.Probe.{served}
use fossil.Summary.Fresh.{may_contain-new_builder}

abbrev pub empty_builder : SummaryBuilder
empty_builder = record {
  shards = 1;
  address = replicate 128 0 ∷ [];
  spill = replicate 128 0 ∷ [];
  current = [];
  pending = [];
  heavy = false;
  keys = 0;
}

abbrev three_keys : List Bytes
three_keys = (1 ∷ 7 ∷ []) ∷ (1 ∷ 8 ∷ []) ∷ (2 ∷ 8 ∷ 5 ∷ []) ∷ []

pub empty_made : new_builder 3 ≡ ok empty_builder
unfolding new_builder fossil.Summary.div_ceil fossil.Summary.per_shard fossil.Summary.shard_count
    fossil.Summary.power_from
empty_made = refl

may_contain-new_builder_example :
    may_contain toy_sha
      (served toy_sha (flush toy_sha (add_all toy_sha empty_builder three_keys)))
      (flush toy_sha (add_all toy_sha empty_builder three_keys)).shards
      (1 ∷ 8 ∷ [])
    ≡ ok true
may_contain-new_builder_example =
    may_contain-new_builder toy_sha 3 empty_builder three_keys (1 ∷ 8 ∷ []) (omega arith) empty_made
      (inr (inl refl))
