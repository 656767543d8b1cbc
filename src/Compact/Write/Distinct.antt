-- ===== src/Compact/Write/Distinct.antt =====
-- The keys that `write_sorted` of src/compact.rs counts and adds to the summary.
use fossil.Base.{
  Bool-cases, Gives, Gives-bail_if, Gives-ok, List, Option, [], ap, arith, false, gives_at,
  if◌then◌else◌, inl, inr, length, ltb, none, ok, refl, replicate, shard_too_large, some, sym, ℕ,
  ◌*◌, ◌+◌, ◌∙◌, ◌∷◌, ◌≡◌, ◌≤◌, ◌⊎◌,
}
use fossil.Bytes.{Bytes, bytes_eq}
use fossil.Bytes.Order.{eq_of_bytes_eq}
use fossil.Extern.{Sha256}
use fossil.Codec.{Record}
use fossil.Summary.{
  SummaryBuilder, add, add_all, add_digest, bits_per_key, div_ceil, enter_group, flush,
  header_bytes, max_shard_bytes, per_shard, shard_count, new_builder,
}
use fossil.Summary.Shards.{Among}
use fossil.Compact.Write.{is_new_key, count_distinct, add_distinct}

abbrev pub record_keys : List Record → List Bytes
record_keys [] = []
record_keys (r ∷ rest) = r.key ∷ record_keys rest

-- The keys without those that repeat the one before.
unfoldable pub distinct_keys : Option Bytes → List Record → List Bytes
distinct_keys prior [] = []
distinct_keys prior (r ∷ rest) =
    let others = distinct_keys (some r.key) rest in
    if is_new_key prior r.key then r.key ∷ others else others

length-distinct_keys :
    (prior : Option Bytes) (records : List Record)
    → length (distinct_keys prior records) ≡ count_distinct prior records
unfolding distinct_keys count_distinct
length-distinct_keys prior [] = refl
length-distinct_keys prior (r ∷ rest) = elim (Bool-cases (is_new_key prior r.key)) [
  | inl new ↦ rw new (let ih = length-distinct_keys (some r.key) rest in omega (arith, ih))
  | inr old ↦ rw old (length-distinct_keys (some r.key) rest)
]

pub count_distinct-le :
    (prior : Option Bytes) (records : List Record) → count_distinct prior records ≤ length records
unfolding count_distinct
count_distinct-le prior [] = omega arith
count_distinct-le prior (r ∷ rest) =
    let ih = count_distinct-le (some r.key) rest in
    elim (Bool-cases (is_new_key prior r.key)) [
      | inl new ↦ rw new (omega (arith, ih))
      | inr old ↦ rw old (omega (arith, ih))
    ]

-- A key of the records is among the distinct ones, or it is the one before them all.
pub Among-distinct_keys :
    (prior : Option Bytes) (records : List Record) (key : Bytes)
    → Among key (record_keys records)
    → (prior ≡ some key) ⊎ Among key (distinct_keys prior records)
unfolding distinct_keys is_new_key
Among-distinct_keys prior [] key among = absurd among
Among-distinct_keys none (r ∷ rest) key (inl e) = inr (inl e)
Among-distinct_keys (some p) (r ∷ rest) key (inl e) = elim (Bool-cases (bytes_eq p r.key)) [
  | inl same ↦ inl (ap some (eq_of_bytes_eq p r.key same ∙ sym e))
  | inr other ↦ inr (rw other (inl e))
]
Among-distinct_keys none (r ∷ rest) key (inr among) =
    elim (Among-distinct_keys (some r.key) rest key among) [
      | inl e ↦ inr (inl (cc e))
      | inr later ↦ inr (inr later)
    ]
Among-distinct_keys (some p) (r ∷ rest) key (inr among) = elim (Bool-cases (bytes_eq p r.key)) [
  | inl same ↦ elim (Among-distinct_keys (some r.key) rest key among) [
    | inl e ↦ inl (ap some (eq_of_bytes_eq p r.key same) ∙ e)
    | inr later ↦ inr (rw same later)
  ]
  | inr other ↦ elim (Among-distinct_keys (some r.key) rest key among) [
    | inl e ↦ inr (rw other (inl (cc e)))
    | inr later ↦ inr (rw other (inr later))
  ]
]

module _ (sha : Sha256) where
  pub add_distinct-add_all :
      (b : SummaryBuilder) (prior : Option Bytes) (records : List Record)
      → add_distinct sha b prior records ≡ add_all sha b (distinct_keys prior records)
  unfolding add_distinct distinct_keys add_all
  add_distinct-add_all b prior [] = refl
  add_distinct-add_all b prior (r ∷ rest) = elim (Bool-cases (is_new_key prior r.key)) [
    | inl new ↦ rw new (add_distinct-add_all (add sha b r.key) (some r.key) rest)
    | inr old ↦ rw old (add_distinct-add_all b (some r.key) rest)
  ]

  pub flush-shards : (b : SummaryBuilder) → b.shards ≡ (flush sha b).shards
  unfolding flush
  flush-shards b = refl

  enter_group-keys : (b : SummaryBuilder) (key : Bytes) → (enter_group sha b key).keys ≡ b.keys
  unfolding enter_group flush
  enter_group-keys b key = ground arith

  add_digest-keys : (b : SummaryBuilder) (digest : Bytes) → (add_digest sha b digest).keys ≡ b.keys
  unfolding add_digest
  add_digest-keys b digest = ground arith

  add_all-keys :
      (b : SummaryBuilder) (keys : List Bytes) → (add_all sha b keys).keys ≡ b.keys + length keys
  unfolding add_all add
  add_all-keys b [] = omega arith
  add_all-keys b (key ∷ keys) =
      let counted : SummaryBuilder = record b { keys = b.keys + 1 } in
      let one = enter_group-keys counted key in
      let two = add_digest-keys (enter_group sha counted key) (sha.digest key) in
      let ih = add_all-keys (add sha b key) keys in omega (arith, one, two, ih)

  new_builder-Gives : (n : ℕ) → Gives (λ fresh. fresh.keys ≡ 0) (new_builder n)
  unfolding new_builder
  new_builder-Gives n =
      let bytes = div_ceil (per_shard n * bits_per_key) 8 in
      let fresh : SummaryBuilder = record {
        shards = shard_count n;
        address = replicate (shard_count n) (replicate bytes 0);
        spill = replicate (shard_count n) (replicate bytes 0);
        current = [];
        pending = [];
        heavy = false;
        keys = 0;
      } in
      Gives-bail_if _ (ltb max_shard_bytes (header_bytes + bytes + 32)) shard_too_large (ok fresh)
        (λ fits. Gives-ok _ fresh refl)

  pub add_distinct-keys :
      (expected : ℕ) (b : SummaryBuilder) (records : List Record)
      → new_builder expected ≡ ok b
      → (add_distinct sha b none records).keys ≡ count_distinct none records
  add_distinct-keys expected b records made =
      let start : b.keys ≡ 0 =
        gives_at (λ fresh. fresh.keys ≡ 0) _ b (new_builder-Gives expected) made in
      let all = add_all-keys b (distinct_keys none records) in
      let size = length-distinct_keys none records in
      rw (add_distinct-add_all b none records) (omega (arith, start, all, size))
