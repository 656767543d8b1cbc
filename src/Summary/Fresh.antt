-- ===== src/Summary/Fresh.antt =====
-- `SummaryBuilder::new` makes a builder that is ready, and with it the whole summary of a run.
use fossil.Base.{
  List, [], ap, arith, bail_if-eq-ok, false, get_or, length, ltb, max, ok, refl, replicate, suc,
  true, zero, ℕ, ◌*◌, ◌+◌, ◌-◌, ◌/◌, ◌<◌, ◌^◌, ◌≡◌, ◌≤◌,
}
use mathlib.Core.Path.{subst}
use native.Mathlib.Decide.{dec_lt}
use fossil.Bytes.{Bytes}
use fossil.Extern.{Sha256}
use fossil.Summary.{
  SummaryBuilder, power_from, shard_count, div_ceil, shard_keys, per_shard, bits_per_key,
  new_builder, flush, add_all, may_contain, max_shard_bytes, header_bytes,
}
use fossil.Summary.Shards.{HasRoom, Among}
use fossil.Summary.Members.{IsReady}
use fossil.Summary.Probe.{served, may_contain-add_all}

power_from-bounds :
    (bits power n : ℕ)
    → 0 < power
    → power < 2 ^ 32
    → n ≤ 2 ^ 31
    → (0 < power_from bits power n) × (power_from bits power n < 2 ^ 32)
unfolding power_from
power_from-bounds zero power n p q h = (p, q)
power_from-bounds (suc bits) power n p q h = elim (dec_lt power n) [
  | yes below ↦
      let (lo, hi) = power_from-bounds bits (power * 2) n (omega arith) (omega arith) h in
      (ground arith, ground arith)
  | no enough ↦ (ground arith, ground arith)
]

shard_count-pos : (keys : ℕ) → keys ≤ 2 ^ 46 → 0 < shard_count keys
unfolding shard_count div_ceil
shard_count-pos keys h =
    let n = max ((keys + (shard_keys - 1)) / shard_keys) 1 in
    let (lo, hi) = power_from-bounds 63 1 n (omega arith) (omega arith) (omega arith) in omega arith

get_or-replicate : {A : Type 0} (n i : ℕ) (x d : A) → i < n → get_or (replicate n x) i d ≡ x
get_or-replicate zero i x d h = absurd (omega arith)
get_or-replicate (suc n) zero x d h = refl
get_or-replicate (suc n) (suc i) x d h = get_or-replicate n i x d (omega arith)

replicate_size : {A : Type 0} (n : ℕ) (x : A) → length (replicate n x) ≡ n
replicate_size zero x = refl
replicate_size (suc n) x = ap suc (replicate_size n x)

replicate-HasRoom : (n bytes : ℕ) → 0 < bytes → HasRoom (replicate n (replicate bytes 0)) n
replicate-HasRoom n bytes h = record {
  count = replicate_size n (replicate bytes 0);
  some_byte = λ index i.
      let size : length (replicate {A = ℕ} bytes 0) ≡ bytes = replicate_size bytes 0 in
      let one : Bytes = replicate bytes 0 in rw (get_or-replicate n index one [] i, size) h;
}

module _ (sha : Sha256) where
  new_builder-IsReady :
      (expected_keys : ℕ) (b : SummaryBuilder)
      → expected_keys ≤ 2 ^ 46
      → new_builder expected_keys ≡ ok b
      → IsReady sha b
  unfolding new_builder div_ceil per_shard
  new_builder-IsReady expected_keys b small h =
      let bytes = (per_shard expected_keys * bits_per_key + (8 - 1)) / 8 in
      let nonempty : 0 < bytes = omega arith in
      let (fits, made) = bail_if-eq-ok (ltb max_shard_bytes (header_bytes + bytes + 32)) _ _ h in
      let n = shard_count expected_keys in
      let fresh : SummaryBuilder = record {
        shards = n;
        address = replicate n (replicate bytes 0);
        spill = replicate n (replicate bytes 0);
        current = [];
        pending = [];
        heavy = false;
        keys = 0;
      } in
      let same : fresh ≡ b = cc made in
      let ready : IsReady sha fresh = record {
        some_shard = shard_count-pos expected_keys small;
        address_room = replicate-HasRoom n bytes nonempty;
        spill_room = replicate-HasRoom n bytes nonempty;
        marked = λ heavy. absurd (cc heavy);
      } in
      subst (IsReady sha) same ready

  -- No false negatives: whatever keys are added to a new builder, in whatever order and however
  -- their number was estimated (up to 2 ^ 46), the probe of each of them in the finished shards
  -- answers that the run may contain it.
  pub may_contain-new_builder :
      (expected_keys : ℕ) (b : SummaryBuilder) (keys : List Bytes) (key : Bytes)
      → expected_keys ≤ 2 ^ 46
      → new_builder expected_keys ≡ ok b
      → Among key keys
      → may_contain sha
          (served sha (flush sha (add_all sha b keys)))
          (flush sha (add_all sha b keys)).shards
          key
        ≡ ok true
  may_contain-new_builder expected_keys b keys key small made among =
      may_contain-add_all sha b keys key (new_builder-IsReady expected_keys b small made) among
