-- ===== src/Summary.antt =====
-- codec/src/summary.rs: the Bloom shards that say which runs may hold a key, and the probe of
-- src/tiered.rs. The bits, the builder, and the decoding of a shard.
pub mod Filter
pub mod Path
pub mod Shards
pub mod Members
pub mod Branches
pub mod Probe
pub mod Fresh
use fossil.Base.{
  Bool, List, Result, [], bad_shard, bail_if, bit_and, bit_or, drop, false, get_or, if◌then◌else◌,
  leb, length, ltb, max, min, not, ok, replicate, set, shard_too_large, suc, take, true, zero, ℕ,
  ◌%◌, ◌&&◌, ◌*◌, ◌++◌, ◌+◌, ◌-◌, ◌/◌, ◌==◌, ◌>>=◌, ◌>>◌, ◌^◌, ◌||◌, ◌∷◌,
}
use fossil.Bytes.{Bytes, be_bytes, from_be, bytes_eq, slice}
use fossil.Extern.{Sha256}

-- "FTSM"
abbrev pub shard_magic : Bytes
shard_magic = b'F' ∷ b'T' ∷ b'S' ∷ b'M' ∷ []

abbrev pub shard_version : ℕ
shard_version = 1

abbrev pub header_bytes : ℕ
header_bytes = 4 + 1 + 32 + 1 + 4 + 4

abbrev pub shard_keys : ℕ
shard_keys = 32 * 1024

abbrev pub bits_per_key : ℕ
bits_per_key = 16

abbrev pub hash_count : ℕ
hash_count = 11

abbrev pub heavy_group : ℕ
heavy_group = 4096

abbrev pub max_shard_bytes : ℕ
max_shard_bytes = 1024 * 1024

pub data ShardKind : Type 0 where
  address_shard spill_shard : ShardKind

-- `kind as u8`
abbrev pub kind_byte : ShardKind → ℕ
kind_byte address_shard = 0
kind_byte spill_shard = 1

unfoldable pub group : Bytes → Bytes
group key = take (min (length key) 21) key

unfoldable pub route : Bytes → Bytes
route group = drop (min 1 (length group)) group

unfoldable pub marker : Bytes → Bytes
marker group = 255 ∷ group

-- The two hashes of a digest.
unfoldable pub hash_1 : Bytes → ℕ
hash_1 digest = from_be (slice digest 0 8)

unfoldable pub hash_2 : Bytes → ℕ
hash_2 digest = bit_or (from_be (slice digest 8 16)) 1

-- The `i`th bit of a digest among `total` bits.
unfoldable pub bit_at : Bytes → ℕ → ℕ → ℕ
bit_at digest total i = (hash_1 digest + i * hash_2 digest % 2 ^ 64) % 2 ^ 64 % total

-- `bits[(bit / 8) as usize] |= 1 << (bit % 8)`
unfoldable pub set_bit : Bytes → ℕ → Bytes
set_bit bits bit = set bits (bit / 8) (bit_or (get_or bits (bit / 8) 0) (2 ^ (bit % 8)))

unfoldable pub has_bit : Bytes → ℕ → Bool
has_bit bits bit = not (bit_and (get_or bits (bit / 8) 0) (2 ^ (bit % 8)) == 0)

-- the loops over `i`, from the last one down
unfoldable pub insert_bits : ℕ → ℕ → Bytes → Bytes → Bytes
insert_bits zero total digest bits = bits
insert_bits (suc i) total digest bits =
    set_bit (insert_bits i total digest bits) (bit_at digest total i)

unfoldable pub contains_bits : ℕ → ℕ → Bytes → Bytes → Bool
contains_bits zero total digest bits = true
contains_bits (suc i) total digest bits =
    contains_bits i total digest bits && has_bit bits (bit_at digest total i)

unfoldable pub insert : Bytes → Bytes → Bytes
insert bits digest = insert_bits hash_count (length bits * 8) digest bits

unfoldable pub contains : Bytes → Bytes → Bool
contains bits digest = contains_bits hash_count (length bits * 8) digest bits

-- `div_ceil` by a number that is not zero
unfoldable pub div_ceil : ℕ → ℕ → ℕ
div_ceil n k = (n + (k - 1)) / k

-- `next_power_of_two`, among the first `bits` powers from `power` on
unfoldable pub power_from : ℕ → ℕ → ℕ → ℕ
power_from zero power n = power
power_from (suc bits) power n =
    let above = power_from bits (power * 2) n in if leb n power then power else above

-- A `u64` has 64 powers of two, and the cast to `u32` wraps.
unfoldable pub shard_count : ℕ → ℕ
shard_count keys = power_from 63 1 (max (div_ceil keys shard_keys) 1) % 2 ^ 32

pub record SummaryBuilder : Type 0 where
  pub shards : ℕ
  pub address : List Bytes
  pub spill : List Bytes
  pub current : Bytes
  pub pending : List Bytes
  pub heavy : Bool
  pub keys : ℕ

unfoldable pub per_shard : ℕ → ℕ
per_shard expected_keys = max (div_ceil expected_keys (shard_count expected_keys)) 64

-- `SummaryBuilder::new`
unfoldable pub new_builder : ℕ → Result SummaryBuilder
new_builder expected_keys = do
  let shards = shard_count expected_keys
  let bytes = div_ceil (per_shard expected_keys * bits_per_key) 8
  bail_if (ltb max_shard_bytes (header_bytes + bytes + 32)) shard_too_large
  ok (record {
    shards = shards;
    address = replicate shards (replicate bytes 0);
    spill = replicate shards (replicate bytes 0);
    current = [];
    pending = [];
    heavy = false;
    keys = 0;
  })

-- `insert(&mut shards[index as usize], digest)`
unfoldable pub insert_at : List Bytes → ℕ → Bytes → List Bytes
insert_at shards index digest = set shards index (insert (get_or shards index []) digest)

-- The loop of `flush`, which puts every digest into one shard.
unfoldable pub insert_all : List Bytes → ℕ → List Bytes → List Bytes
insert_all shards index [] = shards
insert_all shards index (digest ∷ digests) =
    insert_all (insert_at shards index digest) index digests

module _ (sha : Sha256) where
  unfoldable pub shard_index : Bytes → ℕ → ℕ
  shard_index bytes shards = bit_and (from_be (take 4 (sha.digest bytes))) (shards - 1)

  unfoldable pub spill_index : Bytes → ℕ → ℕ
  spill_index digest shards = bit_and (from_be (slice digest 16 20)) (shards - 1)

  -- The loop of `add` over the pending digests, which puts each into its spill shard.
  unfoldable pub spill_all : List Bytes → ℕ → List Bytes → List Bytes
  spill_all spill shards [] = spill
  spill_all spill shards (digest ∷ digests) =
      spill_all (insert_at spill (spill_index digest shards) digest) shards digests

  unfoldable pub flush : SummaryBuilder → SummaryBuilder
  flush b =
      let address =
        if not b.heavy && not (length b.pending == 0)
        then insert_all b.address (shard_index (route b.current) b.shards) b.pending
        else b.address in
      record b { address = address; pending = []; heavy = false }

  -- the two steps of `add`: a change of the group, and the digest of the key
  unfoldable pub enter_group : SummaryBuilder → Bytes → SummaryBuilder
  enter_group b key =
      if not (bytes_eq (group key) b.current) then record (flush b) { current = group key } else b

  unfoldable pub add_digest : SummaryBuilder → Bytes → SummaryBuilder
  add_digest b digest =
      let pending = b.pending ++ digest ∷ [] in
      if b.heavy
      then record b { spill = insert_at b.spill (spill_index digest b.shards) digest }
      else if ltb heavy_group (length pending)
      then record b {
        heavy = true;
        address =
            insert_at b.address (shard_index (route b.current) b.shards)
              (sha.digest (marker b.current));
        spill = spill_all b.spill b.shards pending;
        pending = [];
      }
      else record b { pending = pending }

  unfoldable pub add : SummaryBuilder → Bytes → SummaryBuilder
  add b key = add_digest (enter_group (record b { keys = b.keys + 1 }) key) (sha.digest key)

  -- The encoding of `finish` for one shard, without its path.
  unfoldable pub shard_body : Bytes → ShardKind → ℕ → ℕ → Bytes → Bytes
  shard_body run kind index shards bits =
      shard_magic
      ++ (shard_version
          ∷ (run ++ (kind_byte kind ∷ (be_bytes 4 index ++ (be_bytes 4 shards ++ bits)))))

  unfoldable pub encode_shard : Bytes → ShardKind → ℕ → ℕ → Bytes → Bytes
  encode_shard run kind index shards bits =
      let body = shard_body run kind index shards bits in body ++ sha.digest body

  unfoldable pub foreign_shard : Bytes → ShardKind → ℕ → ℕ → Bytes → Bytes → Bool
  foreign_shard run kind index shards body check =
      not (bytes_eq (sha.digest body) check)
      || not (bytes_eq (take 4 body) shard_magic)
      || not (get_or body 4 0 == shard_version)
      || not (bytes_eq (slice body 5 37) run)
      || not (get_or body 37 0 == kind_byte kind)
      || not (bytes_eq (slice body 38 42) (be_bytes 4 index))
      || not (bytes_eq (slice body 42 46) (be_bytes 4 shards))

  unfoldable pub bad_shard_length : Bytes → Bool
  bad_shard_length bytes =
      leb (length bytes) (header_bytes + 32) || ltb max_shard_bytes (length bytes)

  -- `Shard::decode`; a shard is its bits
  unfoldable pub decode_shard : Bytes → ShardKind → ℕ → ℕ → Bytes → Result Bytes
  decode_shard run kind index shards bytes = do
    bail_if (bad_shard_length bytes) bad_shard
    let body = take (length bytes - 32) bytes
    let check = drop (length bytes - 32) bytes
    bail_if (foreign_shard run kind index shards body check) bad_shard
    ok (drop header_bytes body)

  unfoldable pub shard_contains : Bytes → Bytes → Bool
  shard_contains bits item = contains bits (sha.digest item)

  -- `may_contain` of the reader, over a function that fetches and decodes a shard
  unfoldable pub may_contain : (ShardKind → ℕ → Result Bytes) → ℕ → Bytes → Result Bool
  may_contain fetch shards key = do
    address ← fetch address_shard (shard_index (route (group key)) shards)
    (if shard_contains address key
        then ok true
        else if not (shard_contains address (marker (group key)))
        then ok false
        else (do
          spill ← fetch spill_shard (spill_index (sha.digest key) shards)
          ok (shard_contains spill key)))

  -- A run's keys, one after the other.
  unfoldable pub add_all : SummaryBuilder → List Bytes → SummaryBuilder
  add_all b [] = b
  add_all b (key ∷ keys) = add_all (add b key) keys
