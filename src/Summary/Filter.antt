-- ===== src/Summary/Filter.antt =====
-- One filter: what was inserted is found, and stays found under later inserts.
use fossil.Base.{
  Bool-cases, ap, arith, bit_or, get_or, get_or-set, get_or-set_other, inl, inr, length, length-set,
  refl, set_beyond, suc, true, zero, ℕ, ◌%◌, ◌*◌, ◌+◌, ◌/◌, ◌<◌, ◌==◌, ◌^◌, ◌∙◌, ◌≡◌, ◌≢◌,
}
use native.Mathlib.Decide.{dec_lt}
use native.Mathlib.Nat.{mod-lt}
use fossil.Bytes.{Bytes}
use fossil.Bytes.Bits.{bit_or-keeps, bit_or-puts}
use fossil.Summary.{
  bit_at, set_bit, has_bit, insert_bits, contains_bits, insert, contains, hash_count, hash_1,
  hash_2,
}

length-set_bit : (bits : Bytes) (bit : ℕ) → length (set_bit bits bit) ≡ length bits
unfolding set_bit
length-set_bit bits bit = length-set bits (bit / 8) _

power_positive : (k : ℕ) → 2 ^ k ≢ 0
power_positive zero = λ h. omega arith
power_positive (suc k) = λ h. power_positive k (omega arith)

-- The bit that is set is there.
has_bit-set_bit :
    (bits : Bytes) (bit : ℕ) → bit < length bits * 8 → has_bit (set_bit bits bit) bit ≡ true
unfolding has_bit set_bit
has_bit-set_bit bits bit within =
    let there =
      get_or-set bits (bit / 8) (bit_or (get_or bits (bit / 8) 0) (2 ^ (bit % 8))) 0
        (omega arith) in
    let some_bit =
      bit_or-puts (get_or bits (bit / 8) 0) (2 ^ (bit % 8)) (power_positive (bit % 8)) in
    rw there (ground (arith, some_bit))

-- No other bit is cleared.
has_bit-keeps :
    (bits : Bytes) (bit other : ℕ)
    → has_bit bits other ≡ true
    → has_bit (set_bit bits bit) other ≡ true
unfolding has_bit set_bit
has_bit-keeps bits bit other h =
    let mask = 2 ^ (other % 8) in
    let put = bit_or (get_or bits (bit / 8) 0) (2 ^ (bit % 8)) in
    elim (dec_lt (bit / 8) (length bits)) [
      | no beyond ↦ rw (set_beyond bits (bit / 8) put (omega arith)) h
      | yes within ↦ elim (Bool-cases (bit / 8 == other / 8)) [
        | inr apart ↦
            let differ : bit / 8 ≢ other / 8 = λ e. ground arith in
            rw (get_or-set_other bits (bit / 8) (other / 8) put 0 differ) h
        | inl same ↦
            let here : bit / 8 ≡ other / 8 = ground arith in
            let kept = bit_or-keeps (get_or bits (bit / 8) 0) (2 ^ (bit % 8)) mask in
            let there = get_or-set bits (bit / 8) put 0 within in
            rw (← here, there) (ground (arith, kept, h, ap (λ t. get_or bits t 0) here))
      ]
    ]

-- The filters have the same size, and the second has every bit of the first.
pub record Grows (before after : Bytes) : Type 0 where
  pub size : length after ≡ length before
  pub bits_kept : (bit : ℕ) → has_bit before bit ≡ true → has_bit after bit ≡ true

pub Grows-refl : (bits : Bytes) → Grows bits bits
Grows-refl bits = record { size = refl; bits_kept = λ bit h. h }

pub Grows-trans : (a b c : Bytes) → Grows a b → Grows b c → Grows a c
Grows-trans a b c g h = record {
  size = h.size ∙ g.size;
  bits_kept = λ bit e. h.bits_kept bit (g.bits_kept bit e);
}

set_bit-Grows : (bits : Bytes) (bit : ℕ) → Grows bits (set_bit bits bit)
set_bit-Grows bits bit = record {
  size = length-set_bit bits bit;
  bits_kept = λ other h. has_bit-keeps bits bit other h;
}

insert_bits-Grows :
    (i total : ℕ) (digest bits : Bytes) → Grows bits (insert_bits i total digest bits)
unfolding insert_bits
insert_bits-Grows zero total digest bits = Grows-refl bits
insert_bits-Grows (suc i) total digest bits =
    Grows-trans _ _ _ (insert_bits-Grows i total digest bits)
      (set_bit-Grows (insert_bits i total digest bits) (bit_at digest total i))

pub insert-Grows : (bits digest : Bytes) → Grows bits (insert bits digest)
unfolding insert
insert-Grows bits digest = insert_bits-Grows hash_count (length bits * 8) digest bits

contains_bits-Grows :
    (i total : ℕ) (digest before after : Bytes)
    → Grows before after
    → contains_bits i total digest before ≡ true
    → contains_bits i total digest after ≡ true
unfolding contains_bits
contains_bits-Grows zero total digest before after g h = refl
contains_bits-Grows (suc i) total digest before after g h =
    ground (
      arith,
      contains_bits-Grows i total digest before after g,
      g.bits_kept (bit_at digest total i),
    )

-- A filter that has every bit of another contains every digest that the other contains.
pub contains-Grows :
    (before after digest : Bytes)
    → Grows before after
    → contains before digest ≡ true
    → contains after digest ≡ true
unfolding contains
contains-Grows before after digest g h =
    rw g.size (contains_bits-Grows hash_count (length before * 8) digest before after g h)

bit_at-lt : (digest : Bytes) (total i : ℕ) → 0 < total → bit_at digest total i < total
unfolding bit_at
bit_at-lt digest total i some_bits =
    mod-lt ((hash_1 digest + i * hash_2 digest % 2 ^ 64) % 2 ^ 64) some_bits

contains_bits-insert_bits :
    (i total : ℕ) (digest bits : Bytes)
    → 0 < total
    → total ≡ length bits * 8
    → contains_bits i total digest (insert_bits i total digest bits) ≡ true
unfolding contains_bits insert_bits
contains_bits-insert_bits zero total digest bits p e = refl
contains_bits-insert_bits (suc i) total digest bits p e =
    let inner = insert_bits i total digest bits in
    let g = insert_bits-Grows i total digest bits in
    let earlier =
      contains_bits-Grows i total digest inner (set_bit inner (bit_at digest total i))
        (set_bit-Grows inner (bit_at digest total i))
        (contains_bits-insert_bits i total digest bits p e) in
    let last =
      has_bit-set_bit inner (bit_at digest total i)
        (omega (arith, bit_at-lt digest total i p, g.size, e)) in
    rw (earlier, last)

-- A digest that was inserted into a filter with any byte at all is contained.
pub contains-insert :
    (bits digest : Bytes) → 0 < length bits → contains (insert bits digest) digest ≡ true
unfolding contains insert
contains-insert bits digest some_byte =
    rw (insert_bits-Grows hash_count (length bits * 8) digest bits).size
      (contains_bits-insert_bits hash_count (length bits * 8) digest bits (omega arith) refl)
