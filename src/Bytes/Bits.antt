-- ===== src/Bytes/Bits.antt =====
-- Bits of bytes: a mask that is put in is there, and stays there under later masks.
use fossil.Base.{
  ap, arith, bit_and, bit_or, max, min, refl, suc, sym, zero, ℕ, ◌%◌, ◌*◌, ◌+◌, ◌/◌, ◌∙◌, ◌≡◌, ◌≢◌,
  ◌≤◌,
}
use native.Mathlib.Decide.{dec_lt}
use Prim.Native.Nat.{digits, bitwise, bit_and-bitwise, bit_or-bitwise}

module _ (z : ℕ → ℕ) (f : ℕ → ℕ → ℕ) where
  -- More rounds than the first number has digits change nothing.
  rounds-digits : (k l x y : ℕ) → x ≤ k → x ≤ l → digits z f k x y ≡ digits z f l x y
  rounds-digits zero zero x y p q = refl
  rounds-digits zero (suc l) zero y p q = refl
  rounds-digits (suc k) zero zero y p q = refl
  rounds-digits (suc k) (suc l) zero y p q = refl
  rounds-digits zero l (suc x) y p q = absurd (omega arith)
  rounds-digits (suc k) zero (suc x) y p q = absurd (omega arith)
  rounds-digits (suc k) (suc l) (suc x) y p q =
      ap (λ t. t * 2 + f (suc x % 2) (y % 2))
        (rounds-digits k l (suc x / 2) (y / 2) (omega arith) (omega arith))

  halves-bitwise :
      (x y : ℕ)
      → bitwise z f (suc x) y ≡ bitwise z f (suc x / 2) (y / 2) * 2 + f (suc x % 2) (y % 2)
  halves-bitwise x y =
      ap (λ t. t * 2 + f (suc x % 2) (y % 2))
        (rounds-digits x (suc x / 2) (suc x / 2) (y / 2) (omega arith) (omega arith))

pub halves-bit_or : (x y : ℕ) → bit_or x y ≡ bit_or (x / 2) (y / 2) * 2 + max (x % 2) (y % 2)
halves-bit_or zero y =
    let e : bit_or 0 y ≡ y = bit_or-bitwise 0 y in
    let e' : bit_or 0 (y / 2) ≡ y / 2 = bit_or-bitwise 0 (y / 2) in omega (arith, e, e')
halves-bit_or (suc x) y =
    bit_or-bitwise (suc x) y
    ∙ halves-bitwise (λ b. b) max x y
    ∙ ap (λ t. t * 2 + max (suc x % 2) (y % 2)) (sym (bit_or-bitwise (suc x / 2) (y / 2)))

pub halves-bit_and : (x y : ℕ) → bit_and x y ≡ bit_and (x / 2) (y / 2) * 2 + min (x % 2) (y % 2)
halves-bit_and zero y =
    let e : bit_and 0 y ≡ 0 = bit_and-bitwise 0 y in
    let e' : bit_and 0 (y / 2) ≡ 0 = bit_and-bitwise 0 (y / 2) in omega (arith, e, e')
halves-bit_and (suc x) y =
    bit_and-bitwise (suc x) y
    ∙ halves-bitwise (λ b. zero) min x y
    ∙ ap (λ t. t * 2 + min (suc x % 2) (y % 2)) (sym (bit_and-bitwise (suc x / 2) (y / 2)))

-- A bit of the mask that the byte has is still there under another mask.
kept_rounds : (k x y m : ℕ) → x ≤ k → bit_and x m ≢ 0 → bit_and (bit_or x y) m ≢ 0
kept_rounds k zero y m p some_bit = absurd (some_bit (bit_and-bitwise 0 m))
kept_rounds zero (suc x) y m p some_bit = absurd (omega arith)
kept_rounds (suc k) (suc x) y m p some_bit = λ none_left.
    let low = halves-bit_and (suc x) m in
    let both = halves-bit_and (bit_or (suc x) y) m in
    let joined = halves-bit_or (suc x) y in
    let e : bit_or (suc x) y / 2 ≡ bit_or (suc x / 2) (y / 2) = omega (arith, joined) in
    let e' : bit_or (suc x) y % 2 ≡ max (suc x % 2) (y % 2) = omega (arith, joined) in
    elim (dec_lt 0 (bit_and (suc x / 2) (m / 2))) [
      | yes more ↦
          let rest = kept_rounds k (suc x / 2) (y / 2) (m / 2) (omega arith) (λ h. omega arith) in
          rest (omega (arith, both, none_left, ap (λ t. bit_and t (m / 2)) e))
      | no last ↦ some_bit (omega (arith, low, both, none_left, e'))
    ]

pub bit_or-keeps : (x y m : ℕ) → bit_and x m ≢ 0 → bit_and (bit_or x y) m ≢ 0
bit_or-keeps x y m h = kept_rounds x x y m (omega arith) h

-- The mask that is put in is there.
put_rounds : (k x m : ℕ) → m ≤ k → m ≢ 0 → bit_and (bit_or x m) m ≢ 0
put_rounds zero x m p some_bit = absurd (omega arith)
put_rounds (suc k) x m p some_bit = λ none_left.
    let both = halves-bit_and (bit_or x m) m in
    let joined = halves-bit_or x m in
    let e : bit_or x m / 2 ≡ bit_or (x / 2) (m / 2) = omega (arith, joined) in
    let e' : bit_or x m % 2 ≡ max (x % 2) (m % 2) = omega (arith, joined) in
    elim (dec_lt 0 (m / 2)) [
      | yes more ↦
          let rest = put_rounds k (x / 2) (m / 2) (omega arith) (λ h. omega arith) in
          rest (omega (arith, both, none_left, ap (λ t. bit_and t (m / 2)) e))
      | no last ↦ some_bit (omega (arith, both, none_left, e'))
    ]

pub bit_or-puts : (x m : ℕ) → m ≢ 0 → bit_and (bit_or x m) m ≢ 0
bit_or-puts x m h = put_rounds m x m (omega arith) h

below_rounds : (k x y : ℕ) → x ≤ k → bit_and x y ≤ y
below_rounds k zero y p = let e : bit_and 0 y ≡ 0 = bit_and-bitwise 0 y in omega (arith, e)
below_rounds zero (suc x) y p = absurd (omega arith)
below_rounds (suc k) (suc x) y p =
    omega (arith, halves-bit_and (suc x) y, below_rounds k (suc x / 2) (y / 2) (omega arith))

pub bit_and-le : (x y : ℕ) → bit_and x y ≤ y
bit_and-le x y = below_rounds x x y (omega arith)
