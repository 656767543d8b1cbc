-- ===== src/Package/Quantity/RoundTrip.antt =====
-- What `quantity` prints, `parse_quantity` reads back; so it does behind a plus sign.
use fossil.Base.{
  Bool-cases, Error, Result, [], arith, err, false, get_or, inl, inr, length, length-append, ok,
  refl, suc, sym, zero, ℕ, ◌%◌, ◌*◌, ◌++◌, ◌+◌, ◌/◌, ◌<◌, ◌==◌, ◌>>=◌, ◌^◌, ◌||◌, ◌∙◌, ◌∷◌, ◌≡◌,
  ◌≢◌, ◌⊎◌,
}
use fossil.Bytes.{Bytes}
use fossil.Package.Quantity.{
  strip_prefix, is_upper, any_upper, padded_number, to_digit, push_digit, read_digits,
  from_str_radix, checked_quantity, parse_quantity, digit_char, hex_digits, quantity,
}

digit_char_lem :
    (digit : ℕ)
    → digit < 16
    → (to_digit (digit_char digit) ≡ ok digit)
      × (is_upper (digit_char digit) ≡ false)
      × ((digit_char digit == b'+') ≡ false)
      × (digit ≢ 0 → (digit_char digit == b'0') ≡ false)
unfolding to_digit digit_char is_upper
digit_char_lem digit h = (ground arith, ground arith, ground arith, λ p. ground arith)

push_digit_lem :
    (value : ℕ) → value < 2 ^ 64 → push_digit (value / 16) (digit_char (value % 16)) ≡ ok value
unfolding push_digit
push_digit_lem value h =
    let (read, lower, sign, zero_digit) = digit_char_lem (value % 16) (omega arith) in
    let whole : value / 16 * 16 + value % 16 ≡ value = omega arith in
    rw (read, whole) (ground arith)

bind_ok : {A : Type 0} (m : Result A) → m ≡ m >>= (λ a. ok a)
bind_ok (err why) = refl
bind_ok (ok a) = refl

Result-cases :
    {A : Type 0} (m : Result A) → ((a : A) × (m ≡ ok a)) ⊎ ((why : Error) × (m ≡ err why))
Result-cases (err why) = inr (why, refl)
Result-cases (ok a) = inl (a, refl)

read_digits-append :
    (number : ℕ) (raw : Bytes) (c : ℕ)
    → read_digits number (raw ++ c ∷ []) ≡ read_digits number raw >>= (λ next. push_digit next c)
unfolding read_digits
read_digits-append number [] c = sym (bind_ok (push_digit number c))
read_digits-append number (d ∷ raw) c = elim (Result-cases (push_digit number d)) [
  | inl (next, e) ↦ rw (e) (read_digits-append next raw c)
  | inr (why, e) ↦ rw e
]

-- The properties of a digit text that the guards of `parse_quantity` ask for.
record IsDigits (raw : Bytes) : Type 0 where
  lower : any_upper raw ≡ false
  unsigned : (get_or raw 0 0 == b'+') ≡ false
  some_digit : 0 < length raw

any_upper-append : (xs ys : Bytes) → any_upper (xs ++ ys) ≡ (any_upper xs || any_upper ys)
unfolding any_upper
any_upper-append [] ys = refl
any_upper-append (x ∷ xs) ys = ground (arith, any_upper-append xs ys)

get_or-front : (xs ys : Bytes) (d : ℕ) → 0 < length xs → get_or (xs ++ ys) 0 d ≡ get_or xs 0 d
get_or-front [] ys d h = absurd (omega arith)
get_or-front (x ∷ xs) ys d h = refl

one_digit : (digit : ℕ) → digit < 16 → IsDigits (digit_char digit ∷ [])
unfolding any_upper
one_digit digit h =
    let (read, lower, sign, zero_digit) = digit_char_lem digit h in
    record { lower = rw lower; unsigned = sign; some_digit = omega arith }

more-IsDigits :
    (front : Bytes) (digit : ℕ)
    → IsDigits front
    → digit < 16
    → IsDigits (front ++ digit_char digit ∷ [])
more-IsDigits front digit d h =
    let one = one_digit digit h in
    record {
      lower = any_upper-append front (digit_char digit ∷ []) ∙ (rw (d.lower, one.lower));
      unsigned = rw (get_or-front front (digit_char digit ∷ []) 0 d.some_digit) d.unsigned;
      some_digit = omega (arith, length-append front (digit_char digit ∷ []));
    }

hex_digits-IsDigits : (more value : ℕ) → IsDigits (hex_digits more value)
unfolding hex_digits
hex_digits-IsDigits zero value = one_digit (value % 16) (omega arith)
hex_digits-IsDigits (suc more) value = elim (Bool-cases (value / 16 == 0)) [
  | inl last ↦ rw last (one_digit (value % 16) (omega arith))
  | inr front ↦ rw front (
      more-IsDigits (hex_digits more (value / 16)) (value % 16)
        (hex_digits-IsDigits more (value / 16)) (omega arith))
]

padded_number-front :
    (front : Bytes) (c : ℕ)
    → 0 < length front
    → padded_number (front ++ c ∷ []) ≡ (get_or front 0 0 == b'0')
unfolding padded_number
padded_number-front [] c h = absurd (omega arith)
padded_number-front (x ∷ []) c h = refl
padded_number-front (x ∷ y ∷ xs) c h = refl

-- The first digit is zero only where the value is.
first_digit :
    (more value : ℕ)
    → value ≢ 0
    → value < 16 ^ suc more
    → (get_or (hex_digits more value) 0 0 == b'0') ≡ false
unfolding hex_digits
first_digit zero value some_value h =
    let (read, lower, sign, zero_digit) = digit_char_lem (value % 16) (omega arith) in
    zero_digit (λ e. some_value (omega arith))
first_digit (suc more) value some_value h = elim (Bool-cases (value / 16 == 0)) [
  | inl last ↦
      let (read, lower, sign, zero_digit) = digit_char_lem (value % 16) (omega arith) in
      rw last (zero_digit (λ e. some_value (ground (arith, last))))
  | inr front ↦
      let d = hex_digits-IsDigits more (value / 16) in
      rw
        (
          front,
          get_or-front (hex_digits more (value / 16)) (digit_char (value % 16) ∷ []) 0 d.some_digit,
        )
        (first_digit more (value / 16) (λ e. ground (arith, front)) (omega arith))
]

unpadded : (more value : ℕ) → value < 16 ^ suc more → padded_number (hex_digits more value) ≡ false
unfolding hex_digits
unpadded zero value h = unfold padded_number in refl
unpadded (suc more) value h = elim (Bool-cases (value / 16 == 0)) [
  | inl last ↦ rw last (unfold padded_number in refl)
  | inr front ↦
      let d = hex_digits-IsDigits more (value / 16) in
      rw
        (
          front,
          padded_number-front (hex_digits more (value / 16)) (digit_char (value % 16)) d.some_digit,
        )
        (first_digit more (value / 16) (λ e. ground (arith, front)) (omega arith))
]

read_digits-hex_digits :
    (more value : ℕ)
    → value < 2 ^ 64
    → value < 16 ^ suc more
    → read_digits 0 (hex_digits more value) ≡ ok value
unfolding hex_digits
read_digits-hex_digits zero value h k =
    let e : value / 16 ≡ 0 = omega arith in
    let push = push_digit_lem value h in unfold read_digits in rw (rw e at push)
read_digits-hex_digits (suc more) value h k = elim (Bool-cases (value / 16 == 0)) [
  | inl last ↦
      let e : value / 16 ≡ 0 = ground (arith, last) in
      let push = push_digit_lem value h in rw last (unfold read_digits in rw (rw e at push))
  | inr front ↦
      let ih = read_digits-hex_digits more (value / 16) (omega arith) (omega arith) in
      rw (front, read_digits-append 0 (hex_digits more (value / 16)) (digit_char (value % 16)), ih)
        (push_digit_lem value h)
]

read_unsigned :
    (raw : Bytes) (value : ℕ)
    → IsDigits raw
    → read_digits 0 raw ≡ ok value
    → from_str_radix raw ≡ ok value
unfolding from_str_radix
read_unsigned [] value d e = absurd (omega (arith, d.some_digit))
read_unsigned (c ∷ raw) value d e = rw (d.unsigned) e

-- A `u64` is read back from its canonical text.
pub parse_quantity-quantity :
    (value : ℕ) → value < 2 ^ 64 → parse_quantity (quantity value) ≡ ok value
unfolding parse_quantity quantity strip_prefix checked_quantity
parse_quantity-quantity value h =
    let d = hex_digits-IsDigits 15 value in
    rw (unpadded 15 value (omega arith), d.lower)
      (read_unsigned (hex_digits 15 value) value d
        (read_digits-hex_digits 15 value h (omega arith)))

padded_number_plus : (raw : Bytes) → padded_number (b'+' ∷ raw) ≡ false
unfolding padded_number
padded_number_plus [] = refl
padded_number_plus (c ∷ raw) = refl

any_upper_plus : (raw : Bytes) → any_upper (b'+' ∷ raw) ≡ any_upper raw
unfolding any_upper is_upper
any_upper_plus raw = refl

-- The text with a plus sign before the digits, which is not canonical, is read as the same number.
pub parse_quantity_plus :
    (value : ℕ)
    → value < 2 ^ 64
    → parse_quantity (b'0' ∷ b'x' ∷ b'+' ∷ hex_digits 15 value) ≡ ok value
unfolding parse_quantity strip_prefix checked_quantity from_str_radix
parse_quantity_plus value h =
    let d = hex_digits-IsDigits 15 value in
    let some_digit : (length (hex_digits 15 value) == 0) ≡ false = ground (arith, d.some_digit) in
    rw
      (
        padded_number_plus (hex_digits 15 value),
        any_upper_plus (hex_digits 15 value),
        d.lower,
        some_digit,
      )
      (read_digits-hex_digits 15 value h (omega arith))
