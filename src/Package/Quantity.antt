-- ===== src/Package/Quantity.antt =====
-- src/format.rs: quantities and fixed values as `0x` texts. A text is the list of its bytes.
pub mod RoundTrip
use fossil.Base.{
  Bool, Option, Result, [], bad_value, bail_if, err, false, if◌then◌else◌, leb, length, ltb, none,
  not, ok, replicate, some, suc, true, zero, ℕ, ◌%◌, ◌&&◌, ◌*◌, ◌++◌, ◌+◌, ◌-◌, ◌/◌, ◌==◌, ◌>>=◌,
  ◌>>◌, ◌^◌, ◌||◌, ◌∷◌,
}
use fossil.Bytes.{Bytes}
use fossil.Extern.{Hex}

-- `strip_prefix("0x")`
unfoldable pub strip_prefix : Bytes → Option Bytes
strip_prefix [] = none
strip_prefix (a ∷ []) = none
strip_prefix (a ∷ b ∷ raw) = if a == b'0' && b == b'x' then some raw else none

unfoldable pub is_upper : ℕ → Bool
is_upper c = leb b'A' c && leb c b'Z'

unfoldable pub any_upper : Bytes → Bool
any_upper [] = false
any_upper (c ∷ raw) = is_upper c || any_upper raw

-- `raw.is_empty() || (raw.len() > 1 && raw.starts_with('0'))`
unfoldable pub padded_number : Bytes → Bool
padded_number [] = true
padded_number (c ∷ []) = false
padded_number (c ∷ d ∷ raw) = c == b'0'

-- `char::to_digit(16)`
unfoldable pub to_digit : ℕ → Result ℕ
to_digit c =
    if leb b'0' c && leb c b'9'
    then ok (c - b'0')
    else if leb b'a' c && leb c b'f'
    then ok (c - b'a' + 10)
    else if leb b'A' c && leb c b'F'
    then ok (c - b'A' + 10)
    else err bad_value

-- A digit behind the digits so far.
unfoldable pub push_digit : ℕ → ℕ → Result ℕ
push_digit number c = do
  digit ← to_digit c
  bail_if (leb (2 ^ 64) (number * 16 + digit)) bad_value
  ok (number * 16 + digit)

unfoldable pub read_digits : ℕ → Bytes → Result ℕ
read_digits number [] = ok number
read_digits number (c ∷ raw) = push_digit number c >>= λ next. read_digits next raw

-- `u64::from_str_radix(raw, 16)` of the standard library, which takes a leading plus sign
unfoldable pub from_str_radix : Bytes → Result ℕ
from_str_radix [] = err bad_value
from_str_radix (c ∷ raw) =
    if c == b'+'
    then (if length raw == 0 then err bad_value else read_digits 0 raw)
    else read_digits 0 (c ∷ raw)

unfoldable pub checked_quantity : Option Bytes → Result ℕ
checked_quantity none = err bad_value
checked_quantity (some raw) = do
  bail_if (padded_number raw || any_upper raw) bad_value
  from_str_radix raw

unfoldable pub parse_quantity : Bytes → Result ℕ
parse_quantity value = checked_quantity (strip_prefix value)

unfoldable pub digit_char : ℕ → ℕ
digit_char digit = if ltb digit 10 then b'0' + digit else b'a' + (digit - 10)

-- `{value:x}`; a `u64` has at most sixteen digits.
unfoldable pub hex_digits : ℕ → ℕ → Bytes
hex_digits zero value = digit_char (value % 16) ∷ []
hex_digits (suc more) value =
    let front = hex_digits more (value / 16) in
    if value / 16 == 0 then digit_char (value % 16) ∷ [] else front ++ digit_char (value % 16) ∷ []

unfoldable pub quantity : ℕ → Bytes
quantity value = b'0' ∷ b'x' ∷ hex_digits 15 value

module _ (hex : Hex) where
  unfoldable pub checked_data : Option Bytes → Result Bytes
  checked_data none = err bad_value
  checked_data (some raw) = do
    bail_if (not (length raw % 2 == 0) || any_upper raw) bad_value
    hex.decode raw

  unfoldable pub parse_data : Bytes → Result Bytes
  parse_data value = checked_data (strip_prefix value)

  -- `parse_fixed_raw` of `size` bytes
  unfoldable pub parse_fixed_raw : ℕ → Bytes → Result Bytes
  parse_fixed_raw size raw = do
    bail_if (not (length raw == size * 2) || any_upper raw) bad_value
    decoded ← hex.decode raw
    bail_if (not (length decoded == size)) bad_value
    ok decoded

  unfoldable pub checked_u256 : Option Bytes → Result Bytes
  checked_u256 none = err bad_value
  checked_u256 (some raw) = do
    bail_if (padded_number raw || ltb 64 (length raw) || any_upper raw) bad_value
    parse_fixed_raw 32 (replicate (64 - length raw) b'0' ++ raw)

  unfoldable pub parse_u256 : Bytes → Result Bytes
  parse_u256 value = checked_u256 (strip_prefix value)
