-- ===== src/Worker/Selector.antt =====
-- `resolve_selector`, `parse_quantity`, `parse_address` and `parse_slot` of worker/src/core.rs.
pub mod Agrees
use fossil.Base.{
  Bool, List, Option, Result, [], bail_if, block_unavailable, err, false, if◌then◌else◌,
  invalid_params, leb, length, ltb, none, not, ok, replicate, some, true, ℕ, ◌%◌, ◌&&◌, ◌++◌, ◌-◌,
  ◌==◌, ◌>>=◌, ◌>>◌, ◌||◌, ◌∷◌,
}
use fossil.Bytes.{Bytes, bytes_eq}
use fossil.Extern.{Hex, JsonValues}
use fossil.Package.Quantity.{from_str_radix, padded_number, strip_prefix}
use fossil.Server.Selector.{
  block_number_text, earliest_text, field, finalized_text, latest_text, ok_or, pending_text,
  require_canonical_text, safe_text,
}

unfoldable pub is_hex_digit : ℕ → Bool
is_hex_digit c =
    (leb b'0' c && leb c b'9') || (leb b'a' c && leb c b'f') || (leb b'A' c && leb c b'F')

unfoldable pub all_hex_digits : Bytes → Bool
all_hex_digits [] = true
all_hex_digits (c ∷ text) = is_hex_digit c && all_hex_digits text

-- `parse_quantity` from the digits on
unfoldable pub hex_number : Option Bytes → Result ℕ
hex_number none = err invalid_params
hex_number (some digits) = do
  bail_if (padded_number digits || not (all_hex_digits digits)) invalid_params
  from_str_radix digits

unfoldable pub read_quantity : Bytes → Result ℕ
read_quantity value = hex_number (strip_prefix value)

-- The number that a text names, in an archive up to a block.
unfoldable pub text_number : ℕ → Bytes → Result ℕ
text_number number text =
    if bytes_eq text latest_text || bytes_eq text safe_text || bytes_eq text finalized_text
    then ok number
    else if bytes_eq text earliest_text
    then ok 0
    else if bytes_eq text pending_text
    then err invalid_params
    else read_quantity text

module _ (json : JsonValues) (hex : Hex) where
  unfoldable pub has_other_field : List (Bytes × json.Value) → Bool
  has_other_field [] = false
  has_other_field ((key, value) ∷ fields) =
      (not (bytes_eq key block_number_text) && not (bytes_eq key require_canonical_text))
      || has_other_field fields

  unfoldable pub is_no_bool : Option json.Value → Bool
  is_no_bool none = false
  is_no_bool (some value) = elim (json.as_bool value) [ none ↦ true | some flag ↦ false ]

  -- The value that names the block.
  unfoldable pub selected : json.Value → Result json.Value
  selected selector = elim (json.as_object selector) [
    | none ↦ ok selector
    | some object ↦ (do
      bail_if (has_other_field object) invalid_params
      bail_if (is_no_bool (field json hex require_canonical_text object)) invalid_params
      ok_or (field json hex block_number_text object) invalid_params)
  ]

  unfoldable pub resolve_block : ℕ → json.Value → Result ℕ
  resolve_block number selector = do
    value ← selected selector
    text ← ok_or (json.as_str value) invalid_params
    block ← text_number number text
    bail_if (ltb number block) block_unavailable
    ok block

  unfoldable pub worker_address : json.Value → Result Bytes
  worker_address value = do
    text ← ok_or (json.as_str value) invalid_params
    bail_if (not (length text == 42)) invalid_params
    raw ← ok_or (strip_prefix text) invalid_params
    bytes ← hex.decode raw
    bail_if (not (length bytes == 20)) invalid_params
    ok bytes

  -- `parse_slot` from the digits on
  unfoldable pub padded_slot : Bytes → Result Bytes
  padded_slot raw = do
    bail_if (length raw == 0 || ltb 64 (length raw) || not (all_hex_digits raw)) invalid_params
    bytes ← hex.decode (if length raw % 2 == 1 then b'0' ∷ raw else raw)
    ok (replicate (32 - length bytes) 0 ++ bytes)

  unfoldable pub worker_slot : json.Value → Result Bytes
  worker_slot value = do
    text ← ok_or (json.as_str value) invalid_params
    raw ← ok_or (strip_prefix text) invalid_params
    padded_slot raw
