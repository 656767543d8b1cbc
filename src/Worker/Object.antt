-- ===== src/Worker/Object.antt =====
-- `parse_range` and `decode_cas_key` of worker/src/lib.rs, which serve immutable objects. A text is
-- the list of its bytes.
pub mod Ranges
pub mod Texts
pub mod Keys
use fossil.Base.{
  Bool, List, Option, [], drop, false, if◌then◌else◌, leb, length, ltb, min, none, not, some, take,
  true, ℕ, ◌&&◌, ◌*◌, ◌+◌, ◌-◌, ◌==◌, ◌^◌, ◌||◌, ◌∷◌,
}
use fossil.Bytes.{Bytes, bytes_eq}

pub data RangeRequest : Type 0 where
  ignore unsatisfiable : RangeRequest
  satisfiable : ℕ → ℕ → RangeRequest

unfoldable pub is_digit : ℕ → Bool
is_digit c = leb b'0' c && leb c b'9'

unfoldable pub all_digits : Bytes → Bool
all_digits [] = true
all_digits (c ∷ text) = is_digit c && all_digits text

unfoldable pub has_byte : ℕ → Bytes → Bool
has_byte b [] = false
has_byte b (c ∷ text) = c == b || has_byte b text

-- `str::parse::<u64>` of a text of digits, behind the number so far
unfoldable pub parse_from : ℕ → Bytes → Option ℕ
parse_from number [] = some number
parse_from number (c ∷ text) =
    let next = number * 10 + (c - b'0') in
    let rest = parse_from next text in if leb (2 ^ 64) next then none else rest

unfoldable pub parse_u64 : Bytes → Option ℕ
parse_u64 [] = none
parse_u64 (c ∷ text) = parse_from 0 (c ∷ text)

-- `split_once('-')`
unfoldable pub split_dash : Bytes → Option (Bytes × Bytes)
split_dash [] = none
split_dash (c ∷ text) =
    if c == b'-'
    then some ([], text)
    else elim (split_dash text) [ none ↦ none | some (start, end) ↦ some (c ∷ start, end) ]

abbrev pub bytes_unit : Bytes
bytes_unit = b'b' ∷ b'y' ∷ b't' ∷ b'e' ∷ b's' ∷ b'=' ∷ []

unfoldable pub suffix_range : Bytes → ℕ → RangeRequest
suffix_range end size =
    if length end == 0 || not (all_digits end) then ignore else elim (parse_u64 end) [
      | none ↦ ignore
      | some suffix ↦
          if suffix == 0 || size == 0
          then unsatisfiable
          else satisfiable (size - min suffix size) (min suffix size)
    ]

-- The range from an offset on, to a last byte if one is named.
unfoldable pub range_from : ℕ → Option ℕ → ℕ → RangeRequest
range_from offset none size =
    if leb size offset then unsatisfiable else satisfiable offset (size - 1 - offset + 1)
range_from offset (some end) size =
    if ltb end offset
    then ignore
    else if leb size offset
    then unsatisfiable
    else satisfiable offset (min end (size - 1) - offset + 1)

unfoldable pub closed_range : Bytes → Bytes → ℕ → RangeRequest
closed_range start end size =
    if not (all_digits start) || (not (length end == 0) && not (all_digits end))
    then ignore
    else elim (parse_u64 start) [
      | none ↦ ignore
      | some offset ↦
          if length end == 0 then range_from offset none size else elim (parse_u64 end) [
            | none ↦ ignore
            | some last ↦ range_from offset (some last) size
          ]
    ]

unfoldable pub range_of : Bytes → ℕ → RangeRequest
range_of value size = if has_byte b',' value then ignore else elim (split_dash value) [
  | none ↦ ignore
  | some (start, end) ↦
      if length start == 0 then suffix_range end size else closed_range start end size
]

unfoldable pub parse_range : Bytes → ℕ → RangeRequest
parse_range value size =
    if bytes_eq (take 6 value) bytes_unit then range_of (drop 6 value) size else ignore

unfoldable pub hex_value : ℕ → Option ℕ
hex_value c =
    if is_digit c
    then some (c - b'0')
    else if leb b'a' c && leb c b'f'
    then some (c - b'a' + 10)
    else if leb b'A' c && leb c b'F'
    then some (c - b'A' + 10)
    else none

-- `u8::from_str_radix` of two bytes, the first of which may be a plus sign. Bytes that are no UTF-8
-- are no digits.
unfoldable pub radix_pair : ℕ → ℕ → Option ℕ
radix_pair a b = if a == b'+' then hex_value b else elim (hex_value a) [
  | none ↦ none
  | some high ↦ elim (hex_value b) [ none ↦ none | some low ↦ some (16 * high + low) ]
]

abbrev pub cons_to : Option ℕ → Option Bytes → Option Bytes
cons_to none rest = none
cons_to (some c) none = none
cons_to (some c) (some text) = some (c ∷ text)

-- the loop of `decode_cas_key`
unfoldable pub percent_decode : Bytes → Option Bytes
percent_decode [] = some []
percent_decode (c ∷ []) = if c == b'%' then none else some (c ∷ [])
percent_decode (c ∷ d ∷ []) = if c == b'%' then none else cons_to (some c) (percent_decode (d ∷ []))
percent_decode (c ∷ d ∷ e ∷ text) =
    let plain = percent_decode (d ∷ e ∷ text) in
    let coded = percent_decode text in
    if c == b'%' then cons_to (radix_pair d e) coded else cons_to (some c) plain

abbrev pub put_first : ℕ → List Bytes → List Bytes
put_first c [] = (c ∷ []) ∷ []
put_first c (segment ∷ segments) = (c ∷ segment) ∷ segments

-- `split('/')`
unfoldable pub split_slash : Bytes → List Bytes
split_slash [] = [] ∷ []
split_slash (c ∷ text) =
    let rest = split_slash text in if c == b'/' then [] ∷ rest else put_first c rest

unfoldable pub is_lower_hex : ℕ → Bool
is_lower_hex c = is_digit c || (leb b'a' c && leb c b'f')

unfoldable pub all_lower_hex : Bytes → Bool
all_lower_hex [] = true
all_lower_hex (c ∷ text) = is_lower_hex c && all_lower_hex text

-- "objects" and "sha256"
abbrev pub objects_segment : Bytes
objects_segment = b'o' ∷ b'b' ∷ b'j' ∷ b'e' ∷ b'c' ∷ b't' ∷ b's' ∷ []

abbrev pub sha256_segment : Bytes
sha256_segment = b's' ∷ b'h' ∷ b'a' ∷ b'2' ∷ b'5' ∷ b'6' ∷ []

unfoldable pub bad_cas_key : Bytes → Bytes → Bytes → Bytes → Bool
bad_cas_key namespace algorithm shard digest =
    not (bytes_eq namespace objects_segment)
    || not (bytes_eq algorithm sha256_segment)
    || not (length shard == 2)
    || not (length digest == 64)
    || not (all_lower_hex shard)
    || not (all_lower_hex digest)
    || not (bytes_eq (take (length shard) digest) shard)

unfoldable pub check_segments : Bytes → List Bytes → Option Bytes
check_segments key (namespace ∷ algorithm ∷ shard ∷ digest ∷ []) =
    if bad_cas_key namespace algorithm shard digest then none else some key
check_segments key segments = none

-- The decoded key has the bytes that it is checked for, so it is UTF-8.
unfoldable pub decode_cas_key : Bytes → Option Bytes
decode_cas_key encoded = elim (percent_decode encoded) [
  | none ↦ none
  | some key ↦ check_segments key (split_slash key)
]
