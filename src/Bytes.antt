-- ===== src/Bytes.antt =====
-- Byte strings: `Vec<u8>` and slices are lists of numbers below 256. The big-endian words, the
-- checked reads at a cursor, and Rust's order of slices.
pub mod Words
pub mod Order
pub mod Cursor
pub mod Bits
use fossil.Base.{
  All, Bool, List, Result, [], drop, err, false, if◌then◌else◌, leb, length, ltb, not, ok, suc,
  take, true, truncated, zero, ℕ, ◌%◌, ◌&&◌, ◌*◌, ◌+◌, ◌-◌, ◌/◌, ◌<◌, ◌==◌, ◌^◌, ◌||◌, ◌∷◌,
}

abbrev pub Bytes : Type 0
Bytes = List ℕ

abbrev pub IsByte : ℕ → Type 0
IsByte b = b < 256

abbrev pub AreBytes : Bytes → Type 0
AreBytes = All IsByte

-- `to_be_bytes` of a `k`-byte integer
unfoldable pub be_bytes : ℕ → ℕ → Bytes
be_bytes zero v = []
be_bytes (suc k) v = (v / 256 ^ k % 256) ∷ be_bytes k v

-- `from_be_bytes`
unfoldable pub from_be : Bytes → ℕ
from_be [] = 0
from_be (b ∷ bs) = b * 256 ^ length bs + from_be bs

-- `==` of slices
unfoldable pub bytes_eq : Bytes → Bytes → Bool
bytes_eq [] [] = true
bytes_eq [] (y ∷ ys) = false
bytes_eq (x ∷ xs) [] = false
bytes_eq (x ∷ xs) (y ∷ ys) = x == y && bytes_eq xs ys

-- `<` of slices
unfoldable pub bytes_lt : Bytes → Bytes → Bool
bytes_lt [] [] = false
bytes_lt [] (y ∷ ys) = true
bytes_lt (x ∷ xs) [] = false
bytes_lt (x ∷ xs) (y ∷ ys) = ltb x y || (x == y && bytes_lt xs ys)

-- The pairs `(key, block)` by which records and fences are ordered.
pub record Version : Type 0 where
  pub key : Bytes
  pub block : ℕ

unfoldable pub version_eq : Version → Version → Bool
version_eq v w = bytes_eq v.key w.key && v.block == w.block

-- `<` of the pairs
unfoldable pub version_lt : Version → Version → Bool
version_lt v w = bytes_lt v.key w.key || (bytes_eq v.key w.key && ltb v.block w.block)

-- `<=` of the pairs, and `v >= w` is `version_le w v`
unfoldable pub version_le : Version → Version → Bool
version_le v w = not (version_lt w v)

-- `bytes[start..end]`, of which `start <= end <= bytes.len()` is known
abbrev pub slice : Bytes → ℕ → ℕ → Bytes
slice bytes start end = take (end - start) (drop start bytes)

-- `bytes.get(cursor..cursor + n)`, with the cursor behind it
unfoldable pub read_bytes : Bytes → ℕ → ℕ → Result (Bytes × ℕ)
read_bytes bytes cursor n =
    if leb (cursor + n) (length bytes)
    then ok (take n (drop cursor bytes), cursor + n)
    else err truncated
