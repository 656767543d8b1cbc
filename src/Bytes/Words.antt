-- ===== src/Bytes/Words.antt =====
-- The big-endian words of four and eight bytes, both ways.
use fossil.Base.{[], ap, arith, length, refl, suc, zero, ℕ, ◌<◌, ◌^◌, ◌∷◌, ◌≡◌}
use fossil.Bytes.{Bytes, AreBytes, be_bytes, from_be}

pub length-be_bytes : (k v : ℕ) → length (be_bytes k v) ≡ k
unfolding be_bytes
length-be_bytes zero v = refl
length-be_bytes (suc k) v = ap suc (length-be_bytes k v)

pub be_bytes-AreBytes : (k v : ℕ) → AreBytes (be_bytes k v)
unfolding be_bytes
be_bytes-AreBytes zero v = tt
be_bytes-AreBytes (suc k) v = (omega arith, be_bytes-AreBytes k v)

pub from_be-be_u32 : (v : ℕ) → v < 2 ^ 32 → from_be (be_bytes 4 v) ≡ v
unfolding from_be be_bytes
from_be-be_u32 v h = omega arith

pub from_be-be_u64 : (v : ℕ) → v < 2 ^ 64 → from_be (be_bytes 8 v) ≡ v
unfolding from_be be_bytes
from_be-be_u64 v h = omega arith

pub be_u64-from_be :
    (a b c d e f g h : ℕ)
    → AreBytes (a ∷ b ∷ c ∷ d ∷ e ∷ f ∷ g ∷ h ∷ [])
    → be_bytes 8 (from_be (a ∷ b ∷ c ∷ d ∷ e ∷ f ∷ g ∷ h ∷ [])) ≡ a ∷ b ∷ c ∷ d ∷ e ∷ f ∷ g ∷ h ∷ []
unfolding from_be be_bytes
be_u64-from_be a b c d e f g h k = ground arith

-- Eight bytes are the encoding of the number that they hold.
pub be_bytes-from_be :
    (bytes : Bytes) → length bytes ≡ 8 → AreBytes bytes → be_bytes 8 (from_be bytes) ≡ bytes
be_bytes-from_be (a ∷ b ∷ c ∷ d ∷ e ∷ f ∷ g ∷ h ∷ []) n k = be_u64-from_be a b c d e f g h k
be_bytes-from_be _ n k = absurd (omega arith)

-- A word of `n` bytes is below `256 ^ n`, here at the widths that the formats use.
pub from_be-lt_u64 : (bytes : Bytes) → length bytes ≡ 8 → AreBytes bytes → from_be bytes < 2 ^ 64
unfolding from_be
from_be-lt_u64 (a ∷ b ∷ c ∷ d ∷ e ∷ f ∷ g ∷ h ∷ []) n k = omega arith
from_be-lt_u64 _ n k = absurd (omega arith)

pub from_be-lt_u32 : (bytes : Bytes) → length bytes ≡ 4 → AreBytes bytes → from_be bytes < 2 ^ 32
unfolding from_be
from_be-lt_u32 (a ∷ b ∷ c ∷ d ∷ []) n k = omega arith
from_be-lt_u32 _ n k = absurd (omega arith)

pub be_u32-from_be :
    (bytes : Bytes) → length bytes ≡ 4 → AreBytes bytes → be_bytes 4 (from_be bytes) ≡ bytes
unfolding from_be be_bytes
be_u32-from_be (a ∷ b ∷ c ∷ d ∷ []) n k = ground arith
be_u32-from_be _ n k = absurd (omega arith)
