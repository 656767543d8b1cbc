-- ===== src/Extern.antt =====
-- What the program takes from other crates: SHA-256, Keccak-256, and lowercase hex. The laws are
-- the documented ones that the code relies on.
use fossil.Base.{Bool, List, Option, Result, length, ok, take, ℕ, ◌^◌, ◌≡◌, ◌≤◌}
use fossil.Bytes.{Bytes, AreBytes}

-- crate sha2; `Hash32` is the list of its 32 bytes
pub record Sha256 : Type 0 where
  pub digest : Bytes → Bytes
  pub length_digest : (bytes : Bytes) → length (digest bytes) ≡ 32
  pub digest_bytes : (bytes : Bytes) → AreBytes (digest bytes)

-- crate hex; a text is the list of its bytes
pub record Hex : Type 0 where
  pub encode : Bytes → Bytes
  pub decode : Bytes → Result Bytes
  pub decode_encode : (bytes : Bytes) → AreBytes bytes → decode (encode bytes) ≡ ok bytes

-- crates zstd and ruzstd. `decode window maximum` reads at most `maximum` bytes of the decoded stream.
pub record Zstd : Type 0 where
  pub encode : Bytes → Result Bytes
  pub decode : ℕ → ℕ → Bytes → Result Bytes
  pub decode_encode :
      (window maximum : ℕ) (bytes packed : Bytes)
      → 2 ^ 20 ≤ window
      → encode bytes ≡ ok packed
      → decode window maximum packed ≡ ok (take maximum bytes)

-- crate serde_json: what the accessors of a value answer. An object is the list of its fields.
pub record JsonValues : Type 1 where
  pub Value : Type 0
  pub as_str : Value → Option Bytes
  pub as_bool : Value → Option Bool
  pub as_array : Value → Option (List Value)
  pub as_object : Value → Option (List (Bytes × Value))
