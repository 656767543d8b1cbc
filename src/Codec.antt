-- ===== src/Codec.antt =====
-- codec/src/run.rs: immutable sorted runs. The types and the object references.
pub mod Data
pub mod Index
pub mod Page
pub mod Root
pub mod Lookup
pub mod Scanner
pub mod Walk
pub mod Builder
use fossil.Base.{
  Bool, List, Result, [], bail_if, drop, false, get_or, length, ltb, not, object_mismatch, ok, take,
  true, ℕ, ◌&&◌, ◌*◌, ◌++◌, ◌+◌, ◌/◌, ◌==◌, ◌>>=◌, ◌>>◌, ◌||◌, ◌∷◌,
}
use fossil.Bytes.{Bytes, Version, bytes_eq, read_bytes, from_be, be_bytes}
use fossil.Extern.{Sha256}
use fossil.Head.Account.{zero32}

-- "FTRT", "FTIX", "FTDP", "FTIR", "FTRZ"
abbrev pub root_magic : Bytes
root_magic = b'F' ∷ b'T' ∷ b'R' ∷ b'T' ∷ []

abbrev pub index_magic : Bytes
index_magic = b'F' ∷ b'T' ∷ b'I' ∷ b'X' ∷ []

abbrev pub data_magic : Bytes
data_magic = b'F' ∷ b'T' ∷ b'D' ∷ b'P' ∷ []

abbrev pub internal_magic : Bytes
internal_magic = b'F' ∷ b'T' ∷ b'I' ∷ b'R' ∷ []

abbrev pub compressed_magic : Bytes
compressed_magic = b'F' ∷ b'T' ∷ b'R' ∷ b'Z' ∷ []

abbrev pub version : ℕ
version = 1

abbrev pub partitions : ℕ
partitions = 16

abbrev pub max_page_bytes : ℕ
max_page_bytes = 1024 * 1024

abbrev pub max_index_bytes : ℕ
max_index_bytes = 512 * 1024

abbrev pub ref_bytes : ℕ
ref_bytes = 36

abbrev pub root_bytes : ℕ
root_bytes = 4 + 1 + partitions * 36

pub record ObjectRef : Type 0 where
  pub digest : Bytes
  pub size : ℕ

-- `ObjectRef::default()`
unfoldable pub no_object : ObjectRef
no_object = record { digest = zero32; size = 0 }

unfoldable pub ref_eq : ObjectRef → ObjectRef → Bool
ref_eq a b = bytes_eq a.digest b.digest && a.size == b.size

pub record Record : Type 0 where
  pub key : Bytes
  pub block : ℕ
  pub value : Bytes

pub record Fence : Type 0 where
  pub key : Bytes
  pub block : ℕ
  pub object : ObjectRef

abbrev pub version_of : Record → Version
version_of r = record { key = r.key; block = r.block }

abbrev pub fence_version : Fence → Version
fence_version f = record { key = f.key; block = f.block }

unfoldable pub is_empty {ℓ} : {A : Type ℓ} → List A → Bool
is_empty [] = true
is_empty (x ∷ xs) = false

-- `read_u32`, `read_u64`, `read_ref`: the value and the cursor behind it
unfoldable pub read_u32 : Bytes → ℕ → Result (ℕ × ℕ)
read_u32 bytes cursor = do (raw, end) ← read_bytes bytes cursor 4; ok (from_be raw, end)

unfoldable pub read_u64 : Bytes → ℕ → Result (ℕ × ℕ)
read_u64 bytes cursor = do (raw, end) ← read_bytes bytes cursor 8; ok (from_be raw, end)

unfoldable pub read_ref : Bytes → ℕ → Result (ObjectRef × ℕ)
read_ref bytes offset = do
  (raw, end) ← read_bytes bytes offset ref_bytes
  ok (record { digest = take 32 raw; size = from_be (drop 32 raw) }, end)

unfoldable pub put_ref : ObjectRef → Bytes
put_ref reference = reference.digest ++ be_bytes 4 reference.size

-- the guard before each fetch of an index, and of a data page
unfoldable pub bad_ref : ℕ → ObjectRef → Bool
bad_ref maximum reference =
    reference.size == 0 || ltb maximum reference.size || bytes_eq reference.digest zero32

module _ (sha : Sha256) where
  -- `Hash32::digest(key).0[0] >> 4`
  unfoldable pub partition : Bytes → ℕ
  partition key = get_or (sha.digest key) 0 0 / 16

  unfoldable pub verify_object : ObjectRef → Bytes → Result (Unit {0})
  verify_object reference bytes =
      bail_if
        (not (reference.size == length bytes) || not (bytes_eq reference.digest (sha.digest bytes)))
        object_mismatch
