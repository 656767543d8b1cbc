-- ===== src/Codec/Page.antt =====
-- Objects by digest and length, and data pages behind their compression.
use fossil.Base.{
  Bool, List, Result, bad_header, bad_length, bail_if, drop, err, get_or, if◌then◌else◌, length,
  ltb, not, ok, some, take, too_large, too_long, ℕ, ◌%◌, ◌++◌, ◌+◌, ◌-◌, ◌==◌, ◌>>=◌, ◌>>◌, ◌^◌,
  ◌||◌, ◌∷◌,
}
use fossil.Bytes.{Bytes, bytes_eq, from_be, be_bytes, slice}
use fossil.Extern.{Sha256, Zstd}
use fossil.Codec.{ObjectRef, Record, version, compressed_magic, max_page_bytes, verify_object}
use fossil.Codec.Data.{parse_data_payload}

pub record EncodedObject : Type 0 where
  pub reference : ObjectRef
  pub bytes : Bytes

unfoldable pub page_prefix : ℕ → ℕ → Bytes
page_prefix decoded_len compressed_len =
    compressed_magic
    ++ (version ∷ (be_bytes 4 (decoded_len % 2 ^ 32) ++ be_bytes 4 (compressed_len % 2 ^ 32)))

module _ (sha : Sha256) where
  unfoldable pub make_object : Bytes → Result EncodedObject
  make_object bytes =
      if ltb (length bytes) (2 ^ 32)
      then ok (record {
        reference = record { digest = sha.digest bytes; size = length bytes };
        bytes = bytes;
      })
      else err too_long

  unfoldable pub bad_page_prefix : ℕ → Bytes → Bool
  bad_page_prefix maximum bytes =
      ltb maximum (length bytes)
      || ltb (length bytes) 13
      || not (bytes_eq (take 4 bytes) compressed_magic)
      || not (get_or bytes 4 0 == version)

module _ (sha : Sha256) (zstd : Zstd) where
  -- `flush_page` between the payload and the object that it emits
  unfoldable pub encode_page : Bytes → Result EncodedObject
  encode_page payload = do
    compressed ← zstd.encode payload
    let bytes = page_prefix (length payload) (length compressed) ++ compressed
    bail_if (ltb max_page_bytes (length payload) || ltb max_page_bytes (length bytes)) too_large
    make_object sha bytes

  unfoldable pub decode_compressed : ObjectRef → Bytes → ℕ → Result Bytes
  decode_compressed reference bytes maximum = do
    bail_if (ltb maximum (length bytes)) too_large
    verify_object sha reference bytes
    bail_if (bad_page_prefix sha maximum bytes) bad_header
    let decoded_len = from_be (slice bytes 5 9)
    let compressed_len = from_be (slice bytes 9 13)
    bail_if (ltb maximum decoded_len || not (compressed_len == length bytes - 13)) bad_length
    decoded ← zstd.decode maximum (maximum + 1) (drop 13 bytes)
    bail_if (not (length decoded == decoded_len)) bad_length
    ok decoded

  unfoldable pub decode_data_page : ObjectRef → Bytes → ℕ → Result (List Record)
  decode_data_page reference bytes shard = do
    decoded ← decode_compressed reference bytes max_page_bytes
    parse_data_payload sha decoded (some shard)
