-- ===== src/Codec/Data.antt =====
-- Data pages: the records of one partition, sorted by key and block.
pub mod RoundTrip
pub mod Canonical
use fossil.Base.{
  Bool, List, Option, Result, [], bad_count, bad_header, bad_length, bail_if, err, false, get_last?,
  get_or, if◌then◌else◌, length, ltb, misrouted, none, not, not_sorted, ok, some, suc, take,
  too_long, zero, ℕ, ◌&&◌, ◌++◌, ◌-◌, ◌/◌, ◌==◌, ◌>>=◌, ◌>>◌, ◌^◌, ◌||◌, ◌∷◌,
}
use fossil.Bytes.{Bytes, bytes_eq, version_le, read_bytes, from_be, be_bytes, slice}
use fossil.Extern.{Sha256}
use fossil.Codec.{Record, version_of, data_magic, version, is_empty, read_u32, read_u64, partition}

-- `u32::try_from(…)` of both lengths
unfoldable pub encode_record : Record → Result Bytes
encode_record r =
    if ltb (length r.key) (2 ^ 32) && ltb (length r.value) (2 ^ 32)
    then ok (
        be_bytes 4 (length r.key)
        ++ (r.key ++ (be_bytes 8 r.block ++ (be_bytes 4 (length r.value) ++ r.value))))
    else err too_long

-- `data_page_start` with the count that `flush_page` writes over its zeros
unfoldable pub page_header : ℕ → Bytes
page_header count = data_magic ++ (version ∷ be_bytes 4 count)

-- The five reads of a round of the loop.
unfoldable pub read_record : Bytes → ℕ → Result (Record × ℕ)
read_record bytes cursor = do
  (key_len, c1) ← read_u32 bytes cursor
  (key, c2) ← read_bytes bytes c1 key_len
  (block, c3) ← read_u64 bytes c2
  (value_len, c4) ← read_u32 bytes c3
  (value, c5) ← read_bytes bytes c4 value_len
  ok (record { key = key; block = block; value = value }, c5)

-- `records.last()` is not before the record
unfoldable pub out_of_order : Option Record → Record → Bool
out_of_order none r = false
out_of_order (some prior) r = version_le (version_of r) (version_of prior)

module _ (sha : Sha256) where
  unfoldable pub misroutes : Option ℕ → Bytes → Bool
  misroutes none key = false
  misroutes (some p) key = not (partition sha key == p)

  unfoldable pub record_loop : ℕ → Option ℕ → Bytes → ℕ → List Record → Result (List Record × ℕ)
  record_loop zero expected bytes cursor records = ok (records, cursor)
  record_loop (suc count) expected bytes cursor records = do
    (r, end) ← read_record bytes cursor
    bail_if (is_empty r.key || misroutes expected r.key) misrouted
    bail_if (out_of_order (get_last? records) r) not_sorted
    record_loop count expected bytes end (records ++ r ∷ [])

  unfoldable pub bad_page_header : Bytes → Bool
  bad_page_header bytes =
      ltb (length bytes) 9
      || not (bytes_eq (take 4 bytes) data_magic)
      || not (get_or bytes 4 0 == version)

  unfoldable pub page_mismatch : Bytes → List Record → ℕ → Bool
  page_mismatch bytes records cursor = not (cursor == length bytes) || is_empty records

  unfoldable pub parse_data_payload : Bytes → Option ℕ → Result (List Record)
  parse_data_payload bytes expected = do
    bail_if (bad_page_header bytes) bad_header
    let count = from_be (slice bytes 5 9)
    bail_if (ltb ((length bytes - 9) / 17) count) bad_count
    (records, cursor) ← record_loop count expected bytes 9 []
    bail_if (page_mismatch bytes records cursor) bad_length
    ok records
