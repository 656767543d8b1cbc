-- ===== src/Package/Parser/Seal.antt =====
-- The loop over the records, and the checks behind it.
use fossil.Base.{
  Bool, Error, List, Option, Result, [], bad_event, bad_first_record, bad_trailer, bail_if, err,
  false, get_last?, head?, if◌then◌else◌, length, ltb, none, not, ok, some, too_few_records, ℕ,
  ◌&&◌, ◌++◌, ◌+◌, ◌==◌, ◌>>=◌, ◌>>◌, ◌^◌, ◌||◌, ◌∷◌,
}
use fossil.Bytes.{Bytes, bytes_eq}
use fossil.Extern.{Hex}
use fossil.Package.{BlockMeta, Mode, anchor, delta, Package}
use fossil.Package.Quantity.{parse_data}
use fossil.Package.Parser.{
  Header, ParseState, Record, account_record, block_end, block_record, code_record, has_bytes,
  header_record, is_some, parse_header, segment_schema, start_state, storage_record, trailer_record,
}
use fossil.Package.Parser.Events.{
  is_delta, open_block, push_account, push_storage, current_number, close_block, close_package,
}

-- With hex and with Keccak-256 of the crate sha3.
module _ (hex : Hex) (keccak : Bytes → Bytes) where
  unfoldable pub push_code : ParseState → Bytes → Bytes → Result ParseState
  push_code st code_hash text = do
    number ← current_number st.current
    bytes ← parse_data hex text
    bail_if (not (bytes_eq (keccak bytes) code_hash)) bad_event
    bail_if (has_bytes code_hash st.code_hashes) bad_event
    ok (record st {
      code =
          st.code
          ++ record { first_seen_block = number; code_hash = code_hash; bytes = bytes } ∷ [];
      event_count = st.event_count + 1;
      code_hashes = code_hash ∷ st.code_hashes;
    })

  -- the `match` of the loop
  unfoldable pub take_record : Header → ParseState → Record → Result ParseState
  take_record header st (header_record _ _ _ _ _ _ _ _) = err bad_event
  take_record header st (block_record number hash parent_hash state_root timestamp) =
      open_block header st number hash parent_hash state_root timestamp
  take_record header st (account_record block address exists incarnation nonce balance code_hash) =
      push_account hex st block address exists incarnation nonce balance code_hash
  take_record header st (storage_record block address incarnation slot value) =
      push_storage st block address incarnation slot value
  take_record header st (code_record code_hash bytes) = push_code st code_hash bytes
  take_record header st (block_end number event_count) =
      close_block st number event_count st.current
  take_record header st (trailer_record end_number end_hash block_count) =
      close_package st end_number end_hash block_count

  unfoldable pub take_records : Header → ParseState → List Record → Result ParseState
  take_records header st [] = ok st
  take_records header st (r ∷ records) = do
    bail_if (is_some st.trailer) bad_trailer
    next ← take_record header st r
    take_records header next records

unfoldable pub is_hash_of : Option Bytes → Bytes → Bool
is_hash_of none hash = false
is_hash_of (some h) hash = bytes_eq h hash

unfoldable pub is_number_of : Option ℕ → ℕ → Bool
is_number_of none number = false
is_number_of (some n) number = n == number

-- `preceding_number.and_then(|number| number.checked_add(1)) == Some(first.number)`
unfoldable pub is_next : Option ℕ → ℕ → Bool
is_next none number = false
is_next (some n) number = ltb (n + 1) (2 ^ 64) && n + 1 == number

unfoldable pub bad_end : ℕ × Bytes × ℕ → BlockMeta → ℕ → Bool
bad_end (number, hash, count) last blocks =
    not (number == last.number) || not (bytes_eq hash last.hash) || not (count == blocks)

unfoldable pub bad_begin : Header → Mode → BlockMeta → Bool
bad_begin header anchor first =
    not (is_number_of header.anchor_number first.number)
    || not (is_hash_of header.anchor_hash first.hash)
bad_begin header delta first = false

unfoldable pub bad_genesis : Header → BlockMeta → Bool
bad_genesis header first = first.number == 0 && not (bytes_eq first.hash header.genesis_hash)

unfoldable pub not_next : Header → BlockMeta → Bool
not_next header first = is_delta header.mode && not (is_next header.preceding_number first.number)

-- from `let first = blocks.first()` on, with the first and the last block
unfoldable pub seal :
    Header → Bytes → ParseState → ℕ × Bytes × ℕ → BlockMeta → BlockMeta → Result Package
seal header input_sha256 st trailer first last = do
  bail_if (bad_end trailer last (length st.blocks)) bad_trailer
  bail_if (bad_begin header header.mode first) bad_first_record
  bail_if (bad_genesis header first) bad_first_record
  bail_if (not_next header first) bad_first_record
  ok (record {
    mode = header.mode;
    preceding_number = header.preceding_number;
    preceding_hash = header.preceding_hash;
    input_sha256 = input_sha256;
    segment = record {
      schema = segment_schema;
      chain_id = header.chain_id;
      genesis_hash = header.genesis_hash;
      start_block = first.number;
      end_block = last.number;
      blocks = st.blocks;
      accounts = st.accounts;
      storage = st.storage;
      code = st.code;
    };
  })

-- `ok_or_else` and `context`
unfoldable pub present {ℓ} : {A : Type ℓ} → Option A → Error → Result A
present none why = err why
present (some a) why = ok a

module _ (hex : Hex) (keccak : Bytes → Bytes) where
  unfoldable pub parse_rest : Record → List Record → Bytes → Result Package
  parse_rest front records input_sha256 = do
    header ← parse_header front
    st ← take_records hex keccak header start_state records
    trailer ← present st.trailer bad_trailer
    first ← present (head? st.blocks) bad_trailer
    last ← present (get_last? st.blocks) bad_trailer
    seal header input_sha256 st trailer first last

  -- `parse_package` from the parsed lines on
  unfoldable pub parse_package : List Record → Bytes → Result Package
  parse_package [] input_sha256 = err too_few_records
  parse_package (front ∷ records) input_sha256 =
      if ltb (length (front ∷ records)) 3
      then err too_few_records
      else parse_rest front records input_sha256
