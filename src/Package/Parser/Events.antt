-- ===== src/Package/Parser/Events.antt =====
-- One record of the export: what each kind does to the state of the loop.
use fossil.Base.{
  Bool, Option, Result, [], bad_block_end, bad_block_record, bad_event, bad_trailer, bail_if, err,
  false, get_last?, leb, none, not, ok, some, true, ℕ, ◌&&◌, ◌++◌, ◌+◌, ◌==◌, ◌>>=◌, ◌>>◌, ◌^◌,
  ◌||◌, ◌∷◌,
}
use fossil.Bytes.{Bytes, bytes_eq, bytes_lt}
use fossil.Extern.{Hex}
use fossil.Head.Account.{zero32}
use fossil.Package.{BlockMeta, Mode, anchor, delta}
use fossil.Package.Quantity.{parse_quantity, parse_u256}
use fossil.Package.Parser.{
  Header, ParseState, StorageKey, has_bytes, has_storage_key, is_some, storage_key_lt,
}

-- `checked_current`
unfoldable pub not_current : Option BlockMeta → ℕ → Bool
not_current none number = true
not_current (some block) number = not (block.number == number)

unfoldable pub checked_current : Option BlockMeta → Bytes → Result ℕ
checked_current current value = do
  number ← parse_quantity value
  bail_if (not_current current number) bad_event
  ok number

unfoldable pub unwrap_hash : Option Bytes → Bytes
unwrap_hash none = zero32
unwrap_hash (some hash) = hash

unfoldable pub is_delta : Mode → Bool
is_delta anchor = false
is_delta delta = true

-- The tests of a new block against the last one, or against the header.
unfoldable pub breaks_chain : Header → Option BlockMeta → ℕ → Bytes → Bool
breaks_chain header none number parent_hash =
    is_delta header.mode && not (bytes_eq parent_hash (unwrap_hash header.preceding_hash))
breaks_chain header (some previous) number parent_hash =
    leb (2 ^ 64) (previous.number + 1)
    || not (previous.number + 1 == number)
    || not (bytes_eq parent_hash previous.hash)

unfoldable pub open_block :
    Header → ParseState → Bytes → Bytes → Bytes → Bytes → Bytes → Result ParseState
open_block header st number hash parent_hash state_root timestamp = do
  bail_if (is_some st.current) bad_block_record
  n ← parse_quantity number
  bail_if (breaks_chain header (get_last? st.blocks) n parent_hash) bad_block_record
  t ← parse_quantity timestamp
  ok (record st {
    current = some (record {
      number = n;
      hash = hash;
      parent_hash = parent_hash;
      state_root = state_root;
      timestamp = t;
    });
    event_count = 0;
    last_account = none;
    last_storage = none;
    account_keys = [];
    storage_keys = [];
  })

unfoldable pub not_above : Option Bytes → Bytes → Bool
not_above none address = false
not_above (some last) address = not (bytes_lt last address)

unfoldable pub not_above_storage : Option StorageKey → StorageKey → Bool
not_above_storage none key = false
not_above_storage (some last) key = not (storage_key_lt last key)

-- `ok_or_else`
unfoldable pub required : Option Bytes → Result Bytes
required none = err bad_event
required (some text) = ok text

module _ (hex : Hex) where
  -- The nonce, the balance and the code hash of an account record.
  unfoldable pub account_fields :
      Bool → Option Bytes → Option Bytes → Option Bytes → Result (ℕ × Bytes × Bytes)
  account_fields true nonce balance code_hash = do
    nonce_text ← required nonce
    n ← parse_quantity nonce_text
    balance_text ← required balance
    b ← parse_u256 hex balance_text
    c ← required code_hash
    ok (n, b, c)
  account_fields false nonce balance code_hash = do
    bail_if (is_some nonce || is_some balance || is_some code_hash) bad_event
    ok (0, zero32, zero32)

  unfoldable pub push_account :
      ParseState
      → Bytes
      → Bytes
      → Bool
      → Bytes
      → Option Bytes
      → Option Bytes
      → Option Bytes
      → Result ParseState
  push_account st block address exists incarnation nonce balance code_hash = do
    number ← checked_current st.current block
    bail_if (not_above st.last_account address) bad_event
    bail_if (has_bytes address st.account_keys) bad_event
    (n, b, c) ← account_fields exists nonce balance code_hash
    i ← parse_quantity incarnation
    ok (record st {
      accounts =
          st.accounts
          ++ record {
            block = number;
            address = address;
            exists = exists;
            incarnation = i;
            nonce = n;
            balance = b;
            code_hash = c;
          }
            ∷ [];
      event_count = st.event_count + 1;
      last_account = some address;
      account_keys = address ∷ st.account_keys;
    })

unfoldable pub push_storage : ParseState → Bytes → Bytes → Bytes → Bytes → Bytes → Result ParseState
push_storage st block address incarnation slot value = do
  number ← checked_current st.current block
  i ← parse_quantity incarnation
  bail_if (not_above_storage st.last_storage (address, i, slot)) bad_event
  bail_if (has_storage_key (address, i, slot) st.storage_keys) bad_event
  ok (record st {
    storage =
        st.storage
        ++ record { block = number; address = address; incarnation = i; slot = slot; value = value }
          ∷ [];
    event_count = st.event_count + 1;
    last_storage = some (address, i, slot);
    storage_keys = (address, i, slot) ∷ st.storage_keys;
  })

unfoldable pub current_number : Option BlockMeta → Result ℕ
current_number none = err bad_event
current_number (some block) = ok block.number

unfoldable pub close_block : ParseState → Bytes → Bytes → Option BlockMeta → Result ParseState
close_block st number expected current = do
  n ← checked_current current number
  count ← parse_quantity expected
  bail_if (not (count == st.event_count)) bad_block_end
  (elim current [
    | none ↦ err bad_block_end
    | some block ↦ ok (record st { blocks = st.blocks ++ block ∷ []; current = none })
  ])

unfoldable pub close_package : ParseState → Bytes → Bytes → Bytes → Result ParseState
close_package st end_number end_hash block_count = do
  bail_if (is_some st.current) bad_trailer
  n ← parse_quantity end_number
  count ← parse_quantity block_count
  ok (record st { trailer = some (n, end_hash, count) })
