-- ===== src/Package/Parser.antt =====
-- src/normalized.rs behind the JSON parser: the records of an export, folded into a package.
pub mod Events
pub mod Seal
pub mod Chain
pub mod Parsed
use fossil.Base.{
  Bool, List, Option, Result, [], bad_first_record, bail_if, err, false, if◌then◌else◌, ltb, none,
  not, ok, some, true, ℕ, ◌&&◌, ◌==◌, ◌>>=◌, ◌>>◌, ◌||◌, ◌∷◌,
}
use fossil.Bytes.{Bytes, bytes_eq, bytes_lt}
use fossil.Package.{BlockMeta, AccountEvent, StorageEvent, CodeBlob, Mode, anchor, delta}
use fossil.Package.Quantity.{parse_quantity}

-- "fossil-export/1" and "fossil-segment/1"
abbrev pub export_schema : Bytes
export_schema =
    b'f' ∷ b'o' ∷ b's' ∷ b's' ∷ b'i' ∷ b'l' ∷ b'-' ∷ b'e' ∷ b'x' ∷ b'p' ∷ b'o' ∷ b'r' ∷ b't' ∷ b'/'
    ∷ b'1' ∷ []

abbrev pub segment_schema : Bytes
segment_schema =
    b'f' ∷ b'o' ∷ b's' ∷ b's' ∷ b'i' ∷ b'l' ∷ b'-' ∷ b's' ∷ b'e' ∷ b'g' ∷ b'm' ∷ b'e' ∷ b'n' ∷ b't'
    ∷ b'/' ∷ b'1' ∷ []

abbrev pub anchor_text : Bytes
anchor_text = b'a' ∷ b'n' ∷ b'c' ∷ b'h' ∷ b'o' ∷ b'r' ∷ []

abbrev pub delta_text : Bytes
delta_text = b'd' ∷ b'e' ∷ b'l' ∷ b't' ∷ b'a' ∷ []

-- A line of the export; its texts are not parsed yet.
pub data Record : Type 0 where
  header_record :
      (schema chain_id genesis_hash mode : Bytes) (anchor_number anchor_hash : Option Bytes)
      (preceding_number preceding_hash : Option Bytes)
      → Record
  block_record : (number hash parent_hash state_root timestamp : Bytes) → Record
  account_record :
      (block address : Bytes) (exists : Bool) (incarnation : Bytes)
      (nonce balance code_hash : Option Bytes)
      → Record
  storage_record : (block address incarnation slot value : Bytes) → Record
  code_record : (code_hash bytes : Bytes) → Record
  block_end : (number event_count : Bytes) → Record
  trailer_record : (end_number end_hash block_count : Bytes) → Record

-- The fields of the header, with their quantities parsed.
pub record Header : Type 0 where
  pub chain_id : ℕ
  pub genesis_hash : Bytes
  pub mode : Mode
  pub anchor_number : Option ℕ
  pub anchor_hash : Option Bytes
  pub preceding_number : Option ℕ
  pub preceding_hash : Option Bytes

-- `n.map(|n| parse_quantity(&n)).transpose()?`
unfoldable pub optional_quantity : Option Bytes → Result (Option ℕ)
optional_quantity none = ok none
optional_quantity (some text) = do number ← parse_quantity text; ok (some number)

unfoldable pub parse_mode : Bytes → Result Mode
parse_mode text =
    if bytes_eq text anchor_text
    then ok anchor
    else if bytes_eq text delta_text
    then ok delta
    else err bad_first_record

unfoldable pub is_some {ℓ} : {A : Type ℓ} → Option A → Bool
is_some none = false
is_some (some a) = true

unfoldable pub incomplete : Header → Mode → Bool
incomplete header anchor = not (is_some header.anchor_number) || not (is_some header.anchor_hash)
incomplete header delta =
    not (is_some header.preceding_number) || not (is_some header.preceding_hash)

unfoldable pub parse_header : Record → Result Header
parse_header
      (header_record schema chain_id genesis_hash mode anchor_number anchor_hash preceding_number
        preceding_hash) =
    do
      bail_if (not (bytes_eq schema export_schema)) bad_first_record
      mode' ← parse_mode mode
      chain ← parse_quantity chain_id
      anchor_at ← optional_quantity anchor_number
      preceding ← optional_quantity preceding_number
      let header : Header = record {
        chain_id = chain;
        genesis_hash = genesis_hash;
        mode = mode';
        anchor_number = anchor_at;
        anchor_hash = anchor_hash;
        preceding_number = preceding;
        preceding_hash = preceding_hash;
      }
      bail_if (incomplete header mode') bad_first_record
      ok header
parse_header _ = err bad_first_record

abbrev pub StorageKey : Type 0
StorageKey = Bytes × ℕ × Bytes

unfoldable pub storage_key_eq : StorageKey → StorageKey → Bool
storage_key_eq (a, i, s) (b, j, t) = bytes_eq a b && i == j && bytes_eq s t

-- `key <= last` of the derived order of the tuples is `not (last < key)`.
unfoldable pub storage_key_lt : StorageKey → StorageKey → Bool
storage_key_lt (a, i, s) (b, j, t) =
    bytes_lt a b || (bytes_eq a b && (ltb i j || (i == j && bytes_lt s t)))

unfoldable pub has_bytes : Bytes → List Bytes → Bool
has_bytes key [] = false
has_bytes key (k ∷ keys) = bytes_eq k key || has_bytes key keys

unfoldable pub has_storage_key : StorageKey → List StorageKey → Bool
has_storage_key key [] = false
has_storage_key key (k ∷ keys) = storage_key_eq k key || has_storage_key key keys

-- The variables of the loop over the records. The sets are lists.
pub record ParseState : Type 0 where
  pub blocks : List BlockMeta
  pub accounts : List AccountEvent
  pub storage : List StorageEvent
  pub code : List CodeBlob
  pub current : Option BlockMeta
  pub event_count : ℕ
  pub last_account : Option Bytes
  pub last_storage : Option StorageKey
  pub account_keys : List Bytes
  pub storage_keys : List StorageKey
  pub code_hashes : List Bytes
  pub trailer : Option (ℕ × Bytes × ℕ)

unfoldable pub start_state : ParseState
start_state = record {
  blocks = [];
  accounts = [];
  storage = [];
  code = [];
  current = none;
  event_count = 0;
  last_account = none;
  last_storage = none;
  account_keys = [];
  storage_keys = [];
  code_hashes = [];
  trailer = none;
}
