-- ===== src/Server/Selector.antt =====
-- `resolve_selector` of src/rpc.rs: the block that a request names.
use fossil.Base.{
  Bool, Error, List, Option, Result, [], bail_if, block_unavailable, err, false, if◌then◌else◌,
  invalid_params, length, ltb, none, not, ok, some, true, ℕ, ◌==◌, ◌>>=◌, ◌>>◌, ◌||◌, ◌∷◌,
}
use fossil.Bytes.{Bytes, bytes_eq}
use fossil.Extern.{Hex, JsonValues}
use fossil.Head.Manifest.{Head}
use fossil.Package.{AccountEvent}
use fossil.Package.Quantity.{any_upper, parse_quantity, strip_prefix}

-- `RpcBackend`
pub record Backend : Type 0 where
  pub chain_id : ℕ
  pub anchor_number : ℕ
  pub published_number : ℕ
  pub finalized : Bool
  pub supports_block_hash : Bool
  pub account_at : Bytes → ℕ → Result (Option AccountEvent)
  pub storage_at : Bytes → Bytes → ℕ → Result Bytes
  pub code_at : Bytes → ℕ → Result Bytes
  pub block_number_by_hash : Bytes → Result (Option ℕ)

-- "latest"
abbrev pub latest_text : Bytes
latest_text = b'l' ∷ b'a' ∷ b't' ∷ b'e' ∷ b's' ∷ b't' ∷ []

-- "safe"
abbrev pub safe_text : Bytes
safe_text = b's' ∷ b'a' ∷ b'f' ∷ b'e' ∷ []

-- "finalized"
abbrev pub finalized_text : Bytes
finalized_text = b'f' ∷ b'i' ∷ b'n' ∷ b'a' ∷ b'l' ∷ b'i' ∷ b'z' ∷ b'e' ∷ b'd' ∷ []

-- "earliest"
abbrev pub earliest_text : Bytes
earliest_text = b'e' ∷ b'a' ∷ b'r' ∷ b'l' ∷ b'i' ∷ b'e' ∷ b's' ∷ b't' ∷ []

-- "pending"
abbrev pub pending_text : Bytes
pending_text = b'p' ∷ b'e' ∷ b'n' ∷ b'd' ∷ b'i' ∷ b'n' ∷ b'g' ∷ []

-- "blockNumber"
abbrev pub block_number_text : Bytes
block_number_text = b'b' ∷ b'l' ∷ b'o' ∷ b'c' ∷ b'k' ∷ b'N' ∷ b'u' ∷ b'm' ∷ b'b' ∷ b'e' ∷ b'r' ∷ []

-- "blockHash"
abbrev pub block_hash_text : Bytes
block_hash_text = b'b' ∷ b'l' ∷ b'o' ∷ b'c' ∷ b'k' ∷ b'H' ∷ b'a' ∷ b's' ∷ b'h' ∷ []

-- "requireCanonical"
abbrev pub require_canonical_text : Bytes
require_canonical_text =
    b'r' ∷ b'e' ∷ b'q' ∷ b'u' ∷ b'i' ∷ b'r' ∷ b'e' ∷ b'C' ∷ b'a' ∷ b'n' ∷ b'o' ∷ b'n' ∷ b'i' ∷ b'c'
    ∷ b'a' ∷ b'l' ∷ []

abbrev pub ok_or : {A : Type 0} → Option A → Error → Result A
ok_or none why = err why
ok_or (some a) why = ok a

-- The number that a text names, which is not yet checked against the range.
unfoldable pub tag_number : Backend → Bytes → Result ℕ
tag_number backend text =
    if bytes_eq text latest_text
    then ok backend.published_number
    else if bytes_eq text safe_text || bytes_eq text finalized_text
    then (if backend.finalized then ok backend.published_number else err block_unavailable)
    else if bytes_eq text earliest_text
    then (if backend.anchor_number == 0 then ok 0 else err block_unavailable)
    else if bytes_eq text pending_text
    then err invalid_params
    else parse_quantity text

module _ (json : JsonValues) (hex : Hex) where
  unfoldable pub field : Bytes → List (Bytes × json.Value) → Option json.Value
  field name [] = none
  field name ((key, value) ∷ fields) = if bytes_eq key name then some value else field name fields

  unfoldable pub resolve_number : Backend → json.Value → Result ℕ
  resolve_number backend value = do
    text ← ok_or (json.as_str value) invalid_params
    number ← tag_number backend text
    bail_if (ltb number backend.anchor_number || ltb backend.published_number number)
        block_unavailable
    ok number

  -- `Hash32::from_str`
  unfoldable pub parse_hash : Bytes → Result Bytes
  parse_hash value = do
    raw ← ok_or (strip_prefix value) invalid_params
    bail_if (not (length raw == 64) || any_upper raw) invalid_params
    decoded ← hex.decode raw
    bail_if (not (length decoded == 32)) invalid_params
    ok decoded

  unfoldable pub check_canonical : Option json.Value → Result (Unit {0})
  check_canonical none = ok tt
  check_canonical (some value) = do canonical ← ok_or (json.as_bool value) invalid_params; ok tt

  unfoldable pub resolve_hash : Backend → List (Bytes × json.Value) → Result ℕ
  resolve_hash backend object = do
    bail_if (not backend.supports_block_hash) invalid_params
    value ← ok_or (field block_hash_text object) invalid_params
    text ← ok_or (json.as_str value) invalid_params
    hash ← parse_hash text
    checked ← check_canonical (field require_canonical_text object)
    number ← backend.block_number_by_hash hash
    ok_or number block_unavailable

  abbrev pub is_some : {A : Type 0} → Option A → Bool
  is_some none = false
  is_some (some a) = true

  unfoldable pub resolve_object : Backend → List (Bytes × json.Value) → Option json.Value → Result ℕ
  resolve_object backend object none = resolve_hash backend object
  resolve_object backend object (some number) =
      if is_some (field block_hash_text object)
      then err invalid_params
      else resolve_number backend number

  unfoldable pub resolve_selector : Backend → json.Value → Result ℕ
  resolve_selector backend selector = elim (json.as_object selector) [
    | none ↦ resolve_number backend selector
    | some object ↦ resolve_object backend object (field block_number_text object)
  ]

-- `RpcBackend` of the tiered reader over a head
abbrev pub tiered_backend :
    Head
    → (Bytes → ℕ → Result (Option AccountEvent))
    → (Bytes → Bytes → ℕ → Result Bytes)
    → (Bytes → ℕ → Result Bytes)
    → Backend
tiered_backend head account storage code = record {
  chain_id = head.chain_id;
  anchor_number = 0;
  published_number = head.number;
  finalized = true;
  supports_block_hash = false;
  account_at = account;
  storage_at = storage;
  code_at = code;
  block_number_by_hash = λ hash. ok none;
}
