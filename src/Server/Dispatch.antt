-- ===== src/Server/Dispatch.antt =====
-- `dispatch` of src/rpc.rs with its parameters and texts, and the replies to values and batches.
pub mod InRange
use fossil.Base.{
  Bool, Error, List, Option, Result, [], bail_if, block_unavailable, err, false, if◌then◌else◌,
  invalid_params, length, ltb, map, none, ok, replicate, some, true, ℕ, ◌++◌, ◌-◌, ◌==◌, ◌>>=◌,
  ◌>>◌, ◌||◌, ◌∷◌,
}
use fossil.Bytes.{Bytes, bytes_eq}
use fossil.Extern.{Hex, JsonValues}
use fossil.Package.{AccountEvent}
use fossil.Package.Quantity.{parse_fixed_raw, quantity, strip_prefix}
use fossil.Server.Selector.{Backend, ok_or, parse_hash, resolve_selector}

-- "web3_clientVersion"
abbrev pub client_version_text : Bytes
client_version_text =
    b'w' ∷ b'e' ∷ b'b' ∷ b'3' ∷ b'_' ∷ b'c' ∷ b'l' ∷ b'i' ∷ b'e' ∷ b'n' ∷ b't' ∷ b'V' ∷ b'e' ∷ b'r'
    ∷ b's' ∷ b'i' ∷ b'o' ∷ b'n' ∷ []

-- "eth_chainId"
abbrev pub chain_id_text : Bytes
chain_id_text = b'e' ∷ b't' ∷ b'h' ∷ b'_' ∷ b'c' ∷ b'h' ∷ b'a' ∷ b'i' ∷ b'n' ∷ b'I' ∷ b'd' ∷ []

-- "eth_blockNumber"
abbrev pub latest_number_text : Bytes
latest_number_text =
    b'e' ∷ b't' ∷ b'h' ∷ b'_' ∷ b'b' ∷ b'l' ∷ b'o' ∷ b'c' ∷ b'k' ∷ b'N' ∷ b'u' ∷ b'm' ∷ b'b' ∷ b'e'
    ∷ b'r' ∷ []

-- "eth_getBalance"
abbrev pub balance_text : Bytes
balance_text =
    b'e' ∷ b't' ∷ b'h' ∷ b'_' ∷ b'g' ∷ b'e' ∷ b't' ∷ b'B' ∷ b'a' ∷ b'l' ∷ b'a' ∷ b'n' ∷ b'c' ∷ b'e'
    ∷ []

-- "eth_getTransactionCount"
abbrev pub nonce_text : Bytes
nonce_text =
    b'e' ∷ b't' ∷ b'h' ∷ b'_' ∷ b'g' ∷ b'e' ∷ b't' ∷ b'T' ∷ b'r' ∷ b'a' ∷ b'n' ∷ b's' ∷ b'a' ∷ b'c'
    ∷ b't' ∷ b'i' ∷ b'o' ∷ b'n' ∷ b'C' ∷ b'o' ∷ b'u' ∷ b'n' ∷ b't' ∷ []

-- "eth_getCode"
abbrev pub code_text : Bytes
code_text = b'e' ∷ b't' ∷ b'h' ∷ b'_' ∷ b'g' ∷ b'e' ∷ b't' ∷ b'C' ∷ b'o' ∷ b'd' ∷ b'e' ∷ []

-- "eth_getStorageAt"
abbrev pub slot_text : Bytes
slot_text =
    b'e' ∷ b't' ∷ b'h' ∷ b'_' ∷ b'g' ∷ b'e' ∷ b't' ∷ b'S' ∷ b't' ∷ b'o' ∷ b'r' ∷ b'a' ∷ b'g' ∷ b'e'
    ∷ b'A' ∷ b't' ∷ []

-- "2.0"
abbrev pub protocol_text : Bytes
protocol_text = b'2' ∷ b'.' ∷ b'0' ∷ []

-- What a request is answered with: a text, or the number of an error code.
pub data Reply : Type 0 where
  answered : Bytes → Reply
  refused : ℕ → Reply

-- `map_err(…)?`
abbrev pub stage : {A : Type 0} → (Error → ℕ) → Result A → (A → Reply) → Reply
stage code (err why) next = refused (code why)
stage code (ok a) next = next a

unfoldable pub is_block_unavailable : Error → Bool
is_block_unavailable block_unavailable = true
is_block_unavailable why = false

-- `RpcError::invalid`, `RpcError::selector` and `RpcError::state`
abbrev pub invalid_code : Error → ℕ
invalid_code why = 32602

unfoldable pub selector_code : Error → ℕ
selector_code why = if is_block_unavailable why then 32001 else 32602

unfoldable pub state_code : Error → ℕ
state_code why = if is_block_unavailable why then 32001 else 32603

-- `trim_start_matches('0')`
unfoldable pub trim_zeros : Bytes → Bytes
trim_zeros [] = []
trim_zeros (c ∷ text) = let rest = trim_zeros text in if c == b'0' then rest else c ∷ text

-- The bytes from the first that is not zero on.
unfoldable pub significant : Bytes → Bytes
significant [] = []
significant (b ∷ bytes) = let rest = significant bytes in if b == 0 then rest else b ∷ bytes

abbrev pub hex_text : Bytes → Bytes
hex_text text = b'0' ∷ b'x' ∷ text

module _ (json : JsonValues) (hex : Hex) where
  unfoldable pub quantity_u256 : Bytes → Bytes
  quantity_u256 value =
      if length (significant value) == 0
      then hex_text (b'0' ∷ [])
      else hex_text (trim_zeros (hex.encode (significant value)))

  unfoldable pub data32 : Bytes → Bytes
  data32 value = hex_text (hex.encode value)

  unfoldable pub two_params : Option (List json.Value) → Result (json.Value × json.Value)
  two_params (some (first ∷ second ∷ [])) = ok (first, second)
  two_params values = err invalid_params

  unfoldable pub three_params :
      Option (List json.Value) → Result (json.Value × json.Value × json.Value)
  three_params (some (first ∷ second ∷ third ∷ [])) = ok (first, second, third)
  three_params values = err invalid_params

  -- `Address::from_str` of a text
  unfoldable pub parse_address : json.Value → Result Bytes
  parse_address value = do
    text ← ok_or (json.as_str value) invalid_params
    raw ← ok_or (strip_prefix text) invalid_params
    parse_fixed_raw hex 20 raw

  -- a slot that has no 66 digits
  unfoldable pub short_slot : Bytes → Result Bytes
  short_slot text = do
    quantity ← ok_or (strip_prefix text) invalid_params
    bail_if (length quantity == 0 || ltb 64 (length quantity)) invalid_params
    parse_hash json hex (hex_text (replicate (64 - length quantity) b'0' ++ quantity))

  unfoldable pub parse_slot : json.Value → Result Bytes
  parse_slot value = do
    text ← ok_or (json.as_str value) invalid_params
    (if length text == 66 then parse_hash json hex text else short_slot text)

  unfoldable pub balance_of : Option AccountEvent → Bytes
  balance_of none = hex_text (b'0' ∷ [])
  balance_of (some account) = quantity_u256 account.balance

  unfoldable pub nonce_of : Option AccountEvent → Bytes
  nonce_of none = hex_text (b'0' ∷ [])
  nonce_of (some account) = quantity account.nonce

  -- the inner match on the method
  unfoldable pub account_reply : Backend → Bytes → Bytes → ℕ → Option AccountEvent → Reply
  account_reply backend method address block account =
      if bytes_eq method balance_text
      then answered (balance_of account)
      else if bytes_eq method nonce_text
      then answered (nonce_of account)
      else stage state_code (backend.code_at address block)
          (λ bytes. answered (hex_text (hex.encode bytes)))

  unfoldable pub reply_account : Backend → Bytes → json.Value → Reply
  reply_account backend method params =
      stage invalid_code (two_params (json.as_array params)) (λ (first, second).
        stage invalid_code (parse_address first) (λ address.
          stage selector_code (resolve_selector json hex backend second) (λ block.
            stage state_code (backend.account_at address block)
              (account_reply backend method address block))))

  unfoldable pub reply_storage : Backend → json.Value → Reply
  reply_storage backend params =
      stage invalid_code (three_params (json.as_array params)) (λ (first, second, third).
        stage invalid_code (parse_address first) (λ address.
          stage invalid_code (parse_slot second) (λ slot.
            stage selector_code (resolve_selector json hex backend third) (λ block.
              stage state_code (backend.storage_at address slot block)
                (λ value. answered (data32 value))))))

  unfoldable pub dispatch : Bytes → Backend → Bytes → json.Value → Reply
  dispatch version backend method params =
      if bytes_eq method client_version_text
      then answered version
      else if bytes_eq method chain_id_text
      then answered (quantity backend.chain_id)
      else if bytes_eq method latest_number_text
      then answered (quantity backend.published_number)
      else if bytes_eq method balance_text
          || bytes_eq method nonce_text
          || bytes_eq method code_text
      then reply_account backend method params
      else if bytes_eq method slot_text
      then reply_storage backend params
      else refused 32601

  -- `Request`, as the derived parser of serde answers it
  pub record Request : Type 0 where
    pub jsonrpc : Option Bytes
    pub id : json.Value
    pub method : Bytes
    pub params : json.Value

  unfoldable pub is_version_two : Option Bytes → Bool
  is_version_two none = false
  is_version_two (some text) = bytes_eq text protocol_text

  -- A reply under the request's identifier, or under none.
  abbrev pub Response : Type 0
  Response = Option json.Value × Reply

  module _ (from_value : json.Value → Option Request) (version : Bytes) (backend : Backend) where
    unfoldable pub reply_to : Option Request → Response
    reply_to none = (none, refused 32600)
    reply_to (some request) =
        if is_version_two request.jsonrpc
        then (some request.id, dispatch version backend request.method request.params)
        else (none, refused 32600)

    unfoldable pub handle_value : json.Value → Response
    handle_value value = reply_to (from_value value)

    -- One response, or one for each request of a batch.
    unfoldable pub handle_rpc : ℕ → json.Value → List Response
    handle_rpc batch_limit value = elim (json.as_array value) [
      | none ↦ handle_value value ∷ []
      | some requests ↦
          if length requests == 0 || ltb batch_limit (length requests)
          then (none, refused 32600) ∷ []
          else map handle_value requests
    ]
