-- ===== src/Worker/Dispatch.antt =====
-- `dispatch_rpc` of worker/src/lib.rs over a bucket, with the configuration that it reads. A reply is
-- as in the server: a text, or an error code's number without the minus sign.
use fossil.Base.{
  Bool, Error, List, Option, Result, [], backend_failed, bail_if, block_unavailable, if◌then◌else◌,
  integrity, invalid_params, length, limit, ltb, none, not, ok, some, take, unavailable, ℕ, ◌&&◌,
  ◌==◌, ◌>>=◌, ◌>>◌, ◌||◌, ◌∷◌,
}
use fossil.Bytes.{Bytes, bytes_eq}
use fossil.Extern.{Hex, JsonValues, Sha256, Zstd}
use fossil.Head.Manifest.{Head}
use fossil.Package.Quantity.{quantity}
use fossil.Server.Dispatch.{
  Reply, answered, balance_text, chain_id_text, client_version_text, code_text, hex_text,
  invalid_code, latest_number_text, nonce_text, refused, selector_code, slot_text, stage,
  three_params, trim_zeros, two_params,
}
use fossil.Server.Selector.{ok_or}
use fossil.Worker.Gateway.{Bucket, archive_prefix}
use fossil.Worker.Object.{all_digits, parse_u64}
use fossil.Worker.Reader.{Account, Cells, LoadedRun, account_at, code_at, load, storage_at}
use fossil.Worker.Selector.{resolve_block, worker_address, worker_slot}

-- `R2Store::get`, with the chunks of a body in one piece
unfoldable pub bucket_get : Bucket → Bytes → ℕ → Result Bytes
bucket_get bucket key maximum = do
  found ← bucket.get key
  object ← ok_or found unavailable
  bail_if (ltb maximum object.size) integrity
  bytes ← ok_or object.body integrity
  bail_if (ltb maximum (length bytes) || not (length bytes == object.size)) integrity
  ok bytes

-- `parse_configured_chain_id`
unfoldable pub parse_chain_id : Bytes → Result ℕ
parse_chain_id text = do
  bail_if
      (length text == 0
        || bytes_eq text (b'0' ∷ [])
        || (ltb 1 (length text) && bytes_eq (take 1 text) (b'0' ∷ []))
        || not (all_digits text))
      backend_failed
  ok_or (parse_u64 text) backend_failed

-- "8453"
abbrev pub default_chain : Bytes
default_chain = b'8' ∷ b'4' ∷ b'5' ∷ b'3' ∷ []

unfoldable pub configured_chain_id : Option Bytes → Result ℕ
configured_chain_id none = parse_chain_id default_chain
configured_chain_id (some text) = parse_chain_id text

-- `rpc_error`: an error of the codec is one of integrity.
unfoldable pub archive_code : Error → ℕ
archive_code invalid_params = 32602
archive_code unavailable = 32001
archive_code block_unavailable = 32001
archive_code limit = 32005
archive_code backend_failed = 32603
archive_code why = 32002

-- "fossil-worker-rs/0.1.0"
abbrev pub worker_version : Bytes
worker_version =
    b'f' ∷ b'o' ∷ b's' ∷ b's' ∷ b'i' ∷ b'l' ∷ b'-' ∷ b'w' ∷ b'o' ∷ b'r' ∷ b'k' ∷ b'e' ∷ b'r' ∷ b'-'
    ∷ b'r' ∷ b's' ∷ b'/' ∷ b'0' ∷ b'.' ∷ b'1' ∷ b'.' ∷ b'0' ∷ []

-- The methods that read the configuration.
unfoldable pub is_archive_method : Bytes → Bool
is_archive_method method =
    bytes_eq method chain_id_text
    || bytes_eq method latest_number_text
    || bytes_eq method balance_text
    || bytes_eq method nonce_text
    || bytes_eq method code_text
    || bytes_eq method slot_text

module _ (json : JsonValues) (hex : Hex) where
  unfoldable pub require_params : json.Value → ℕ → Result (Unit {0})
  require_params params expected = do
    values ← ok_or (json.as_array params) invalid_params
    bail_if (not (length values == expected)) invalid_params

  unfoldable pub quantity_bytes : Bytes → Bytes
  quantity_bytes value =
      if length (trim_zeros (hex.encode value)) == 0
      then hex_text (b'0' ∷ [])
      else hex_text (trim_zeros (hex.encode value))

  unfoldable pub balance_in : Option Account → Bytes
  balance_in none = hex_text (b'0' ∷ [])
  balance_in (some account) = quantity_bytes account.balance

  unfoldable pub nonce_in : Option Account → Bytes
  nonce_in none = hex_text (b'0' ∷ [])
  nonce_in (some account) = quantity account.nonce

  module _ (sha : Sha256) (zstd : Zstd) (keccak : Bytes → Bytes) (bucket : Bucket) where
    -- The replies from a loaded reader.
    module _ (prefix : Bytes) (head : Head) (loaded : List LoadedRun) (s : Cells) where
      unfoldable pub storage_reply : json.Value → Reply
      storage_reply params =
          stage archive_code (three_params json hex (json.as_array params))
            (λ (first, second, third).
              stage invalid_code (worker_address json hex first) (λ address.
                stage invalid_code (worker_slot json hex second) (λ slot.
                  stage selector_code (resolve_block json hex head.number third) (λ block.
                    stage archive_code
                      (storage_at sha hex zstd (bucket_get bucket) prefix loaded address slot block
                        s)
                      (λ (value, s1). answered (hex_text (hex.encode value)))))))

      -- What is read of an account at a block.
      unfoldable pub state_reply : Bytes → Bytes → ℕ → Reply
      state_reply method address block =
          if bytes_eq method code_text
          then stage archive_code
              (code_at sha hex zstd (bucket_get bucket) prefix keccak loaded address block s)
              (λ (bytes, s1). answered (hex_text (hex.encode bytes)))
          else stage archive_code
              (account_at sha hex zstd (bucket_get bucket) prefix loaded address block s)
              (λ (account, s1).
                answered
                  (if bytes_eq method balance_text then balance_in account else nonce_in account))

      unfoldable pub address_reply : Bytes → json.Value → Reply
      address_reply method params =
          stage archive_code (two_params json hex (json.as_array params)) (λ (first, second).
            stage invalid_code (worker_address json hex first) (λ address.
              stage selector_code (resolve_block json hex head.number second)
                (state_reply method address)))

      unfoldable pub loaded_reply : Bytes → json.Value → Reply
      loaded_reply method params =
          if bytes_eq method latest_number_text
          then stage archive_code (require_params params 0)
              (λ passed. answered (quantity head.number))
          else if bytes_eq method slot_text
          then storage_reply params
          else address_reply method params

    module _ (head_key : ℕ → Bytes) (decode_head : Bytes → Result Head)
        (chain_variable prefix_variable : Option Bytes) where
      -- The methods behind the chain identifier.
      unfoldable pub chain_reply : Bytes → json.Value → ℕ → Reply
      chain_reply method params chain_id =
          if bytes_eq method chain_id_text
          then stage archive_code (require_params params 0) (λ passed. answered (quantity chain_id))
          else stage archive_code (archive_prefix prefix_variable) (λ prefix.
            stage archive_code
              (load sha hex zstd (bucket_get bucket) prefix head_key decode_head chain_id)
              (λ (head, loaded, s). loaded_reply prefix head loaded s method params))

      unfoldable pub dispatch_rpc : Bytes → json.Value → Reply
      dispatch_rpc method params =
          if bytes_eq method client_version_text
          then stage archive_code (require_params params 0) (λ passed. answered worker_version)
          else if not (is_archive_method method)
          then refused 32601
          else stage archive_code (configured_chain_id chain_variable) (chain_reply method params)
