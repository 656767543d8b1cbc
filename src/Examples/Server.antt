-- ===== src/Examples/Server.antt =====
-- The server at a concrete request: a balance at the latest block.
use fossil.Base.{
  List, Option, Result, [], arith, block_unavailable, err, if◌then◌else◌, leb, map, none, ok, refl,
  replicate, some, true, ℕ, ◌∷◌, ◌≡◌, ◌≤◌,
}
use fossil.Bytes.{Bytes}
use fossil.Examples.Readers.{text_hex}
use fossil.Extern.{JsonValues}
use fossil.Package.{AccountEvent}
use fossil.Server.Dispatch.{answered, balance_text, dispatch, reply_account}
use fossil.Server.Dispatch.InRange.{dispatch-InRange, with_states}
use fossil.Server.Selector.{Backend, latest_text}

-- Values that are lists of texts: a text is the list of itself.
abbrev list_values : JsonValues
list_values = record {
  Value = List Bytes;
  as_str = sole;
  as_bool = λ texts. none;
  as_array = λ texts. some (map (λ text. text ∷ []) texts);
  as_object = λ texts. none;
}
  where
    sole : List Bytes → Option Bytes
    sole (text ∷ []) = some text
    sole texts = none

-- Two states that differ from block 6 on.
abbrev early_account : Bytes → ℕ → Result (Option AccountEvent)
early_account address block = if leb block 5 then ok none else err block_unavailable

abbrev any_account : Bytes → ℕ → Result (Option AccountEvent)
any_account address block = ok none

abbrev zero_slot : Bytes → Bytes → ℕ → Result Bytes
zero_slot address slot block = ok (replicate 32 0)

abbrev empty_code : Bytes → ℕ → Result Bytes
empty_code address block = ok []

abbrev served : Backend
served = record {
  chain_id = 1;
  anchor_number = 2;
  published_number = 5;
  finalized = true;
  supports_block_hash = true;
  account_at = early_account;
  storage_at = zero_slot;
  code_at = empty_code;
  block_number_by_hash = λ hash. ok (some 4);
}

-- The address of twenty bytes 0x11, and "latest".
abbrev latest_of_address : List Bytes
latest_of_address = (b'0' ∷ b'x' ∷ replicate 40 b'1') ∷ latest_text ∷ []

hashes_inside :
    (hash : Bytes) (number : ℕ)
    → served.block_number_by_hash hash ≡ ok (some number)
    → (2 ≤ number) × (number ≤ 5)
hashes_inside hash number e =
    let four : 4 ≡ number = cc e in (omega (arith, four), omega (arith, four))

accounts_alike :
    (address : Bytes) (block : ℕ)
    → 2 ≤ block
    → block ≤ 5
    → early_account address block ≡ any_account address block
accounts_alike address block low high = ground (arith, high)

-- That account does not exist, so its balance is "0x0".
balance_is_zero :
    dispatch list_values text_hex [] served balance_text latest_of_address
    ≡ answered (b'0' ∷ b'x' ∷ b'0' ∷ [])
unfolding dispatch reply_account fossil.Server.Dispatch.two_params
    fossil.Server.Dispatch.parse_address fossil.Package.Quantity.strip_prefix
    fossil.Package.Quantity.parse_fixed_raw fossil.Package.Quantity.any_upper
    fossil.Package.Quantity.is_upper fossil.Server.Selector.resolve_selector
    fossil.Server.Selector.resolve_number fossil.Server.Selector.tag_number fossil.Bytes.bytes_eq
    fossil.Server.Dispatch.account_reply fossil.Server.Dispatch.balance_of
balance_is_zero = refl

dispatch-InRange_example :
    dispatch list_values text_hex [] served balance_text latest_of_address
    ≡ dispatch list_values text_hex []
        (with_states served any_account zero_slot empty_code)
        balance_text
        latest_of_address
dispatch-InRange_example =
    dispatch-InRange list_values text_hex served hashes_inside any_account zero_slot empty_code
      accounts_alike (λ address slot block low high. refl) (λ address block low high. refl) []
      balance_text latest_of_address
