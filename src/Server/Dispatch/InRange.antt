-- ===== src/Server/Dispatch/InRange.antt =====
-- The blocks whose state `dispatch` asks the backend for.
use fossil.Base.{
  >>=-eq-ok, Bool, Bool-cases, Error, List, Option, Result, ap, arith, bail_if-eq-ok,
  block_unavailable, err, false, if◌then◌else◌, inl, inr, invalid_params, ltb, none, not, ok, refl,
  some, true, ℕ, ◌||◌, ◌∙◌, ◌≡◌, ◌≤◌,
}
use fossil.Bytes.{Bytes, bytes_eq}
use fossil.Extern.{Hex, JsonValues}
use fossil.Package.{AccountEvent}
use fossil.Server.Dispatch.{
  Reply, account_reply, balance_text, dispatch, invalid_code, nonce_text, parse_address, parse_slot,
  reply_account, reply_storage, selector_code, stage, state_code, three_params, two_params,
}
use fossil.Server.Selector.{
  Backend, block_hash_text, block_number_text, check_canonical, field, is_some, ok_or, parse_hash,
  require_canonical_text, resolve_hash, resolve_number, resolve_object, resolve_selector,
  tag_number,
}

stage_known :
    {A : Type 0} (code : Error → ℕ) (r : Result A) {k k' : A → Reply}
    → ((a : A) → r ≡ ok a → k a ≡ k' a)
    → stage code r k ≡ stage code r k'
stage_known code (err why) same = refl
stage_known code (ok a) same = same a refl

-- Equal results, and two continuations that agree on the value that was found.
stage_congr :
    {A : Type 0} (code : Error → ℕ) {r r' : Result A} {k k' : A → Reply}
    → r ≡ r'
    → ((a : A) → r ≡ ok a → k a ≡ k' a)
    → stage code r k ≡ stage code r' k'
stage_congr code {r} {r'} {k} {k'} known same =
    stage_known code r same ∙ ap (λ found. stage code found k') known

congr_if :
    (test : Bool) (a : Reply) {b b' : Reply}
    → b ≡ b'
    → (if test then a else b) ≡ (if test then a else b')
congr_if false a same = same
congr_if true a same = refl

-- The backend with other states behind the same blocks.
abbrev pub with_states :
    Backend
    → (Bytes → ℕ → Result (Option AccountEvent))
    → (Bytes → Bytes → ℕ → Result Bytes)
    → (Bytes → ℕ → Result Bytes)
    → Backend
with_states backend account storage code = record {
  chain_id = backend.chain_id;
  anchor_number = backend.anchor_number;
  published_number = backend.published_number;
  finalized = backend.finalized;
  supports_block_hash = backend.supports_block_hash;
  account_at = account;
  storage_at = storage;
  code_at = code;
  block_number_by_hash = backend.block_number_by_hash;
}

module _ (json : JsonValues) (hex : Hex) (backend : Backend)
    (hashes_inside : (hash : Bytes) (number : ℕ)
      → backend.block_number_by_hash hash ≡ ok (some number)
      → (backend.anchor_number ≤ number) × (number ≤ backend.published_number)) where
  number_inside :
      (value : json.Value) (block : ℕ)
      → resolve_number json hex backend value ≡ ok block
      → (backend.anchor_number ≤ block) × (block ≤ backend.published_number)
  unfolding resolve_number
  number_inside value block e =
      let (text, e1, e2) = >>=-eq-ok (ok_or (json.as_str value) invalid_params) _ e in
      let (number, e3, e4) = >>=-eq-ok (tag_number backend text) _ e2 in
      let (range, e5) =
        bail_if-eq-ok (ltb number backend.anchor_number || ltb backend.published_number number)
          block_unavailable (ok number) e4 in
      let same : number ≡ block = cc e5 in
      (ground (arith, range, same), ground (arith, range, same))

  found_inside :
      (hash : Bytes) (found : Option ℕ) (block : ℕ)
      → backend.block_number_by_hash hash ≡ ok found
      → ok_or found block_unavailable ≡ ok block
      → (backend.anchor_number ≤ block) × (block ≤ backend.published_number)
  found_inside hash none block known e = absurd (cc e)
  found_inside hash (some number) block known e =
      let same : number ≡ block = cc e in hashes_inside hash block (rw same at known)

  hash_inside :
      (object : List (Bytes × json.Value)) (block : ℕ)
      → resolve_hash json hex backend object ≡ ok block
      → (backend.anchor_number ≤ block) × (block ≤ backend.published_number)
  unfolding resolve_hash
  hash_inside object block e =
      let (supported, e1) = bail_if-eq-ok (not backend.supports_block_hash) invalid_params _ e in
      let (value, f2, e2) =
        >>=-eq-ok (ok_or (field json hex block_hash_text object) invalid_params) _ e1 in
      let (text, f3, e3) = >>=-eq-ok (ok_or (json.as_str value) invalid_params) _ e2 in
      let (hash, f4, e4) = >>=-eq-ok (parse_hash json hex text) _ e3 in
      let (checked, f5, e5) =
        >>=-eq-ok (check_canonical json hex (field json hex require_canonical_text object)) _ e4 in
      let (found, f6, e6) = >>=-eq-ok (backend.block_number_by_hash hash) _ e5 in
      found_inside hash found block f6 e6

  object_inside :
      (object : List (Bytes × json.Value)) (found : Option json.Value) (block : ℕ)
      → resolve_object json hex backend object found ≡ ok block
      → (backend.anchor_number ≤ block) × (block ≤ backend.published_number)
  unfolding resolve_object
  object_inside object none block e = hash_inside object block e
  object_inside object (some value) block e =
      elim (Bool-cases (is_some json hex (field json hex block_hash_text object))) [
        | inl both ↦ absurd (cc (rw both at e))
        | inr one ↦ number_inside value block (rw one at e)
      ]

  shape_inside :
      (selector : json.Value) (shape : Option (List (Bytes × json.Value))) (block : ℕ)
      → (elim shape [
        | none ↦ resolve_number json hex backend selector
        | some object ↦
            resolve_object json hex backend object (field json hex block_number_text object)
      ])
        ≡ ok block
      → (backend.anchor_number ≤ block) × (block ≤ backend.published_number)
  shape_inside selector none block e = number_inside selector block e
  shape_inside selector (some object) block e =
      object_inside object (field json hex block_number_text object) block e

  -- A block that a selector resolves to lies between the anchor and the published block.
  resolved_inside :
      (selector : json.Value) (block : ℕ)
      → resolve_selector json hex backend selector ≡ ok block
      → (backend.anchor_number ≤ block) × (block ≤ backend.published_number)
  unfolding resolve_selector
  resolved_inside selector block e = shape_inside selector (json.as_object selector) block e

  module _ (account : Bytes → ℕ → Result (Option AccountEvent))
      (storage : Bytes → Bytes → ℕ → Result Bytes) (code : Bytes → ℕ → Result Bytes) where
    abbrev other : Backend
    other = with_states backend account storage code

    object_unchanged :
        (object : List (Bytes × json.Value)) (found : Option json.Value)
        → resolve_object json hex backend object found ≡ resolve_object json hex other object found
    unfolding resolve_object resolve_hash resolve_number tag_number
    object_unchanged object none = refl
    object_unchanged object (some value) = refl

    shape_unchanged :
        (selector : json.Value) (shape : Option (List (Bytes × json.Value)))
        → (elim shape [
          | none ↦ resolve_number json hex backend selector
          | some object ↦
              resolve_object json hex backend object (field json hex block_number_text object)
        ])
          ≡ (elim shape [
            | none ↦ resolve_number json hex other selector
            | some object ↦
                resolve_object json hex other object (field json hex block_number_text object)
          ])
    unfolding resolve_number tag_number
    shape_unchanged selector none = refl
    shape_unchanged selector (some object) =
        object_unchanged object (field json hex block_number_text object)

    resolve_unchanged :
        (selector : json.Value)
        → resolve_selector json hex backend selector ≡ resolve_selector json hex other selector
    unfolding resolve_selector
    resolve_unchanged selector = shape_unchanged selector (json.as_object selector)

    module _
        (same_account : (address : Bytes) (block : ℕ)
          → backend.anchor_number ≤ block
          → block ≤ backend.published_number
          → backend.account_at address block ≡ account address block)
        (same_storage : (address slot : Bytes) (block : ℕ)
          → backend.anchor_number ≤ block
          → block ≤ backend.published_number
          → backend.storage_at address slot block ≡ storage address slot block)
        (same_code : (address : Bytes) (block : ℕ)
          → backend.anchor_number ≤ block
          → block ≤ backend.published_number
          → backend.code_at address block ≡ code address block) where
      account_reply_same :
          (method address : Bytes) (block : ℕ)
          → backend.anchor_number ≤ block
          → block ≤ backend.published_number
          → (found : Option AccountEvent)
          → account_reply json hex backend method address block found
            ≡ account_reply json hex other method address block found
      unfolding account_reply
      account_reply_same method address block low high found =
          congr_if (bytes_eq method balance_text) _ (
            congr_if (bytes_eq method nonce_text) _
              (stage_congr state_code (same_code address block low high) (λ bytes known. refl)))

      reply_account_same :
          (method : Bytes) (params : json.Value)
          → reply_account json hex backend method params
            ≡ reply_account json hex other method params
      unfolding reply_account
      reply_account_same method params =
          stage_known invalid_code (two_params json hex (json.as_array params))
            (λ (first, second) given.
              stage_known invalid_code (parse_address json hex first) (λ address read.
                stage_congr selector_code (resolve_unchanged second) (λ block e.
                  let (low, high) = resolved_inside second block e in
                  stage_congr state_code (same_account address block low high)
                    (λ found known. account_reply_same method address block low high found))))

      reply_storage_same :
          (params : json.Value)
          → reply_storage json hex backend params ≡ reply_storage json hex other params
      unfolding reply_storage
      reply_storage_same params =
          stage_known invalid_code (three_params json hex (json.as_array params))
            (λ (first, second, third) given.
              stage_known invalid_code (parse_address json hex first) (λ address read.
                stage_known invalid_code (parse_slot json hex second) (λ slot known.
                  stage_congr selector_code (resolve_unchanged third) (λ block e.
                    let (low, high) = resolved_inside third block e in
                    stage_congr state_code (same_storage address slot block low high)
                      (λ value kept. refl)))))

      -- Where the blocks that the backend knows by a hash lie between its anchor and its published
      -- block, a reply depends on the states of those blocks alone: other states that agree on
      -- them give the same reply to every request.
      pub dispatch-InRange :
          (version method : Bytes) (params : json.Value)
          → dispatch json hex version backend method params
            ≡ dispatch json hex version (with_states backend account storage code) method params
      unfolding dispatch
      dispatch-InRange version method params =
          rw (reply_account_same method params, reply_storage_same params) refl
