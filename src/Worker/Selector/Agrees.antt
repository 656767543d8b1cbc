-- ===== src/Worker/Selector/Agrees.antt =====
-- The blocks that the worker and the server resolve.
use fossil.Base.{
  >>=-eq-ok, Bool-cases, List, Option, Result, arith, bail_if, bail_if-eq-ok, block_unavailable,
  inl, inr, invalid_params, ltb, none, not, ok, refl, some, sym, ℕ, ◌>>=◌, ◌>>◌, ◌||◌, ◌∙◌, ◌≡◌,
  ◌≤◌,
}
use fossil.Bytes.{Bytes, bytes_eq}
use fossil.Extern.{Hex, JsonValues}
use fossil.Head.Manifest.{Head}
use fossil.Package.{AccountEvent}
use fossil.Package.Quantity.{
  any_upper, checked_quantity, padded_number, parse_quantity, strip_prefix,
}
use fossil.Server.Selector.{
  Backend, block_hash_text, block_number_text, earliest_text, field, finalized_text, is_some,
  latest_text, ok_or, pending_text, require_canonical_text, resolve_hash, resolve_number,
  resolve_object, resolve_selector, safe_text, tag_number, tiered_backend,
}
use fossil.Worker.Selector.{
  all_hex_digits, has_other_field, hex_number, is_no_bool, read_quantity, resolve_block, selected,
  text_number,
}

digits_agree :
    (raw : Option Bytes) (a b : ℕ) → checked_quantity raw ≡ ok a → hex_number raw ≡ ok b → a ≡ b
unfolding checked_quantity hex_number
digits_agree none a b e f = absurd (cc e)
digits_agree (some raw) a b e f =
    let (good, e1) = bail_if-eq-ok (padded_number raw || any_upper raw) _ _ e in
    let (fine, f1) = bail_if-eq-ok (padded_number raw || not (all_hex_digits raw)) _ _ f in
    cc (e1, f1)

-- Where both parsers of a quantity answer, they answer the same.
quantities_agree :
    (text : Bytes) (a b : ℕ) → parse_quantity text ≡ ok a → read_quantity text ≡ ok b → a ≡ b
unfolding parse_quantity read_quantity
quantities_agree text a b e f = digits_agree (strip_prefix text) a b e f

module _ (head : Head) (account : Bytes → ℕ → Result (Option AccountEvent))
    (storage : Bytes → Bytes → ℕ → Result Bytes) (code : Bytes → ℕ → Result Bytes) where
  abbrev backend : Backend
  backend = tiered_backend head account storage code

  texts_agree :
      (text : Bytes) (a b : ℕ)
      → tag_number backend text ≡ ok a
      → text_number head.number text ≡ ok b
      → a ≡ b
  unfolding tag_number text_number
  texts_agree text a b e f = elim (Bool-cases (bytes_eq text latest_text)) [
    | inl latest ↦ cc (rw latest at e, rw latest at f)
    | inr l ↦ elim (Bool-cases (bytes_eq text safe_text)) [
      | inl safe ↦ cc (rw (l, safe) at e, rw (l, safe) at f)
      | inr s ↦ elim (Bool-cases (bytes_eq text finalized_text)) [
        | inl finalized ↦ cc (rw (l, s, finalized) at e, rw (l, s, finalized) at f)
        | inr n ↦ elim (Bool-cases (bytes_eq text earliest_text)) [
          | inl earliest ↦ cc (rw (l, s, n, earliest) at e, rw (l, s, n, earliest) at f)
          | inr r ↦ elim (Bool-cases (bytes_eq text pending_text)) [
            | inl pending ↦ absurd (cc (rw (l, s, n, r, pending) at e))
            | inr p ↦ quantities_agree text a b (rw (l, s, n, r, p) at e) (rw (l, s, n, r, p) at f)
          ]
        ]
      ]
    ]
  ]

  module _ (json : JsonValues) (hex : Hex) where
    numbers_agree :
        (value : json.Value) (a b : ℕ)
        → resolve_number json hex backend value ≡ ok a
        → (ok_or (json.as_str value) invalid_params >>= text_number head.number) ≡ ok b
        → a ≡ b
    unfolding resolve_number
    numbers_agree value a b e f =
        let (text, t1, e1) = >>=-eq-ok (ok_or (json.as_str value) invalid_params) _ e in
        let (number, e2, e3) = >>=-eq-ok (tag_number backend text) _ e1 in
        let (range, e4) =
          bail_if-eq-ok (ltb number 0 || ltb head.number number) block_unavailable (ok number) e3 in
        let (text', t2, f1) = >>=-eq-ok (ok_or (json.as_str value) invalid_params) _ f in
        let same : text ≡ text' = cc (t1, t2) in
        let left : number ≡ a = cc e4 in sym left ∙ texts_agree text number b e2 (rw same f1)

    objects_agree :
        (object : List (Bytes × json.Value)) (found : Option json.Value) (a b : ℕ)
        → field json hex block_number_text object ≡ found
        → resolve_object json hex backend object found ≡ ok a
        → (ok_or found invalid_params
            >>= (λ value. ok_or (json.as_str value) invalid_params >>= text_number head.number))
          ≡ ok b
        → a ≡ b
    unfolding resolve_object resolve_hash
    objects_agree object none a b known e f = absurd (cc f)
    objects_agree object (some value) a b known e f =
        elim (Bool-cases (is_some json hex (field json hex block_hash_text object))) [
          | inl both ↦ absurd (cc (rw both at e))
          | inr one ↦ numbers_agree value a b (rw one at e) f
        ]

    selected_agree :
        (selector : json.Value) (shape : Option (List (Bytes × json.Value))) (a b : ℕ)
        → json.as_object selector ≡ shape
        → (elim shape [
          | none ↦ resolve_number json hex backend selector
          | some object ↦
              resolve_object json hex backend object (field json hex block_number_text object)
        ])
          ≡ ok a
        → ((elim shape [
          | none ↦ ok selector
          | some object ↦ (do
            bail_if (has_other_field json hex object) invalid_params
            bail_if
                (is_no_bool json hex (field json hex require_canonical_text object))
                invalid_params
            ok_or (field json hex block_number_text object) invalid_params)
        ])
            >>= (λ value. ok_or (json.as_str value) invalid_params >>= text_number head.number))
          ≡ ok b
        → a ≡ b
    selected_agree selector none a b known e f = numbers_agree selector a b e f
    selected_agree selector (some object) a b known e f =
        elim (Bool-cases (has_other_field json hex object)) [
          | inl other ↦ absurd (cc (rw other at f))
          | inr only ↦
              elim (Bool-cases
                (is_no_bool json hex (field json hex require_canonical_text object))) [
                  | inl bad ↦ absurd (cc (rw (only, bad) at f))
                  | inr good ↦
                      objects_agree object (field json hex block_number_text object) a b refl e
                        (rw (only, good) at f)
                ]
        ]

    ranged :
        (value : Result json.Value) (b : ℕ)
        → (value >>= (λ v. ok_or (json.as_str v) invalid_params >>= (λ text.
            text_number head.number text
            >>= (λ block. bail_if (ltb head.number block) block_unavailable >> ok block))))
          ≡ ok b
        → (b ≤ head.number)
          × ((value >>= (λ v. ok_or (json.as_str v) invalid_params >>= text_number head.number))
              ≡ ok b)
    ranged value b f =
        let (v, e1, f1) = >>=-eq-ok value _ f in
        let (text, e2, f2) = >>=-eq-ok (ok_or (json.as_str v) invalid_params) _ f1 in
        let (block, e3, f3) = >>=-eq-ok (text_number head.number text) _ f2 in
        let (inside, f4) = bail_if-eq-ok (ltb head.number block) block_unavailable (ok block) f3 in
        let same : block ≡ b = cc f4 in (ground (arith, inside, same), rw (e1, e2, e3) f4)

    -- Where the server over a head and the worker over the same head both resolve a selector, they
    -- resolve it to the same block, which lies in the published history.
    pub resolve_selector-Agrees :
        (selector : json.Value) (a b : ℕ)
        → resolve_selector json hex backend selector ≡ ok a
        → resolve_block json hex head.number selector ≡ ok b
        → (a ≡ b) × (b ≤ head.number)
    unfolding resolve_selector resolve_block selected
    resolve_selector-Agrees selector a b e f =
        let (inside, named) = ranged _ b f in
        (selected_agree selector (json.as_object selector) a b refl e named, inside)
