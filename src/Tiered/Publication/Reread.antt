-- ===== src/Tiered/Publication/Reread.antt =====
-- A head that `swap` has written is read back by `read_head`.
use fossil.Base.{
  >>=-eq-ok, Option, ap, arith, bail_if-eq-ok, length, ltb, ltb-false→le, ok, some, sym, true, ◌+◌,
  ◌<◌, ◌==◌, ◌^◌, ◌∙◌, ◌≡◌, ◌≤◌,
}
use mathlib.Core.Path.{subst}
use fossil.Bytes.{Bytes}
use fossil.Extern.{Sha256, Hex}
use fossil.Head.Manifest.{Head, validate, max_head}
use fossil.Head.Manifest.Validity.{IsValid, IsValid→validate}
use fossil.Tiered.Publication.{Json, swap, stage_previous, decode_head, read_head}
use fossil.Tiered.Publication.Append.{parent-IsValid}

module _ (sha : Sha256) (hex : Hex) (json : Json) where
  -- Where the next head is valid, its number below the largest `u64`, and serde_json reads back the
  -- head that it wrote, the bytes of `swap` fit the bound under which they are read, and `read_head`
  -- of the chain answers with them and that head.
  pub read_head-swap :
      (previous : Option Bytes) (next head : Head) (bytes : Bytes)
      → swap sha json previous next ≡ ok (head, bytes)
      → json.from_slice (json.to_vec head) ≡ ok head
      → IsValid sha hex next
      → next.number + 1 < 2 ^ 64
      → (length bytes ≤ max_head)
        × (read_head sha hex json head.chain_id (some bytes) ≡ ok (some (bytes, head)))
  unfolding swap
  read_head-swap previous next head bytes h back v small =
      let (parent, e, h1) = >>=-eq-ok (stage_previous sha json previous) _ h in
      let linked : Head = record next { parent = parent } in
      let (fits, h2) = bail_if-eq-ok (ltb max_head (length (json.to_vec linked))) _ _ h1 in
      let same : linked ≡ head = cc h2 in
      let sized : json.to_vec linked ≡ bytes = cc h2 in
      let written : json.to_vec head ≡ bytes = ap json.to_vec (sym same) ∙ sized in
      let passes : validate sha hex head ≡ ok head =
        subst (λ t. validate sha hex t ≡ ok t) same
          (IsValid→validate sha hex linked (parent-IsValid sha hex next parent v) small) in
      let parsed : json.from_slice bytes ≡ ok head = ap json.from_slice (sym written) ∙ back in
      let chain : (head.chain_id == head.chain_id) ≡ true = ground arith in
      (
        subst (λ t. length t ≤ max_head) sized (ltb-false→le _ _ fits),
        unfold read_head decode_head in rw (parsed, passes, chain),
      )
