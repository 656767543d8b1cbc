-- ===== src/Head/Keys.antt =====
-- The full keys of accounts, storage slots and code.
use fossil.Base.{
  [], ap, drop, drop-append, length, refl, sym, take, take-append, ℕ, ◌++◌, ◌<◌, ◌^◌, ◌∙◌, ◌∷◌, ◌≡◌,
}
use fossil.Bytes.{Bytes, be_bytes, from_be}
use fossil.Bytes.Words.{length-be_bytes, from_be-be_u64}

unfoldable pub account_key : Bytes → Bytes
account_key address = 1 ∷ address

unfoldable pub storage_key : Bytes → ℕ → Bytes → Bytes
storage_key address incarnation slot = 2 ∷ (address ++ (be_bytes 8 incarnation ++ slot))

unfoldable pub code_key : Bytes → Bytes
code_key hash = 3 ∷ hash

tail_bytes : Bytes → Bytes
tail_bytes [] = []
tail_bytes (x ∷ xs) = xs

append_cancel : (a b c d : Bytes) → length a ≡ length c → a ++ b ≡ c ++ d → (a ≡ c) × (b ≡ d)
append_cancel a b c d h e = (
  sym (take-append (length c) a b h) ∙ ap (take (length c)) e ∙ take-append (length c) c d refl,
  sym (drop-append (length c) a b h) ∙ ap (drop (length c)) e ∙ drop-append (length c) c d refl,
)

-- The key of a slot determines the address of 20 bytes, the `u64` incarnation and the slot.
pub storage_key_injective :
    (address address' : Bytes) (incarnation incarnation' : ℕ) (slot slot' : Bytes)
    → length address ≡ 20
    → length address' ≡ 20
    → incarnation < 2 ^ 64
    → incarnation' < 2 ^ 64
    → storage_key address incarnation slot ≡ storage_key address' incarnation' slot'
    → (address ≡ address') × (incarnation ≡ incarnation') × (slot ≡ slot')
unfolding storage_key tail_bytes
storage_key_injective a a' i i' s s' ha ha' hi hi' e =
    let (ea, er) =
      append_cancel a (be_bytes 8 i ++ s) a' (be_bytes 8 i' ++ s') (ha ∙ sym ha')
        (ap tail_bytes e) in
    let (ei, es) =
      append_cancel (be_bytes 8 i) s (be_bytes 8 i') s'
        (length-be_bytes 8 i ∙ sym (length-be_bytes 8 i')) er in
    (ea, sym (from_be-be_u64 i hi) ∙ ap from_be ei ∙ from_be-be_u64 i' hi', es)
