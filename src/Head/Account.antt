-- ===== src/Head/Account.antt =====
-- `AccountState` and its 81 bytes.
pub mod Canonical
use fossil.Base.{
  Bool, Bool-cases, Result, [], ap, arith, bail_if, drop-append, false, get_or, inl, inr,
  invalid_account, invalid_tombstone, length, length-append, ltb, not, ok, refl, replicate, sym,
  take-append, true, ℕ, ◌&&◌, ◌++◌, ◌+◌, ◌-◌, ◌<◌, ◌==◌, ◌>>◌, ◌^◌, ◌||◌, ◌∙◌, ◌∷◌, ◌≡◌, ◌≤◌,
}
use fossil.Bytes.{Bytes, be_bytes, from_be, bytes_eq, slice}
use fossil.Bytes.Order.{bytes_eq_refl}
use mathlib.Core.List.{append_assoc, append-nil}
use fossil.Bytes.Words.{length-be_bytes, from_be-be_u64}

pub record AccountState : Type 0 where
  pub exists : Bool
  pub incarnation : ℕ
  pub nonce : ℕ
  pub balance : Bytes
  pub code_hash : Bytes

-- `u8::from(bool)`
abbrev pub flag : Bool → ℕ
flag true = 1
flag false = 0

unfoldable pub zero32 : Bytes
zero32 = replicate 32 0

unfoldable pub encode : AccountState → Bytes
encode s =
    flag s.exists ∷ (be_bytes 8 s.incarnation ++ (be_bytes 8 s.nonce ++ (s.balance ++ s.code_hash)))

-- the fields at their offsets
read_fields : Bytes → AccountState
read_fields value = record {
  exists = get_or value 0 0 == 1;
  incarnation = from_be (slice value 1 9);
  nonce = from_be (slice value 9 17);
  balance = slice value 17 49;
  code_hash = slice value 49 81;
}

-- the tombstone test of `decode`
stray : AccountState → Bool
stray s =
    not s.exists
    && (not (s.nonce == 0) || not (bytes_eq s.balance zero32) || not (bytes_eq s.code_hash zero32))

bad_shape : Bytes → Bool
bad_shape value = not (length value == 81) || ltb 1 (get_or value 0 0)

pub decode : Bytes → Result AccountState
decode value = do
  bail_if (bad_shape value) invalid_account
  let state = read_fields value
  bail_if (stray state) invalid_tombstone
  ok state

-- A value that the writer may encode: `u64` fields, 32-byte arrays, and a tombstone that holds only
-- its incarnation.
pub record IsAccount (s : AccountState) : Type 0 where
  pub incarnation_fits : s.incarnation < 2 ^ 64
  pub nonce_fits : s.nonce < 2 ^ 64
  pub length_balance : length s.balance ≡ 32
  pub length_code_hash : length s.code_hash ≡ 32
  pub tombstone : s.exists ≡ false → (s.nonce ≡ 0) × (s.balance ≡ zero32) × (s.code_hash ≡ zero32)

stray-IsAccount : (s : AccountState) → IsAccount s → stray s ≡ false
unfolding stray
stray-IsAccount s v = elim (Bool-cases s.exists) [
  | inl e ↦ ground arith
  | inr e ↦
      let (n, b, c) = v.tombstone e in
      let eb : bytes_eq s.balance zero32 ≡ true = rw b (bytes_eq_refl zero32) in
      let ec : bytes_eq s.code_hash zero32 ≡ true = rw c (bytes_eq_refl zero32) in
      ground (arith, n, eb, ec)
]

-- `slice` at the end of the first of two parts.
slice-append :
    (front part rest : Bytes) (start end : ℕ)
    → length front ≡ start
    → length part + start ≡ end
    → slice (front ++ (part ++ rest)) start end ≡ part
slice-append front part rest start end h k =
    rw (drop-append start front (part ++ rest) h)
      (take-append (end - start) part rest (omega arith))

pub length-encode : (s : AccountState) → IsAccount s → length (encode s) ≡ 81
unfolding encode
length-encode s v = omega (
  arith,
  length-append (be_bytes 8 s.incarnation) (be_bytes 8 s.nonce ++ (s.balance ++ s.code_hash)),
  length-append (be_bytes 8 s.nonce) (s.balance ++ s.code_hash),
  length-append s.balance s.code_hash,
  length-be_bytes 8 s.incarnation,
  length-be_bytes 8 s.nonce,
  v.length_balance,
  v.length_code_hash,
)

flag_back : (b : Bool) → (flag b == 1) ≡ b
flag_back true = refl
flag_back false = refl

read_fields-encode : (s : AccountState) → IsAccount s → read_fields (encode s) ≡ s
unfolding read_fields encode
read_fields-encode s v =
    let i8 = be_bytes 8 s.incarnation in
    let n8 = be_bytes 8 s.nonce in
    let f = flag s.exists in
    let e_exists : (f == 1) ≡ s.exists = flag_back s.exists in
    let front : Bytes = f ∷ (i8 ++ n8) in
    let split : f ∷ (i8 ++ (n8 ++ (s.balance ++ s.code_hash)))
        ≡ front ++ (s.balance ++ s.code_hash) =
      ap (λ t. f ∷ t) (sym (append_assoc i8 n8 (s.balance ++ s.code_hash))) in
    let l_front : length front ≡ 17 =
      omega
        (arith, length-append i8 n8, length-be_bytes 8 s.incarnation, length-be_bytes 8 s.nonce) in
    let e_i : slice (f ∷ (i8 ++ (n8 ++ (s.balance ++ s.code_hash)))) 1 9 ≡ i8 =
      slice-append (f ∷ []) i8 _ 1 9 refl (omega (arith, length-be_bytes 8 s.incarnation)) in
    let e_n : slice (f ∷ (i8 ++ (n8 ++ (s.balance ++ s.code_hash)))) 9 17 ≡ n8 =
      slice-append (f ∷ i8) n8 _ 9 17 (omega (arith, length-be_bytes 8 s.incarnation))
        (omega (arith, length-be_bytes 8 s.nonce)) in
    let e_b : slice (f ∷ (i8 ++ (n8 ++ (s.balance ++ s.code_hash)))) 17 49 ≡ s.balance =
      ap (λ t. slice t 17 49) split
      ∙ slice-append front s.balance s.code_hash 17 49 l_front (omega (arith, v.length_balance)) in
    let whole : f ∷ (i8 ++ (n8 ++ (s.balance ++ s.code_hash)))
        ≡ (front ++ s.balance) ++ (s.code_hash ++ []) =
      split
      ∙ sym (append_assoc front s.balance s.code_hash)
      ∙ ap (λ t. (front ++ s.balance) ++ t) (sym (append-nil s.code_hash)) in
    let e_c : slice (f ∷ (i8 ++ (n8 ++ (s.balance ++ s.code_hash)))) 49 81 ≡ s.code_hash =
      ap (λ t. slice t 49 81) whole
      ∙ slice-append (front ++ s.balance) s.code_hash [] 49 81
          (omega (arith, length-append front s.balance, l_front, v.length_balance))
          (omega (arith, v.length_code_hash)) in
    λ i. record {
      exists = e_exists i;
      incarnation = (ap from_be e_i ∙ from_be-be_u64 s.incarnation v.incarnation_fits) i;
      nonce = (ap from_be e_n ∙ from_be-be_u64 s.nonce v.nonce_fits) i;
      balance = e_b i;
      code_hash = e_c i;
    }

flag_le : (b : Bool) → flag b ≤ 1
flag_le true = omega arith
flag_le false = omega arith

good_shape : (s : AccountState) → IsAccount s → bad_shape (encode s) ≡ false
unfolding bad_shape
good_shape s v =
    let first : get_or (encode s) 0 0 ≡ flag s.exists = unfold encode in refl in
    ground (arith, length-encode s v, flag_le s.exists, first)

-- What `encode` writes of an account that the writer may encode, `decode` reads back.
pub decode-encode : (s : AccountState) → IsAccount s → decode (encode s) ≡ ok s
unfolding decode
decode-encode s v = rw (good_shape s v, read_fields-encode s v, stray-IsAccount s v)
