-- ===== src/Head/Account/Canonical.antt =====
-- The converse of the round trip: the decoder accepts no other bytes than the encoder writes.
use fossil.Base.{
  All-drop, All-take, [], ap, arith, bail_if-eq-ok, drop, drop-drop, false, get_or, length,
  length-drop, length-take, ok, refl, suc, sym, take, take-append-drop, take_all, zero, ℕ, ◌++◌,
  ◌==◌, ◌∙◌, ◌∷◌, ◌≡◌, ◌≤◌,
}
use mathlib.Core.Path.{subst}
use fossil.Bytes.{AreBytes, Bytes, IsByte, be_bytes, from_be}
use fossil.Bytes.Order.{eq_of_bytes_eq}
use fossil.Bytes.Words.{be_bytes-from_be, from_be-lt_u64}
use fossil.Head.Account.{
  AccountState, IsAccount, encode, decode, read_fields, stray, bad_shape, flag, zero32,
}

flag-==1 : (x : ℕ) → x ≤ 1 → flag (x == 1) ≡ x
flag-==1 zero h = refl
flag-==1 (suc zero) h = refl
flag-==1 (suc (suc x)) h = absurd (omega arith)

-- The parts of the bytes behind the flag, put together again.
join_parts :
    (w : Bytes)
    → length w ≡ 80
    → AreBytes w
    → be_bytes 8 (from_be (take 8 w))
        ++ (be_bytes 8 (from_be (take 8 (drop 8 w)))
            ++ (take 32 (drop 16 w) ++ take 32 (drop 48 w)))
      ≡ w
join_parts w n b =
    let e1 : be_bytes 8 (from_be (take 8 w)) ≡ take 8 w =
      be_bytes-from_be _ (omega (arith, length-take 8 w)) (All-take IsByte 8 w b) in
    let e2 : be_bytes 8 (from_be (take 8 (drop 8 w))) ≡ take 8 (drop 8 w) =
      be_bytes-from_be _ (omega (arith, length-take 8 (drop 8 w), length-drop 8 w))
        (All-take IsByte 8 (drop 8 w) (All-drop IsByte 8 w b)) in
    let e4 : take 32 (drop 48 w) ≡ drop 48 w = take_all 32 _ (omega (arith, length-drop 48 w)) in
    let e3 : take 32 (drop 16 w) ++ drop 48 w ≡ drop 16 w =
      ap (λ t. take 32 (drop 16 w) ++ t) (sym (drop-drop 16 32 w))
      ∙ take-append-drop 32 (drop 16 w) in
    let e5 : take 8 (drop 8 w) ++ drop 16 w ≡ drop 8 w =
      ap (λ t. take 8 (drop 8 w) ++ t) (sym (drop-drop 8 8 w)) ∙ take-append-drop 8 (drop 8 w) in
    rw (e1, e2, e4, e3, e5) (take-append-drop 8 w)

shape_of : (value : Bytes) → bad_shape value ≡ false → (length value ≡ 81) × (get_or value 0 0 ≤ 1)
unfolding bad_shape
shape_of value h = (ground arith, ground arith)

encode-read_fields :
    (value : Bytes)
    → length value ≡ 81
    → get_or value 0 0 ≤ 1
    → AreBytes value
    → encode (read_fields value) ≡ value
unfolding encode read_fields
encode-read_fields [] n f b = absurd (omega arith)
encode-read_fields (x ∷ w) n f (bx, bw) =
    rw (flag-==1 x f) (ap (λ t. x ∷ t) (join_parts w (omega arith) bw))

plain_tombstone :
    (s : AccountState)
    → stray s ≡ false
    → s.exists ≡ false
    → (s.nonce ≡ 0) × (s.balance ≡ zero32) × (s.code_hash ≡ zero32)
unfolding stray
plain_tombstone s h e =
    (ground arith, eq_of_bytes_eq _ _ (ground arith), eq_of_bytes_eq _ _ (ground arith))

read_fields-IsAccount :
    (value : Bytes)
    → length value ≡ 81
    → AreBytes value
    → stray (read_fields value) ≡ false
    → IsAccount (read_fields value)
read_fields-IsAccount value n b h = record {
  incarnation_fits =
      unfold read_fields in
      from_be-lt_u64 _ (omega (arith, length-take 8 (drop 1 value), length-drop 1 value))
        (All-take IsByte 8 (drop 1 value) (All-drop IsByte 1 value b));
  nonce_fits =
      unfold read_fields in
      from_be-lt_u64 _ (omega (arith, length-take 8 (drop 9 value), length-drop 9 value))
        (All-take IsByte 8 (drop 9 value) (All-drop IsByte 9 value b));
  length_balance =
      unfold read_fields in omega (arith, length-take 32 (drop 17 value), length-drop 17 value);
  length_code_hash =
      unfold read_fields in omega (arith, length-take 32 (drop 49 value), length-drop 49 value);
  tombstone = plain_tombstone (read_fields value) h;
}

-- Bytes that decode are those that the decoded account encodes to, and that account is one that
-- the writer may encode: no two byte strings decode to the same account.
pub encode-decode :
    (value : Bytes) (s : AccountState)
    → AreBytes value
    → decode value ≡ ok s
    → (encode s ≡ value) × IsAccount s
unfolding decode
encode-decode value s b h =
    let (t1, h1) = bail_if-eq-ok (bad_shape value) _ _ h in
    let (t2, h2) = bail_if-eq-ok (stray (read_fields value)) _ _ h1 in
    let (n, f) = shape_of value t1 in
    let e : read_fields value ≡ s = cc h2 in
    (
      ap encode (sym e) ∙ encode-read_fields value n f b,
      subst IsAccount e (read_fields-IsAccount value n b t2),
    )
