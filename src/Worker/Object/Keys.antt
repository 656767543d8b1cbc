-- ===== src/Worker/Object/Keys.antt =====
-- The keys that the worker serves under /objects/ are those of immutable objects.
use fossil.Base.{
  Bool-cases, List, Option, [], ap, arith, false, if◌then◌else◌, inl, inr, length, none, refl, some,
  suc, sym, take, true, zero, ℕ, ◌++◌, ◌∙◌, ◌∷◌, ◌≡◌,
}
use mathlib.Core.Path.{subst}
use fossil.Bytes.{Bytes, bytes_eq}
use fossil.Bytes.Order.{bytes_eq_refl, eq_of_bytes_eq}
use fossil.Worker.Object.{
  all_lower_hex, bad_cas_key, check_segments, decode_cas_key, objects_segment, percent_decode,
  sha256_segment, split_slash,
}
use fossil.Worker.Object.Texts.{
  join_slash, join_slash-split_slash, Plain, Plain-lower_hex, Plain-take, Literal, Literal-append,
  percent_decode-Literal, split_slash-append, split_slash-Plain,
}

-- "objects/sha256/", two digits, a slash, and the 64 lowercase hex digits that these begin
pub record IsObjectKey (key : Bytes) : Type 0 where
  pub digest : Bytes
  pub whole : length digest ≡ 64
  pub lowercase : all_lower_hex digest ≡ true
  pub spelled :
      key
      ≡ objects_segment ++ (b'/' ∷ (sha256_segment ++ (b'/' ∷ (take 2 digest ++ (b'/' ∷ digest)))))

segments-IsObjectKey :
    (key namespace algorithm shard digest : Bytes)
    → join_slash (namespace ∷ algorithm ∷ shard ∷ digest ∷ []) ≡ key
    → bad_cas_key namespace algorithm shard digest ≡ false
    → IsObjectKey key
unfolding bad_cas_key
segments-IsObjectKey key n a s d joined good =
    let size : length s ≡ 2 = ground (arith, good) in
    let en : n ≡ objects_segment = eq_of_bytes_eq n objects_segment (ground (arith, good)) in
    let ea : a ≡ sha256_segment = eq_of_bytes_eq a sha256_segment (ground (arith, good)) in
    let begins : bytes_eq (take (length s) d) s ≡ true = ground (arith, good) in
    let es : take 2 d ≡ s =
      sym (ap (λ n. take n d) size) ∙ eq_of_bytes_eq (take (length s) d) s begins in
    record {
      digest = d;
      whole = ground (arith, good);
      lowercase = ground (arith, good);
      spelled = sym joined ∙ rw (en, ea, es) refl;
    }

check_segments-IsObjectKey :
    (key found : Bytes) (segments : List Bytes)
    → join_slash segments ≡ key
    → check_segments key segments ≡ some found
    → IsObjectKey found
unfolding check_segments
check_segments-IsObjectKey key found [] joined e = absurd (cc e)
check_segments-IsObjectKey key found (n ∷ []) joined e = absurd (cc e)
check_segments-IsObjectKey key found (n ∷ a ∷ []) joined e = absurd (cc e)
check_segments-IsObjectKey key found (n ∷ a ∷ s ∷ []) joined e = absurd (cc e)
check_segments-IsObjectKey key found (n ∷ a ∷ s ∷ d ∷ []) joined e =
    elim (Bool-cases (bad_cas_key n a s d)) [
      | inl bad ↦ absurd (cc (e, ap (λ t. if t then none else some key) bad))
      | inr good ↦
          let same : key ≡ found = cc (e, ap (λ t. if t then none else some key) good) in
          subst IsObjectKey same (segments-IsObjectKey key n a s d joined good)
    ]
check_segments-IsObjectKey key found (n ∷ a ∷ s ∷ d ∷ x ∷ rest) joined e = absurd (cc e)

checked-IsObjectKey :
    (found : Bytes) (decoded : Option Bytes)
    → (elim decoded [ none ↦ none | some key ↦ check_segments key (split_slash key) ]) ≡ some found
    → IsObjectKey found
checked-IsObjectKey found none e = absurd (cc e)
checked-IsObjectKey found (some key) e =
    check_segments-IsObjectKey key found (split_slash key) (join_slash-split_slash key) e

-- Whatever path is asked for, the key that is looked up is that of an immutable object.
pub decode_cas_key-IsObjectKey :
    (encoded key : Bytes) → decode_cas_key encoded ≡ some key → IsObjectKey key
unfolding decode_cas_key
decode_cas_key-IsObjectKey encoded key e = checked-IsObjectKey key (percent_decode encoded) e

length-take_two : (d : Bytes) → length d ≡ 64 → length (take 2 d) ≡ 2
length-take_two [] h = absurd (omega (arith, h))
length-take_two (a ∷ []) h = absurd (omega (arith, h))
length-take_two (a ∷ b ∷ d) h = refl

all_lower_hex-take :
    (n : ℕ) (text : Bytes) → all_lower_hex text ≡ true → all_lower_hex (take n text) ≡ true
unfolding all_lower_hex
all_lower_hex-take zero text h = refl
all_lower_hex-take (suc n) [] h = refl
all_lower_hex-take (suc n) (c ∷ text) h =
    let rest = all_lower_hex-take n text (ground (arith, h)) in ground (arith, h, rest)

objects-Plain : Plain objects_segment
objects-Plain = (
  refl,
  refl,
  (refl, refl, (refl, refl, (refl, refl, (refl, refl, (refl, refl, (refl, refl, tt)))))),
)

sha256-Plain : Plain sha256_segment
sha256-Plain =
    (refl, refl, (refl, refl, (refl, refl, (refl, refl, (refl, refl, (refl, refl, tt))))))

Literal-Plain : (s : Bytes) → Plain s → Literal s
Literal-Plain [] p = tt
Literal-Plain (c ∷ s) (a, b, p) = (a, Literal-Plain s p)

-- The key of a digest text.
abbrev pub key_of : Bytes → Bytes
key_of d = objects_segment ++ (b'/' ∷ (sha256_segment ++ (b'/' ∷ (take 2 d ++ (b'/' ∷ d)))))

key_of-Literal : (d : Bytes) → Plain d → Literal (key_of d)
key_of-Literal d p =
    let third : Literal (b'/' ∷ d) = (refl, Literal-Plain d p) in
    let second : Literal (b'/' ∷ (take 2 d ++ (b'/' ∷ d))) =
      (refl, Literal-append (take 2 d) (b'/' ∷ d) (Plain-take 2 d p) third) in
    let first : Literal (b'/' ∷ (sha256_segment ++ (b'/' ∷ (take 2 d ++ (b'/' ∷ d))))) =
      (refl, Literal-append sha256_segment (b'/' ∷ (take 2 d ++ (b'/' ∷ d))) sha256-Plain second) in
    Literal-append objects_segment (b'/' ∷ (sha256_segment ++ (b'/' ∷ (take 2 d ++ (b'/' ∷ d)))))
      objects-Plain first

split_slash-key_of :
    (d : Bytes)
    → Plain d
    → split_slash (key_of d) ≡ objects_segment ∷ sha256_segment ∷ take 2 d ∷ d ∷ []
split_slash-key_of d p =
    split_slash-append objects_segment _ objects-Plain
    ∙ ap (λ t. objects_segment ∷ t)
        (split_slash-append sha256_segment _ sha256-Plain
          ∙ ap (λ t. sha256_segment ∷ t)
              (split_slash-append (take 2 d) d (Plain-take 2 d p)
                ∙ ap (λ t. take 2 d ∷ t) (split_slash-Plain d p)))

good_segments :
    (d : Bytes)
    → length d ≡ 64
    → all_lower_hex d ≡ true
    → bad_cas_key objects_segment sha256_segment (take 2 d) d ≡ false
unfolding bad_cas_key
good_segments d whole lower =
    let two = length-take_two d whole in
    let short = all_lower_hex-take 2 d lower in
    let own = bytes_eq_refl (take 2 d) in
    rw (bytes_eq_refl objects_segment, bytes_eq_refl sha256_segment, two, whole, short, lower, own)
      refl

decoded_lem :
    (key : Bytes) (decoded : Option Bytes)
    → decoded ≡ some key
    → (elim decoded [ none ↦ none | some text ↦ check_segments text (split_slash text) ])
      ≡ check_segments key (split_slash key)
decoded_lem key decoded e = rw e refl

checked_lem :
    (d : Bytes)
    → length d ≡ 64
    → all_lower_hex d ≡ true
    → check_segments (key_of d) (objects_segment ∷ sha256_segment ∷ take 2 d ∷ d ∷ [])
      ≡ some (key_of d)
unfolding check_segments
checked_lem d whole lower = rw (good_segments d whole lower) refl

-- The key of a digest's 64 lowercase hex digits is looked up as it is written.
pub decode_cas_key-key_of :
    (d : Bytes)
    → length d ≡ 64
    → all_lower_hex d ≡ true
    → decode_cas_key (key_of d) ≡ some (key_of d)
unfolding decode_cas_key
decode_cas_key-key_of d whole lower =
    let p = Plain-lower_hex d lower in
    decoded_lem (key_of d) (percent_decode (key_of d))
      (percent_decode-Literal (key_of d) (key_of-Literal d p))
    ∙ (ap (check_segments (key_of d)) (split_slash-key_of d p) ∙ checked_lem d whole lower)
