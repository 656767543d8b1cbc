-- ===== src/Worker/Object/Texts.antt =====
-- Splitting and decoding of texts: what joins again, and what is its own decoding.
use fossil.Base.{
  Bool-cases, List, [], ap, arith, false, inl, inr, refl, some, suc, sym, take, true, zero, ℕ, ◌++◌,
  ◌==◌, ◌∙◌, ◌∷◌, ◌≡◌,
}
use fossil.Bytes.{Bytes}
use fossil.Worker.Object.{
  is_lower_hex, is_digit, all_lower_hex, percent_decode, put_first, split_slash,
}

abbrev pub join_slash : List Bytes → Bytes
join_slash [] = []
join_slash (s ∷ []) = s
join_slash (s ∷ t ∷ rest) = s ++ (b'/' ∷ join_slash (t ∷ rest))

join_slash-put_first :
    (c : ℕ) (segments : List Bytes) → join_slash (put_first c segments) ≡ c ∷ join_slash segments
join_slash-put_first c [] = refl
join_slash-put_first c (s ∷ []) = refl
join_slash-put_first c (s ∷ t ∷ rest) = refl

abbrev Some : List Bytes → Type 0
Some [] = ⊥
Some (s ∷ rest) = Unit {0}

join_slash-cons :
    (segments : List Bytes)
    → Some segments
    → join_slash ([] ∷ segments) ≡ b'/' ∷ join_slash segments
join_slash-cons [] h = absurd h
join_slash-cons (s ∷ rest) h = refl

put_first-Some : (c : ℕ) (segments : List Bytes) → Some (put_first c segments)
put_first-Some c [] = tt
put_first-Some c (s ∷ rest) = tt

split_slash-Some : (text : Bytes) → Some (split_slash text)
unfolding split_slash
split_slash-Some [] = tt
split_slash-Some (c ∷ text) = elim (Bool-cases (c == b'/')) [
  | inl slash ↦ rw slash tt
  | inr other ↦ rw other (put_first-Some c (split_slash text))
]

pub join_slash-split_slash : (text : Bytes) → join_slash (split_slash text) ≡ text
unfolding split_slash
join_slash-split_slash [] = refl
join_slash-split_slash (c ∷ text) = elim (Bool-cases (c == b'/')) [
  | inl slash ↦
      let same : c ≡ b'/' = ground (arith, slash) in
      rw slash (
        join_slash-cons (split_slash text) (split_slash-Some text)
        ∙ (ap (λ t. b'/' ∷ t) (join_slash-split_slash text) ∙ ap (λ d. d ∷ text) (sym same)))
  | inr other ↦
      rw other
        (join_slash-put_first c (split_slash text) ∙ ap (λ t. c ∷ t) (join_slash-split_slash text))
]

-- A text without percent signs and slashes.
abbrev pub Plain : Bytes → Type 0
Plain [] = Unit {0}
Plain (c ∷ text) = ((c == b'%') ≡ false) × ((c == b'/') ≡ false) × Plain text

pub Plain-lower_hex : (text : Bytes) → all_lower_hex text ≡ true → Plain text
unfolding all_lower_hex is_lower_hex is_digit
Plain-lower_hex [] h = tt
Plain-lower_hex (c ∷ text) h =
    (ground (arith, h), ground (arith, h), Plain-lower_hex text (ground (arith, h)))

pub Plain-take : (n : ℕ) (text : Bytes) → Plain text → Plain (take n text)
Plain-take zero text p = tt
Plain-take (suc n) [] p = tt
Plain-take (suc n) (c ∷ text) (a, b, p) = (a, b, Plain-take n text p)

-- A text without percent signs.
abbrev pub Literal : Bytes → Type 0
Literal [] = Unit {0}
Literal (c ∷ text) = ((c == b'%') ≡ false) × Literal text

pub Literal-append : (s t : Bytes) → Plain s → Literal t → Literal (s ++ t)
Literal-append [] t p l = l
Literal-append (c ∷ s) t (a, b, p) l = (a, Literal-append s t p l)

pub percent_decode-Literal : (text : Bytes) → Literal text → percent_decode text ≡ some text
unfolding percent_decode
percent_decode-Literal [] l = refl
percent_decode-Literal (c ∷ []) (a, l) = rw a refl
percent_decode-Literal (c ∷ d ∷ []) (a, l) = rw (a, percent_decode-Literal (d ∷ []) l) refl
percent_decode-Literal (c ∷ d ∷ e ∷ text) (a, l) =
    rw (a, percent_decode-Literal (d ∷ e ∷ text) l) refl

pub split_slash-append : (s t : Bytes) → Plain s → split_slash (s ++ (b'/' ∷ t)) ≡ s ∷ split_slash t
unfolding split_slash
split_slash-append [] t p = refl
split_slash-append (c ∷ s) t (a, b, p) = rw (b, split_slash-append s t p) refl

pub split_slash-Plain : (s : Bytes) → Plain s → split_slash s ≡ s ∷ []
unfolding split_slash
split_slash-Plain [] p = refl
split_slash-Plain (c ∷ s) (a, b, p) = rw (b, split_slash-Plain s p) refl
