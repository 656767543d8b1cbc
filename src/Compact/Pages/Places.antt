-- ===== src/Compact/Pages/Places.antt =====
-- The order of the read-ahead leads to the pages that it names.
use fossil.Base.{
  All, All-append, Bool-cases, List, [], ap, arith, drop, get_elem?, inl, inr, refl, some, suc,
  zero, ℕ, ◌+◌, ◌∷◌, ◌≡◌,
}
use mathlib.Core.Path.{subst}
use fossil.Bytes.{Bytes, bytes_eq}
use fossil.Bytes.Order.{eq_of_bytes_eq}
use fossil.Codec.{ObjectRef}
use fossil.Compact.Pages.{Place, order_lists, order_pages, place_of}

-- The page at a place of the lists has the digest.
pub record Points (lists : List (List ObjectRef)) (digest : Bytes) (at position : ℕ) : Type 0 where
  pub pages : List ObjectRef
  pub page : ObjectRef
  pub listed : get_elem? lists at ≡ some pages
  pub placed : get_elem? pages position ≡ some page
  pub named : page.digest ≡ digest

abbrev pub PlacePoints : List (List ObjectRef) → Place → Type 0
PlacePoints lists (digest, at, position) = Points lists digest at position

order_pages-Points :
    (lists : List (List ObjectRef)) (at position : ℕ) (pages rest : List ObjectRef)
    → get_elem? lists at ≡ some pages
    → ((k : ℕ) → get_elem? pages (position + k) ≡ get_elem? rest k)
    → All (PlacePoints lists) (order_pages at position rest)
unfolding order_pages
order_pages-Points lists at position pages [] listed h = tt
order_pages-Points lists at position pages (page ∷ rest) listed h =
    let first : position + 0 ≡ position = omega arith in
    (
      record {
        pages = pages;
        page = page;
        listed = listed;
        placed = subst (λ n. get_elem? pages n ≡ some page) first (h 0);
        named = refl;
      },
      order_pages-Points lists at (suc position) pages rest listed (λ k.
          let step : position + suc k ≡ suc position + k = omega arith in
          subst (λ n. get_elem? pages n ≡ get_elem? rest k) step (h (suc k))),
    )

pub order_lists-Points :
    (lists : List (List ObjectRef)) (at : ℕ) (rest : List (List ObjectRef))
    → ((k : ℕ) → get_elem? lists (at + k) ≡ get_elem? rest k)
    → All (PlacePoints lists) (order_lists at rest)
unfolding order_lists
order_lists-Points lists at [] h = tt
order_lists-Points lists at (pages ∷ rest) h =
    let first : at + 0 ≡ at = omega arith in
    All-append (PlacePoints lists) (order_pages at 0 pages) (order_lists (suc at) rest)
      (order_pages-Points lists at 0 pages pages
        (subst (λ n. get_elem? lists n ≡ some pages) first (h 0))
        (λ k. let same : 0 + k ≡ k = omega arith in ap (get_elem? pages) same))
      (order_lists-Points lists (suc at) rest (λ k.
        let step : at + suc k ≡ suc at + k = omega arith in
        subst (λ n. get_elem? lists n ≡ get_elem? rest k) step (h (suc k))))

pub place_of-Points :
    (lists : List (List ObjectRef)) (places : List Place) (digest : Bytes) (at position : ℕ)
    → All (PlacePoints lists) places
    → place_of places digest ≡ some (at, position)
    → Points lists digest at position
unfolding place_of
place_of-Points lists [] digest at position all e = absurd (cc e)
place_of-Points lists ((d, i, j) ∷ places) digest at position (p, all) e =
    elim (Bool-cases (bytes_eq d digest)) [
      | inl same ↦
          let found : some (i, j) ≡ some (at, position) = rw same at e in
          let i' : i ≡ at = cc found in
          let j' : j ≡ position = cc found in
          subst (λ t. Points lists digest t position) i'
            (subst (λ t. Points lists digest i t) j'
              (subst (λ t. Points lists t i j) (eq_of_bytes_eq d digest same) p))
      | inr other ↦ place_of-Points lists places digest at position all (rw other at e)
    ]

pub drop-cons :
    (pages : List ObjectRef) (position : ℕ) (page : ObjectRef)
    → get_elem? pages position ≡ some page
    → drop position pages ≡ page ∷ drop (suc position) pages
drop-cons [] position page e = absurd (cc e)
drop-cons (x ∷ pages) zero page e = ap (λ t. t ∷ pages) (cc e)
drop-cons (x ∷ pages) (suc n) page e = drop-cons pages n page e
