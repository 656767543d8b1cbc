-- ===== src/Codec/Lookup/Newest.antt =====
-- The newest version of a key in sorted records, by the predecessor of a target.
use fossil.Base.{
  Bool, Bool-cases, List, Option, Option-cases, [], ap, arith, false, get_elem?, get_elem?-some,
  if◌then◌else◌, inl, inr, leb, length, none, refl, some, suc, sym, true, zero, ℕ, ◌&&◌, ◌-◌, ◌==◌,
  ◌∙◌, ◌∷◌, ◌≡◌, ◌≤◌,
}
use mathlib.Core.Path.{subst}
use fossil.Bytes.{Bytes, Version, bytes_eq, version_le, version_lt}
use fossil.Bytes.Order.{
  eq_of_bytes_eq, bytes_eq_refl, version_lt_trans, bytes_lt_total, bytes_lt_irrefl, bytes_lt_trans,
}
use fossil.Codec.{Record, version_of}
use fossil.Codec.Data.RoundTrip.{AscendingFrom}
use fossil.Codec.Lookup.{partition_point, before_point, record_within, of_key, search_page}

-- The value that the last record of the key at or before the block has. In ascending records that
-- is the newest version.
unfoldable pub newest : List Record → Bytes → ℕ → Option Bytes
newest [] key block = none
newest (r ∷ rs) key block = elim (newest rs key block) [
  | some v ↦ some v
  | none ↦ if bytes_eq r.key key && leb r.block block then some r.value else none
]

-- The last record at or before the target.
unfoldable pub predecessor : List Record → Version → Option Record
predecessor [] t = none
predecessor (r ∷ rs) t = elim (predecessor rs t) [
  | some p ↦ some p
  | none ↦ if version_le (version_of r) t then some r else none
]

-- Behind a record after the target there is none before it.
pub predecessor-none :
    (p : Record) (rs : List Record) (t : Version)
    → AscendingFrom (some p) rs
    → version_lt t (version_of p) ≡ true
    → predecessor rs t ≡ none
unfolding predecessor version_le
predecessor-none p [] t asc h = refl
predecessor-none p (r ∷ rs) t (after, asc) h =
    let later = version_lt_trans t (version_of p) (version_of r) h after in
    rw (predecessor-none r rs t asc later, later)

module _ {ℓ} {A : Type ℓ} (test : A → Bool) where
  pub partition_point-le : (xs : List A) → partition_point test xs ≤ length xs
  unfolding partition_point
  partition_point-le [] = omega arith
  partition_point-le (x ∷ xs) = ground (arith, partition_point-le xs)

  -- Before the point: nothing, where the first element fails; else what is there in the rest, or
  -- the first element.
  pub before_point_fails :
      (x : A) (xs : List A) → test x ≡ false → before_point test (x ∷ xs) ≡ none
  unfolding before_point partition_point
  before_point_fails x xs h = rw h

  last_passes :
      (x : A) (xs : List A) (n : ℕ)
      → n ≤ length xs
      → get_elem? (x ∷ xs) n
        ≡ elim (if n == 0 then none else get_elem? xs (n - 1)) [ some p ↦ some p | none ↦ some x ]
  last_passes x xs zero le = refl
  last_passes x xs (suc n) le =
      let (a, e) = get_elem?-some xs n (omega arith) in
      let nz : (suc n == 0) ≡ false = ground arith in
      let one : suc n - 1 ≡ n = omega arith in rw (nz, one, e)

  pub before_point_passes :
      (x : A) (xs : List A)
      → test x ≡ true
      → before_point test (x ∷ xs) ≡ elim (before_point test xs) [ some p ↦ some p | none ↦ some x ]
  unfolding before_point partition_point
  before_point_passes x xs h =
      let n = partition_point test xs in
      let one : suc n - 1 ≡ n = omega arith in
      let nz : (suc n == 0) ≡ false = ground arith in
      rw (h, nz, one) (last_passes x xs n (partition_point-le xs))

predecessor_passes :
    (r : Record) (rs : List Record) (t : Version)
    → version_le (version_of r) t ≡ true
    → predecessor (r ∷ rs) t ≡ elim (predecessor rs t) [ some p ↦ some p | none ↦ some r ]
unfolding predecessor
predecessor_passes r rs t le = ground (arith, le)

predecessor_fails :
    (r : Record) (rs : List Record) (t : Version)
    → predecessor rs t ≡ none
    → version_le (version_of r) t ≡ false
    → predecessor (r ∷ rs) t ≡ none
unfolding predecessor
predecessor_fails r rs t e gt = rw (e, gt)

pub lt_of_not_le : (v w : Version) → version_le v w ≡ false → version_lt w v ≡ true
unfolding version_le
lt_of_not_le v w h = ground (arith, h)

-- The partition point of ascending records is behind the predecessor.
pub before_point-predecessor :
    (prior : Option Record) (rs : List Record) (t : Version)
    → AscendingFrom prior rs
    → before_point (record_within t) rs ≡ predecessor rs t
unfolding record_within
before_point-predecessor prior [] t asc = unfold before_point partition_point predecessor in refl
before_point-predecessor prior (r ∷ rs) t (after, asc) =
    let ih = before_point-predecessor (some r) rs t asc in
    elim (Bool-cases (version_le (version_of r) t)) [
      | inl le ↦
          before_point_passes (record_within t) r rs le
          ∙ ap (λ (o : Option Record). elim o [ some p ↦ some p | none ↦ some r ]) ih
          ∙ sym (predecessor_passes r rs t le)
      | inr gt ↦
          before_point_fails (record_within t) r rs gt
          ∙ sym (
              predecessor_fails r rs t
                (predecessor-none r rs t asc (lt_of_not_le (version_of r) t gt)) gt)
    ]

same_key :
    (r : Record) (key : Bytes) (block : ℕ)
    → bytes_eq r.key key ≡ true
    → version_le (version_of r) (record { key = key; block = block }) ≡ leb r.block block
unfolding version_le version_lt
same_key r key block h =
    ground (arith, eq_of_bytes_eq r.key key h, bytes_lt_irrefl key, bytes_eq_refl key)

-- A key between two equal keys is that key.
between :
    (r p : Record) (key : Bytes) (block : ℕ)
    → version_lt (version_of r) (version_of p) ≡ true
    → version_le (version_of p) (record { key = key; block = block }) ≡ true
    → bytes_eq r.key key ≡ true
    → bytes_eq p.key key ≡ true
unfolding version_le version_lt
between r p key block lt le h = ground (
  arith,
  eq_of_bytes_eq r.key key h,
  eq_of_bytes_eq r.key p.key,
  bytes_lt_total key p.key,
  bytes_lt_trans p.key key p.key,
  bytes_lt_irrefl p.key,
  bytes_eq_refl key,
)

-- A predecessor lies between its target and what stands before the records.
pub predecessor_between :
    (prior : Record) (rs : List Record) (t : Version) (p : Record)
    → AscendingFrom (some prior) rs
    → predecessor rs t ≡ some p
    → (version_lt (version_of prior) (version_of p) ≡ true) × (version_le (version_of p) t ≡ true)
unfolding predecessor
predecessor_between prior [] t p asc h = cc
predecessor_between prior (r ∷ rs) t p (after, asc) h = elim (Option-cases (predecessor rs t)) [
  | inl e ↦ ground (arith, e)
  | inr (q, e) ↦
      let (lt, le) = predecessor_between r rs t q asc e in
      let same : q ≡ p = ground (arith, e) in
      subst
        (λ x.
          (version_lt (version_of prior) (version_of x) ≡ true)
          × (version_le (version_of x) t ≡ true))
        same (version_lt_trans (version_of prior) (version_of r) (version_of q) after lt, le)
]

-- In ascending records the newest version is the predecessor of `(key, block)`, if that has the key.
pub newest-predecessor :
    (prior : Option Record) (rs : List Record) (key : Bytes) (block : ℕ)
    → AscendingFrom prior rs
    → newest rs key block ≡ of_key key (predecessor rs (record { key = key; block = block }))
unfolding newest of_key predecessor
newest-predecessor prior [] key block asc = refl
newest-predecessor prior (r ∷ rs) key block (after, asc) =
    let t : Version = record { key = key; block = block } in
    elim (Option-cases (predecessor rs t)) [
      | inl e ↦
          ground (arith, newest-predecessor (some r) rs key block asc, e, same_key r key block)
      | inr (p, e) ↦
          let (lt, le) = predecessor_between r rs t p asc e in
          ground
            (arith, newest-predecessor (some r) rs key block asc, e, between r p key block lt le)
    ]

-- In ascending records the search in a page finds the newest version of the key at or before the
-- block.
pub search_page-newest :
    (prior : Option Record) (rs : List Record) (key : Bytes) (block : ℕ)
    → AscendingFrom prior rs
    → search_page rs key block ≡ newest rs key block
unfolding search_page
search_page-newest prior rs key block asc =
    ap (of_key key) (before_point-predecessor prior rs _ asc)
    ∙ sym (newest-predecessor prior rs key block asc)
