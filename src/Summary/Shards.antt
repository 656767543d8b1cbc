-- ===== src/Summary/Shards.antt =====
-- Lists of filters: inserts at an index put digests in and take none out.
use fossil.Base.{
  Bool-cases, List, [], arith, get_or, get_or-set, get_or-set_other, inl, inr, length, length-set,
  refl, set, set_beyond, sym, take, true, ℕ, ◌++◌, ◌-◌, ◌<◌, ◌==◌, ◌∙◌, ◌∷◌, ◌≡◌, ◌≢◌, ◌⊎◌,
}
use mathlib.Core.Path.{subst}
use native.Mathlib.Decide.{dec_lt}
use fossil.Bytes.{Bytes, from_be, slice}
use fossil.Bytes.Bits.{bit_and-le}
use fossil.Extern.{Sha256}
use fossil.Summary.{insert, contains, insert_at, insert_all, spill_all, shard_index, spill_index}
use fossil.Summary.Filter.{
  Grows, Grows-refl, Grows-trans, insert-Grows, contains-Grows, contains-insert,
}

-- Each filter keeps its size and its bits.
pub record AllGrow (before after : List Bytes) : Type 0 where
  pub count : length after ≡ length before
  pub each : (index : ℕ) → Grows (get_or before index []) (get_or after index [])

pub AllGrow-refl : (shards : List Bytes) → AllGrow shards shards
AllGrow-refl shards = record { count = refl; each = λ index. Grows-refl _ }

pub AllGrow-trans : (a b c : List Bytes) → AllGrow a b → AllGrow b c → AllGrow a c
AllGrow-trans a b c g h = record {
  count = h.count ∙ g.count;
  each = λ index. Grows-trans _ _ _ (g.each index) (h.each index);
}

-- There are `n` filters, and none is empty.
pub record HasRoom (shards : List Bytes) (n : ℕ) : Type 0 where
  pub count : length shards ≡ n
  pub some_byte : (index : ℕ) → index < n → 0 < length (get_or shards index [])

pub HasRoom-AllGrow :
    (before after : List Bytes) (n : ℕ) → AllGrow before after → HasRoom before n → HasRoom after n
HasRoom-AllGrow before after n g r = record {
  count = g.count ∙ r.count;
  some_byte = λ index h. omega (arith, (g.each index).size, r.some_byte index h);
}

-- The digest is one of the list.
abbrev pub Among : Bytes → List Bytes → Type 0
Among digest [] = ⊥
Among digest (d ∷ ds) = (digest ≡ d) ⊎ Among digest ds

pub Among-append : (digest : Bytes) (ds : List Bytes) → Among digest (ds ++ digest ∷ [])
Among-append digest [] = inl refl
Among-append digest (d ∷ ds) = inr (Among-append digest ds)

pub Among-front :
    (digest d : Bytes) (ds : List Bytes) → Among digest ds → Among digest (ds ++ d ∷ [])
Among-front digest d [] h = absurd h
Among-front digest d (x ∷ ds) (inl e) = inl e
Among-front digest d (x ∷ ds) (inr h) = inr (Among-front digest d ds h)

abbrev pub Contained : List Bytes → ℕ → Bytes → Type 0
Contained shards index digest = contains (get_or shards index []) digest ≡ true

pub Contained-AllGrow :
    (before after : List Bytes) (index : ℕ) (digest : Bytes)
    → AllGrow before after
    → Contained before index digest
    → Contained after index digest
Contained-AllGrow before after index digest g h =
    contains-Grows (get_or before index []) (get_or after index []) digest (g.each index) h

pub insert_at-AllGrow :
    (shards : List Bytes) (index : ℕ) (digest : Bytes)
    → AllGrow shards (insert_at shards index digest)
unfolding insert_at
insert_at-AllGrow shards index digest = record {
  count = length-set shards index _;
  each = λ other. elim (dec_lt index (length shards)) [
    | no beyond ↦
        rw (set_beyond shards index (insert (get_or shards index []) digest) (omega arith))
          (Grows-refl (get_or shards other []))
    | yes within ↦ elim (Bool-cases (index == other)) [
      | inr apart ↦
          let differ : index ≢ other = λ e. ground arith in
          rw
            (get_or-set_other shards index other (insert (get_or shards index []) digest) [] differ)
            (Grows-refl (get_or shards other []))
      | inl same ↦
          let here : index ≡ other = ground arith in
          subst
            (λ t.
              Grows (get_or shards t [])
                (get_or (set shards index (insert (get_or shards index []) digest)) t []))
            here
            (rw (get_or-set shards index (insert (get_or shards index []) digest) [] within)
              (insert-Grows (get_or shards index []) digest))
    ]
  ];
}

pub insert_at-Contained :
    (shards : List Bytes) (n index : ℕ) (digest : Bytes)
    → HasRoom shards n
    → index < n
    → Contained (insert_at shards index digest) index digest
unfolding insert_at
insert_at-Contained shards n index digest r h =
    rw
      (get_or-set shards index (insert (get_or shards index []) digest) [] (omega (arith, r.count)))
      (contains-insert (get_or shards index []) digest (r.some_byte index h))

pub insert_all-AllGrow :
    (shards : List Bytes) (index : ℕ) (ds : List Bytes)
    → AllGrow shards (insert_all shards index ds)
unfolding insert_all
insert_all-AllGrow shards index [] = AllGrow-refl shards
insert_all-AllGrow shards index (d ∷ ds) =
    AllGrow-trans _ _ _ (insert_at-AllGrow shards index d)
      (insert_all-AllGrow (insert_at shards index d) index ds)

pub insert_all-Contained :
    (shards : List Bytes) (n index : ℕ) (digest : Bytes) (ds : List Bytes)
    → HasRoom shards n
    → index < n
    → Among digest ds
    → Contained (insert_all shards index ds) index digest
unfolding insert_all
insert_all-Contained shards n index digest [] r h among = absurd among
insert_all-Contained shards n index digest (d ∷ ds) r h (inl e) =
    Contained-AllGrow _ _ index digest (insert_all-AllGrow (insert_at shards index d) index ds) (
      subst (λ t. Contained (insert_at shards index d) index t) (sym e)
        (insert_at-Contained shards n index d r h))
insert_all-Contained shards n index digest (d ∷ ds) r h (inr among) =
    insert_all-Contained (insert_at shards index d) n index digest ds
      (HasRoom-AllGrow _ _ n (insert_at-AllGrow shards index d) r) h among

module _ (sha : Sha256) where
  pub shard_index-lt : (bytes : Bytes) (n : ℕ) → 0 < n → shard_index sha bytes n < n
  unfolding shard_index
  shard_index-lt bytes n h = omega (arith, bit_and-le (from_be (take 4 (sha.digest bytes))) (n - 1))

  pub spill_index-lt : (digest : Bytes) (n : ℕ) → 0 < n → spill_index sha digest n < n
  unfolding spill_index
  spill_index-lt digest n h = omega (arith, bit_and-le (from_be (slice digest 16 20)) (n - 1))

  pub spill_all-AllGrow :
      (spill : List Bytes) (n : ℕ) (ds : List Bytes) → AllGrow spill (spill_all sha spill n ds)
  unfolding spill_all
  spill_all-AllGrow spill n [] = AllGrow-refl spill
  spill_all-AllGrow spill n (d ∷ ds) =
      AllGrow-trans _ _ _ (insert_at-AllGrow spill (spill_index sha d n) d)
        (spill_all-AllGrow (insert_at spill (spill_index sha d n) d) n ds)

  pub spill_all-Contained :
      (spill : List Bytes) (n : ℕ) (digest : Bytes) (ds : List Bytes)
      → 0 < n
      → HasRoom spill n
      → Among digest ds
      → Contained (spill_all sha spill n ds) (spill_index sha digest n) digest
  unfolding spill_all
  spill_all-Contained spill n digest [] p r among = absurd among
  spill_all-Contained spill n digest (d ∷ ds) p r (inl e) =
      Contained-AllGrow _ _ (spill_index sha digest n) digest
        (spill_all-AllGrow (insert_at spill (spill_index sha d n) d) n ds)
        (subst (λ t. Contained (insert_at spill (spill_index sha d n) d) (spill_index sha t n) t)
          (sym e) (insert_at-Contained spill n (spill_index sha d n) d r (spill_index-lt d n p)))
  spill_all-Contained spill n digest (d ∷ ds) p r (inr among) =
      spill_all-Contained (insert_at spill (spill_index sha d n) d) n digest ds p
        (HasRoom-AllGrow _ _ n (insert_at-AllGrow spill (spill_index sha d n) d) r) among
