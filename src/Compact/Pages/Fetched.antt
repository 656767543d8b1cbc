-- ===== src/Compact/Pages/Fetched.antt =====
-- What the read-ahead answers is what a plain fetch of a page with the digest answers.
use fossil.Base.{
  >>=-eq-ok, All, Bool-cases, List, Option, Option-cases, Result, [], ap, arith, drop, get_elem?,
  inl, inr, none, ok, refl, some, suc, sym, take, ℕ, ◌+◌, ◌>>=◌, ◌∷◌, ◌≡◌,
}
use mathlib.Core.Path.{subst}
use fossil.Bytes.{Bytes, bytes_eq}
use fossil.Bytes.Order.{eq_of_bytes_eq}
use fossil.Codec.{ObjectRef}
use fossil.Compact.Pages.{
  Ready, batch_at, extend, fetch_all, get_batch, get_page, keep_batch, order_lists, place_of,
  ready_bytes, without,
}
use fossil.Compact.Pages.Places.{order_lists-Points, place_of-Points, drop-cons}

module _ (fetch : ObjectRef → Result Bytes) where
  -- The bytes that a page with the digest is fetched to.
  pub record IsFetched (digest bytes : Bytes) : Type 0 where
    pub page : ObjectRef
    pub named : page.digest ≡ digest
    pub fetched : fetch page ≡ ok bytes

  abbrev EntryFetched : Bytes × Bytes → Type 0
  EntryFetched (digest, bytes) = IsFetched digest bytes

  abbrev pub AllFetched : Ready → Type 0
  AllFetched ready = All EntryFetched ready

  abbrev PageFetched : ObjectRef × Bytes → Type 0
  PageFetched (page, bytes) = fetch page ≡ ok bytes

  fetch_all-Fetched :
      (pages : List ObjectRef) (out : List (ObjectRef × Bytes))
      → fetch_all fetch pages ≡ ok out
      → All PageFetched out
  unfolding fetch_all
  fetch_all-Fetched [] out e = let same : [] ≡ out = cc e in subst (All PageFetched) same tt
  fetch_all-Fetched (page ∷ pages) out e =
      let (bytes, got, e1) = >>=-eq-ok (fetch page) _ e in
      let (others, rest, e2) = >>=-eq-ok (fetch_all fetch pages) _ e1 in
      let same : (page, bytes) ∷ others ≡ out = cc e2 in
      subst (All PageFetched) same (got, fetch_all-Fetched pages others rest)

  extend-Fetched :
      (fetched : List (ObjectRef × Bytes)) (ready : Ready)
      → All PageFetched fetched
      → AllFetched ready
      → AllFetched (extend fetched ready)
  unfolding extend
  extend-Fetched [] ready all known = known
  extend-Fetched ((page, bytes) ∷ fetched) ready (got, all) known =
      extend-Fetched fetched ((page.digest, bytes) ∷ ready) all
        (record { page = page; named = refl; fetched = got }, known)

  without-Fetched :
      (ready : Ready) (digest : Bytes) → AllFetched ready → AllFetched (without ready digest)
  unfolding without
  without-Fetched [] digest known = tt
  without-Fetched ((d, bytes) ∷ ready) digest (one, known) = elim (Bool-cases (bytes_eq d digest)) [
    | inl same ↦ rw same (without-Fetched ready digest known)
    | inr other ↦ rw other (one, without-Fetched ready digest known)
  ]

  ready_bytes-Fetched :
      (ready : Ready) (digest bytes : Bytes)
      → AllFetched ready
      → ready_bytes ready digest ≡ some bytes
      → IsFetched digest bytes
  unfolding ready_bytes
  ready_bytes-Fetched [] digest bytes known e = absurd (cc e)
  ready_bytes-Fetched ((d, b) ∷ ready) digest bytes (one, known) e =
      elim (Bool-cases (bytes_eq d digest)) [
        | inl same ↦
            let found : some b ≡ some bytes = rw same at e in
            let equal : b ≡ bytes = cc found in
            subst (IsFetched digest) equal
              (subst (λ t. IsFetched t b) (eq_of_bytes_eq d digest same) one)
        | inr other ↦ ready_bytes-Fetched ready digest bytes known (rw other at e)
      ]

  batch-Fetched :
      (page : ObjectRef) (rest : List ObjectRef) (ready after : Ready) (bytes : Bytes)
      → AllFetched ready
      → (fetch_all fetch (page ∷ rest) >>= (λ out. keep_batch fetch out ready)) ≡ ok (bytes, after)
      → IsFetched page.digest bytes × AllFetched after
  unfolding fetch_all keep_batch
  batch-Fetched page rest ready after bytes known e =
      let (first, got, e1) =
        >>=-eq-ok (fetch page >>= (λ b. fetch_all fetch rest >>= (λ os. ok ((page, b) ∷ os)))) _
          e in
      let (b, fetched, e2) = >>=-eq-ok (fetch page) _ got in
      let (others, kept, e3) = >>=-eq-ok (fetch_all fetch rest) _ e2 in
      let listed : (page, b) ∷ others ≡ first = cc e3 in
      let answer : keep_batch fetch ((page, b) ∷ others) ready ≡ ok (bytes, after) =
        subst (λ t. keep_batch fetch t ready ≡ ok (bytes, after)) (sym listed) e1 in
      let same : (b, extend others ready) ≡ (bytes, after) = cc answer in
      let one : IsFetched page.digest b = record { page = page; named = refl; fetched = fetched } in
      let all = extend-Fetched others ready (fetch_all-Fetched rest others kept) known in
      subst (λ (p : Bytes × Ready). IsFetched page.digest p.0 × AllFetched p.1) same (one, all)

  get_batch-Fetched :
      (lists : List (List ObjectRef)) (reference : ObjectRef) (place : Option (ℕ × ℕ))
      (ready after : Ready) (bytes : Bytes)
      → AllFetched ready
      → place_of (order_lists 0 lists) reference.digest ≡ place
      → get_batch fetch lists reference place ready ≡ ok (bytes, after)
      → IsFetched reference.digest bytes × AllFetched after
  unfolding get_batch batch_at
  get_batch-Fetched lists reference none ready after bytes known at e =
      let (b, got, e1) = >>=-eq-ok (fetch reference) _ e in
      let same : (b, ready) ≡ (bytes, after) = cc e1 in
      let one : IsFetched reference.digest b = record {
        page = reference;
        named = refl;
        fetched = got;
      } in
      subst (λ (p : Bytes × Ready). IsFetched reference.digest p.0 × AllFetched p.1) same
        (one, known)
  get_batch-Fetched lists reference (some (i, j)) ready after bytes known at e =
      let p =
        place_of-Points lists (order_lists 0 lists) reference.digest i j
          (order_lists-Points lists 0 lists
            (λ k. let same : 0 + k ≡ k = omega arith in ap (get_elem? lists) same))
          at in
      let first = drop-cons p.pages j p.page p.placed in
      subst (λ d. IsFetched d bytes × AllFetched after) p.named
        (batch-Fetched p.page (take 7 (drop (suc j) p.pages)) ready after bytes known
          (rw (p.listed, first) at e))

  -- From pages that were fetched, the read-ahead answers with what a plain fetch of a page with that
  -- digest answers, whether the page was ready, is fetched with the batch behind it, or is in no list;
  -- and what it keeps was fetched too.
  pub get_page-IsFetched :
      (lists : List (List ObjectRef)) (reference : ObjectRef) (ready after : Ready) (bytes : Bytes)
      → AllFetched ready
      → get_page fetch lists reference ready ≡ ok (bytes, after)
      → IsFetched reference.digest bytes × AllFetched after
  unfolding get_page
  get_page-IsFetched lists reference ready after bytes known e =
      elim (Option-cases (ready_bytes ready reference.digest)) [
        | inl miss ↦
            get_batch-Fetched lists reference (place_of (order_lists 0 lists) reference.digest)
              ready after bytes known refl (answered miss e)
        | inr (found, hit) ↦
            let same : (found, without ready reference.digest) ≡ (bytes, after) =
              cc (answered hit e) in
            subst (λ (p : Bytes × Ready). IsFetched reference.digest p.0 × AllFetched p.1) same
              (
                ready_bytes-Fetched ready reference.digest found known hit,
                without-Fetched ready reference.digest known,
              )
      ]
    where
      answered :
          {found : Option Bytes}
          → ready_bytes ready reference.digest ≡ found
          → (elim (ready_bytes ready reference.digest) [
            | some bytes ↦ ok (bytes, without ready reference.digest)
            | none ↦
                get_batch fetch lists reference
                  (place_of (order_lists 0 lists) reference.digest)
                  ready
          ])
            ≡ ok (bytes, after)
          → (elim found [
            | some bytes ↦ ok (bytes, without ready reference.digest)
            | none ↦
                get_batch fetch lists reference
                  (place_of (order_lists 0 lists) reference.digest)
                  ready
          ])
            ≡ ok (bytes, after)
      answered same e =
          subst
            (λ t.
              (elim t [
                | some bytes ↦ ok (bytes, without ready reference.digest)
                | none ↦
                    get_batch fetch lists reference
                      (place_of (order_lists 0 lists) reference.digest) ready
              ])
              ≡ ok (bytes, after))
            same e
