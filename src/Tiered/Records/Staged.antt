-- ===== src/Tiered/Records/Staged.antt =====
-- The records of a package lie in its interval and are sorted.
use fossil.Base.{
  >>=-eq-ok, All, All-append, Bool-cases, List, [], arith, bail_if-eq-ok, inl, inr, length, ltb, ok,
  true, ℕ, ◌++◌, ◌+◌, ◌||◌, ◌∷◌, ◌≡◌, ◌≤◌,
}
use mathlib.Core.Path.{subst}
use fossil.Bytes.{Bytes, version_le}
use fossil.Bytes.Order.{lt→version_le}
use fossil.Codec.{Record, version_of}
use fossil.Codec.Lookup.Newest.{lt_of_not_le}
use fossil.Package.{AccountEvent, StorageEvent, CodeBlob, Segment}
use fossil.Tiered.Records.{
  add_record, add_accounts, add_storage, add_code, insert_record, sort_records, package_records,
  max_staged, account_value,
}
use fossil.Head.Keys.{account_key, storage_key, code_key}

abbrev pub Inside : ℕ → ℕ → Record → Type 0
Inside first last r = (first ≤ r.block) × (r.block ≤ last)

-- No record is before the one in front of it.
abbrev pub NotBefore : Record → List Record → Type 0
NotBefore r [] = Unit
NotBefore r (s ∷ rs) = version_le (version_of r) (version_of s) ≡ true

abbrev pub IsSorted : List Record → Type 0
IsSorted [] = Unit
IsSorted (r ∷ rs) = NotBefore r rs × IsSorted rs

NotBefore-insert_record :
    (p r : Record) (rs : List Record)
    → version_le (version_of p) (version_of r) ≡ true
    → NotBefore p rs
    → NotBefore p (insert_record r rs)
unfolding insert_record
NotBefore-insert_record p r [] h k = h
NotBefore-insert_record p r (s ∷ rs) h k =
    elim (Bool-cases (version_le (version_of r) (version_of s))) [
      | inl le ↦ rw le h
      | inr gt ↦ rw gt k
    ]

insert_record-IsSorted :
    (r : Record) (rs : List Record) → IsSorted rs → IsSorted (insert_record r rs)
unfolding insert_record
insert_record-IsSorted r [] h = (tt, tt)
insert_record-IsSorted r (s ∷ rs) (k, h) =
    elim (Bool-cases (version_le (version_of r) (version_of s))) [
      | inl le ↦ rw le (le, (k, h))
      | inr gt ↦
          let behind =
            lt→version_le (version_of s) (version_of r)
              (lt_of_not_le (version_of r) (version_of s) gt) in
          rw gt (NotBefore-insert_record s r rs behind k, insert_record-IsSorted r rs h)
    ]

sort_records-IsSorted : (rs : List Record) → IsSorted (sort_records rs)
unfolding sort_records
sort_records-IsSorted [] = tt
sort_records-IsSorted (r ∷ rs) =
    insert_record-IsSorted r (sort_records rs) (sort_records-IsSorted rs)

module _ (first last : ℕ) where
  All-insert_record :
      (r : Record) (rs : List Record)
      → Inside first last r
      → All (Inside first last) rs
      → All (Inside first last) (insert_record r rs)
  unfolding insert_record
  All-insert_record r [] h k = (h, tt)
  All-insert_record r (s ∷ rs) h (i, k) =
      elim (Bool-cases (version_le (version_of r) (version_of s))) [
        | inl le ↦ rw le (h, (i, k))
        | inr gt ↦ rw gt (i, All-insert_record r rs h k)
      ]

  All-sort_records :
      (rs : List Record) → All (Inside first last) rs → All (Inside first last) (sort_records rs)
  unfolding sort_records
  All-sort_records [] h = tt
  All-sort_records (r ∷ rs) (i, h) = All-insert_record r (sort_records rs) i (All-sort_records rs h)

  add_record-Inside :
      (state next : ℕ × List Record) (key : Bytes) (block : ℕ) (value : Bytes)
      → add_record first last state key block value ≡ ok next
      → All (Inside first last) state.1
      → All (Inside first last) next.1
  unfolding add_record
  add_record-Inside (size, records) next key block value h k =
      let (t1, h1) = bail_if-eq-ok (ltb block first || ltb last block) _ _ h in
      let total = size + (length key + length value + 32) in
      let (t2, h2) = bail_if-eq-ok (ltb max_staged total) _ _ h1 in
      let r : Record = record { key = key; block = block; value = value } in
      let same : (total, records ++ r ∷ []) ≡ next = cc h2 in
      subst (λ t. All (Inside first last) t.1) same
        (All-append (Inside first last) records (r ∷ []) k
          ((ground (arith, t1), ground (arith, t1)), tt))

  add_accounts-Inside :
      (events : List AccountEvent) (state next : ℕ × List Record)
      → add_accounts first last events state ≡ ok next
      → All (Inside first last) state.1
      → All (Inside first last) next.1
  unfolding add_accounts
  add_accounts-Inside [] state next h k =
      let same : state ≡ next = cc h in subst (λ t. All (Inside first last) t.1) same k
  add_accounts-Inside (event ∷ events) state next h k =
      let (mid, e, h1) =
        >>=-eq-ok
          (add_record first last state (account_key event.address) event.block
            (account_value event))
          _ h in
      add_accounts-Inside events mid next h1 (add_record-Inside state mid _ event.block _ e k)

  add_storage-Inside :
      (events : List StorageEvent) (state next : ℕ × List Record)
      → add_storage first last events state ≡ ok next
      → All (Inside first last) state.1
      → All (Inside first last) next.1
  unfolding add_storage
  add_storage-Inside [] state next h k =
      let same : state ≡ next = cc h in subst (λ t. All (Inside first last) t.1) same k
  add_storage-Inside (event ∷ events) state next h k =
      let (mid, e, h1) =
        >>=-eq-ok
          (add_record first last state (storage_key event.address event.incarnation event.slot)
            event.block event.value)
          _ h in
      add_storage-Inside events mid next h1 (add_record-Inside state mid _ event.block _ e k)

  module _ (keccak : Bytes → Bytes) where
    add_code-Inside :
        (blobs : List CodeBlob) (state next : ℕ × List Record)
        → add_code keccak first last blobs state ≡ ok next
        → All (Inside first last) state.1
        → All (Inside first last) next.1
    unfolding add_code
    add_code-Inside [] state next h k =
        let same : state ≡ next = cc h in subst (λ t. All (Inside first last) t.1) same k
    add_code-Inside (blob ∷ blobs) state next h k =
        let (t, h0) = bail_if-eq-ok _ _ _ h in
        let (mid, e, h1) =
          >>=-eq-ok
            (add_record first last state (code_key blob.code_hash) blob.first_seen_block blob.bytes)
            _ h0 in
        add_code-Inside blobs mid next h1
          (add_record-Inside state mid _ blob.first_seen_block _ e k)

    -- The records of a package that are made lie in the interval of its blocks, and are sorted by
    -- key and block.
    pub package_records-IsSorted :
        (segment : Segment) (rs : List Record)
        → package_records keccak segment first last ≡ ok rs
        → IsSorted rs × All (Inside first last) rs
    unfolding package_records
    package_records-IsSorted segment rs h =
        let (s1, e1, h1) = >>=-eq-ok (add_accounts first last segment.accounts (0, [])) _ h in
        let (s2, e2, h2) = >>=-eq-ok (add_storage first last segment.storage s1) _ h1 in
        let (s3, e3, h3) = >>=-eq-ok (add_code keccak first last segment.code s2) _ h2 in
        let k1 = add_accounts-Inside segment.accounts (0, []) s1 e1 tt in
        let k2 = add_storage-Inside segment.storage s1 s2 e2 k1 in
        let k3 = add_code-Inside segment.code s2 s3 e3 k2 in
        let same : sort_records s3.1 ≡ rs = cc h3 in
        subst (λ t. IsSorted t × All (Inside first last) t) same
          (sort_records-IsSorted s3.1, All-sort_records s3.1 k3)
