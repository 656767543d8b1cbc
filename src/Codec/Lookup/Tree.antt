-- ===== src/Codec/Lookup/Tree.antt =====
-- `lookup` from the root reference: no index, a leaf, or an internal root over leaves.
use fossil.Base.{
  >>=-eq-ok, All, List, Option, Result, [], ap, arith, bail_if-eq-ok, false, get_or, length, ltb,
  none, ok, refl, some, sym, take, true, ℕ, ◌∙◌, ◌∷◌, ◌≡◌,
}
use mathlib.Core.Path.{subst}
use fossil.Bytes.{Bytes, Version, bytes_eq, version_eq}
use fossil.Bytes.Order.{eq_of_bytes_eq}
use fossil.Extern.{Sha256, Zstd}
use fossil.Codec.{
  ObjectRef, Record, Fence, fence_version, is_empty, bad_ref, ref_eq, no_object, partition,
  max_index_bytes, internal_magic, index_magic, verify_object,
}
use fossil.Codec.Data.RoundTrip.{AscendingFrom}
use fossil.Codec.Index.{decode_index, bad_index_header}
use fossil.Codec.Lookup.{
  fence_within, of_key, misses_fence, misses_start, search_parent, search_root, lookup,
}
use fossil.Codec.Lookup.Newest.{newest, newest-predecessor}
use fossil.Codec.Lookup.Pages.{
  Group, all_records, fences_of, Begins, found_group, in_group, found_group-predecessor,
}
use fossil.Codec.Lookup.Found.{
  PageServed, fence_of, before_point-All, found_fence, Begins-all, search_leaf-newest,
}

eq_of_version_eq : (v w : Version) → version_eq v w ≡ true → v ≡ w
unfolding version_eq
eq_of_version_eq v w h = ground (arith, eq_of_bytes_eq v.key w.key)

magics_differ : bytes_eq index_magic internal_magic ≡ false
unfolding bytes_eq
magics_differ = refl

module _ (sha : Sha256) (zstd : Zstd) (fetch : ObjectRef → Result Bytes) (shard : ℕ) where
  -- An index that decodes as a leaf does not carry the magic of an internal root.
  leaf_magic :
      (reference : ObjectRef) (bytes : Bytes) (fences : List Fence)
      → decode_index sha reference bytes shard index_magic ≡ ok fences
      → bytes_eq (take 4 bytes) internal_magic ≡ false
  unfolding decode_index bad_index_header
  leaf_magic reference bytes fences h =
      let (t1, h1) = bail_if-eq-ok (ltb max_index_bytes (length bytes)) _ _ h in
      let (u, e, h2) = >>=-eq-ok (verify_object sha reference bytes) _ h1 in
      let (t3, h3) = bail_if-eq-ok (bad_index_header sha index_magic bytes) _ _ h2 in
      let same : take 4 bytes ≡ index_magic = eq_of_bytes_eq _ _ (ground (arith, t3)) in
      rw same magics_differ

  -- The leaf that an internal root names is fetched and decoded to the fences of its pages, which
  -- are served and hold the records of the group.
  pub record LeafServed (g : Group) : Type 0 where
    pub sane : bad_ref max_index_bytes g.0.object ≡ false
    pub bytes : Bytes
    pub fetched : fetch g.0.object ≡ ok bytes
    pub pages : List Group
    pub decoded : decode_index sha g.0.object bytes shard index_magic ≡ ok (fences_of pages)
    pub served : All (PageServed sha zstd fetch shard) pages
    pub holds : all_records pages ≡ g.1
    pub begins : misses_fence (fences_of pages) (fence_version g.0) ≡ false
    pub ascending : (prior : Option Record) × AscendingFrom prior g.1

  first-Begins :
      (g : Group) (pages : List Group)
      → All Begins pages
      → all_records pages ≡ g.1
      → misses_fence (fences_of pages) (fence_version g.0) ≡ false
      → Begins g
  unfolding misses_fence
  first-Begins g [] bs e m = cc
  first-Begins g ((f, []) ∷ pages) (b, bs) e m = absurd b
  first-Begins (h, rs) ((f, r ∷ qs) ∷ pages) (b, bs) e m =
      subst (λ t. Begins (h, t)) e
        (sym (eq_of_version_eq (fence_version f) (fence_version h) (ground arith)) ∙ b)

  leaves_begin : (leaves : List Group) → All LeafServed leaves → All Begins leaves
  leaves_begin [] h = tt
  leaves_begin (g ∷ leaves) (s, h) = (
    first-Begins g s.pages (Begins-all sha zstd fetch shard s.pages s.served) s.holds s.begins,
    leaves_begin leaves h,
  )

  search_parent_lem :
      (key : Bytes) (block : ℕ) (o : Option Group)
      → ((g : Group) → o ≡ some g → LeafServed g)
      → search_parent sha zstd fetch shard key block (fence_of o)
        ≡ ok (of_key key (in_group o (record { key = key; block = block })))
  unfolding search_parent misses_start
  search_parent_lem key block none served = unfold of_key in refl
  search_parent_lem key block (some (f, rs)) served =
      let s = served (f, rs) refl in
      let leaf =
        search_leaf-newest sha zstd fetch shard key block f.object s.bytes (some (fence_version f))
          s.ascending.0 s.pages s.decoded s.begins s.served
          (subst (AscendingFrom s.ascending.0) (sym s.holds) s.ascending.1) in
      rw (s.sane, s.fetched)
        (leaf
          ∙ ap (λ t. ok (newest t key block)) s.holds
          ∙ ap ok (newest-predecessor s.ascending.0 rs key block s.ascending.1))

  -- Below an internal root.
  root-newest :
      (key : Bytes) (block : ℕ) (reference : ObjectRef) (bytes : Bytes) (prior : Option Record)
      (leaves : List Group)
      → bytes_eq (take 4 bytes) internal_magic ≡ true
      → decode_index sha reference bytes shard internal_magic ≡ ok (fences_of leaves)
      → All LeafServed leaves
      → AscendingFrom prior (all_records leaves)
      → search_root sha zstd fetch shard key block reference bytes
        ≡ ok (newest (all_records leaves) key block)
  unfolding search_root
  root-newest key block reference bytes prior leaves m d served asc =
      let t : Version = record { key = key; block = block } in
      let one = λ (g : Group) (e : found_group leaves t ≡ some g).
        before_point-All LeafServed (λ (h : Group). fence_within t h.0) leaves g served
          (unfold found_group in e) in
      rw (m, d, found_fence leaves t)
        (search_parent_lem key block (found_group leaves t) one
          ∙ ap (λ o. ok (of_key key o))
              (sym (found_group-predecessor prior leaves t (leaves_begin leaves served) asc))
          ∙ ap ok (sym (newest-predecessor prior (all_records leaves) key block asc)))

  -- What the index at a root reference holds.
  pub data Holds (reference : ObjectRef) : List Record → Type 0 where
    nothing : ref_eq reference no_object ≡ true → Holds reference []
    one_leaf :
        (bytes : Bytes) (pages : List Group)
        → ref_eq reference no_object ≡ false
        → bad_ref max_index_bytes reference ≡ false
        → fetch reference ≡ ok bytes
        → decode_index sha reference bytes shard index_magic ≡ ok (fences_of pages)
        → All (PageServed sha zstd fetch shard) pages
        → Holds reference (all_records pages)
    internal :
        (bytes : Bytes) (leaves : List Group)
        → ref_eq reference no_object ≡ false
        → bad_ref max_index_bytes reference ≡ false
        → fetch reference ≡ ok bytes
        → bytes_eq (take 4 bytes) internal_magic ≡ true
        → decode_index sha reference bytes shard internal_magic ≡ ok (fences_of leaves)
        → All LeafServed leaves
        → Holds reference (all_records leaves)

module _ (sha : Sha256) (zstd : Zstd) (fetch : ObjectRef → Result Bytes) where
  -- Where the objects of the key's partition are served and their records are in ascending order,
  -- `lookup` of a key that is not empty answers with the newest version of the key at or before the
  -- block, over one level of fences or two, and with nothing where there is none.
  pub lookup-newest :
      (indexes : List ObjectRef) (key : Bytes) (block : ℕ) (records : List Record)
      → is_empty key ≡ false
      → Holds sha zstd fetch
          (partition sha key)
          (get_or indexes (partition sha key) no_object)
          records
      → AscendingFrom none records
      → lookup sha zstd fetch indexes key block ≡ ok (newest records key block)
  unfolding lookup newest
  lookup-newest indexes key block _ ne (nothing e) asc = rw (ne, e)
  lookup-newest indexes key block _ ne (one_leaf bytes pages e sane f d served) asc =
      rw (ne, e, sane, f)
        (unfold search_root misses_start in
          rw (leaf_magic sha zstd fetch (partition sha key) _ bytes (fences_of pages) d) (
            search_leaf-newest sha zstd fetch (partition sha key) key block _ bytes none none pages
              d refl served asc))
  lookup-newest indexes key block _ ne (internal bytes leaves e sane f m d served) asc =
      rw (ne, e, sane, f)
        (root-newest sha zstd fetch (partition sha key) key block _ bytes none leaves m d served
          asc)
