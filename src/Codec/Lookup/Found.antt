-- ===== src/Codec/Lookup/Found.antt =====
-- `lookup` over a fence tree whose objects are served: it finds the newest version of the key among
-- the records of all the pages.
use fossil.Base.{
  All, Bool, Bool-cases, List, Option, Option-cases, Result, [], ap, arith, false, inl, inr, none,
  ok, refl, some, sym, true, ℕ, ◌∙◌, ◌∷◌, ◌≡◌,
}
use mathlib.Core.Path.{subst}
use fossil.Bytes.{Bytes, Version, version_eq}
use fossil.Bytes.Order.{bytes_eq_refl}
use fossil.Extern.{Sha256, Zstd}
use fossil.Codec.{
  ObjectRef, Record, Fence, version_of, fence_version, bad_ref, max_page_bytes, index_magic,
}
use fossil.Codec.Data.RoundTrip.{AscendingFrom}
use fossil.Codec.Index.{decode_index}
use fossil.Codec.Page.{decode_data_page}
use fossil.Codec.Lookup.{
  partition_point, before_point, fence_within, of_key, misses_record, misses_start, search_fence,
  search_leaf,
}
use fossil.Codec.Lookup.Newest.{
  newest, newest-predecessor, search_page-newest, before_point_passes, before_point_fails,
}
use fossil.Codec.Lookup.Pages.{
  Group, all_records, fences_of, Begins, found_group, in_group, found_group-predecessor,
}

pub version_eq_refl : (v : Version) → version_eq v v ≡ true
unfolding version_eq
version_eq_refl v = ground (arith, bytes_eq_refl v.key)

-- What `before_point` finds is one of the elements.
pub before_point-All :
    {A : Type 0} (P : A → Type 0) (test : A → Bool) (xs : List A) (x : A)
    → All P xs
    → before_point test xs ≡ some x
    → P x
before_point-All P test [] x all e = absurd (unfold before_point partition_point in cc e)
before_point-All {A} P test (y ∷ ys) x (p, all) e = elim (Bool-cases (test y)) [
  | inl passes ↦
      let e' = sym (before_point_passes test y ys passes) ∙ e in
      elim (Option-cases (before_point test ys)) [
        | inl nothing ↦
            let same : y ≡ x = cc (
              sym (ap (λ (o : Option A). elim o [ some q ↦ some q | none ↦ some y ]) nothing)
              ∙ e') in
            subst P same p
        | inr (z, found) ↦
            let same : z ≡ x = cc (
              sym (ap (λ (o : Option A). elim o [ some q ↦ some q | none ↦ some y ]) found) ∙ e') in
            subst P same (before_point-All P test ys z all found)
      ]
  | inr fails ↦ absurd (cc (e, before_point_fails test y ys fails))
]

abbrev pub fence_of : Option Group → Option Fence
fence_of none = none
fence_of (some (f, rs)) = some f

fence_of-elim :
    (o : Option Group) (f : Fence) (rs : List Record)
    → fence_of (elim o [ some g ↦ some g | none ↦ some (f, rs) ])
      ≡ elim (fence_of o) [ some g ↦ some g | none ↦ some f ]
fence_of-elim none f rs = refl
fence_of-elim (some (g, qs)) f rs = refl

-- The search among the fences finds the fence of the group.
pub found_fence :
    (groups : List Group) (t : Version)
    → before_point (fence_within t) (fences_of groups) ≡ fence_of (found_group groups t)
unfolding found_group
found_fence [] t = unfold before_point partition_point in refl
found_fence ((f, rs) ∷ groups) t = elim (Bool-cases (fence_within t f)) [
  | inl passes ↦
      before_point_passes (fence_within t) f (fences_of groups) passes
      ∙ ap (λ (o : Option Fence). elim o [ some g ↦ some g | none ↦ some f ]) (found_fence groups t)
      ∙ sym (fence_of-elim (found_group groups t) f rs)
      ∙ sym (
          ap fence_of
            (before_point_passes (λ (g : Group). fence_within t g.0) (f, rs) groups passes))
  | inr fails ↦
      before_point_fails (fence_within t) f (fences_of groups) fails
      ∙ sym (
          ap fence_of (before_point_fails (λ (g : Group). fence_within t g.0) (f, rs) groups fails))
]

module _ (sha : Sha256) (zstd : Zstd) (fetch : ObjectRef → Result Bytes) (shard : ℕ) where
  -- The page that a fence names is fetched and decoded to the group's records.
  pub record PageServed (g : Group) : Type 0 where
    pub sane : bad_ref max_page_bytes g.0.object ≡ false
    pub bytes : Bytes
    pub fetched : fetch g.0.object ≡ ok bytes
    pub decoded : decode_data_page sha zstd g.0.object bytes shard ≡ ok g.1
    pub begins : Begins g
    pub ascending : (prior : Option Record) × AscendingFrom prior g.1

  first_fits :
      (f : Fence) (rs : List Record) → Begins (f, rs) → misses_record rs (fence_version f) ≡ false
  unfolding misses_record
  first_fits f [] b = absurd b
  first_fits f (r ∷ rs) b = rw (b, version_eq_refl (version_of r))

  search_fence_lem :
      (key : Bytes) (block : ℕ) (o : Option Group)
      → ((g : Group) → o ≡ some g → PageServed g)
      → search_fence sha zstd fetch shard key block (fence_of o)
        ≡ ok (of_key key (in_group o (record { key = key; block = block })))
  unfolding search_fence
  search_fence_lem key block none served = unfold of_key in refl
  search_fence_lem key block (some (f, rs)) served =
      let s = served (f, rs) refl in
      let page =
        search_page-newest s.ascending.0 rs key block s.ascending.1
        ∙ newest-predecessor s.ascending.0 rs key block s.ascending.1 in
      rw (s.sane, s.fetched, s.decoded, first_fits f rs s.begins, page)

  pub Begins-all : (groups : List Group) → All PageServed groups → All Begins groups
  Begins-all [] h = tt
  Begins-all (g ∷ groups) (s, h) = (s.begins, Begins-all groups h)

  -- Below a leaf.
  pub search_leaf-newest :
      (key : Bytes) (block : ℕ) (leaf_ref : ObjectRef) (leaf_bytes : Bytes) (start : Option Version)
      (prior : Option Record) (groups : List Group)
      → decode_index sha leaf_ref leaf_bytes shard index_magic ≡ ok (fences_of groups)
      → misses_start (fences_of groups) start ≡ false
      → All PageServed groups
      → AscendingFrom prior (all_records groups)
      → search_leaf sha zstd fetch shard key block leaf_ref leaf_bytes start
        ≡ ok (newest (all_records groups) key block)
  unfolding search_leaf
  search_leaf-newest key block leaf_ref leaf_bytes start prior groups d m served asc =
      let t : Version = record { key = key; block = block } in
      let one = λ (g : Group) (e : found_group groups t ≡ some g).
        before_point-All PageServed (λ (h : Group). fence_within t h.0) groups g served
          (unfold found_group in e) in
      rw (d, m, found_fence groups t)
        (search_fence_lem key block (found_group groups t) one
          ∙ ap (λ o. ok (of_key key o))
              (sym (found_group-predecessor prior groups t (Begins-all groups served) asc))
          ∙ ap ok (sym (newest-predecessor prior (all_records groups) key block asc)))
