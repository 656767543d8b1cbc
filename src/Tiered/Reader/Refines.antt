-- ===== src/Tiered/Reader/Refines.antt =====
-- The reader's steps with a budget and a cache answer what the same steps answer without.
use fossil.Base.{
  >>=-eq-ok, Bool, List, Option, Result, ap, arith, bail_if-eq-ok, false, get_or, if◌then◌else◌,
  inl, inr, length, none, not, ok, refl, some, sym, take, true, ℕ, ◌*◌, ◌+◌, ◌<◌, ◌>>=◌, ◌^◌, ◌||◌,
  ◌∙◌, ◌≡◌, ◌≤◌,
}
use mathlib.Core.Path.{subst}
use fossil.Bytes.{Bytes, AreBytes, Version, bytes_eq}
use fossil.Extern.{Sha256, Hex, Zstd}
use fossil.Head.Manifest.{Run}
use fossil.Codec.{
  ObjectRef, Fence, fence_version, is_empty, bad_ref, ref_eq, no_object, partition, max_index_bytes,
  max_page_bytes, internal_magic, index_magic,
}
use fossil.Codec.Index.{decode_index}
use fossil.Codec.Page.{decode_data_page}
use fossil.Codec.Lookup.{
  misses_record, misses_start, search_page, search_fence, search_leaf, search_parent, search_root,
}
use fossil.Summary.{
  ShardKind, address_shard, spill_shard, shard_contains, shard_index, spill_index, group, route,
  max_shard_bytes, may_contain,
}
use fossil.Summary.Shards.{shard_index-lt, spill_index-lt}
use fossil.Summary.Path.{shard_path, DoublesLength, shard_path_injective}
use fossil.Tiered.Reader.{
  ShardCache, Request, fetch, fetch_shard, load, shard, probe, charged_fetch,
}
use fossil.Tiered.Reader.Ends.{Ends, Ends-ok, Ends-weaken, Ends-bind, Ends-charge}
use fossil.Codec.Lookup.Spending.{spend_fence, spend_leaf, spend_parent, spend_root, spend_run}

-- The digest of a run has 32 bytes, and its shards are counted by a `u32`.
pub record IsNamed (run : Run) : Type 0 where
  pub length_digest : length run.root.digest ≡ 32
  pub digest_bytes : AreBytes run.root.digest
  pub some_shard : 0 < run.shards
  pub shards_fit : run.shards < 2 ^ 32

module _ (sha : Sha256) (hex : Hex) (doubles : DoublesLength hex)
    (get_bounded : Bytes → ℕ → Result Bytes) (cache : ShardCache) where
  -- A cached shard is the one that its path is fetched and decoded to.
  abbrev pub Sound : cache.Store → Type 0
  Sound store =
      (run : Run) (kind : ShardKind) (index : ℕ) (found : Bytes)
      → IsNamed run
      → index < 2 ^ 32
      → cache.get store (shard_path hex run.root.digest run.shards kind index) ≡ some found
      → fetch_shard sha hex get_bounded run kind index ≡ ok found

  pub empty-Sound : Sound cache.empty
  empty-Sound run kind index found n i e =
      absurd (cc (e, cache.get_empty (shard_path hex run.root.digest run.shards kind index)))

  fetch_shard_cong :
      (run other : Run) (kind kind' : ShardKind) (index index' : ℕ)
      → (run.root.digest ≡ other.root.digest)
        × (run.shards ≡ other.shards)
        × (kind ≡ kind')
        × (index ≡ index')
      → fetch_shard sha hex get_bounded run kind index
        ≡ fetch_shard sha hex get_bounded other kind' index'
  unfolding fetch_shard
  fetch_shard_cong run other kind kind' index index' (d, s, k, i) = rw (d, s, k, i) refl

  insert-Sound :
      (store : cache.Store) (run : Run) (kind : ShardKind) (index : ℕ) (found : Bytes)
      → Sound store
      → IsNamed run
      → index < 2 ^ 32
      → fetch_shard sha hex get_bounded run kind index ≡ ok found
      → Sound (cache.insert store (shard_path hex run.root.digest run.shards kind index) found)
  insert-Sound store run kind index found sound named small e other kind' index' found' named'
        small' g =
      elim (cache.get_insert store _ found _ found' g) [
        | inr old ↦ sound other kind' index' found' named' small' old
        | inl (same, new) ↦
            let parts =
              shard_path_injective hex doubles other.root.digest run.root.digest other.shards
                run.shards kind' kind index' index (named'.length_digest, named'.digest_bytes)
                (named.length_digest, named.digest_bytes) (named'.shards_fit, small')
                (named.shards_fit, small) same in
            fetch_shard_cong other run kind' kind index' index parts ∙ (e ∙ ap ok (sym new))
      ]

  Ends-load :
      (cached : Option Bytes) (run : Run) (kind : ShardKind) (index : ℕ) (found : Bytes)
      (s : Request cache)
      → IsNamed run
      → index < 2 ^ 32
      → fetch_shard sha hex get_bounded run kind index ≡ ok found
      → Sound s.store
      → cache.get s.store (shard_path hex run.root.digest run.shards kind index) ≡ cached
      → Ends cache Sound 1 max_shard_bytes found s
          (load sha hex get_bounded cache cached run kind index s)
  unfolding load
  Ends-load none run kind index found s named small e sound miss =
      Ends-charge cache Sound max_shard_bytes found s _ sound (λ t same. inl (
        record t {
          store = cache.insert t.store (shard_path hex run.root.digest run.shards kind index) found;
        },
        rw e refl,
        record {
          few_gets = omega arith;
          few_bytes = omega arith;
          sound =
              insert-Sound t.store run kind index found (subst Sound (sym same) sound) named small
                e;
        },
      ))
  Ends-load (some old) run kind index found s named small e sound hit =
      let right : old ≡ found = cc (sound run kind index old named small hit, e) in
      inl (
        s,
        rw right refl,
        record { few_gets = omega arith; few_bytes = omega arith; sound = sound },
      )

  Ends-shard :
      (run : Run) (kind : ShardKind) (index : ℕ) (found : Bytes) (s : Request cache)
      → IsNamed run
      → index < 2 ^ 32
      → fetch_shard sha hex get_bounded run kind index ≡ ok found
      → Sound s.store
      → Ends cache Sound 1 max_shard_bytes found s
          (shard sha hex get_bounded cache run kind index s)
  unfolding shard
  Ends-shard run kind index found s named small e sound =
      Ends-load (cache.get s.store (shard_path hex run.root.digest run.shards kind index)) run kind
        index found s named small e sound refl

  after_address :
      (run : Run) (key : Bytes) (hit : Bool) (address : Bytes) (t : Request cache)
      (direct marked : Bool)
      → IsNamed run
      → (if direct then ok true else if not marked then ok false else (do
        spill ←
            fetch_shard sha hex get_bounded run spill_shard
              (spill_index sha (sha.digest key) run.shards)
        ok (shard_contains sha spill key)))
        ≡ ok hit
      → Sound t.store
      → Ends cache Sound 1 max_shard_bytes hit t (
          if direct then ok (true, t) else if not marked then ok (false, t) else (do
            (spill, t1) ←
                shard sha hex get_bounded cache run spill_shard
                  (spill_index sha (sha.digest key) run.shards)
                  t
            ok (shard_contains sha spill key, t1)))
  after_address run key hit address t true marked named h sound =
      let same : true ≡ hit = cc h in
      subst (λ v. Ends cache Sound 1 max_shard_bytes v t (ok (true, t))) same
        (Ends-weaken cache Sound 0 0 1 max_shard_bytes true t _ (omega arith) (omega arith)
          (Ends-ok cache Sound true t sound))
  after_address run key hit address t false false named h sound =
      let same : false ≡ hit = cc h in
      subst (λ v. Ends cache Sound 1 max_shard_bytes v t (ok (false, t))) same
        (Ends-weaken cache Sound 0 0 1 max_shard_bytes false t _ (omega arith) (omega arith)
          (Ends-ok cache Sound false t sound))
  after_address run key hit address t false true named h sound =
      let at = spill_index sha (sha.digest key) run.shards in
      let small = spill_index-lt sha (sha.digest key) run.shards named.some_shard in
      let (spill, got, h2) = >>=-eq-ok (fetch_shard sha hex get_bounded run spill_shard at) _ h in
      let same : shard_contains sha spill key ≡ hit = cc h2 in
      Ends-bind cache Sound 1 max_shard_bytes 0 0 spill hit t _ _
        (Ends-shard run spill_shard at spill t named (omega (arith, small, named.shards_fit)) got
          sound)
        (λ u sound'.
          subst (λ v. Ends cache Sound 0 0 v u (ok (shard_contains sha spill key, u))) same
            (Ends-ok cache Sound _ u sound'))

  -- The probe of a run answers what the probe without budget and cache does, for two shards.
  pub Ends-probe :
      (run : Run) (key : Bytes) (hit : Bool) (s : Request cache)
      → IsNamed run
      → may_contain sha (fetch_shard sha hex get_bounded run) run.shards key ≡ ok hit
      → Sound s.store
      → Ends cache Sound 2 (2 * max_shard_bytes) hit s (probe sha hex get_bounded cache run key s)
  unfolding probe may_contain
  Ends-probe run key hit s named e sound =
      let at = shard_index sha (route (group key)) run.shards in
      let small = shard_index-lt sha (route (group key)) run.shards named.some_shard in
      let (address, got, h) =
        >>=-eq-ok (fetch_shard sha hex get_bounded run address_shard at) _ e in
      Ends-bind cache Sound 1 max_shard_bytes 1 max_shard_bytes address hit s _ _
        (Ends-shard run address_shard at address s named (omega (arith, small, named.shards_fit))
          got sound)
        (λ t sound'. after_address run key hit address t _ _ named h sound')

  pub Ends-charged_fetch :
      (reference : ObjectRef) (bytes : Bytes) (s : Request cache)
      → fetch sha hex get_bounded reference ≡ ok bytes
      → Sound s.store
      → Ends cache Sound 1 reference.size bytes s
          (charged_fetch sha hex get_bounded cache reference s)
  unfolding charged_fetch
  Ends-charged_fetch reference bytes s e sound =
      Ends-charge cache Sound reference.size bytes s _ sound
        (λ t same. rw e (Ends-ok cache Sound bytes t (subst Sound (sym same) sound)))

small_ref :
    (maximum : ℕ) (reference : ObjectRef)
    → bad_ref maximum reference ≡ false
    → reference.size ≤ maximum
unfolding bad_ref
small_ref maximum reference h = ground arith

module _ (sha : Sha256) (hex : Hex) (doubles : DoublesLength hex) (zstd : Zstd)
    (get_bounded : Bytes → ℕ → Result Bytes) (cache : ShardCache) where
  -- `Ends` of the reader's steps
  abbrev pub Answers :
      {A : Type 0} → ℕ → ℕ → A → Request cache → Result (A × Request cache) → Type 0
  Answers = Ends cache (Sound sha hex doubles get_bounded cache)

  abbrev pub IsSound : Request cache → Type 0
  IsSound s = Sound sha hex doubles get_bounded cache s.store

  -- A step that answers what is asked for costs nothing.
  pub free :
      {A : Type 0} (gets bytes : ℕ) (value final : A) (s : Request cache)
      → ok value ≡ ok final
      → IsSound s
      → Answers gets bytes final s (ok (value, s))
  free gets bytes value final s e sound =
      let same : value ≡ final = cc e in
      subst (λ v. Answers gets bytes v s (ok (value, s))) same
        (Ends-weaken cache (Sound sha hex doubles get_bounded cache) 0 0 gets bytes value s _
          (omega arith) (omega arith)
          (Ends-ok cache (Sound sha hex doubles get_bounded cache) value s sound))

  -- A checked reference is fetched at the price of its bound.
  fetched :
      {A : Type 0} (maximum gets bytes : ℕ) (reference : ObjectRef) (raw : Bytes) (final : A)
      (s : Request cache) (next : Bytes × Request cache → Result (A × Request cache))
      → bad_ref maximum reference ≡ false
      → fetch sha hex get_bounded reference ≡ ok raw
      → IsSound s
      → ((t : Request cache) → IsSound t → Answers gets bytes final t (next (raw, t)))
      → Answers
          (1 + gets)
          (maximum + bytes)
          final
          s
          (charged_fetch sha hex get_bounded cache reference s >>= next)
  fetched maximum gets bytes reference raw final s next good e sound h =
      Ends-bind cache (Sound sha hex doubles get_bounded cache) 1 maximum gets bytes raw final s _
        next
        (Ends-weaken cache (Sound sha hex doubles get_bounded cache) 1 reference.size 1 maximum raw
          s _ (omega arith) (small_ref maximum reference good)
          (Ends-charged_fetch sha hex doubles get_bounded cache reference raw s e sound))
        h

  spend_fence_lem :
      (shard : ℕ) (key : Bytes) (block : ℕ) (o : Option Fence) (value : Option Bytes)
      (s : Request cache)
      → search_fence sha zstd (fetch sha hex get_bounded) shard key block o ≡ ok value
      → IsSound s
      → Answers 1 max_page_bytes value s
          (spend_fence sha zstd (charged_fetch sha hex get_bounded cache) shard key block o s)
  unfolding search_fence spend_fence
  spend_fence_lem shard key block none value s e sound = free 1 max_page_bytes none value s e sound
  spend_fence_lem shard key block (some f) value s e sound =
      let (good, e1) = bail_if-eq-ok (bad_ref max_page_bytes f.object) _ _ e in
      let (raw, got, e2) = >>=-eq-ok (fetch sha hex get_bounded f.object) _ e1 in
      let (records, decoded, e3) = >>=-eq-ok (decode_data_page sha zstd f.object raw shard) _ e2 in
      let (begins, e4) = bail_if-eq-ok (misses_record records (fence_version f)) _ _ e3 in
      rw good (
        fetched max_page_bytes 0 0 f.object raw value s _ good got sound (λ t sound'.
          rw (decoded, begins) (free 0 0 (search_page records key block) value t e4 sound')))

  spend_leaf_lem :
      (shard : ℕ) (key : Bytes) (block : ℕ) (leaf_ref : ObjectRef) (leaf_bytes : Bytes)
      (start : Option Version) (value : Option Bytes) (s : Request cache)
      → search_leaf sha zstd (fetch sha hex get_bounded) shard key block leaf_ref leaf_bytes start
        ≡ ok value
      → IsSound s
      → Answers 1 max_page_bytes value s (
          spend_leaf sha zstd
            (charged_fetch sha hex get_bounded cache)
            shard
            key
            block
            leaf_ref
            leaf_bytes
            start
            s)
  unfolding search_leaf spend_leaf
  spend_leaf_lem shard key block leaf_ref leaf_bytes start value s e sound =
      let (fences, decoded, e1) =
        >>=-eq-ok (decode_index sha leaf_ref leaf_bytes shard index_magic) _ e in
      let (begins, e2) = bail_if-eq-ok (misses_start fences start) _ _ e1 in
      rw (decoded, begins) (spend_fence_lem shard key block _ value s e2 sound)

  spend_parent_lem :
      (shard : ℕ) (key : Bytes) (block : ℕ) (o : Option Fence) (value : Option Bytes)
      (s : Request cache)
      → search_parent sha zstd (fetch sha hex get_bounded) shard key block o ≡ ok value
      → IsSound s
      → Answers 2
          (max_index_bytes + max_page_bytes)
          value
          s
          (spend_parent sha zstd (charged_fetch sha hex get_bounded cache) shard key block o s)
  unfolding search_parent spend_parent
  spend_parent_lem shard key block none value s e sound = free _ _ none value s e sound
  spend_parent_lem shard key block (some f) value s e sound =
      let (good, e1) = bail_if-eq-ok (bad_ref max_index_bytes f.object) _ _ e in
      let (raw, got, e2) = >>=-eq-ok (fetch sha hex get_bounded f.object) _ e1 in
      rw good (
        fetched max_index_bytes 1 max_page_bytes f.object raw value s _ good got sound (λ t sound'.
          spend_leaf_lem shard key block f.object raw (some (fence_version f)) value t e2 sound'))

  either :
      {A : Type 0} (gets bytes : ℕ) (value : A) (s : Request cache) (test : Bool)
      (plain plain' : Result A) (spending spending' : Result (A × Request cache))
      → (plain ≡ ok value → Answers gets bytes value s spending)
      → (plain' ≡ ok value → Answers gets bytes value s spending')
      → (if test then plain else plain') ≡ ok value
      → Answers gets bytes value s (if test then spending else spending')
  either gets bytes value s true plain plain' spending spending' h k e = h e
  either gets bytes value s false plain plain' spending spending' h k e = k e

  spend_root_lem :
      (shard : ℕ) (key : Bytes) (block : ℕ) (root_ref : ObjectRef) (raw : Bytes)
      (value : Option Bytes) (s : Request cache)
      → search_root sha zstd (fetch sha hex get_bounded) shard key block root_ref raw ≡ ok value
      → IsSound s
      → Answers 2 (max_index_bytes + max_page_bytes) value s (
          spend_root sha zstd
            (charged_fetch sha hex get_bounded cache)
            shard
            key
            block
            root_ref
            raw
            s)
  unfolding search_root spend_root
  spend_root_lem shard key block root_ref raw value s e sound =
      either _ _ value s (bytes_eq (take 4 raw) internal_magic) _ _ _ _
        (λ internal.
          let (parents, decoded, e1) =
            >>=-eq-ok (decode_index sha root_ref raw shard internal_magic) _ internal in
          rw decoded (spend_parent_lem shard key block _ value s e1 sound))
        (λ one.
          Ends-weaken cache (Sound sha hex doubles get_bounded cache) 1 max_page_bytes 2
            (max_index_bytes + max_page_bytes) value s _ (omega arith) (omega arith)
            (spend_leaf_lem shard key block root_ref raw none value s one sound))
        e

  -- The lookup in a run answers what it does without a budget, for at most three objects.
  pub spend_run_lem :
      (indexes : List ObjectRef) (key : Bytes) (block : ℕ) (value : Option Bytes)
      (s : Request cache)
      → fossil.Codec.Lookup.lookup sha zstd (fetch sha hex get_bounded) indexes key block ≡ ok value
      → IsSound s
      → Answers 3
          (max_index_bytes + (max_index_bytes + max_page_bytes))
          value
          s
          (spend_run sha zstd (charged_fetch sha hex get_bounded cache) indexes key block s)
  unfolding fossil.Codec.Lookup.lookup spend_run
  spend_run_lem indexes key block value s e sound =
      let shard = partition sha key in
      let root_ref = get_or indexes shard no_object in
      either 3 _ value s (is_empty key || ref_eq root_ref no_object) _ _ _ _
        (λ nothing. free _ _ none value s nothing sound)
        (λ there.
          let (good, e1) = bail_if-eq-ok (bad_ref max_index_bytes root_ref) _ _ there in
          let (raw, got, e2) = >>=-eq-ok (fetch sha hex get_bounded root_ref) _ e1 in
          rw good (
            fetched max_index_bytes 2 (max_index_bytes + max_page_bytes) root_ref raw value s _ good
              got sound
              (λ t sound'. spend_root_lem shard key block root_ref raw value t e2 sound')))
        e
