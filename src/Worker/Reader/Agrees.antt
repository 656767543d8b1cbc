-- ===== src/Worker/Reader/Agrees.antt =====
-- The worker's reader answers as the server's reader over the same store.
use fossil.Base.{
  Bool, Bool-cases, List, Option, Result, arith, false, get_or, inl, inr, length, ltb, none, not,
  refl, some, take, ℕ, ◌*◌, ◌++◌, ◌==◌, ◌||◌, ◌≡◌, ◌≤◌,
}
use fossil.Bytes.{Bytes, Version, bytes_eq}
use fossil.Extern.{Sha256, Hex, Zstd}
use fossil.Head.Account.{zero32}
use fossil.Codec.{
  ObjectRef, Fence, bad_ref, fence_version, internal_magic, index_magic, is_empty, max_index_bytes,
  max_page_bytes, no_object, partition, ref_eq,
}
use fossil.Codec.Index.{decode_index}
use fossil.Codec.Page.{decode_data_page}
use fossil.Codec.Lookup.{before_point, fence_within, misses_record, misses_start}
use fossil.Codec.Lookup.Spending.{spend_fence, spend_leaf, spend_parent, spend_root, spend_run}
use fossil.Head.Manifest.{Run}
use fossil.Summary.{
  ShardKind, address_shard, spill_shard, decode_shard, shard_contains, shard_index, spill_index,
  group, route, marker, max_shard_bytes,
}
use fossil.Summary.Path.{object_key, shard_path}
use fossil.Tiered.Reader.{Request, charged_fetch, fetch, fetch_shard, load, shard, probe}
use fossil.Worker.Reader.{Cells, object, memoized, load_shard, shard_of, probe_run}
use fossil.Worker.Reader.Alike.{
  Same, Same-bind, Alike-plain, Alike-guard, Alike-if, Alike-get, map_cache, view,
}

-- What a checked reference is.
record IsFetchable (reference : ObjectRef) : Type 0 where
  some_byte : (reference.size == 0) ≡ false
  fits : ltb (1024 * 1024) reference.size ≡ false
  some_digest : bytes_eq reference.digest zero32 ≡ false

bad_ref-IsFetchable :
    (maximum : ℕ) (reference : ObjectRef)
    → maximum ≤ 1024 * 1024
    → bad_ref maximum reference ≡ false
    → IsFetchable reference
unfolding bad_ref
bad_ref-IsFetchable maximum reference small h = record {
  some_byte = ground arith;
  fits = ground arith;
  some_digest = ground arith;
}

module _ (sha : Sha256) (hex : Hex) (zstd : Zstd) (store : Bytes → ℕ → Result Bytes)
    (prefix : Bytes) where
  -- The store as the server's reader sees it.
  abbrev pub under : Bytes → ℕ → Result Bytes
  under key maximum = store (prefix ++ key) maximum

  abbrev pub worker_object : ObjectRef → Cells → Result (Bytes × Cells)
  worker_object = object sha hex zstd store prefix

  abbrev pub server_object :
      ObjectRef → Request (map_cache prefix) → Result (Bytes × Request (map_cache prefix))
  server_object = charged_fetch sha hex under (map_cache prefix)

  object-Same :
      (reference : ObjectRef) (s : Cells)
      → IsFetchable reference
      → Same prefix (worker_object reference s) (server_object reference (view prefix s))
  unfolding object charged_fetch fetch
  object-Same reference s f =
      rw (f.some_byte, f.fits)
        (Alike-get prefix sha hex zstd store (λ (a b : Bytes). a ≡ b)
          (prefix ++ object_key hex reference.digest) reference.size s _ _
          (λ why e. rw (f.some_digest, e) tt)
          (λ bytes e.
            rw (f.some_digest, e)
              (elim (Bool-cases (
                not (length bytes == reference.size)
                || not (bytes_eq (sha.digest bytes) reference.digest))) [
                  | inl wrong ↦ rw wrong tt
                  | inr right ↦ rw right (refl, refl)
                ])))

  load_shard-Same :
      (found : Option Bytes) (run : Run) (kind : ShardKind) (index : ℕ) (s : Cells)
      → Same prefix
          (load_shard sha hex zstd store prefix found run kind index s)
          (load sha hex under (map_cache prefix) found run kind index (view prefix s))
  unfolding load_shard load fetch_shard
  load_shard-Same (some bytes) run kind index s = (refl, refl)
  load_shard-Same none run kind index s =
      Alike-get prefix sha hex zstd store (λ (a b : Bytes). a ≡ b)
        (prefix ++ shard_path hex run.root.digest run.shards kind index) max_shard_bytes s _ _
        (λ why e. rw e tt)
        (λ bytes e. rw e (
          Alike-plain prefix (λ (a b : Bytes). a ≡ b)
            (decode_shard sha run.root.digest kind index run.shards bytes) _ _
            (λ found e'. (refl, refl))))

  shard_of-Same :
      (run : Run) (kind : ShardKind) (index : ℕ) (s : Cells)
      → Same prefix
          (shard_of sha hex zstd store prefix run kind index s)
          (shard sha hex under (map_cache prefix) run kind index (view prefix s))
  unfolding shard_of shard
  shard_of-Same run kind index s =
      load_shard-Same
        (memoized s.shards (prefix ++ shard_path hex run.root.digest run.shards kind index)) run
        kind index s

  pub probe_run-Same :
      (run : Run) (key : Bytes) (s : Cells)
      → Same prefix
          (probe_run sha hex zstd store prefix run key s)
          (probe sha hex under (map_cache prefix) run key (view prefix s))
  unfolding probe_run probe
  probe_run-Same run key s =
      Same-bind prefix (λ (a b : Bool). a ≡ b) _ _ _ _
        (shard_of-Same run address_shard (shard_index sha (route (group key)) run.shards) s)
        (λ address t.
          Alike-if prefix (λ (a b : Bool). a ≡ b) (shard_contains sha address key) _ _ _ _
            (refl, refl)
            (Alike-if prefix (λ (a b : Bool). a ≡ b)
              (not (shard_contains sha address (marker (group key)))) _ _ _ _ (refl, refl)
              (Same-bind prefix (λ (a b : Bool). a ≡ b) _ _ _ _
                (shard_of-Same run spill_shard (spill_index sha (sha.digest key) run.shards) t)
                (λ spill u. (refl, refl)))))

  abbrev Found : Option Bytes → Option Bytes → Type 0
  Found a b = a ≡ b

  spend_fence-Same :
      (shard : ℕ) (key : Bytes) (block : ℕ) (o : Option Fence) (s : Cells)
      → Same prefix
          (spend_fence sha zstd worker_object shard key block o s)
          (spend_fence sha zstd server_object shard key block o (view prefix s))
  unfolding spend_fence
  spend_fence-Same shard key block none s = (refl, refl)
  spend_fence-Same shard key block (some f) s =
      Alike-guard prefix Found (bad_ref max_page_bytes f.object) _ _ _ _ (λ good.
        Same-bind prefix Found _ _ _ _
          (object-Same f.object s (bad_ref-IsFetchable max_page_bytes f.object (omega arith) good))
          (λ bytes t.
            Alike-plain prefix Found (decode_data_page sha zstd f.object bytes shard) _ _
              (λ records e.
                Alike-guard prefix Found (misses_record records (fence_version f)) _ _ _ _
                  (λ begins. (refl, refl)))))

  spend_leaf-Same :
      (shard : ℕ) (key : Bytes) (block : ℕ) (leaf_ref : ObjectRef) (leaf_bytes : Bytes)
      (start : Option Version) (s : Cells)
      → Same prefix
          (spend_leaf sha zstd worker_object shard key block leaf_ref leaf_bytes start s)
          (spend_leaf sha zstd server_object shard key block leaf_ref leaf_bytes start
            (view prefix s))
  unfolding spend_leaf
  spend_leaf-Same shard key block leaf_ref leaf_bytes start s =
      Alike-plain prefix Found (decode_index sha leaf_ref leaf_bytes shard index_magic) _ _
        (λ fences e. Alike-guard prefix Found (misses_start fences start) _ _ _ _ (λ begins.
          spend_fence-Same shard key block
            (before_point (fence_within (record { key = key; block = block })) fences) s))

  spend_parent-Same :
      (shard : ℕ) (key : Bytes) (block : ℕ) (o : Option Fence) (s : Cells)
      → Same prefix
          (spend_parent sha zstd worker_object shard key block o s)
          (spend_parent sha zstd server_object shard key block o (view prefix s))
  unfolding spend_parent
  spend_parent-Same shard key block none s = (refl, refl)
  spend_parent-Same shard key block (some f) s =
      Alike-guard prefix Found (bad_ref max_index_bytes f.object) _ _ _ _ (λ good.
        Same-bind prefix Found _ _ _ _
          (object-Same f.object s (bad_ref-IsFetchable max_index_bytes f.object (omega arith) good))
          (λ bytes t. spend_leaf-Same shard key block f.object bytes (some (fence_version f)) t))

  spend_root-Same :
      (shard : ℕ) (key : Bytes) (block : ℕ) (root_ref : ObjectRef) (raw : Bytes) (s : Cells)
      → Same prefix
          (spend_root sha zstd worker_object shard key block root_ref raw s)
          (spend_root sha zstd server_object shard key block root_ref raw (view prefix s))
  unfolding spend_root
  spend_root-Same shard key block root_ref raw s =
      Alike-if prefix Found (bytes_eq (take 4 raw) internal_magic) _ _ _ _
        (Alike-plain prefix Found (decode_index sha root_ref raw shard internal_magic) _ _
          (λ parents e.
            spend_parent-Same shard key block
              (before_point (fence_within (record { key = key; block = block })) parents) s))
        (spend_leaf-Same shard key block root_ref raw none s)

  -- The lookups in one run.
  pub spend_run-Same :
      (indexes : List ObjectRef) (key : Bytes) (block : ℕ) (s : Cells)
      → Same prefix
          (spend_run sha zstd worker_object indexes key block s)
          (spend_run sha zstd server_object indexes key block (view prefix s))
  unfolding spend_run
  spend_run-Same indexes key block s =
      let shard = partition sha key in
      let root_ref = get_or indexes shard no_object in
      Alike-if prefix Found (is_empty key || ref_eq root_ref no_object) _ _ _ _ (refl, refl)
        (Alike-guard prefix Found (bad_ref max_index_bytes root_ref) _ _ _ _ (λ good.
          Same-bind prefix Found _ _ _ _
            (object-Same root_ref s
              (bad_ref-IsFetchable max_index_bytes root_ref (omega arith) good))
            (λ raw t. spend_root-Same shard key block root_ref raw t)))
