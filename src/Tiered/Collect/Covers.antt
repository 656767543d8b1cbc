-- ===== src/Tiered/Collect/Covers.antt =====
-- The objects and shards of the runs that `reach_runs` makes live.
use fossil.Base.{
  >>=-eq-ok, All, Bool-cases, List, Result, [], false, inl, inr, ok, refl, suc, sym, zero, ℕ, ◌∷◌,
  ◌≡◌, ◌⊎◌,
}
use mathlib.Core.Path.{subst}
use fossil.Bytes.{Bytes, bytes_eq}
use fossil.Codec.{ObjectRef}
use fossil.Codec.Root.{decode_root}
use fossil.Codec.Walk.{object_refs}
use fossil.Extern.{Hex, Sha256}
use fossil.Head.Manifest.{Run}
use fossil.Summary.{ShardKind, address_shard, spill_shard}
use fossil.Summary.Path.{object_key, shard_path}
use fossil.Tiered.Collect.{has_key, keep, keep_all, keys_of, reach_runs, shard_paths}
use fossil.Tiered.Collect.Live.{
  All-Kept, IsLive, Kept, keep-IsLive, keep-back, keep_all-IsLive, keep_all-back, keep_all_kept,
  keep_kept,
}
use fossil.Tiered.Reader.{fetch}

abbrev pub IsIn : Run → List Run → Type 0
IsIn run [] = ⊥
IsIn run (other ∷ rest) = (run ≡ other) ⊎ IsIn run rest

module _ (sha : Sha256) (hex : Hex) (get_bounded : Bytes → ℕ → Result Bytes) where
  abbrev pub root_key : Run → Bytes
  root_key run = object_key hex run.root.digest

  -- The indexes and pages that a run refers to, as its root and its indexes say.
  pub record RefersTo (run : Run) (refs : List ObjectRef) : Type 0 where
    pub bytes : Bytes
    pub indexes : List ObjectRef
    pub read : hex.decode run.root_bytes ≡ ok bytes
    pub decoded :
        decode_root sha (record { digest = run.root.digest; size = run.root.size }) bytes
        ≡ ok indexes
    pub walked : object_refs sha (fetch sha hex get_bounded) indexes ≡ ok refs

  -- The root of the run is live, with all its indexes and pages and all its summary shards.
  pub record Covered (run : Run) (live : List Bytes) : Type 0 where
    pub refs : List ObjectRef
    pub refers : RefersTo run refs
    pub root : IsLive live (root_key run)
    pub objects : All (IsLive live) (keys_of sha hex get_bounded refs)
    pub address : All (IsLive live) (shard_paths sha hex get_bounded run address_shard run.shards)
    pub spill : All (IsLive live) (shard_paths sha hex get_bounded run spill_shard run.shards)

  pub Covered-Kept :
      (run : Run) (live live' : List Bytes) → Kept live live' → Covered run live → Covered run live'
  Covered-Kept run live live' k c = record {
    refs = c.refs;
    refers = c.refers;
    root = k (root_key run) c.root;
    objects = All-Kept _ live live' k c.objects;
    address = All-Kept _ live live' k c.address;
    spill = All-Kept _ live live' k c.spill;
  }

  -- A path of a shard is no key of an object.
  shard_paths-apart :
      (run : Run) (kind : ShardKind) (count : ℕ) (digest : Bytes)
      → has_key (object_key hex digest) (shard_paths sha hex get_bounded run kind count) ≡ false
  unfolding has_key shard_paths shard_path object_key bytes_eq
  shard_paths-apart run kind zero digest = refl
  shard_paths-apart run kind (suc count) digest = shard_paths-apart run kind count digest

  -- What a round of the loop makes live for a new run.
  abbrev added : Run → List ObjectRef → List Bytes → List Bytes
  added run refs live = keep_all (shard_paths sha hex get_bounded run spill_shard run.shards) (
      keep_all (shard_paths sha hex get_bounded run address_shard run.shards)
        (keep_all (keys_of sha hex get_bounded refs) (keep (root_key run) live)))

  added-Kept :
      (run : Run) (refs : List ObjectRef) (live : List Bytes) → Kept live (added run refs live)
  added-Kept run refs live key h =
      keep_all_kept _ key _
        (keep_all_kept _ key _ (keep_all_kept _ key _ (keep_kept (root_key run) key live h)))

  added-Covered :
      (run : Run) (refs : List ObjectRef) (live : List Bytes)
      → RefersTo run refs
      → Covered run (added run refs live)
  added-Covered run refs live refers =
      let base = keep (root_key run) live in
      let objects = keep_all (keys_of sha hex get_bounded refs) base in
      let address =
        keep_all (shard_paths sha hex get_bounded run address_shard run.shards) objects in
      let from_address : Kept address (added run refs live) =
        λ key h. keep_all_kept _ key address h in
      let from_objects : Kept objects (added run refs live) =
        λ key h. from_address key (keep_all_kept _ key objects h) in
      record {
        refs = refs;
        refers = refers;
        root = from_objects (root_key run) (keep_all_kept _ _ base (keep-IsLive _ live));
        objects = All-Kept _ objects _ from_objects (keep_all-IsLive _ base);
        address = All-Kept _ address _ from_address (keep_all-IsLive _ objects);
        spill = keep_all-IsLive _ address;
      }

  -- The runs that are known: one root names one of them, and no object of one is a root.
  module _ (Known : Run → Type 0)
      (one_root : (run other : Run)
        → Known run
        → Known other
        → root_key run ≡ root_key other
        → run ≡ other)
      (no_root : (run other : Run) (refs : List ObjectRef)
        → Known run
        → Known other
        → RefersTo other refs
        → has_key (root_key run) (keys_of sha hex get_bounded refs) ≡ false) where
    -- A known run whose root is live is live as a whole.
    abbrev pub Closed : List Bytes → Type 0
    Closed live = (run : Run) → Known run → IsLive live (root_key run) → Covered run live

    -- A root that a round made live is the run's, or was live before.
    added-back :
        (run known : Run) (refs : List ObjectRef) (live : List Bytes)
        → Known run
        → Known known
        → RefersTo run refs
        → IsLive (added run refs live) (root_key known)
        → (known ≡ run) ⊎ IsLive live (root_key known)
    added-back run known refs live here there refers h =
        elim (keep_all-back _ (root_key known) _ h) [
          | inl spill ↦
              absurd (cc (spill, shard_paths-apart run spill_shard run.shards known.root.digest))
          | inr h1 ↦ elim (keep_all-back _ (root_key known) _ h1) [
            | inl address ↦
                absurd
                  (cc (address, shard_paths-apart run address_shard run.shards known.root.digest))
            | inr h2 ↦ elim (keep_all-back _ (root_key known) _ h2) [
              | inl object ↦ absurd (cc (object, no_root known run refs there here refers))
              | inr h3 ↦ elim (keep-back (root_key run) (root_key known) live h3) [
                | inl same ↦ inl (one_root known run there here same)
                | inr before ↦ inr before
              ]
            ]
          ]
        ]

    added-Closed :
        (run : Run) (refs : List ObjectRef) (live : List Bytes)
        → Known run
        → RefersTo run refs
        → Closed live
        → Closed (added run refs live)
    added-Closed run refs live here refers closed known there h =
        elim (added-back run known refs live here there refers h) [
          | inl same ↦
              subst (λ r. Covered r (added run refs live)) (sym same)
                (added-Covered run refs live refers)
          | inr before ↦
              Covered-Kept known live (added run refs live) (added-Kept run refs live)
                (closed known there before)
        ]

    -- What is live stays live, and every run is covered.
    pub record Reached (rest : List Run) (live live' : List Bytes) : Type 0 where
      pub kept : Kept live live'
      pub closed : Closed live'
      pub covered : (run : Run) → IsIn run rest → Covered run live'

    one_more-Reached :
        (run : Run) (rest : List Run) (live live1 live' : List Bytes)
        → Kept live live1
        → Covered run live1
        → Reached rest live1 live'
        → Reached (run ∷ rest) live live'
    one_more-Reached run rest live live1 live' k c r = record {
      kept = λ key h. r.kept key (k key h);
      closed = r.closed;
      covered = λ other among. elim among [
        | inl same ↦ subst (λ x. Covered x live') (sym same) (Covered-Kept run live1 live' r.kept c)
        | inr later ↦ r.covered other later
      ];
    }

    -- Over a set that is closed, the loop leaves a set that is closed and covers every run, also a run
    -- whose root was live when the loop came to it.
    pub reach_runs-Reached :
        (rest : List Run) (live live' : List Bytes)
        → ((run : Run) → IsIn run rest → Known run)
        → Closed live
        → reach_runs sha hex get_bounded rest live ≡ ok live'
        → Reached rest live live'
    unfolding reach_runs
    reach_runs-Reached [] live live' known closed e =
        let same : live ≡ live' = cc e in
        subst (λ l. Reached [] live l) same
          (record { kept = λ key h. h; closed = closed; covered = λ run among. absurd among })
    reach_runs-Reached (run ∷ rest) live live' known closed e =
        let (bytes, read, e1) = >>=-eq-ok (hex.decode run.root_bytes) _ e in
        let here = known run (inl refl) in
        elim (Bool-cases (has_key (root_key run) live)) [
          | inl there ↦
              one_more-Reached run rest live live live' (λ key h. h) (closed run here there)
                (reach_runs-Reached rest live live' (λ r i. known r (inr i)) closed
                  (rw there at e1))
          | inr away ↦
              let e2 = rw away at e1 in
              let (indexes, decoded, e3) =
                >>=-eq-ok
                  (decode_root sha (record { digest = run.root.digest; size = run.root.size })
                    bytes)
                  _ e2 in
              let (refs, walked, e4) =
                >>=-eq-ok (object_refs sha (fetch sha hex get_bounded) indexes) _ e3 in
              let refers : RefersTo run refs = record {
                bytes = bytes;
                indexes = indexes;
                read = read;
                decoded = decoded;
                walked = walked;
              } in
              one_more-Reached run rest live (added run refs live) live' (added-Kept run refs live)
                (added-Covered run refs live refers)
                (reach_runs-Reached rest (added run refs live) live' (λ r i. known r (inr i))
                  (added-Closed run refs live here refers closed) e4)
        ]
