-- ===== src/Summary/Probe.antt =====
-- The reader's probe of the builder's shards finds every key that was added.
use fossil.Base.{
  All, Bool-cases, List, Result, [], get_or, inl, inr, ok, sym, true, ℕ, ◌+◌, ◌∷◌, ◌≡◌,
}
use mathlib.Core.Path.{subst}
use fossil.Bytes.{Bytes}
use fossil.Extern.{Sha256}
use fossil.Summary.{
  SummaryBuilder, ShardKind, address_shard, spill_shard, group, contains, shard_contains, flush,
  enter_group, add, add_all, may_contain,
}
use fossil.Summary.Shards.{Among}
use fossil.Summary.Members.{
  address_of, Keeps, IsReady, Member, Settled, flush-Settled, enter_group-Keeps,
}
use fossil.Summary.Branches.{add_digest-Keeps}

module _ (sha : Sha256) where
  add-Keeps :
      (b : SummaryBuilder) (key : Bytes)
      → IsReady sha b
      → Keeps sha b (add sha b key) × Member sha (add sha b key) key
  unfolding add
  add-Keeps b key r =
      let counted : SummaryBuilder = record b { keys = b.keys + 1 } in
      let r' : IsReady sha counted = record {
        some_shard = r.some_shard;
        address_room = r.address_room;
        spill_room = r.spill_room;
        marked = r.marked;
      } in
      let ((ready, moved), here) = enter_group-Keeps sha counted key r' in
      let ((ready', kept), member) =
        add_digest-Keeps sha (enter_group sha counted key) key ready here in
      ((ready', λ k m. kept k (moved k m)), member)

  -- The keys of the list are members.
  abbrev pub Members : SummaryBuilder → List Bytes → Type 0
  Members b keys = All (Member sha b) keys

  Members-Keeps :
      (b b' : SummaryBuilder) (keys : List Bytes)
      → Keeps sha b b'
      → Members b keys
      → Members b' keys
  Members-Keeps b b' [] k m = tt
  Members-Keeps b b' (key ∷ keys) k (m, ms) = (k.1 key m, Members-Keeps b b' keys k ms)

  add_all-Keeps :
      (b : SummaryBuilder) (keys : List Bytes)
      → IsReady sha b
      → Keeps sha b (add_all sha b keys) × Members (add_all sha b keys) keys
  unfolding add_all
  add_all-Keeps b [] r = ((r, λ k m. m), tt)
  add_all-Keeps b (key ∷ keys) r =
      let ((r', k), m) = add-Keeps b key r in
      let ((r'', k'), ms) = add_all-Keeps (add sha b key) keys r' in
      ((r'', λ key' m'. k' key' (k key' m')), (k' key m, ms))

  -- The shards of the builder, as the reader fetches them.
  unfoldable pub served : SummaryBuilder → ShardKind → ℕ → Result Bytes
  served b address_shard index = ok (get_or b.address index [])
  served b spill_shard index = ok (get_or b.spill index [])

  Settled-probe :
      (b : SummaryBuilder) (key : Bytes)
      → Settled sha b.address b.spill b.shards key
      → may_contain sha (served b) b.shards key ≡ ok true
  unfolding may_contain served shard_contains
  Settled-probe b key (inl found) = rw (found)
  Settled-probe b key (inr (mark, found)) =
      elim (Bool-cases
        (contains (get_or b.address (address_of sha (group key) b.shards) []) (sha.digest key))) [
          | inl direct ↦ rw direct
          | inr other ↦ rw (other, mark, found)
        ]

  Members-at :
      (b : SummaryBuilder) (key : Bytes) (keys : List Bytes)
      → Among key keys
      → Members b keys
      → Member sha b key
  Members-at b key [] among m = absurd among
  Members-at b key (k ∷ keys) (inl e) (m, ms) = subst (Member sha b) (sym e) m
  Members-at b key (k ∷ keys) (inr among) (m, ms) = Members-at b key keys among ms

  -- Whatever keys are added to a ready builder, in whatever order, the probe of each answers that
  -- the run may contain it, once the last group is flushed.
  pub may_contain-add_all :
      (b : SummaryBuilder) (keys : List Bytes) (key : Bytes)
      → IsReady sha b
      → Among key keys
      → may_contain sha
          (served (flush sha (add_all sha b keys)))
          (flush sha (add_all sha b keys)).shards
          key
        ≡ ok true
  may_contain-add_all b keys key r among =
      let built = add_all sha b keys in
      let ((ready, k), ms) = add_all-Keeps b keys r in
      let settled = flush-Settled sha built key ready (Members-at built key keys among ms) in
      Settled-probe (flush sha built) key (unfold flush in settled)
