-- ===== src/Compact/Write/Stored.antt =====
-- What a store answers after `put_all` of the objects of a run and of its finished summary.
use fossil.Base.{
  >>=-eq-ok, All, List, [], arith, get_elem?, ok, some, suc, sym, zero, ℕ, ◌++◌, ◌+◌, ◌∷◌, ◌≡◌,
}
use mathlib.Core.Path.{subst}
use fossil.Bytes.{Bytes}
use fossil.Codec.Page.{EncodedObject}
use fossil.Compact.Write.{Put, finish, finish_kind, object_puts, put_all}
use fossil.Extern.{Hex, Sha256, Zstd}
use fossil.Store.Immutable.{ImmutableStore}
use fossil.Summary.{ShardKind, SummaryBuilder, address_shard, encode_shard, flush, spill_shard}
use fossil.Summary.Path.{object_key, shard_path}

-- The filters of one kind.
abbrev pub filters : SummaryBuilder → ShardKind → List Bytes
filters b address_shard = b.address
filters b spill_shard = b.spill

module _ (sha : Sha256) (hex : Hex) (store : ImmutableStore) where
  -- The store answers under the key with the bytes.
  abbrev pub Holds : store.State → Bytes → Bytes → Type 0
  Holds s key bytes = store.get key s ≡ ok bytes

  abbrev pub HoldsPut : store.State → Put → Type 0
  HoldsPut s (key, bytes) = Holds s key bytes

  -- Each object under the key of its digest.
  abbrev pub HoldsObjects : store.State → List EncodedObject → Type 0
  HoldsObjects s objects = All (λ o. Holds s (object_key hex o.reference.digest) o.bytes) objects

  -- Each filter of a summary under the path where a reader of the run looks for it.
  abbrev pub HoldsSummary : store.State → Bytes → SummaryBuilder → Type 0
  HoldsSummary s run b =
      (kind : ShardKind) (index : ℕ) (bits : Bytes)
      → get_elem? (filters b kind) index ≡ some bits
      → Holds s (shard_path hex run b.shards kind index)
          (encode_shard sha run kind index b.shards bits)

  HoldsPut-each :
      (s : store.State) (p q : List Put)
      → All (HoldsPut s) (p ++ q)
      → All (HoldsPut s) p × All (HoldsPut s) q
  HoldsPut-each s [] q all = (tt, all)
  HoldsPut-each s (x ∷ p) q (one, all) = let (l, r) = HoldsPut-each s p q all in ((one, l), r)

  objects_held :
      (s : store.State) (objects : List EncodedObject)
      → All (HoldsPut s) (object_puts sha hex objects)
      → HoldsObjects s objects
  unfolding object_puts
  objects_held s [] all = tt
  objects_held s (o ∷ rest) (one, all) = (one, objects_held s rest all)

  kind_held :
      (s : store.State) (run : Bytes) (shards : ℕ) (kind : ShardKind) (base : ℕ)
      (all_bits : List Bytes) (index place : ℕ) (bits : Bytes)
      → All (HoldsPut s) (finish_kind sha hex run shards kind base all_bits)
      → get_elem? all_bits index ≡ some bits
      → base + index ≡ place
      → Holds s (shard_path hex run shards kind place) (encode_shard sha run kind place shards bits)
  unfolding finish_kind
  kind_held s run shards kind base [] index place bits all e at = absurd (cc e)
  kind_held s run shards kind base (b ∷ rest) zero place bits (one, all) e at =
      let same : b ≡ bits = cc e in
      let here : base ≡ place = omega (arith, at) in rw (sym same, sym here) one
  kind_held s run shards kind base (b ∷ rest) (suc index) place bits (one, all) e at =
      kind_held s run shards kind (base + 1) rest index place bits all e (omega (arith, at))

  summary_held :
      (s : store.State) (run : Bytes) (b : SummaryBuilder)
      → All (HoldsPut s) (finish sha hex b run)
      → HoldsSummary s run (flush sha b)
  unfolding finish
  summary_held s run b all address_shard index bits e =
      let last = flush sha b in
      let (front, back) =
        HoldsPut-each s (finish_kind sha hex run last.shards address_shard 0 last.address)
          (finish_kind sha hex run last.shards spill_shard 0 last.spill) all in
      kind_held s run last.shards address_shard 0 last.address index index bits front e
        (omega arith)
  summary_held s run b all spill_shard index bits e =
      let last = flush sha b in
      let (front, back) =
        HoldsPut-each s (finish_kind sha hex run last.shards address_shard 0 last.address)
          (finish_kind sha hex run last.shards spill_shard 0 last.spill) all in
      kind_held s run last.shards spill_shard 0 last.spill index index bits back e (omega arith)

  module _ (zstd : Zstd) where
    put_all-keeps :
        (puts : List Put) (s after : store.State) (key bytes : Bytes)
        → put_all sha hex zstd store puts s ≡ ok after
        → Holds s key bytes
        → Holds after key bytes
    unfolding put_all
    put_all-keeps [] s after key bytes e h =
        let same : s ≡ after = cc e in subst (λ t. Holds t key bytes) same h
    put_all-keeps ((k, b) ∷ rest) s after key bytes e h =
        let (s1, put, e1) = >>=-eq-ok (store.put k b s) _ e in
        put_all-keeps rest s1 after key bytes e1 (store.keeps k b key bytes s s1 put h)

    All-keeps :
        (puts more : List Put) (s after : store.State)
        → put_all sha hex zstd store more s ≡ ok after
        → All (HoldsPut s) puts
        → All (HoldsPut after) puts
    All-keeps [] more s after e all = tt
    All-keeps ((k, b) ∷ puts) more s after e (one, all) =
        (put_all-keeps more s after k b e one, All-keeps puts more s after e all)

    put_all-holds :
        (puts : List Put) (s after : store.State)
        → put_all sha hex zstd store puts s ≡ ok after
        → All (HoldsPut after) puts
    unfolding put_all
    put_all-holds [] s after e = tt
    put_all-holds ((k, b) ∷ rest) s after e =
        let (s1, put, e1) = >>=-eq-ok (store.put k b s) _ e in
        (
          put_all-keeps rest s1 after k b e1 (store.get_put k b s s1 put),
          put_all-holds rest s1 after e1,
        )

    -- After the puts of the objects and then of the finished summary the store holds both.
    pub puts-held :
        (objects : List EncodedObject) (b : SummaryBuilder) (run : Bytes) (s s1 after : store.State)
        → put_all sha hex zstd store (object_puts sha hex objects) s ≡ ok s1
        → put_all sha hex zstd store (finish sha hex b run) s1 ≡ ok after
        → HoldsObjects after objects × HoldsSummary after run (flush sha b)
    puts-held objects b run s s1 after e1 e2 = (
      objects_held after objects (
          All-keeps (object_puts sha hex objects) (finish sha hex b run) s1 after e2
            (put_all-holds (object_puts sha hex objects) s s1 e1)),
      summary_held after run b (put_all-holds (finish sha hex b run) s1 after e2),
    )
