-- ===== src/Summary/Members.antt =====
-- The builder: every key that was added is found by the reader's probe, whatever follows it.
use fossil.Base.{
  Bool-cases, List, [], arith, false, inl, inr, length, not, refl, sym, true, ℕ, ◌&&◌, ◌<◌, ◌==◌,
  ◌∷◌, ◌≡◌, ◌⊎◌,
}
use mathlib.Core.Path.{subst}
use fossil.Bytes.{Bytes, bytes_eq}
use fossil.Bytes.Order.{eq_of_bytes_eq}
use fossil.Extern.{Sha256}
use fossil.Summary.{
  SummaryBuilder, group, route, marker, shard_index, spill_index, flush, enter_group,
}
use fossil.Summary.Shards.{
  AllGrow, AllGrow-refl, HasRoom, HasRoom-AllGrow, Among, Contained, Contained-AllGrow,
  insert_all-AllGrow, insert_all-Contained, shard_index-lt,
}

module _ (sha : Sha256) where
  abbrev pub address_of : Bytes → ℕ → ℕ
  address_of name n = shard_index sha (route name) n

  abbrev pub spill_of : Bytes → ℕ → ℕ
  spill_of key n = spill_index sha (sha.digest key) n

  -- The probe of the key succeeds on these filters.
  abbrev pub Settled : List Bytes → List Bytes → ℕ → Bytes → Type 0
  Settled address spill n key =
      Contained address (address_of (group key) n) (sha.digest key)
      ⊎ (Contained address (address_of (group key) n) (sha.digest (marker (group key)))
          × Contained spill (spill_of key n) (sha.digest key))

  pub Settled-AllGrow :
      (a a' s s' : List Bytes) (n : ℕ) (key : Bytes)
      → AllGrow a a'
      → AllGrow s s'
      → Settled a s n key
      → Settled a' s' n key
  Settled-AllGrow a a' s s' n key g h (inl c) = inl (Contained-AllGrow a a' _ _ g c)
  Settled-AllGrow a a' s s' n key g h (inr (m, c)) =
      inr (Contained-AllGrow a a' _ _ g m, Contained-AllGrow s s' _ _ h c)

  -- What holds of the builder between its operations.
  pub record IsReady (b : SummaryBuilder) : Type 0 where
    pub some_shard : 0 < b.shards
    pub address_room : HasRoom b.address b.shards
    pub spill_room : HasRoom b.spill b.shards
    pub marked :
        b.heavy ≡ true
        → Contained b.address (address_of b.current b.shards) (sha.digest (marker b.current))

  -- A key that was added is settled, or waits with its group.
  abbrev pub Member : SummaryBuilder → Bytes → Type 0
  Member b key =
      Settled b.address b.spill b.shards key
      ⊎ ((group key ≡ b.current) × (b.heavy ≡ false) × Among (sha.digest key) b.pending)

  -- What `flush` does to the address filters, in its two cases.
  record Flushed (b : SummaryBuilder) : Type 0 where
    same_shards : (flush sha b).shards ≡ b.shards
    same_spill : (flush sha b).spill ≡ b.spill
    same_current : (flush sha b).current ≡ b.current
    light : (flush sha b).heavy ≡ false
    grown : AllGrow b.address (flush sha b).address
    placed :
        (digest : Bytes)
        → b.heavy ≡ false
        → Among digest b.pending
        → Contained (flush sha b).address (address_of b.current b.shards) digest

  some_pending : (digest : Bytes) (ds : List Bytes) → Among digest ds → (length ds == 0) ≡ false
  some_pending digest [] among = absurd among
  some_pending digest (d ∷ ds) among = ground arith

  flush-Flushed : (b : SummaryBuilder) → IsReady b → Flushed b
  unfolding flush
  flush-Flushed b r = elim (Bool-cases (not b.heavy && not (length b.pending == 0))) [
    | inl goes ↦ record {
      same_shards = refl;
      same_spill = refl;
      same_current = refl;
      light = refl;
      grown = rw goes (insert_all-AllGrow b.address (address_of b.current b.shards) b.pending);
      placed = λ digest light among. rw goes (
          insert_all-Contained b.address b.shards (address_of b.current b.shards) digest b.pending
            r.address_room (shard_index-lt sha (route b.current) b.shards r.some_shard) among);
    }
    | inr stays ↦ record {
      same_shards = refl;
      same_spill = refl;
      same_current = refl;
      light = refl;
      grown = rw stays (AllGrow-refl b.address);
      placed = λ digest light among.
          absurd (ground (arith, stays, light, some_pending digest b.pending among));
    }
  ]

  -- After an operation the builder is ready, and the members are still there.
  abbrev pub Keeps : SummaryBuilder → SummaryBuilder → Type 0
  Keeps b b' = IsReady b' × ((key : Bytes) → Member b key → Member b' key)

  pub flush-Settled :
      (b : SummaryBuilder) (key : Bytes)
      → IsReady b
      → Member b key
      → Settled (flush sha b).address (flush sha b).spill b.shards key
  flush-Settled b key r (inl settled) =
      let f = flush-Flushed b r in
      Settled-AllGrow b.address (flush sha b).address b.spill (flush sha b).spill b.shards key
        f.grown (subst (AllGrow b.spill) (sym f.same_spill) (AllGrow-refl b.spill)) settled
  flush-Settled b key r (inr (same, light, among)) =
      let f = flush-Flushed b r in
      inl (
        subst (λ t. Contained (flush sha b).address (address_of t b.shards) (sha.digest key))
          (sym same) (f.placed (sha.digest key) light among))

  flush-Keeps :
      (b : SummaryBuilder) (name : Bytes)
      → IsReady b
      → Keeps b (record (flush sha b) { current = name })
  unfolding flush
  flush-Keeps b name r =
      let f = flush-Flushed b r in
      (
        record {
          some_shard = r.some_shard;
          address_room =
              HasRoom-AllGrow b.address (flush sha b).address b.shards f.grown r.address_room;
          spill_room = subst (λ t. HasRoom t b.shards) (sym f.same_spill) r.spill_room;
          marked = λ heavy. absurd (cc (heavy, f.light));
        },
        λ key member. inl (flush-Settled b key r member),
      )

  pub enter_group-Keeps :
      (b : SummaryBuilder) (key : Bytes)
      → IsReady b
      → Keeps b (enter_group sha b key) × ((enter_group sha b key).current ≡ group key)
  unfolding enter_group
  enter_group-Keeps b key r = elim (Bool-cases (bytes_eq (group key) b.current)) [
    | inl same ↦ rw same ((r, λ k m. m), sym (eq_of_bytes_eq (group key) b.current same))
    | inr other ↦ rw other (flush-Keeps b (group key) r, refl)
  ]
