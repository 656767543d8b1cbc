-- ===== src/Summary/Branches.antt =====
-- The branches of `add`: every member stays one, and the new key becomes one.
use fossil.Base.{Bool-cases, [], false, inl, inr, length, ltb, sym, true, ◌++◌, ◌∷◌, ◌≡◌}
use mathlib.Core.Path.{subst}
use fossil.Bytes.{Bytes}
use fossil.Extern.{Sha256}
use fossil.Summary.{
  SummaryBuilder, group, route, marker, insert_at, spill_all, add_digest, heavy_group,
}
use fossil.Summary.Shards.{
  AllGrow-refl, HasRoom-AllGrow, Among, Among-append, Among-front, Contained, insert_at-AllGrow,
  insert_at-Contained, shard_index-lt, spill_index-lt, spill_all-AllGrow, spill_all-Contained,
}
use fossil.Summary.Members.{address_of, spill_of, Keeps, IsReady, Member, Settled-AllGrow}

module _ (sha : Sha256) where
  -- The three branches of `add_digest`.
  module _ (b : SummaryBuilder) (key : Bytes) (r : IsReady sha b)
      (here : b.current ≡ group key) where
    heavy_branch :
        b.heavy ≡ true
        → let b' : SummaryBuilder = record b {
          spill = insert_at b.spill (spill_of sha key b.shards) (sha.digest key);
        } in
          Keeps sha b b' × Member sha b' key
    heavy_branch heavy =
        let g = insert_at-AllGrow b.spill (spill_of sha key b.shards) (sha.digest key) in
        (
          (
            record {
              some_shard = r.some_shard;
              address_room = r.address_room;
              spill_room = HasRoom-AllGrow _ _ b.shards g r.spill_room;
              marked = r.marked;
            },
            λ k m. elim m [
              | inl settled ↦ inl (
                  Settled-AllGrow sha b.address b.address b.spill _ b.shards k
                    (AllGrow-refl b.address) g settled)
              | inr (same, light, among) ↦ absurd (cc (heavy, light))
            ],
          ),
          inl (
              inr (
                subst (λ t. Contained b.address (address_of sha t b.shards) (sha.digest (marker t)))
                    here (r.marked heavy),
                insert_at-Contained b.spill b.shards (spill_of sha key b.shards) (sha.digest key)
                    r.spill_room (spill_index-lt sha (sha.digest key) b.shards r.some_shard),
              )),
        )

    light_branch :
        b.heavy ≡ false
        → let b' : SummaryBuilder = record b { pending = b.pending ++ sha.digest key ∷ [] } in
          Keeps sha b b' × Member sha b' key
    light_branch light = (
      (
        record {
          some_shard = r.some_shard;
          address_room = r.address_room;
          spill_room = r.spill_room;
          marked = r.marked;
        },
        λ k m. elim m [
          | inl settled ↦ inl settled
          | inr (same, l, among) ↦
              inr (same, l, Among-front (sha.digest k) (sha.digest key) b.pending among)
        ],
      ),
      inr (sym here, light, Among-append (sha.digest key) b.pending),
    )

    full_branch :
        b.heavy ≡ false
        → let pending = b.pending ++ sha.digest key ∷ [] in
          let b' : SummaryBuilder = record b {
            heavy = true;
            address =
                insert_at b.address
                  (address_of sha b.current b.shards)
                  (sha.digest (marker b.current));
            spill = spill_all sha b.spill b.shards pending;
            pending = [];
          } in
          Keeps sha b b' × Member sha b' key
    full_branch light =
        let pending = b.pending ++ sha.digest key ∷ [] in
        let g =
          insert_at-AllGrow b.address (address_of sha b.current b.shards)
            (sha.digest (marker b.current)) in
        let h = spill_all-AllGrow sha b.spill b.shards pending in
        let mark =
          insert_at-Contained b.address b.shards (address_of sha b.current b.shards)
            (sha.digest (marker b.current)) r.address_room
            (shard_index-lt sha (route b.current) b.shards r.some_shard) in
        let spilled = λ (k : Bytes) (a : Among (sha.digest k) pending).
          spill_all-Contained sha b.spill b.shards (sha.digest k) pending r.some_shard r.spill_room
            a in
        let marked_at = λ (name : Bytes) (e : b.current ≡ name).
          subst
            (λ t.
              Contained
                (insert_at b.address (address_of sha b.current b.shards)
                  (sha.digest (marker b.current)))
                (address_of sha t b.shards) (sha.digest (marker t)))
            e mark in
        (
          (
            record {
              some_shard = r.some_shard;
              address_room = HasRoom-AllGrow _ _ b.shards g r.address_room;
              spill_room = HasRoom-AllGrow _ _ b.shards h r.spill_room;
              marked = λ heavy. mark;
            },
            λ k m. elim m [
              | inl settled ↦ inl (Settled-AllGrow sha b.address _ b.spill _ b.shards k g h settled)
              | inr (same, l, among) ↦ inl (
                  inr (
                    marked_at (group k) (sym same),
                    spilled k (Among-front (sha.digest k) (sha.digest key) b.pending among),
                  ))
            ],
          ),
          inl (
              inr (
                marked_at (group key) here,
                spilled key (Among-append (sha.digest key) b.pending),
              )),
        )

    abbrev pub Kept : SummaryBuilder → Type 0
    Kept b' = Keeps sha b b' × Member sha b' key

    abbrev spilled_one : SummaryBuilder
    spilled_one = record b {
      spill = insert_at b.spill (spill_of sha key b.shards) (sha.digest key);
    }

    abbrev spilled_all : SummaryBuilder
    spilled_all = record b {
      heavy = true;
      address =
          insert_at b.address (address_of sha b.current b.shards) (sha.digest (marker b.current));
      spill = spill_all sha b.spill b.shards (b.pending ++ sha.digest key ∷ []);
      pending = [];
    }

    abbrev waiting : SummaryBuilder
    waiting = record b { pending = b.pending ++ sha.digest key ∷ [] }

    spills_one : b.heavy ≡ true → spilled_one ≡ add_digest sha b (sha.digest key)
    unfolding add_digest
    spills_one heavy = rw heavy

    spills_all :
        b.heavy ≡ false
        → ltb heavy_group (length (b.pending ++ sha.digest key ∷ [])) ≡ true
        → spilled_all ≡ add_digest sha b (sha.digest key)
    unfolding add_digest
    spills_all light full = rw (light, full)

    waits :
        b.heavy ≡ false
        → ltb heavy_group (length (b.pending ++ sha.digest key ∷ [])) ≡ false
        → waiting ≡ add_digest sha b (sha.digest key)
    unfolding add_digest
    waits light room = rw (light, room)

    pub add_digest-Keeps : Kept (add_digest sha b (sha.digest key))
    add_digest-Keeps = elim (Bool-cases b.heavy) [
      | inl heavy ↦ subst Kept (spills_one heavy) (heavy_branch heavy)
      | inr light ↦
          elim (Bool-cases (ltb heavy_group (length (b.pending ++ sha.digest key ∷ [])))) [
            | inl full ↦ subst Kept (spills_all light full) (full_branch light)
            | inr room ↦ subst Kept (waits light room) (light_branch light)
          ]
    ]
