-- ===== src/Codec/Builder/Accepted.antt =====
-- What a build that succeeds was given, and what it emitted.
use fossil.Base.{
  >>=-eq-ok, All, All-append, Gives, Gives-bail_if, Gives-bind, Gives-err, Gives-if, Gives-map,
  Gives-ok, List, Option, [], arith, false, get_last?, get_or, gives_at, leb, length, ltb, none, ok,
  refl, some, true, ◌++◌, ◌+◌, ◌==◌, ◌^◌, ◌||◌, ◌∷◌, ◌≡◌,
}
use mathlib.Core.Path.{subst}
use fossil.Bytes.{Bytes, Version, version_le, version_lt}
use fossil.Bytes.Order.{bytes_eq_refl}
use fossil.Extern.{Sha256, Zstd}
use fossil.Codec.{
  ObjectRef, Record, Fence, version_of, is_empty, partition, verify_object, put_ref, version,
  root_magic, internal_magic, index_magic, max_page_bytes, max_index_bytes,
}
use fossil.Codec.Data.{encode_record}
use fossil.Codec.Index.{index_size, encode_index}
use fossil.Codec.Page.{EncodedObject, make_object, encode_page, page_prefix}
use fossil.Codec.Builder.{
  Part, Build, fresh_part, start_build, bad_parent, counted, decode_first_record, emit_entries,
  emit_from, emit_leaf, append_leaf_fence, flush_page, make_room, not_after, add_record,
  add_records, finish_parts, slot_of, put_slots, build,
}

module _ (sha : Sha256) where
  -- The object's reference names its bytes.
  abbrev pub Named : EncodedObject → Type 0
  Named o = verify_object sha o.reference o.bytes ≡ ok tt

  make_object-Named : (bytes : Bytes) → Gives Named (make_object sha bytes)
  unfolding make_object verify_object
  make_object-Named bytes =
      Gives-if _ (ltb (length bytes) (2 ^ 32)) _ _
        (λ fits. Gives-ok _ _ (
          let size : (length bytes == length bytes) ≡ true = ground arith in
          rw (size, bytes_eq_refl (sha.digest bytes)) refl))
        (λ long. Gives-err _ _)

  -- All that was emitted is named.
  abbrev AllNamed : {A : Type 0} → A × List EncodedObject → Type 0
  AllNamed (a, emitted) = All Named emitted

  emit :
      (emitted : List EncodedObject) (object : EncodedObject)
      → All Named emitted
      → Named object
      → All Named (emitted ++ object ∷ [])
  emit emitted object all one = All-append Named emitted (object ∷ []) all (one, tt)

  emit_entries-Named :
      (first : Fence) (part : Part) (emitted : List EncodedObject)
      → All Named emitted
      → Gives AllNamed (emit_entries sha first part emitted)
  unfolding emit_entries
  emit_entries-Named first part emitted all =
      Gives-bind _ (encode_index part.leaves index_magic) _ (λ bytes e.
        Gives-bind _ (make_object sha bytes) _ (λ object e2.
          let entry : Fence = record {
            key = first.key;
            block = first.block;
            object = object.reference;
          } in
          Gives-bail_if _ (bad_parent (get_last? part.parents) entry) _ _ (λ ordered.
            Gives-bail_if _ (ltb max_index_bytes (index_size (part.parents ++ entry ∷ []))) _ _
              (λ fits.
                Gives-ok _ _ (
                  emit emitted object all
                    (gives_at Named _ object (make_object-Named bytes) e2))))))

  emit_from-Named :
      (leaves : List Fence) (part : Part) (emitted : List EncodedObject)
      → All Named emitted
      → Gives AllNamed (emit_from sha leaves part emitted)
  unfolding emit_from
  emit_from-Named [] part emitted all = Gives-ok _ _ all
  emit_from-Named (first ∷ rest) part emitted all = emit_entries-Named first part emitted all

  emit_leaf-Named :
      (part : Part) (emitted : List EncodedObject)
      → All Named emitted
      → Gives AllNamed (emit_leaf sha part emitted)
  unfolding emit_leaf
  emit_leaf-Named part emitted all = emit_from-Named part.leaves part emitted all

  append_leaf_fence-Named :
      (fence : Fence) (part : Part) (emitted : List EncodedObject)
      → All Named emitted
      → Gives AllNamed (append_leaf_fence sha fence part emitted)
  unfolding append_leaf_fence
  append_leaf_fence-Named fence part emitted all =
      Gives-if _ (leb (index_size (part.leaves ++ fence ∷ [])) max_index_bytes) _ _
        (λ fits. Gives-ok _ _ all)
        (λ full. Gives-bail_if _ (is_empty part.leaves) _ _ (λ some_leaf.
          Gives-bind _ (emit_leaf sha part emitted) _ (λ (part', emitted') e.
            Gives-bail_if _ (ltb max_index_bytes (index_size (part'.leaves ++ fence ∷ []))) _ _
              (λ fits.
                Gives-ok _ _
                  (gives_at AllNamed _ (part', emitted') (emit_leaf-Named part emitted all) e)))))

  module _ (zstd : Zstd) where
    encode_page-Named : (payload : Bytes) → Gives Named (encode_page sha zstd payload)
    unfolding encode_page
    encode_page-Named payload = Gives-bind _ (zstd.encode payload) _ (λ packed e.
        let bytes = page_prefix (length payload) (length packed) ++ packed in
        Gives-bail_if _ (ltb max_page_bytes (length payload) || ltb max_page_bytes (length bytes)) _
          _ (λ fits. make_object-Named bytes))

    flush_page-Named :
        (part : Part) (emitted : List EncodedObject)
        → All Named emitted
        → Gives AllNamed (flush_page sha zstd part emitted)
    unfolding flush_page
    flush_page-Named part emitted all =
        Gives-if _ (part.count == 0) _ _ (λ nothing. Gives-ok _ _ all)
          (λ there.
            let page = counted part.page part.count in
            Gives-bind _ (decode_first_record sha page) _ (λ first e.
              Gives-bind _ (encode_page sha zstd page) _ (λ object e2.
                let fence : Fence = record {
                  key = first.key;
                  block = first.block;
                  object = object.reference;
                } in
                let one = gives_at Named _ object (encode_page-Named page) e2 in
                Gives-bind _ (append_leaf_fence sha fence part (emitted ++ object ∷ [])) _
                  (λ (part', emitted') e3. Gives-ok _ _ (
                    gives_at AllNamed _ (part', emitted')
                      (append_leaf_fence-Named fence part (emitted ++ object ∷ [])
                        (emit emitted object all one))
                      e3)))))

    make_room-Named :
        (encoded : Bytes) (part : Part) (emitted : List EncodedObject)
        → All Named emitted
        → Gives AllNamed (make_room sha zstd encoded part emitted)
    unfolding make_room
    make_room-Named encoded part emitted all =
        Gives-if _ (ltb max_page_bytes (length part.page + length encoded)) _ _
          (λ full. Gives-bail_if _ (part.count == 0) _ _ (λ there.
            Gives-bind _ (flush_page sha zstd part emitted) _ (λ (part', emitted') e.
              Gives-bail_if _ (ltb max_page_bytes (length part'.page + length encoded)) _ _ (λ fits.
                Gives-ok _ _
                  (gives_at AllNamed _ (part', emitted') (flush_page-Named part emitted all) e)))))
          (λ room. Gives-ok _ _ all)

    -- A record comes after the version before it.
    abbrev pub Follows : Option Version → Record → Type 0
    Follows none r = Unit
    Follows (some prior) r = version_lt prior (version_of r) ≡ true

    Follows-of :
        (prior : Option Version) (r : Record)
        → not_after sha zstd prior (version_of r) ≡ false
        → Follows prior r
    unfolding not_after version_le
    Follows-of none r h = tt
    Follows-of (some prior) r h = ground arith

    -- A record that is added has a key, and comes after the record before it.
    abbrev Added : Option Version → Record → Build → Type 0
    Added prior r b =
        (is_empty r.key ≡ false)
        × Follows prior r
        × (b.previous ≡ some (version_of r))
        × All Named b.emitted

    add_record-Added :
        (b : Build) (r : Record)
        → All Named b.emitted
        → Gives (Added b.previous r) (add_record sha zstd b r)
    unfolding add_record
    add_record-Added b r all = Gives-bail_if _ (is_empty r.key) _ _ (λ some_key.
        Gives-bail_if _ (not_after sha zstd b.previous (version_of r)) _ _ (λ later.
          Gives-bail_if _ (ltb max_page_bytes (length r.key + length r.value + (16 + 9))) _ _
            (λ small. Gives-bind _ (encode_record r) _ (λ encoded e.
              let part = get_or b.parts (partition sha r.key) fresh_part in
              Gives-bind _ (make_room sha zstd encoded part b.emitted) _ (λ (part', emitted') e2.
                Gives-ok _ _ (
                  some_key,
                  Follows-of b.previous r later,
                  refl,
                  gives_at AllNamed _ (part', emitted') (make_room-Named encoded part b.emitted all)
                      e2,
                ))))))

    -- The records with keys, each after the one before it.
    abbrev pub Sorted : Option Version → List Record → Type 0
    Sorted prior [] = Unit
    Sorted prior (r ∷ rest) =
        (is_empty r.key ≡ false) × Follows prior r × Sorted (some (version_of r)) rest

    add_records-Sorted :
        (records : List Record) (b : Build) (prior : Option Version)
        → b.previous ≡ prior
        → All Named b.emitted
        → Gives
            (λ last. Sorted prior records × All Named last.emitted)
            (add_records sha zstd b records)
    unfolding add_records
    add_records-Sorted [] b prior p all = Gives-ok _ _ (tt, all)
    add_records-Sorted (r ∷ rest) b prior p all =
        Gives-bind _ (add_record sha zstd b r) _ (λ next e.
          let (some_key, later, same, all') =
            gives_at (Added b.previous r) _ next (add_record-Added b r all) e in
          Gives-map (λ last. Sorted (some (version_of r)) rest × All Named last.emitted)
            (λ last. Sorted prior (r ∷ rest) × All Named last.emitted) _
            (λ last (sorted, named). ((some_key, subst (λ v. Follows v r) p later, sorted), named))
            (add_records-Sorted rest next (some (version_of r)) same all'))

    finish_parts-Named :
        (parts : List Part) (emitted : List EncodedObject)
        → All Named emitted
        → Gives AllNamed (finish_parts sha zstd parts emitted)
    unfolding finish_parts
    finish_parts-Named [] emitted all = Gives-ok _ _ all
    finish_parts-Named (part ∷ rest) emitted all =
        Gives-bind _ (flush_page sha zstd part emitted) _ (λ (flushed, emitted1) e.
          Gives-bind _ (emit_leaf sha flushed emitted1) _ (λ (closed, emitted2) e2.
            let all1 =
              gives_at AllNamed _ (flushed, emitted1) (flush_page-Named part emitted all) e in
            let all2 =
              gives_at AllNamed _ (closed, emitted2) (emit_leaf-Named flushed emitted1 all1) e2 in
            Gives-bind _ (finish_parts sha zstd rest emitted2) _ (λ (others, emitted3) e3.
              Gives-ok _ _ (
                gives_at AllNamed _ (others, emitted3) (finish_parts-Named rest emitted2 all2)
                  e3))))

    slot_of-Named :
        (entries : List Fence) (emitted : List EncodedObject)
        → All Named emitted
        → Gives AllNamed (slot_of sha zstd entries emitted)
    unfolding slot_of
    slot_of-Named [] emitted all = Gives-ok _ _ all
    slot_of-Named (only ∷ []) emitted all = Gives-ok _ _ all
    slot_of-Named (first ∷ second ∷ rest) emitted all =
        Gives-bind _ (encode_index (first ∷ second ∷ rest) internal_magic) _ (λ bytes e.
          Gives-bind _ (make_object sha bytes) _ (λ object e2.
            Gives-ok _ _
              (emit emitted object all (gives_at Named _ object (make_object-Named bytes) e2))))

    put_slots-Named :
        (root : Bytes) (entries : List (List Fence)) (emitted : List EncodedObject)
        → All Named emitted
        → Gives AllNamed (put_slots sha zstd root entries emitted)
    unfolding put_slots
    put_slots-Named root [] emitted all = Gives-ok _ _ all
    put_slots-Named root (first ∷ rest) emitted all =
        Gives-bind _ (slot_of sha zstd first emitted) _ (λ (slot, emitted') e.
          put_slots-Named (root ++ put_ref slot) rest emitted'
            (gives_at AllNamed _ (slot, emitted') (slot_of-Named first emitted all) e))

    -- The root is the last object.
    abbrev pub EndsWith : ObjectRef → List EncodedObject → Type 0
    EndsWith reference objects =
        (object : EncodedObject) × (get_last? objects ≡ some object)
        × (object.reference ≡ reference)

    get_last?-emit :
        (objects : List EncodedObject) (o : EncodedObject) → get_last? (objects ++ o ∷ []) ≡ some o
    get_last?-emit [] o = refl
    get_last?-emit (a ∷ []) o = refl
    get_last?-emit (a ∷ b ∷ rest) o = get_last?-emit (b ∷ rest) o

    -- A build that succeeds was given records with keys, in strictly ascending order; each object that
    -- it emitted has the digest and the length of its reference, and the root is the last of them.
    pub build-Sorted :
        (records : List Record) (reference : ObjectRef) (objects : List EncodedObject)
        → build sha zstd records ≡ ok (reference, objects)
        → Sorted none records × All Named objects × EndsWith reference objects
    unfolding build start_build
    build-Sorted records reference objects e =
        let (b, e1, h1) = >>=-eq-ok (add_records sha zstd start_build records) _ e in
        let ((parents, emitted), e2, h2) =
          >>=-eq-ok (finish_parts sha zstd b.parts b.emitted) _ h1 in
        let ((bytes, emitted'), e3, h3) =
          >>=-eq-ok (put_slots sha zstd (root_magic ++ version ∷ []) parents emitted) _ h2 in
        let (root, e4, h4) = >>=-eq-ok (make_object sha bytes) _ h3 in
        let (sorted, all) =
          gives_at (λ last. Sorted none records × All Named last.emitted) _ b
            (add_records-Sorted records start_build none refl tt) e1 in
        let all2 =
          gives_at AllNamed _ (parents, emitted) (finish_parts-Named b.parts b.emitted all) e2 in
        let all3 =
          gives_at AllNamed _ (bytes, emitted')
            (put_slots-Named (root_magic ++ version ∷ []) parents emitted all2) e3 in
        let one = gives_at Named _ root (make_object-Named bytes) e4 in
        let same : (root.reference, emitted' ++ root ∷ []) ≡ (reference, objects) = cc h4 in
        subst
          (λ (p : ObjectRef × List EncodedObject).
            Sorted none records × All Named p.1 × EndsWith p.0 p.1)
          same (sorted, emit emitted' root all3 one, (root, get_last?-emit emitted' root, refl))
