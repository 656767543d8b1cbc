-- ===== src/Codec/Scanner/Failed.antt =====
-- What a scanner answers: least records, an end of its loop, and nothing more after an error.
use fossil.Base.{
  >>=-cong, All, Bool-cases, Error, Gives, Gives-bail_if, Gives-bind, Gives-err, Gives-ok, List,
  Option, Result, [], ap, arith, err, failed_scanner, false, get_elem?, gives_at, head?,
  if◌then◌else◌, inl, inr, none, not, ok, refl, some, suc, sym, true, zero, ℕ, ◌>>=◌, ◌∙◌, ◌∷◌, ◌≡◌,
}
use mathlib.Core.Path.{subst}
use fossil.Bytes.{Version, version_lt, Bytes}
use fossil.Bytes.Order.{version_lt_trans, version_lt_total, version_lt_irrefl, version_lt_asym}
use fossil.Extern.{Sha256, Zstd}
use fossil.Codec.{
  is_empty, ObjectRef, Record, Fence, version_of, fence_version, bad_ref, max_page_bytes,
}
use fossil.Codec.Page.{decode_data_page}
use fossil.Codec.Lookup.{misses_record}
use fossil.Codec.Scanner.{
  answer, after_leaf, least_with, PartitionCursor, RunScanner, not_before, load_page, next_leaf,
  ready_loop, ready_all, lesser, least, next_of, next, nexts,
}

module _ (sha : Sha256) (zstd : Zstd) (fetch : ObjectRef → Result Bytes) where
  next_marked : (s : RunScanner) → s.failed ≡ true → next sha zstd fetch s ≡ (err failed_scanner, s)
  unfolding next
  next_marked s h =
      ap
        (λ t.
          if t
          then (err failed_scanner, s)
          else answer sha zstd fetch s (ready_all sha zstd fetch 0 s.cursors))
        h

  next_unmarked :
      (s : RunScanner)
      → s.failed ≡ false
      → next sha zstd fetch s ≡ answer sha zstd fetch s (ready_all sha zstd fetch 0 s.cursors)
  unfolding next
  next_unmarked s h =
      ap
        (λ t.
          if t
          then (err failed_scanner, s)
          else answer sha zstd fetch s (ready_all sha zstd fetch 0 s.cursors))
        h

  stays_failed :
      (count : ℕ) (s : RunScanner)
      → s.failed ≡ true
      → nexts sha zstd fetch count s ≡ (err failed_scanner, s)
  unfolding nexts
  stays_failed zero s h = next_marked s h
  stays_failed (suc count) s h =
      ap (λ p. nexts sha zstd fetch count p.1) (next_marked s h) ∙ stays_failed count s h

  answer_marks :
      (s : RunScanner) (cursors : Result (List PartitionCursor)) (why : Error)
      → (answer sha zstd fetch s cursors).0 ≡ err why
      → (answer sha zstd fetch s cursors).1.failed ≡ true
  unfolding answer
  answer_marks s (err other) why h = refl
  answer_marks s (ok cursors) why h = absurd (cc h)

  marked :
      (s : RunScanner) (why : Error)
      → (next sha zstd fetch s).0 ≡ err why
      → (next sha zstd fetch s).1.failed ≡ true
  marked s why h = elim (Bool-cases s.failed) [
    | inl failed ↦ ap (λ p. p.1.failed) (next_marked s failed) ∙ failed
    | inr going ↦
        let same = next_unmarked s going in
        ap (λ p. p.1.failed) same
        ∙ answer_marks s (ready_all sha zstd fetch 0 s.cursors) why (sym (ap (λ p. p.0) same) ∙ h)
  ]

  -- After an error every later call of the scanner fails, and changes nothing.
  pub next-failed :
      (s : RunScanner) (why : Error) (count : ℕ)
      → (next sha zstd fetch s).0 ≡ err why
      → nexts sha zstd fetch count (next sha zstd fetch s).1
        ≡ (err failed_scanner, (next sha zstd fetch s).1)
  next-failed s why count h = stays_failed count (next sha zstd fetch s).1 (marked s why h)

  -- A page stands ready.
  abbrev pub Loaded : PartitionCursor → Type 0
  Loaded c = (r : Record) × (rest : List Record) × (c.page ≡ r ∷ rest)

  records_there :
      (records : List Record) (v : Version)
      → misses_record records v ≡ false
      → (r : Record) × (rest : List Record) × (records ≡ r ∷ rest)
  unfolding misses_record
  records_there [] v h = absurd (cc h)
  records_there (r ∷ rest) v h = (r, rest, refl)

  load_page-Loaded :
      (shard : ℕ) (o : Option Fence) (c : PartitionCursor)
      → Gives Loaded (load_page sha zstd fetch shard o c)
  unfolding load_page
  load_page-Loaded shard none c = Gives-err _ _
  load_page-Loaded shard (some fence) c =
      let start = fence_version fence in
      Gives-bail_if _ (not_before c.previous_fence start) _ _ (λ ordered.
        Gives-bail_if _ (bad_ref max_page_bytes fence.object) _ _ (λ sane.
          Gives-bind _ (fetch fence.object) _ (λ bytes got.
            Gives-bind _ (decode_data_page sha zstd fence.object bytes shard) _ (λ records decoded.
              Gives-bail_if _ (misses_record records start) _ _ (λ begins.
                Gives-bail_if _ (not_before c.previous start) _ _
                  (λ later. Gives-ok _ _ (records_there records start begins)))))))

  full : (c : PartitionCursor) → Loaded c → is_empty c.page ≡ false
  unfolding is_empty
  full c (r, rest, e) = ap is_empty e

  again_alike :
      (again other : PartitionCursor → Result PartitionCursor) (shard : ℕ) (c : PartitionCursor)
      (found : Option PartitionCursor)
      → ((loaded : PartitionCursor) → Loaded loaded → again loaded ≡ other loaded)
      → after_leaf sha zstd fetch again shard c found
        ≡ after_leaf sha zstd fetch other shard c found
  unfolding after_leaf
  again_alike again other shard c none h = refl
  again_alike again other shard c (some found) h =
      let o = get_elem? found.leaf found.fence_pos in
      >>=-cong (load_page sha zstd fetch shard o found) again other
        (λ loaded e. h loaded (gives_at Loaded _ loaded (load_page-Loaded shard o found) e))

  second_round :
      (fuel shard : ℕ) (c : PartitionCursor)
      → Loaded c
      → ready_loop sha zstd fetch (suc fuel) shard c ≡ ok c
  unfolding ready_loop
  second_round fuel shard c loaded = rw (full c loaded) refl

  more_rounds :
      (more shard : ℕ) (c : PartitionCursor)
      → ready_loop sha zstd fetch (suc (suc more)) shard c ≡ ready_loop sha zstd fetch 2 shard c
  unfolding ready_loop
  more_rounds more shard c =
      ap (λ (k : Result PartitionCursor). if not (is_empty c.page) then ok c else k)
        (>>=-cong (next_leaf sha zstd fetch shard c) _ _ (λ found e.
          again_alike (ready_loop sha zstd fetch (suc more) shard)
            (ready_loop sha zstd fetch 1 shard) shard c found
            (λ loaded l. second_round more shard loaded l ∙ sym (second_round 0 shard loaded l))))

  -- How the loop ends: with a page, with the cursor at its end, or with the error of a leaf or of a
  -- page that could not be read.
  pub data Ends (shard : ℕ) (c : PartitionCursor) (r : Result PartitionCursor) : Type 0 where
    full_already : Loaded c → r ≡ ok c → Ends shard c r
    at_end :
        c.page ≡ []
        → next_leaf sha zstd fetch shard c ≡ ok none
        → r ≡ ok (record c { leaf = []; fence_pos = 0 })
        → Ends shard c r
    no_leaf :
        (why : Error)
        → c.page ≡ []
        → next_leaf sha zstd fetch shard c ≡ err why
        → r ≡ err why
        → Ends shard c r
    filled :
        (found loaded : PartitionCursor)
        → c.page ≡ []
        → next_leaf sha zstd fetch shard c ≡ ok (some found)
        → load_page sha zstd fetch shard (get_elem? found.leaf found.fence_pos) found ≡ ok loaded
        → Loaded loaded
        → r ≡ ok loaded
        → Ends shard c r
    no_page :
        (found : PartitionCursor) (why : Error)
        → c.page ≡ []
        → next_leaf sha zstd fetch shard c ≡ ok (some found)
        → load_page sha zstd fetch shard (get_elem? found.leaf found.fence_pos) found ≡ err why
        → r ≡ err why
        → Ends shard c r

  page-Ends :
      (shard : ℕ) (c found : PartitionCursor) (page : Result PartitionCursor)
      → c.page ≡ []
      → next_leaf sha zstd fetch shard c ≡ ok (some found)
      → load_page sha zstd fetch shard (get_elem? found.leaf found.fence_pos) found ≡ page
      → Ends shard c (page >>= ready_loop sha zstd fetch 1 shard)
  page-Ends shard c found (err why) used leaf e = no_page found why used leaf e refl
  page-Ends shard c found (ok loaded) used leaf e =
      let here =
        gives_at Loaded _ loaded
          (load_page-Loaded shard (get_elem? found.leaf found.fence_pos) found) e in
      filled found loaded used leaf e here (second_round 0 shard loaded here)

  leaf-Ends :
      (shard : ℕ) (c : PartitionCursor) (leaf : Result (Option PartitionCursor))
      → c.page ≡ []
      → next_leaf sha zstd fetch shard c ≡ leaf
      → Ends shard c
          (leaf >>= after_leaf sha zstd fetch (ready_loop sha zstd fetch 1 shard) shard c)
  unfolding after_leaf
  leaf-Ends shard c (err why) used e = no_leaf why used e refl
  leaf-Ends shard c (ok none) used e = at_end used e refl
  leaf-Ends shard c (ok (some found)) used e = page-Ends shard c found _ used e refl

  two_rounds-Ends :
      (shard : ℕ) (c : PartitionCursor) (page : List Record)
      → c.page ≡ page
      → Ends shard c (ready_loop sha zstd fetch 2 shard c)
  unfolding ready_loop is_empty
  two_rounds-Ends shard c [] e =
      subst (λ r. Ends shard c r) (rw e refl)
        (leaf-Ends shard c (next_leaf sha zstd fetch shard c) e refl)
  two_rounds-Ends shard c (r ∷ rest) e = full_already (r, rest, e) (rw e refl)

  -- The loop in `ready` ends within two rounds, whatever fuel for more it has: with the page that was
  -- there, with the next page, with the cursor at its end, or with the error of the leaf or the page
  -- that it reads, and never for its fuel.
  pub ready_loop-Ends :
      (more shard : ℕ) (c : PartitionCursor)
      → Ends shard c (ready_loop sha zstd fetch (suc (suc more)) shard c)
  ready_loop-Ends more shard c =
      subst (λ r. Ends shard c r) (sym (more_rounds more shard c))
        (two_rounds-Ends shard c c.page refl)

  -- No record in front of a cursor is less.
  abbrev pub NotBelow : Record → PartitionCursor → Type 0
  NotBelow r c =
      (q : Record) → head? c.page ≡ some q → version_lt (version_of q) (version_of r) ≡ false

  below_trans :
      (q r p : Version) → version_lt p q ≡ false → version_lt q r ≡ false → version_lt p r ≡ false
  below_trans q r p h k =
      ground (arith, version_lt_trans p r q, version_lt_total q r, version_lt_total p q)

  Least : Option (ℕ × Record) → List PartitionCursor → Type 0
  Least none cursors = All (λ c. c.page ≡ []) cursors
  Least (some (k, r)) cursors = All (NotBelow r) cursors

  empty-NotBelow :
      (r : Record) (cursors : List PartitionCursor)
      → All (λ c. c.page ≡ []) cursors
      → All (NotBelow r) cursors
  empty-NotBelow r [] all = tt
  empty-NotBelow r (c ∷ cursors) (e, all) =
      ((λ q h. absurd (cc (h, e))), empty-NotBelow r cursors all)

  NotBelow-lower :
      (r p : Record) (cursors : List PartitionCursor)
      → version_lt (version_of p) (version_of r) ≡ false
      → All (NotBelow p) cursors
      → All (NotBelow r) cursors
  NotBelow-lower r p [] h all = tt
  NotBelow-lower r p (c ∷ cursors) h (one, all) = (
    (λ q e. below_trans (version_of p) (version_of r) (version_of q) (one q e) h),
    NotBelow-lower r p cursors h all,
  )

  own_front :
      (r : Record) (rest : List Record) (c : PartitionCursor) → c.page ≡ r ∷ rest → NotBelow r c
  own_front r rest c e q h =
      let same : q ≡ r = cc (h, e) in rw same (version_lt_irrefl (version_of r))

  later_front :
      (r q : Record) (rest : List Record) (c : PartitionCursor)
      → c.page ≡ r ∷ rest
      → version_lt (version_of q) (version_of r) ≡ true
      → NotBelow q c
  later_front r q rest c e less p h =
      let same : p ≡ r = cc (h, e) in rw same (version_lt_asym (version_of q) (version_of r) less)

  least_with-Least :
      (index : ℕ) (c : PartitionCursor) (page : List Record) (rest : Option (ℕ × Record))
      (cursors : List PartitionCursor)
      → c.page ≡ page
      → Least rest cursors
      → Least (least_with sha zstd fetch index page rest) (c ∷ cursors)
  unfolding least_with lesser Least
  least_with-Least index c [] none cursors e l = (e, l)
  least_with-Least index c [] (some (k, r)) cursors e l = ((λ q h. absurd (cc (h, e))), l)
  least_with-Least index c (p ∷ ps) none cursors e l =
      (own_front p ps c e, empty-NotBelow p cursors l)
  least_with-Least index c (p ∷ ps) (some (k, q)) cursors e l =
      elim (Bool-cases (version_lt (version_of q) (version_of p))) [
        | inl less ↦
            subst (λ x. Least (some x) (c ∷ cursors))
              (sym (ap (λ t. if t then (k, q) else (index, p)) less))
              (later_front p q ps c e less, l)
        | inr more ↦
            subst (λ x. Least (some x) (c ∷ cursors))
              (sym (ap (λ t. if t then (k, q) else (index, p)) more))
              (own_front p ps c e, NotBelow-lower p q cursors more l)
      ]

  least-Least :
      (index : ℕ) (cursors : List PartitionCursor)
      → Least (least sha zstd fetch index cursors) cursors
  unfolding least
  least-Least index [] = unfold Least in tt
  least-Least index (c ∷ cursors) =
      least_with-Least index c c.page _ cursors refl (least-Least (suc index) cursors)

  -- What an answer says of the cursors that are ready.
  abbrev pub Says : Option Record → List PartitionCursor → Type 0
  Says none cursors = All (λ c. c.page ≡ []) cursors
  Says (some r) cursors = All (NotBelow r) cursors

  next_of-Says :
      (cursors : List PartitionCursor) (chosen : Option (ℕ × Record)) (front : Option Record)
      → Least chosen cursors
      → (next_of sha zstd fetch cursors chosen).0 ≡ front
      → Says front cursors
  unfolding next_of Least
  next_of-Says cursors none front l e = subst (λ f. Says f cursors) e l
  next_of-Says cursors (some (k, r)) front l e = subst (λ f. Says f cursors) e l

  answer-Says :
      (s : RunScanner) (found : Result (List PartitionCursor)) (front : Option Record)
      → (answer sha zstd fetch s found).0 ≡ ok front
      → (cursors : List PartitionCursor) × (found ≡ ok cursors) × Says front cursors
  unfolding answer
  answer-Says s (err why) front e = absurd (cc e)
  answer-Says s (ok cursors) front e =
      (cursors, refl, next_of-Says cursors _ front (least-Least 0 cursors) (cc e))

  -- A record that the scanner answers with is not above the first record of any partition's cursor,
  -- once each cursor is ready; where it answers with none, every cursor is at its end.
  pub next-Says :
      (s : RunScanner) (front : Option Record)
      → (next sha zstd fetch s).0 ≡ ok front
      → (cursors : List PartitionCursor) × (ready_all sha zstd fetch 0 s.cursors ≡ ok cursors)
        × Says front cursors
  next-Says s front e = elim (Bool-cases s.failed) [
    | inl failed ↦ absurd (cc (e, ap (λ p. p.0) (next_marked s failed)))
    | inr going ↦
        answer-Says s (ready_all sha zstd fetch 0 s.cursors) front
          (sym (ap (λ p. p.0) (next_unmarked s going)) ∙ e)
  ]
