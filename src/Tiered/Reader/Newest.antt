-- ===== src/Tiered/Reader/Newest.antt =====
-- `Reader::lookup` over runs whose objects are served: the newest version over the whole history.
use fossil.Base.{
  All, Bool, List, Option, Option-cases, Result, [], ap, arith, false, get_or, if◌then◌else◌, inl,
  inr, leb, length, length-append, ltb, ltb→lt, map, min, none, ok, refl, some, sym, true, ℕ, ◌*◌,
  ◌++◌, ◌+◌, ◌<◌, ◌∙◌, ◌∷◌, ◌≡◌, ◌≤◌,
}
use mathlib.Core.Path.{subst}
use mathlib.Core.List.{reverse, append_assoc, append-nil, reverse-cons}
use mathlib.Core.List.{append-nil}
use mathlib.Core.List.{append_assoc}
use fossil.Bytes.{Bytes}
use fossil.Extern.{Sha256, Hex, Zstd}
use fossil.Head.Manifest.{Run, Head}
use fossil.Codec.{
  ObjectRef, Record, is_empty, no_object, partition, max_index_bytes, max_page_bytes,
}
use fossil.Codec.Data.RoundTrip.{AscendingFrom}
use fossil.Codec.Lookup.Newest.{newest}
use fossil.Codec.Lookup.Tree.{Holds, lookup-newest}
use fossil.Summary.{may_contain, max_shard_bytes}
use fossil.Summary.Path.{DoublesLength}
use fossil.Tiered.Reader.{ShardCache, Request, charged_fetch, fetch, fetch_shard}
use fossil.Tiered.Reader.Ends.{Ends-bind}
use fossil.Codec.Lookup.Spending.{spend_run}
use fossil.Tiered.Reader.Spending.{OpenRun, visit, visit_runs, lookup}
use fossil.Tiered.Reader.Refines.{IsNamed, Sound, Answers, IsSound, free, Ends-probe, spend_run_lem}

newest-append :
    (xs ys : List Record) (key : Bytes) (block : ℕ)
    → newest (xs ++ ys) key block
      ≡ elim (newest ys key block) [ some v ↦ some v | none ↦ newest xs key block ]
unfolding newest
newest-append [] ys key block = elim (Option-cases (newest ys key block)) [
  | inl e ↦ rw e refl
  | inr (v, e) ↦ rw e refl
]
newest-append (x ∷ xs) ys key block = elim (Option-cases (newest ys key block)) [
  | inl e ↦ rw (newest-append xs ys key block, e) refl
  | inr (v, e) ↦ rw (newest-append xs ys key block, e) refl
]

-- The records of a run lie in its interval.
abbrev pub Within : Run → List Record → Type 0
Within run = All (λ r. (run.start ≤ r.block) × (r.block ≤ run.end))

newest_later :
    (run : Run) (rs : List Record) (key : Bytes) (block : ℕ)
    → Within run rs
    → block < run.start
    → newest rs key block ≡ none
unfolding newest
newest_later run [] key block w h = refl
newest_later run (r ∷ rs) key block ((lo, hi), w) h =
    rw (newest_later run rs key block w h) (ground arith)

newest-min :
    (run : Run) (rs : List Record) (key : Bytes) (block : ℕ)
    → Within run rs
    → newest rs key (min block run.end) ≡ newest rs key block
unfolding newest
newest-min run [] key block w = refl
newest-min run (r ∷ rs) key block ((lo, hi), w) =
    let same : leb r.block (min block run.end) ≡ leb r.block block = ground arith in
    rw (newest-min run rs key block w) (ground arith)

-- What one visit of a run may cost: two shards, two indexes and a page.
abbrev pub run_bytes : ℕ
run_bytes = 2 * max_shard_bytes + (max_index_bytes + (max_index_bytes + max_page_bytes))

module _ (sha : Sha256) (hex : Hex) (doubles : DoublesLength hex) (zstd : Zstd)
    (get_bounded : Bytes → ℕ → Result Bytes) (cache : ShardCache) (key : Bytes) where
  -- A run whose objects are served: its summary never denies a key that it has, and the index of the
  -- key's partition holds the records.
  pub record Served : Type 0 where
    pub run : Run
    pub indexes : List ObjectRef
    pub records : List Record
    pub named : IsNamed run
    pub present : Bool
    pub probed : may_contain sha (fetch_shard sha hex get_bounded run) run.shards key ≡ ok present
    pub honest : present ≡ false → (block : ℕ) → newest records key block ≡ none
    pub held :
        Holds sha zstd
          (fetch sha hex get_bounded)
          (partition sha key)
          (get_or indexes (partition sha key) no_object)
          records
    pub ascending : AscendingFrom none records
    pub within : Within run records

  abbrev Here : {A : Type 0} → ℕ → ℕ → A → Request cache → Result (A × Request cache) → Type 0
  Here = Answers sha hex doubles zstd get_bounded cache

  abbrev pub Trusted : Request cache → Type 0
  Trusted = IsSound sha hex doubles zstd get_bounded cache

  after_probe :
      (o : Served) (block : ℕ) (t : Request cache) (hit : Bool)
      → is_empty key ≡ false
      → o.present ≡ hit
      → Trusted t
      → Here 3
          (max_index_bytes + (max_index_bytes + max_page_bytes))
          (newest o.records key block)
          t
          (if hit
            then spend_run sha zstd
                (charged_fetch sha hex get_bounded cache)
                o.indexes
                key
                (min block o.run.end)
                t
            else ok (none, t))
  after_probe o block t false some_key p sound =
      free sha hex doubles zstd get_bounded cache _ _ none _ t (ap ok (sym (o.honest p block)))
        sound
  after_probe o block t true some_key p sound =
      let found =
        lookup-newest sha zstd (fetch sha hex get_bounded) o.indexes key (min block o.run.end)
          o.records some_key o.held o.ascending in
      spend_run_lem sha hex doubles zstd get_bounded cache o.indexes key (min block o.run.end) _ t
        (found ∙ ap ok (newest-min o.run o.records key block o.within)) sound

  visit_lem :
      (o : Served) (block : ℕ) (s : Request cache) (early : Bool)
      → is_empty key ≡ false
      → Trusted s
      → ltb block o.run.start ≡ early
      → Here 5 run_bytes
          (newest o.records key block)
          s
          (visit sha hex zstd get_bounded cache (o.run, o.indexes) key block s)
  unfolding visit
  visit_lem o block s true some_key sound e = rw e (
      free sha hex doubles zstd get_bounded cache 5 run_bytes none _ s
        (ap ok (sym (newest_later o.run o.records key block o.within (ltb→lt _ _ e)))) sound)
  visit_lem o block s false some_key sound e = rw e (
      Ends-bind cache (Sound sha hex doubles get_bounded cache) 2 (2 * max_shard_bytes) 3 _
        o.present _ s _ _
        (Ends-probe sha hex doubles get_bounded cache o.run key o.present s o.named o.probed sound)
        (λ t sound'. after_probe o block t o.present some_key refl sound'))

  abbrev pub open_of : Served → OpenRun
  open_of o = (o.run, o.indexes)

  -- The records of runs that are listed newest first, the oldest in front.
  unfoldable pub over : List Served → List Record
  over [] = []
  over (o ∷ older) = over older ++ o.records

  -- What was found ends the loop.
  go_on :
      (older : List Served) (block : ℕ) (t : Request cache) (found : Option Bytes)
      → Trusted t
      → Here
          (5 * length older)
          (run_bytes * length older)
          (newest (over older) key block)
          t
          (visit_runs sha hex zstd get_bounded cache (map open_of older) key block t)
      → Here
          (5 * length older)
          (run_bytes * length older)
          (elim found [ some v ↦ some v | none ↦ newest (over older) key block ])
          t
          (elim found [
            | some v ↦ ok (some v, t)
            | none ↦ visit_runs sha hex zstd get_bounded cache (map open_of older) key block t
          ])
  go_on older block t none sound rest = rest
  go_on older block t (some v) sound rest =
      free sha hex doubles zstd get_bounded cache _ _ (some v) (some v) t refl sound

  visit_runs_lem :
      (os : List Served) (block : ℕ) (s : Request cache)
      → is_empty key ≡ false
      → Trusted s
      → Here
          (5 * length os)
          (run_bytes * length os)
          (newest (over os) key block)
          s
          (visit_runs sha hex zstd get_bounded cache (map open_of os) key block s)
  unfolding visit_runs over
  visit_runs_lem [] block s some_key sound =
      free sha hex doubles zstd get_bounded cache _ _ none _ s (unfold newest in refl) sound
  visit_runs_lem (o ∷ older) block s some_key sound =
      let price : 5 * length (o ∷ older) ≡ 5 + 5 * length older = omega arith in
      let size : run_bytes * length (o ∷ older) ≡ run_bytes + run_bytes * length older =
        omega arith in
      rw (price, size, newest-append (over older) o.records key block)
        (Ends-bind cache (Sound sha hex doubles get_bounded cache) 5 run_bytes (5 * length older)
          (run_bytes * length older) (newest o.records key block) _ s _ _
          (visit_lem o block s (ltb block o.run.start) some_key sound refl)
          (λ t sound'.
            go_on older block t (newest o.records key block) sound'
              (visit_runs_lem older block t some_key sound')))

  -- The records of runs that are listed oldest first.
  unfoldable pub history : List Served → List Record
  history [] = []
  history (o ∷ newer) = o.records ++ history newer

  over-snoc : (os : List Served) (o : Served) → over (os ++ o ∷ []) ≡ o.records ++ over os
  unfolding over
  over-snoc [] o = sym (append-nil o.records)
  over-snoc (p ∷ os) o =
      ap (λ t. t ++ p.records) (over-snoc os o) ∙ append_assoc o.records (over os) p.records

  over-reverse : (os : List Served) → over (reverse os) ≡ history os
  unfolding over history
  over-reverse [] = refl
  over-reverse (o ∷ newer) =
      ap over (reverse-cons o newer)
      ∙ (over-snoc (reverse newer) o ∙ ap (λ t. o.records ++ t) (over-reverse newer))

  length-reverse_runs : (os : List Served) → length (reverse os) ≡ length os
  length-reverse_runs [] = refl
  length-reverse_runs (o ∷ newer) =
      ap length (reverse-cons o newer)
      ∙ omega (arith, length-append (reverse newer) (o ∷ []), length-reverse_runs newer)

  open_of-append : (os ps : List Served) → map open_of (os ++ ps) ≡ map open_of os ++ map open_of ps
  open_of-append [] ps = refl
  open_of-append (o ∷ os) ps = ap (λ t. open_of o ∷ t) (open_of-append os ps)

  open_of-reverse : (os : List Served) → reverse (map open_of os) ≡ map open_of (reverse os)
  open_of-reverse [] = refl
  open_of-reverse (o ∷ newer) =
      reverse-cons (open_of o) (map open_of newer)
      ∙ (ap (λ t. t ++ open_of o ∷ []) (open_of-reverse newer)
          ∙ (sym (open_of-append (reverse newer) (o ∷ []))
              ∙ ap (map open_of) (sym (reverse-cons o newer))))

  -- A lookup of a key that is not empty, at a block of the pinned history, in a reader whose runs
  -- are served: it answers with the newest version of the key at or before the block over the
  -- records of all runs, for at most five GETs and four MiB a run, or it fails for its budget, which
  -- then does not hold that price.
  pub lookup-Answers :
      (head : Head) (os : List Served) (block : ℕ) (s : Request cache)
      → is_empty key ≡ false
      → block ≤ head.number
      → Trusted s
      → Here
          (5 * length os)
          (run_bytes * length os)
          (newest (history os) key block)
          s
          (lookup sha hex zstd get_bounded cache head (map open_of os) key block s)
  unfolding lookup
  lookup-Answers head os block s some_key inside sound =
      let known : ltb head.number block ≡ false = ground arith in
      let listed = visit_runs_lem (reverse os) block s some_key sound in
      rw (known, open_of-reverse os)
        (subst
          (λ n.
            Here (5 * n) (run_bytes * n) (newest (history os) key block) s
              (visit_runs sha hex zstd get_bounded cache (map open_of (reverse os)) key block s))
          (length-reverse_runs os)
          (subst
            (λ rs.
              Here (5 * length (reverse os)) (run_bytes * length (reverse os)) (newest rs key block)
                s
                (visit_runs sha hex zstd get_bounded cache (map open_of (reverse os)) key block s))
            (over-reverse os) listed))
