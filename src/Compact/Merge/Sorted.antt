-- ===== src/Compact/Merge/Sorted.antt =====
-- The merge of ready scanners: all their records, in one ascending list.
use fossil.Base.{
  All, List, Option, Result, [], ap, arith, inl, inr, length, length-append, none, ok, refl, some,
  suc, sym, zero, ℕ, ◌++◌, ◌<◌, ◌∙◌, ◌∷◌, ◌≡◌,
}
use mathlib.Core.Path.{subst}
use mathlib.Core.List.{Permᴰ, append-nil}
use mathlib.Core.List.{append_assoc}
use mathlib.Core.List.Permᴰ
use fossil.Extern.{Sha256}
use fossil.Codec.{Record}
use fossil.Codec.Data.RoundTrip.{After, AscendingFrom}
use fossil.Summary.{SummaryBuilder, new_builder}
use fossil.Compact.Merge.{Scan, Cursor, choose, refill, prime, Sent, send, merge_loop, merge}
use fossil.Compact.Merge.Choose.{
  Timed, Takes, here, later, Ascending, Past, Delivers, Ready, AllReady, Empty, choose-Found,
}

-- The records of the runs, the oldest run first.
unfoldable pub all_of : List (List Record) → List Record
all_of [] = []
all_of (rs ∷ lists) = rs ++ all_of lists

module _ (Scanner : Type 0) (next : Scan Scanner) where
  Ready-of :
      (scanner : Scanner) (rs : List Record)
      → Delivers Scanner next scanner rs
      → (cursor : Cursor Scanner) × (next scanner ≡ ok cursor) × Ready Scanner next cursor rs
  Ready-of scanner [] (after, e) = ((none, after), e, tt)
  Ready-of scanner (r ∷ rs) (after, e, d) = ((some r, after), e, (refl, d))

  refill-Takes :
      (r : Record) (k : ℕ) (cursors : List (Cursor Scanner)) (lists lists' : List (List Record))
      → Takes r k lists lists'
      → AllReady Scanner next cursors lists
      → (cursors' : List (Cursor Scanner)) × (refill Scanner next cursors k ≡ ok cursors')
        × AllReady Scanner next cursors' lists'
  unfolding refill
  refill-Takes r k [] _ _ (here rs lists) ready = absurd ready
  refill-Takes r k [] _ _ (later k' rs lists lists' takes) ready = absurd ready
  refill-Takes r k ((none, scanner) ∷ cursors) _ _ (here rs lists) (no_head, ready) = absurd no_head
  refill-Takes r k ((some q, scanner) ∷ cursors) _ _ (here rs lists) ((same, d), ready) =
      let (cursor, e, one) = Ready-of scanner rs d in (cursor ∷ cursors, rw e refl, (one, ready))
  refill-Takes r k (cursor ∷ cursors) _ _ (later k' rs lists lists' takes) (one, ready) =
      let (cursors', e, rest) = refill-Takes r k' cursors lists lists' takes ready in
      (cursor ∷ cursors', rw e refl, (one, rest))

Timed-Takes :
    (r : Record) (k start : ℕ) (lists lists' : List (List Record))
    → Takes r k lists lists'
    → Timed start lists
    → Timed start lists'
Timed-Takes r k start _ _ (here rs lists) (end, le, (h, w), timed) = (end, le, w, timed)
Timed-Takes r k start _ _ (later k' rs lists lists' takes) (end, le, w, timed) =
    (end, le, w, Timed-Takes r k' end lists lists' takes timed)

-- What ascends from a record ascends.
Ascending-Past : (r : Record) (lists : List (List Record)) → Past r lists → Ascending lists
Ascending-Past r [] past = tt
Ascending-Past r ([] ∷ lists) (a, past) = (tt, Ascending-Past r lists past)
Ascending-Past r ((q ∷ rs) ∷ lists) ((u, a), past) = ((tt, a), Ascending-Past r lists past)

length-Takes :
    (r : Record) (k : ℕ) (lists lists' : List (List Record))
    → Takes r k lists lists'
    → length (all_of lists) ≡ suc (length (all_of lists'))
unfolding all_of
length-Takes r k _ _ (here rs lists) = refl
length-Takes r k _ _ (later k' rs lists lists' takes) = omega (
  arith,
  length-append rs (all_of lists),
  length-append rs (all_of lists'),
  length-Takes r k' lists lists' takes,
)

-- A record that all lists ascend from is passed by the record that is taken.
After-Takes :
    (prior : Option Record) (r : Record) (k : ℕ) (lists lists' : List (List Record))
    → Takes r k lists lists'
    → All (AscendingFrom prior) lists
    → After prior r
After-Takes prior r k _ _ (here rs lists) ((after, a), all) = after
After-Takes prior r k _ _ (later k' rs lists lists' takes) (a, all) =
    After-Takes prior r k' lists lists' takes all

all_of-Takes :
    (r : Record) (k : ℕ) (lists lists' : List (List Record))
    → Takes r k lists lists'
    → Permᴰ (r ∷ all_of lists') (all_of lists)
unfolding all_of
all_of-Takes r k _ _ (here rs lists) = Permᴰ.refl (r ∷ (rs ++ all_of lists))
all_of-Takes r k _ _ (later k' rs lists lists' takes) =
    Permᴰ.trans (Permᴰ.symm (Permᴰ.middle r rs (all_of lists')))
      (Permᴰ.append_left rs (all_of-Takes r k' lists lists' takes))

all_of-Empty : (lists : List (List Record)) → Empty lists → all_of lists ≡ []
unfolding all_of
all_of-Empty [] empty = refl
all_of-Empty (rs ∷ lists) (e, empty) = rw (e, all_of-Empty lists empty) refl

module _ (Scanner : Type 0) (next : Scan Scanner) (sha : Sha256) where
  -- What the loop sends: the records of the lists, in an ascending list.
  pub record Merged (prior : Option Record) (lists : List (List Record)) (before : Sent Scanner sha)
      (result : Result (Sent Scanner sha)) : Type 0 where
    pub sent : Sent Scanner sha
    pub out : List Record
    pub done : result ≡ ok sent
    pub records : sent.records ≡ before.records ++ out
    pub ascending : AscendingFrom prior out
    pub same : Permᴰ out (all_of lists)

  -- A round that sends a record goes on behind it.
  round-some :
      (fuel k : ℕ) (r : Record) (cursors cursors' : List (Cursor Scanner)) (sent : Sent Scanner sha)
      → choose Scanner cursors 0 none ≡ ok (some (k, r))
      → refill Scanner next cursors k ≡ ok cursors'
      → merge_loop Scanner sha (suc fuel) next cursors sent
        ≡ merge_loop Scanner sha fuel next cursors' (send Scanner sha r sent)
  unfolding merge_loop
  round-some fuel k r cursors cursors' sent e e2 = rw (e, e2) refl

  send_records :
      (r : Record) (sent : Sent Scanner sha)
      → (send Scanner sha r sent).records ≡ sent.records ++ r ∷ []
  unfolding send
  send_records r sent = refl

  merge_loop-Merged :
      (fuel start : ℕ) (prior : Option Record) (cursors : List (Cursor Scanner))
      (lists : List (List Record)) (sent : Sent Scanner sha)
      → AllReady Scanner next cursors lists
      → Timed start lists
      → Ascending lists
      → All (AscendingFrom prior) lists
      → length (all_of lists) < fuel
      → Merged prior lists sent (merge_loop Scanner sha fuel next cursors sent)
  unfolding merge_loop
  merge_loop-Merged zero start prior cursors lists sent ready timed asc all enough =
      absurd (omega arith)
  merge_loop-Merged (suc fuel) start prior cursors lists sent ready timed asc all enough =
      elim (choose-Found Scanner next cursors lists 0 start ready timed asc) [
        | inl (e, empty) ↦ record {
          sent = sent;
          out = [];
          done = rw e refl;
          records = sym (append-nil sent.records);
          ascending = tt;
          same = rw (all_of-Empty lists empty) Permᴰ.nil;
        }
        | inr (r, (k, lists', e, takes, past)) ↦
            let (cursors', e2, ready') =
              refill-Takes Scanner next r k cursors lists lists' takes ready in
            let rest =
              merge_loop-Merged fuel start (some r) cursors' lists' (send Scanner sha r sent) ready'
                (Timed-Takes r k start lists lists' takes timed) (Ascending-Past r lists' past) past
                (omega (arith, length-Takes r k lists lists' takes)) in
            record {
              sent = rest.sent;
              out = r ∷ rest.out;
              done =
                  round-some fuel k r cursors cursors' sent
                    (e ∙ ap (λ n. ok (some (n, r))) (omega arith)) e2
                  ∙ rest.done;
              records =
                  rest.records
                  ∙ (ap (λ t. t ++ rest.out) (send_records r sent)
                      ∙ append_assoc sent.records (r ∷ []) rest.out);
              ascending = (After-Takes prior r k lists lists' takes all, rest.ascending);
              same = Permᴰ.trans (Permᴰ.cons refl rest.same) (all_of-Takes r k lists lists' takes);
            }
      ]

  abbrev pub AllDeliver : List Scanner → List (List Record) → Type 0
  AllDeliver [] [] = Unit
  AllDeliver [] (rs ∷ lists) = ⊥
  AllDeliver (scanner ∷ scanners) [] = ⊥
  AllDeliver (scanner ∷ scanners) (rs ∷ lists) =
      Delivers Scanner next scanner rs × AllDeliver scanners lists

  prime-AllReady :
      (scanners : List Scanner) (lists : List (List Record))
      → AllDeliver scanners lists
      → (cursors : List (Cursor Scanner)) × (prime Scanner next scanners ≡ ok cursors)
        × AllReady Scanner next cursors lists
  unfolding prime
  prime-AllReady [] [] d = ([], refl, tt)
  prime-AllReady [] (rs ∷ lists) d = absurd d
  prime-AllReady (scanner ∷ scanners) [] d = absurd d
  prime-AllReady (scanner ∷ scanners) (rs ∷ lists) (d, ds) =
      let (cursor, e, one) = Ready-of Scanner next scanner rs d in
      let (cursors, e2, ready) = prime-AllReady scanners lists ds in
      (cursor ∷ cursors, rw (e, e2) refl, (one, ready))

  -- Over scanners that deliver ascending runs of time-disjoint intervals, oldest first, and with
  -- fuel for more rounds than there are records, the merge ends without an error and sends exactly
  -- the records of the runs, in one list that strictly ascends by key and block.
  pub merge-Merged :
      (fuel start expected_keys : ℕ) (scanners : List Scanner) (lists : List (List Record))
      (summary : SummaryBuilder)
      → AllDeliver scanners lists
      → Timed start lists
      → Ascending lists
      → new_builder expected_keys ≡ ok summary
      → length (all_of lists) < fuel
      → (sent : Sent Scanner sha) × (merge Scanner sha fuel next scanners expected_keys ≡ ok sent)
        × AscendingFrom none sent.records
        × Permᴰ sent.records (all_of lists)
  unfolding merge
  merge-Merged fuel start expected_keys scanners lists summary d timed asc made enough =
      let (cursors, e, ready) = prime-AllReady scanners lists d in
      let merged =
        merge_loop-Merged fuel start none cursors lists
          (record { records = []; summary = summary; last_key = none }) ready timed asc asc
          enough in
      (
        merged.sent,
        rw (made, e) merged.done,
        subst (AscendingFrom none) (sym merged.records) merged.ascending,
        subst (λ t. Permᴰ t (all_of lists)) (sym merged.records) merged.same,
      )
