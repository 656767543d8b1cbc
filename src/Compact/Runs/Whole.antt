-- ===== src/Compact/Runs/Whole.antt =====
-- What `merge_runs` puts into the store is a whole run of the merged records with its summary.
use fossil.Base.{
  >>=-eq-ok, Bool-cases, List, Option, [], ap, if◌then◌else◌, inl, inr, none, ok, refl, some, suc,
  sym, zero, ℕ, ◌++◌, ◌>>=◌, ◌∙◌, ◌∷◌, ◌≡◌,
}
use mathlib.Core.Path.{subst}
use fossil.Bytes.{Bytes, bytes_eq}
use fossil.Bytes.Order.{eq_of_bytes_eq}
use fossil.Extern.{Sha256, Hex, Zstd}
use fossil.Codec.{Record}
use fossil.Compact.Merge.{
  Cursor, Scan, Sent, choose, is_last_key, merge, merge_loop, prime, refill, send,
}
use fossil.Compact.Runs.{small_bytes}
use fossil.Compact.Write.{add_distinct, is_new_key}
use fossil.Summary.{SummaryBuilder, add, new_builder}
use fossil.Store.Immutable.{ImmutableStore}
use fossil.Tiered.Compaction.{BuiltRun}
use fossil.Codec.{ObjectRef}
use fossil.Codec.Page.{EncodedObject}

last_key_of : Option Bytes → List Record → Option Bytes
last_key_of prior [] = prior
last_key_of prior (r ∷ rest) = last_key_of (some r.key) rest

last_key_of-snoc :
    (prior : Option Bytes) (rs : List Record) (r : Record)
    → last_key_of prior (rs ++ r ∷ []) ≡ some r.key
unfolding last_key_of
last_key_of-snoc prior [] r = refl
last_key_of-snoc prior (x ∷ rs) r = last_key_of-snoc (some x.key) rs r

module _ (sha : Sha256) where
  add_distinct-snoc :
      (b : SummaryBuilder) (prior : Option Bytes) (rs : List Record) (r : Record)
      → add_distinct sha b prior (rs ++ r ∷ []) ≡ (
          if is_new_key (last_key_of prior rs) r.key
          then add sha (add_distinct sha b prior rs) r.key
          else add_distinct sha b prior rs)
  unfolding add_distinct last_key_of
  add_distinct-snoc b prior [] r = refl
  add_distinct-snoc b prior (x ∷ rs) r =
      add_distinct-snoc (if is_new_key prior x.key then add sha b x.key else b) (some x.key) rs r

  module _ (Scanner : Type 0) (b : SummaryBuilder) where
    -- The summary has the keys of what was sent.
    record Counts (sent : Sent Scanner sha) : Type 0 where
      summary : sent.summary ≡ add_distinct sha b none sent.records
      last_key : sent.last_key ≡ last_key_of none sent.records

    new_or_last :
        (last : Option Bytes) (key : Bytes) (old new : SummaryBuilder)
        → (if is_last_key Scanner sha last key then old else new)
          ≡ (if is_new_key last key then new else old)
    unfolding is_last_key is_new_key
    new_or_last none key old new = refl
    new_or_last (some last) key old new = elim (Bool-cases (bytes_eq last key)) [
      | inl same ↦ rw same refl
      | inr other ↦ rw other refl
    ]

    last_or_new :
        (last : Option Bytes) (key : Bytes)
        → (if is_last_key Scanner sha last key then last else some key) ≡ some key
    unfolding is_last_key
    last_or_new none key = refl
    last_or_new (some last) key = elim (Bool-cases (bytes_eq last key)) [
      | inl same ↦ rw same (ap some (eq_of_bytes_eq last key same))
      | inr other ↦ rw other refl
    ]

    send-Counts :
        (r : Record) (sent : Sent Scanner sha) → Counts sent → Counts (send Scanner sha r sent)
    unfolding send
    send-Counts r sent c = record {
      summary =
          new_or_last sent.last_key r.key sent.summary (add sha sent.summary r.key)
          ∙ (rw (c.summary, c.last_key) (sym (add_distinct-snoc b none sent.records r)));
      last_key = last_or_new sent.last_key r.key ∙ sym (last_key_of-snoc none sent.records r);
    }

    after_choice :
        (fuel : ℕ) (next : Scan Scanner) (cursors : List (Cursor Scanner))
        (sent final : Sent Scanner sha) (chosen : Option (ℕ × Record))
        → ((cursors' : List (Cursor Scanner)) (sent' : Sent Scanner sha)
            → merge_loop Scanner sha fuel next cursors' sent' ≡ ok final
            → Counts sent'
            → Counts final)
        → (elim chosen [
          | none ↦ ok sent
          | some (index, r) ↦ (do
            cursors' ← refill Scanner next cursors index
            merge_loop Scanner sha fuel next cursors' (send Scanner sha r sent))
        ])
          ≡ ok final
        → Counts sent
        → Counts final
    after_choice fuel next cursors sent final none rest e c =
        let same : sent ≡ final = cc e in subst Counts same c
    after_choice fuel next cursors sent final (some (index, r)) rest e c =
        let (cursors', filled, e2) = >>=-eq-ok (refill Scanner next cursors index) _ e in
        rest cursors' (send Scanner sha r sent) e2 (send-Counts r sent c)

    merge_loop-Counts :
        (fuel : ℕ) (next : Scan Scanner) (cursors : List (Cursor Scanner))
        (sent final : Sent Scanner sha)
        → merge_loop Scanner sha fuel next cursors sent ≡ ok final
        → Counts sent
        → Counts final
    unfolding merge_loop
    merge_loop-Counts zero next cursors sent final e c = absurd (cc e)
    merge_loop-Counts (suc fuel) next cursors sent final e c =
        let (chosen, picked, e2) = >>=-eq-ok (choose Scanner cursors 0 none) _ e in
        after_choice fuel next cursors sent final chosen
          (λ cursors' sent' e' c'. merge_loop-Counts fuel next cursors' sent' final e' c') e2 c

  pub merge-add_distinct :
      (Scanner : Type 0) (fuel expected : ℕ) (next : Scan Scanner) (scanners : List Scanner)
      (b : SummaryBuilder) (final : Sent Scanner sha)
      → new_builder expected ≡ ok b
      → merge Scanner sha fuel next scanners expected ≡ ok final
      → final.summary ≡ add_distinct sha b none final.records
  unfolding merge add_distinct last_key_of
  merge-add_distinct Scanner fuel expected next scanners b final made e =
      let (b', made', e1) = >>=-eq-ok (new_builder expected) _ e in
      let (cursors, primed, e2) = >>=-eq-ok (prime Scanner next scanners) _ e1 in
      let same : b' ≡ b = cc (made, made') in
      let counts =
        merge_loop-Counts Scanner b' fuel next cursors _ final e2
          (record { summary = refl; last_key = refl }) in
      subst (λ x. final.summary ≡ add_distinct sha x none final.records) same counts.summary

module _ (Scanner : Type 0) (next : Scan Scanner) (sha : Sha256) (hex : Hex) (zstd : Zstd)
    (store : ImmutableStore) where
  abbrev run_of : Sent Scanner sha → ObjectRef → List EncodedObject → BuiltRun
  run_of sent reference objects = record {
    root = record { digest = reference.digest; size = reference.size };
    root_bytes = small_bytes [] objects;
    keys = sent.summary.keys;
    shards = sent.summary.shards;
  }
