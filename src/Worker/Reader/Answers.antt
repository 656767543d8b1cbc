-- ===== src/Worker/Reader/Answers.antt =====
-- The worker's lookups, accounts, slots and code are the server's.
use fossil.Base.{
  Bool-cases, List, Option, Result, [], arith, false, if◌then◌else◌, inl, inr, length, ltb, min,
  none, not, ok, refl, some, ℕ, ◌*◌, ◌==◌, ◌>>=◌, ◌||◌, ◌∷◌, ◌≡◌, ◌≤◌,
}
use mathlib.Core.List.{reverse}
use fossil.Bytes.{Bytes, bytes_eq}
use fossil.Extern.{Sha256, Hex, Zstd}
use fossil.Head.Account.{decode}
use fossil.Head.Keys.{account_key, storage_key, code_key}
use fossil.Head.Manifest.{Head}
use fossil.Package.{AccountEvent}
use fossil.Tiered.Reader.Spending.{
  account_in, check_code, code, code_of, lookup, storage, storage_of, to_word, visit, visit_runs,
}
use fossil.Worker.Reader.{
  Account, Cells, LoadedRun, account_at, checked_code, code_at, code_from, empty_code_hash, live,
  lookup_at, storage_at, storage_from, visit_all, visit_loaded, word_of,
}
use fossil.Worker.Reader.Alike.{
  Alike, Same, Alike-bind, Same-bind, Alike-plain, Alike-if, map_cache, view,
}
use fossil.Worker.Reader.Agrees.{under, probe_run-Same, spend_run-Same}

-- The account that the worker makes of the server's event.
abbrev pub alive : Option AccountEvent → Option Account
alive none = none
alive (some event) =
    if event.exists
    then some (record {
      exists = event.exists;
      incarnation = event.incarnation;
      nonce = event.nonce;
      balance = event.balance;
      code_hash = event.code_hash;
    })
    else none

abbrev pub IsAlive : Option Account → Option AccountEvent → Type 0
IsAlive account event = account ≡ alive event

module _ (sha : Sha256) (hex : Hex) (zstd : Zstd) (store : Bytes → ℕ → Result Bytes)
    (prefix : Bytes) where
  abbrev served : Bytes → ℕ → Result Bytes
  served = under sha hex zstd store prefix

  abbrev Found : Option Bytes → Option Bytes → Type 0
  Found a b = a ≡ b

  abbrev Word : Bytes → Bytes → Type 0
  Word a b = a ≡ b

  visit_loaded-Same :
      (o : LoadedRun) (key : Bytes) (block : ℕ) (s : Cells)
      → Same prefix
          (visit_loaded sha hex zstd store prefix o key block s)
          (visit sha hex zstd served (map_cache prefix) o key block (view prefix s))
  unfolding visit_loaded visit
  visit_loaded-Same (run, indexes) key block s =
      Alike-if prefix Found (ltb block run.start) _ _ _ _ (refl, refl)
        (Same-bind prefix Found _ _ _ _ (probe_run-Same sha hex zstd store prefix run key s)
          (λ hit t.
            Alike-if prefix Found hit _ _ _ _
              (spend_run-Same sha hex zstd store prefix indexes key (min block run.end) t)
              (refl, refl)))

  go_on :
      (older : List LoadedRun) (key : Bytes) (block : ℕ) (value : Option Bytes) (t : Cells)
      → Same prefix
          (visit_all sha hex zstd store prefix older key block t)
          (visit_runs sha hex zstd served (map_cache prefix) older key block (view prefix t))
      → Same prefix
          (elim value [
            | some v ↦ ok (some v, t)
            | none ↦ visit_all sha hex zstd store prefix older key block t
          ])
          (elim value [
            | some v ↦ ok (some v, view prefix t)
            | none ↦
                visit_runs sha hex zstd served (map_cache prefix) older key block (view prefix t)
          ])
  go_on older key block (some v) t h = (refl, refl)
  go_on older key block none t h = h

  visit_all-Same :
      (os : List LoadedRun) (key : Bytes) (block : ℕ) (s : Cells)
      → Same prefix
          (visit_all sha hex zstd store prefix os key block s)
          (visit_runs sha hex zstd served (map_cache prefix) os key block (view prefix s))
  unfolding visit_all visit_runs
  visit_all-Same [] key block s = (refl, refl)
  visit_all-Same (o ∷ older) key block s =
      Same-bind prefix Found _ _ _ _ (visit_loaded-Same o key block s)
        (λ value t. go_on older key block value t (visit_all-Same older key block t))

  module _ (head : Head) (loaded : List LoadedRun) (block : ℕ) (inside : block ≤ head.number) where
    pub lookup_at-Same :
        (key : Bytes) (s : Cells)
        → Same prefix
            (lookup_at sha hex zstd store prefix loaded key block s)
            (lookup sha hex zstd served (map_cache prefix) head loaded key block (view prefix s))
    unfolding lookup_at lookup
    lookup_at-Same key s =
        let known : ltb head.number block ≡ false = ground arith in
        rw known (visit_all-Same (reverse loaded) key block s)

    account_at-Alike :
        (address : Bytes) (s : Cells)
        → Alike prefix IsAlive (account_at sha hex zstd store prefix loaded address block s) (
            account_in sha hex zstd served
              (map_cache prefix)
              head
              loaded
              address
              block
              (view prefix s))
    unfolding account_at account_in live
    account_at-Alike address s =
        Same-bind prefix IsAlive _ _ _ _ (lookup_at-Same (account_key address) s) decoded
      where
        decoded :
            (value : Option Bytes) (t : Cells)
            → Alike prefix IsAlive
                (elim value [
                  | none ↦ ok (none, t)
                  | some bytes ↦ (do
                    state ← decode bytes
                    ok (
                      live sha hex zstd store prefix (record {
                        exists = state.exists;
                        incarnation = state.incarnation;
                        nonce = state.nonce;
                        balance = state.balance;
                        code_hash = state.code_hash;
                      }),
                      t,
                    ))
                ])
                (elim value [
                  | none ↦ ok (none, view prefix t)
                  | some bytes ↦ (do
                    state ← decode bytes
                    ok (
                      some (record {
                        block = block;
                        address = address;
                        exists = state.exists;
                        incarnation = state.incarnation;
                        nonce = state.nonce;
                        balance = state.balance;
                        code_hash = state.code_hash;
                      }),
                      view prefix t,
                    ))
                ])
        decoded none t = (refl, refl)
        decoded (some bytes) t =
            Alike-plain prefix IsAlive (decode bytes) _ _ (λ state e. (refl, refl))

    words-Same :
        (value : Option Bytes) (t : Cells)
        → Same prefix (word_of sha hex zstd store prefix value >>= (λ word. ok (word, t))) (
            to_word sha hex zstd served (map_cache prefix) value
            >>= (λ word. ok (word, view prefix t)))
    unfolding word_of to_word
    words-Same none t = (refl, refl)
    words-Same (some value) t = elim (Bool-cases (length value == 32)) [
      | inl whole ↦ rw whole (refl, refl)
      | inr other ↦ rw other tt
    ]

    storage_from-Same :
        (address slot : Bytes) (event : Option AccountEvent) (t : Cells)
        → Same prefix
            (storage_from sha hex zstd store prefix loaded address slot block (alive event) t)
            (storage_of sha hex zstd served
              (map_cache prefix)
              head
              loaded
              address
              slot
              block
              event
              (view prefix t))
    unfolding storage_from storage_of
    storage_from-Same address slot none t = (refl, refl)
    storage_from-Same address slot (some event) t = elim (Bool-cases event.exists) [
      | inl lives ↦ rw lives (
          Same-bind prefix Word _ _ _ _
            (lookup_at-Same (storage_key address event.incarnation slot) t)
            (λ value u. words-Same value u))
      | inr dead ↦ rw dead (refl, refl)
    ]

    module _ (keccak : Bytes → Bytes) (no_code : keccak [] ≡ empty_code_hash) where
      codes-Same :
          (code_hash : Bytes) (value : Option Bytes) (t : Cells)
          → Same prefix
              (checked_code sha hex zstd store prefix keccak code_hash value
                >>= (λ bytes. ok (bytes, t)))
              (check_code sha hex zstd served (map_cache prefix) keccak code_hash value
                >>= (λ bytes. ok (bytes, view prefix t)))
      unfolding checked_code check_code
      codes-Same code_hash none t = tt
      codes-Same code_hash (some bytes) t =
          elim (Bool-cases
            (ltb (1024 * 1024) (length bytes) || not (bytes_eq (keccak bytes) code_hash))) [
              | inl wrong ↦ rw wrong tt
              | inr right ↦ rw right (refl, refl)
            ]

      code_from-Same :
          (event : Option AccountEvent) (t : Cells)
          → Same prefix (code_from sha hex zstd store prefix keccak loaded block (alive event) t) (
              code_of sha hex zstd served
                (map_cache prefix)
                keccak
                head
                loaded
                block
                event
                (view prefix t))
      unfolding code_from code_of
      code_from-Same none t = (refl, refl)
      code_from-Same (some event) t = elim (Bool-cases event.exists) [
        | inl lives ↦
            rw (lives, no_code)
              (Alike-if prefix Word (bytes_eq event.code_hash empty_code_hash) _ _ _ _ (refl, refl)
                (Same-bind prefix Word _ _ _ _ (lookup_at-Same (code_key event.code_hash) t)
                  (λ value u. codes-Same event.code_hash value u)))
        | inr dead ↦ rw dead (refl, refl)
      ]

      -- At a block of the head's history the worker answers as the server over the same store, in the
      -- state as in the value, or both fail: an account of the worker is the server's where that
      -- exists and none else, and slots and code are the same. The hash of no code is as the worker
      -- writes it out.
      pub reads-Alike :
          (address slot : Bytes) (s : Cells)
          → Alike prefix IsAlive (account_at sha hex zstd store prefix loaded address block s) (
              account_in sha hex zstd served
                (map_cache prefix)
                head
                loaded
                address
                block
                (view prefix s))
            × Same prefix (storage_at sha hex zstd store prefix loaded address slot block s) (
                storage sha hex zstd served
                  (map_cache prefix)
                  head
                  loaded
                  address
                  slot
                  block
                  (view prefix s))
            × Same prefix (code_at sha hex zstd store prefix keccak loaded address block s) (
                code sha hex zstd served
                  (map_cache prefix)
                  keccak
                  head
                  loaded
                  address
                  block
                  (view prefix s))
      unfolding storage_at storage code_at code
      reads-Alike address slot s = (
        account_at-Alike address s,
        Alike-bind prefix IsAlive Word _ _ _ _ (account_at-Alike address s)
            (λ a b t e. rw e (storage_from-Same address slot b t)),
        Alike-bind prefix IsAlive Word _ _ _ _ (account_at-Alike address s)
            (λ a b t e. rw e (code_from-Same b t)),
      )
