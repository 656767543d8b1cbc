-- ===== src/Tiered/Reader/Spending.antt =====
-- The lookups of the pinned reader of src/tiered.rs, over the fetch that charges the budget.
use fossil.Base.{
  List, Option, Result, [], bad_code_blob, bad_value, bail_if, err, if◌then◌else◌, length, ltb, min,
  none, not, ok, outside_history, some, ℕ, ◌==◌, ◌>>=◌, ◌>>◌, ◌||◌, ◌∷◌,
}
use fossil.Bytes.{Bytes, bytes_eq}
use fossil.Extern.{Sha256, Hex, Zstd}
use fossil.Head.Account.{zero32, decode}
use fossil.Head.Keys.{account_key, storage_key, code_key}
use fossil.Head.Manifest.{Run, Head}
use fossil.Package.{AccountEvent}
use mathlib.Core.List.{reverse}
use fossil.Codec.{ObjectRef}
use fossil.Codec.Root.{decode_root}
use fossil.Codec.Lookup.Spending.{spend_run}
use fossil.Tiered.Reader.{ShardCache, Request, probe, charged_fetch}
use fossil.Tiered.Records.{max_code}

-- A run with the references of its root.
abbrev pub OpenRun : Type 0
OpenRun = Run × List ObjectRef

module _ (sha : Sha256) (hex : Hex) (zstd : Zstd) (get_bounded : Bytes → ℕ → Result Bytes)
    (cache : ShardCache) where
  -- The body of the loop over the runs: whether the run is skipped, or what it answers.
  unfoldable pub visit : OpenRun → Bytes → ℕ → Request cache → Result (Option Bytes × Request cache)
  visit (run, indexes) key block s = if ltb block run.start then ok (none, s) else (do
    (hit, s1) ← probe sha hex get_bounded cache run key s
    (if hit
        then spend_run sha zstd (charged_fetch sha hex get_bounded cache) indexes key
            (min block run.end) s1
        else ok (none, s1)))

  -- The loop over the runs, newest first: the first value that is found ends it.
  unfoldable pub visit_runs :
      List OpenRun → Bytes → ℕ → Request cache → Result (Option Bytes × Request cache)
  visit_runs [] key block s = ok (none, s)
  visit_runs (run ∷ older) key block s = do
    (value, s1) ← visit run key block s
    elim value [ some v ↦ ok (some v, s1) | none ↦ visit_runs older key block s1 ]

  -- `Reader::lookup`, with the runs oldest first
  unfoldable pub lookup :
      Head → List OpenRun → Bytes → ℕ → Request cache → Result (Option Bytes × Request cache)
  lookup head open_runs key block s = do
    bail_if (ltb head.number block) outside_history
    visit_runs (reverse open_runs) key block s

  -- `Reader::account_in`
  unfoldable pub account_in :
      Head → List OpenRun → Bytes → ℕ → Request cache → Result (Option AccountEvent × Request cache)
  account_in head open_runs address block s = do
    (value, s1) ← lookup head open_runs (account_key address) block s
    elim value [
      | none ↦ ok (none, s1)
      | some bytes ↦ (do
        state ← decode bytes
        ok (
          some (record {
            block = block;
            address = address;
            exists = state.exists;
            incarnation = state.incarnation;
            nonce = state.nonce;
            balance = state.balance;
            code_hash = state.code_hash;
          }),
          s1,
        ))
    ]

  -- `try_into` of a value to 32 bytes
  unfoldable pub to_word : Option Bytes → Result Bytes
  to_word none = ok zero32
  to_word (some value) = if length value == 32 then ok value else err bad_value

  -- `Reader::storage` from the account on
  unfoldable pub storage_of :
      Head
      → List OpenRun
      → Bytes
      → Bytes
      → ℕ
      → Option AccountEvent
      → Request cache
      → Result (Bytes × Request cache)
  storage_of head open_runs address slot block none s = ok (zero32, s)
  storage_of head open_runs address slot block (some account) s =
      if not account.exists then ok (zero32, s) else (do
        (value, s1) ← lookup head open_runs (storage_key address account.incarnation slot) block s
        word ← to_word value
        ok (word, s1))

  unfoldable pub storage :
      Head → List OpenRun → Bytes → Bytes → ℕ → Request cache → Result (Bytes × Request cache)
  storage head open_runs address slot block s = do
    (account, s1) ← account_in head open_runs address block s
    storage_of head open_runs address slot block account s1

  -- With Keccak-256 of the crate sha3.
  module _ (keccak : Bytes → Bytes) where
    unfoldable pub check_code : Bytes → Option Bytes → Result Bytes
    check_code code_hash none = err bad_code_blob
    check_code code_hash (some bytes) = do
      bail_if (ltb max_code (length bytes) || not (bytes_eq (keccak bytes) code_hash)) bad_code_blob
      ok bytes

    -- `Reader::code` from the account on
    unfoldable pub code_of :
        Head
        → List OpenRun
        → ℕ
        → Option AccountEvent
        → Request cache
        → Result (Bytes × Request cache)
    code_of head open_runs block none s = ok ([], s)
    code_of head open_runs block (some account) s =
        if not account.exists || bytes_eq account.code_hash (keccak []) then ok ([], s) else (do
          (value, s1) ← lookup head open_runs (code_key account.code_hash) block s
          bytes ← check_code account.code_hash value
          ok (bytes, s1))

    unfoldable pub code :
        Head → List OpenRun → Bytes → ℕ → Request cache → Result (Bytes × Request cache)
    code head open_runs address block s = do
      (account, s1) ← account_in head open_runs address block s
      code_of head open_runs block account s1

-- The loop of `Reader::open` over the runs of the head, with `Run::input` read out.
module _ (sha : Sha256) (hex : Hex) where
  unfoldable pub open_runs : List Run → Result (List OpenRun)
  open_runs [] = ok []
  open_runs (run ∷ rest) = do
    bytes ← hex.decode run.root_bytes
    indexes ← decode_root sha (record { digest = run.root.digest; size = run.root.size }) bytes
    others ← open_runs rest
    ok ((run, indexes) ∷ others)
