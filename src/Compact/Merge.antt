-- ===== src/Compact/Merge.antt =====
-- The producer of `merge_runs`: the heads of the scanners, the least of which is sent on. A scanner
-- is any step that answers the next record; heads and scanners of one index are a pair.
pub mod Choose
pub mod Sorted
use fossil.Base.{
  Bool, List, Option, Result, [], duplicate_version, err, false, if◌then◌else◌, none, ok,
  out_of_fuel, some, suc, zero, ℕ, ◌++◌, ◌>>=◌, ◌∷◌,
}
use fossil.Bytes.{Bytes, bytes_eq, version_eq, version_lt}
use fossil.Extern.{Sha256}
use fossil.Codec.{Record, version_of}
use fossil.Summary.{SummaryBuilder, add, new_builder}

-- `scanner.next(…)`: a record, or none at the end, and the scanner behind it
abbrev pub Scan : Type 0 → Type 0
Scan Scanner = Scanner → Result (Option Record × Scanner)

module _ (Scanner : Type 0) where
  abbrev pub Cursor : Type 0
  Cursor = Option Record × Scanner

  -- The loop over the heads, from `index` on, with the chosen index and its record.
  unfoldable pub choose : List Cursor → ℕ → Option (ℕ × Record) → Result (Option (ℕ × Record))
  choose [] index chosen = ok chosen
  choose ((none, scanner) ∷ rest) index chosen = choose rest (suc index) chosen
  choose ((some r, scanner) ∷ rest) index none = choose rest (suc index) (some (index, r))
  choose ((some r, scanner) ∷ rest) index (some (best, current)) =
      if version_eq (version_of r) (version_of current)
      then err duplicate_version
      else if version_lt (version_of r) (version_of current)
      then choose rest (suc index) (some (index, r))
      else choose rest (suc index) (some (best, current))

  -- The scanners' first records, and the next record of the chosen one.
  unfoldable pub prime : Scan Scanner → List Scanner → Result (List Cursor)
  prime next [] = ok []
  prime next (scanner ∷ rest) = do
    (head, after) ← next scanner
    others ← prime next rest
    ok ((head, after) ∷ others)

  unfoldable pub refill : Scan Scanner → List Cursor → ℕ → Result (List Cursor)
  refill next [] index = ok []
  refill next ((head, scanner) ∷ rest) zero = do
    (head', after) ← next scanner
    ok ((head', after) ∷ rest)
  refill next (cursor ∷ rest) (suc index) = do others ← refill next rest index; ok (cursor ∷ others)

  module _ (sha : Sha256) where
    -- the summary of the keys that were sent, and the last of them
    pub record Sent : Type 0 where
      pub records : List Record
      pub summary : SummaryBuilder
      pub last_key : Option Bytes

    unfoldable pub is_last_key : Option Bytes → Bytes → Bool
    is_last_key none key = false
    is_last_key (some last) key = bytes_eq last key

    -- the end of a round: the summary takes a key that is new, and the record is sent
    unfoldable pub send : Record → Sent → Sent
    unfolding is_last_key
    send r sent = record {
      records = sent.records ++ r ∷ [];
      summary =
          if is_last_key sent.last_key r.key then sent.summary else add sha sent.summary r.key;
      last_key = if is_last_key sent.last_key r.key then sent.last_key else some r.key;
    }

    -- The loop; each round sends a record, so fuel for one more round than there are records is
    -- enough.
    unfoldable pub merge_loop : ℕ → Scan Scanner → List Cursor → Sent → Result Sent
    merge_loop zero next cursors sent = err out_of_fuel
    merge_loop (suc fuel) next cursors sent = do
      chosen ← choose cursors 0 none
      elim chosen [
        | none ↦ ok sent
        | some (index, r) ↦ (do
          cursors' ← refill next cursors index
          merge_loop fuel next cursors' (send r sent))
      ]

    unfoldable pub merge : ℕ → Scan Scanner → List Scanner → ℕ → Result Sent
    merge fuel next scanners expected_keys = do
      summary ← new_builder expected_keys
      cursors ← prime next scanners
      merge_loop fuel next cursors (record { records = []; summary = summary; last_key = none })
