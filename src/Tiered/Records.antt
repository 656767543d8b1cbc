-- ===== src/Tiered/Records.antt =====
-- The records of a package, and the checks of its account lifecycles, before anything is written.
pub mod Staged
use fossil.Base.{
  Bool, List, Option, Result, [], bad_code_blob, bad_lifecycle, bail_if, false, if◌then◌else◌, leb,
  length, ltb, none, not, ok, outside_interval, some, staged_too_large, true, ℕ, ◌&&◌, ◌*◌, ◌++◌,
  ◌+◌, ◌==◌, ◌>>=◌, ◌>>◌, ◌||◌, ◌∷◌,
}
use fossil.Bytes.{Bytes, bytes_eq, version_le}
use fossil.Head.Account.{encode, zero32}
use fossil.Head.Keys.{account_key, storage_key, code_key}
use fossil.Codec.{Record, version_of}
use fossil.Package.{AccountEvent, StorageEvent, CodeBlob, Package, Segment, Mode, anchor, delta}

abbrev pub max_staged : ℕ
max_staged = 256 * 1024 * 1024

abbrev pub max_code : ℕ
max_code = 1024 * 1024

unfoldable pub account_value : AccountEvent → Bytes
account_value event = encode (record {
  exists = event.exists;
  incarnation = event.incarnation;
  nonce = event.nonce;
  balance = event.balance;
  code_hash = event.code_hash;
})

-- `accounts.get(&address)`, and of these events the latest at or before the block: the events are
-- sorted by block in a stable sort and searched from the end.
unfoldable pub latest : Bytes → ℕ → List AccountEvent → Option AccountEvent → Option AccountEvent
latest address block [] best = best
latest address block (event ∷ events) best =
    let better =
      bytes_eq event.address address
      && leb event.block block
      && elim best [ none ↦ true | some prior ↦ leb prior.block event.block ] in
    latest address block events (if better then some event else best)

-- The `match` on the account of a storage event.
unfoldable pub agrees : Bool → StorageEvent → Option AccountEvent → Bool
agrees exhaustive event none = not exhaustive
agrees exhaustive event (some account) =
    (account.exists && account.incarnation == event.incarnation)
    || (not account.exists && bytes_eq event.value zero32)

unfoldable pub is_anchor : Mode → Bool
is_anchor anchor = true
is_anchor delta = false

unfoldable pub check_storage : Bool → List AccountEvent → List StorageEvent → Result (Unit {0})
check_storage exhaustive accounts [] = ok tt
check_storage exhaustive accounts (event ∷ events) = do
  bail_if (not (agrees exhaustive event (latest event.address event.block accounts none)))
      bad_lifecycle
  check_storage exhaustive accounts events

unfoldable pub has_code : Bytes → List CodeBlob → Bool
has_code hash [] = false
has_code hash (blob ∷ blobs) = bytes_eq blob.code_hash hash || has_code hash blobs

-- The state of the closure `add`: the bytes so far, and the records.
unfoldable pub add_record : ℕ → ℕ → ℕ × List Record → Bytes → ℕ → Bytes → Result (ℕ × List Record)
add_record first last (input_bytes, records) key block value = do
  bail_if (ltb block first || ltb last block) outside_interval
  let total = input_bytes + (length key + length value + 32)
  bail_if (ltb max_staged total) staged_too_large
  ok (total, records ++ record { key = key; block = block; value = value } ∷ [])

unfoldable pub add_accounts : ℕ → ℕ → List AccountEvent → ℕ × List Record → Result (ℕ × List Record)
add_accounts first last [] state = ok state
add_accounts first last (event ∷ events) state = do
  next ← add_record first last state (account_key event.address) event.block (account_value event)
  add_accounts first last events next

unfoldable pub add_storage : ℕ → ℕ → List StorageEvent → ℕ × List Record → Result (ℕ × List Record)
add_storage first last [] state = ok state
add_storage first last (event ∷ events) state = do
  next ←
      add_record first last state (storage_key event.address event.incarnation event.slot)
        event.block event.value
  add_storage first last events next

-- `sort_unstable_by` of `(key, block)`; the order of equal pairs is not specified.
unfoldable pub insert_record : Record → List Record → List Record
insert_record r [] = r ∷ []
insert_record r (s ∷ rs) =
    let rest = insert_record r rs in
    if version_le (version_of r) (version_of s) then r ∷ s ∷ rs else s ∷ rest

unfoldable pub sort_records : List Record → List Record
sort_records [] = []
sort_records (r ∷ rs) = insert_record r (sort_records rs)

-- With Keccak-256 of the crate sha3.
module _ (keccak : Bytes → Bytes) where
  unfoldable pub lacks_code : List CodeBlob → List AccountEvent → Bool
  lacks_code blobs [] = false
  lacks_code blobs (account ∷ accounts) =
      (account.exists
        && not (bytes_eq account.code_hash (keccak []))
        && not (has_code account.code_hash blobs))
      || lacks_code blobs accounts

  unfoldable pub validate_lifecycle : Package → Result (Unit {0})
  validate_lifecycle pkg = do
    check_storage (is_anchor pkg.mode) pkg.segment.accounts pkg.segment.storage
    bail_if (is_anchor pkg.mode && lacks_code pkg.segment.code pkg.segment.accounts) bad_lifecycle
    ok tt

  unfoldable pub add_code : ℕ → ℕ → List CodeBlob → ℕ × List Record → Result (ℕ × List Record)
  add_code first last [] state = ok state
  add_code first last (blob ∷ blobs) state = do
    bail_if (ltb max_code (length blob.bytes) || not (bytes_eq (keccak blob.bytes) blob.code_hash))
        bad_code_blob
    next ← add_record first last state (code_key blob.code_hash) blob.first_seen_block blob.bytes
    add_code first last blobs next

  -- from the first and the last block on
  unfoldable pub package_records : Segment → ℕ → ℕ → Result (List Record)
  package_records segment first last = do
    s1 ← add_accounts first last segment.accounts (0, [])
    s2 ← add_storage first last segment.storage s1
    (total, records) ← add_code first last segment.code s2
    ok (sort_records records)
