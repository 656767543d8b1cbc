-- ===== src/Store/Memory.antt =====
-- `MemoryArchiveStore` of src/store.rs, and the counters of `CountingStore`. The lock is not
-- poisoned. A HashMap is a list whose first entry of a key counts; a version's text names its number.
pub mod Swaps
pub mod Puts
use fossil.Base.{
  Bool, List, Option, Result, [], bad_length, cas_lost, err, false, if◌then◌else◌, length, ltb,
  none, not, object_mismatch, ok, some, take, true, unavailable, ℕ, ◌%◌, ◌+◌, ◌==◌, ◌^◌, ◌∷◌,
}
use fossil.Bytes.{Bytes, bytes_eq}

pub record Entry : Type 0 where
  pub bytes : Bytes
  pub version : ℕ

-- `VersionedBytes`
pub record Versioned : Type 0 where
  pub bytes : Bytes
  pub version : ℕ

pub record MemoryState : Type 0 where
  pub entries : List (Bytes × Entry)
  pub next_version : ℕ

-- `MemoryArchiveStore::default()`
abbrev pub empty_store : MemoryState
empty_store = record { entries = []; next_version = 0 }

-- `HashMap::get` and `HashMap::remove`
unfoldable pub entry_at : List (Bytes × Entry) → Bytes → Option Entry
entry_at [] key = none
entry_at ((k, entry) ∷ entries) key = if bytes_eq key k then some entry else entry_at entries key

unfoldable pub remove : List (Bytes × Entry) → Bytes → List (Bytes × Entry)
remove [] key = []
remove ((k, entry) ∷ entries) key =
    let rest = remove entries key in if bytes_eq key k then rest else (k, entry) ∷ rest

-- `MemoryState::insert`
unfoldable pub insert_entry : Bytes → Bytes → MemoryState → MemoryState
insert_entry key bytes s =
    let next = (s.next_version + 1) % 2 ^ 64 in
    record {
      entries = (key, record { bytes = bytes; version = next }) ∷ remove s.entries key;
      next_version = next;
    }

unfoldable pub delete : Bytes → MemoryState → MemoryState
delete key s = record s { entries = remove s.entries key }

unfoldable pub get_from : Option Entry → Result Bytes
get_from none = err unavailable
get_from (some entry) = ok (entry.bytes)

unfoldable pub get : Bytes → MemoryState → Result Bytes
get key s = get_from (entry_at s.entries key)

unfoldable pub bounded_from : Option Entry → ℕ → Result Bytes
bounded_from none maximum = err unavailable
bounded_from (some entry) maximum =
    if ltb maximum (length entry.bytes) then err bad_length else ok (entry.bytes)

unfoldable pub get_bounded : Bytes → ℕ → MemoryState → Result Bytes
get_bounded key maximum s = bounded_from (entry_at s.entries key) maximum

-- `put_immutable` from the entry on
unfoldable pub put_over : Option Entry → Bytes → Bytes → MemoryState → Result MemoryState
put_over none key bytes s = ok (insert_entry key bytes s)
put_over (some entry) key bytes s = if bytes_eq entry.bytes bytes then ok s else err object_mismatch

unfoldable pub put_immutable : Bytes → Bytes → MemoryState → Result MemoryState
put_immutable key bytes s = put_over (entry_at s.entries key) key bytes s

abbrev pub versioned : Option Entry → Option Versioned
versioned none = none
versioned (some entry) = some (record { bytes = entry.bytes; version = entry.version })

unfoldable pub read_mutable : Bytes → MemoryState → Option Versioned
read_mutable key s = versioned (entry_at s.entries key)

unfoldable pub read_bounded_from : Option Entry → ℕ → Result (Option Versioned)
read_bounded_from none maximum = ok none
read_bounded_from (some entry) maximum =
    if ltb maximum (length entry.bytes) then err bad_length else ok (versioned (some entry))

unfoldable pub read_mutable_bounded : Bytes → ℕ → MemoryState → Result (Option Versioned)
read_mutable_bounded key maximum s = read_bounded_from (entry_at s.entries key) maximum

unfoldable pub swap_matches : Option Versioned → Option Entry → Bool
swap_matches none none = true
swap_matches none (some current) = false
swap_matches (some expected) none = false
swap_matches (some expected) (some current) = expected.version == current.version

unfoldable pub compare_and_swap :
    Bytes → Option Versioned → Bytes → MemoryState → Result MemoryState
compare_and_swap key expected bytes s =
    if not (swap_matches expected (entry_at s.entries key))
    then err cas_lost
    else ok (insert_entry key bytes s)

-- `list`: each key with its size and the time zero
unfoldable pub list_under : Bytes → List (Bytes × Entry) → List (Bytes × ℕ)
list_under prefix [] = []
list_under prefix ((key, entry) ∷ entries) =
    let rest = list_under prefix entries in
    if bytes_eq (take (length prefix) key) prefix then (key, length entry.bytes) ∷ rest else rest
