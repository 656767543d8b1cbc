-- ===== src/Examples/Stores.antt =====
-- A head that is read, deleted and written again in the memory store.
use fossil.Base.{[], arith, cas_lost, err, ok, refl, some, ◌+◌, ◌<◌, ◌^◌, ◌∷◌, ◌≡◌, ◌≢◌, ◌⊎◌}
use fossil.Bytes.{Bytes}
use fossil.Store.Memory.{
  empty_store, MemoryState, Versioned, compare_and_swap, delete, insert_entry, put_immutable,
  read_mutable,
}
use fossil.Store.Memory.Swaps.{
  IsValid, Reach, Step-IsValid, compare_and_swap-Reach, deletes, empty_store-IsValid, here, next,
  puts,
}

abbrev head_key : Bytes
head_key = 7 ∷ []

abbrev head_bytes : Bytes
head_bytes = 42 ∷ []

abbrev stored_once : MemoryState
stored_once = record {
  entries = (head_key, record { bytes = head_bytes; version = 1 }) ∷ [];
  next_version = 1;
}

abbrev stored_twice : MemoryState
stored_twice = record {
  entries = (head_key, record { bytes = head_bytes; version = 2 }) ∷ [];
  next_version = 2;
}

abbrev first_read : Versioned
first_read = record { bytes = head_bytes; version = 1 }

written_once : put_immutable head_key head_bytes empty_store ≡ ok stored_once
unfolding put_immutable fossil.Store.Memory.put_over fossil.Store.Memory.remove insert_entry
    fossil.Store.Memory.entry_at fossil.Bytes.bytes_eq
written_once = refl

written_again : put_immutable head_key head_bytes (delete head_key stored_once) ≡ ok stored_twice
unfolding put_immutable fossil.Store.Memory.put_over delete fossil.Store.Memory.remove insert_entry
    fossil.Store.Memory.entry_at fossil.Bytes.bytes_eq
written_again = refl

few_versions : (delete head_key stored_once).next_version + 1 < 2 ^ 64
unfolding delete
few_versions = omega arith

since : Reach stored_once stored_twice
since =
    next (next here (deletes head_key refl)) (puts head_key head_bytes few_versions written_again)

first_read_lem : read_mutable head_key stored_once ≡ some first_read
unfolding read_mutable fossil.Store.Memory.entry_at fossil.Bytes.bytes_eq
first_read_lem = refl

stored_once-IsValid : IsValid stored_once
stored_once-IsValid =
    Step-IsValid empty_store-IsValid (puts head_key head_bytes (omega arith) written_once)

compare_and_swap-Reach_example :
    ((read_mutable head_key stored_twice ≡ some first_read)
      × (compare_and_swap head_key (some first_read) (43 ∷ []) stored_twice
          ≡ ok (insert_entry head_key (43 ∷ []) stored_twice)))
    ⊎ ((read_mutable head_key stored_twice ≢ some first_read)
        × (compare_and_swap head_key (some first_read) (43 ∷ []) stored_twice ≡ err cas_lost))
compare_and_swap-Reach_example =
    compare_and_swap-Reach stored_once stored_twice head_key first_read (43 ∷ [])
      stored_once-IsValid since first_read_lem
