-- ===== src/Store/Memory/Puts.antt =====
-- `put_immutable` of the memory store keeps what was put.
use fossil.Base.{Bool-cases, Option, ap, inl, inr, none, ok, refl, some, ◌≡◌}
use mathlib.Core.Path.{subst}
use fossil.Bytes.{Bytes, bytes_eq}
use fossil.Bytes.Order.{bytes_eq_refl, eq_of_bytes_eq}
use fossil.Store.Immutable.{ImmutableStore}
use fossil.Store.Memory.{
  Entry, MemoryState, entry_at, get, get_from, insert_entry, put_immutable, put_over,
}
use fossil.Store.Memory.Swaps.{entry_at-insert_ne}

get-insert : (key bytes : Bytes) (s : MemoryState) → get key (insert_entry key bytes s) ≡ ok bytes
unfolding get insert_entry entry_at get_from
get-insert key bytes s = rw (bytes_eq_refl key) refl

put_over-get :
    (found : Option Entry) (key bytes : Bytes) (s after : MemoryState)
    → entry_at s.entries key ≡ found
    → put_over found key bytes s ≡ ok after
    → get key after ≡ ok bytes
unfolding put_over
put_over-get none key bytes s after known e =
    let same : insert_entry key bytes s ≡ after = cc e in
    subst (λ t. get key t ≡ ok bytes) same (get-insert key bytes s)
put_over-get (some entry) key bytes s after known e =
    elim (Bool-cases (bytes_eq entry.bytes bytes)) [
      | inl equal ↦
          let done : ok s ≡ ok after = rw equal at e in
          let same : s ≡ after = cc done in
          subst (λ t. get key t ≡ ok bytes) same
            (unfold get get_from in rw known (ap ok (eq_of_bytes_eq entry.bytes bytes equal)))
      | inr other ↦ absurd (cc (rw other at e))
    ]

insert_keeps :
    (key bytes other found : Bytes) (s : MemoryState)
    → entry_at s.entries key ≡ none
    → get other s ≡ ok found
    → get other (insert_entry key bytes s) ≡ ok found
unfolding get get_from
insert_keeps key bytes other found s fresh there = elim (Bool-cases (bytes_eq other key)) [
  | inl same ↦
      let here = rw (eq_of_bytes_eq other key same) at there in absurd (cc (rw fresh at here))
  | inr apart ↦ rw (entry_at-insert_ne key bytes other s apart) there
]

put_over-keeps :
    (slot : Option Entry) (key bytes other found : Bytes) (s after : MemoryState)
    → entry_at s.entries key ≡ slot
    → put_over slot key bytes s ≡ ok after
    → get other s ≡ ok found
    → get other after ≡ ok found
unfolding put_over
put_over-keeps none key bytes other found s after known e there =
    let same : insert_entry key bytes s ≡ after = cc e in
    subst (λ t. get other t ≡ ok found) same (insert_keeps key bytes other found s known there)
put_over-keeps (some entry) key bytes other found s after known e there =
    elim (Bool-cases (bytes_eq entry.bytes bytes)) [
      | inl equal ↦
          let done : ok s ≡ ok after = rw equal at e in
          let same : s ≡ after = cc done in subst (λ t. get other t ≡ ok found) same there
      | inr differ ↦ absurd (cc (rw differ at e))
    ]

pub put_immutable-get :
    (key bytes : Bytes) (s after : MemoryState)
    → put_immutable key bytes s ≡ ok after
    → get key after ≡ ok bytes
unfolding put_immutable
put_immutable-get key bytes s after e =
    put_over-get (entry_at s.entries key) key bytes s after refl e

pub put_immutable-keeps :
    (key bytes other found : Bytes) (s after : MemoryState)
    → put_immutable key bytes s ≡ ok after
    → get other s ≡ ok found
    → get other after ≡ ok found
unfolding put_immutable
put_immutable-keeps key bytes other found s after e =
    put_over-keeps (entry_at s.entries key) key bytes other found s after refl e

-- The memory store.
abbrev pub memory_store : ImmutableStore
memory_store = record {
  State = MemoryState;
  get = get;
  put = put_immutable;
  get_put = put_immutable-get;
  keeps = put_immutable-keeps;
}
