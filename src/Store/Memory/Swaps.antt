-- ===== src/Store/Memory/Swaps.antt =====
-- What a conditional update against a read of the memory store depends on.
use fossil.Base.{
  Bool-cases, List, Option, [], ap, arith, cas_lost, err, false, inl, inr, none, not, ok, refl,
  some, sym, true, ◌%◌, ◌+◌, ◌<◌, ◌==◌, ◌^◌, ◌∙◌, ◌∷◌, ◌≡◌, ◌≢◌, ◌≤◌, ◌⊎◌,
}
use mathlib.Core.Path.{subst}
use fossil.Bytes.{Bytes, bytes_eq}
use fossil.Bytes.Order.{eq_of_bytes_eq}
use fossil.Store.Memory.{
  empty_store, Entry, MemoryState, Versioned, compare_and_swap, delete, entry_at, insert_entry,
  put_immutable, put_over, read_mutable, remove, swap_matches, versioned,
}

entry_at-remove_eq :
    (entries : List (Bytes × Entry)) (key : Bytes) → entry_at (remove entries key) key ≡ none
unfolding entry_at remove
entry_at-remove_eq [] key = refl
entry_at-remove_eq ((k, e) ∷ rest) key = elim (Bool-cases (bytes_eq key k)) [
  | inl same ↦ rw same (entry_at-remove_eq rest key)
  | inr other ↦ rw (other, other) (entry_at-remove_eq rest key)
]

entry_at-remove_ne :
    (entries : List (Bytes × Entry)) (key other : Bytes)
    → bytes_eq other key ≡ false
    → entry_at (remove entries key) other ≡ entry_at entries other
unfolding entry_at remove
entry_at-remove_ne [] key other d = refl
entry_at-remove_ne ((k, e) ∷ rest) key other d = elim (Bool-cases (bytes_eq key k)) [
  | inl same ↦
      let apart : bytes_eq other k ≡ false =
        subst (λ t. bytes_eq other t ≡ false) (eq_of_bytes_eq key k same) d in
      rw (same, apart) (entry_at-remove_ne rest key other d)
  | inr differs ↦ elim (Bool-cases (bytes_eq other k)) [
    | inl hit ↦ rw (differs, hit) refl
    | inr miss ↦ rw (differs, miss) (entry_at-remove_ne rest key other d)
  ]
]

-- Each version was handed out.
pub record IsValid (s : MemoryState) : Type 0 where
  pub handed_out :
      (key : Bytes) (e : Entry) → entry_at s.entries key ≡ some e → e.version ≤ s.next_version

-- What the store's clients do between two reads, as long as its versions do not run out.
pub data Step (s t : MemoryState) : Type 0 where
  puts :
      (key bytes : Bytes)
      → s.next_version + 1 < 2 ^ 64
      → put_immutable key bytes s ≡ ok t
      → Step s t
  swaps :
      (key : Bytes) (expected : Option Versioned) (bytes : Bytes)
      → s.next_version + 1 < 2 ^ 64
      → compare_and_swap key expected bytes s ≡ ok t
      → Step s t
  deletes : (key : Bytes) → delete key s ≡ t → Step s t

pub data Reach (s : MemoryState) : MemoryState → Type 0 where
  here : Reach s s
  next : {t u : MemoryState} → Reach s t → Step t u → Reach s u

-- An entry is the one that was there, or has a version that was handed out since.
record Since (s t : MemoryState) : Type 0 where
  later : s.next_version ≤ t.next_version
  old_or_new :
      (key : Bytes) (e : Entry)
      → entry_at t.entries key ≡ some e
      → (entry_at s.entries key ≡ some e)
        ⊎ ((s.next_version < e.version) × (e.version ≤ t.next_version))

Since-refl : (s : MemoryState) → Since s s
Since-refl s = record { later = omega arith; old_or_new = λ key e h. inl h }

Since-trans : (s t u : MemoryState) → Since s t → Since t u → Since s u
Since-trans s t u a b = record {
  later = omega (arith, a.later, b.later);
  old_or_new = λ key e h. elim (b.old_or_new key e h) [
    | inl old ↦ elim (a.old_or_new key e old) [
      | inl older ↦ inl older
      | inr (above, below) ↦ inr (above, omega (arith, b.later, below))
    ]
    | inr (above, below) ↦ inr (omega (arith, a.later, above), below)
  ];
}

entry_at-insert_eq :
    (key bytes other : Bytes) (s : MemoryState)
    → bytes_eq other key ≡ true
    → entry_at (insert_entry key bytes s).entries other
      ≡ some (record { bytes = bytes; version = (s.next_version + 1) % 2 ^ 64 })
unfolding entry_at insert_entry
entry_at-insert_eq key bytes other s same = rw same refl

pub entry_at-insert_ne :
    (key bytes other : Bytes) (s : MemoryState)
    → bytes_eq other key ≡ false
    → entry_at (insert_entry key bytes s).entries other ≡ entry_at s.entries other
unfolding entry_at insert_entry
entry_at-insert_ne key bytes other s d = rw d (entry_at-remove_ne s.entries key other d)

insert_entry-Since :
    (key bytes : Bytes) (s : MemoryState)
    → s.next_version + 1 < 2 ^ 64
    → Since s (insert_entry key bytes s)
unfolding insert_entry
insert_entry-Since key bytes s fits =
    let wraps : (s.next_version + 1) % 2 ^ 64 ≡ s.next_version + 1 = omega arith in
    record {
      later = omega (arith, wraps);
      old_or_new = λ other e h. elim (Bool-cases (bytes_eq other key)) [
        | inl same ↦
            let fresh : Entry = record { bytes = bytes; version = (s.next_version + 1) % 2 ^ 64 } in
            let made : fresh ≡ e = cc (h, entry_at-insert_eq key bytes other s same) in
            let new : (s.next_version + 1) % 2 ^ 64 ≡ e.version =
              ap (λ (x : Entry). x.version) made in
            inr (omega (arith, new, wraps), omega (arith, new))
        | inr differs ↦ inl (sym (entry_at-insert_ne key bytes other s differs) ∙ h)
      ];
    }

delete-Since : (key : Bytes) (s : MemoryState) → Since s (delete key s)
unfolding delete
delete-Since key s = record {
  later = omega arith;
  old_or_new = λ other e h. elim (Bool-cases (bytes_eq other key)) [
    | inl same ↦
        let gone : entry_at (remove s.entries key) other ≡ none =
          subst (λ t. entry_at (remove s.entries key) t ≡ none)
            (sym (eq_of_bytes_eq other key same)) (entry_at-remove_eq s.entries key) in
        absurd (cc (gone, h))
    | inr differs ↦ inl (sym (entry_at-remove_ne s.entries key other differs) ∙ h)
  ];
}

put_over-Since :
    (found : Option Entry) (key bytes : Bytes) (s t : MemoryState)
    → s.next_version + 1 < 2 ^ 64
    → put_over found key bytes s ≡ ok t
    → Since s t
unfolding put_over
put_over-Since none key bytes s t fits e =
    subst (Since s) (cc e) (insert_entry-Since key bytes s fits)
put_over-Since (some entry) key bytes s t fits e = elim (Bool-cases (bytes_eq entry.bytes bytes)) [
  | inl same ↦ subst (Since s) (cc (rw same at e)) (Since-refl s)
  | inr differs ↦ absurd (cc (rw differs at e))
]

Step-Since : {s t : MemoryState} → Step s t → Since s t
unfolding put_immutable compare_and_swap
Step-Since {s} {t} (puts key bytes fits e) =
    put_over-Since (entry_at s.entries key) key bytes s t fits e
Step-Since {s} {t} (swaps key expected bytes fits e) =
    elim (Bool-cases (not (swap_matches expected (entry_at s.entries key)))) [
      | inl lost ↦ absurd (cc (rw lost at e))
      | inr won ↦ subst (Since s) (cc (rw won at e)) (insert_entry-Since key bytes s fits)
    ]
Step-Since {s} {t} (deletes key e) = subst (Since s) e (delete-Since key s)

Reach-Since : {s t : MemoryState} → Reach s t → Since s t
Reach-Since {s} here = Since-refl s
Reach-Since {s} {t = u} (next {t = m} r st) = Since-trans s m u (Reach-Since r) (Step-Since st)

-- Each read is an entry of the store.
read_entry :
    (found : Option Entry) (read : Versioned)
    → versioned found ≡ some read
    → found ≡ some (record { bytes = read.bytes; version = read.version })
read_entry none read e = absurd (cc e)
read_entry (some entry) read e =
    let plain : Versioned = record { bytes = entry.bytes; version = entry.version } in
    let same : plain ≡ read = cc e in
    λ i. some (record { bytes = (same i).bytes; version = (same i).version })

swap_spec_at :
    (s t : MemoryState) (key : Bytes) (read : Versioned) (bytes : Bytes) (found : Option Entry)
    → IsValid s
    → Since s t
    → entry_at s.entries key ≡ some (record { bytes = read.bytes; version = read.version })
    → entry_at t.entries key ≡ found
    → ((versioned found ≡ some read) × (swap_matches (some read) found ≡ true))
      ⊎ ((versioned found ≢ some read) × (swap_matches (some read) found ≡ false))
unfolding swap_matches
swap_spec_at s t key read bytes none v since before now = inr (λ e. absurd (cc e), refl)
swap_spec_at s t key read bytes (some entry) v since before now =
    elim (Bool-cases (read.version == entry.version)) [
      | inr differs ↦ inr (
        λ e.
            let plain : Versioned = record { bytes = entry.bytes; version = entry.version } in
            let same : plain ≡ read = cc e in
            let at : entry.version ≡ read.version = ap (λ (x : Versioned). x.version) same in
            ground (arith, at, differs),
        differs,
      )
      | inl same ↦ elim (since.old_or_new key entry now) [
        | inl old ↦
            let plain : Entry = record { bytes = read.bytes; version = read.version } in
            let made : plain ≡ entry = cc (before, old) in
            let seen : Entry → Option Versioned =
              λ x. some (record { bytes = x.bytes; version = x.version }) in
            inl (ap seen (sym made), same)
        | inr (new, below) ↦
            let plain : Entry = record { bytes = read.bytes; version = read.version } in
            let old = v.handed_out key plain before in absurd (ground (arith, same, new, old))
      ]
    ]

-- A conditional update against a read of the past, after any puts, swaps and deletions since, succeeds
-- if the store still holds that very read, and fails otherwise, also where the key was deleted and
-- written again; versions do not run out.
pub compare_and_swap-Reach :
    (s t : MemoryState) (key : Bytes) (read : Versioned) (bytes : Bytes)
    → IsValid s
    → Reach s t
    → read_mutable key s ≡ some read
    → ((read_mutable key t ≡ some read)
        × (compare_and_swap key (some read) bytes t ≡ ok (insert_entry key bytes t)))
      ⊎ ((read_mutable key t ≢ some read)
          × (compare_and_swap key (some read) bytes t ≡ err cas_lost))
unfolding read_mutable compare_and_swap
compare_and_swap-Reach s t key read bytes v r e =
    elim (swap_spec_at s t key read bytes (entry_at t.entries key) v (Reach-Since r)
      (read_entry (entry_at s.entries key) read e) refl) [
        | inl (still, won) ↦ inl (still, rw won refl)
        | inr (changed, lost) ↦ inr (changed, rw lost refl)
      ]

-- The initial store, and what the operations keep.
pub empty_store-IsValid : IsValid empty_store
unfolding entry_at
empty_store-IsValid = record { handed_out = λ key e h. absurd (cc h) }

pub Step-IsValid : {s t : MemoryState} → IsValid s → Step s t → IsValid t
Step-IsValid {s} {t} v st =
    let since = Step-Since st in
    record {
      handed_out = λ key e h. elim (since.old_or_new key e h) [
        | inl old ↦ omega (arith, v.handed_out key e old, since.later)
        | inr (above, below) ↦ below
      ];
    }
