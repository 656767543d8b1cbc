-- ===== src/Codec/Root.antt =====
-- `RunReader::decode`: the root object, with one index reference for each partition.
use fossil.Base.{
  >>=-eq-ok, Bool, Bool-cases, List, Result, [], ap, arith, bad_fence_ref, bad_header, bad_length,
  bail_if, bail_if-eq-ok, drop, false, get_or, inl, inr, leb, leb→le, length, not, ok, refl, suc,
  take, zero, ℕ, ◌&&◌, ◌*◌, ◌+◌, ◌<◌, ◌==◌, ◌>>=◌, ◌>>◌, ◌||◌, ◌∷◌, ◌≡◌, ◌≢◌, ◌≤◌, ◌⊎◌,
}
use mathlib.Core.Path.{subst}
use fossil.Bytes.{Bytes, bytes_eq, from_be, read_bytes}
use fossil.Bytes.Order.{bytes_eq_refl, eq_of_bytes_eq}
use fossil.Head.Account.{zero32}
use fossil.Extern.{Sha256}
use fossil.Codec.{
  ObjectRef, no_object, ref_eq, bad_ref, read_ref, verify_object, root_magic, version, partitions,
  ref_bytes, root_bytes, max_index_bytes,
}

unfoldable pub bad_slot : ObjectRef → Bool
bad_slot slot = not (ref_eq slot no_object) && bad_ref max_index_bytes slot

-- The loop over the slots, from `index` on.
unfoldable pub read_slots : ℕ → ℕ → Bytes → Result (List ObjectRef)
read_slots zero index bytes = ok []
read_slots (suc count) index bytes = do
  (slot, end) ← read_ref bytes (5 + index * ref_bytes)
  bail_if (bad_slot slot) bad_fence_ref
  slots ← read_slots count (index + 1) bytes
  ok (slot ∷ slots)

module _ (sha : Sha256) where
  unfoldable pub bad_root : Bytes → Bool
  bad_root bytes =
      not (length bytes == root_bytes)
      || not (bytes_eq (take 4 bytes) root_magic)
      || not (get_or bytes 4 0 == version)

  unfoldable pub decode_root : ObjectRef → Bytes → Result (List ObjectRef)
  decode_root reference bytes = do
    bail_if (not (length bytes == root_bytes)) bad_length
    verify_object sha reference bytes
    bail_if (bad_root bytes) bad_header
    read_slots partitions 0 bytes

-- The 36 bytes of a slot.
abbrev pub slot_bytes : Bytes → ℕ → Bytes
slot_bytes bytes index = take 36 (drop (5 + index * 36) bytes)

-- A slot is what stands at its place in the root, and it is zero, or names an object of at least one
-- byte and at most the size that `lookup` fetches of an index.
abbrev pub IsSlotAt : Bytes → ℕ → ObjectRef → Type 0
IsSlotAt bytes index slot =
    (5 + index * 36 + 36 ≤ length bytes)
    × (slot.digest ≡ take 32 (slot_bytes bytes index))
    × (slot.size ≡ from_be (drop 32 (slot_bytes bytes index)))
    × (((slot.digest ≡ zero32) × (slot.size ≡ 0))
        ⊎ ((0 < slot.size) × (slot.size ≤ max_index_bytes) × (slot.digest ≢ zero32)))

-- The slots from an index on.
abbrev pub AreSlots : Bytes → ℕ → List ObjectRef → Type 0
AreSlots bytes index [] = Unit
AreSlots bytes index (slot ∷ slots) = IsSlotAt bytes index slot × AreSlots bytes (index + 1) slots

-- What the guard lets through.
sound_slot :
    (slot : ObjectRef)
    → bad_slot slot ≡ false
    → ((slot.digest ≡ zero32) × (slot.size ≡ 0))
      ⊎ ((0 < slot.size) × (slot.size ≤ max_index_bytes) × (slot.digest ≢ zero32))
unfolding bad_slot ref_eq bad_ref no_object
sound_slot slot h = elim (Bool-cases (bytes_eq slot.digest zero32)) [
  | inl zeros ↦ inl (eq_of_bytes_eq slot.digest zero32 zeros, ground (arith, h, zeros))
  | inr other ↦ inr (
    ground (arith, h, other),
    ground (arith, h, other),
    λ e. absurd (cc (other, ap (λ d. bytes_eq d zero32) e, bytes_eq_refl zero32)),
  )
]

read_ref-at :
    (bytes : Bytes) (index : ℕ) (slot : ObjectRef) (end : ℕ)
    → read_ref bytes (5 + index * ref_bytes) ≡ ok (slot, end)
    → (5 + index * 36 + 36 ≤ length bytes)
      × (slot.digest ≡ take 32 (slot_bytes bytes index))
      × (slot.size ≡ from_be (drop 32 (slot_bytes bytes index)))
unfolding read_ref read_bytes
read_ref-at bytes index slot end e = elim (Bool-cases (leb (5 + index * 36 + 36) (length bytes))) [
  | inl fits ↦ let done = rw fits at e in (leb→le _ _ fits, cc done, cc done)
  | inr short ↦ absurd (cc (rw short at e))
]

read_slots-AreSlots :
    (count index : ℕ) (bytes : Bytes) (slots : List ObjectRef)
    → read_slots count index bytes ≡ ok slots
    → (length slots ≡ count) × AreSlots bytes index slots
unfolding read_slots
read_slots-AreSlots zero index bytes slots h =
    let nothing : [] ≡ slots = cc h in
    subst (λ t. (length t ≡ 0) × AreSlots bytes index t) nothing (refl, tt)
read_slots-AreSlots (suc count) index bytes slots h =
    let ((slot, end), e, h1) = >>=-eq-ok (read_ref bytes (5 + index * ref_bytes)) _ h in
    let (good, h2) = bail_if-eq-ok (bad_slot slot) _ _ h1 in
    let (rest, e2, h3) = >>=-eq-ok (read_slots count (index + 1) bytes) _ h2 in
    let (n, all) = read_slots-AreSlots count (index + 1) bytes rest e2 in
    let (fits, digest, size) = read_ref-at bytes index slot end e in
    let same : slot ∷ rest ≡ slots = cc h3 in
    subst (λ t. (length t ≡ suc count) × AreSlots bytes index t) same
      (ap suc n, ((fits, digest, size, sound_slot slot good), all))

module _ (sha : Sha256) where
  -- A root that decodes has one slot for each of the sixteen partitions: the reference that stands
  -- at the partition's place in its bytes, which is zero, or is not, and then names an object of at
  -- least one byte and at most the size of an index.
  pub decode_root-AreSlots :
      (reference : ObjectRef) (bytes : Bytes) (slots : List ObjectRef)
      → decode_root sha reference bytes ≡ ok slots
      → (length slots ≡ 16) × AreSlots bytes 0 slots
  unfolding decode_root
  decode_root-AreSlots reference bytes slots h =
      let (t1, h1) = bail_if-eq-ok (not (length bytes == root_bytes)) _ _ h in
      let (u, e, h2) = >>=-eq-ok (verify_object sha reference bytes) _ h1 in
      let (t3, h3) = bail_if-eq-ok (bad_root sha bytes) _ _ h2 in
      read_slots-AreSlots partitions 0 bytes slots h3
