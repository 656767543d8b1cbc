-- ===== src/Worker/Object/Ranges.antt =====
-- The ranges that the worker serves lie in the object.
use fossil.Base.{
  Bool, Bool-cases, Option, arith, drop, false, if◌then◌else◌, inl, inr, leb, length, ltb, min,
  none, not, some, take, true, ℕ, ◌&&◌, ◌+◌, ◌-◌, ◌<◌, ◌==◌, ◌||◌, ◌≤◌,
}
use fossil.Bytes.{Bytes, bytes_eq}
use fossil.Worker.Object.{
  RangeRequest, bytes_unit, all_digits, closed_range, has_byte, ignore, parse_range, parse_u64,
  range_from, range_of, satisfiable, split_dash, suffix_range, unsatisfiable,
}

-- A range that is served is not empty and ends within the object.
abbrev pub IsWithin : RangeRequest → ℕ → Type 0
IsWithin ignore size = Unit {0}
IsWithin unsatisfiable size = Unit {0}
IsWithin (satisfiable offset count) size = (0 < count) × (offset + count ≤ size)

suffix_range-IsWithin : (end : Bytes) (size : ℕ) → IsWithin (suffix_range end size) size
unfolding suffix_range
suffix_range-IsWithin end size = elim (Bool-cases (length end == 0 || not (all_digits end))) [
  | inl bad ↦ rw bad tt
  | inr good ↦ rw good (go (parse_u64 end))
]
  where
    go :
        (o : Option ℕ)
        → IsWithin
            (elim o [
              | none ↦ ignore
              | some suffix ↦
                  if suffix == 0 || size == 0
                  then unsatisfiable
                  else satisfiable (size - min suffix size) (min suffix size)
            ])
            size
    go none = tt
    go (some suffix) = elim (Bool-cases (suffix == 0 || size == 0)) [
      | inl empty ↦ rw empty tt
      | inr some_byte ↦ rw some_byte (ground arith, ground arith)
    ]

range_from-IsWithin :
    (offset : ℕ) (last : Option ℕ) (size : ℕ) → IsWithin (range_from offset last size) size
unfolding range_from
range_from-IsWithin offset none size = elim (Bool-cases (leb size offset)) [
  | inl behind ↦ rw behind tt
  | inr within ↦ rw within (ground arith, ground arith)
]
range_from-IsWithin offset (some end) size = elim (Bool-cases (ltb end offset)) [
  | inl reversed ↦ rw reversed tt
  | inr forward ↦ elim (Bool-cases (leb size offset)) [
    | inl behind ↦ rw (forward, behind) tt
    | inr within ↦ rw (forward, within) (ground arith, ground arith)
  ]
]

closed_range-IsWithin : (start end : Bytes) (size : ℕ) → IsWithin (closed_range start end size) size
unfolding closed_range
closed_range-IsWithin start end size =
    elim (Bool-cases (not (all_digits start) || (not (length end == 0) && not (all_digits end)))) [
      | inl bad ↦ rw bad tt
      | inr good ↦ rw good (go (parse_u64 start) (parse_u64 end) (length end == 0))
    ]
  where
    go :
        (o last : Option ℕ) (open_end : Bool)
        → IsWithin
            (elim o [
              | none ↦ ignore
              | some offset ↦
                  if open_end
                  then range_from offset none size
                  else elim last [ none ↦ ignore | some last ↦ range_from offset (some last) size ]
            ])
            size
    go none last open_end = tt
    go (some offset) last true = range_from-IsWithin offset none size
    go (some offset) none false = tt
    go (some offset) (some last) false = range_from-IsWithin offset (some last) size

range_of-IsWithin : (value : Bytes) (size : ℕ) → IsWithin (range_of value size) size
unfolding range_of
range_of-IsWithin value size = elim (Bool-cases (has_byte b',' value)) [
  | inl many ↦ rw many tt
  | inr one ↦ rw one (go (split_dash value))
]
  where
    go :
        (o : Option (Bytes × Bytes))
        → IsWithin
            (elim o [
              | none ↦ ignore
              | some (start, end) ↦
                  if length start == 0 then suffix_range end size else closed_range start end size
            ])
            size
    go none = tt
    go (some (start, end)) = elim (Bool-cases (length start == 0)) [
      | inl suffix ↦ rw suffix (suffix_range-IsWithin end size)
      | inr closed ↦ rw closed (closed_range-IsWithin start end size)
    ]

-- Whatever the range header says, the range that is read of an object of the size is not empty and
-- ends within the object.
pub parse_range-IsWithin : (value : Bytes) (size : ℕ) → IsWithin (parse_range value size) size
unfolding parse_range
parse_range-IsWithin value size = elim (Bool-cases (bytes_eq (take 6 value) bytes_unit)) [
  | inl bytes ↦ rw bytes (range_of-IsWithin (drop 6 value) size)
  | inr other ↦ rw other tt
]
