-- ===== src/Codec/Data/RoundTrip.antt =====
-- What `encode_record` and the page builder write, `parse_data_payload` reads back.
use fossil.Base.{
  All, List, Option, [], ap, arith, false, get_last?, length, length-append, ltb, lt→ltb, none, ok,
  refl, some, sym, true, ℕ, ◌*◌, ◌++◌, ◌+◌, ◌-◌, ◌/◌, ◌<◌, ◌==◌, ◌^◌, ◌∙◌, ◌∷◌, ◌≡◌, ◌≤◌,
}
use mathlib.Core.List.{append-nil}
use mathlib.Core.Path.{ap₂}
use mathlib.Core.List.{append_assoc}
use mathlib.Core.Path.{subst}
use fossil.Bytes.{Bytes, bytes_eq, version_le, version_lt, from_be, be_bytes, slice}
use fossil.Bytes.Cursor.{At, At-append, read_bytes-At}
use fossil.Bytes.Words.{length-be_bytes, from_be-be_u32, from_be-be_u64}
use fossil.Extern.{Sha256}
use fossil.Codec.{Record, version_of, is_empty, read_u32, read_u64}
use fossil.Codec.Data.{
  encode_record, page_header, read_record, out_of_order, misroutes, record_loop, bad_page_header,
  page_mismatch, parse_data_payload,
}

-- The bytes of one record, and of several.
unfoldable pub record_bytes : Record → Bytes
record_bytes r =
    be_bytes 4 (length r.key)
    ++ (r.key ++ (be_bytes 8 r.block ++ (be_bytes 4 (length r.value) ++ r.value)))

unfoldable pub records_bytes : List Record → Bytes
records_bytes [] = []
records_bytes (r ∷ rs) = record_bytes r ++ records_bytes rs

-- The lengths and the block are `u32` and `u64`.
pub record RecordFits (r : Record) : Type 0 where
  pub key_fits : length r.key < 2 ^ 32
  pub block_fits : r.block < 2 ^ 64
  pub value_fits : length r.value < 2 ^ 32

pub encode_record_lem : (r : Record) → RecordFits r → encode_record r ≡ ok (record_bytes r)
unfolding encode_record record_bytes
encode_record_lem r f = rw (lt→ltb _ _ f.key_fits, lt→ltb _ _ f.value_fits)

pub length-record_bytes :
    (r : Record) → length (record_bytes r) ≡ 16 + length r.key + length r.value
unfolding record_bytes
length-record_bytes r = omega (
  arith,
  length-append (be_bytes 4 (length r.key))
      (r.key ++ (be_bytes 8 r.block ++ (be_bytes 4 (length r.value) ++ r.value))),
  length-append r.key (be_bytes 8 r.block ++ (be_bytes 4 (length r.value) ++ r.value)),
  length-append (be_bytes 8 r.block) (be_bytes 4 (length r.value) ++ r.value),
  length-append (be_bytes 4 (length r.value)) r.value,
  length-be_bytes 4 (length r.key),
  length-be_bytes 8 r.block,
  length-be_bytes 4 (length r.value),
)

read_u32-At :
    (bytes rest : Bytes) (cursor v : ℕ)
    → v < 2 ^ 32
    → At bytes cursor (be_bytes 4 v ++ rest)
    → (read_u32 bytes cursor ≡ ok (v, cursor + 4)) × At bytes (cursor + 4) rest
unfolding read_u32
read_u32-At bytes rest cursor v h at =
    let (e, at') = read_bytes-At bytes (be_bytes 4 v) rest cursor 4 at (length-be_bytes 4 v) in
    (rw (e, from_be-be_u32 v h), at')

read_u64-At :
    (bytes rest : Bytes) (cursor v : ℕ)
    → v < 2 ^ 64
    → At bytes cursor (be_bytes 8 v ++ rest)
    → (read_u64 bytes cursor ≡ ok (v, cursor + 8)) × At bytes (cursor + 8) rest
unfolding read_u64
read_u64-At bytes rest cursor v h at =
    let (e, at') = read_bytes-At bytes (be_bytes 8 v) rest cursor 8 at (length-be_bytes 8 v) in
    (rw (e, from_be-be_u64 v h), at')

regroup :
    (r : Record) (rest : Bytes)
    → record_bytes r ++ rest
      ≡ be_bytes 4 (length r.key)
        ++ (r.key ++ (be_bytes 8 r.block ++ (be_bytes 4 (length r.value) ++ (r.value ++ rest))))
unfolding record_bytes
regroup r rest = simp append_assoc

-- A record is read where its bytes stand, and the cursor moves behind them.
pub read_record-At :
    (bytes rest : Bytes) (cursor : ℕ) (r : Record)
    → RecordFits r
    → At bytes cursor (record_bytes r ++ rest)
    → (read_record bytes cursor ≡ ok (r, cursor + length (record_bytes r)))
      × At bytes (cursor + length (record_bytes r)) rest
unfolding read_record
read_record-At bytes rest cursor r f at =
    let at0 = subst (At bytes cursor) (regroup r rest) at in
    let (e1, at1) = read_u32-At bytes _ cursor (length r.key) f.key_fits at0 in
    let (e2, at2) = read_bytes-At bytes r.key _ (cursor + 4) (length r.key) at1 refl in
    let (e3, at3) = read_u64-At bytes _ (cursor + 4 + length r.key) r.block f.block_fits at2 in
    let (e4, at4) =
      read_u32-At bytes _ (cursor + 4 + length r.key + 8) (length r.value) f.value_fits at3 in
    let (e5, at5) =
      read_bytes-At bytes r.value rest (cursor + 4 + length r.key + 8 + 4) (length r.value) at4
        refl in
    let end : cursor + 4 + length r.key + 8 + 4 + length r.value
        ≡ cursor + length (record_bytes r) =
      omega (arith, length-record_bytes r) in
    (rw (e1, e2, e3, e4, e5, end), subst (λ c. At bytes c rest) end at5)

-- Strictly after what was read last.
abbrev pub After : Option Record → Record → Type 0
After none r = Unit
After (some prior) r = version_lt (version_of prior) (version_of r) ≡ true

abbrev pub AscendingFrom : Option Record → List Record → Type 0
AscendingFrom prior [] = Unit
AscendingFrom prior (r ∷ rs) = After prior r × AscendingFrom (some r) rs

in_order : (prior : Option Record) (r : Record) → After prior r → out_of_order prior r ≡ false
unfolding out_of_order version_le
in_order none r h = refl
in_order (some p) r h = ground (arith, h)

pub get_last?-snoc : (records : List Record) (r : Record) → get_last? (records ++ r ∷ []) ≡ some r
get_last?-snoc [] r = refl
get_last?-snoc (a ∷ []) r = refl
get_last?-snoc (a ∷ b ∷ records) r = get_last?-snoc (b ∷ records) r

module _ (sha : Sha256) where
  -- A key that the partition holds; `none` is the builder's own reading of its page.
  abbrev pub Routed : Option ℕ → Record → Type 0
  Routed expected r = (is_empty r.key ≡ false) × (misroutes sha expected r.key ≡ false)

  pub record_loop-At :
      (expected : Option ℕ) (bytes rest : Bytes) (cursor : ℕ) (acc rs : List Record)
      → All RecordFits rs
      → All (Routed expected) rs
      → AscendingFrom (get_last? acc) rs
      → At bytes cursor (records_bytes rs ++ rest)
      → record_loop sha (length rs) expected bytes cursor acc
        ≡ ok (acc ++ rs, cursor + length (records_bytes rs))
  unfolding record_loop records_bytes
  record_loop-At expected bytes rest cursor acc [] fits routed asc at =
      ap₂ (λ s t. ok (s, t)) (sym (append-nil acc)) (omega arith)
  record_loop-At expected bytes rest cursor acc (r ∷ rs) (f, fits) ((ne, ro), routed) (after, asc)
        at =
      let at0 =
        subst (At bytes cursor) (append_assoc (record_bytes r) (records_bytes rs) rest) at in
      let (e, at1) = read_record-At bytes (records_bytes rs ++ rest) cursor r f at0 in
      let asc' = subst (λ p. AscendingFrom p rs) (sym (get_last?-snoc acc r)) asc in
      let ih =
        record_loop-At expected bytes rest (cursor + length (record_bytes r)) (acc ++ r ∷ []) rs
          fits routed asc' at1 in
      rw (e, ne, ro, in_order (get_last? acc) r after, ih)
        (ap₂ (λ s t. ok (s, t)) (append_assoc acc (r ∷ []) rs)
          (omega (arith, length-append (record_bytes r) (records_bytes rs))))

  nonempty_length : (key : Bytes) → is_empty key ≡ false → 1 ≤ length key
  unfolding is_empty
  nonempty_length [] h = cc
  nonempty_length (x ∷ key) h = omega arith

  length-records_bytes :
      (expected : Option ℕ) (rs : List Record)
      → All (Routed expected) rs
      → 17 * length rs ≤ length (records_bytes rs)
  unfolding records_bytes
  length-records_bytes expected [] h = omega arith
  length-records_bytes expected (r ∷ rs) ((ne, ro), h) = omega (
    arith,
    length-append (record_bytes r) (records_bytes rs),
    length-record_bytes r,
    nonempty_length r.key ne,
    length-records_bytes expected rs h,
  )

  -- The page of some records, as the builder fills it.
  unfoldable pub page : List Record → Bytes
  page rs = page_header (length rs) ++ records_bytes rs

  good_header : (rs : List Record) → bad_page_header sha (page rs) ≡ false
  unfolding bad_page_header page page_header be_bytes bytes_eq
  good_header rs = ground arith

  count_bytes : (rs : List Record) → slice (page rs) 5 9 ≡ be_bytes 4 (length rs)
  unfolding page page_header be_bytes
  count_bytes rs = refl

  count_of : (rs : List Record) → length rs < 2 ^ 32 → from_be (slice (page rs) 5 9) ≡ length rs
  count_of rs h = ap from_be (count_bytes rs) ∙ from_be-be_u32 (length rs) h

  page-At : (rs : List Record) → At (page rs) 9 (records_bytes rs ++ [])
  unfolding page page_header be_bytes
  page-At rs =
      subst (At (page rs) 9) (sym (append-nil (records_bytes rs)))
        (At-append (page_header (length rs)) (records_bytes rs) 9 (omega arith))

  length-page : (rs : List Record) → length (page rs) ≡ 9 + length (records_bytes rs)
  unfolding page page_header be_bytes
  length-page rs = omega arith

  -- What a page has to hold.
  pub record IsPage (expected : Option ℕ) (rs : List Record) : Type 0 where
    pub some_record : is_empty rs ≡ false
    pub fits : All RecordFits rs
    pub routed : All (Routed expected) rs
    pub ascending : AscendingFrom none rs

  -- A page of fewer than 2 ^ 32 records, in ascending order and with keys of the expected partition,
  -- is parsed back into them.
  pub parse_data_payload-page :
      (expected : Option ℕ) (rs : List Record)
      → length rs < 2 ^ 32
      → IsPage expected rs
      → parse_data_payload sha (page rs) expected ≡ ok rs
  unfolding parse_data_payload page_mismatch
  parse_data_payload-page expected rs h p =
      let n = length-page rs in
      let many : ltb ((length (page rs) - 9) / 17) (length rs) ≡ false =
        ground (arith, n, length-records_bytes expected rs p.routed) in
      let at : At (page rs) 9 (records_bytes rs ++ []) = page-At rs in
      let loop = record_loop-At expected (page rs) [] 9 [] rs p.fits p.routed p.ascending at in
      let exact : (9 + length (records_bytes rs) == length (page rs)) ≡ true = ground (arith, n) in
      rw (good_header rs, count_of rs h, many, loop, exact, p.some_record)
