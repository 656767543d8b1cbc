-- ===== src/Codec/Data/Canonical.antt =====
-- What a page that parses must hold: the parser accepts the builder's bytes and no others.
use fossil.Base.{
  >>=-eq-ok, All, All-append, All-drop, All-take, All_split, List, Option, Result, [], ap, arith,
  bail_if-eq-ok, drop, false, get_last?, get_or, length, ltb, none, ok, refl, some, suc, sym, take,
  zero, ℕ, ◌++◌, ◌-◌, ◌/◌, ◌<◌, ◌^◌, ◌||◌, ◌∙◌, ◌∷◌, ◌≡◌, ◌≤◌,
}
use mathlib.Core.List.{append-nil}
use mathlib.Core.Path.{ap₂}
use mathlib.Core.List.{append_assoc}
use mathlib.Core.Path.{subst₂}
use mathlib.Core.Path.{subst}
use fossil.Bytes.{Bytes, AreBytes, IsByte, version_le, read_bytes, from_be, be_bytes, slice}
use fossil.Bytes.Order.{eq_of_bytes_eq}
use fossil.Bytes.Cursor.{read_bytes-eq_ok}
use fossil.Bytes.Words.{be_u32-from_be, be_bytes-from_be, from_be-lt_u32, from_be-lt_u64}
use fossil.Extern.{Sha256}
use fossil.Codec.{Record, data_magic, version, is_empty, read_u32, read_u64}
use fossil.Codec.Data.{
  page_header, read_record, out_of_order, misroutes, record_loop, bad_page_header, page_mismatch,
  parse_data_payload,
}
use fossil.Codec.Data.RoundTrip.{
  record_bytes, records_bytes, RecordFits, After, AscendingFrom, get_last?-snoc, Routed, page,
  IsPage,
}

-- Bytes at a cursor, with what a read left behind them.
abbrev pub Read : Bytes → ℕ → ℕ → Bytes → Type 0
Read bytes cursor end part = (drop cursor bytes ≡ part ++ drop end bytes) × AreBytes part

part_bytes :
    (bytes part rest : Bytes) (cursor : ℕ)
    → AreBytes bytes
    → drop cursor bytes ≡ part ++ rest
    → AreBytes part
part_bytes bytes part rest cursor b e =
    (All_split IsByte part rest (subst AreBytes e (All-drop IsByte cursor bytes b))).0

pub read_bytes-Read :
    (bytes part : Bytes) (cursor n end : ℕ)
    → AreBytes bytes
    → read_bytes bytes cursor n ≡ ok (part, end)
    → Read bytes cursor end part × (length part ≡ n)
read_bytes-Read bytes part cursor n end b h =
    let (e, l, le, at) = read_bytes-eq_ok bytes part cursor n end h in
    ((at.there, part_bytes bytes part (drop end bytes) cursor b at.there), l)

-- The bytes of a word that was read are the encoding of its value.
word_Read :
    (bytes raw : Bytes) (cursor end' end v k : ℕ)
    → Read bytes cursor end' raw
    → be_bytes k (from_be raw) ≡ raw
    → ◌≡◌ {A = Result (ℕ × ℕ)} (ok (from_be raw, end')) (ok (v, end))
    → Read bytes cursor end (be_bytes k v) × (from_be raw ≡ v)
word_Read bytes raw cursor end' end v k (d, bs) same h =
    let ev : from_be raw ≡ v = cc h in
    let ee : end' ≡ end = cc h in
    let re : raw ≡ be_bytes k v = sym same ∙ ap (be_bytes k) ev in
    (subst₂ (λ s t. (drop cursor bytes ≡ s ++ drop t bytes) × AreBytes s) re ee (d, bs), ev)

pub read_u32-Read :
    (bytes : Bytes) (cursor v end : ℕ)
    → AreBytes bytes
    → read_u32 bytes cursor ≡ ok (v, end)
    → Read bytes cursor end (be_bytes 4 v) × (v < 2 ^ 32)
unfolding read_u32
read_u32-Read bytes cursor v end b h =
    let ((raw, end'), e, h1) = >>=-eq-ok (read_bytes bytes cursor 4) _ h in
    let (r, l) = read_bytes-Read bytes raw cursor 4 end' b e in
    let (r', ev) = word_Read bytes raw cursor end' end v 4 r (be_u32-from_be raw l r.1) h1 in
    (r', subst (λ t. t < 2 ^ 32) ev (from_be-lt_u32 raw l r.1))

pub read_u64-Read :
    (bytes : Bytes) (cursor v end : ℕ)
    → AreBytes bytes
    → read_u64 bytes cursor ≡ ok (v, end)
    → Read bytes cursor end (be_bytes 8 v) × (v < 2 ^ 64)
unfolding read_u64
read_u64-Read bytes cursor v end b h =
    let ((raw, end'), e, h1) = >>=-eq-ok (read_bytes bytes cursor 8) _ h in
    let (r, l) = read_bytes-Read bytes raw cursor 8 end' b e in
    let (r', ev) = word_Read bytes raw cursor end' end v 8 r (be_bytes-from_be raw l r.1) h1 in
    (r', subst (λ t. t < 2 ^ 64) ev (from_be-lt_u64 raw l r.1))

Read-append :
    (bytes a c : Bytes) (x y z : ℕ) → Read bytes x y a → Read bytes y z c → Read bytes x z (a ++ c)
Read-append bytes a c x y z (e, ba) (e', bc) =
    (e ∙ ap (λ t. a ++ t) e' ∙ sym (append_assoc a c (drop z bytes)), All-append IsByte a c ba bc)

-- The parts of a record in their places.
record-Read :
    (bytes key value : Bytes) (cursor key_len block value_len end' end : ℕ) (r : Record)
    → Read bytes cursor end'
        (be_bytes 4 key_len ++ (key ++ (be_bytes 8 block ++ (be_bytes 4 value_len ++ value))))
    → length key ≡ key_len
    → length value ≡ value_len
    → key_len < 2 ^ 32
    → block < 2 ^ 64
    → value_len < 2 ^ 32
    → ◌≡◌ {A = Result (Record × ℕ)}
        (ok (record { key = key; block = block; value = value }, end'))
        (ok (r, end))
    → Read bytes cursor end (record_bytes r) × RecordFits r
unfolding record_bytes
record-Read bytes key value cursor key_len block value_len end' end r all l2 l5 f1 f3 f4 h =
    let made : Record = record { key = key; block = block; value = value } in
    let er : made ≡ r = cc h in
    let ee : end' ≡ end = cc h in
    let fits : RecordFits made = record {
      key_fits = omega arith;
      block_fits = f3;
      value_fits = omega arith;
    } in
    let same =
      subst₂
        (λ m n.
          Read bytes cursor end'
            (be_bytes 4 m ++ (key ++ (be_bytes 8 block ++ (be_bytes 4 n ++ value)))))
        (sym l2) (sym l5) all in
    subst₂ (λ q n. Read bytes cursor n (record_bytes q) × RecordFits q) er ee (same, fits)

-- The five reads took exactly the bytes of the record.
pub read_record-Read :
    (bytes : Bytes) (cursor end : ℕ) (r : Record)
    → AreBytes bytes
    → read_record bytes cursor ≡ ok (r, end)
    → Read bytes cursor end (record_bytes r) × RecordFits r
unfolding read_record record_bytes
read_record-Read bytes cursor end r b h =
    let ((key_len, c1), e1, h1) = >>=-eq-ok (read_u32 bytes cursor) _ h in
    let ((key, c2), e2, h2) = >>=-eq-ok (read_bytes bytes c1 key_len) _ h1 in
    let ((block, c3), e3, h3) = >>=-eq-ok (read_u64 bytes c2) _ h2 in
    let ((value_len, c4), e4, h4) = >>=-eq-ok (read_u32 bytes c3) _ h3 in
    let ((value, c5), e5, h5) = >>=-eq-ok (read_bytes bytes c4 value_len) _ h4 in
    let (r1, f1) = read_u32-Read bytes cursor key_len c1 b e1 in
    let (r2, l2) = read_bytes-Read bytes key c1 key_len c2 b e2 in
    let (r3, f3) = read_u64-Read bytes c2 block c3 b e3 in
    let (r4, f4) = read_u32-Read bytes c3 value_len c4 b e4 in
    let (r5, l5) = read_bytes-Read bytes value c4 value_len c5 b e5 in
    let all = Read-append bytes _ _ cursor c1 c5 r1 (
      Read-append bytes _ _ c1 c2 c5 r2
        (Read-append bytes _ _ c2 c3 c5 r3 (Read-append bytes _ _ c3 c4 c5 r4 r5))) in
    record-Read bytes key value cursor key_len block value_len c5 end r all l2 l5 f1 f3 f4 h5

in_order_of : (prior : Option Record) (r : Record) → out_of_order prior r ≡ false → After prior r
unfolding out_of_order version_le
in_order_of none r h = tt
in_order_of (some p) r h = ground (arith, h)

module _ (sha : Sha256) (expected : Option ℕ) (bytes : Bytes) (b : AreBytes bytes) where
  -- The records that the loop adds to those that it has.
  pub record Looped (count cursor : ℕ) (acc out : List Record) (end : ℕ) : Type 0 where
    pub added : List Record
    pub out_eq : out ≡ acc ++ added
    pub length_added : length added ≡ count
    pub took : Read bytes cursor end (records_bytes added)
    pub fits : All RecordFits added
    pub routed : All (Routed sha expected) added
    pub ascending : AscendingFrom (get_last? acc) added

  step_Looped :
      (count cursor mid end : ℕ) (acc out : List Record) (r : Record)
      → Read bytes cursor mid (record_bytes r)
      → RecordFits r
      → Routed sha expected r
      → After (get_last? acc) r
      → Looped count mid (acc ++ r ∷ []) out end
      → Looped (suc count) cursor acc out end
  unfolding records_bytes
  step_Looped count cursor mid end acc out r took fits routed after k = record {
    added = r ∷ k.added;
    out_eq = k.out_eq ∙ append_assoc acc (r ∷ []) k.added;
    length_added = ap suc k.length_added;
    took = Read-append bytes _ _ cursor mid end took k.took;
    fits = (fits, k.fits);
    routed = (routed, k.routed);
    ascending = (after, subst (λ p. AscendingFrom p k.added) (get_last?-snoc acc r) k.ascending);
  }

  Routed-of :
      (r : Record)
      → (is_empty r.key || misroutes sha expected r.key) ≡ false
      → Routed sha expected r
  Routed-of r h = (ground arith, ground arith)

  record_loop-Looped :
      (count cursor : ℕ) (acc out : List Record) (end : ℕ)
      → record_loop sha count expected bytes cursor acc ≡ ok (out, end)
      → Looped count cursor acc out end
  unfolding record_loop records_bytes
  record_loop-Looped zero cursor acc out end h = record {
    added = [];
    out_eq = (let e : acc ≡ out = cc h in sym e ∙ sym (append-nil acc));
    length_added = refl;
    took = ((let e : cursor ≡ end = cc h in ap (λ k. drop k bytes) e), tt);
    fits = tt;
    routed = tt;
    ascending = tt;
  }
  record_loop-Looped (suc count) cursor acc out end h =
      let ((r, mid), e, h1) = >>=-eq-ok (read_record bytes cursor) _ h in
      let (t1, h2) = bail_if-eq-ok (is_empty r.key || misroutes sha expected r.key) _ _ h1 in
      let (t2, h3) = bail_if-eq-ok (out_of_order (get_last? acc) r) _ _ h2 in
      let (took, fits) = read_record-Read bytes cursor mid r b e in
      step_Looped count cursor mid end acc out r took fits (Routed-of r t1) (in_order_of _ r t2)
        (record_loop-Looped count mid (acc ++ r ∷ []) out end h3)

header_split :
    (bytes : Bytes)
    → 9 ≤ length bytes
    → AreBytes bytes
    → take 4 bytes ≡ data_magic
    → get_or bytes 4 0 ≡ version
    → bytes ≡ page_header (from_be (slice bytes 5 9)) ++ drop 9 bytes
unfolding page_header
header_split (a ∷ b ∷ c ∷ d ∷ v ∷ n0 ∷ n1 ∷ n2 ∷ n3 ∷ rest) le bs magic one =
    let four =
      All-take IsByte 4 (n0 ∷ n1 ∷ n2 ∷ n3 ∷ rest)
        (All-drop IsByte 5 (a ∷ b ∷ c ∷ d ∷ v ∷ n0 ∷ n1 ∷ n2 ∷ n3 ∷ rest) bs) in
    let word = be_u32-from_be (n0 ∷ n1 ∷ n2 ∷ n3 ∷ []) refl four in
    ap (λ t. t ++ v ∷ n0 ∷ n1 ∷ n2 ∷ n3 ∷ rest) magic
    ∙ ap₂ (λ x w. data_magic ++ (x ∷ (w ++ rest))) one (sym word)
header_split _ le bs magic one = absurd (omega arith)

module _ (sha : Sha256) where
  header_of :
      (bytes : Bytes)
      → bad_page_header sha bytes ≡ false
      → (9 ≤ length bytes) × (take 4 bytes ≡ data_magic) × (get_or bytes 4 0 ≡ version)
  unfolding bad_page_header
  header_of bytes h = (ground arith, eq_of_bytes_eq _ _ (ground arith), ground arith)

  tail_of :
      (bytes : Bytes) (rs : List Record) (cursor : ℕ)
      → page_mismatch sha bytes rs cursor ≡ false
      → (cursor ≡ length bytes) × (is_empty rs ≡ false)
  unfolding page_mismatch
  tail_of bytes rs cursor h = (ground arith, ground arith)

  drop_all : (bytes : Bytes) → drop (length bytes) bytes ≡ []
  drop_all [] = refl
  drop_all (x ∷ bytes) = drop_all bytes

  -- A payload that parses is the page of its records: they are in strictly ascending order, have
  -- keys that the partition holds, and no other bytes parse to them.
  pub parse_data_payload-canonical :
      (expected : Option ℕ) (bytes : Bytes) (rs : List Record)
      → AreBytes bytes
      → parse_data_payload sha bytes expected ≡ ok rs
      → IsPage sha expected rs × (bytes ≡ page sha rs)
  unfolding parse_data_payload page
  parse_data_payload-canonical expected bytes rs b h =
      let count = from_be (slice bytes 5 9) in
      let (t1, h1) = bail_if-eq-ok (bad_page_header sha bytes) _ _ h in
      let (t2, h2) = bail_if-eq-ok (ltb ((length bytes - 9) / 17) count) _ _ h1 in
      let ((out, cursor), e, h3) = >>=-eq-ok (record_loop sha count expected bytes 9 []) _ h2 in
      let (t3, h4) = bail_if-eq-ok (page_mismatch sha bytes out cursor) _ _ h3 in
      let (long, magic, one) = header_of bytes t1 in
      let (all, ne) = tail_of bytes out cursor t3 in
      let k = record_loop-Looped sha expected bytes b count 9 [] out cursor e in
      let eo : out ≡ rs = cc h4 in
      let ea : k.added ≡ rs = sym k.out_eq ∙ eo in
      let rest : drop 9 bytes ≡ records_bytes rs =
        k.took.0
        ∙ ap (λ t. records_bytes k.added ++ drop t bytes) all
        ∙ ap (λ t. records_bytes k.added ++ t) (drop_all bytes)
        ∙ append-nil _
        ∙ ap records_bytes ea in
      let number : count ≡ length rs = sym k.length_added ∙ ap length ea in
      (
        record {
          some_record = subst (λ t. is_empty t ≡ false) eo ne;
          fits = subst (All RecordFits) ea k.fits;
          routed = subst (All (Routed sha expected)) ea k.routed;
          ascending = subst (AscendingFrom none) ea k.ascending;
        },
        header_split bytes long b magic one ∙ ap₂ (λ n t. page_header n ++ t) number rest,
      )
