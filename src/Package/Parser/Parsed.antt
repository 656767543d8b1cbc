-- ===== src/Package/Parser/Parsed.antt =====
-- A package that the parser answers with.
use fossil.Base.{
  Error, Gives, Gives-bail_if, Gives-bind, Gives-err, Gives-if, Gives-ok, List, Option, [], ap,
  arith, bad_trailer, false, get_last?, gives_at, head?, length, ltb, none, ok, refl, some, true, ℕ,
  ◌∷◌, ◌≡◌,
}
use mathlib.Core.Path.{subst}
use fossil.Bytes.{Bytes}
use fossil.Bytes.Order.{eq_of_bytes_eq}
use fossil.Extern.{Hex}
use fossil.Package.{BlockMeta, Mode, anchor, delta, Package}
use fossil.Package.Parser.{Header, ParseState, Record, parse_header, start_state}
use fossil.Package.Parser.Events.{is_delta, unwrap_hash}
use fossil.Package.Parser.Seal.{
  take_records, seal, present, parse_rest, parse_package, bad_end, bad_begin, bad_genesis, not_next,
  is_next,
}
use fossil.Package.Parser.Chain.{
  IsChain, Kept, IsChain-prefix, Kept-start_state, opened, Kept-take_records, off_anchor,
}
use fossil.Tiered.Publication.{broken_link}

-- Where the package hangs: a delta below the block that its header names.
abbrev pub Joins : Mode → Option ℕ → Option Bytes → BlockMeta → Type 0
Joins anchor number hash first = Unit
Joins delta number hash first =
    (is_next number first.number ≡ true) × (first.parent_hash ≡ unwrap_hash hash)

pub record IsParsed (pkg : Package) : Type 0 where
  pub first : BlockMeta
  pub last : BlockMeta
  pub is_first : head? pkg.segment.blocks ≡ some first
  pub is_last : get_last? pkg.segment.blocks ≡ some last
  pub start : pkg.segment.start_block ≡ first.number
  pub end : pkg.segment.end_block ≡ last.number
  pub linked : broken_link pkg.segment.blocks ≡ false
  pub joins : Joins pkg.mode pkg.preceding_number pkg.preceding_hash first
  pub genesis : first.number ≡ 0 → first.hash ≡ pkg.segment.genesis_hash

Joins-of :
    (header : Header) (mode : Mode) (blocks : List BlockMeta) (first : BlockMeta)
    → header.mode ≡ mode
    → head? blocks ≡ some first
    → off_anchor header blocks ≡ false
    → not_next header first ≡ false
    → Joins mode header.preceding_number header.preceding_hash first
unfolding off_anchor not_next is_delta
Joins-of header anchor blocks first m e h k = tt
Joins-of header delta [] first m e h k = cc
Joins-of header delta (b ∷ rest) first m e h k =
    let moved : is_delta header.mode ≡ true = ap is_delta m in
    let same : b ≡ first = cc in
    (
      ground arith,
      subst (λ t. t.parent_hash ≡ unwrap_hash header.preceding_hash) same
          (eq_of_bytes_eq _ _ (ground arith)),
    )

genesis_of :
    (header : Header) (first : BlockMeta)
    → bad_genesis header first ≡ false
    → first.number ≡ 0
    → first.hash ≡ header.genesis_hash
unfolding bad_genesis
genesis_of header first h e = eq_of_bytes_eq first.hash header.genesis_hash (ground arith)

IsParsed-seal :
    (header : Header) (input_sha256 : Bytes) (st : ParseState) (trailer : ℕ × Bytes × ℕ)
    (first last : BlockMeta)
    → IsChain header st.blocks
    → head? st.blocks ≡ some first
    → get_last? st.blocks ≡ some last
    → Gives IsParsed (seal header input_sha256 st trailer first last)
unfolding seal
IsParsed-seal header input_sha256 st trailer first last chain f l =
    Gives-bail_if _ (bad_end trailer last (length st.blocks)) _ _ (λ ended.
      Gives-bail_if _ (bad_begin header header.mode first) _ _ (λ begun.
        Gives-bail_if _ (bad_genesis header first) _ _ (λ rooted.
          Gives-bail_if _ (not_next header first) _ _ (λ next. Gives-ok _ _ (record {
            first = first;
            last = last;
            is_first = f;
            is_last = l;
            start = refl;
            end = refl;
            linked = chain.linked;
            joins = Joins-of header header.mode st.blocks first refl f chain.anchored next;
            genesis = genesis_of header first rooted;
          })))))

present_of {ℓ} :
    {A : Type ℓ} (o : Option A) (why : Error) {a : A} → present o why ≡ ok a → o ≡ some a
unfolding present
present_of none why h = cc
present_of (some b) why h = cc

module _ (hex : Hex) (keccak : Bytes → Bytes) where
  IsParsed-parse_rest :
      (front : Record) (records : List Record) (input_sha256 : Bytes)
      → Gives IsParsed (parse_rest hex keccak front records input_sha256)
  unfolding parse_rest
  IsParsed-parse_rest front records input_sha256 = Gives-bind _ (parse_header front) _ (λ header h.
      Gives-bind _ (take_records hex keccak header start_state records) _ (λ st s.
        Gives-bind _ (present st.trailer bad_trailer) _ (λ trailer t.
          Gives-bind _ (present (head? st.blocks) bad_trailer) _ (λ first f.
            Gives-bind _ (present (get_last? st.blocks) bad_trailer) _ (λ last l.
              IsParsed-seal header input_sha256 st trailer first last
                (IsChain-prefix header st.blocks (opened st.current) (
                  gives_at (Kept header) _ st
                    (Kept-take_records hex keccak header records start_state
                      (Kept-start_state header))
                    s))
                (present_of (head? st.blocks) bad_trailer f)
                (present_of (get_last? st.blocks) bad_trailer l))))))

  -- A package that parses has a first and a last block that its interval names, each block follows
  -- the one before it by number and hash, a delta hangs below the block that its header names, and
  -- a block of number zero is the genesis.
  pub parse_package-IsParsed :
      (records : List Record) (input_sha256 : Bytes) (pkg : Package)
      → parse_package hex keccak records input_sha256 ≡ ok pkg
      → IsParsed pkg
  unfolding parse_package
  parse_package-IsParsed [] input_sha256 pkg e = cc
  parse_package-IsParsed (front ∷ records) input_sha256 pkg e =
      gives_at IsParsed _ pkg
        (Gives-if _ (ltb (length (front ∷ records)) 3) _ _ (λ short. Gives-err _ _)
          (λ long. IsParsed-parse_rest front records input_sha256))
        e
