-- ===== src/Package/Parser/Chain.antt =====
-- What the loop over the records keeps of the blocks, and what a parsed package is.
use fossil.Base.{
  Bool, Gives, Gives-bail_if, Gives-bind, Gives-err, Gives-ok, List, Option, [], arith, false,
  get_last?, gives_at, none, not, refl, some, sym, ◌&&◌, ◌++◌, ◌==◌, ◌∷◌, ◌≡◌,
}
use mathlib.Core.List.{append-nil}
use mathlib.Core.Path.{subst}
use fossil.Bytes.{Bytes, bytes_eq}
use fossil.Bytes.Order.{bytes_eq_comm}
use fossil.Extern.{Hex}
use fossil.Package.{BlockMeta}
use fossil.Package.Parser.{
  Header, ParseState, Record, account_record, block_end, block_record, code_record, header_record,
  has_bytes, has_storage_key, is_some, start_state, storage_record, trailer_record,
}
use fossil.Package.Quantity.{parse_quantity, parse_data}
use fossil.Package.Parser.Events.{
  is_delta, breaks_chain, unwrap_hash, open_block, push_account, push_storage, current_number,
  close_block, close_package, checked_current, not_above, not_above_storage, account_fields,
}
use fossil.Package.Parser.Seal.{push_code, take_record, take_records}
use fossil.Tiered.Publication.{broken_link}

-- The first block of a delta hangs below the hash that the header names.
unfoldable pub off_anchor : Header → List BlockMeta → Bool
off_anchor header [] = false
off_anchor header (b ∷ rest) =
    is_delta header.mode && not (bytes_eq b.parent_hash (unwrap_hash header.preceding_hash))

abbrev pub opened : Option BlockMeta → List BlockMeta
opened none = []
opened (some block) = block ∷ []

pub record IsChain (header : Header) (blocks : List BlockMeta) : Type 0 where
  pub linked : broken_link blocks ≡ false
  pub anchored : off_anchor header blocks ≡ false

-- The closed blocks with the open one
abbrev pub Kept : Header → ParseState → Type 0
Kept header st = IsChain header (st.blocks ++ opened st.current)

broken_link-snoc :
    (header : Header) (a : BlockMeta) (rest : List BlockMeta) (b : BlockMeta)
    → broken_link (a ∷ rest) ≡ false
    → breaks_chain header (get_last? (a ∷ rest)) b.number b.parent_hash ≡ false
    → broken_link ((a ∷ rest) ++ b ∷ []) ≡ false
unfolding broken_link breaks_chain
broken_link-snoc header a [] b h k = let flip = bytes_eq_comm a.hash b.parent_hash in ground arith
broken_link-snoc header a (c ∷ rest) b h k =
    let below = broken_link-snoc header c rest b (ground arith) k in ground arith

IsChain-snoc :
    (header : Header) (blocks : List BlockMeta) (b : BlockMeta)
    → IsChain header blocks
    → breaks_chain header (get_last? blocks) b.number b.parent_hash ≡ false
    → IsChain header (blocks ++ b ∷ [])
unfolding broken_link breaks_chain off_anchor
IsChain-snoc header [] b h k = record { linked = refl; anchored = k }
IsChain-snoc header (a ∷ rest) b h k = record {
  linked = broken_link-snoc header a rest b h.linked k;
  anchored = h.anchored;
}

-- A block can only be opened where none is open.
closed_only :
    (header : Header) (blocks : List BlockMeta) (current : Option BlockMeta)
    → is_some current ≡ false
    → IsChain header (blocks ++ opened current)
    → IsChain header blocks
unfolding is_some
closed_only header blocks none e h = subst (IsChain header) (append-nil blocks) h
closed_only header blocks (some block) e h = cc

Kept-open_block :
    (header : Header) (st : ParseState) (number hash parent_hash state_root timestamp : Bytes)
    → Kept header st
    → Gives (Kept header) (open_block header st number hash parent_hash state_root timestamp)
unfolding open_block
Kept-open_block header st number hash parent_hash state_root timestamp h =
    Gives-bail_if _ (is_some st.current) _ _ (λ shut.
      Gives-bind _ (parse_quantity number) _ (λ n eq_n.
        Gives-bail_if _ (breaks_chain header (get_last? st.blocks) n parent_hash) _ _ (λ joins.
          Gives-bind _ (parse_quantity timestamp) _ (λ t eq_t. Gives-ok _ _ (
            IsChain-snoc header st.blocks _ (closed_only header st.blocks st.current shut h)
              joins)))))

Kept-push_account :
    (hex : Hex) (header : Header) (st : ParseState) (block address : Bytes) (exists : Bool)
    (incarnation : Bytes) (nonce balance code_hash : Option Bytes)
    → Kept header st
    → Gives
        (Kept header)
        (push_account hex st block address exists incarnation nonce balance code_hash)
unfolding push_account
Kept-push_account hex header st block address exists incarnation nonce_text balance code_hash h =
    Gives-bind _ (checked_current st.current block) _ (λ n eq_n.
      Gives-bail_if _ (not_above st.last_account address) _ _ (λ above.
        Gives-bail_if _ (has_bytes address st.account_keys) _ _ (λ fresh.
          Gives-bind _ (account_fields hex exists nonce_text balance code_hash) _ (λ fields eq_f.
            Gives-bind _ (parse_quantity incarnation) _ (λ i eq_i. Gives-ok _ _ h)))))

Kept-push_storage :
    (header : Header) (st : ParseState) (block address incarnation slot value : Bytes)
    → Kept header st
    → Gives (Kept header) (push_storage st block address incarnation slot value)
unfolding push_storage
Kept-push_storage header st block address incarnation slot value h =
    Gives-bind _ (checked_current st.current block) _ (λ n eq_n.
      Gives-bind _ (parse_quantity incarnation) _ (λ i eq_i.
        Gives-bail_if _ (not_above_storage st.last_storage (address, i, slot)) _ _ (λ above.
          Gives-bail_if _ (has_storage_key (address, i, slot) st.storage_keys) _ _
            (λ fresh. Gives-ok _ _ h))))

Kept-close_block :
    (header : Header) (st : ParseState) (number expected : Bytes) (current : Option BlockMeta)
    → IsChain header (st.blocks ++ opened current)
    → Gives (Kept header) (close_block st number expected current)
unfolding close_block
Kept-close_block header st number expected none h =
    Gives-bind _ (checked_current none number) _ (λ n eq_n.
      Gives-bind _ (parse_quantity expected) _
        (λ c eq_c. Gives-bail_if _ (not (c == st.event_count)) _ _ (λ counted. Gives-err _ _)))
Kept-close_block header st number expected (some block) h =
    Gives-bind _ (checked_current (some block) number) _ (λ n eq_n.
      Gives-bind _ (parse_quantity expected) _ (λ c eq_c.
        Gives-bail_if _ (not (c == st.event_count)) _ _ (λ counted.
          Gives-ok _ _ (subst (IsChain header) (sym (append-nil (st.blocks ++ block ∷ []))) h))))

Kept-close_package :
    (header : Header) (st : ParseState) (end_number end_hash block_count : Bytes)
    → Kept header st
    → Gives (Kept header) (close_package st end_number end_hash block_count)
unfolding close_package
Kept-close_package header st end_number end_hash block_count h =
    Gives-bail_if _ (is_some st.current) _ _ (λ shut.
      Gives-bind _ (parse_quantity end_number) _
        (λ n eq_n. Gives-bind _ (parse_quantity block_count) _ (λ c eq_c. Gives-ok _ _ h)))

broken_link-prefix :
    (blocks rest : List BlockMeta)
    → broken_link (blocks ++ rest) ≡ false
    → broken_link blocks ≡ false
unfolding broken_link
broken_link-prefix [] rest h = refl
broken_link-prefix (a ∷ []) rest h = refl
broken_link-prefix (a ∷ b ∷ blocks) rest h =
    let below = broken_link-prefix (b ∷ blocks) rest (ground arith) in ground arith

pub IsChain-prefix :
    (header : Header) (blocks rest : List BlockMeta)
    → IsChain header (blocks ++ rest)
    → IsChain header blocks
unfolding off_anchor
IsChain-prefix header [] rest h = record {
  linked = broken_link-prefix [] rest h.linked;
  anchored = refl;
}
IsChain-prefix header (a ∷ blocks) rest h = record {
  linked = broken_link-prefix (a ∷ blocks) rest h.linked;
  anchored = h.anchored;
}

pub Kept-start_state : (header : Header) → Kept header start_state
unfolding start_state broken_link off_anchor
Kept-start_state header = record { linked = refl; anchored = refl }

module _ (hex : Hex) (keccak : Bytes → Bytes) (header : Header) where
  Kept-push_code :
      (st : ParseState) (code_hash text : Bytes)
      → Kept header st
      → Gives (Kept header) (push_code hex keccak st code_hash text)
  unfolding push_code
  Kept-push_code st code_hash text h = Gives-bind _ (current_number st.current) _ (λ n eq_n.
      Gives-bind _ (parse_data hex text) _ (λ b eq_b.
        Gives-bail_if _ (not (bytes_eq (keccak b) code_hash)) _ _ (λ digest.
          Gives-bail_if _ (has_bytes code_hash st.code_hashes) _ _ (λ fresh. Gives-ok _ _ h))))

  Kept-take_record :
      (st : ParseState) (r : Record)
      → Kept header st
      → Gives (Kept header) (take_record hex keccak header st r)
  unfolding take_record
  Kept-take_record st (header_record _ _ _ _ _ _ _ _) h = Gives-err _ _
  Kept-take_record st (block_record n b p s t) h = Kept-open_block header st n b p s t h
  Kept-take_record st (account_record b a e i n v c) h =
      Kept-push_account hex header st b a e i n v c h
  Kept-take_record st (storage_record b a i s v) h = Kept-push_storage header st b a i s v h
  Kept-take_record st (code_record c b) h = Kept-push_code st c b h
  Kept-take_record st (block_end n c) h = Kept-close_block header st n c st.current h
  Kept-take_record st (trailer_record n b c) h = Kept-close_package header st n b c h

  pub Kept-take_records :
      (records : List Record) (st : ParseState)
      → Kept header st
      → Gives (Kept header) (take_records hex keccak header st records)
  unfolding take_records
  Kept-take_records [] st h = Gives-ok _ _ h
  Kept-take_records (r ∷ records) st h = Gives-bail_if _ (is_some st.trailer) _ _ (λ going.
      Gives-bind _ (take_record hex keccak header st r) _ (λ next e.
        Kept-take_records records next (gives_at (Kept header) _ next (Kept-take_record st r h) e)))
