-- ===== src/Examples/Pages.antt =====
-- The pages, accounts and keys of the examples.
use fossil.Base.{
  List, Result, [], arith, get_or, if◌then◌else◌, none, ok, refl, replicate, some, true, ℕ, ◌==◌,
  ◌∷◌, ◌≡◌,
}
use fossil.Bytes.{bytes_eq, Bytes, AreBytes, be_bytes}
use fossil.Examples.Setup.{toy_sha, toy_zstd, AreBytes-of}
use fossil.Head.Account.{AccountState, IsAccount, encode, decode, zero32, decode-encode}
use fossil.Head.Account.Canonical.{encode-decode}
use fossil.Head.Keys.{storage_key_injective}
use fossil.Codec.{bad_ref, is_empty, ObjectRef, Record, Fence, no_object, partition, index_magic}
use fossil.Codec.Data.{parse_data_payload}
use fossil.Codec.Data.RoundTrip.{IsPage, page, parse_data_payload-page}
use fossil.Codec.Data.Canonical.{parse_data_payload-canonical}
use fossil.Codec.Index.{decode_index}
use fossil.Codec.Page.{decode_data_page}
use fossil.Codec.Lookup.{lookup, search_page}
use fossil.Codec.Lookup.Newest.{newest, search_page-newest}
use fossil.Codec.Lookup.Pages.{Group}
use fossil.Codec.Lookup.Found.{PageServed}
use fossil.Codec.Lookup.Tree.{Holds, one_leaf, lookup-newest}

-- A live account, and a page with two versions of one key.
abbrev account : AccountState
account = record {
  exists = true;
  incarnation = 3;
  nonce = 300;
  balance = replicate 32 4;
  code_hash = replicate 32 5;
}

account-IsAccount : IsAccount account
account-IsAccount = record {
  incarnation_fits = omega arith;
  nonce_fits = omega arith;
  length_balance = refl;
  length_code_hash = refl;
  tombstone = λ e. absurd (cc e);
}

decode-encode_example : decode (encode account) ≡ ok account
decode-encode_example = decode-encode account account-IsAccount

encoded_bytes : AreBytes (encode account)
unfolding encode be_bytes
encoded_bytes = AreBytes-of (encode account) refl

encode-decode_example : (encode account ≡ encode account) × IsAccount account
encode-decode_example =
    encode-decode (encode account) account encoded_bytes (decode-encode account account-IsAccount)

abbrev contract : Bytes
contract = replicate 20 1

abbrev slot : Bytes
slot = replicate 32 2

abbrev incarnation : ℕ
incarnation = 7

storage_key_injective_example : (contract ≡ contract) × (incarnation ≡ incarnation) × (slot ≡ slot)
storage_key_injective_example =
    storage_key_injective contract contract incarnation incarnation slot slot refl refl
      (omega arith) (omega arith) refl

abbrev pub versions : List Record
versions =
    record { key = 1 ∷ []; block = 5; value = 42 ∷ [] }
    ∷ record { key = 1 ∷ []; block = 9; value = 43 ∷ 43 ∷ [] }
    ∷ []

pub versions-IsPage : IsPage toy_sha (some 0) versions
unfolding fossil.Codec.is_empty fossil.Codec.Data.misroutes partition fossil.Bytes.version_lt
    fossil.Bytes.bytes_lt fossil.Bytes.bytes_eq
versions-IsPage = record {
  some_record = refl;
  fits = (
    record { key_fits = omega arith; block_fits = omega arith; value_fits = omega arith },
    (record { key_fits = omega arith; block_fits = omega arith; value_fits = omega arith }, tt),
  );
  routed = ((refl, refl), ((refl, refl), tt));
  ascending = (tt, (refl, tt));
}

parse_data_payload-page_example :
    parse_data_payload toy_sha (page toy_sha versions) (some 0) ≡ ok versions
parse_data_payload-page_example =
    parse_data_payload-page toy_sha (some 0) versions (omega arith) versions-IsPage

page_bytes : AreBytes (page toy_sha versions)
unfolding page fossil.Codec.Data.page_header be_bytes fossil.Codec.Data.RoundTrip.records_bytes
    fossil.Codec.Data.RoundTrip.record_bytes
page_bytes = AreBytes-of (page toy_sha versions) refl

parse_data_payload-canonical_example :
    IsPage toy_sha (some 0) versions × (page toy_sha versions ≡ page toy_sha versions)
parse_data_payload-canonical_example =
    parse_data_payload-canonical toy_sha (some 0) (page toy_sha versions) versions page_bytes
      (parse_data_payload-page toy_sha (some 0) versions (omega arith) versions-IsPage)

search_page-newest_example : search_page versions (1 ∷ []) 7 ≡ newest versions (1 ∷ []) 7
search_page-newest_example = search_page-newest none versions (1 ∷ []) 7 (versions-IsPage.ascending)

-- The page of the versions as it is stored, and the leaf that names it.
abbrev pub stored_page : Bytes
stored_page =
    70 ∷ 84 ∷ 82 ∷ 90 ∷ 1 ∷ 0 ∷ 0 ∷ 0 ∷ 46 ∷ 0 ∷ 0 ∷ 0 ∷ 46 ∷ 70 ∷ 84 ∷ 68 ∷ 80 ∷ 1 ∷ 0 ∷ 0 ∷ 0 ∷ 2
    ∷ 0 ∷ 0 ∷ 0 ∷ 1 ∷ 1 ∷ 0 ∷ 0 ∷ 0 ∷ 0 ∷ 0 ∷ 0 ∷ 0 ∷ 5 ∷ 0 ∷ 0 ∷ 0 ∷ 1 ∷ 42 ∷ 0 ∷ 0 ∷ 0 ∷ 1 ∷ 1 ∷ 0
    ∷ 0 ∷ 0 ∷ 0 ∷ 0 ∷ 0 ∷ 0 ∷ 9 ∷ 0 ∷ 0 ∷ 0 ∷ 2 ∷ 43 ∷ 43 ∷ []

abbrev pub page_ref : ObjectRef
page_ref = record { digest = replicate 32 59; size = 59 }

abbrev pub page_fence : Fence
page_fence = record { key = 1 ∷ []; block = 5; object = page_ref }

abbrev pub leaf : Bytes
leaf =
    70 ∷ 84 ∷ 73 ∷ 88 ∷ 1 ∷ 0 ∷ 0 ∷ 0 ∷ 1 ∷ 0 ∷ 0 ∷ 0 ∷ 1 ∷ 1 ∷ 0 ∷ 0 ∷ 0 ∷ 0 ∷ 0 ∷ 0 ∷ 0 ∷ 5 ∷ 59
    ∷ 59 ∷ 59 ∷ 59 ∷ 59 ∷ 59 ∷ 59 ∷ 59 ∷ 59 ∷ 59 ∷ 59 ∷ 59 ∷ 59 ∷ 59 ∷ 59 ∷ 59 ∷ 59 ∷ 59 ∷ 59 ∷ 59
    ∷ 59 ∷ 59 ∷ 59 ∷ 59 ∷ 59 ∷ 59 ∷ 59 ∷ 59 ∷ 59 ∷ 59 ∷ 59 ∷ 59 ∷ 0 ∷ 0 ∷ 0 ∷ 59 ∷ []

abbrev pub leaf_ref : ObjectRef
leaf_ref = record { digest = replicate 32 58; size = 58 }

abbrev pub fetch : ObjectRef → Result Bytes
fetch reference = if reference.size == 58 then ok leaf else ok stored_page

abbrev pub pages : List Group
pages = (page_fence, versions) ∷ []

pub payload_decodes : decode_data_page toy_sha toy_zstd page_ref stored_page 0 ≡ ok versions
unfolding decode_data_page fossil.Codec.Page.decode_compressed fossil.Codec.verify_object bytes_eq
    fossil.Codec.Page.bad_page_prefix fossil.Bytes.from_be parse_data_payload
    fossil.Codec.Data.bad_page_header fossil.Codec.Data.record_loop fossil.Codec.Data.read_record
    fossil.Codec.read_u32 fossil.Bytes.read_bytes fossil.Codec.read_u64 is_empty
    fossil.Codec.Data.misroutes partition fossil.Codec.Data.out_of_order fossil.Bytes.version_le
    fossil.Bytes.bytes_lt fossil.Bytes.version_lt fossil.Codec.Data.page_mismatch
payload_decodes = refl

pub page_served : PageServed toy_sha toy_zstd fetch 0 (page_fence, versions)
page_served = record {
  sane = unfold bad_ref bytes_eq zero32 in refl;
  bytes = stored_page;
  fetched = refl;
  decoded = payload_decodes;
  begins = refl;
  ascending = (none, versions-IsPage.ascending);
}

pub leaf_decodes : decode_index toy_sha leaf_ref leaf 0 index_magic ≡ ok (page_fence ∷ [])
unfolding decode_index fossil.Codec.verify_object fossil.Bytes.bytes_eq
    fossil.Codec.Index.bad_index_header fossil.Bytes.from_be fossil.Codec.Index.fence_loop
    fossil.Codec.Index.read_fence fossil.Codec.read_u32 fossil.Bytes.read_bytes
    fossil.Codec.read_u64 fossil.Codec.read_ref fossil.Codec.Index.invalid_fence
    fossil.Codec.is_empty partition fossil.Codec.Index.fence_out_of_order
    fossil.Codec.Index.index_mismatch fossil.Codec.Index.named_limit fossil.Codec.bad_ref no_object
    fossil.Codec.ref_eq zero32
leaf_decodes = refl

leaf-Holds :
    Holds toy_sha toy_zstd fetch
      (partition toy_sha (1 ∷ []))
      (get_or (leaf_ref ∷ []) (partition toy_sha (1 ∷ [])) no_object)
      versions
unfolding fossil.Codec.ref_eq bytes_eq partition no_object zero32 bad_ref
leaf-Holds = one_leaf leaf pages refl refl refl leaf_decodes (page_served, tt)

lookup-newest_example :
    lookup toy_sha toy_zstd fetch (leaf_ref ∷ []) (1 ∷ []) 7 ≡ ok (newest versions (1 ∷ []) 7)
unfolding is_empty
lookup-newest_example =
    lookup-newest toy_sha toy_zstd fetch (leaf_ref ∷ []) (1 ∷ []) 7 versions refl leaf-Holds
      versions-IsPage.ascending
