-- ===== src/Examples/Readers.antt =====
-- A pinned reader over one served run, with a cache that keeps everything.
use fossil.Base.{
  Bool-cases, List, Option, Result, [], ap, arith, get_or, if◌then◌else◌, inl, inr, length, ltb,
  map, none, ok, refl, replicate, some, sym, true, ℕ, ◌%◌, ◌*◌, ◌+◌, ◌-◌, ◌/◌, ◌<◌, ◌==◌, ◌∙◌, ◌∷◌,
  ◌≡◌, ◌⊎◌,
}
use fossil.Bytes.{Bytes, AreBytes, bytes_eq}
use fossil.Bytes.Order.{eq_of_bytes_eq}
use fossil.Extern.{Hex}
use fossil.Codec.{is_empty, no_object, partition, bad_ref}
use fossil.Codec.Lookup.Newest.{newest}
use fossil.Codec.Lookup.Tree.{Holds, one_leaf}
use fossil.Codec.Lookup.Found.{PageServed}
use fossil.Examples.Pages.{
  leaf, leaf_ref, stored_page, page_fence, versions, pages, page_served, payload_decodes,
  leaf_decodes, versions-IsPage,
}
use fossil.Head.Account.{zero32}
use fossil.Examples.Setup.{toy_sha, toy_zstd, head_of, All-replicate}
use fossil.Head.Manifest.{Run, Head}
use fossil.Summary.{address_shard, encode_shard, may_contain}
use fossil.Summary.Path.{DoublesLength, object_key, shard_path}
use fossil.Tiered.Reader.{ShardCache, Request, fetch, fetch_shard}
use fossil.Tiered.Reader.Ends.{Ends}
use fossil.Tiered.Reader.Spending.{lookup}
use fossil.Tiered.Reader.Refines.{IsNamed, Sound, empty-Sound}
use fossil.Tiered.Reader.Newest.{Served, run_bytes, open_of, history, lookup-Answers}

-- A text of two digits for each byte.
abbrev digit_of : ℕ → ℕ
digit_of n = if ltb n 10 then 48 + n else 87 + n

abbrev value_of : ℕ → ℕ
value_of c = if ltb c 58 then c - 48 else c - 87

abbrev to_text : Bytes → Bytes
to_text [] = []
to_text (b ∷ bytes) = digit_of (b / 16) ∷ digit_of (b % 16) ∷ to_text bytes

abbrev from_text : Bytes → Bytes
from_text [] = []
from_text (c ∷ []) = []
from_text (c ∷ d ∷ text) = (16 * value_of c + value_of d) ∷ from_text text

value_of-digit_of : (n : ℕ) → n < 16 → value_of (digit_of n) ≡ n
value_of-digit_of n h = elim (Bool-cases (ltb n 10)) [
  | inl low ↦ rw low (ground arith)
  | inr high ↦ rw high (ground arith)
]

pub from_text-to_text : (bytes : Bytes) → AreBytes bytes → from_text (to_text bytes) ≡ bytes
from_text-to_text [] h = refl
from_text-to_text (b ∷ bytes) (small, h) =
    let hi = value_of-digit_of (b / 16) (omega arith) in
    let lo = value_of-digit_of (b % 16) (omega arith) in
    let one : 16 * value_of (digit_of (b / 16)) + value_of (digit_of (b % 16)) ≡ b =
      omega (arith, hi, lo) in
    λ i. one i ∷ from_text-to_text bytes h i

length-to_text : (bytes : Bytes) → length (to_text bytes) ≡ 2 * length bytes
length-to_text [] = refl
length-to_text (b ∷ bytes) = omega (arith, length-to_text bytes)

abbrev pub text_hex : Hex
text_hex = record {
  encode = to_text;
  decode = λ text. ok (from_text text);
  decode_encode = λ bytes h. ap ok (from_text-to_text bytes h);
}

pub text_doubles : DoublesLength text_hex
text_doubles = length-to_text

abbrev run_digest : Bytes
run_digest = replicate 32 7

abbrev four_shards : ℕ
four_shards = 4

abbrev third_index : ℕ
third_index = 3

abbrev entries_get : List (Bytes × Bytes) → Bytes → Option Bytes
entries_get [] path = none
entries_get ((key, shard) ∷ entries) path =
    if bytes_eq path key then some shard else entries_get entries path

pub entries_insert :
    (entries : List (Bytes × Bytes)) (path shard other found : Bytes)
    → entries_get ((path, shard) ∷ entries) other ≡ some found
    → ((other ≡ path) × (found ≡ shard)) ⊎ (entries_get entries other ≡ some found)
entries_insert entries path shard other found h = elim (Bool-cases (bytes_eq other path)) [
  | inl same ↦
      let hit : some shard ≡ some found =
        sym (ap (λ t. if t then some shard else entries_get entries other) same) ∙ h in
      inl (eq_of_bytes_eq other path same, cc hit)
  | inr differ ↦
      inr (sym (ap (λ t. if t then some shard else entries_get entries other) differ) ∙ h)
]

abbrev entries_cache : ShardCache
entries_cache = record {
  Store = List (Bytes × Bytes);
  empty = [];
  get = entries_get;
  insert = λ entries path shard. (path, shard) ∷ entries;
  get_empty = λ path. refl;
  get_insert = entries_insert;
}

abbrev one_key : Bytes
one_key = 1 ∷ []

abbrev pub one_run : Run
one_run = record {
  start = 4;
  end = 9;
  weight = 1;
  keys = 1;
  shards = 1;
  root = record { digest = run_digest; size = 581 };
  root_bytes = [];
}

-- The leaf, the page and the full shard of the store, told apart by their keys.
abbrev one_shard : Bytes
one_shard = encode_shard toy_sha run_digest address_shard 0 1 (replicate 8 255)

abbrev pub stored : Bytes → ℕ → Result Bytes
stored key maximum =
    if get_or key 0 0 == 115
    then ok one_shard
    else if get_or key 16 0 == 97
    then ok leaf
    else ok stored_page

abbrev request : Request entries_cache
request = record { gets = 0; bytes = 0; store = [] }

page_stored : PageServed toy_sha toy_zstd (fetch toy_sha text_hex stored) 0 (page_fence, versions)
page_stored = record {
  sane = page_served.sane;
  bytes = stored_page;
  fetched = unfold fetch object_key zero32 bytes_eq in refl;
  decoded = payload_decodes;
  begins = refl;
  ascending = page_served.ascending;
}

one_probe : may_contain toy_sha (fetch_shard toy_sha text_hex stored one_run) 1 one_key ≡ ok true
unfolding may_contain fetch_shard shard_path fossil.Summary.decode_shard
    fossil.Summary.bad_shard_length encode_shard fossil.Summary.shard_body fossil.Bytes.be_bytes
    fossil.Summary.foreign_shard bytes_eq fossil.Summary.shard_index fossil.Bytes.from_be
    fossil.Summary.route fossil.Summary.group fossil.Summary.shard_contains fossil.Summary.contains
    fossil.Summary.contains_bits fossil.Summary.bit_at fossil.Summary.has_bit fossil.Summary.hash_1
    fossil.Summary.hash_2 fossil.Summary.marker fossil.Summary.spill_index
one_probe = refl

one_run-IsNamed : IsNamed one_run
one_run-IsNamed = record {
  length_digest = refl;
  digest_bytes = All-replicate 32 7 (omega arith);
  some_shard = omega arith;
  shards_fit = omega arith;
}

leaf_held :
    Holds toy_sha toy_zstd
      (fetch toy_sha text_hex stored)
      (partition toy_sha one_key)
      (get_or (leaf_ref ∷ []) (partition toy_sha one_key) no_object)
      versions
unfolding fossil.Codec.ref_eq bytes_eq partition no_object zero32 bad_ref fetch object_key
leaf_held = one_leaf leaf pages refl refl refl leaf_decodes (page_stored, tt)

one_served : Served toy_sha text_hex text_doubles toy_zstd stored entries_cache one_key
one_served = record {
  run = one_run;
  indexes = leaf_ref ∷ [];
  records = versions;
  named = one_run-IsNamed;
  present = true;
  probed = one_probe;
  honest = λ h block. absurd (cc h);
  held = leaf_held;
  ascending = versions-IsPage.ascending;
  within = ((omega arith, omega arith), ((omega arith, omega arith), tt));
}

abbrev pub pinned : Head
pinned = head_of 9 1 (one_run ∷ []) []

lookup-Answers_example :
    Ends entries_cache
      (Sound toy_sha text_hex text_doubles stored entries_cache)
      (5 * 1)
      (run_bytes * 1)
      (newest
        (history toy_sha text_hex text_doubles toy_zstd stored entries_cache one_key
          (one_served ∷ []))
        one_key
        7)
      request
      (lookup toy_sha text_hex toy_zstd stored entries_cache pinned
        (map
          (open_of toy_sha text_hex text_doubles toy_zstd stored entries_cache one_key)
          (one_served ∷ []))
        one_key
        7
        request)
lookup-Answers_example =
    lookup-Answers toy_sha text_hex text_doubles toy_zstd stored entries_cache one_key pinned
      (one_served ∷ []) 7 request (unfold is_empty in refl) (omega arith)
      (empty-Sound toy_sha text_hex text_doubles stored entries_cache)
