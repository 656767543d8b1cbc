-- ===== src/Examples/Workers.antt =====
-- The edge worker at concrete inputs: one served run under a prefix, a range and an object key.
use fossil.Base.{
  List, Option, Result, [], arith, drop, false, none, ok, refl, replicate, some, take, true, ℕ,
  ◌++◌, ◌∷◌, ◌≡◌, ◌≤◌,
}
use fossil.Bytes.{Bytes}
use fossil.Examples.Pages.{leaf_ref}
use fossil.Examples.Readers.{text_hex, stored, one_run, pinned}
use fossil.Examples.Setup.{toy_sha, toy_zstd}
use fossil.Tiered.Reader.Spending.{account_in, storage, code}
use fossil.Extern.{JsonValues}
use fossil.Package.{AccountEvent}
use fossil.Server.Selector.{resolve_selector, tiered_backend}
use fossil.Worker.Selector.{resolve_block}
use fossil.Worker.Selector.Agrees.{resolve_selector-Agrees}
use fossil.Worker.Object.{all_lower_hex, decode_cas_key, parse_range}
use fossil.Worker.Object.Keys.{
  IsObjectKey, key_of, decode_cas_key-IsObjectKey, decode_cas_key-key_of,
}
use fossil.Worker.Gateway.{archive_prefix, Asked, Bucket, Object, Response, part, serve_object}
use fossil.Worker.Gateway.Served.{IsServed, serve_object-IsServed}
use fossil.Worker.Reader.{LoadedRun, account_at, code_at, empty_code_hash, fresh_cells, storage_at}
use fossil.Worker.Reader.Agrees.{under}
use fossil.Worker.Reader.Alike.{Alike, Same, map_cache, view}
use fossil.Worker.Reader.Answers.{IsAlive, reads-Alike}

-- "v1/"
abbrev v1 : Bytes
v1 = b'v' ∷ b'1' ∷ b'/' ∷ []

abbrev bucket : Bytes → ℕ → Result Bytes
bucket key maximum = stored (drop 3 key) maximum

abbrev no_code : Bytes → Bytes
no_code bytes = empty_code_hash

abbrev loaded : List LoadedRun
loaded = (one_run, leaf_ref ∷ []) ∷ []

abbrev some_address : Bytes
some_address = replicate 20 4

abbrev some_slot : Bytes
some_slot = replicate 32 5

reads-Alike_example :
    Alike v1 IsAlive
      (account_at toy_sha text_hex toy_zstd bucket v1 loaded some_address 7 fresh_cells)
      (account_in toy_sha text_hex toy_zstd
        (under toy_sha text_hex toy_zstd bucket v1)
        (map_cache v1)
        pinned
        loaded
        some_address
        7
        (view v1 fresh_cells))
    × Same v1
        (storage_at toy_sha text_hex toy_zstd bucket v1 loaded some_address some_slot 7 fresh_cells)
        (storage toy_sha text_hex toy_zstd
          (under toy_sha text_hex toy_zstd bucket v1)
          (map_cache v1)
          pinned
          loaded
          some_address
          some_slot
          7
          (view v1 fresh_cells))
    × Same v1
        (code_at toy_sha text_hex toy_zstd bucket v1 no_code loaded some_address 7 fresh_cells)
        (code toy_sha text_hex toy_zstd
          (under toy_sha text_hex toy_zstd bucket v1)
          (map_cache v1)
          no_code
          pinned
          loaded
          some_address
          7
          (view v1 fresh_cells))
reads-Alike_example =
    reads-Alike toy_sha text_hex toy_zstd bucket v1 pinned loaded 7 (omega arith) no_code refl
      some_address some_slot fresh_cells

-- "bytes=2-5"
abbrev some_range : Bytes
some_range = b'b' ∷ b'y' ∷ b't' ∷ b'e' ∷ b's' ∷ b'=' ∷ b'2' ∷ b'-' ∷ b'5' ∷ []

abbrev digits : Bytes
digits = replicate 64 b'a'

digits_lower : all_lower_hex digits ≡ true
unfolding all_lower_hex fossil.Worker.Object.is_lower_hex fossil.Worker.Object.is_digit
digits_lower = refl

digits_served : decode_cas_key (key_of digits) ≡ some (key_of digits)
digits_served = decode_cas_key-key_of digits refl digits_lower

decode_cas_key-IsObjectKey_example : IsObjectKey (key_of digits)
decode_cas_key-IsObjectKey_example =
    decode_cas_key-IsObjectKey (key_of digits) (key_of digits) digits_served

-- Values that are texts, and the selector "0x7".
abbrev text_values : JsonValues
text_values = record {
  Value = Bytes;
  as_str = λ text. some text;
  as_bool = λ text. none;
  as_array = λ text. none;
  as_object = λ text. none;
}

abbrev seven : Bytes
seven = b'0' ∷ b'x' ∷ b'7' ∷ []

abbrev no_account : Bytes → ℕ → Result (Option AccountEvent)
no_account address block = ok none

abbrev no_slot : Bytes → Bytes → ℕ → Result Bytes
no_slot address slot block = ok (replicate 32 0)

abbrev no_bytes : Bytes → ℕ → Result Bytes
no_bytes address block = ok []

server_seven :
    resolve_selector text_values text_hex (tiered_backend pinned no_account no_slot no_bytes) seven
    ≡ ok 7
unfolding resolve_selector fossil.Server.Selector.resolve_number fossil.Server.Selector.tag_number
    fossil.Bytes.bytes_eq fossil.Package.Quantity.parse_quantity
    fossil.Package.Quantity.strip_prefix fossil.Package.Quantity.checked_quantity
    fossil.Package.Quantity.padded_number fossil.Package.Quantity.any_upper
    fossil.Package.Quantity.is_upper fossil.Package.Quantity.from_str_radix
    fossil.Package.Quantity.read_digits fossil.Package.Quantity.push_digit
    fossil.Package.Quantity.to_digit
server_seven = refl

worker_seven : resolve_block text_values text_hex pinned.number seven ≡ ok 7
unfolding resolve_block fossil.Worker.Selector.selected fossil.Worker.Selector.text_number
    fossil.Worker.Selector.read_quantity fossil.Worker.Selector.hex_number
    fossil.Worker.Selector.all_hex_digits fossil.Worker.Selector.is_hex_digit fossil.Bytes.bytes_eq
    fossil.Package.Quantity.strip_prefix fossil.Package.Quantity.padded_number
    fossil.Package.Quantity.from_str_radix fossil.Package.Quantity.read_digits
    fossil.Package.Quantity.push_digit fossil.Package.Quantity.to_digit
worker_seven = refl

resolve_selector-Agrees_example : (◌≡◌ {A = ℕ} 7 7) × (7 ≤ pinned.number)
resolve_selector-Agrees_example =
    resolve_selector-Agrees pinned no_account no_slot no_bytes text_values text_hex seven 7 7
      server_seven worker_seven

-- The body that a full read of an object answers, and of its first four bytes from the second on.
abbrev ten_bytes : Bytes
ten_bytes = replicate 10 9

abbrev etag : Bytes
etag = b'"' ∷ b'e' ∷ b'"' ∷ []

abbrev object_with : Bytes → Object
object_with body = record { size = 10; etag = etag; body = some body }

abbrev one_object : Bucket
one_object = record {
  head = λ key. ok (some (object_with []));
  get = λ key. ok (some (object_with ten_bytes));
  get_range = λ key offset count. ok (some (object_with (take count (drop offset ten_bytes))));
}

abbrev some_request : Asked
some_request = record {
  is_head = false;
  if_none_match = none;
  if_range = some etag;
  range = some some_range;
}

abbrev four_served : Response
four_served = record {
  status = 206;
  content_length = some 4;
  content_range = part 2 5 10;
  is_immutable = true;
  body = some (replicate 4 9);
}

serves_four : serve_object one_object none digits some_request ≡ ok four_served
unfolding serve_object fossil.Worker.Gateway.serve_key fossil.Worker.Gateway.archive_prefix
    fossil.Worker.Gateway.serve_known fossil.Worker.Gateway.if_none_match
    fossil.Worker.Gateway.serve_body fossil.Worker.Gateway.if_range_matches
    fossil.Worker.Gateway.serve_range fossil.Worker.Gateway.body_of fossil.Bytes.bytes_eq
    fossil.Worker.Object.parse_range fossil.Worker.Object.range_of fossil.Worker.Object.has_byte
    fossil.Worker.Object.split_dash fossil.Worker.Object.closed_range
    fossil.Worker.Object.all_digits fossil.Worker.Object.is_digit fossil.Worker.Object.parse_u64
    fossil.Worker.Object.parse_from fossil.Worker.Object.range_from
serves_four = refl

-- The prefix that no variable names.
prefix_known : archive_prefix none ≡ ok v1
unfolding archive_prefix
prefix_known = refl

serve_object-IsServed_example : IsServed one_object (v1 ++ digits) (object_with []) four_served
serve_object-IsServed_example =
    serve_object-IsServed one_object none v1 digits (object_with []) some_request four_served
      prefix_known refl serves_four
