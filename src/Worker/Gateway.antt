-- ===== src/Worker/Gateway.antt =====
-- `serve_object` of worker/src/lib.rs with its tests of conditional requests, and the prefix of the
-- archive. The bucket is a parameter; the headers of a response that no test decides are left out. A
-- header is ASCII text.
pub mod Served
use fossil.Base.{
  Bool, List, Option, Result, [], backend_failed, bail_if, drop, false, if◌then◌else◌, leb, length,
  none, ok, some, take, true, ℕ, ◌&&◌, ◌++◌, ◌+◌, ◌-◌, ◌==◌, ◌>>=◌, ◌>>◌, ◌||◌, ◌∷◌,
}
use mathlib.Core.List.{reverse}
use fossil.Bytes.{Bytes, bytes_eq}
use fossil.Server.Selector.{ok_or}
use fossil.Worker.Object.{RangeRequest, has_byte, put_first, parse_range, split_slash}

-- `worker::Object`, with the entity tag that goes over HTTP
pub record Object : Type 0 where
  pub size : ℕ
  pub etag : Bytes
  pub body : Option Bytes

-- `worker::Bucket`
pub record Bucket : Type 0 where
  pub head : Bytes → Result (Option Object)
  pub get : Bytes → Result (Option Object)
  pub get_range : Bytes → ℕ → ℕ → Result (Option Object)

-- What a request asks, with its headers.
pub record Asked : Type 0 where
  pub is_head : Bool
  pub if_none_match : Option Bytes
  pub if_range : Option Bytes
  pub range : Option Bytes

-- The content-range header.
pub data ContentRange : Type 0 where
  whole : ContentRange
  unsatisfied : ℕ → ContentRange
  part : ℕ → ℕ → ℕ → ContentRange

pub record Response : Type 0 where
  pub status : ℕ
  pub content_length : Option ℕ
  pub content_range : ContentRange
  pub is_immutable : Bool
  pub body : Option Bytes

-- `split(',')`
unfoldable pub split_comma : Bytes → List Bytes
split_comma [] = [] ∷ []
split_comma (c ∷ text) =
    let rest = split_comma text in if c == b',' then [] ∷ rest else put_first c rest

unfoldable pub is_space : ℕ → Bool
is_space c = c == 32 || (leb 9 c && leb c 13)

unfoldable pub trim_start : Bytes → Bytes
trim_start [] = []
trim_start (c ∷ text) = let rest = trim_start text in if is_space c then rest else c ∷ text

unfoldable pub trim : Bytes → Bytes
trim text = reverse (trim_start (reverse (trim_start text)))

abbrev pub weak_mark : Bytes
weak_mark = b'W' ∷ b'/' ∷ []

unfoldable pub without_mark : Bytes → Bytes
without_mark item = if bytes_eq (take 2 item) weak_mark then drop 2 item else item

unfoldable pub any_match : List Bytes → Bytes → Bool
any_match [] etag = false
any_match (item ∷ items) etag =
    bytes_eq (without_mark (trim item)) (b'*' ∷ [])
    || bytes_eq (without_mark (trim item)) etag
    || any_match items etag

unfoldable pub if_none_match : Option Bytes → Bytes → Bool
if_none_match none etag = false
if_none_match (some value) etag = any_match (split_comma value) etag

unfoldable pub if_range_matches : Option Bytes → Bytes → Bool
if_range_matches none etag = true
if_range_matches (some value) etag =
    bytes_eq value etag
    && bytes_eq (take 1 value) (b'"' ∷ [])
    && bytes_eq (take 1 (reverse value)) (b'"' ∷ [])

unfoldable pub is_dots : Bytes → Bool
is_dots segment = bytes_eq segment (b'.' ∷ []) || bytes_eq segment (b'.' ∷ b'.' ∷ [])

unfoldable pub any_dots : List Bytes → Bool
any_dots [] = false
any_dots (segment ∷ segments) = is_dots segment || any_dots segments

abbrev pub default_prefix : Bytes
default_prefix = b'v' ∷ b'1' ∷ b'/' ∷ []

-- `archive_prefix` of the variable's value
unfoldable pub archive_prefix : Option Bytes → Result Bytes
archive_prefix none = ok default_prefix
archive_prefix (some prefix) = do
  bail_if
      (bytes_eq (take 1 prefix) (b'/' ∷ [])
        || has_byte b'\\' prefix
        || has_byte 0 prefix
        || any_dots (split_slash prefix))
      backend_failed
  ok (if bytes_eq (take 1 (reverse prefix)) (b'/' ∷ []) then prefix else prefix ++ b'/' ∷ [])

-- A response without a body.
abbrev pub bodiless : ℕ → Option ℕ → ContentRange → Bool → Response
bodiless status content_length content_range is_immutable = record {
  status = status;
  content_length = content_length;
  content_range = content_range;
  is_immutable = is_immutable;
  body = none;
}

-- The body of an object that must be there.
unfoldable pub body_of : Result (Option Object) → Result (Object × Bytes)
body_of answer = do
  found ← answer
  object ← ok_or found backend_failed
  body ← ok_or object.body backend_failed
  ok (object, body)

unfoldable pub not_found : Bool → Response
not_found is_head = record {
  status = 404;
  content_length = some 18;
  content_range = whole;
  is_immutable = false;
  body = if is_head then none else some not_found_text;
}
  where
    -- "Object not found.\n"
    not_found_text : Bytes
    not_found_text =
        b'O' ∷ b'b' ∷ b'j' ∷ b'e' ∷ b'c' ∷ b't' ∷ 32 ∷ b'n' ∷ b'o' ∷ b't' ∷ 32 ∷ b'f' ∷ b'o' ∷ b'u'
        ∷ b'n' ∷ b'd' ∷ b'.' ∷ 10 ∷ []

module _ (bucket : Bucket) (key : Bytes) where
  unfoldable pub serve_whole : Result Response
  serve_whole = do
    (object, body) ← body_of (bucket.get key)
    ok (record {
      status = 200;
      content_length = some object.size;
      content_range = whole;
      is_immutable = true;
      body = some body;
    })

  unfoldable pub serve_range : ℕ → RangeRequest → Result Response
  serve_range size RangeRequest.ignore = serve_whole
  serve_range size RangeRequest.unsatisfiable = ok (bodiless 416 (some 0) (unsatisfied size) false)
  serve_range size (RangeRequest.satisfiable offset length) = do
    (object, body) ← body_of (bucket.get_range key offset length)
    ok (record {
      status = 206;
      content_length = some length;
      content_range = part offset (offset + length - 1) size;
      is_immutable = true;
      body = some body;
    })

  -- The body of an object, or the range of it that is asked for.
  unfoldable pub serve_body : Asked → Object → Option Bytes → Result Response
  serve_body asked metadata none = serve_whole
  serve_body asked metadata (some range) =
      if if_range_matches asked.if_range metadata.etag
      then serve_range metadata.size (parse_range range metadata.size)
      else serve_whole

  unfoldable pub serve_known : Asked → Option Object → Result Response
  serve_known asked none = ok (not_found asked.is_head)
  serve_known asked (some metadata) =
      if if_none_match asked.if_none_match metadata.etag
      then ok (bodiless 304 none whole true)
      else if asked.is_head
      then ok (bodiless 200 (some metadata.size) whole true)
      else serve_body asked metadata asked.range

  unfoldable pub serve_key : Asked → Result Response
  serve_key asked = do metadata ← bucket.head key; serve_known asked metadata

-- The object at a path under the prefix that the variable names.
unfoldable pub serve_object : Bucket → Option Bytes → Bytes → Asked → Result Response
serve_object bucket variable relative asked = do
  prefix ← archive_prefix variable
  serve_key bucket (prefix ++ relative) asked
