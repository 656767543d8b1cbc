-- ===== src/Worker/Gateway/Served.antt =====
-- What `serve_object` serves of an object that exists.
use fossil.Base.{
  >>=-eq-ok, Bool-cases, Option, Result, ap, arith, backend_failed, err, inl, inr, none, ok, refl,
  some, sym, ℕ, ◌++◌, ◌+◌, ◌-◌, ◌<◌, ◌∙◌, ◌≡◌, ◌≤◌, ◌⊎◌,
}
use mathlib.Core.Path.{subst}
use fossil.Bytes.{Bytes}
use fossil.Server.Selector.{ok_or}
use fossil.Worker.Gateway.{
  Asked, archive_prefix, serve_key, Bucket, ContentRange, Object, Response, body_of, if_none_match,
  if_range_matches, part, serve_body, serve_known, serve_object, serve_range, serve_whole,
  unsatisfied, whole,
}
use fossil.Worker.Object.{RangeRequest, parse_range}
use fossil.Worker.Object.Ranges.{IsWithin, parse_range-IsWithin}

-- The answer is an object of that body, with a law of its size.
abbrev pub HasBody : Result (Option Object) → Option Bytes → (ℕ → Type 0) → Type 0
HasBody answer body Law =
    (object : Object) × (answer ≡ ok (some object)) × (object.body ≡ body) × Law object.size

-- A response for an object, by the range that it says it has: nothing of it, its length alone or
-- all of it; the refusal of a range; or the bytes from the first to the last of its range, which lie
-- within the object.
abbrev pub IsServedAs : Bucket → Bytes → Object → Response → ContentRange → Type 0
IsServedAs bucket key metadata r whole =
    ((r.status ≡ 304) × (r.body ≡ none))
    ⊎ (((r.status ≡ 200) × (r.body ≡ none) × (r.content_length ≡ some metadata.size))
        ⊎ ((r.status ≡ 200)
            × HasBody (bucket.get key) r.body (λ size. r.content_length ≡ some size)))
IsServedAs bucket key metadata r (unsatisfied size) =
    (r.status ≡ 416) × (r.body ≡ none) × (size ≡ metadata.size)
IsServedAs bucket key metadata r (part first last size) =
    (r.status ≡ 206)
    × (size ≡ metadata.size)
    × (first ≤ last)
    × (last < metadata.size)
    × (r.content_length ≡ some (last + 1 - first))
    × HasBody (bucket.get_range key first (last + 1 - first)) r.body (λ size. Unit {0})

abbrev pub IsServed : Bucket → Bytes → Object → Response → Type 0
IsServed bucket key metadata r = IsServedAs bucket key metadata r r.content_range

-- What the bucket answered where a body was there.
body_of-eq-ok :
    (answer : Result (Option Object)) (object : Object) (body : Bytes)
    → body_of answer ≡ ok (object, body)
    → (answer ≡ ok (some object)) × (object.body ≡ some body)
unfolding body_of
body_of-eq-ok (err why) object body e = absurd (cc e)
body_of-eq-ok (ok none) object body e = absurd (cc e)
body_of-eq-ok (ok (some found)) object body e =
    let (b, known, e1) = >>=-eq-ok (ok_or found.body backend_failed) _ e in
    let same : found ≡ object = cc e1 in
    let alike : b ≡ body = cc e1 in
    (
      ap (λ o. ok (some o)) same,
      sym (ap (λ (o : Object). o.body) same) ∙ from_option found.body b known ∙ ap some alike,
    )
  where
    from_option : (o : Option Bytes) (b : Bytes) → ok_or o backend_failed ≡ ok b → o ≡ some b
    from_option none b h = absurd (cc h)
    from_option (some a) b h = cc h

module _ (bucket : Bucket) (key : Bytes) (metadata : Object) where
  -- What is said of a response holds of the one that was answered.
  subst_ok :
      {made r : Response}
      → ok made ≡ ok r
      → IsServed bucket key metadata made
      → IsServed bucket key metadata r
  subst_ok {made} {r} e served = subst (IsServed bucket key metadata) (unwrap e) served
    where
      unwrap : {a b : Response} → ok a ≡ ok b → a ≡ b
      unwrap h = cc h

  serve_whole-IsServed :
      (r : Response) → serve_whole bucket key ≡ ok r → IsServed bucket key metadata r
  unfolding serve_whole
  serve_whole-IsServed r e =
      let ((object, body), known, e1) = >>=-eq-ok (body_of (bucket.get key)) _ e in
      let (there, full) = body_of-eq-ok (bucket.get key) object body known in
      subst_ok e1 (inr (inr (refl, (object, there, full, refl))))

  serve_range-IsServed :
      (range : RangeRequest) (r : Response)
      → IsWithin range metadata.size
      → serve_range bucket key metadata.size range ≡ ok r
      → IsServed bucket key metadata r
  unfolding serve_range
  serve_range-IsServed RangeRequest.ignore r within e = serve_whole-IsServed r e
  serve_range-IsServed RangeRequest.unsatisfiable r within e = subst_ok e (refl, refl, refl)
  serve_range-IsServed (RangeRequest.satisfiable offset count) r (some_bytes, inside) e =
      let ((object, body), known, e1) =
        >>=-eq-ok (body_of (bucket.get_range key offset count)) _ e in
      let (there, full) = body_of-eq-ok (bucket.get_range key offset count) object body known in
      let same : offset + count - 1 + 1 - offset ≡ count = omega (arith, some_bytes) in
      subst_ok e1 (
        refl,
        refl,
        omega (arith, some_bytes),
        omega (arith, some_bytes, inside),
        ap some (sym same),
        (object, ap (bucket.get_range key offset) same ∙ there, full, tt),
      )

  serve_body-IsServed :
      (asked : Asked) (range : Option Bytes) (r : Response)
      → serve_body bucket key asked metadata range ≡ ok r
      → IsServed bucket key metadata r
  unfolding serve_body
  serve_body-IsServed asked none r e = serve_whole-IsServed r e
  serve_body-IsServed asked (some range) r e =
      elim (Bool-cases (if_range_matches asked.if_range metadata.etag)) [
        | inl matches ↦
            serve_range-IsServed (parse_range range metadata.size) r
              (parse_range-IsWithin range metadata.size) (rw matches at e)
        | inr other ↦ serve_whole-IsServed r (rw other at e)
      ]

  serve_known-IsServed :
      (asked : Asked) (r : Response)
      → serve_known bucket key asked (some metadata) ≡ ok r
      → IsServed bucket key metadata r
  unfolding serve_known serve_body
  serve_known-IsServed asked r e =
      elim (Bool-cases (if_none_match asked.if_none_match metadata.etag)) [
        | inl fresh ↦ subst_ok (rw fresh at e) (inl (refl, refl))
        | inr stale ↦ elim (Bool-cases asked.is_head) [
          | inl head ↦ subst_ok (rw (stale, head) at e) (inr (inl (refl, refl, refl)))
          | inr body ↦ serve_body-IsServed asked asked.range r (rw (stale, body) at e)
        ]
      ]

-- Whatever the headers ask of an object that exists under the prefix, a response is one of these:
-- unchanged; its length alone; the whole of the object; a refused range; or a range that is not
-- empty and ends within the object, whose length the response states and which the bucket was asked
-- for.
pub serve_object-IsServed :
    (bucket : Bucket) (variable : Option Bytes) (prefix relative : Bytes) (metadata : Object)
    (asked : Asked) (r : Response)
    → archive_prefix variable ≡ ok prefix
    → bucket.head (prefix ++ relative) ≡ ok (some metadata)
    → serve_object bucket variable relative asked ≡ ok r
    → IsServed bucket (prefix ++ relative) metadata r
unfolding serve_object serve_key
serve_object-IsServed bucket variable prefix relative metadata asked r named known e =
    serve_known-IsServed bucket (prefix ++ relative) metadata asked r (rw (named, known) at e)
