-- ===== src/Bytes/Cursor.antt =====
-- A read at a cursor returns what stands there, and fails past the end.
use fossil.Base.{
  ap, arith, drop, drop-append, drop-drop, length, length-append, length-drop, length-take, le→leb,
  ok, sym, take, take-append, take-append-drop, ℕ, ◌++◌, ◌+◌, ◌-◌, ◌∙◌, ◌≡◌, ◌≤◌,
}
use mathlib.Core.Path.{ap₂}
use fossil.Bytes.{Bytes, read_bytes}

-- What stands at the cursor and behind it.
pub record At (bytes : Bytes) (cursor : ℕ) (rest : Bytes) : Type 0 where
  pub within : cursor ≤ length bytes
  pub there : drop cursor bytes ≡ rest

pub At-append :
    (front rest : Bytes) (cursor : ℕ) → length front ≡ cursor → At (front ++ rest) cursor rest
At-append front rest cursor h = record {
  within = omega (arith, length-append front rest);
  there = drop-append cursor front rest h;
}

pub read_bytes-At :
    (bytes part rest : Bytes) (cursor n : ℕ)
    → At bytes cursor (part ++ rest)
    → length part ≡ n
    → (read_bytes bytes cursor n ≡ ok (part, cursor + n)) × At bytes (cursor + n) rest
unfolding read_bytes
read_bytes-At bytes part rest cursor n at h =
    let size : length part + length rest ≡ length bytes - cursor =
      omega (arith, length-append part rest, ap length at.there, length-drop cursor bytes) in
    let fits : cursor + n ≤ length bytes = omega (arith, at.within) in
    (
      rw (le→leb (cursor + n) (length bytes) fits, at.there, take-append n part rest h),
      record {
        within = fits;
        there = sym (drop-drop cursor n bytes) ∙ ap (drop n) at.there ∙ drop-append n part rest h;
      },
    )

module _ (bytes part : Bytes) (cursor n end : ℕ) where
  took_of :
      cursor + n ≤ length bytes
      → take n (drop cursor bytes) ≡ part
      → cursor + n ≡ end
      → (end ≡ cursor + n)
        × (length part ≡ n)
        × (end ≤ length bytes)
        × At bytes cursor (part ++ drop end bytes)
  took_of le e1 e2 = (
    sym e2,
    omega (arith, ap length e1, length-take n (drop cursor bytes), length-drop cursor bytes),
    omega arith,
    record {
      within = omega arith;
      there =
          sym (take-append-drop n (drop cursor bytes))
          ∙ ap₂ (λ s t. s ++ t) e1 (drop-drop cursor n bytes ∙ ap (λ k. drop k bytes) e2);
    },
  )

  -- A read that succeeds shows the bytes that it took.
  pub read_bytes-eq_ok :
      read_bytes bytes cursor n ≡ ok (part, end)
      → (end ≡ cursor + n)
        × (length part ≡ n)
        × (end ≤ length bytes)
        × At bytes cursor (part ++ drop end bytes)
  unfolding read_bytes
  read_bytes-eq_ok h = took_of (ground (arith, h)) (ground (arith, h)) (ground (arith, h))
