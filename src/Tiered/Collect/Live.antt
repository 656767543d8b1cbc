-- ===== src/Tiered/Collect/Live.antt =====
-- What `keep`, `keep_all` and the copies of heads make live.
use fossil.Base.{
  All, Bool-cases, List, Option, Result, [], arith, err, inl, inr, none, ok, refl, some, suc, sym,
  true, zero, ℕ, ◌∷◌, ◌≡◌, ◌⊎◌,
}
use mathlib.Core.Path.{subst}
use fossil.Bytes.{Bytes, bytes_eq}
use fossil.Bytes.Order.{bytes_eq_refl, eq_of_bytes_eq}
use fossil.Extern.{Hex, Sha256}
use fossil.Head.Manifest.{Ref, max_head}
use fossil.Summary.Path.{object_key}
use fossil.Tiered.Collect.{has_key, keep, keep_all, reach_copies}

abbrev pub IsLive : List Bytes → Bytes → Type 0
IsLive live key = has_key key live ≡ true

pub keep-IsLive : (key : Bytes) (live : List Bytes) → IsLive (keep key live) key
unfolding keep has_key
keep-IsLive key live = elim (Bool-cases (has_key key live)) [
  | inl there ↦ rw there there
  | inr away ↦ rw away (let same = bytes_eq_refl key in rw same refl)
]

pub keep_kept :
    (key other : Bytes) (live : List Bytes) → IsLive live other → IsLive (keep key live) other
unfolding keep has_key
keep_kept key other live h = elim (Bool-cases (has_key key live)) [
  | inl there ↦ rw there h
  | inr away ↦ rw (away, h) (ground arith)
]

pub keep_all_kept :
    (keys : List Bytes) (other : Bytes) (live : List Bytes)
    → IsLive live other
    → IsLive (keep_all keys live) other
unfolding keep_all
keep_all_kept [] other live h = h
keep_all_kept (key ∷ keys) other live h =
    keep_all_kept keys other (keep key live) (keep_kept key other live h)

pub keep_all-IsLive : (keys live : List Bytes) → All (IsLive (keep_all keys live)) keys
unfolding keep_all
keep_all-IsLive [] live = tt
keep_all-IsLive (key ∷ keys) live = (
  keep_all_kept keys key (keep key live) (keep-IsLive key live),
  keep_all-IsLive keys (keep key live),
)

-- What is live in one list is live in the other.
abbrev pub Kept : List Bytes → List Bytes → Type 0
Kept live live' = (key : Bytes) → IsLive live key → IsLive live' key

pub All-Kept :
    (keys live live' : List Bytes)
    → Kept live live'
    → All (IsLive live) keys
    → All (IsLive live') keys
All-Kept [] live live' k all = tt
All-Kept (key ∷ keys) live live' k (one, all) = (k key one, All-Kept keys live live' k all)

-- What became live was added, or was live before.
pub keep-back :
    (key other : Bytes) (live : List Bytes)
    → IsLive (keep key live) other
    → (other ≡ key) ⊎ IsLive live other
unfolding keep has_key
keep-back key other live h = elim (Bool-cases (has_key key live)) [
  | inl there ↦ inr (rw there at h)
  | inr away ↦ elim (Bool-cases (bytes_eq key other)) [
    | inl same ↦ inl (sym (eq_of_bytes_eq key other same))
    | inr differs ↦ inr (rw (away, differs) at h)
  ]
]

pub keep_all-back :
    (keys : List Bytes) (other : Bytes) (live : List Bytes)
    → IsLive (keep_all keys live) other
    → IsLive keys other ⊎ IsLive live other
unfolding keep_all has_key
keep_all-back [] other live h = inr h
keep_all-back (key ∷ keys) other live h = elim (keep_all-back keys other (keep key live) h) [
  | inl later ↦ inl (rw later (ground arith))
  | inr now ↦ elim (keep-back key other live now) [
    | inl same ↦ inl (rw same (let one = bytes_eq_refl key in rw one refl))
    | inr before ↦ inr before
  ]
]

module _ (sha : Sha256) (hex : Hex) (get_bounded : Bytes → ℕ → Result Bytes)
    (parent_of : Bytes → Option Ref) where
  -- The keys of `reach_copies` from here on.
  abbrev copies : ℕ → Option Ref → List Bytes → List Bytes
  copies = reach_copies sha hex get_bounded parent_of

  pub reach_copies-Kept :
      (keep_heads : ℕ) (parent : Option Ref) (live : List Bytes)
      → Kept live (reach_copies sha hex get_bounded parent_of keep_heads parent live)
  unfolding reach_copies
  reach_copies-Kept zero parent live key h = h
  reach_copies-Kept (suc keep_heads) none live key h = h
  reach_copies-Kept (suc keep_heads) (some reference) live key h =
      go (get_bounded (object_key hex reference.digest) max_head) (λ bytes.
        reach_copies-Kept keep_heads (parent_of bytes) _ key
          (keep_kept (object_key hex reference.digest) key live h))
    where
      go :
          (read : Result Bytes)
          → ((bytes : Bytes)
              → IsLive
                  (copies keep_heads
                    (parent_of bytes)
                    (keep (object_key hex reference.digest) live))
                  key)
          → IsLive
              (elim read [
                | err why ↦ live
                | ok bytes ↦
                    copies keep_heads
                      (parent_of bytes)
                      (keep (object_key hex reference.digest) live)
              ])
              key
      go (err why) again = h
      go (ok bytes) again = again bytes

  -- What a copy adds is its own key, or was added or live before.
  from_any :
      (keep_heads : ℕ) (parent : Option Ref) (copy : Bytes) (live base : List Bytes) (key : Bytes)
      → IsLive (copies keep_heads parent (keep copy base)) key ⊎ IsLive (keep copy live) key
      → IsLive (copies keep_heads parent (keep copy base)) key ⊎ IsLive live key
  from_any keep_heads parent copy live base key (inl copied) = inl copied
  from_any keep_heads parent copy live base key (inr kept) = elim (keep-back copy key live kept) [
    | inl same ↦ inl (
        reach_copies-Kept keep_heads parent (keep copy base) key
          (subst (λ k. IsLive (keep copy base) k) (sym same) (keep-IsLive copy base)))
    | inr before ↦ inr before
  ]

  -- What the copies make live they make live from any start.
  pub reach_copies-back :
      (keep_heads : ℕ) (parent : Option Ref) (live base : List Bytes) (key : Bytes)
      → IsLive (reach_copies sha hex get_bounded parent_of keep_heads parent live) key
      → IsLive (reach_copies sha hex get_bounded parent_of keep_heads parent base) key
        ⊎ IsLive live key
  unfolding reach_copies
  reach_copies-back zero parent live base key h = inr h
  reach_copies-back (suc keep_heads) none live base key h = inr h
  reach_copies-back (suc keep_heads) (some reference) live base key h =
      go (get_bounded (object_key hex reference.digest) max_head) h (λ bytes k.
        from_any keep_heads (parent_of bytes) (object_key hex reference.digest) live base key
          (reach_copies-back keep_heads (parent_of bytes) _ _ key k))
    where
      go :
          (read : Result Bytes)
          → IsLive
              (elim read [
                | err why ↦ live
                | ok bytes ↦
                    copies keep_heads
                      (parent_of bytes)
                      (keep (object_key hex reference.digest) live)
              ])
              key
          → ((bytes : Bytes)
              → IsLive
                  (copies keep_heads
                    (parent_of bytes)
                    (keep (object_key hex reference.digest) live))
                  key
              → IsLive
                  (copies keep_heads
                    (parent_of bytes)
                    (keep (object_key hex reference.digest) base))
                  key
                ⊎ IsLive live key)
          → IsLive
              (elim read [
                | err why ↦ base
                | ok bytes ↦
                    copies keep_heads
                      (parent_of bytes)
                      (keep (object_key hex reference.digest) base)
              ])
              key
            ⊎ IsLive live key
      go (err why) l again = inr l
      go (ok bytes) l again = again bytes l
