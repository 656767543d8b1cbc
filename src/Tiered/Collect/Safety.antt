-- ===== src/Tiered/Collect/Safety.antt =====
-- What is collected, and what is kept.
use fossil.Base.{
  All, List, Option, Result, [], false, if◌then◌else◌, length, none, ok, some, suc, ℕ, ◌+◌, ◌>>=◌,
  ◌∷◌, ◌≡◌, ◌≤◌, ◌⊎◌,
}
use fossil.Bytes.{Bytes}
use fossil.Extern.{Sha256, Hex}
use fossil.Codec.{ObjectRef}
use fossil.Head.Manifest.{Run, Head, Ref, runs}
use fossil.Tiered.Collect.{
  Listed, GcReport, has_key, keys_of, reach_copies, count_deleted, count_kept,
}
use fossil.Tiered.Collect.Covers.{Closed, Covered, IsIn, RefersTo, root_key}

-- A listed object that may be deleted: not live, and old in the listing.
abbrev pub IsDoomed : List Bytes → ℕ → Listed → Type 0
IsDoomed live cutoff l = (has_key l.key live ≡ false) × (l.modified ≤ cutoff)

-- How many listed objects are live.
unfoldable pub live_count : List Bytes → List Listed → ℕ
live_count live [] = 0
live_count live (l ∷ listed) =
    if has_key l.key live then suc (live_count live listed) else live_count live listed

module _ (modified : Bytes → Result (Option ℕ)) (delete : Bytes → Result (Unit {0})) where
  -- An object that was deleted was not live, and was old in the listing and when it was looked at
  -- again.
  abbrev pub Reaped : List Bytes → ℕ → Listed × Option ℕ → Type 0
  Reaped live cutoff (l, none) = Unit
  Reaped live cutoff (l, some size) =
      IsDoomed live cutoff l
      × ((now : ℕ) × (modified l.key ≡ ok (some now)) × (now ≤ cutoff))
      × (size ≡ l.size)

  abbrev AllReaped : List Bytes → ℕ → ℕ → List (Listed × Option ℕ) → Type 0
  AllReaped live cutoff n outcomes =
      All (Reaped live cutoff) outcomes × (count_deleted outcomes + count_kept outcomes ≡ n)

module _ (sha : Sha256) (hex : Hex) (get_bounded : Bytes → ℕ → Result Bytes)
    (parent_of : Bytes → Option Ref) (modified : Bytes → Result (Option ℕ))
    (delete : Bytes → Result (Unit {0})) where
  -- The set of live keys that a collection over two heads accounts for.
  pub record Accounts (head head' : Head) (listed : List Listed) (cutoff : ℕ) (report : GcReport)
      (outcomes : List (Listed × Option ℕ)) : Type 0 where
    pub live : List Bytes
    pub sized : report.live_objects ≡ length live
    pub before : (run : Run) → IsIn run (runs head) → Covered sha hex get_bounded run live
    pub after : (run : Run) → IsIn run (runs head') → Covered sha hex get_bounded run live
    pub reaped : All (Reaped modified delete live cutoff) outcomes
    pub counted :
        report.deleted_objects + report.kept_young + live_count live listed ≡ length listed

  abbrev InEither : Head → Head → Run → Type 0
  InEither head head' run = IsIn run (runs head) ⊎ IsIn run (runs head')

  module _ (head head' : Head) (keep_heads : ℕ)
      (one_root : (run other : Run)
        → InEither head head' run
        → InEither head head' other
        → root_key sha hex get_bounded run ≡ root_key sha hex get_bounded other
        → run ≡ other)
      (no_root : (run other : Run) (refs : List ObjectRef)
        → InEither head head' run
        → InEither head head' other
        → RefersTo sha hex get_bounded other refs
        → has_key (root_key sha hex get_bounded run) (keys_of sha hex get_bounded refs) ≡ false)
      (no_copy : (run : Run)
        → InEither head head' run
        → has_key
            (root_key sha hex get_bounded run)
            (reach_copies sha hex get_bounded parent_of keep_heads head.parent [])
          ≡ false) where
    abbrev IsClosed : List Bytes → Type 0
    IsClosed = Closed sha hex get_bounded (InEither head head') one_root no_root
