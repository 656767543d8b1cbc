-- ===== src/Compact/Pages.antt =====
-- `ReadAhead` of src/compact.rs: pages that are fetched in batches ahead of the scanners. A HashMap is
-- a list whose first entry of a key counts; the fetches of a batch, which run side by side, are in
-- the order of their list.
pub mod Places
pub mod Fetched
use fossil.Base.{
  List, Option, Result, [], drop, err, get_elem?, if◌then◌else◌, none, ok, some, suc, take,
  unavailable, ℕ, ◌++◌, ◌>>=◌, ◌∷◌,
}
use fossil.Bytes.{Bytes, bytes_eq}
use fossil.Codec.{ObjectRef}

abbrev pub read_ahead : ℕ
read_ahead = 8

-- A digest with its list and the position there.
abbrev pub Place : Type 0
Place = Bytes × ℕ × ℕ

abbrev pub Ready : Type 0
Ready = List (Bytes × Bytes)

-- the loops of `ReadAhead::new` over the lists and their pages
unfoldable pub order_pages : ℕ → ℕ → List ObjectRef → List Place
order_pages at position [] = []
order_pages at position (page ∷ pages) =
    (page.digest, at, position) ∷ order_pages at (suc position) pages

unfoldable pub order_lists : ℕ → List (List ObjectRef) → List Place
order_lists at [] = []
order_lists at (pages ∷ lists) = order_pages at 0 pages ++ order_lists (suc at) lists

unfoldable pub place_of : List Place → Bytes → Option (ℕ × ℕ)
place_of [] digest = none
place_of ((d, at, position) ∷ places) digest =
    if bytes_eq d digest then some (at, position) else place_of places digest

unfoldable pub ready_bytes : Ready → Bytes → Option Bytes
ready_bytes [] digest = none
ready_bytes ((d, bytes) ∷ ready) digest =
    if bytes_eq d digest then some bytes else ready_bytes ready digest

unfoldable pub without : Ready → Bytes → Ready
without [] digest = []
without ((d, bytes) ∷ ready) digest =
    let rest = without ready digest in if bytes_eq d digest then rest else (d, bytes) ∷ rest

-- `extend` with the pages behind the first
unfoldable pub extend : List (ObjectRef × Bytes) → Ready → Ready
extend [] ready = ready
extend ((page, bytes) ∷ fetched) ready = extend fetched ((page.digest, bytes) ∷ ready)

module _ (fetch : ObjectRef → Result Bytes) where
  -- `data_pages` of the readers, one after the other
  unfoldable pub all_lists :
      (List ObjectRef → Result (List (List ObjectRef)))
      → List (List ObjectRef)
      → Result (List (List ObjectRef))
  all_lists data_pages [] = ok []
  all_lists data_pages (indexes ∷ readers) = do
    pages ← data_pages indexes
    others ← all_lists data_pages readers
    ok (pages ++ others)

  unfoldable pub fetch_all : List ObjectRef → Result (List (ObjectRef × Bytes))
  fetch_all [] = ok []
  fetch_all (page ∷ pages) = do
    bytes ← fetch page
    others ← fetch_all pages
    ok ((page, bytes) ∷ others)

  -- The first of a batch is the answer, and the others are kept.
  unfoldable pub keep_batch : List (ObjectRef × Bytes) → Ready → Result (Bytes × Ready)
  keep_batch [] ready = err unavailable
  keep_batch ((page, bytes) ∷ fetched) ready = ok (bytes, extend fetched ready)

  unfoldable pub batch_at : Option (List ObjectRef) → ℕ → List ObjectRef
  batch_at none position = []
  batch_at (some pages) position = take read_ahead (drop position pages)

  -- `get` for a page that is not ready
  unfoldable pub get_batch :
      List (List ObjectRef) → ObjectRef → Option (ℕ × ℕ) → Ready → Result (Bytes × Ready)
  get_batch lists reference none ready = do bytes ← fetch reference; ok (bytes, ready)
  get_batch lists reference (some (at, position)) ready = do
    fetched ← fetch_all (batch_at (get_elem? lists at) position)
    keep_batch fetched ready

  unfoldable pub get_page : List (List ObjectRef) → ObjectRef → Ready → Result (Bytes × Ready)
  get_page lists reference ready = elim (ready_bytes ready reference.digest) [
    | some bytes ↦ ok (bytes, without ready reference.digest)
    | none ↦ get_batch lists reference (place_of (order_lists 0 lists) reference.digest) ready
  ]
