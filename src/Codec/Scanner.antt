-- ===== src/Codec/Scanner.antt =====
-- `RunScanner`: the records of a run, one after the other, over one cursor for each partition.
pub mod Failed
use fossil.Base.{
  Bool, List, Option, Result, [], bad_fence, bad_fence_ref, bad_leaf, bad_page, bail_if, err,
  failed_scanner, false, get_elem?, if◌then◌else◌, length, map, none, not, not_sorted, ok,
  out_of_fuel, some, suc, take, true, zero, ℕ, ◌+◌, ◌==◌, ◌>>=◌, ◌>>◌, ◌∷◌,
}
use fossil.Bytes.{Bytes, Version, bytes_eq, version_le, version_lt}
use fossil.Extern.{Sha256, Zstd}
use fossil.Codec.{
  is_empty, ObjectRef, Record, Fence, version_of, fence_version, bad_ref, ref_eq, no_object,
  max_index_bytes, max_page_bytes, internal_magic, index_magic,
}
use fossil.Codec.Index.{decode_index}
use fossil.Codec.Page.{decode_data_page}
use fossil.Codec.Lookup.{misses_record, misses_fence}

pub record PartitionCursor : Type 0 where
  pub root : ObjectRef
  pub initialized : Bool
  pub parents : List Fence
  pub parent_pos : ℕ
  pub leaf : List Fence
  pub fence_pos : ℕ
  pub page : List Record
  pub previous : Option Version
  pub previous_fence : Option Version

-- `PartitionCursor::new`
unfoldable pub new_cursor : ObjectRef → PartitionCursor
new_cursor root = record {
  root = root;
  initialized = false;
  parents = [];
  parent_pos = 0;
  leaf = [];
  fence_pos = 0;
  page = [];
  previous = none;
  previous_fence = none;
}

pub record RunScanner : Type 0 where
  pub cursors : List PartitionCursor
  pub failed : Bool

-- `RunReader::scanner`
unfoldable pub scanner : List ObjectRef → RunScanner
scanner indexes = record { cursors = map new_cursor indexes; failed = false }

-- `is_some_and` of what was read before, which is not below `start`
unfoldable pub not_before : Option Version → Version → Bool
not_before none start = false
not_before (some prior) start = version_le start prior

module _ (sha : Sha256) (zstd : Zstd) (fetch : ObjectRef → Result Bytes) where
  -- The root of a cursor that is read for the first time.
  unfoldable pub load_root : ℕ → PartitionCursor → Result PartitionCursor
  load_root shard c = do
    bail_if (bad_ref max_index_bytes c.root) bad_fence_ref
    bytes ← fetch c.root
    (if bytes_eq (take 4 bytes) internal_magic
        then (do
          parents ← decode_index sha c.root bytes shard internal_magic
          ok (record c { initialized = true; parents = parents }))
        else (do
          leaf ← decode_index sha c.root bytes shard index_magic
          ok (record c { initialized = true; leaf = leaf })))

  -- the next leaf of a cursor whose leaf is read; `none` where there is no parent entry left
  unfoldable pub load_leaf : ℕ → Option Fence → PartitionCursor → Result (Option PartitionCursor)
  load_leaf shard none c = ok none
  load_leaf shard (some parent) c = do
    bail_if (bad_ref max_index_bytes parent.object) bad_fence_ref
    bytes ← fetch parent.object
    leaf ← decode_index sha parent.object bytes shard index_magic
    bail_if (misses_fence leaf (fence_version parent)) bad_leaf
    ok (some (record c { leaf = leaf; fence_pos = 0; parent_pos = c.parent_pos + 1 }))

  -- the page of the cursor's fence; an index out of bounds would panic
  unfoldable pub load_page : ℕ → Option Fence → PartitionCursor → Result PartitionCursor
  load_page shard none c = err bad_fence
  load_page shard (some fence) c = do
    let start = fence_version fence
    bail_if (not_before c.previous_fence start) not_sorted
    bail_if (bad_ref max_page_bytes fence.object) bad_fence_ref
    bytes ← fetch fence.object
    records ← decode_data_page sha zstd fence.object bytes shard
    bail_if (misses_record records start) bad_page
    bail_if (not_before c.previous start) not_sorted
    ok (record c { page = records; fence_pos = c.fence_pos + 1; previous_fence = some start })

  -- A leaf that is read to its end is dropped before the next one is loaded.
  unfoldable pub next_leaf : ℕ → PartitionCursor → Result (Option PartitionCursor)
  next_leaf shard c =
      if c.fence_pos == length c.leaf
      then load_leaf shard (get_elem? c.parents c.parent_pos)
          (record c { leaf = []; fence_pos = 0 })
      else ok (some c)

  -- A round of the loop behind its leaf, and how it goes on.
  unfoldable pub after_leaf :
      (PartitionCursor → Result PartitionCursor)
      → ℕ
      → PartitionCursor
      → Option PartitionCursor
      → Result PartitionCursor
  after_leaf again shard c none = ok (record c { leaf = []; fence_pos = 0 })
  after_leaf again shard c (some found) = do
    loaded ← load_page shard (get_elem? found.leaf found.fence_pos) found
    again loaded

  -- The loop of `ready`. A page that is decoded is not empty, so a second round ends it.
  unfoldable pub ready_loop : ℕ → ℕ → PartitionCursor → Result PartitionCursor
  ready_loop zero shard c = err out_of_fuel
  ready_loop (suc fuel) shard c =
      if not (is_empty c.page)
      then ok c
      else (do found ← next_leaf shard c; after_leaf (ready_loop fuel shard) shard c found)

  -- `ready`, where the root is read once
  unfoldable pub ready : ℕ → PartitionCursor → Result PartitionCursor
  ready shard c =
      if c.initialized
      then ready_loop 2 shard c
      else if ref_eq c.root no_object
      then ok (record c { initialized = true })
      else (do c' ← load_root shard c; ready_loop 2 shard c')

  unfoldable pub ready_all : ℕ → List PartitionCursor → Result (List PartitionCursor)
  ready_all shard [] = ok []
  ready_all shard (c ∷ cursors) = do
    c' ← ready shard c
    rest ← ready_all (suc shard) cursors
    ok (c' ∷ rest)

  -- `min_by` of the first records, with the index of the cursor; of equal ones it keeps the first
  unfoldable pub lesser : ℕ → Record → Option (ℕ × Record) → ℕ × Record
  lesser index r none = (index, r)
  lesser index r (some (other, q)) =
      if version_lt (version_of q) (version_of r) then (other, q) else (index, r)

  unfoldable pub least_with : ℕ → List Record → Option (ℕ × Record) → Option (ℕ × Record)
  least_with index [] rest = rest
  least_with index (r ∷ records) rest = some (lesser index r rest)

  unfoldable pub least : ℕ → List PartitionCursor → Option (ℕ × Record)
  least index [] = none
  least index (c ∷ cursors) = least_with index c.page (least (suc index) cursors)

  -- `pop_front` of the chosen cursor
  unfoldable pub pop : PartitionCursor → PartitionCursor
  pop c = elim c.page [
    | [] ↦ c
    | r ∷ rest ↦ record c { page = rest; previous = some (version_of r) }
  ]

  unfoldable pub pop_at : List PartitionCursor → ℕ → List PartitionCursor
  pop_at [] index = []
  pop_at (c ∷ cursors) zero = pop c ∷ cursors
  pop_at (c ∷ cursors) (suc index) = c ∷ pop_at cursors index

  unfoldable pub next_of : List PartitionCursor → Option (ℕ × Record) → Option Record × RunScanner
  next_of cursors none = (none, record { cursors = cursors; failed = false })
  next_of cursors (some (index, r)) =
      (some r, record { cursors = pop_at cursors index; failed = false })

  unfoldable pub answer :
      RunScanner → Result (List PartitionCursor) → Result (Option Record) × RunScanner
  answer s (err why) = (err why, record s { failed = true })
  answer s (ok cursors) =
      let (front, after) = next_of cursors (least 0 cursors) in (ok front, after)

  -- The scanner is kept after an error, with its mark. The cursors of a failed scanner are not read.
  unfoldable pub next : RunScanner → Result (Option Record) × RunScanner
  next s = if s.failed then (err failed_scanner, s) else answer s (ready_all 0 s.cursors)

  -- Any number of calls, with the last answer.
  unfoldable pub nexts : ℕ → RunScanner → Result (Option Record) × RunScanner
  nexts zero s = next s
  nexts (suc count) s = let (answer, after) = next s in nexts count after
