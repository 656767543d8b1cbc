-- ===== src/Tiered/Publication.antt =====
-- `publish`: the guards before anything is written, and the head that is committed. `swap` records
-- the replaced head as the parent.
pub mod Guards
pub mod Append
pub mod Reread
use fossil.Base.{
  Bool, List, Option, Result, [], backlog_full, bad_gate, bad_transition, bail_if, chain_mismatch,
  err, false, head_too_large, if◌then◌else◌, invalid_interval, leb, length, ltb, none, not, ok,
  some, too_long, true, ℕ, ◌&&◌, ◌++◌, ◌+◌, ◌==◌, ◌>>=◌, ◌>>◌, ◌^◌, ◌||◌, ◌∷◌,
}
use fossil.Bytes.{Bytes, bytes_eq}
use fossil.Extern.{Sha256, Hex}
use fossil.Head.Account.{zero32}
use fossil.Head.Manifest.{validate, Head, Run, Ref, head_magic, max_head, max_l0_backlog}
use fossil.Package.{BlockMeta, Segment, Package, Mode, anchor, delta}

pub data PublicationGate : Type 0 where
  finalized : ℕ → Bytes → PublicationGate
  fixed_offset : ℕ → Bytes → ℕ → PublicationGate

-- Some window of two blocks is not linked by number and hash.
unfoldable pub broken_link : List BlockMeta → Bool
broken_link [] = false
broken_link (a ∷ []) = false
broken_link (a ∷ b ∷ rest) =
    (leb (2 ^ 64) (a.number + 1)
      || not (a.number + 1 == b.number)
      || not (bytes_eq a.hash b.parent_hash))
    || broken_link (b ∷ rest)

unfoldable pub bad_interval : Segment → BlockMeta → BlockMeta → Bool
bad_interval segment first last =
    not (segment.start_block == first.number)
    || not (segment.end_block == last.number)
    || ltb 1000 (length segment.blocks)
    || broken_link segment.blocks

unfoldable pub gate_passes : PublicationGate → BlockMeta → Bool
gate_passes (finalized number hash) last = number == last.number && bytes_eq hash last.hash
gate_passes (fixed_offset number hash offset) last =
    offset == 0 && number == last.number && bytes_eq hash last.hash

unfoldable pub is_published : Head → Package → BlockMeta → Bool
is_published head pkg last =
    head.chain_id == pkg.segment.chain_id
    && bytes_eq head.genesis pkg.segment.genesis_hash
    && head.number == last.number
    && bytes_eq head.hash last.hash
    && bytes_eq head.input_sha256 pkg.input_sha256

-- `preceding_number == Some(number)` and `preceding_hash == Some(hash)`
unfoldable pub is_number : Option ℕ → ℕ → Bool
is_number none number = false
is_number (some n) number = n == number

unfoldable pub is_hash : Option Bytes → Bytes → Bool
is_hash none hash = false
is_hash (some h) hash = bytes_eq h hash

unfoldable pub follows : Package → BlockMeta → Mode → Option Head → Bool
follows pkg first anchor none =
    first.number == 0
    && bytes_eq first.hash pkg.segment.genesis_hash
    && bytes_eq first.parent_hash zero32
follows pkg first delta (some head) =
    bytes_eq head.genesis pkg.segment.genesis_hash
    && ltb (head.number + 1) (2 ^ 64)
    && head.number + 1 == first.number
    && is_number pkg.preceding_number head.number
    && is_hash pkg.preceding_hash head.hash
    && bytes_eq first.parent_hash head.hash
follows pkg first _ _ = false

unfoldable pub already : Option Head → Package → BlockMeta → Bool
already none pkg last = false
already (some head) pkg last = is_published head pkg last

unfoldable pub is_full : Option Head → Bool
is_full none = false
is_full (some head) = leb max_l0_backlog (length head.l0)

-- The guards of `publish` in their order. `false` is the early success of a package that the head
-- already records.
unfoldable pub admit : Package → PublicationGate → BlockMeta → BlockMeta → Option Head → Result Bool
admit pkg gate first last previous = do
  bail_if (bad_interval pkg.segment first last) invalid_interval
  bail_if (not (gate_passes gate last)) bad_gate
  (if already previous pkg last then ok false else (do
    bail_if (not (follows pkg first pkg.mode previous)) bad_transition
    bail_if (is_full previous) backlog_full
    ok true))

-- `next` of a round of the commit loop
unfoldable pub next_head : Package → BlockMeta → BlockMeta → Option Head → Run → Head
next_head pkg first last none run = record {
  magic = head_magic;
  chain_id = pkg.segment.chain_id;
  genesis = pkg.segment.genesis_hash;
  number = last.number;
  hash = last.hash;
  state_root = last.state_root;
  input_sha256 = pkg.input_sha256;
  parent = none;
  l0 = run ∷ [];
  levels = [];
}
next_head pkg first last (some head) run = record head {
  number = last.number;
  hash = last.hash;
  state_root = last.state_root;
  input_sha256 = pkg.input_sha256;
  l0 = head.l0 ++ run ∷ [];
}

-- A retry goes on only if the head moved under the same block.
unfoldable pub may_rebase : Head → Head → Bool
may_rebase now before = now.number == before.number && bytes_eq now.hash before.hash

-- serde_json over the derived fields of `Head`. That a head is read back from what is written is a
-- hypothesis where it is used.
pub record Json : Type 0 where
  pub to_vec : Head → Bytes
  pub from_slice : Bytes → Result Head

module _ (sha : Sha256) (json : Json) where
  -- `stage`, whose put of the bytes under their digest is the store's
  unfoldable pub stage : Bytes → Result Ref
  stage bytes =
      if ltb (length bytes) (2 ^ 32)
      then ok (record { digest = sha.digest bytes; size = length bytes })
      else err too_long

  unfoldable pub stage_previous : Option Bytes → Result (Option Ref)
  stage_previous none = ok none
  stage_previous (some bytes) = do reference ← stage bytes; ok (some reference)

  -- `swap` up to the compare-and-swap: the head that is written, and its bytes
  unfoldable pub swap : Option Bytes → Head → Result (Head × Bytes)
  swap previous next = do
    parent ← stage_previous previous
    let linked = record next { parent = parent }
    let bytes = json.to_vec linked
    bail_if (ltb max_head (length bytes)) head_too_large
    ok (linked, bytes)

-- `Head::decode`, and `read_head` of the bytes that the store holds under the chain's head key
module _ (sha : Sha256) (hex : Hex) (json : Json) where
  unfoldable pub decode_head : Bytes → Result Head
  decode_head bytes = do head ← json.from_slice bytes; validate sha hex head

  unfoldable pub read_head : ℕ → Option Bytes → Result (Option (Bytes × Head))
  read_head chain_id none = ok none
  read_head chain_id (some bytes) = do
    head ← decode_head bytes
    bail_if (not (head.chain_id == chain_id)) chain_mismatch
    ok (some (bytes, head))
