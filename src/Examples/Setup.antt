-- ===== src/Examples/Setup.antt =====
-- Stand-ins for the other crates, and the heads, packages and pages of the examples.
use fossil.Base.{
  Bool, List, Option, [], ap, arith, err, invalid_head, length, ltb, none, ok, refl, replicate,
  some, suc, take, true, zero, ℕ, ◌%◌, ◌&&◌, ◌<◌, ◌∷◌, ◌≡◌,
}
use fossil.Bytes.{Bytes, AreBytes}
use fossil.Extern.{Sha256, Hex, Zstd}
use fossil.Head.Manifest.{Head, Run, head_magic}
use fossil.Package.{BlockMeta, Segment, Package, anchor, delta}
use fossil.Tiered.Publication.{PublicationGate, finalized, Json}
use fossil.Tiered.Compaction.{BuiltRun}

pub length-replicate : (n x : ℕ) → length (replicate n x) ≡ n
length-replicate zero x = refl
length-replicate (suc n) x = ap suc (length-replicate n x)

pub All-replicate : (n x : ℕ) → x < 256 → AreBytes (replicate n x)
All-replicate zero x h = tt
All-replicate (suc n) x h = (h, All-replicate n x h)

abbrev pub toy_sha : Sha256
toy_sha = record {
  digest = λ bytes. replicate 32 (length bytes % 256);
  length_digest = λ bytes. length-replicate 32 (length bytes % 256);
  digest_bytes = λ bytes. All-replicate 32 (length bytes % 256) (omega arith);
}

abbrev pub toy_hex : Hex
toy_hex = record {
  encode = λ bytes. bytes;
  decode = λ bytes. ok bytes;
  decode_encode = λ bytes h. refl;
}

abbrev pub toy_zstd : Zstd
toy_zstd = record {
  encode = λ bytes. ok bytes;
  decode = λ window maximum bytes. ok (take maximum bytes);
  decode_encode = λ window maximum bytes packed w e. cc e;
}

abbrev pub toy_json : Json
toy_json = record { to_vec = λ head. head_magic; from_slice = λ bytes. err invalid_head }

-- The run of one block, or of several.
abbrev pub run_of : ℕ → ℕ → ℕ → Run
run_of start end weight = record {
  start = start;
  end = end;
  weight = weight;
  keys = 1;
  shards = 1;
  root = record { digest = replicate 32 1; size = 1 };
  root_bytes = 7 ∷ [];
}

abbrev pub built : BuiltRun
built = record {
  root = record { digest = replicate 32 1; size = 1 };
  root_bytes = 7 ∷ [];
  keys = 1;
  shards = 1;
}

abbrev pub block_at : ℕ → ℕ → ℕ → BlockMeta
block_at number hash parent = record {
  number = number;
  hash = replicate 32 hash;
  parent_hash = replicate 32 parent;
  state_root = replicate 32 9;
  timestamp = number;
}

abbrev pub package_of : List BlockMeta → ℕ → ℕ → Segment
package_of blocks start end = record {
  schema = [];
  chain_id = 1;
  genesis_hash = replicate 32 1;
  start_block = start;
  end_block = end;
  blocks = blocks;
  accounts = [];
  storage = [];
  code = [];
}

abbrev pub genesis : BlockMeta
genesis = block_at 0 1 0

abbrev pub anchor_package : Package
anchor_package = record {
  mode = anchor;
  preceding_number = none;
  preceding_hash = none;
  input_sha256 = replicate 32 5;
  segment = package_of (genesis ∷ []) 0 0;
}

abbrev pub anchor_gate : PublicationGate
anchor_gate = finalized 0 (replicate 32 1)

abbrev pub second : BlockMeta
second = block_at 1 2 1

abbrev pub third : BlockMeta
third = block_at 2 3 2

abbrev pub delta_package : Package
delta_package = record {
  mode = delta;
  preceding_number = some 0;
  preceding_hash = some (replicate 32 1);
  input_sha256 = replicate 32 6;
  segment = package_of (second ∷ third ∷ []) 1 2;
}

abbrev pub delta_gate : PublicationGate
delta_gate = finalized 2 (replicate 32 3)

abbrev pub head_of : ℕ → ℕ → List Run → List (Option Run) → Head
head_of number hash l0 levels = record {
  magic = head_magic;
  chain_id = 1;
  genesis = replicate 32 1;
  number = number;
  hash = replicate 32 hash;
  state_root = replicate 32 9;
  input_sha256 = replicate 32 5;
  parent = none;
  l0 = l0;
  levels = levels;
}

-- One block was published.
abbrev pub one_block : Head
one_block = head_of 0 1 (run_of 0 0 1 ∷ []) []

-- Four runs wait, above a level of weight four.
abbrev pub four_waiting : Head
four_waiting =
    head_of 7 8 (run_of 4 4 1 ∷ run_of 5 5 1 ∷ run_of 6 6 1 ∷ run_of 7 7 1 ∷ [])
      (some (run_of 0 3 4) ∷ [])

-- The same with a block that was published since.
abbrev pub five_waiting : Head
five_waiting =
    head_of 8 9 (run_of 4 4 1 ∷ run_of 5 5 1 ∷ run_of 6 6 1 ∷ run_of 7 7 1 ∷ run_of 8 8 1 ∷ [])
      (some (run_of 0 3 4) ∷ [])

abbrev pub all_bytes : Bytes → Bool
all_bytes [] = true
all_bytes (b ∷ bs) = ltb b 256 && all_bytes bs

pub AreBytes-of : (bytes : Bytes) → all_bytes bytes ≡ true → AreBytes bytes
AreBytes-of [] h = tt
AreBytes-of (b ∷ bs) h = (ground (arith, h), AreBytes-of bs (ground (arith, h)))
