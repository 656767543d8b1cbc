-- ===== src/Examples/Heads.antt =====
-- The heads of the examples: publication, compaction, validation, accounts and keys.
use fossil.Base.{
  All, [], arith, err, inl, length, none, ok, refl, replicate, some, too_many_levels, true, ℕ, ◌++◌,
  ◌+◌, ◌∷◌, ◌≡◌, ◌≤◌, ◌⊎◌,
}
use fossil.Bytes.{Bytes}
use fossil.Examples.Setup.{
  toy_sha, toy_hex, toy_json, run_of, built, genesis, second, third, anchor_package, anchor_gate,
  delta_package, delta_gate, one_block, four_waiting, five_waiting,
}
use fossil.Head.Manifest.{max_head, Head, validate, runs, head_magic, max_levels}
use fossil.Head.Manifest.Coverage.{EndFits, RootOk, holders}
use fossil.Head.Manifest.Validity.{IsValid, validate→IsValid, IsValid→validate}
use fossil.Tiered.Compaction.{Plan, Carried, plan, commit, install, merged_run}
use fossil.Tiered.Compaction.Carry.{FullFrom}
use fossil.Tiered.Compaction.Planned.{Planned, plan_cases}
use fossil.Tiered.Compaction.Safety.{Compacted, commit-IsValid}
use fossil.Tiered.Publication.Reread.{read_head-swap}
use fossil.Tiered.Publication.{read_head, Json, next_head, swap, admit}
use fossil.Tiered.Publication.Guards.{Linked, last_of, GateSees, Continues, admit_sound}
use fossil.Tiered.Publication.Append.{IsEpoch, next_head-IsValid}
use fossil.Tiered.Protocol.{Trace, begin, publish, History, Trace-History, Trace-holders}

one_block-validates : validate toy_sha toy_hex one_block ≡ ok one_block
unfolding validate fossil.Head.Manifest.bad_bounds fossil.Bytes.bytes_eq
    fossil.Head.Manifest.any_heavy fossil.Head.Manifest.check_levels fossil.Head.Manifest.check_runs
    runs fossil.Head.Manifest.flatten_runs fossil.Head.Manifest.bad_run
    fossil.Head.Manifest.power_below fossil.Head.Manifest.uncovered
one_block-validates = refl

four_waiting-validates : validate toy_sha toy_hex four_waiting ≡ ok four_waiting
unfolding validate fossil.Head.Manifest.bad_bounds fossil.Bytes.bytes_eq
    fossil.Head.Manifest.any_heavy fossil.Head.Manifest.check_levels fossil.Head.Manifest.unit
    fossil.Head.Manifest.check_runs runs fossil.Head.Manifest.flatten_runs
    fossil.Head.Manifest.bad_run fossil.Head.Manifest.power_below fossil.Head.Manifest.uncovered
four_waiting-validates = refl

five_waiting-validates : validate toy_sha toy_hex five_waiting ≡ ok five_waiting
unfolding validate fossil.Head.Manifest.bad_bounds fossil.Bytes.bytes_eq
    fossil.Head.Manifest.any_heavy fossil.Head.Manifest.check_levels fossil.Head.Manifest.unit
    fossil.Head.Manifest.check_runs runs fossil.Head.Manifest.flatten_runs
    fossil.Head.Manifest.bad_run fossil.Head.Manifest.power_below fossil.Head.Manifest.uncovered
five_waiting-validates = refl

four_ends : All EndFits (runs four_waiting)
unfolding runs fossil.Head.Manifest.flatten_runs
four_ends = (omega arith, (omega arith, (omega arith, (omega arith, (omega arith, tt)))))

abbrev five_ends : All EndFits (runs five_waiting)
unfolding runs fossil.Head.Manifest.flatten_runs
five_ends =
    (omega arith, (omega arith, (omega arith, (omega arith, (omega arith, (omega arith, tt))))))

one_ends : All EndFits (runs one_block)
unfolding runs fossil.Head.Manifest.flatten_runs
one_ends = (omega arith, tt)

validate→IsValid_example : (four_waiting ≡ four_waiting) × IsValid toy_sha toy_hex four_waiting
validate→IsValid_example =
    validate→IsValid toy_sha toy_hex four_waiting four_waiting four_waiting-validates four_ends
      (omega arith)

one_block-IsValid : IsValid toy_sha toy_hex one_block
one_block-IsValid =
    (validate→IsValid toy_sha toy_hex one_block one_block one_block-validates one_ends
      (omega arith)).1

four_waiting-IsValid : IsValid toy_sha toy_hex four_waiting
four_waiting-IsValid =
    (validate→IsValid toy_sha toy_hex four_waiting four_waiting four_waiting-validates four_ends
      (omega arith)).1

five_waiting-IsValid : IsValid toy_sha toy_hex five_waiting
five_waiting-IsValid =
    (validate→IsValid toy_sha toy_hex five_waiting five_waiting five_waiting-validates five_ends
      (omega arith)).1

IsValid→validate_example : validate toy_sha toy_hex four_waiting ≡ ok four_waiting
IsValid→validate_example =
    IsValid→validate toy_sha toy_hex four_waiting four_waiting-IsValid (omega arith)

plan_cases_example :
    ((c : Carried) × Planned toy_sha toy_hex four_waiting c)
    ⊎ ((plan four_waiting ≡ err too_many_levels)
        × (length four_waiting.levels ≡ max_levels)
        × FullFrom 0 four_waiting.levels)
plan_cases_example =
    plan_cases toy_sha toy_hex four_waiting four_waiting-IsValid (omega arith) (omega arith)

-- The level is folded with the four runs.
abbrev folding : Plan
folding = record {
  carried = record { target = 0; weight = 8; levels = none ∷ []; deeper = run_of 0 3 4 ∷ [] };
  inputs = run_of 0 3 4 ∷ run_of 4 4 1 ∷ run_of 5 5 1 ∷ run_of 6 6 1 ∷ run_of 7 7 1 ∷ [];
}

abbrev folded : Head
folded = record five_waiting { l0 = run_of 8 8 1 ∷ []; levels = some (run_of 0 7 8) ∷ [] }

folding_planned : plan four_waiting ≡ ok (some folding)
unfolding plan fossil.Tiered.Compaction.carry fossil.Tiered.Compaction.weight_of
    fossil.Tiered.Compaction.grow fossil.Head.Manifest.unit fossil.Tiered.Compaction.any_gap
    fossil.Tiered.Compaction.push_run
folding_planned = refl

folding_root : RootOk toy_sha toy_hex (merged_run toy_hex folding built)
unfolding merged_run fossil.Tiered.Compaction.new_run fossil.Head.Manifest.power_below
folding_root = (7 ∷ [], refl, refl, refl, refl)

folding_done : commit four_waiting (install toy_hex folding built) five_waiting ≡ ok folded
unfolding commit fossil.Tiered.Compaction.levels_eq fossil.Tiered.Compaction.run_eq
    fossil.Bytes.bytes_eq fossil.Tiered.Compaction.starts_with install fossil.Tiered.Compaction.trim
    merged_run fossil.Tiered.Compaction.new_run fossil.Tiered.Compaction.first_start
    fossil.Tiered.Compaction.last_end
folding_done = refl

-- A block was published between the plan and the commit.
commit-IsValid_example : Compacted toy_sha toy_hex five_waiting built folding folded
commit-IsValid_example =
    commit-IsValid toy_sha toy_hex four_waiting five_waiting folded folding built
      four_waiting-IsValid five_waiting-IsValid (omega arith) folding_planned folding_root
      folding_done

anchor_admitted : admit anchor_package anchor_gate genesis (last_of genesis []) none ≡ ok true
unfolding admit fossil.Tiered.Publication.bad_interval last_of fossil.Tiered.Publication.broken_link
    fossil.Tiered.Publication.gate_passes fossil.Bytes.bytes_eq fossil.Tiered.Publication.already
    fossil.Tiered.Publication.follows fossil.Head.Account.zero32 fossil.Tiered.Publication.is_full
anchor_admitted = refl

delta_admitted :
    admit delta_package delta_gate second (last_of second (third ∷ [])) (some one_block) ≡ ok true
unfolding admit fossil.Tiered.Publication.bad_interval last_of fossil.Tiered.Publication.broken_link
    fossil.Bytes.bytes_eq fossil.Tiered.Publication.gate_passes fossil.Tiered.Publication.already
    fossil.Tiered.Publication.is_published fossil.Tiered.Publication.follows
    fossil.Tiered.Publication.is_number fossil.Tiered.Publication.is_hash
    fossil.Tiered.Publication.is_full
delta_admitted = refl

admit_sound_example :
    Linked second (third ∷ [])
    × ((last_of second (third ∷ [])).number ≡ second.number + length (third ∷ []))
    × GateSees delta_gate (last_of second (third ∷ []))
    × Continues delta_package second delta_package.mode (some one_block)
admit_sound_example =
    admit_sound delta_package delta_gate second (third ∷ []) (some one_block) refl delta_admitted

run_root : (start end : ℕ) → RootOk toy_sha toy_hex (run_of start end 1)
unfolding fossil.Head.Manifest.power_below
run_root start end = (7 ∷ [], refl, refl, refl, refl)

IsEpoch-0 : IsEpoch toy_sha toy_hex genesis (last_of genesis []) (run_of 0 0 1)
unfolding last_of
IsEpoch-0 = record { start = refl; end = refl; light = refl; root = run_root 0 0 }

IsEpoch-1 : IsEpoch toy_sha toy_hex second (last_of second (third ∷ [])) (run_of 1 2 1)
unfolding last_of
IsEpoch-1 = record { start = refl; end = refl; light = refl; root = run_root 1 2 }

next_head-IsValid_example :
    IsValid toy_sha toy_hex
      (next_head delta_package second (last_of second (third ∷ [])) (some one_block) (run_of 1 2 1))
    × (runs (
          next_head delta_package second
            (last_of second (third ∷ []))
            (some one_block)
            (run_of 1 2 1))
        ≡ runs one_block ++ run_of 1 2 1 ∷ [])
next_head-IsValid_example =
    next_head-IsValid toy_sha toy_hex delta_package second (last_of second (third ∷ []))
      (run_of 1 2 1) IsEpoch-1 (unfold last_of in omega arith) one_block one_block-IsValid refl
      (omega arith)

-- The anchor and one delta.
abbrev anchored : Head
anchored = record one_block { state_root = replicate 32 9 }

abbrev extended : Head
extended = record one_block {
  number = 2;
  hash = replicate 32 3;
  input_sha256 = replicate 32 6;
  parent = some (record { digest = replicate 32 5; size = 5 });
  l0 = run_of 0 0 1 ∷ run_of 1 2 1 ∷ [];
}

anchored_swapped :
    swap toy_sha toy_json none
      (next_head anchor_package genesis (last_of genesis []) none (run_of 0 0 1))
    ≡ ok (anchored, head_magic)
unfolding swap fossil.Tiered.Publication.stage_previous next_head last_of
anchored_swapped = refl

extended_swapped :
    swap toy_sha toy_json
      (some head_magic)
      (next_head delta_package second (last_of second (third ∷ [])) (some anchored) (run_of 1 2 1))
    ≡ ok (extended, head_magic)
unfolding swap fossil.Tiered.Publication.stage_previous fossil.Tiered.Publication.stage next_head
    last_of
extended_swapped = refl

two_commits : Trace toy_sha toy_hex toy_json (extended ∷ anchored ∷ [])
unfolding fossil.Tiered.Publication.may_rebase fossil.Bytes.bytes_eq
two_commits =
    publish anchored delta_package delta_gate second (third ∷ []) (run_of 1 2 1) extended head_magic
      head_magic
      (begin anchor_package anchor_gate genesis [] (run_of 0 0 1) anchored head_magic refl
        anchor_admitted IsEpoch-0 (unfold last_of in omega arith) anchored_swapped)
      (inl refl) refl delta_admitted refl IsEpoch-1 (unfold last_of in omega arith) extended_swapped

Trace-History_example : History toy_sha toy_hex toy_json (extended ∷ anchored ∷ [])
Trace-History_example =
    Trace-History toy_sha toy_hex toy_json (extended ∷ anchored ∷ []) two_commits

Trace-holders_example : holders 2 (runs extended) ≡ 1
Trace-holders_example =
    Trace-holders toy_sha toy_hex toy_json extended (anchored ∷ []) 2 two_commits (omega arith)

-- A parser that knows the one head.
abbrev knowing_json : Json
knowing_json = record { to_vec = λ head. head_magic; from_slice = λ bytes. ok one_block }

one_block_swapped : swap toy_sha knowing_json none one_block ≡ ok (one_block, head_magic)
unfolding swap fossil.Tiered.Publication.stage_previous
one_block_swapped = refl

read_head-swap_example :
    (length head_magic ≤ max_head)
    × (read_head toy_sha toy_hex knowing_json 1 (some head_magic)
        ≡ ok (some (head_magic, one_block)))
read_head-swap_example =
    read_head-swap toy_sha toy_hex knowing_json none one_block one_block head_magic
      one_block_swapped refl one_block-IsValid (omega arith)
