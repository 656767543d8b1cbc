-- ===== src/Tiered/Compaction/Planned.antt =====
-- `compact_once` up to the merge, on a valid head: a plan is made unless too few L0 runs wait or all
-- levels are full, and its inputs are a segment of the runs.
use fossil.Base.{
  List, [], ap, arith, drop, err, false, inl, inr, length, ltb, lt→ltb, none, ok, some, suc, sym,
  take, take-append-drop, too_many_levels, ℕ, ◌++◌, ◌+◌, ◌<◌, ◌^◌, ◌∙◌, ◌≡◌, ◌≤◌, ◌⊎◌,
}
use mathlib.Core.List.{reverse}
use mathlib.Core.List.{append_assoc}
use mathlib.Core.Path.{subst}
use mathlib.Core.List.{reverse-append}
use fossil.Extern.{Sha256, Hex}
use fossil.Head.Manifest.{Head, Run, runs, flatten_runs, unit, max_levels, l0_trigger}
use fossil.Head.Manifest.Coverage.{Covers, Covers-le, Covers-split}
use fossil.Head.Manifest.Validity.{IsValid}
use fossil.Tiered.Compaction.{Carried, plan, carry, any_gap}
use fossil.Tiered.Compaction.Carry.{CarryOk, Outcome, FullFrom, carry-CarryOk}
use fossil.Tiered.Compaction.Segments.{runs_lem, Covers-any_gap}

unfoldable pub inputs_of : Head → Carried → List Run
inputs_of head c = reverse c.deeper ++ take l0_trigger head.l0

-- The runs of the head are older ones, then the inputs, then later L0 runs.
pub runs-inputs_of :
    (head : Head) (c : Carried) (k : CarryOk head.levels [] c)
    → runs head ≡ reverse (flatten_runs k.back) ++ (inputs_of head c ++ drop l0_trigger head.l0)
unfolding inputs_of
runs-inputs_of head c k =
    runs_lem head
    ∙ ap (λ t. reverse t ++ head.l0) k.taken
    ∙ ap (λ t. t ++ head.l0) (reverse-append c.deeper (flatten_runs k.back))
    ∙ append_assoc (reverse (flatten_runs k.back)) (reverse c.deeper) head.l0
    ∙ ap (λ t. reverse (flatten_runs k.back) ++ (reverse c.deeper ++ t))
        (sym (take-append-drop l0_trigger head.l0))
    ∙ ap (λ t. reverse (flatten_runs k.back) ++ t)
        (sym (append_assoc (reverse c.deeper) (take l0_trigger head.l0) (drop l0_trigger head.l0)))

module _ (sha : Sha256) (hex : Hex) where
  carried_of :
      (head : Head)
      → IsValid sha hex head
      → Outcome 0 head.levels [] (carry (suc max_levels) 0 l0_trigger head.levels [])
  unfolding unit
  carried_of head v =
      carry-CarryOk 9 0 head.levels [] (omega arith) v.weights (omega (arith, v.depth))

  -- The inputs cover an interval, between the older runs and the later ones.
  pub inputs_cover :
      (head : Head) (c : Carried) (k : CarryOk head.levels [] c)
      → IsValid sha hex head
      → (from to : ℕ) × Covers 0 (reverse (flatten_runs k.back)) from
        × Covers from (inputs_of head c) to
        × Covers to (drop l0_trigger head.l0) (head.number + 1)
  inputs_cover head c k v =
      let all = subst (λ t. Covers 0 t (head.number + 1)) (runs-inputs_of head c k) v.covers in
      let (from, c1, rest) =
        Covers-split 0 (head.number + 1) (reverse (flatten_runs k.back)) _ all in
      let (to, c2, c3) = Covers-split from (head.number + 1) (inputs_of head c) _ rest in
      (from, to, c1, c2, c3)

  abbrev pub Planned : Head → Carried → Type 0
  Planned head c =
      CarryOk head.levels [] c
      × (plan head ≡ ok (some (record { carried = c; inputs = inputs_of head c })))

  -- With four L0 runs waiting, a valid head has a plan, whose inputs are the drained levels and the
  -- four oldest L0 runs, or its eight levels are all full; no other error comes from a valid head.
  pub plan_cases :
      (head : Head)
      → IsValid sha hex head
      → head.number + 1 < 2 ^ 64
      → l0_trigger ≤ length head.l0
      → ((c : Carried) × Planned head c)
        ⊎ ((plan head ≡ err too_many_levels)
            × (length head.levels ≡ max_levels)
            × FullFrom 0 head.levels)
  unfolding plan inputs_of
  plan_cases head v small enough =
      let few : ltb (length head.l0) l0_trigger ≡ false = ground arith in
      elim (carried_of head v) [
        | inl (c, e, k) ↦
            let (from, to, c1, c2, c3) = inputs_cover head c k v in
            let tight : any_gap (inputs_of head c) ≡ false =
              Covers-any_gap from to _ c2 (omega (arith, Covers-le to (head.number + 1) _ c3)) in
            inl (c, (k, rw (few, e, tight)))
        | inr (e, n, full) ↦ inr (rw (few, e), omega arith, full)
      ]

  pub plan_idle : (head : Head) → length head.l0 < l0_trigger → plan head ≡ ok none
  unfolding plan
  plan_idle head few = rw (lt→ltb _ _ few)
