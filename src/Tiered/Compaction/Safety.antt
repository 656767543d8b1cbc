-- ===== src/Tiered/Compaction/Safety.antt =====
-- `compact_once` from the plan to the committed head.
use fossil.Base.{
  [], ap, arith, drop, inl, inr, length, length-drop, length-take, ok, refl, some, sym, ◌++◌, ◌+◌,
  ◌<◌, ◌^◌, ◌∙◌, ◌≡◌, ◌≤◌,
}
use mathlib.Core.List.{reverse}
use mathlib.Core.Path.{subst}
use native.Mathlib.Decide.{dec_lt}
use mathlib.Core.Path.{subst₂}
use fossil.Extern.{Sha256, Hex}
use fossil.Head.Manifest.{Head, l0_trigger}
use fossil.Head.Manifest.Coverage.{RootOk}
use fossil.Head.Manifest.Validity.{IsValid}
use fossil.Tiered.Compaction.{Carried, Plan, BuiltRun, plan, commit, install, merged_run}
use fossil.Tiered.Compaction.Carry.{CarryOk}
use fossil.Tiered.Compaction.Planned.{inputs_of, plan_cases, plan_idle}
use fossil.Tiered.Compaction.Commit.{
  commit_of, CarryOk-moved, plan_of, Folded, folded, m, folded-IsValid, folded-Folded,
}

module _ (sha : Sha256) (hex : Hex) where
  -- What is shown of a commit of `next` over `current`.
  abbrev pub Compacted : Head → BuiltRun → Plan → Head → Type 0
  Compacted current built p next =
      IsValid sha hex next
      × Folded current next p.inputs (merged_run hex p built)
      × (next.number ≡ current.number)
      × (next.hash ≡ current.hash)
      × (length next.l0 + l0_trigger ≡ length current.l0)

  -- A plan that was made is the one of `plan_cases`.
  planned_of :
      (head : Head) (p : Plan)
      → IsValid sha hex head
      → head.number + 1 < 2 ^ 64
      → plan head ≡ ok (some p)
      → (c : Carried) × CarryOk head.levels [] c
        × (p ≡ plan_of c head)
        × (l0_trigger ≤ length head.l0)
  planned_of head p v small e = elim (dec_lt (length head.l0) l0_trigger) [
    | yes few ↦ absurd (cc (e, plan_idle sha hex head few))
    | no enough ↦ elim (plan_cases sha hex head v small (omega arith)) [
      | inl (c, (k, e')) ↦ (c, k, cc (e, e'), omega arith)
      | inr (e', n, full) ↦ absurd (cc (e, e'))
    ]
  ]

  -- A commit keeps the head valid: the current head, changed or not since the plan, keeps its
  -- number and hash, and the inputs of the plan are replaced by one run over the same blocks.
  pub commit-IsValid :
      (planned current next : Head) (p : Plan) (built : BuiltRun)
      → IsValid sha hex planned
      → IsValid sha hex current
      → planned.number + 1 < 2 ^ 64
      → plan planned ≡ ok (some p)
      → RootOk sha hex (merged_run hex p built)
      → commit planned (install hex p built) current ≡ ok next
      → Compacted current built p next
  unfolding folded m install inputs_of
  commit-IsValid planned current next p built vp vc small e root done =
      let (c, k, ep, enough) = planned_of planned p vp small e in
      let (el, et, en) = commit_of planned (install hex p built) current next enough done in
      let k' = CarryOk-moved current.levels planned.levels c el k in
      let enough' : l0_trigger ≤ length current.l0 = omega (
        arith,
        ap length et,
        length-take l0_trigger current.l0,
        length-take l0_trigger planned.l0,
      ) in
      let ep' : p ≡ plan_of c current =
        ep ∙ ap (λ t. record { carried = c; inputs = reverse c.deeper ++ t }) (sym et) in
      let en' : next ≡ folded sha hex current c k' built vc enough' =
        en
        ∙ ap (λ q. record current { l0 = drop l0_trigger current.l0; levels = install hex q built })
            ep' in
      let root' = subst (λ q. RootOk sha hex (merged_run hex q built)) ep' root in
      subst₂ (Compacted current built) (sym ep') (sym en') (
        folded-IsValid sha hex current c k' built vc enough' root',
        folded-Folded sha hex current c k' built vc enough',
        refl,
        refl,
        omega (arith, length-drop l0_trigger current.l0),
      )
