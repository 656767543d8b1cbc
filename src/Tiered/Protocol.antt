-- ===== src/Tiered/Protocol.antt =====
-- The publisher and the compactor on one head. Each plans on a head that it has read, and commits by
-- a compare-and-swap on the head at that moment: a committed head is made from the current one, and
-- what was planned on may be any earlier one. `Trace heads` is a sequence of commits, newest first.
use fossil.Base.{
  >>=-eq-ok, All, List, Option, [], arith, bail_if-eq-ok, inl, inr, length, ltb, ltb-false→le, none,
  ok, some, sym, true, ℕ, ◌+◌, ◌<◌, ◌^◌, ◌∷◌, ◌≡◌, ◌≤◌, ◌⊎◌,
}
use mathlib.Core.Path.{subst}
use fossil.Bytes.{Bytes}
use fossil.Extern.{Sha256, Hex}
use fossil.Head.Manifest.{Head, Run, Ref, runs, max_l0_backlog, max_head}
use fossil.Head.Manifest.Coverage.{RootOk, Covers-holders, holders}
use fossil.Head.Manifest.Validity.{IsValid}
use fossil.Package.{BlockMeta, Package, Mode, delta, anchor}
use fossil.Tiered.Compaction.{Plan, BuiltRun, plan, commit, install, merged_run}
use fossil.Tiered.Compaction.Safety.{commit-IsValid}
use fossil.Tiered.Publication.{
  PublicationGate, admit, next_head, may_rebase, Json, swap, stage_previous,
}
use fossil.Tiered.Publication.Guards.{last_of, admit_sound, Continues}
use fossil.Tiered.Publication.Append.{
  IsEpoch, next_head-IsValid, first_head-IsValid, parent-IsValid,
}

-- The head is one of the list.
abbrev pub At : Head → List Head → Type 0
At seen [] = ⊥
At seen (head ∷ past) = (seen ≡ head) ⊎ At seen past

module _ (sha : Sha256) (hex : Hex) (json : Json) where
  pub data Trace : List Head → Type 0 where
    empty : Trace []
    -- The anchor, on an empty store.
    begin :
        (pkg : Package) (gate : PublicationGate) (first : BlockMeta) (rest : List BlockMeta)
        (run : Run) (head : Head) (bytes : Bytes)
        → pkg.segment.blocks ≡ first ∷ rest
        → admit pkg gate first (last_of first rest) none ≡ ok true
        → IsEpoch sha hex first (last_of first rest) run
        → (last_of first rest).number + 1 < 2 ^ 64
        → swap sha json none (next_head pkg first (last_of first rest) none run) ≡ ok (head, bytes)
        → Trace (head ∷ [])
    -- A delta that was admitted on `seen`, and is appended to `current`.
    publish :
        {current : Head} {past : List Head} (seen : Head) (pkg : Package) (gate : PublicationGate)
        (first : BlockMeta) (rest : List BlockMeta) (run : Run) (head : Head) (old bytes : Bytes)
        → Trace (current ∷ past)
        → At seen (current ∷ past)
        → pkg.segment.blocks ≡ first ∷ rest
        → admit pkg gate first (last_of first rest) (some seen) ≡ ok true
        → may_rebase current seen ≡ true
        → IsEpoch sha hex first (last_of first rest) run
        → (last_of first rest).number + 1 < 2 ^ 64
        → swap sha json (some old) (next_head pkg first (last_of first rest) (some current) run)
          ≡ ok (head, bytes)
        → Trace (head ∷ current ∷ past)
    -- A compaction that was planned on `planned`, and is committed over `current`.
    compact :
        {current : Head} {past : List Head} (planned : Head) (p : Plan) (built : BuiltRun)
        (next head : Head) (old bytes : Bytes)
        → Trace (current ∷ past)
        → At planned (current ∷ past)
        → plan planned ≡ ok (some p)
        → RootOk sha hex (merged_run hex p built)
        → commit planned (install hex p built) current ≡ ok next
        → swap sha json (some old) next ≡ ok (head, bytes)
        → Trace (head ∷ current ∷ past)

  -- What holds of a head and of one committed before it.
  abbrev pub Later : Head → Head → Type 0
  Later head before =
      (before.number ≤ head.number)
      × (before.number ≡ head.number → length head.l0 ≤ length before.l0)

  abbrev pub Sound : Head → Type 0
  Sound head = IsValid sha hex head × (head.number + 1 < 2 ^ 64)

  abbrev pub History : List Head → Type 0
  History [] = Unit
  History (head ∷ past) = Sound head × All (Later head) past × History past

  Sound-At : (seen : Head) (heads : List Head) → At seen heads → History heads → Sound seen
  Sound-At seen [] at h = absurd at
  Sound-At seen (head ∷ past) (inl e) (s, l, h) = subst Sound (sym e) s
  Sound-At seen (head ∷ past) (inr at) (s, l, h) = Sound-At seen past at h

  Later-At :
      (head seen : Head) (past : List Head) → At seen past → All (Later head) past → Later head seen
  Later-At head seen [] at h = absurd at
  Later-At head seen (b ∷ past) (inl e) (l, h) = subst (Later head) (sym e) l
  Later-At head seen (b ∷ past) (inr at) (l, h) = Later-At head seen past at h

  Later-refl : (head : Head) → Later head head
  Later-refl head = (omega arith, λ e. omega arith)

  Later-trans : (a b c : Head) → Later a b → Later b c → Later a c
  Later-trans a b c (n, l) (n', l') = (
    omega arith,
    λ e. let first = l (omega arith) in let second = l' (omega arith) in omega arith,
  )

  Later-all : (a b : Head) (past : List Head) → Later a b → All (Later b) past → All (Later a) past
  Later-all a b [] l h = tt
  Later-all a b (c ∷ past) l (k, h) = (Later-trans a b c l k, Later-all a b past l h)

  swapped :
      (previous : Option Bytes) (next head : Head) (bytes : Bytes)
      → swap sha json previous next ≡ ok (head, bytes)
      → (parent : Option Ref) × (record next { parent = parent } ≡ head) × (length bytes ≤ max_head)
  unfolding swap
  swapped previous next head bytes h =
      let (parent, e, h1) = >>=-eq-ok (stage_previous sha json previous) _ h in
      let linked : Head = record next { parent = parent } in
      let (fits, h2) = bail_if-eq-ok (ltb max_head (length (json.to_vec linked))) _ _ h1 in
      let sized : json.to_vec linked ≡ bytes = cc h2 in
      (parent, cc h2, subst (λ t. length t ≤ max_head) sized (ltb-false→le _ _ fits))

  Continues-some :
      (pkg : Package) (first : BlockMeta) (mode : Mode) (head : Head)
      → Continues pkg first mode (some head)
      → (first.number ≡ head.number + 1) × (length head.l0 < max_l0_backlog)
  Continues-some pkg first anchor head h = absurd h
  Continues-some pkg first delta head (n, p, g, room) = (n, room)

  Continues-none :
      (pkg : Package) (first : BlockMeta) (mode : Mode)
      → Continues pkg first mode none
      → first.number ≡ 0
  Continues-none pkg first anchor (n, h) = n
  Continues-none pkg first delta h = absurd h

  same_number : (now before : Head) → may_rebase now before ≡ true → now.number ≡ before.number
  unfolding may_rebase
  same_number now before h = ground arith

  extend :
      (current : Head) (past : List Head) (head : Head)
      → Sound head
      → Later head current
      → History (current ∷ past)
      → History (head ∷ current ∷ past)
  extend current past head s l (sc, lc, h) = (s, (l, Later-all head current past l lc), (sc, lc, h))

  published :
      (current : Head) (past : List Head) (seen : Head) (pkg : Package) (gate : PublicationGate)
      (first : BlockMeta) (rest : List BlockMeta) (run : Run) (parent : Option Ref)
      → History (current ∷ past)
      → At seen (current ∷ past)
      → pkg.segment.blocks ≡ first ∷ rest
      → admit pkg gate first (last_of first rest) (some seen) ≡ ok true
      → may_rebase current seen ≡ true
      → IsEpoch sha hex first (last_of first rest) run
      → (last_of first rest).number + 1 < 2 ^ 64
      → History (
          (record (next_head pkg first (last_of first rest) (some current) run) { parent = parent })
          ∷ current
          ∷ past)
  unfolding next_head
  published current past seen pkg gate first rest run parent (sc, lc, h) at e adm reb epoch fits =
      let last = last_of first rest in
      let (linked, n_last, sees, cont) = admit_sound pkg gate first rest (some seen) e adm in
      let (n_first, room) = Continues-some pkg first pkg.mode seen cont in
      let same = same_number current seen reb in
      let (le, shrink) = Later-At current seen (current ∷ past) at (Later-refl current, lc) in
      let shorter = shrink (sym same) in
      let (valid, appended) =
        next_head-IsValid sha hex pkg first last run epoch (omega arith) current sc.0 (omega arith)
          (omega arith) in
      extend current past _ (parent-IsValid sha hex _ parent valid, fits)
        (omega arith, λ eq. absurd (omega arith)) (sc, lc, h)

  compacted :
      (current : Head) (past : List Head) (planned : Head) (p : Plan) (built : BuiltRun)
      (next : Head) (parent : Option Ref)
      → History (current ∷ past)
      → At planned (current ∷ past)
      → plan planned ≡ ok (some p)
      → RootOk sha hex (merged_run hex p built)
      → commit planned (install hex p built) current ≡ ok next
      → History ((record next { parent = parent }) ∷ current ∷ past)
  compacted current past planned p built next parent (sc, lc, h) at e root done =
      let (vp, small) = Sound-At planned (current ∷ past) at (sc, lc, h) in
      let (valid, folded, number, hash, l0) =
        commit-IsValid sha hex planned current next p built vp sc.0 small e root done in
      extend current past _ (parent-IsValid sha hex next parent valid, omega (arith, number, sc.1))
        (omega (arith, number), λ eq. omega (arith, l0)) (sc, lc, h)

  -- However commits of publishers and compactors interleave, each planned on any earlier head and
  -- with a sound root for the run that it wrote, every head that was committed is valid, its number
  -- is not below that of an earlier one, and under one number the list of L0 runs never grows.
  pub Trace-History : (heads : List Head) → Trace heads → History heads
  Trace-History _ empty = tt
  Trace-History _ (begin pkg gate first rest run head bytes e adm epoch fits sw) =
      let (parent, eq, size) = swapped none _ head bytes sw in
      let (linked, n_last, sees, cont) = admit_sound pkg gate first rest none e adm in
      let valid =
        first_head-IsValid sha hex pkg first (last_of first rest) run epoch (omega arith)
          (Continues-none pkg first pkg.mode cont) in
      subst (λ t. History (t ∷ [])) eq
        ((parent-IsValid sha hex _ parent valid, unfold next_head in fits), tt, tt)
  Trace-History _
        (publish {current} {past} seen pkg gate first rest run head old bytes t at e adm reb epoch
          fits sw) =
      let (parent, eq, size) = swapped (some old) _ head bytes sw in
      subst (λ t. History (t ∷ current ∷ past)) eq
        (published current past seen pkg gate first rest run parent (Trace-History _ t) at e adm reb
          epoch fits)
  Trace-History _
        (compact {current} {past} planned p built next head old bytes t at e root done sw) =
      let (parent, eq, size) = swapped (some old) next head bytes sw in
      subst (λ t. History (t ∷ current ∷ past)) eq
        (compacted current past planned p built next parent (Trace-History _ t) at e root done)

  -- A reader of the current head finds every block up to its number in exactly one run.
  pub Trace-holders :
      (head : Head) (past : List Head) (block : ℕ)
      → Trace (head ∷ past)
      → block ≤ head.number
      → holders block (runs head) ≡ 1
  Trace-holders head past block t le =
      let (sound, later, h) = Trace-History (head ∷ past) t in
      Covers-holders block 0 (head.number + 1) (runs head) sound.0.covers (omega arith)
        (omega arith)
