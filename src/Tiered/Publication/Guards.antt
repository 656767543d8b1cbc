-- ===== src/Tiered/Publication/Guards.antt =====
-- What the guards of `publish` establish.
use fossil.Base.{
  Bool, List, Option, Result, [], arith, bail_if-eq-ok, false, if◌then◌else◌, length, none, not, ok,
  some, sym, true, ◌+◌, ◌<◌, ◌∷◌, ◌≡◌,
}
use mathlib.Core.Path.{subst}
use fossil.Bytes.Order.{eq_of_bytes_eq}
use fossil.Head.Manifest.{Head, max_l0_backlog}
use fossil.Package.{BlockMeta, Package, Mode, anchor, delta}
use fossil.Tiered.Publication.{
  PublicationGate, finalized, fixed_offset, broken_link, bad_interval, gate_passes, follows,
  is_full, already, admit,
}

-- Each block follows the one before it, by number and by hash.
abbrev pub Linked : BlockMeta → List BlockMeta → Type 0
Linked a [] = Unit
Linked a (b ∷ rest) = (b.number ≡ a.number + 1) × (b.parent_hash ≡ a.hash) × Linked b rest

Linked-of : (a : BlockMeta) (rest : List BlockMeta) → broken_link (a ∷ rest) ≡ false → Linked a rest
unfolding broken_link
Linked-of a [] h = tt
Linked-of a (b ∷ rest) h = (
  ground arith,
  sym (eq_of_bytes_eq a.hash b.parent_hash (ground arith)),
  Linked-of b rest (ground arith),
)

unfoldable pub last_of : BlockMeta → List BlockMeta → BlockMeta
last_of a [] = a
last_of a (b ∷ rest) = last_of b rest

Linked-last_of :
    (a : BlockMeta) (rest : List BlockMeta)
    → Linked a rest
    → (last_of a rest).number ≡ a.number + length rest
unfolding last_of
Linked-last_of a [] h = omega arith
Linked-last_of a (b ∷ rest) (n, p, h) = omega (arith, Linked-last_of b rest h)

-- The end block is the one that the gate saw as canonical.
abbrev pub GateSees : PublicationGate → BlockMeta → Type 0
GateSees (finalized number hash) last = (number ≡ last.number) × (hash ≡ last.hash)
GateSees (fixed_offset number hash offset) last =
    (offset ≡ 0) × (number ≡ last.number) × (hash ≡ last.hash)

gate_of :
    (gate : PublicationGate) (last : BlockMeta) → gate_passes gate last ≡ true → GateSees gate last
unfolding gate_passes
gate_of (finalized number hash) last h = (ground arith, eq_of_bytes_eq _ _ (ground arith))
gate_of (fixed_offset number hash offset) last h =
    (ground arith, ground arith, eq_of_bytes_eq _ _ (ground arith))

-- The package begins the chain, or continues the head.
abbrev pub Continues : Package → BlockMeta → Mode → Option Head → Type 0
Continues pkg first anchor none = (first.number ≡ 0) × (first.hash ≡ pkg.segment.genesis_hash)
Continues pkg first delta (some head) =
    (first.number ≡ head.number + 1)
    × (first.parent_hash ≡ head.hash)
    × (head.genesis ≡ pkg.segment.genesis_hash)
    × (length head.l0 < max_l0_backlog)
Continues pkg first anchor (some head) = ⊥
Continues pkg first delta none = ⊥

Continues-of :
    (pkg : Package) (first : BlockMeta) (mode : Mode) (previous : Option Head)
    → follows pkg first mode previous ≡ true
    → is_full previous ≡ false
    → Continues pkg first mode previous
unfolding follows is_full
Continues-of pkg first anchor none h f = (ground arith, eq_of_bytes_eq _ _ (ground arith))
Continues-of pkg first anchor (some head) h f = cc
Continues-of pkg first delta none h f = cc
Continues-of pkg first delta (some head) h f = (
  ground arith,
  eq_of_bytes_eq _ _ (ground arith),
  eq_of_bytes_eq _ _ (ground arith),
  ground arith,
)

proceeds : (done : Bool) (k : Result Bool) → (if done then ok false else k) ≡ ok true → k ≡ ok true
proceeds true k h = cc
proceeds false k h = h

passes_of : (b : Bool) → not b ≡ false → b ≡ true
passes_of b h = ground arith

Linked-blocks :
    (pkg : Package) (first : BlockMeta) (rest : List BlockMeta)
    → pkg.segment.blocks ≡ first ∷ rest
    → bad_interval pkg.segment first (last_of first rest) ≡ false
    → Linked first rest
unfolding bad_interval
Linked-blocks pkg first rest e h =
    Linked-of first rest (subst (λ t. broken_link t ≡ false) e (ground arith))

-- A package that is admitted is a chain of linked blocks whose last one the gate saw, and it begins
-- the archive or continues the head that was read, which has room for one more L0 run.
pub admit_sound :
    (pkg : Package) (gate : PublicationGate) (first : BlockMeta) (rest : List BlockMeta)
    (previous : Option Head)
    → pkg.segment.blocks ≡ first ∷ rest
    → admit pkg gate first (last_of first rest) previous ≡ ok true
    → Linked first rest
      × ((last_of first rest).number ≡ first.number + length rest)
      × GateSees gate (last_of first rest)
      × Continues pkg first pkg.mode previous
unfolding admit
admit_sound pkg gate first rest previous e h =
    let last = last_of first rest in
    let (good, h1) = bail_if-eq-ok (bad_interval pkg.segment first last) _ _ h in
    let (seen, h2) = bail_if-eq-ok (not (gate_passes gate last)) _ _ h1 in
    let h3 = proceeds (already previous pkg last) _ h2 in
    let (follow, h4) = bail_if-eq-ok (not (follows pkg first pkg.mode previous)) _ _ h3 in
    let (room, h5) = bail_if-eq-ok (is_full previous) _ _ h4 in
    let linked = Linked-blocks pkg first rest e good in
    (
      linked,
      Linked-last_of first rest linked,
      gate_of gate last (passes_of _ seen),
      Continues-of pkg first pkg.mode previous (passes_of _ follow) room,
    )
