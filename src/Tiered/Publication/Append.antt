-- ===== src/Tiered/Publication/Append.antt =====
-- The head that a publication commits: one more L0 run at the end of the same runs.
use fossil.Base.{
  All-append, Option, [], ap, arith, length, length-append, none, refl, some, sym, ◌++◌, ◌+◌, ◌<◌,
  ◌∙◌, ◌∷◌, ◌≡◌, ◌≤◌,
}
use mathlib.Core.List.{append_assoc}
use fossil.Extern.{Sha256, Hex}
use fossil.Head.Manifest.{Head, Run, Ref, runs, flatten_runs, max_l0_backlog}
use fossil.Head.Manifest.Levels.{IsLight}
use fossil.Head.Manifest.Coverage.{Covers, Covers-append, RootOk}
use fossil.Head.Manifest.Validity.{IsValid}
use fossil.Package.{BlockMeta, Package}
use fossil.Tiered.Publication.{next_head}

-- What the new run has to be: `new_run(first.number, last.number, 1, built)` with a sound root.
module _ (sha : Sha256) (hex : Hex) where
  pub record IsEpoch (first last : BlockMeta) (run : Run) : Type 0 where
    pub start : run.start ≡ first.number
    pub end : run.end ≡ last.number
    pub light : run.weight ≡ 1
    pub root : RootOk sha hex run

  module _ (pkg : Package) (first last : BlockMeta) (run : Run) (epoch : IsEpoch first last run)
      (ordered : first.number ≤ last.number) where
    runs-next_head :
        (head : Head) → runs (next_head pkg first last (some head) run) ≡ runs head ++ run ∷ []
    unfolding next_head runs
    runs-next_head head = sym (append_assoc _ head.l0 (run ∷ []))

    -- On a valid head that has room and whose number the first block follows, the next head is valid,
    -- and its runs are those of the head with the new run at the end.
    pub next_head-IsValid :
        (head : Head)
        → IsValid sha hex head
        → first.number ≡ head.number + 1
        → length head.l0 < max_l0_backlog
        → IsValid sha hex (next_head pkg first last (some head) run)
          × (runs (next_head pkg first last (some head) run) ≡ runs head ++ run ∷ [])
    next_head-IsValid head v follow room = (valid, runs-next_head head)
      where
        one : Covers (head.number + 1) (run ∷ []) (last.number + 1)
        one = (
          epoch.start ∙ follow,
          omega (arith, epoch.start, epoch.end, ordered),
          ap (λ t. t + 1) epoch.end,
        )

        valid : IsValid sha hex (next_head pkg first last (some head) run)
        valid = record {
          magic = unfold next_head in v.magic;
          backlog = unfold next_head in omega (arith, length-append head.l0 (run ∷ []), room);
          depth = unfold next_head in v.depth;
          light =
              unfold next_head in All-append IsLight head.l0 (run ∷ []) v.light (epoch.light, tt);
          weights = unfold next_head in v.weights;
          roots =
              rw runs-next_head
                (All-append (RootOk sha hex) (runs head) (run ∷ []) v.roots (epoch.root, tt));
          covers = rw runs-next_head (
              unfold next_head in
              Covers-append 0 (head.number + 1) (last.number + 1) (runs head) (run ∷ []) v.covers
                one);
        }

    pub first_head-IsValid : first.number ≡ 0 → IsValid sha hex (next_head pkg first last none run)
    unfolding next_head runs flatten_runs
    first_head-IsValid zero_start = record {
      magic = refl;
      backlog = omega arith;
      depth = omega arith;
      light = (epoch.light, tt);
      weights = tt;
      roots = (epoch.root, tt);
      covers = (
        epoch.start ∙ zero_start,
        omega (arith, epoch.start, epoch.end, ordered),
        ap (λ t. t + 1) epoch.end,
      );
    }

  -- Only the parent of a head differs after `swap`.
  pub parent-IsValid :
      (head : Head) (parent : Option Ref)
      → IsValid sha hex head
      → IsValid sha hex (record head { parent = parent })
  unfolding runs
  parent-IsValid head parent v = record {
    magic = v.magic;
    backlog = v.backlog;
    depth = v.depth;
    light = v.light;
    weights = v.weights;
    roots = v.roots;
    covers = v.covers;
  }
