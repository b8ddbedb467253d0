-- ===== src/Backends/OpenMp/Interleaving.antt =====
-- Every interleaving of the parallel loop (src/backends/backend_openmp.c) ends with the minimum.
use mpi_local_lab.Base.{ℕ, ◌<◌, ◌≡◌, refl, arith, Bool, true, inl, Option, none, some}
use mpi_local_lab.Base.Int.{ℤ, pos, ◌≤ℤ◌}
use mpi_local_lab.Base.Machine.{int_max}
use mpi_local_lab.Canonical.Placement.{IsLeast}
use mpi_local_lab.Backends.Minimum.{lower, KeyOrNone, lower-le, lower-KeyOrNone, KeyOrNone-IsLeast}
use mpi_local_lab.Backends.OpenMp.{
  no_placement, snapped, entering, finished, Loop, start, Step, read, skip, miss, matched, critical,
  Run, begin, later, IsFinished,
}

module _ (test : ℕ → Option Bool) (placements : ℕ) (hit : ℕ → Bool) where
  -- `best` is a key that matches, or none, and no iteration that has ended saw a lower one.
  record Inv (s : Loop) : Type 0 where
    key_or_none : KeyOrNone placements hit s.best
    ended :
        (key : ℕ) → key < placements → s.phase key ≡ finished → hit key ≡ true → s.best ≤ℤ pos key
    seen : (key : ℕ) (x : ℤ) → s.phase key ≡ snapped x → (key < placements) × (s.best ≤ℤ x)
    entered : (key : ℕ) → s.phase key ≡ entering → (key < placements) × (hit key ≡ true)

  module _ (total : (key : ℕ) → key < placements → test key ≡ some (hit key))
      (few : placements < int_max) where
    start-Inv : Inv start
    start-Inv = record {
      key_or_none = (int_max, refl, inl refl);
      ended = λ key lt e h. absurd (ground arith);
      seen = λ key x e. absurd (ground arith);
      entered = λ key e. absurd (ground arith);
    }

    Step-Inv : {s t : Loop} → Step test placements s t → Inv s → Inv t
    unfolding lower
    Step-Inv {s} (read key lt e) inv = record {
      key_or_none = inv.key_or_none;
      ended = λ j ltj f h. ground (arith, inv.ended j ltj);
      seen = λ j x f. ground (arith, inv.seen j x);
      entered = λ j f. ground (arith, inv.entered j);
    }
    Step-Inv {s} (skip key snapshot e ge) inv = record {
      key_or_none = inv.key_or_none;
      ended = λ j ltj f h. ground (arith, inv.ended j ltj, inv.seen key snapshot e);
      seen = λ j x f. ground (arith, inv.seen j x);
      entered = λ j f. ground (arith, inv.entered j);
    }
    Step-Inv {s} (miss key snapshot e lt m) inv = record {
      key_or_none = inv.key_or_none;
      ended = λ j ltj f h. ground (arith, inv.ended j ltj, total j ltj);
      seen = λ j x f. ground (arith, inv.seen j x);
      entered = λ j f. ground (arith, inv.entered j);
    }
    Step-Inv {s} (matched key snapshot e lt m) inv = record {
      key_or_none = inv.key_or_none;
      ended = λ j ltj f h. ground (arith, inv.ended j ltj);
      seen = λ j x f. ground (arith, inv.seen j x);
      entered = λ j f. ground (arith, inv.entered j, inv.seen key snapshot e, total key);
    }
    Step-Inv {s} (critical key e) inv =
        let (lt, h) = inv.entered key e in
        let (le_best, le_key) = lower-le placements hit few key s.best lt inv.key_or_none in
        record {
          key_or_none = lower-KeyOrNone placements hit few key s.best lt h inv.key_or_none;
          ended = λ j ltj f h'. ground (arith, inv.ended j ltj, le_best, le_key);
          seen = λ j x f. ground (arith, inv.seen j x, le_best);
          entered = λ j f. ground (arith, inv.entered j);
        }

    Run-Inv : {n : ℕ} {s : Loop} → Run test placements n s → Inv s
    Run-Inv begin = start-Inv
    Run-Inv (later r st) = Step-Inv st (Run-Inv r)

    -- However the iterations interleave: when they have all ended, `best` is the lowest key that
    -- matches, or `MSEARCH_NO_PLACEMENT` if none does.
    pub Run-IsLeast :
        {n : ℕ} {s : Loop}
        → Run test placements n s
        → IsFinished placements s
        → (found : Option ℕ) × IsLeast hit 0 placements found
          × (s.best ≡ elim found [ none ↦ no_placement | some k ↦ pos k ])
    Run-IsLeast {s} r over =
        let inv = Run-Inv r in
        KeyOrNone-IsLeast placements hit few s.best inv.key_or_none
          (λ j lt h. inv.ended j lt (over j lt) h)
