-- ===== src/Backends/OpenMp/Canonical.antt =====
-- Every run of the OpenMP backend (src/backends/backend_openmp.c) gives the canonical match.
use mpi_local_lab.Base.{
  ℕ, ◌*◌, ◌/◌, ◌%◌, ◌<◌, ◌≡◌, refl, ap, ◌∙◌, arith, true, false, inl, inr, List, [], ◌∷◌, Option,
  none, some, dec_lt, All, Bool-cases,
}
use mpi_local_lab.Base.Int.{ℤ, pos, pos_part, ◌+ℤ◌, ◌-ℤ◌, eqb_ℤ}
use mathlib.Core.Path.{subst}
use mpi_local_lab.Floating.{Floating, Ieee, fzero}
use mpi_local_lab.Types.{Picture, Object, Match, match_none}
use mpi_local_lab.Problem.{placement_count}
use mpi_local_lab.Problem.Validate.Valid.{IsPicture, IsObject, IsValid}
use mpi_local_lab.Canonical.{IsCanonical}
use mpi_local_lab.Canonical.Contract.{IsCanonical-unique}
use mpi_local_lab.Canonical.Placement.{IsLeast}
use mpi_local_lab.Backends.{Context, match_at}
use mpi_local_lab.Backends.Hits.{
  Fit, span_of, hit, placement_score-hit, placements-Fit, placements-lt, placements_nonzero,
  placements_larger, span-Fit, Absent-of_IsLeast, Absent-of_lt, First-of_IsLeast,
}
use mpi_local_lab.Backends.Serial.{search}
use mpi_local_lab.Backends.Serial.Canonical.{search-IsCanonical}
use mpi_local_lab.Backends.OpenMp.{
  Search, no_placement, test, Lowest, SearchRun, none_left, no_room, no_match, first_match,
}
use mpi_local_lab.Backends.OpenMp.Interleaving.{Run-IsLeast}
use mpi_local_lab.Backends.OpenMp.Progress.{Run-ends}

larger_has_room : ¬ (eqb_ℤ (pos 0) (pos 0) ≡ false)
larger_has_room e = cc

module _ (F : Floating) (threshold zero_eps : F.Double) (laws : Ieee F)
    (eps_pos : F.lt (fzero F) zero_eps ≡ true) where
  pub test-hit :
      (p : Picture) (o : Object) (fit : Fit p o) (key : ℕ)
      → key < span_of fit * span_of fit
      → test F threshold zero_eps p o (pos (span_of fit)) key
        ≡ some (hit F threshold zero_eps p o fit key)
  unfolding test
  test-hit p o fit key lt =
      let (s, scored, same) =
        placement_score-hit F threshold zero_eps p o fit laws eps_pos key lt in
      rw scored (ap some same)

  -- What `lowest_matching_placement` returns for an object that fits.
  pub Lowest-IsLeast :
      (p : Picture) (o : Object) (fit : Fit p o) (best : ℤ)
      → Lowest F threshold zero_eps p o (placement_count p.n o.m) (p.n -ℤ o.m +ℤ pos 1) best
      → (found : Option ℕ) × IsLeast
          (hit F threshold zero_eps p o fit)
          0
          (span_of fit * span_of fit)
          found
        × (best ≡ elim found [ none ↦ no_placement | some k ↦ pos k ])
  Lowest-IsLeast p o fit best low =
      let fixed = fixed_bounds in
      let (found, least, e) =
        Run-IsLeast (test F threshold zero_eps p o (pos (span_of fit))) (span_of fit * span_of fit)
          (hit F threshold zero_eps p o fit) (test-hit p o fit) (placements-lt fit) fixed.run
          fixed.ended in
      (found, least, fixed.returned ∙ e)
    where
      fixed_bounds :
          Lowest F threshold zero_eps p o (pos (span_of fit * span_of fit)) (pos (span_of fit)) best
      fixed_bounds = rw (placements-Fit fit, span-Fit fit) at low

  module _ (p : Picture) (o : Object) (os : List Object) (fit : Fit p o) where
    -- A round that found `MSEARCH_NO_PLACEMENT`.
    pub round_none :
        (found : Option ℕ) (best : ℤ) (rest : Match)
        → IsLeast (hit F threshold zero_eps p o fit) 0 (span_of fit * span_of fit) found
        → best ≡ elim found [ none ↦ no_placement | some k ↦ pos k ]
        → eqb_ℤ best no_placement ≡ true
        → IsCanonical F threshold zero_eps p os rest
        → IsCanonical F threshold zero_eps p (o ∷ os) rest
    round_none none best rest least e test is =
        inl (Absent-of_IsLeast F threshold zero_eps p o fit least, is)
    round_none (some k) best rest least e test is =
        absurd (ground (arith, placements-lt fit, least.1))

    -- A round that found a key.
    pub round_some :
        (found : Option ℕ) (best : ℤ)
        → IsLeast (hit F threshold zero_eps p o fit) 0 (span_of fit * span_of fit) found
        → best ≡ elim found [ none ↦ no_placement | some k ↦ pos k ]
        → eqb_ℤ best no_placement ≡ false
        → IsCanonical F threshold zero_eps p
            (o ∷ os)
            (match_at p o (pos (pos_part best / span_of fit)) (pos (pos_part best % span_of fit)))
    round_some none best least e test = absurd (ground arith)
    round_some (some k) best least e test =
        inr (_, _, First-of_IsLeast F threshold zero_eps p o fit k least, rw e refl)

  pub Fit-of :
      {p : Picture} {o : Object} (wp : IsPicture p) (wo : IsObject o)
      → eqb_ℤ (placement_count p.n o.m) (pos 0) ≡ false
      → Fit p o
  Fit-of wp wo room = elim (dec_lt wp.0.width wo.width) [
    | yes larger ↦ absurd (larger_has_room (rw (placements_larger wp.0 wo larger) at room))
    | no fits ↦ record { picture = wp.0; object = wo; small = wp.1; fits = omega arith }
  ]

  SearchRun-IsCanonical :
      {p : Picture} {os : List Object} {out : Match}
      → SearchRun F threshold zero_eps p os out
      → IsPicture p
      → All IsObject os
      → IsCanonical F threshold zero_eps p os out
  SearchRun-IsCanonical none_left wp h = refl
  SearchRun-IsCanonical {p} (no_room {object} {objects} full run) wp h =
      elim (dec_lt wp.0.width h.0.width) [
        | yes larger ↦ inl (
          Absent-of_lt threshold zero_eps p object wp.0 h.0 larger,
          SearchRun-IsCanonical run wp h.1,
        )
        | no fits ↦
            let fit : Fit p object = record {
              picture = wp.0;
              object = h.0;
              small = wp.1;
              fits = omega arith;
            } in
            absurd (cc (full, placements-Fit fit, placements_nonzero fit))
      ]
  SearchRun-IsCanonical {p} (no_match {object} {objects} {out} {best} room low none_matched run) wp
        h =
      let fit = Fit-of wp h.0 room in
      let (found, least, e) = Lowest-IsLeast p object fit best low in
      round_none p object objects fit found best out least e none_matched
        (SearchRun-IsCanonical run wp h.1)
  SearchRun-IsCanonical {p} (first_match {object} {objects} {best} room low matched) wp h =
      let fit = Fit-of wp h.0 room in
      let (found, least, e) = Lowest-IsLeast p object fit best low in
      rw (span-Fit fit) (round_some p object objects fit found best least e matched)

  Lowest-exists :
      (p : Picture) (o : Object) (fit : Fit p o)
      → (best : ℤ) × Lowest F threshold zero_eps p o
          (placement_count p.n o.m)
          (p.n -ℤ o.m +ℤ pos 1)
          best
  Lowest-exists p o fit =
      let (steps, last, run, ended) =
        Run-ends (test F threshold zero_eps p o (pos (span_of fit))) (span_of fit * span_of fit)
          (hit F threshold zero_eps p o fit) (test-hit p o fit) in
      (
        last.best,
        rw (placements-Fit fit, span-Fit fit)
            (record { steps = steps; last = last; run = run; ended = ended; returned = refl }),
      )

  -- A round of the search at an object that fits.
  round_exists :
      (p : Picture) (o : Object) (os : List Object) (fit : Fit p o) (rest : Match)
      → SearchRun F threshold zero_eps p os rest
      → (out : Match) × SearchRun F threshold zero_eps p (o ∷ os) out
  round_exists p o os fit rest run =
      let (best, low) = Lowest-exists p o fit in
      let room : eqb_ℤ (placement_count p.n o.m) (pos 0) ≡ false =
        rw (placements-Fit fit) (placements_nonzero fit) in
      let span = pos_part (p.n -ℤ o.m +ℤ pos 1) in
      elim (Bool-cases (eqb_ℤ best no_placement)) [
        | inl none_matched ↦ (rest, no_match room low none_matched run)
        | inr found ↦ (
          match_at p o (pos (pos_part best / span)) (pos (pos_part best % span)),
          first_match room low found,
        )
      ]

  SearchRun-exists :
      (p : Picture)
      → IsPicture p
      → (os : List Object) → All IsObject os
      → (out : Match) × SearchRun F threshold zero_eps p os out
  SearchRun-exists p wp [] h = (match_none p.id, none_left)
  SearchRun-exists p wp (o ∷ os) h =
      let (rest, run) = SearchRun-exists p wp os h.1 in
      elim (dec_lt wp.0.width h.0.width) [
        | yes larger ↦ (rest, no_room (rw (placements_larger wp.0 h.0 larger) refl) run)
        | no fits ↦
            round_exists p o os
              (record { picture = wp.0; object = h.0; small = wp.1; fits = omega arith }) rest run
      ]

-- Whatever the schedule and the number of threads, a search by the OpenMP backend can only give
-- the canonical match.
pub Search-IsCanonical :
    {F : Floating} (ctx : Context F) (p : Picture) (out : Match)
    → Ieee F
    → F.lt (fzero F) ctx.zero_eps ≡ true
    → IsValid ctx.problem
    → IsPicture p
    → Search ctx p out
    → IsCanonical F ctx.problem.threshold ctx.zero_eps p ctx.problem.objects out
Search-IsCanonical {F} ctx p out laws eps_pos valid wp run =
    SearchRun-IsCanonical F ctx.problem.threshold ctx.zero_eps laws eps_pos run wp valid.all_objects

-- For a valid problem the OpenMP backend has a run for every searchable picture, and each of its
-- runs gives the very match that the serial backend returns. The floating-point operations must
-- have the properties of `Ieee`, and zero_eps must be positive.
pub Search-eq-serial :
    {F : Floating} (ctx : Context F) (p : Picture)
    → Ieee F
    → F.lt (fzero F) ctx.zero_eps ≡ true
    → IsValid ctx.problem
    → IsPicture p
    → (match : Match) × (search ctx p ≡ some match)
      × Search ctx p match
      × ((out : Match) → Search ctx p out → out ≡ match)
Search-eq-serial {F} ctx p laws eps_pos valid wp =
    let (match, serial, is) = search-IsCanonical ctx p laws eps_pos valid wp in
    let threshold = ctx.problem.threshold in
    let same : (out : Match) → Search ctx p out → out ≡ match = λ out run.
      IsCanonical-unique F threshold ctx.zero_eps p ctx.problem.objects out match
        (Search-IsCanonical ctx p out laws eps_pos valid wp run) is in
    let (out, run) =
      SearchRun-exists F threshold ctx.zero_eps laws eps_pos p wp ctx.problem.objects
        valid.all_objects in
    (match, serial, subst (Search ctx p) (same out run) run, same)
