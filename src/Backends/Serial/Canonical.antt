-- ===== src/Backends/Serial/Canonical.antt =====
-- The serial backend (src/backends/backend_serial.c) returns the canonical match.
use mpi_local_lab.Base.{
  ℕ, zero, suc, ◌+◌, ◌*◌, ◌/◌, ◌%◌, ◌<◌, ◌≡◌, refl, sym, ◌∙◌, arith, true, inl, inr, List, [], ◌∷◌,
  Option, none, some, dec_lt, Bool-cases, All,
}
use mathlib.Core.Option
use mpi_local_lab.Base.Int.{ℤ, pos}
use mpi_local_lab.Base.Machine.{to_int}
use mpi_local_lab.Floating.{Floating, Ieee, fzero}
use mpi_local_lab.Types.{Picture, Object, Match, match_none}
use mpi_local_lab.Problem.Validate.Valid.{IsMatrix, IsPicture, IsObject, IsValid}
use mpi_local_lab.Canonical.{IsCanonical}
use mpi_local_lab.Canonical.Placement.{IsLeast, IsLeast-here, IsLeast-later}
use mpi_local_lab.Backends.{Context, match_at}
use mpi_local_lab.Backends.Hits.{
  Fit, span_of, hit, placement_score-hit, placements-Fit, placements_nonzero, placements_larger,
  span-Fit, to_int-row, to_int-col, Absent-of_IsLeast, Absent-of_lt, First-of_IsLeast,
}
use mpi_local_lab.Backends.Serial.{scan, search_objects, search}

module _ (F : Floating) (threshold zero_eps : F.Double) (laws : Ieee F)
    (eps_pos : F.lt (fzero F) zero_eps ≡ true) where
  -- Where a key lies, as the loop reports it.
  abbrev place : ℕ → ℕ → ℤ × ℤ
  place span key = (to_int (key / span), to_int (key % span))

  -- The scan of the keys from `key` on ends, without a fault, at the least that matches.
  scan-IsLeast :
      (p : Picture) (o : Object) (fit : Fit p o) (k key : ℕ)
      → key + k ≡ span_of fit * span_of fit
      → (found : Option ℕ) × (scan F threshold zero_eps k key (pos (span_of fit)) p o
          ≡ some (Option.map (place (span_of fit)) found))
        × IsLeast (hit F threshold zero_eps p o fit) key (span_of fit * span_of fit) found
  unfolding scan
  scan-IsLeast p o fit zero key e = (none, refl, λ j lo hi. absurd (omega arith))
  scan-IsLeast p o fit (suc k) key e =
      let (s, scored, test) =
        placement_score-hit F threshold zero_eps p o fit laws eps_pos key (omega arith) in
      rw scored (elim (Bool-cases (F.lt s threshold)) [
        | inl below ↦ (some key, rw below, IsLeast-here _ key _ (omega arith) (sym test ∙ below))
        | inr above ↦
            let (found, run, least) = scan-IsLeast p o fit k (suc key) (omega arith) in
            (found, rw above run, IsLeast-later _ key _ found (sym test ∙ above) least)
      ])

  -- What a round does with the result of its scan.
  report_found :
      (p : Picture) (o : Object) (os : List Object) (fit : Fit p o) (rest : Match)
      → search_objects F threshold zero_eps os p ≡ some rest
      → IsCanonical F threshold zero_eps p os rest
      → (found : Option ℕ)
      → IsLeast (hit F threshold zero_eps p o fit) 0 (span_of fit * span_of fit) found
      → (match : Match) × (elim (Option.map (place (span_of fit)) found) as (λ _. Option Match) [
        | none ↦ search_objects F threshold zero_eps os p
        | some (row, col) ↦ some (match_at p o row col)
      ]
          ≡ some match)
        × IsCanonical F threshold zero_eps p (o ∷ os) match
  report_found p o os fit rest e is_rest none least =
      (rest, e, inl (Absent-of_IsLeast F threshold zero_eps p o fit least, is_rest))
  report_found p o os fit rest e is_rest (some key) least = (
    match_at p o (pos (key / span_of fit)) (pos (key % span_of fit)),
    rw (to_int-row fit key least.1, to_int-col fit key least.1) refl,
    inr (_, _, First-of_IsLeast F threshold zero_eps p o fit key least, refl),
  )

  -- One round of the outer loop, at an object that fits.
  search_objects-Fit :
      (p : Picture) (o : Object) (os : List Object) (fit : Fit p o) (rest : Match)
      → search_objects F threshold zero_eps os p ≡ some rest
      → IsCanonical F threshold zero_eps p os rest
      → (match : Match) × (search_objects F threshold zero_eps (o ∷ os) p ≡ some match)
        × IsCanonical F threshold zero_eps p (o ∷ os) match
  unfolding search_objects
  search_objects-Fit p o os fit rest e is_rest =
      let (found, run, least) = scan-IsLeast p o fit (span_of fit * span_of fit) 0 (omega arith) in
      let (match, report, is) = report_found p o os fit rest e is_rest found least in
      (match, rw (placements-Fit fit, placements_nonzero fit, span-Fit fit, run) report, is)

  -- One round at an object that is larger than the picture.
  search_objects_larger :
      (p : Picture) (o : Object) (os : List Object) (wp : IsMatrix p.n p.elems)
      (wo : IsMatrix o.m o.elems)
      → wp.width < wo.width
      → (rest : Match) → search_objects F threshold zero_eps os p ≡ some rest
      → IsCanonical F threshold zero_eps p os rest
      → (match : Match) × (search_objects F threshold zero_eps (o ∷ os) p ≡ some match)
        × IsCanonical F threshold zero_eps p (o ∷ os) match
  unfolding search_objects
  search_objects_larger p o os wp wo lt rest e is_rest = (
    rest,
    rw (placements_larger wp wo lt) e,
    inl (Absent-of_lt threshold zero_eps p o wp wo lt, is_rest),
  )

  search_objects-IsCanonical :
      (p : Picture)
      → IsPicture p
      → (os : List Object) → All IsObject os
      → (match : Match) × (search_objects F threshold zero_eps os p ≡ some match)
        × IsCanonical F threshold zero_eps p os match
  search_objects-IsCanonical p wp [] h = (match_none p.id, unfold search_objects in refl, refl)
  search_objects-IsCanonical p wp (o ∷ os) h =
      let (rest, e, is_rest) = search_objects-IsCanonical p wp os h.1 in
      elim (dec_lt wp.0.width h.0.width) [
        | yes larger ↦ search_objects_larger p o os wp.0 h.0 larger rest e is_rest
        | no fits ↦
            search_objects-Fit p o os
              (record { picture = wp.0; object = h.0; small = wp.1; fits = omega arith }) rest e
              is_rest
      ]

-- The serial backend returns a match, reading nothing out of bounds, and it is the canonical one:
-- for every searchable picture of any size, whatever the objects of the valid problem. The
-- floating-point operations must have the properties of `Ieee`, and zero_eps must be positive.
pub search-IsCanonical :
    {F : Floating} (ctx : Context F) (p : Picture)
    → Ieee F
    → F.lt (fzero F) ctx.zero_eps ≡ true
    → IsValid ctx.problem
    → IsPicture p
    → (match : Match) × (search ctx p ≡ some match)
      × IsCanonical F ctx.problem.threshold ctx.zero_eps p ctx.problem.objects match
unfolding search
search-IsCanonical {F} ctx p laws eps_pos valid wp =
    search_objects-IsCanonical F ctx.problem.threshold ctx.zero_eps laws eps_pos p wp
      ctx.problem.objects valid.all_objects
