-- ===== src/Backends/Cuda/Canonical.antt =====
-- Every run of the CUDA backend (src/backends/backend_cuda.cu) gives the canonical match.
use mathlib.Core.Path.{subst}
use mathlib.Core.Option.{some-injective}
use mpi_local_lab.Base.{
  ℕ, suc, ◌+◌, ◌*◌, ◌<◌, ◌≡◌, refl, sym, ap, ◌∙◌, arith, true, false, inl, inr, List, [], ◌∷◌, ◌++◌,
  Option, none, some, length, length-append, get_elem?, take-length, dec_lt, All, Bool-cases,
}
use mpi_local_lab.Base.Int.{ℤ, pos, ◌+ℤ◌, ◌-ℤ◌, eqb_ℤ}
use mpi_local_lab.Base.Machine.{size_t}
use mpi_local_lab.Floating.{Floating, Ieee, fzero}
use mpi_local_lab.Types.{Picture, Object}
use mpi_local_lab.Problem.{placement_count}
use mpi_local_lab.Problem.Validate.Valid.{IsPicture, IsObject, IsMatrix}
use mpi_local_lab.Canonical.{IsCanonical}
use mpi_local_lab.Canonical.Placement.{IsLeast}
use mpi_local_lab.Backends.Hits.{
  Fit, span_of, hit, placements-Fit, placements-lt, placements_nonzero, span-Fit, Absent-of_lt,
}
use mpi_local_lab.Backends.OpenMp.{no_placement, test}
use mpi_local_lab.Backends.OpenMp.Canonical.{test-hit, round_none, round_some, Fit-of}
use mpi_local_lab.Backends.Cuda.{earlier_object_matched, threads_of}
use mpi_local_lab.Backends.Cuda.Least.{KernelRun-IsLeast}
use mpi_local_lab.Backends.Cuda.Create.{CudaContext}
use mpi_local_lab.Backends.Cuda.Packed.{Stands}
use mpi_local_lab.Backends.Cuda.Search.{
  on_device, uploaded, KernelEnd, Queue, none_left, no_room, kernel, first_hit,
}

pub threads-pos : (placements : ℕ) (max_blocks : ℤ) → 0 < threads_of placements max_blocks
unfolding threads_of
threads-pos placements max_blocks = ground arith

pub uploaded-IsMatrix :
    (p : Picture) (cells : List ℤ)
    → IsMatrix p.n p.elems
    → p.elems ≡ some cells
    → uploaded p cells ≡ p
unfolding uploaded size_t
uploaded-IsMatrix p cells w is =
    let same : cells ≡ w.cells = some-injective _ _ (sym is ∙ w.elems_is) in
    let whole : length cells ≡ size_t p.n * size_t p.n = rw (same, w.side_is) w.size in
    ap (λ e. record p { elems = e }) (ap some (take-length cells _ whole) ∙ sym is)

pub on_device-Stands :
    (offsets : List ℕ) (memory : List ℤ) (i offset : ℕ) (o : Object)
    → Stands offsets memory i o
    → get_elem? offsets i ≡ some offset
    → on_device memory offset o ≡ o
unfolding on_device
on_device-Stands offsets memory i offset o (there, at, slice) at' =
    let same : offset ≡ there = some-injective _ _ (sym at' ∙ at) in
    ap (λ e. record o { elems = e }) (rw same slice)

-- The entries of objects that have not matched.
earlier-none :
    (earlier : List ℤ) (result : ℤ)
    → earlier_object_matched earlier ≡ false
    → eqb_ℤ result no_placement ≡ true
    → earlier_object_matched (earlier ++ result ∷ []) ≡ false
unfolding earlier_object_matched
earlier-none [] result none_matched is = rw is refl
earlier-none (x ∷ xs) result none_matched is = elim (Bool-cases (eqb_ℤ x no_placement)) [
  | inl none_here ↦ rw none_here (earlier-none xs result (rw none_here at none_matched) is)
  | inr here ↦ absurd (cc (here, rw here at none_matched))
]

module _ (F : Floating) (threshold zero_eps : F.Double) (laws : Ieee F)
    (eps_pos : F.lt (fzero F) zero_eps ≡ true) where
  -- What a kernel leaves for an object that fits, where no object before it has matched.
  KernelEnd-IsLeast :
      (p : Picture) (o : Object) (fit : Fit p o) (threads : ℕ) (earlier : List ℤ) (best : ℤ)
      → 0 < threads
      → earlier_object_matched earlier ≡ false
      → KernelEnd F threshold zero_eps p o
          (placement_count p.n o.m)
          (p.n -ℤ o.m +ℤ pos 1)
          threads
          earlier
          best
      → (found : Option ℕ) × IsLeast
          (hit F threshold zero_eps p o fit)
          0
          (span_of fit * span_of fit)
          found
        × (best ≡ elim found [ none ↦ no_placement | some k ↦ pos k ])
  KernelEnd-IsLeast p o fit threads earlier best some_threads none_matched end =
      let fixed : KernelEnd F threshold zero_eps p o (pos (span_of fit * span_of fit))
          (pos (span_of fit)) threads earlier best =
        rw (placements-Fit fit, span-Fit fit) at end in
      let run = rw none_matched at fixed.run in
      let (found, least, e) =
        KernelRun-IsLeast (test F threshold zero_eps p o (pos (span_of fit)))
          (span_of fit * span_of fit) threads (hit F threshold zero_eps p o fit)
          (test-hit F threshold zero_eps laws eps_pos p o fit) (placements-lt fit) some_threads run
          fixed.ended in
      (found, least, fixed.result ∙ e)

module _ {F : Floating} (ctx : CudaContext F) (laws : Ieee F)
    (eps_pos : F.lt (fzero F) ctx.zero_eps ≡ true) where
  -- Behind `earlier`, the device has the objects that are left.
  abbrev pub Left : (earlier : List ℤ) → List Object → Type 0
  Left earlier os =
      (i : ℕ) (o : Object)
      → get_elem? os i ≡ some o
      → Stands ctx.obj_offset ctx.d_objects (length earlier + i) o

  pub Left-next :
      (earlier : List ℤ) (result : ℤ) (o : Object) (os : List Object)
      → Left earlier (o ∷ os)
      → Left (earlier ++ result ∷ []) os
  Left-next earlier result o os stands i object at =
      let one_more : length earlier + suc i ≡ length (earlier ++ result ∷ []) + i =
        omega (arith, length-append earlier (result ∷ [])) in
      subst (λ k. Stands ctx.obj_offset ctx.d_objects k object) one_more (stands (suc i) object at)

  pub Left-here :
      (earlier : List ℤ) (o : Object) (os : List Object)
      → Left earlier (o ∷ os)
      → Stands ctx.obj_offset ctx.d_objects (length earlier) o
  Left-here earlier o os stands =
      let here : length earlier + 0 ≡ length earlier = omega arith in
      subst (λ k. Stands ctx.obj_offset ctx.d_objects k o) here (stands 0 o refl)

  pub Queue-IsCanonical :
      {p : Picture} {earlier : List ℤ} {os : List Object} {results : List ℤ}
      → Queue ctx p earlier os results
      → IsPicture p
      → All IsObject os
      → Left earlier os
      → earlier_object_matched earlier ≡ false
      → IsCanonical F ctx.problem.threshold ctx.zero_eps p os (first_hit p os results)
  unfolding first_hit
  Queue-IsCanonical none_left wp h stands none_matched = refl
  Queue-IsCanonical {p} {earlier} (no_room {object} {objects} full queue) wp h stands none_matched =
      elim (dec_lt wp.0.width h.0.width) [
        | yes larger ↦ inl (
          Absent-of_lt ctx.problem.threshold ctx.zero_eps p object wp.0 h.0 larger,
          Queue-IsCanonical queue wp h.1 (Left-next earlier no_placement object objects stands)
              (earlier-none earlier no_placement none_matched refl),
        )
        | no fits ↦
            let fit : Fit p object = record {
              picture = wp.0;
              object = h.0;
              small = wp.1;
              fits = omega (arith, fits);
            } in
            absurd (cc (full, placements-Fit fit, placements_nonzero fit))
      ]
  Queue-IsCanonical {p} {earlier}
        (kernel {object} {objects} {results} {offset} {best} room at end queue) wp h stands
        none_matched =
      let fit = Fit-of F ctx.problem.threshold ctx.zero_eps laws eps_pos wp h.0 room in
      let there =
        on_device-Stands ctx.obj_offset ctx.d_objects (length earlier) offset object
          (Left-here earlier object objects stands) at in
      let (found, least, e) =
        KernelEnd-IsLeast F ctx.problem.threshold ctx.zero_eps laws eps_pos p object fit _ earlier
          best (threads-pos _ _) none_matched (rw there at end) in
      elim (Bool-cases (eqb_ℤ best no_placement)) [
        | inl missed ↦ rw missed (
            round_none F ctx.problem.threshold ctx.zero_eps laws eps_pos p object objects fit found
              best (first_hit p objects results) least e missed
              (Queue-IsCanonical queue wp h.1 (Left-next earlier best object objects stands)
                (earlier-none earlier best none_matched missed)))
        | inr matched ↦
            rw (matched, span-Fit fit)
              (round_some F ctx.problem.threshold ctx.zero_eps laws eps_pos p object objects fit
                found best least e matched)
      ]
