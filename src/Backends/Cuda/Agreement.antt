-- ===== src/Backends/Cuda/Agreement.antt =====
-- The CUDA backend (src/backends/backend_cuda.cu) against the serial backend.
use mathlib.Core.Path.{subst}
use mathlib.Core.Option.{some-injective}
use mpi_local_lab.Base.{
  ℕ, zero, suc, ◌+◌, ◌*◌, ◌≤◌, ◌<◌, ◌^◌, ◌≡◌, refl, sym, ap, ◌∙◌, arith, true, false, inl, inr,
  List, [], ◌∷◌, ◌++◌, some, get_elem?, length, dec_lt, All, All-get_elem?, Bool-cases, ltb,
}
use mpi_local_lab.Base.Int.{ℤ, pos, pos_part, ◌+ℤ◌, ◌-ℤ◌, ◌*ℤ◌, ◌≤ℤ◌, eqb_ℤ}
use mpi_local_lab.Base.Machine.{size_t}
use mpi_local_lab.Config.{Config}
use mpi_local_lab.Floating.{Floating, Ieee, fzero}
use mpi_local_lab.Types.{Picture, Object, Problem, Match, match_none, done}
use mpi_local_lab.Problem.{placement_count, max_elems, max_picture_elems}
use mpi_local_lab.Problem.Validate.Valid.{IsPicture, IsObject, IsValid}
use mpi_local_lab.Canonical.{IsCanonical}
use mpi_local_lab.Canonical.Contract.{IsCanonical-unique}
use mpi_local_lab.Backends.{Context}
use mpi_local_lab.Backends.Hits.{
  Fit, span_of, hit, placements-Fit, placements_nonzero, placements_larger, span-Fit,
}
use mpi_local_lab.Backends.OpenMp.{no_placement, test}
use mpi_local_lab.Backends.OpenMp.Canonical.{test-hit}
use mpi_local_lab.Backends.Serial.{search}
use mpi_local_lab.Backends.Serial.Canonical.{search-IsCanonical}
use mpi_local_lab.Backends.Cuda.{earlier_object_matched, blocks_per_sm, threads_of}
use mpi_local_lab.Backends.Cuda.Progress.{KernelRun-ends}
use mpi_local_lab.Backends.Cuda.Create.{CudaContext, CudaCalls, cuda_create}
use mpi_local_lab.Backends.Cuda.Packed.{sum_elems, Stands, AllStand}
use mpi_local_lab.Backends.Cuda.Ready.{cuda_create-IsReady}
use mpi_local_lab.Backends.Cuda.Search.{
  KernelEnd, Queue, none_left, no_room, kernel, first_hit, CudaSearch, no_objects, synchronised,
}
use mpi_local_lab.Backends.Cuda.Canonical.{
  threads-pos, uploaded-IsMatrix, on_device-Stands, Left, Left-next, Left-here, Queue-IsCanonical,
}

objects_none : (os : List Object) → pos (length os) ≡ pos 0 → os ≡ []
objects_none [] e = refl
objects_none (o ∷ os) e = absurd (ground (arith, e))

zero_of : (x : ℤ) → eqb_ℤ x (pos 0) ≡ true → x ≡ pos 0
zero_of x e = ground (arith, e)

max_elems-ge_start : (most : ℕ) (ps : List Picture) → most ≤ max_elems most ps
unfolding max_elems
max_elems-ge_start most [] = omega arith
max_elems-ge_start most (p ∷ ps) = elim (Bool-cases (ltb most (size_t p.n * size_t p.n))) [
  | inl more ↦
      let le = max_elems-ge_start (size_t p.n * size_t p.n) ps in rw more (ground (arith, le, more))
  | inr less ↦ rw less (max_elems-ge_start most ps)
]

-- The staging buffer holds every picture.
max_elems-ge :
    (ps : List Picture) (most i : ℕ) (p : Picture)
    → get_elem? ps i ≡ some p
    → size_t p.n * size_t p.n ≤ max_elems most ps
unfolding max_elems
max_elems-ge [] most i p at = absurd (ground (arith, at))
max_elems-ge (q ∷ ps) most zero p at =
    let same : q ≡ p = some-injective _ _ at in
    elim (Bool-cases (ltb most (size_t q.n * size_t q.n))) [
      | inl more ↦ rw (← same, more) (max_elems-ge_start (size_t q.n * size_t q.n) ps)
      | inr less ↦
          let le = max_elems-ge_start most ps in rw (← same, less) (ground (arith, le, less))
    ]
max_elems-ge (q ∷ ps) most (suc i) p at = max_elems-ge ps _ i p at

module _ {F : Floating} (ctx : CudaContext F) (laws : Ieee F)
    (eps_pos : F.lt (fzero F) ctx.zero_eps ≡ true) where
  KernelEnd-exists :
      (p : Picture) (o : Object) (fit : Fit p o) (threads : ℕ) (earlier : List ℤ)
      → 0 < threads
      → (best : ℤ) × KernelEnd F ctx.problem.threshold ctx.zero_eps p o
          (placement_count p.n o.m)
          (p.n -ℤ o.m +ℤ pos 1)
          threads
          earlier
          best
  KernelEnd-exists p o fit threads earlier some_threads =
      let (steps, last, run, ended) =
        KernelRun-ends (test F ctx.problem.threshold ctx.zero_eps p o (pos (span_of fit)))
          (span_of fit * span_of fit) threads (earlier_object_matched earlier) some_threads
          (hit F ctx.problem.threshold ctx.zero_eps p o fit)
          (test-hit F ctx.problem.threshold ctx.zero_eps laws eps_pos p o fit) in
      (
        last.best,
        rw (placements-Fit fit, span-Fit fit)
            (record { steps = steps; last = last; run = run; ended = ended; result = refl }),
      )

  Queue-exists :
      (p : Picture) (earlier : List ℤ) (os : List Object)
      → IsPicture p
      → All IsObject os
      → Left ctx laws eps_pos earlier os
      → (results : List ℤ) × Queue ctx p earlier os results
  Queue-exists p earlier [] wp h stands = ([], none_left)
  Queue-exists p earlier (o ∷ os) wp h stands = elim (dec_lt wp.0.width h.0.width) [
    | yes larger ↦
        let (results, queue) =
          Queue-exists p (earlier ++ no_placement ∷ []) os wp h.1
            (Left-next ctx laws eps_pos earlier no_placement o os stands) in
        (no_placement ∷ results, no_room (rw (placements_larger wp.0 h.0 larger) refl) queue)
    | no fits ↦
        let fit : Fit p o = record {
          picture = wp.0;
          object = h.0;
          small = wp.1;
          fits = omega (arith, fits);
        } in
        let placements = placement_count p.n o.m in
        let threads = threads_of (pos_part placements) (ctx.sm_count *ℤ pos blocks_per_sm) in
        let (offset, at, slice) = Left-here ctx laws eps_pos earlier o os stands in
        let there =
          on_device-Stands ctx.obj_offset ctx.d_objects (length earlier) offset o
            (offset, at, slice) at in
        let (best, end) = KernelEnd-exists p o fit threads earlier (threads-pos _ _) in
        let (results, queue) =
          Queue-exists p (earlier ++ best ∷ []) os wp h.1
            (Left-next ctx laws eps_pos earlier best o os stands) in
        let room : eqb_ℤ placements (pos 0) ≡ false =
          rw (placements-Fit fit) (placements_nonzero fit) in
        let same =
          subst
            (λ q.
              KernelEnd F ctx.problem.threshold ctx.zero_eps p q placements (p.n -ℤ o.m +ℤ pos 1)
                threads earlier best)
            (sym there) end in
        (best ∷ results, kernel room at same queue)
  ]

  module _ (valid : IsValid ctx.problem)
      (stands : AllStand ctx.problem.objects ctx.obj_offset ctx.d_objects)
      (capacity_is : ctx.picture_capacity ≡ max_picture_elems ctx.problem) where
    -- Every object is left, behind none.
    all-Left : Left ctx laws eps_pos [] ctx.problem.objects
    all-Left i o at =
        let same : i ≡ 0 + i = omega arith in
        subst (λ k. Stands ctx.obj_offset ctx.d_objects k o) same (stands i o at)

    CudaSearch-IsCanonical :
        (p : Picture) (out : Match)
        → IsPicture p
        → CudaSearch ctx p (done out)
        → IsCanonical F ctx.problem.threshold ctx.zero_eps p ctx.problem.objects out
    unfolding earlier_object_matched first_hit
    CudaSearch-IsCanonical p out wp (no_objects none_given) =
        let empty = objects_none ctx.problem.objects (sym valid.objects_counted ∙ none_given) in
        rw empty refl
    CudaSearch-IsCanonical p out wp (synchronised {cells} {results} given has host room queue) =
        let same = uploaded-IsMatrix p cells wp.0 has in
        Queue-IsCanonical ctx laws eps_pos (rw same at queue) wp valid.all_objects all-Left refl

    CudaSearch-exists :
        (i : ℕ) (p : Picture)
        → get_elem? ctx.problem.pictures i ≡ some p
        → (out : Match) × CudaSearch ctx p (done out)
    unfolding max_picture_elems size_t
    CudaSearch-exists i p at =
        let wp = All-get_elem? IsPicture ctx.problem.pictures i at valid.all_pictures in
        elim (Bool-cases (eqb_ℤ ctx.problem.num_objects (pos 0))) [
          | inl empty ↦ (match_none p.id, no_objects (zero_of ctx.problem.num_objects empty))
          | inr given ↦
              let same = uploaded-IsMatrix p wp.0.cells wp.0 wp.0.elems_is in
              let (results, queue) =
                Queue-exists p [] ctx.problem.objects wp valid.all_objects all-Left in
              (
                first_hit p ctx.problem.objects results,
                synchronised given wp.0.elems_is (rw wp.0.side_is (omega (arith, wp.0.size)))
                    (rw capacity_is (max_elems-ge ctx.problem.pictures 0 i p at))
                    (subst (λ q. Queue ctx q [] ctx.problem.objects results) (sym same) queue),
              )
        ]

    search_agrees :
        (i : ℕ) (p : Picture)
        → get_elem? ctx.problem.pictures i ≡ some p
        → (match : Match) × (search (record { problem = ctx.problem; zero_eps = ctx.zero_eps }) p
            ≡ some match)
          × CudaSearch ctx p (done match)
          × ((out : Match) → CudaSearch ctx p (done out) → out ≡ match)
    search_agrees i p at =
        let wp = All-get_elem? IsPicture ctx.problem.pictures i at valid.all_pictures in
        let serial : Context F = record { problem = ctx.problem; zero_eps = ctx.zero_eps } in
        let (match, found, is) = search-IsCanonical serial p laws eps_pos valid wp in
        let same : (out : Match) → CudaSearch ctx p (done out) → out ≡ match = λ out run.
          IsCanonical-unique F ctx.problem.threshold ctx.zero_eps p ctx.problem.objects out match
            (CudaSearch-IsCanonical p out wp run) is in
        let (out, run) = CudaSearch-exists i p at in
        (match, found, subst (λ x. CudaSearch ctx p (done x)) (same out run) run, same)

-- A context that `cuda_create` has made for a valid problem whose object elements number less than
-- 2^62: `cuda_search` can be run to its end on each of the problem's pictures, inside its buffers,
-- and every run that succeeds, however the threads of the kernels interleave, gives the very match
-- that the serial backend returns. The rank on the node must not be negative, the floating-point
-- operations must have the properties of `Ieee`, and the threshold below which a divisor counts as
-- zero must be positive.
pub CudaSearch-eq-serial :
    {F : Floating} (calls : CudaCalls) (problem : Problem F) (config : Config F)
    (ctx : CudaContext F) (i : ℕ) (p : Picture)
    → Ieee F
    → F.lt (fzero F) config.zero_eps ≡ true
    → IsValid problem
    → sum_elems problem.objects < 2 ^ 62
    → pos 0 ≤ℤ config.node_rank
    → cuda_create calls problem config ≡ some (done ctx)
    → get_elem? problem.pictures i ≡ some p
    → (match : Match) × (search (record { problem = problem; zero_eps = config.zero_eps }) p
        ≡ some match)
      × CudaSearch ctx p (done match)
      × ((out : Match) → CudaSearch ctx p (done out) → out ≡ match)
CudaSearch-eq-serial {F} calls problem config ctx i p laws eps valid few rank_pos made at =
    let ready = cuda_create-IsReady calls problem config valid few ctx rank_pos made in
    let back = sym ready.problem_is in
    let (match, found, run, same) =
      search_agrees ctx laws (rw ready.eps_is eps) (subst IsValid back valid)
        (subst (λ (q : Problem F). AllStand q.objects ctx.obj_offset ctx.d_objects) back
          ready.stands)
        (ready.capacity_is ∙ ap max_picture_elems back) i p
        (ap (λ (q : Problem F). get_elem? q.pictures i) ready.problem_is ∙ at) in
    let with_eps =
      subst (λ e. search (record { problem = ctx.problem; zero_eps = e }) p ≡ some match)
        ready.eps_is found in
    (
      match,
      subst (λ q. search (record { problem = q; zero_eps = config.zero_eps }) p ≡ some match)
          ready.problem_is with_eps,
      run,
      same,
    )
