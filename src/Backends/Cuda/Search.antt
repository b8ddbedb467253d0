-- ===== src/Backends/Cuda/Search.antt =====
-- `cuda_search` (src/backends/backend_cuda.cu): a kernel for each object, one behind the other.
use mpi_local_lab.Base.{
  ℕ, ◌*◌, ◌/◌, ◌%◌, ◌≤◌, ◌≡◌, true, false, List, [], ◌∷◌, ◌++◌, some, length, get_elem?, take, drop,
  if◌then◌else◌,
}
use mpi_local_lab.Base.Int.{ℤ, pos, pos_part, ◌+ℤ◌, ◌-ℤ◌, ◌*ℤ◌, eqb_ℤ}
use mpi_local_lab.Base.Machine.{size_t}
use mpi_local_lab.Floating.{Floating}
use mpi_local_lab.Types.{
  err_backend, Picture, Object, Match, match_none, cuda_failed, Result, done, err,
}
use mpi_local_lab.Problem.{placement_count}
use mpi_local_lab.Backends.{match_at}
use mpi_local_lab.Backends.OpenMp.{no_placement, test}
use mpi_local_lab.Backends.Cuda.{
  earlier_object_matched, Kernel, KernelRun, IsReturned, blocks_per_sm, threads_of,
}
use mpi_local_lab.Backends.Cuda.Create.{CudaContext}

-- What a kernel reads through `d_object`: the `m * m` elements at the offset. A read behind them
-- is a fault here.
unfoldable pub on_device : (d_objects : List ℤ) → (offset : ℕ) → Object → Object
on_device d_objects offset o = record o {
  elems = some (take (size_t o.m * size_t o.m) (drop offset d_objects));
}

-- What a kernel reads through `d_picture`, where the host has these cells.
unfoldable pub uploaded : Picture → (cells : List ℤ) → Picture
uploaded p cells = record p { elems = some (take (size_t p.n * size_t p.n) cells) }

-- A kernel may leave this value in its entry of `d_results`.
pub record KernelEnd (F : Floating) (threshold zero_eps : F.Double) (picture : Picture)
    (object : Object) (placements span : ℤ) (threads : ℕ) (earlier : List ℤ) (best : ℤ)
    : Type 0 where
  pub steps : ℕ
  pub last : Kernel
  pub run :
      KernelRun
        (test F threshold zero_eps picture object span)
        (pos_part placements)
        threads
        (earlier_object_matched earlier)
        steps
        last
  pub ended : IsReturned threads last
  pub result : best ≡ last.best

-- The kernels of the objects that are left, in the order of the stream: what they leave in their
-- entries of `d_results`, behind the entries of the objects before.
pub data Queue {F : Floating} (ctx : CudaContext F) (picture : Picture)
    : (earlier : List ℤ) → List Object → List ℤ → Type 0 where
  none_left : {earlier : List ℤ} → Queue ctx picture earlier [] []
  no_room :
      {earlier : List ℤ} {object : Object} {objects : List Object} {results : List ℤ}
      → eqb_ℤ (placement_count picture.n object.m) (pos 0) ≡ true
      → Queue ctx picture (earlier ++ no_placement ∷ []) objects results
      → Queue ctx picture earlier (object ∷ objects) (no_placement ∷ results)
  kernel :
      {earlier : List ℤ} {object : Object} {objects : List Object} {results : List ℤ} {offset : ℕ}
      {best : ℤ}
      → eqb_ℤ (placement_count picture.n object.m) (pos 0) ≡ false
      → get_elem? ctx.obj_offset (length earlier) ≡ some offset
      → KernelEnd F ctx.problem.threshold ctx.zero_eps picture
          (on_device ctx.d_objects offset object)
          (placement_count picture.n object.m)
          (picture.n -ℤ object.m +ℤ pos 1)
          (threads_of
            (pos_part (placement_count picture.n object.m))
            (ctx.sm_count *ℤ pos blocks_per_sm))
          earlier
          best
      → Queue ctx picture (earlier ++ best ∷ []) objects results
      → Queue ctx picture earlier (object ∷ objects) (best ∷ results)

-- The scan of `h_results`.
unfoldable pub first_hit : Picture → List Object → List ℤ → Match
first_hit picture [] results = match_none picture.id
first_hit picture (object ∷ objects) [] = match_none picture.id
first_hit picture (object ∷ objects) (result ∷ results) =
    let rest = first_hit picture objects results in
    if eqb_ℤ result no_placement
    then rest
    else let span = pos_part (picture.n -ℤ object.m +ℤ pos 1) in
      match_at picture object (pos (pos_part result / span)) (pos (pos_part result % span))

-- `cuda_search` may end like this. The picture must fit the staging buffer that the context has.
pub data CudaSearch {F : Floating} (ctx : CudaContext F) (picture : Picture)
    : Result Match → Type 0 where
  no_objects :
      ctx.problem.num_objects ≡ pos 0 → CudaSearch ctx picture (done (match_none picture.id))
  call_failed :
      eqb_ℤ ctx.problem.num_objects (pos 0) ≡ false
      → CudaSearch ctx picture (err err_backend cuda_failed)
  synchronised :
      {cells results : List ℤ}
      → eqb_ℤ ctx.problem.num_objects (pos 0) ≡ false
      → picture.elems ≡ some cells
      → size_t picture.n * size_t picture.n ≤ length cells
      → size_t picture.n * size_t picture.n ≤ ctx.picture_capacity
      → Queue ctx (uploaded picture cells) [] ctx.problem.objects results
      → CudaSearch ctx picture (done (first_hit picture ctx.problem.objects results))
