-- ===== src/Tests/Gpu.antt =====
-- The CUDA backend on a device whose calls all succeed, and its properties there.
use mathlib.Core.Option.{some-injective}
use mpi_local_lab.Base.{
  ◌/◌, length, ap, sym, ◌∙◌, ◌+◌, ◌*◌, ◌≤◌, ◌≡◌, refl, arith, true, false, [], ◌∷◌, some, replicate,
  length-replicate, ◌⊎◌,
}
use mpi_local_lab.Base.Int.{ℤ, pos, negsuc, ◌≤ℤ◌, ltb_ℤ}
use mpi_local_lab.Base.Machine.{size_t}
use mpi_local_lab.Config.{Config, log_info}
use mpi_local_lab.Types.{Status, Message, Match, done, err}
use mpi_local_lab.Problem.{max_picture_elems, max_elems}
use mpi_local_lab.Backends.Serial.{search}
use mpi_local_lab.Backends.Cuda.{
  Kernel, launch, move, KernelStep, enter, at_key, begun, stepped, IsReturned,
}
use mpi_local_lab.Backends.Cuda.Progress.{KernelRun-goes_on}
use mpi_local_lab.Backends.Cuda.Packed.{sum_elems}
use mpi_local_lab.Backends.Cuda.Ready.{IsReady, cuda_create-Ends}
use mpi_local_lab.Backends.Cuda.Create.{
  CudaCalls, CudaContext, copy_to, upload, total_object_elems, create_objects, create_on,
  chosen_device, remainder, cuda_create,
}
use mpi_local_lab.Backends.Cuda.Search.{CudaSearch}
use mpi_local_lab.Backends.Cuda.Agreement.{CudaSearch-eq-serial}
use mpi_local_lab.Tests.Fixed.{fixed, fixed-Ieee}
use mpi_local_lab.Tests.Search.{ctx, picture, eps_pos, sorted-IsValid}

abbrev calls : CudaCalls
calls = record {
  calloc_context = true;
  device_count = some (pos 2);
  set_device = λ device. true;
  multi_processor_count = λ device. some (pos 4);
  stream_create = true;
  calloc_offsets = true;
  malloc_objects = λ bytes. some (replicate (bytes / 4) (pos 0));
  copy_object = λ k. true;
  malloc_results = true;
  malloc_host_results = true;
  malloc_picture = true;
  malloc_host_picture = true;
  malloc_objects_lem = λ bytes memory e.
      ap length (sym (some-injective _ _ e)) ∙ length-replicate (bytes / 4) (pos 0);
}

abbrev config : Config fixed
config = record {
  input_path = [];
  output_path = [];
  backend_name = [];
  threads = pos 0;
  device = negsuc 0;
  node_rank = pos 5;
  node_ranks = pos 6;
  zero_eps = pos 1;
  bench_reps = pos 0;
  verify = false;
  log_level = log_info;
}

-- Rank 5 of its node takes the second of two devices.
abbrev gpu : CudaContext fixed
gpu = record {
  problem = ctx.problem;
  zero_eps = pos 1;
  device = pos 1;
  sm_count = pos 4;
  d_objects = pos 4 ∷ pos 5 ∷ pos 7 ∷ pos 8 ∷ pos 3 ∷ [];
  obj_offset = 0 ∷ 4 ∷ [];
  picture_capacity = 9;
}

cuda_create_runs : cuda_create calls ctx.problem config ≡ some (done gpu)
unfolding cuda_create create_on create_objects upload copy_to total_object_elems chosen_device
    remainder max_picture_elems max_elems size_t
cuda_create_runs = refl

few_elems : sum_elems ctx.problem.objects ≤ 5
unfolding sum_elems size_t
few_elems = omega arith

cuda_create-Ends_example :
    ((s : Status) × (m : Message) × (cuda_create calls ctx.problem config ≡ some (err s m)))
    ⊎ ((made : CudaContext fixed) × (cuda_create calls ctx.problem config ≡ some (done made))
        × (IsReady ctx.problem config made
            × (pos 0 ≤ℤ made.device)
            × ((count : ℤ) → some (pos 2) ≡ some count → ltb_ℤ made.device count ≡ true)))
cuda_create-Ends_example =
    cuda_create-Ends calls ctx.problem config sorted-IsValid (omega (arith, few_elems))
      (omega arith)

CudaSearch-eq-serial_example :
    (match : Match) × (search ctx picture ≡ some match)
    × CudaSearch gpu picture (done match)
    × ((out : Match) → CudaSearch gpu picture (done out) → out ≡ match)
CudaSearch-eq-serial_example =
    CudaSearch-eq-serial calls ctx.problem config gpu 0 picture fixed-Ieee eps_pos sorted-IsValid
      (omega (arith, few_elems)) (omega arith) cuda_create_runs refl

-- Two threads of which one has begun.
KernelRun-goes_on_example :
    (1 ≤ 2 * (3 * 3 + 2))
    × (IsReturned 2 (move launch 0 (at_key 0))
        ⊎ ((u : Kernel) × KernelStep (λ key. some true) 3 2 false (move launch 0 (at_key 0)) u))
KernelRun-goes_on_example =
    KernelRun-goes_on (λ key. some true) 3 2 false (omega arith) (λ key. true) (λ key lt. refl)
      (stepped begun (enter 0 (omega arith) refl refl))
