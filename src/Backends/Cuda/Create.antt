-- ===== src/Backends/Cuda/Create.antt =====
-- `cuda_create` (src/backends/backend_cuda.cu).
use mpi_local_lab.Base.{
  ℕ, ◌+◌, ◌*◌, ◌/◌, ◌%◌, ◌^◌, ◌≡◌, Bool, false, not, List, [], ◌∷◌, ◌++◌, Option, none, some, ◌>>=◌,
  length, take, drop, leb, if◌then◌else◌,
}
use mpi_local_lab.Base.Int.{ℤ, pos, negsuc, pos_part, ◌-ℤ◌, ltb_ℤ, leb_ℤ}
use mpi_local_lab.Base.Machine.{size_t}
use mpi_local_lab.Config.{Config}
use mpi_local_lab.Floating.{Floating}
use mpi_local_lab.Types.{
  err_nomem, err_invalid, err_backend, err_unavailable, Object, Problem, Message, cuda_failed,
  no_cuda_device, device_not_visible, cannot_allocate_offsets, Result, done, err,
}
use mpi_local_lab.Problem.{Malloc, max_picture_elems}

-- `sizeof(int)`
abbrev pub sizeof_int : ℕ
sizeof_int = 4

pub record CudaContext (F : Floating) : Type 0 where
  pub problem : Problem F
  pub zero_eps : F.Double
  pub device : ℤ
  pub sm_count : ℤ
  pub d_objects : List ℤ  -- what the device holds of every object, back to back
  pub obj_offset : List ℕ
  pub picture_capacity : ℕ

-- The answers of the CUDA runtime and of the allocator in `cuda_create`; `false` and `none` for a
-- failure. Memory that `cudaMalloc` gives has the bytes that were asked for.
pub record CudaCalls : Type 0 where
  pub calloc_context : Bool
  pub device_count : Option ℤ
  pub set_device : ℤ → Bool
  pub multi_processor_count : ℤ → Option ℤ
  pub stream_create : Bool
  pub calloc_offsets : Bool
  pub malloc_objects : Malloc
  pub copy_object : ℕ → Bool
  pub malloc_results : Bool
  pub malloc_host_results : Bool
  pub malloc_picture : Bool
  pub malloc_host_picture : Bool
  pub malloc_objects_lem :
      (bytes : ℕ) (memory : List ℤ)
      → malloc_objects bytes ≡ some memory
      → length memory ≡ bytes / sizeof_int

-- By the answer of cudaGetDeviceCount, `none` for an error.
unfoldable pub cuda_available : (device_count : Option ℤ) → Bool
cuda_available none = false
cuda_available (some count) = ltb_ℤ (pos 0) count

-- The remainder of C by a positive int.
unfoldable pub remainder : (a b : ℤ) → ℤ
remainder (pos k) b = pos (k % pos_part b)
remainder (negsuc k) b = pos 0 -ℤ pos ((k + 1) % pos_part b)

-- One rank per GPU, unless the user named a device.
unfoldable pub chosen_device : {F : Floating} → Config F → (device_count : ℤ) → ℤ
unfolding remainder
chosen_device config device_count =
    if leb_ℤ (pos 0) config.device then config.device else remainder config.node_rank device_count

-- cudaMemcpy to `memory + offset` of the first `elems` of `cells`; `none` is out of bounds.
unfoldable pub copy_to : (memory : List ℤ) → (offset elems : ℕ) → (cells : List ℤ) → Option (List ℤ)
copy_to memory offset elems cells =
    if leb elems (length cells)
    then if leb (offset + elems) (length memory)
      then some (take offset memory ++ take elems cells ++ drop (offset + elems) memory)
      else none
    else none

unfoldable pub total_object_elems : List Object → ℕ
total_object_elems [] = 0
total_object_elems (o ∷ os) = (size_t o.m * size_t o.m + total_object_elems os) % 2 ^ 64

-- The loop that uploads the objects from the `k`th on: the offsets, and what the device holds.
unfoldable pub upload :
    (copy_object : ℕ → Bool)
    → (k : ℕ) → List Object
    → (offset : ℕ) → (memory : List ℤ) → Option (Result (List ℕ × List ℤ))
unfolding copy_to
upload copy_object k [] offset memory = some (done ([], memory))
upload copy_object k (o ∷ os) offset memory =
    let elems = size_t o.m * size_t o.m in
    if not (copy_object k) then some (err err_backend cuda_failed) else do
      cells ← o.elems
      memory' ← copy_to memory offset elems cells
      rest ← upload copy_object (k + 1) os ((offset + elems) % 2 ^ 64) memory'
      elim rest [
        | err s e ↦ some (err s e)
        | done (offsets, final) ↦ some (done (offset ∷ offsets, final))
      ]

-- What a failed call of the CUDA runtime makes of the rest.
abbrev pub checked {ℓ} : {A : Type ℓ} → Bool → Option (Result A) → Option (Result A)
checked success rest = if success then rest else some (err err_backend cuda_failed)

module _ {F : Floating} (calls : CudaCalls) where
  -- The objects on the device, with their offsets; a problem without objects needs no memory.
  unfoldable pub create_objects : Problem F → Option (Result (List ℕ × List ℤ))
  unfolding upload total_object_elems
  create_objects problem =
      if not (ltb_ℤ (pos 0) problem.num_objects)
      then some (done ([], []))
      else if not calls.calloc_offsets
      then some (err err_nomem cannot_allocate_offsets)
      else elim (calls.malloc_objects (total_object_elems problem.objects * sizeof_int % 2 ^ 64)) [
        | none ↦ some (err err_backend cuda_failed)
        | some memory ↦ do
          uploaded ← upload calls.copy_object 0 problem.objects 0 memory
          elim uploaded [
            | err s e ↦ some (err s e)
            | done packed ↦
                checked calls.malloc_results
                  (checked calls.malloc_host_results (some (done packed)))
          ]
      ]

  -- Behind the choice of the device.
  unfoldable pub create_on :
      Problem F → (zero_eps : F.Double) → (device : ℤ) → Option (Result (CudaContext F))
  unfolding create_objects max_picture_elems
  create_on problem zero_eps device =
      if not (calls.set_device device)
      then some (err err_backend cuda_failed)
      else elim (calls.multi_processor_count device) [
        | none ↦ some (err err_backend cuda_failed)
        | some sm_count ↦ checked calls.stream_create (do
          objects ← create_objects problem
          elim objects [
            | err s e ↦ some (err s e)
            | done (offsets, memory) ↦
                let capacity = max_picture_elems problem in
                let ctx : CudaContext F = record {
                  problem = problem;
                  zero_eps = zero_eps;
                  device = device;
                  sm_count = sm_count;
                  d_objects = memory;
                  obj_offset = offsets;
                  picture_capacity = capacity;
                } in
                if leb capacity 0
                then some (done ctx)
                else checked calls.malloc_picture
                    (checked calls.malloc_host_picture (some (done ctx)))
          ])
      ]

  unfoldable pub cuda_create : Problem F → Config F → Option (Result (CudaContext F))
  unfolding create_on chosen_device
  cuda_create problem config =
      if not calls.calloc_context
      then some (err err_nomem Message.cannot_allocate_context)
      else elim calls.device_count [
        | none ↦ some (err err_backend cuda_failed)
        | some device_count ↦
            if leb_ℤ device_count (pos 0)
            then some (err err_unavailable no_cuda_device)
            else let device = chosen_device config device_count in
              if leb_ℤ device_count device
              then some (err err_invalid (device_not_visible device device_count))
              else create_on problem config.zero_eps device
      ]
