-- ===== src/Registry.antt =====
-- include/msearch/backend.h and src/backends/registry.c: the backends of a build.
pub mod Choice
pub mod Agreement
use mpi_local_lab.Base.{
  ℕ, ◌≡◌, ◌≢◌, Bool, true, List, [], ◌∷◌, ◌++◌, Option, none, some, if◌then◌else◌,
}
use mpi_local_lab.Base.Int.{ℤ}
use mpi_local_lab.Config.{Text, Config}
use mpi_local_lab.Floating.{Floating}
use mpi_local_lab.Types.{Status, ok, Picture, Problem, Match, Message, Result, done, err}
use mpi_local_lab.Writer.{codes}
use mpi_local_lab.Options.Flags.{same}
use mpi_local_lab.Backends.{Context}
use mpi_local_lab.Backends.Serial
use mpi_local_lab.Backends.OpenMp.Threads.{OpenMpContext, openmp_create}
use mpi_local_lab.Backends.Cuda.Create.{CudaContext, CudaCalls, cuda_create, cuda_available}
use mpi_local_lab.Backends.Cuda.Search.{CudaSearch}
use mpi_local_lab.Runtime.{Backend}
use mpi_local_lab.Runtime.Local.{Loop}
use mpi_local_lab.Determinism.{serial_backend, openmp_backend}

-- `MatchBackend`, with the type that `ctx` points to: what `create` and `search` may return.
pub record MatchBackend (F : Floating) : Type 1 where
  pub Ctx : Type 0
  pub name : Text
  pub available : Bool
  pub create : Problem F → Config F → Result Ctx → Type 0
  pub search : Ctx → Backend

-- What the allocator and the runtimes answer is left open.
abbrev pub SerialCreate : {F : Floating} → Problem F → Config F → Result (Context F) → Type 0
SerialCreate problem config result =
    (calloc : Bool) × (Serial.create calloc problem config.zero_eps ≡ result)

abbrev pub OpenmpCreate : {F : Floating} → Problem F → Config F → Result (OpenMpContext F) → Type 0
OpenmpCreate problem config result =
    (calloc : Bool) × (env_set : Bool) × (max_threads : ℤ) × (openmp_create calloc env_set
        max_threads problem config
      ≡ result)

abbrev pub CudaCreate : {F : Floating} → Problem F → Config F → Result (CudaContext F) → Type 0
CudaCreate problem config result =
    (calls : CudaCalls) × (cuda_create calls problem config ≡ some result)

abbrev pub serial_name : Text
serial_name = codes "serial"

abbrev pub serial : {F : Floating} → MatchBackend F
serial {F} = record {
  Ctx = Context F;
  name = serial_name;
  available = Serial.available;
  create = SerialCreate;
  search = serial_backend;
}

abbrev pub openmp : {F : Floating} → MatchBackend F
openmp {F} = record {
  Ctx = OpenMpContext F;
  name = codes "openmp";
  available = true;
  create = OpenmpCreate;
  search = λ ctx. openmp_backend ctx.context;
}

-- `device_count` is the answer of the CUDA runtime, `none` for an error.
abbrev pub cuda : {F : Floating} → (device_count : Option ℤ) → MatchBackend F
cuda {F} device_count = record {
  Ctx = CudaContext F;
  name = codes "cuda";
  available = cuda_available device_count;
  create = CudaCreate;
  search = λ ctx. CudaSearch ctx;
}

-- `kBackends`, by what the binary has been built with.
unfoldable pub backends :
    {F : Floating}
    → (have_cuda have_openmp : Bool) → (device_count : Option ℤ) → List (MatchBackend F)
backends have_cuda have_openmp device_count =
    (if have_cuda then cuda device_count ∷ [] else [])
    ++ (if have_openmp then openmp ∷ [] else [])
    ++ (serial ∷ [])

-- `msearch_backend_find`
unfoldable pub backend_find :
    {F : Floating} → List (MatchBackend F) → (name : Text) → Option (MatchBackend F)
unfolding same
backend_find [] name = none
backend_find (backend ∷ rest) name =
    let later = backend_find rest name in if same backend.name name then some backend else later

-- `msearch_backend_auto`
unfoldable pub backend_auto : {F : Floating} → List (MatchBackend F) → MatchBackend F
backend_auto [] = serial
backend_auto (backend ∷ rest) =
    let later = backend_auto rest in if backend.available then backend else later

-- `msearch_run_local`: the entries of `matches` that it fills, and what it returns.
pub data RunLocal {F : Floating} (problem : Problem F) (backend : MatchBackend F)
    (config : Config F) : List Match → Status → Type 0 where
  not_created :
      {s : Status} {m : Message}
      → s ≢ ok
      → backend.create problem config (err s m)
      → RunLocal problem backend config [] s
  ran :
      {ctx : backend.Ctx} {matches : List Match} {status : Status}
      → backend.create problem config (done ctx)
      → Loop (backend.search ctx) problem.pictures matches status
      → RunLocal problem backend config matches status
