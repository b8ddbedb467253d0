-- ===== src/Registry/Agreement.antt =====
-- Every backend of src/backends/registry.c leaves the matches of the serial backend.
use mathlib.Core.Path.{subst}
use mpi_local_lab.Base.{
  ℕ, suc, ◌<◌, ◌^◌, ◌≡◌, ◌≢◌, refl, sym, ap, ◌∙◌, Bool, true, false, List, [], ◌∷◌, Option, some,
  get_elem?, All,
}
use mpi_local_lab.Base.Int.{ℤ, pos, ◌≤ℤ◌}
use mpi_local_lab.Config.{Config}
use mpi_local_lab.Floating.{Floating, Ieee, fzero}
use mpi_local_lab.Types.{Status, ok, Picture, Problem, Match, Message, done, err, done-injective}
use mpi_local_lab.Problem.Validate.Valid.{IsValid}
use mpi_local_lab.Backends.{Context}
use mpi_local_lab.Backends.Serial
use mpi_local_lab.Backends.OpenMp.Threads.{OpenMpContext, openmp_create}
use mpi_local_lab.Backends.Cuda.Packed.{sum_elems}
use mpi_local_lab.Backends.Cuda.Create.{CudaContext}
use mpi_local_lab.Backends.Cuda.Search.{CudaSearch, call_failed}
use mpi_local_lab.Backends.Cuda.Agreement.{CudaSearch-eq-serial}
use mpi_local_lab.Runtime.{Backend}
use mpi_local_lab.Runtime.Local.{Loop, none_left, searched, failed}
use mpi_local_lab.Determinism.{serial_backend, openmp_backend, Loop-wider, All-to_serial}
use mpi_local_lab.Registry.{
  MatchBackend, serial, openmp, cuda, backends, RunLocal, not_created, ran,
}

-- A loop that succeeds has only successful searches.
Loop_ok-wider :
    (a b : Backend) {pictures : List Picture} {matches : List Match} {s : Status}
    → ((p : Picture) (t : Status) (m : Message) → a p (err t m) → t ≢ ok)
    → All (λ p. (x : Match) → a p (done x) → b p (done x)) pictures
    → Loop a pictures matches s
    → s ≡ ok
    → Loop b pictures matches ok
Loop_ok-wider a b honest h none_left e = none_left
Loop_ok-wider a b honest h (searched may rest) e =
    searched (h.0 _ may) (Loop_ok-wider a b honest h.1 rest e)
Loop_ok-wider a b honest h (failed may) e = absurd (honest _ _ _ may e)

All-of_get_elem? {ℓ κ} :
    {A : Type ℓ} (P : A → Type κ) (xs : List A)
    → ((i : ℕ) (x : A) → get_elem? xs i ≡ some x → P x)
    → All P xs
All-of_get_elem? P [] h = tt
All-of_get_elem? P (x ∷ xs) h = (h 0 x refl, All-of_get_elem? P xs (λ i. h (suc i)))

module _ {F : Floating} (problem : Problem F) (config : Config F) (laws : Ieee F)
    (eps_pos : F.lt (fzero F) config.zero_eps ≡ true) (valid : IsValid problem)
    (few : sum_elems problem.objects < 2 ^ 62) (rank_pos : pos 0 ≤ℤ config.node_rank) where
  -- The context of the serial backend.
  abbrev pub reference : Context F
  reference = record { problem = problem; zero_eps = config.zero_eps }

  -- A run that succeeds has the matches of the serial backend.
  abbrev pub IsHonest : MatchBackend F → Type 0
  IsHonest b =
      (matches : List Match)
      → RunLocal problem b config matches ok
      → Loop (serial_backend reference) problem.pictures matches ok

  serial_context :
      (calloc : Bool) (ctx : Context F)
      → Serial.create calloc problem config.zero_eps ≡ done ctx
      → ctx ≡ reference
  unfolding Serial.create
  serial_context true ctx e = sym (done-injective e)
  serial_context false ctx e = cc

  openmp_context :
      (calloc env_set : Bool) (max_threads : ℤ) (ctx : OpenMpContext F)
      → openmp_create calloc env_set max_threads problem config ≡ done ctx
      → ctx.context ≡ reference
  unfolding openmp_create
  openmp_context true env_set max_threads ctx e =
      ap (λ (c : OpenMpContext F). c.context) (sym (done-injective e))
  openmp_context false env_set max_threads ctx e = cc

  pub serial-IsHonest : IsHonest serial
  serial-IsHonest matches (not_created ne created) = absurd (ne refl)
  serial-IsHonest matches (ran {ctx} (calloc, e) loop) =
      subst (λ c. Loop (serial_backend c) problem.pictures matches ok) (serial_context calloc ctx e)
        loop

  openmp-IsHonest : IsHonest openmp
  openmp-IsHonest matches (not_created ne created) = absurd (ne refl)
  openmp-IsHonest matches (ran {ctx} (calloc, env_set, max_threads, e) loop) =
      let same = openmp_context calloc env_set max_threads ctx e in
      Loop-wider (openmp_backend reference) (serial_backend reference)
        (All-to_serial reference laws eps_pos valid problem.pictures valid.all_pictures)
        (subst (λ c. Loop (openmp_backend c) problem.pictures matches ok) same loop)

  CudaSearch-fails :
      (ctx : CudaContext F) (p : Picture) (s : Status) (m : Message)
      → CudaSearch ctx p (err s m)
      → s ≢ ok
  CudaSearch-fails ctx p s m (call_failed some_objects) = λ e. cc

  cuda-IsHonest : (device_count : Option ℤ) → IsHonest (cuda device_count)
  cuda-IsHonest d matches (not_created ne created) = absurd (ne refl)
  cuda-IsHonest d matches (ran {ctx} (calls, made) loop) =
      Loop_ok-wider (λ p x. CudaSearch ctx p x) (serial_backend reference) (CudaSearch-fails ctx)
        (All-of_get_elem?
          (λ p. (x : Match) → CudaSearch ctx p (done x) → serial_backend reference p (done x))
          problem.pictures
          (λ i p at.
            let (match, found, run, same) =
              CudaSearch-eq-serial calls problem config ctx i p laws eps_pos valid few rank_pos made
                at in
            λ x may. found ∙ ap some (sym (same x may))))
        loop refl

  -- For a valid problem every backend of every build, run by `msearch_run_local` to success,
  -- leaves the matches that the serial backend leaves.
  pub backends-IsHonest :
      (have_cuda have_openmp : Bool) (device_count : Option ℤ)
      → All IsHonest (backends have_cuda have_openmp device_count)
  unfolding backends
  backends-IsHonest true true d = (cuda-IsHonest d, (openmp-IsHonest, (serial-IsHonest, tt)))
  backends-IsHonest true false d = (cuda-IsHonest d, (serial-IsHonest, tt))
  backends-IsHonest false true d = (openmp-IsHonest, (serial-IsHonest, tt))
  backends-IsHonest false false d = (serial-IsHonest, tt)
