-- ===== src/Backends/Cuda.antt =====
-- src/backends/backend_cuda.cu: the kernel of one object, with a thread per placement. A read and
-- an `atomicMin` of `*best` each are one step.
pub mod Least
pub mod Progress
pub mod Create
pub mod Packed
pub mod Ready
pub mod Search
pub mod Canonical
pub mod Agreement
use mpi_local_lab.Base.{
  ℕ, ◌+◌, ◌*◌, ◌-◌, ◌/◌, ◌<◌, ◌≤◌, ◌≡◌, Bool, true, false, List, [], ◌∷◌, Option, some,
  if◌then◌else◌, update,
}
use mpi_local_lab.Base.Int.{ℤ, pos, pos_part, ltb_ℤ, leb_ℤ, eqb_ℤ}
use mpi_local_lab.Base.Machine.{to_int}
use mpi_local_lab.Backends.OpenMp.{no_placement}

-- True if a lower-id object already matched: `results` holds the entries of those objects.
unfoldable pub earlier_object_matched : (results : List ℤ) → Bool
earlier_object_matched [] = false
earlier_object_matched (result ∷ results) =
    if eqb_ℤ result no_placement then earlier_object_matched results else true

-- Where a thread of the kernel stands, with the key of its loop.
pub data Thread : Type 0 where
  launched : Thread
  at_key : (key : ℕ) → Thread  -- at the head of the loop
  scoring : (key : ℕ) → Thread  -- behind the read of `*best`
  storing : (key : ℕ) → Thread  -- in front of `atomicMin`
  returned : Thread

-- `*best`, which the threads share, and the threads.
pub record Kernel : Type 0 where
  pub best : ℤ
  pub thread : ℕ → Thread

abbrev pub launch : Kernel
launch = record { best = no_placement; thread = λ _. launched }

abbrev pub move : Kernel → ℕ → Thread → Kernel
move s t place = record s { thread = update s.thread t place }

-- One step of thread `t`, where `t` is `blockIdx.x * blockDim.x + threadIdx.x` and `stride` the
-- number of threads. `test key` is `score < threshold`, and `none` for a fault.
pub data KernelStep (test : ℕ → Option Bool) (placements stride : ℕ) (earlier : Bool) (s : Kernel)
    : Kernel → Type 0 where
  leave :
      (t : ℕ)
      → t < stride
      → s.thread t ≡ launched
      → earlier ≡ true
      → KernelStep test placements stride earlier s (move s t returned)
  enter :
      (t : ℕ)
      → t < stride
      → s.thread t ≡ launched
      → earlier ≡ false
      → KernelStep test placements stride earlier s (move s t (at_key t))
  past_end :
      (t key : ℕ)
      → t < stride
      → s.thread t ≡ at_key key
      → placements ≤ key
      → KernelStep test placements stride earlier s (move s t returned)
  hopeless :
      (t key : ℕ)
      → t < stride
      → s.thread t ≡ at_key key
      → key < placements
      → leb_ℤ s.best (pos key) ≡ true
      → KernelStep test placements stride earlier s (move s t returned)
  look :
      (t key : ℕ)
      → t < stride
      → s.thread t ≡ at_key key
      → key < placements
      → leb_ℤ s.best (pos key) ≡ false
      → KernelStep test placements stride earlier s (move s t (scoring key))
  missed :
      (t key : ℕ)
      → t < stride
      → s.thread t ≡ scoring key
      → test key ≡ some false
      → KernelStep test placements stride earlier s (move s t (at_key (key + stride)))
  below :
      (t key : ℕ)
      → t < stride
      → s.thread t ≡ scoring key
      → test key ≡ some true
      → KernelStep test placements stride earlier s (move s t (storing key))
  atomic_min :
      (t key : ℕ)
      → t < stride
      → s.thread t ≡ storing key
      → KernelStep test placements stride earlier s (record {
        best = if ltb_ℤ (to_int key) s.best then to_int key else s.best;
        thread = update s.thread t (at_key (key + stride));
      })

-- `n` steps lead from the launch to a state.
pub data KernelRun (test : ℕ → Option Bool) (placements stride : ℕ) (earlier : Bool)
    : ℕ → Kernel → Type 0 where
  begun : KernelRun test placements stride earlier 0 launch
  stepped :
      {n : ℕ} {s t : Kernel}
      → KernelRun test placements stride earlier n s
      → KernelStep test placements stride earlier s t
      → KernelRun test placements stride earlier (n + 1) t

-- The kernel ends when every thread has returned.
abbrev pub IsReturned : (stride : ℕ) → Kernel → Type 0
IsReturned stride s = (t : ℕ) → t < stride → s.thread t ≡ returned

-- `MSEARCH_CUDA_BLOCK`, `MSEARCH_CUDA_BLOCKS_PER_SM`
abbrev pub block : ℕ
block = 256

abbrev pub blocks_per_sm : ℕ
blocks_per_sm = 32

-- The threads of a launch, `blocks * MSEARCH_CUDA_BLOCK`.
unfoldable pub threads_of : (placements : ℕ) → (max_blocks : ℤ) → ℕ
threads_of placements max_blocks =
    let want = pos ((placements + block - 1) / block) in
    let capped = if ltb_ℤ max_blocks want then max_blocks else want in
    pos_part (if ltb_ℤ (pos 0) capped then capped else pos 1) * block
