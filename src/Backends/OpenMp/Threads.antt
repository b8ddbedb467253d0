-- ===== src/Backends/OpenMp/Threads.antt =====
-- `openmp_create` (src/backends/backend_openmp.c) and the number of threads that it chooses.
use mpi_local_lab.Base.{
  ℕ, ◌*◌, ◌/◌, ◌≤◌, ◌<◌, ◌≡◌, refl, arith, Bool, false, ◌⊎◌, inl, inr, if◌then◌else◌, Bool-cases,
}
use mpi_local_lab.Base.Int.{ℤ, pos, pos_part, ltb_ℤ, ◌≤ℤ◌}
use mpi_local_lab.Config.{Config}
use mpi_local_lab.Floating.{Floating}
use mpi_local_lab.Types.{err_nomem, Problem, Message, Result, done, err}
use mpi_local_lab.Backends.{Context}
use mpi_local_lab.Backends.OpenMp.{resolve_thread_count}

pub record OpenMpContext (F : Floating) : Type 0 where
  pub context : Context F
  pub threads : ℤ

-- `calloc` is the answer of the allocator; the others as in `resolve_thread_count`.
unfoldable pub openmp_create :
    {F : Floating}
    → (calloc env_set : Bool) → (max_threads : ℤ) → Problem F
    → Config F
    → Result (OpenMpContext F)
unfolding resolve_thread_count
openmp_create calloc env_set max_threads problem config =
    if calloc
    then done (record {
      context = record { problem = problem; zero_eps = config.zero_eps };
      threads = resolve_thread_count env_set max_threads config;
    })
    else err err_nomem Message.cannot_allocate_context

quotient-le : (a b : ℕ) → a / b * b ≤ a
quotient-le a b = grind arith

-- The share of `divisor` ranks, of which `ranks` are there.
share-cases :
    (cores divisor ranks : ℕ)
    → 0 < divisor
    → ranks ≤ divisor
    → (pos 1 ≤ℤ (if ltb_ℤ (pos 0) (pos (cores / divisor)) then pos (cores / divisor) else pos 1))
      × (false ≡ false
          → false ≡ false
          → (pos_part
                  (if ltb_ℤ (pos 0) (pos (cores / divisor)) then pos (cores / divisor) else pos 1)
                * ranks
              ≤ cores)
            ⊎ ((if ltb_ℤ (pos 0) (pos (cores / divisor)) then pos (cores / divisor) else pos 1)
                ≡ pos 1))
share-cases cores divisor ranks some_ranks few =
    elim (Bool-cases (ltb_ℤ (pos 0) (pos (cores / divisor)))) [
      | inl whole ↦ rw whole (
        ground (arith, whole),
        λ _ _.
            let le = mul_mono_right (cores / divisor) ranks divisor few in
            inl (omega (arith, le, quotient-le cores divisor)),
      )
      | inr none_left ↦ rw none_left (ground arith, λ _ _. inr refl)
    ]
  where
    mul_mono_right : (a m n : ℕ) → m ≤ n → a * m ≤ a * n
    mul_mono_right a m n h = grind arith

-- There is at least one thread, on a node with a core; and unless the user has named a number or
-- OMP_NUM_THREADS is set, the ranks that share the node have no more threads together than it has, or one each.
pub resolve_thread_count-shares :
    {F : Floating} (env_set : Bool) (cores : ℕ) (config : Config F)
    → 0 < cores
    → (pos 1 ≤ℤ resolve_thread_count env_set (pos cores) config)
      × (ltb_ℤ (pos 0) config.threads ≡ false
          → env_set ≡ false
          → (pos_part (resolve_thread_count env_set (pos cores) config) * pos_part config.node_ranks
              ≤ cores)
            ⊎ (resolve_thread_count env_set (pos cores) config ≡ pos 1))
unfolding resolve_thread_count
resolve_thread_count-shares env_set cores config some_cores =
    elim (Bool-cases (ltb_ℤ (pos 0) config.threads)) [
      | inl named ↦ (rw named (ground (arith, named)), λ derived. absurd (cc (named, derived)))
      | inr derived ↦ elim (Bool-cases env_set) [
        | inl set ↦
            (rw (derived, set) (ground (arith, some_cores)), λ d unset. absurd (cc (set, unset)))
        | inr unset ↦ elim (Bool-cases (ltb_ℤ (pos 0) config.node_ranks)) [
          | inl shared ↦
              rw (derived, unset, shared)
                (share-cases cores (pos_part config.node_ranks) (pos_part config.node_ranks)
                  (ground (arith, shared)) (ground arith))
          | inr alone ↦
              rw (derived, unset, alone)
                (share-cases cores 1 (pos_part config.node_ranks) (ground arith)
                  (ground (arith, alone)))
        ]
      ]
    ]
