-- ===== src/Backends/Cuda/Ready.antt =====
-- What `cuda_create` (src/backends/backend_cuda.cu) leaves for the searches.
use mathlib.Core.Path.{subst}
use mathlib.Core.Option.{some-injective}
use mpi_local_lab.Base.{
  ℕ, ◌%◌, ◌*◌, ◌^◌, ◌<◌, ◌≡◌, refl, sym, ◌∙◌, arith, Bool, true, false, List, [], ◌∷◌, ◌⊎◌, inl,
  inr, Option, some, length, leb, Bool-cases, Option-cases,
}
use mpi_local_lab.Base.Int.{ℤ, pos, negsuc, ltb_ℤ, leb_ℤ, ◌≤ℤ◌}
use mpi_local_lab.Config.{Config}
use mpi_local_lab.Floating.{Floating}
use mpi_local_lab.Types.{
  Status, err_backend, err_invalid, err_nomem, err_unavailable, cuda_failed, no_cuda_device,
  device_not_visible, cannot_allocate_offsets, Message, done-injective, Object, Problem, Result,
  done, err,
}
use mpi_local_lab.Problem.{max_picture_elems}
use mpi_local_lab.Problem.Validate.Valid.{IsValid}
use mpi_local_lab.Backends.Cuda.Create.{
  CudaContext, CudaCalls, remainder, chosen_device, total_object_elems, checked, create_objects,
  create_on, sizeof_int, cuda_create,
}
use mpi_local_lab.Backends.Cuda.Packed.{sum_elems, AllStand, upload-Packs}

-- An operation returns an error, or what `Q` says.
abbrev Ends {ℓ} : {A : Type ℓ} → (Q : A → Type 0) → Option (Result A) → Type ℓ
Ends {A = A} Q o =
    ((s : Status) × (m : Message) × (o ≡ some (err s m))) ⊎ ((a : A) × (o ≡ some (done a)) × Q a)

Ends-checked {ℓ} :
    {A : Type ℓ} (Q : A → Type 0) (success : Bool) (rest : Option (Result A))
    → Ends Q rest
    → Ends Q (checked success rest)
Ends-checked Q true rest h = h
Ends-checked Q false rest h = inl (err_backend, cuda_failed, refl)

total_object_elems-small :
    (os : List Object) → sum_elems os < 2 ^ 64 → total_object_elems os ≡ sum_elems os
unfolding total_object_elems sum_elems
total_object_elems-small [] small = refl
total_object_elems-small (o ∷ os) small =
    let rest = total_object_elems-small os (omega (arith, small)) in rw rest (omega (arith, small))

AllStand-none :
    (os : List Object) (num : ℤ) (offsets : List ℕ) (memory : List ℤ)
    → num ≡ pos (length os)
    → ltb_ℤ (pos 0) num ≡ false
    → AllStand os offsets memory
AllStand-none [] num offsets memory counted none_left i object at = absurd (ground (arith, at))
AllStand-none (o ∷ os) num offsets memory counted none_left i object at =
    absurd (ground (arith, counted, none_left))

remainder-pos : (a b : ℤ) → pos 0 ≤ℤ a → pos 0 ≤ℤ remainder a b
unfolding remainder
remainder-pos (pos k) b h = omega arith
remainder-pos (negsuc k) b h = absurd (omega (arith, h))

chosen_device-pos :
    {F : Floating} (config : Config F) (count : ℤ)
    → pos 0 ≤ℤ config.node_rank
    → pos 0 ≤ℤ chosen_device config count
unfolding chosen_device
chosen_device-pos config count h = elim (Bool-cases (leb_ℤ (pos 0) config.device)) [
  | inl named ↦ rw named (ground (arith, named))
  | inr derived ↦ rw derived (remainder-pos config.node_rank count h)
]

-- The context serves searches of this problem.
pub record IsReady {F : Floating} (problem : Problem F) (config : Config F) (ctx : CudaContext F)
    : Type 0 where
  pub problem_is : ctx.problem ≡ problem
  pub eps_is : ctx.zero_eps ≡ config.zero_eps
  pub stands : AllStand problem.objects ctx.obj_offset ctx.d_objects
  pub capacity_is : ctx.picture_capacity ≡ max_picture_elems problem

module _ {F : Floating} (calls : CudaCalls) (problem : Problem F) (config : Config F)
    (valid : IsValid problem) (small : sum_elems problem.objects < 2 ^ 62) where
  create_objects-Ends :
      Ends (λ packed. AllStand problem.objects packed.0 packed.1) (create_objects calls problem)
  unfolding create_objects
  create_objects-Ends = elim (Bool-cases (ltb_ℤ (pos 0) problem.num_objects)) [
    | inr empty ↦ inr (
      ([], []),
      rw empty refl,
      AllStand-none problem.objects problem.num_objects [] [] valid.objects_counted empty,
    )
    | inl some_objects ↦ elim (Bool-cases calls.calloc_offsets) [
      | inr refused ↦ inl (err_nomem, cannot_allocate_offsets, rw (some_objects, refused) refl)
      | inl given ↦
          elim (Option-cases
            (calls.malloc_objects (total_object_elems problem.objects * sizeof_int % 2 ^ 64))) [
              | inl refused ↦ inl (err_backend, cuda_failed, rw (some_objects, given, refused) refl)
              | inr (memory, got) ↦
                  let len = calls.malloc_objects_lem _ memory got in
                  let total = total_object_elems-small problem.objects (omega (arith, small)) in
                  elim (upload-Packs calls.copy_object 0 problem.objects [] memory valid.all_objects
                    (omega (arith, small)) (omega (arith, len, total))) [
                      | inl lost ↦
                          inl (err_backend, cuda_failed, rw (some_objects, given, got, lost) refl)
                      | inr (offsets, tail, run, stands) ↦
                          rw (some_objects, given, got, run)
                            (Ends-checked _ calls.malloc_results _ (
                              Ends-checked _ calls.malloc_host_results _
                                (inr ((offsets, tail), refl, stands))))
                    ]
            ]
    ]
  ]

  create_on-Ends :
      (device : ℤ)
      → Ends
          (λ ctx. IsReady problem config ctx × (ctx.device ≡ device))
          (create_on calls problem config.zero_eps device)
  unfolding create_on
  create_on-Ends device = elim (Bool-cases (calls.set_device device)) [
    | inr lost ↦ inl (err_backend, cuda_failed, rw lost refl)
    | inl set ↦ elim (Option-cases (calls.multi_processor_count device)) [
      | inl lost ↦ inl (err_backend, cuda_failed, rw (set, lost) refl)
      | inr (sm_count, got) ↦
          rw (set, got)
            (Ends-checked _ calls.stream_create _ (elim create_objects-Ends [
              | inl (s, m, failed) ↦ inl (s, m, rw failed refl)
              | inr ((offsets, memory), run, stands) ↦
                  let ctx : CudaContext F = record {
                    problem = problem;
                    zero_eps = config.zero_eps;
                    device = device;
                    sm_count = sm_count;
                    d_objects = memory;
                    obj_offset = offsets;
                    picture_capacity = max_picture_elems problem;
                  } in
                  let ready : Ends (λ ctx. IsReady problem config ctx × (ctx.device ≡ device))
                      (some (done ctx)) =
                    inr (
                      ctx,
                      refl,
                      (
                        record {
                          problem_is = refl;
                          eps_is = refl;
                          stands = stands;
                          capacity_is = refl;
                        },
                        refl,
                      ),
                    ) in
                  elim (Bool-cases (leb (max_picture_elems problem) 0)) [
                    | inl none_needed ↦ rw (run, none_needed) ready
                    | inr needed ↦
                        rw (run, needed)
                          (Ends-checked _ calls.malloc_picture _
                            (Ends-checked _ calls.malloc_host_picture _ ready))
                  ]
            ]))
    ]
  ]

  -- For a valid problem whose objects have fewer than 2^62 elements, `cuda_create` returns an error or a context that is ready for it, on a
  -- device that is visible, where the rank on the node is not negative.
  pub cuda_create-Ends :
      pos 0 ≤ℤ config.node_rank
      → Ends
          (λ ctx.
            IsReady problem config ctx
            × (pos 0 ≤ℤ ctx.device)
            × ((count : ℤ) → calls.device_count ≡ some count → ltb_ℤ ctx.device count ≡ true))
          (cuda_create calls problem config)
  unfolding cuda_create
  cuda_create-Ends rank_pos = elim (Bool-cases calls.calloc_context) [
    | inr refused ↦ inl (err_nomem, Message.cannot_allocate_context, rw refused refl)
    | inl given ↦ elim (Option-cases calls.device_count) [
      | inl lost ↦ inl (err_backend, cuda_failed, rw (given, lost) refl)
      | inr (count, got) ↦ elim (Bool-cases (leb_ℤ count (pos 0))) [
        | inl no_device ↦ inl (err_unavailable, no_cuda_device, rw (given, got, no_device) refl)
        | inr devices ↦ elim (Bool-cases (leb_ℤ count (chosen_device config count))) [
          | inl invisible ↦ inl (
            err_invalid,
            device_not_visible (chosen_device config count) count,
            rw (given, got, devices, invisible) refl,
          )
          | inr visible ↦ elim (create_on-Ends (chosen_device config count)) [
            | inl (s, m, failed) ↦ inl (s, m, rw (given, got, devices, visible, failed) refl)
            | inr (ctx, run, (ready, device_is)) ↦ inr (
              ctx,
              rw (given, got, devices, visible, run) refl,
              (
                ready,
                subst (λ d. pos 0 ≤ℤ d) (sym device_is) (chosen_device-pos config count rank_pos),
                λ count' e.
                    let same : count ≡ count' = some-injective _ _ (sym got ∙ e) in
                    ground (arith, same, visible, device_is),
              ),
            )
          ]
        ]
      ]
    ]
  ]

  pub cuda_create-IsReady :
      (ctx : CudaContext F)
      → pos 0 ≤ℤ config.node_rank
      → cuda_create calls problem config ≡ some (done ctx)
      → IsReady problem config ctx
  cuda_create-IsReady ctx rank_pos made = elim (cuda_create-Ends rank_pos) [
    | inl (s, m, failed) ↦ absurd (cc (made, failed))
    | inr (ctx', run, (ready, low, visible)) ↦
        let same : ctx' ≡ ctx = done-injective (some-injective _ _ (sym run ∙ made)) in
        subst (IsReady problem config) same ready
  ]
