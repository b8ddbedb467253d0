-- ===== src/Runtime/Broadcast/Received/Whole.antt =====
-- `msearch_broadcast_problem` (src/runtime/runner_mpi.c): every rank ends with the root's problem.
use mathlib.Core.Path.{subst}
use mathlib.Core.Option.{some-injective}
use mpi_local_lab.Base.{
  ℕ, ◌+◌, ◌≡◌, refl, sym, ap, ◌∙◌, arith, ◌⊎◌, inl, inr, not, ◌&&◌, List, [], ◌∷◌, Option, some,
  length, replicate, length-replicate, All, Option-cases, Bool-cases,
}
use mpi_local_lab.Base.Int.{ℤ, pos, pos_part, ltb_ℤ, ◌≤ℤ◌, ◌+ℤ◌, ◌*ℤ◌}
use mpi_local_lab.Base.Machine.{size_t}
use mpi_local_lab.Floating.{Floating}
use mpi_local_lab.Types.{
  Status, err_backend, err_nomem, bcast_failed, cannot_allocate_shapes, Picture, Object, Problem,
  Kind, Message, Result, done, err,
}
use mpi_local_lab.Problem.{
  sort_objects_by_id, picture_alloc, object_alloc, problem_alloc, zero_picture, zero_object,
}
use mpi_local_lab.Problem.Validate.{problem_validate}
use mpi_local_lab.Problem.Validate.Valid.{
  IsMatrix, IsAllocated, IsValid, Sized, accepted, problem_validate_accepts,
}
use mpi_local_lab.Problem.Sort.Sorted.{sort_objects_by_id_in_order}
use mpi_local_lab.Reader.Matrix.Sized.{IsSizing}
use mpi_local_lab.Runtime.Broadcast.{
  unfilled_picture, unfilled_object, Broadcasts, Allocator, shapes_of, sent_of, picture_sent,
  object_sent, picture_data, object_data, picture_with, object_with, receive_objects,
  receive_pictures, receive_allocated, receive_shapes, receive_problem,
}
use mpi_local_lab.Runtime.Broadcast.Received.{Gets, Gets-cases, receive_all-Gets}
use mpi_local_lab.Runtime.Broadcast.Received.Matrices.{
  Refused, no_header, no_threshold, shapes_lost, no_pictures, no_objects, no_shapes,
  pictures-Describes, objects-Describes,
}

-- A matrix that can be searched has all elements of its side.
IsMatrix-Sized : {side : ℤ} {elems : Option (List ℤ)} → IsMatrix side elems → Sized side elems
unfolding size_t
IsMatrix-Sized w = rw (w.elems_is, w.side_is) w.size

All-implies {ℓ κ μ} :
    {A : Type ℓ} {P : A → Type κ} {Q : A → Type μ} (f : (a : A) → P a → Q a) (xs : List A)
    → All P xs
    → All Q xs
All-implies f [] h = tt
All-implies f (x ∷ xs) h = (f x h.0, All-implies f xs h.1)

pub IsValid-IsAllocated : {F : Floating} (p : Problem F) → IsValid p → IsAllocated p
IsValid-IsAllocated p v = record {
  pictures_counted = v.pictures_counted;
  objects_counted = v.objects_counted;
  pictures_sized = All-implies (λ (x : Picture) h. IsMatrix-Sized h.0) p.pictures v.all_pictures;
  objects_sized = All-implies (λ (x : Object) h. IsMatrix-Sized h) p.objects v.all_objects;
}

-- The validation accepts a valid problem and leaves it as it is.
problem_validate_again :
    {F : Floating} (p : Problem F)
    → IsValid p
    → (warned : List Object) × (problem_validate p ≡ some (done (p, warned)))
problem_validate_again p v =
    let (p', warned, passed) =
      problem_validate_accepts p (IsValid-IsAllocated p v) v.threshold_pos v.all_pictures
        v.all_objects in
    let a = accepted p p' warned passed in
    let sorted : sort_objects_by_id p.objects p.num_objects ≡ some p.objects =
      rw v.objects_counted (sort_objects_by_id_in_order p.objects v.in_order) in
    let same : p' ≡ p =
      a.rest_kept
      ∙ ap (λ os. record p { objects = os }) (some-injective _ _ (sym a.sorts ∙ sorted)) in
    (warned, passed ∙ ap (λ q. some (done (q, warned))) same)

module _ {F : Floating} (mpi : Broadcasts F) (alloc : Allocator) (root : Problem F)
    (valid : IsValid root) (small : All (λ (o : Object). o.m ≤ℤ pos 46340) root.objects)
    (sized_pictures : (i : ℕ) → IsSizing (alloc.malloc_picture i))
    (sized_objects : (i : ℕ) → IsSizing (alloc.malloc_object i)) where
  abbrev Receives : Option (Problem F × Result (Unit {0})) → Type 0
  Receives = Gets (Refused mpi alloc root) root

  counted_pictures : pos_part root.num_pictures ≡ length root.pictures
  counted_pictures = ap pos_part valid.pictures_counted

  counted_objects : pos_part root.num_objects ≡ length root.objects
  counted_objects = ap pos_part valid.objects_counted

  receive_objects-Gets :
      (slots : List Object)
      → length slots ≡ length root.objects
      → Receives (
          receive_objects mpi alloc root root.num_pictures root.num_objects
            (shapes_of root)
            (record root { objects = slots }))
  unfolding receive_objects
  receive_objects-Gets slots len =
      let (warned, validated) = problem_validate_again root valid in
      let rounds =
        receive_all-Gets object_alloc unfilled_object object_data object_with alloc.malloc_object
          (λ c. mpi.ints (c + 2)) (shapes_of root) (object_sent root.objects) (length root.pictures)
          Object.id Object.m (λ o. sent_of o.elems o.m) root.objects (Refused mpi alloc root)
          (objects-Describes mpi alloc root valid sized_pictures sized_objects small)
          (λ c. mpi.ints_lem (c + 2)) (length root.objects) 0 slots (omega arith) len
          (λ j lt. absurd (omega (arith, lt))) in
      elim (Gets-cases rounds) [
        | inl run ↦ (
          root,
          done tt,
          rw (counted_pictures, counted_objects, run, validated) refl,
          inl (refl, refl),
        )
        | inr (objects, s, m, run, why) ↦ (
          record root { objects = objects },
          err s m,
          rw (counted_pictures, counted_objects, run) refl,
          inr (s, m, refl, why),
        )
      ]

  receive_pictures-Gets :
      (slots : List Picture) (object_slots : List Object)
      → length slots ≡ length root.pictures
      → length object_slots ≡ length root.objects
      → Receives (
          receive_pictures mpi alloc root root.num_pictures root.num_objects
            (shapes_of root)
            (record root { pictures = slots; objects = object_slots }))
  unfolding receive_pictures
  receive_pictures-Gets slots object_slots len len' =
      let rounds =
        receive_all-Gets picture_alloc unfilled_picture picture_data picture_with
          alloc.malloc_picture (λ c. mpi.ints (c + 2)) (shapes_of root) (picture_sent root.pictures)
          0 Picture.id Picture.n (λ p. sent_of p.elems p.n) root.pictures (Refused mpi alloc root)
          (pictures-Describes mpi alloc root valid sized_pictures sized_objects)
          (λ c. mpi.ints_lem (c + 2)) (length root.pictures) 0 slots (omega arith) len
          (λ j lt. absurd (omega (arith, lt))) in
      elim (Gets-cases rounds) [
        | inl run ↦ rw (counted_pictures, run) (receive_objects-Gets object_slots len')
        | inr (pictures, s, m, run, why) ↦ (
          record root { pictures = pictures; objects = object_slots },
          err s m,
          rw (counted_pictures, run) refl,
          inr (s, m, refl, why),
        )
      ]

  -- The arrays that `msearch_problem_alloc` gives.
  abbrev slots_of : F.Double → Problem F
  slots_of threshold = record {
    threshold = threshold;
    num_pictures = root.num_pictures;
    pictures = replicate (length root.pictures) zero_picture;
    num_objects = root.num_objects;
    objects = replicate (length root.objects) zero_object;
  }

  problem_alloc-cases :
      (p : Problem F)
      → (problem_alloc alloc.calloc_pictures alloc.calloc_objects p root.num_pictures
            root.num_objects
          ≡ (slots_of p.threshold, done tt))
        ⊎ ((p' : Problem F) × (s : Status) × (m : Message) × (problem_alloc alloc.calloc_pictures
                alloc.calloc_objects p root.num_pictures root.num_objects
              ≡ (p', err s m))
            × Refused mpi alloc root)
  unfolding problem_alloc
  problem_alloc-cases p =
      let bare = record p {
        num_pictures = root.num_pictures;
        pictures = [];
        num_objects = root.num_objects;
        objects = [];
      } in
      elim (Bool-cases (ltb_ℤ (pos 0) root.num_pictures && not alloc.calloc_pictures)) [
        | inl refused ↦ inr (
          bare,
          err_nomem,
          Message.cannot_allocate_array Kind.picture root.num_pictures,
          rw refused refl,
          no_pictures (ground (arith, refused)) (ground (arith, refused)),
        )
        | inr given ↦
            elim (Bool-cases (ltb_ℤ (pos 0) root.num_objects && not alloc.calloc_objects)) [
              | inl refused ↦ inr (
                record bare { pictures = replicate (length root.pictures) zero_picture },
                err_nomem,
                Message.cannot_allocate_array Kind.object root.num_objects,
                rw (given, refused, counted_pictures) refl,
                no_objects (ground (arith, refused)) (ground (arith, refused)),
              )
              | inr given' ↦ inl (rw (given, given', counted_pictures, counted_objects) refl)
            ]
      ]

  receive_allocated-Gets : Receives (
      receive_allocated mpi alloc root root.num_pictures root.num_objects
        (slots_of root.threshold, done tt))
  unfolding receive_allocated
  receive_allocated-Gets =
      let ints = (root.num_pictures +ℤ root.num_objects) *ℤ pos 2 in
      elim (Bool-cases (ltb_ℤ (pos 0) ints && not alloc.malloc_shapes)) [
        | inl refused ↦ (
          slots_of root.threshold,
          err err_nomem cannot_allocate_shapes,
          rw refused refl,
          inr (
            err_nomem,
            cannot_allocate_shapes,
            refl,
            no_shapes (ground (arith, refused)) (ground (arith, refused)),
          ),
        )
        | inr given ↦ elim (Option-cases (mpi.ints 1 (shapes_of root))) [
          | inl lost ↦ (
            slots_of root.threshold,
            err err_backend bcast_failed,
            rw (given, lost) refl,
            inr (err_backend, bcast_failed, refl, shapes_lost lost),
          )
          | inr (shapes, came) ↦
              let right = mpi.ints_lem 1 (shapes_of root) shapes came in
              rw (given, came)
                (subst
                  (λ sent. Receives (
                    receive_pictures mpi alloc root root.num_pictures root.num_objects sent
                      (slots_of root.threshold)))
                  (sym right)
                  (receive_pictures-Gets (replicate (length root.pictures) zero_picture)
                    (replicate (length root.objects) zero_object)
                    (length-replicate (length root.pictures) zero_picture)
                    (length-replicate (length root.objects) zero_object)))
        ]
      ]

  receive_shapes-Gets :
      (p : Problem F)
      → p.threshold ≡ root.threshold
      → Receives (receive_shapes mpi alloc root root.num_pictures root.num_objects p)
  unfolding receive_shapes receive_allocated
  receive_shapes-Gets p same = elim (problem_alloc-cases p) [
    | inr (p', s, m, failed, why) ↦ (p', err s m, rw failed refl, inr (s, m, refl, why))
    | inl made ↦ rw made (
        subst
          (λ t. Receives (
            receive_allocated mpi alloc root root.num_pictures root.num_objects
              (slots_of t, done tt)))
          (sym same) receive_allocated-Gets)
  ]

  -- A rank that is not the root ends with exactly the root's problem, whatever it held, with no
  -- access out of bounds, or returns an error, and then a call of MPI or an allocation that the
  -- broadcast of this problem makes on the rank has failed; for a valid problem of the root whose
  -- objects have sides of at most 46340, where `side * side` fits an `int`, and a malloc that gives
  -- arrays of the size asked for.
  pub receive_problem-Gets : (p : Problem F) → Receives (receive_problem mpi alloc root p)
  unfolding receive_problem
  receive_problem-Gets p =
      let counts = root.num_pictures ∷ root.num_objects ∷ [] in
      elim (Option-cases (mpi.ints 0 counts)) [
        | inl lost ↦ (
          p,
          err err_backend bcast_failed,
          rw (receive_problem, lost) refl,
          inr (err_backend, bcast_failed, refl, no_header lost),
        )
        | inr (header, came) ↦
            let right = mpi.ints_lem 0 counts header came in
            elim (Option-cases (mpi.double root.threshold)) [
              | inl lost ↦ (
                p,
                err err_backend bcast_failed,
                rw (receive_problem, came, lost) refl,
                inr (err_backend, bcast_failed, refl, no_threshold lost),
              )
              | inr (threshold, came') ↦
                  rw (receive_problem, came, came', right)
                    (receive_shapes-Gets (record p { threshold = threshold })
                      (mpi.double_lem root.threshold threshold came'))
            ]
      ]
