-- ===== src/Runtime/Broadcast/Received/Matrices.antt =====
-- src/runtime/runner_mpi.c: the matrices that a rank allocates and receives.
use mathlib.Core.Path.{subst}
use mathlib.Core.List.{append-nil}
use mpi_local_lab.Base.{
  zero, suc, true, [], ◌∷◌, drop, leb, ℕ, ◌+◌, ◌*◌, ◌≤◌, ◌<◌, ◌≡◌, refl, sym, ap, ◌∙◌, arith, ◌⊎◌,
  inl, inr, false, List, Option, none, some, length, get_elem?, take-length, All, All-get_elem?,
  Option-cases,
}
use mpi_local_lab.Base.Int.{ℤ, pos, ◌≤ℤ◌, ltb_ℤ, eqb_ℤ, ◌+ℤ◌, ◌*ℤ◌}
use mpi_local_lab.Base.Machine.{size_t}
use mpi_local_lab.Floating.{Floating}
use mpi_local_lab.Types.{
  Status, err_nomem, Picture, Object, Problem, Kind, Message, done, done-injective, err,
}
use mpi_local_lab.Problem.{Malloc, alloc_matrix, picture_alloc, object_alloc}
use mpi_local_lab.Problem.Validate.Valid.{IsMatrix, IsPicture, IsObject, IsValid}
use mpi_local_lab.Reader.Matrix.Sized.{IsSizing}
use mpi_local_lab.Runtime.Broadcast.{
  unfilled_picture, unfilled_object, Broadcasts, Allocator, object_shapes, shapes_of, sent_of,
  picture_sent, object_sent, received, picture_data, object_data, picture_with, object_with,
}
use mpi_local_lab.Runtime.Broadcast.Received.{Describes, get_elem?-picture_shapes, get_elem?-shapes}

-- An allocation of a side in its bounds fails only where `malloc` does.
alloc_matrix-cases :
    (malloc : Malloc) (side : ℤ) (w : ℕ) (what : Kind) (id : ℤ)
    → side ≡ pos w
    → 0 < w
    → w ≤ 46340
    → ((malloc (size_t side * size_t side) ≡ none)
        × (alloc_matrix malloc side what id
            ≡ err err_nomem (Message.cannot_allocate_elements what id)))
      ⊎ ((cells : List ℤ) × (alloc_matrix malloc side what id ≡ done (some cells))
          × (malloc (size_t side * size_t side) ≡ some cells))
unfolding alloc_matrix
alloc_matrix-cases malloc side w what id is some_side small =
    elim (Option-cases (malloc (size_t side * size_t side))) [
      | inl refused ↦ inl (refused, ground (arith, is, refused))
      | inr (cells, given) ↦ inr (cells, ground (arith, is, given), given)
    ]

pub picture_alloc-cases :
    (malloc : Malloc) (p : Picture)
    → IsPicture p
    → ((malloc (size_t p.n * size_t p.n) ≡ none)
        × (s : Status) × (m : Message) × (picture_alloc malloc p.id p.n ≡ err s m))
      ⊎ ((cells : List ℤ) × (picture_alloc malloc p.id p.n ≡ done (record p { elems = some cells }))
          × (malloc (size_t p.n * size_t p.n) ≡ some cells))
unfolding picture_alloc
picture_alloc-cases malloc p (w, small) =
    elim (alloc_matrix-cases malloc p.n w.width Kind.picture p.id w.side_is w.width_pos small) [
      | inl (refused, failed) ↦ inl (
        refused,
        err_nomem,
        Message.cannot_allocate_elements Kind.picture p.id,
        rw (failed, picture_alloc) refl,
      )
      | inr (cells, given, memory) ↦ inr (cells, rw (given, picture_alloc) refl, memory)
    ]

pub object_alloc-cases :
    (malloc : Malloc) (o : Object) (w : IsObject o)
    → w.width ≤ 46340
    → ((malloc (size_t o.m * size_t o.m) ≡ none)
        × (s : Status) × (m : Message) × (object_alloc malloc o.id o.m ≡ err s m))
      ⊎ ((cells : List ℤ) × (object_alloc malloc o.id o.m ≡ done (record o { elems = some cells }))
          × (malloc (size_t o.m * size_t o.m) ≡ some cells))
unfolding object_alloc
object_alloc-cases malloc o w small =
    elim (alloc_matrix-cases malloc o.m w.width Kind.object o.id w.side_is w.width_pos small) [
      | inl (refused, failed) ↦ inl (
        refused,
        err_nomem,
        Message.cannot_allocate_elements Kind.object o.id,
        rw (failed, object_alloc) refl,
      )
      | inr (cells, given, memory) ↦ inr (cells, rw (given, object_alloc) refl, memory)
    ]

sent_of-IsMatrix :
    {side : ℤ} {elems : Option (List ℤ)} (w : IsMatrix side elems) → sent_of elems side ≡ w.cells
unfolding sent_of size_t
sent_of-IsMatrix w = rw (w.elems_is, w.side_is) (take-length w.cells (w.width * w.width) w.size)

drop_all : (xs : List ℤ) (k : ℕ) → length xs ≤ k → drop k xs ≡ []
drop_all [] zero h = refl
drop_all [] (suc k) h = refl
drop_all (x ∷ xs) zero h = absurd (omega (arith, h))
drop_all (x ∷ xs) (suc k) h = drop_all xs k (omega (arith, h))

square : (w : ℕ) → pos w *ℤ pos w ≡ pos (w * w)
unfolding ◌*ℤ◌
square w = ground arith

-- A matrix that is sent fills a buffer of its size.
received-IsMatrix :
    {side : ℤ} {elems : Option (List ℤ)} (w : IsMatrix side elems) (buffer : List ℤ)
    → length buffer ≡ size_t side * size_t side
    → received (side *ℤ side) buffer (sent_of elems side) ≡ some w.cells
unfolding received size_t
received-IsMatrix {side} w buffer size =
    let size' : length buffer ≡ w.width * w.width = size ∙ rw w.side_is refl in
    let whole : leb (length w.cells) (length buffer) ≡ true = ground (arith, size', w.size) in
    let count : eqb_ℤ (pos (w.width * w.width)) (pos (length w.cells)) ≡ true =
      ground (arith, w.size) in
    let rest : drop (length w.cells) buffer ≡ [] =
      drop_all buffer (length w.cells) (omega (arith, size', w.size)) in
    rw (sent_of-IsMatrix w, w.side_is, square w.width, count, whole, rest)
      (ap some (append-nil w.cells))

picture-rebuilt :
    (malloc : Malloc) (x y : Picture) (w : IsPicture x)
    → IsSizing malloc
    → picture_alloc malloc x.id x.n ≡ done y
    → (filled : List ℤ) × (received (x.n *ℤ x.n) (picture_data y) (sent_of x.elems x.n)
        ≡ some filled)
      × (picture_with y filled ≡ x)
picture-rebuilt malloc x y w sizing made = elim (picture_alloc-cases malloc x w) [
  | inl (refused, s, m, failed) ↦ absurd (cc (failed, made))
  | inr (memory, given, from) ↦
      let same = done-injective (sym given ∙ made) in
      let size = sizing (size_t x.n * size_t x.n) memory from in
      (
        w.0.cells,
        subst
            (λ (q : Picture).
              received (x.n *ℤ x.n) (picture_data q) (sent_of x.elems x.n) ≡ some w.0.cells)
            same (received-IsMatrix w.0 memory size),
        ap (λ (q : Picture). picture_with q w.0.cells) (sym same)
            ∙ ap (λ e. record x { elems = e }) (sym w.0.elems_is),
      )
]

object-rebuilt :
    (malloc : Malloc) (x y : Object) (w : IsObject x) (small : w.width ≤ 46340)
    → IsSizing malloc
    → object_alloc malloc x.id x.m ≡ done y
    → (filled : List ℤ) × (received (x.m *ℤ x.m) (object_data y) (sent_of x.elems x.m)
        ≡ some filled)
      × (object_with y filled ≡ x)
object-rebuilt malloc x y w small sizing made = elim (object_alloc-cases malloc x w small) [
  | inl (refused, s, m, failed) ↦ absurd (cc (failed, made))
  | inr (memory, given, from) ↦
      let same = done-injective (sym given ∙ made) in
      let size = sizing (size_t x.m * size_t x.m) memory from in
      (
        w.cells,
        subst
            (λ (q : Object).
              received (x.m *ℤ x.m) (object_data q) (sent_of x.elems x.m) ≡ some w.cells)
            same (received-IsMatrix w memory size),
        ap (λ (q : Object). object_with q w.cells) (sym same)
            ∙ ap (λ e. record x { elems = e }) (sym w.elems_is),
      )
]

-- What has failed on a rank that receives the problem of `root`: one of the calls of MPI or of the
-- allocations that it makes.
pub data Refused {F : Floating} (mpi : Broadcasts F) (alloc : Allocator) (root : Problem F)
    : Type 0 where
  no_header : mpi.ints 0 (root.num_pictures ∷ root.num_objects ∷ []) ≡ none → Refused mpi alloc root
  no_threshold : mpi.double root.threshold ≡ none → Refused mpi alloc root
  no_pictures :
      ltb_ℤ (pos 0) root.num_pictures ≡ true
      → alloc.calloc_pictures ≡ false
      → Refused mpi alloc root
  no_objects :
      ltb_ℤ (pos 0) root.num_objects ≡ true → alloc.calloc_objects ≡ false → Refused mpi alloc root
  no_shapes :
      ltb_ℤ (pos 0) ((root.num_pictures +ℤ root.num_objects) *ℤ pos 2) ≡ true
      → alloc.malloc_shapes ≡ false
      → Refused mpi alloc root
  shapes_lost : mpi.ints 1 (shapes_of root) ≡ none → Refused mpi alloc root
  no_picture :
      (i : ℕ) (p : Picture)
      → get_elem? root.pictures i ≡ some p
      → alloc.malloc_picture i (size_t p.n * size_t p.n) ≡ none
      → Refused mpi alloc root
  picture_lost :
      (i : ℕ) (p : Picture)
      → get_elem? root.pictures i ≡ some p
      → mpi.ints (i + 2) (sent_of p.elems p.n) ≡ none
      → Refused mpi alloc root
  no_object :
      (i : ℕ) (o : Object)
      → get_elem? root.objects i ≡ some o
      → alloc.malloc_object i (size_t o.m * size_t o.m) ≡ none
      → Refused mpi alloc root
  object_lost :
      (i : ℕ) (o : Object)
      → get_elem? root.objects i ≡ some o
      → mpi.ints (length root.pictures + i + 2) (sent_of o.elems o.m) ≡ none
      → Refused mpi alloc root

module _ {F : Floating} (mpi : Broadcasts F) (alloc : Allocator) (root : Problem F)
    (valid : IsValid root) (sized_pictures : (i : ℕ) → IsSizing (alloc.malloc_picture i))
    (sized_objects : (i : ℕ) → IsSizing (alloc.malloc_object i)) where
  abbrev cells : ℕ → List ℤ → Option (List ℤ)
  cells call = mpi.ints (call + 2)

  pub pictures-Describes :
      Describes picture_alloc unfilled_picture picture_data picture_with alloc.malloc_picture cells
        (shapes_of root)
        (picture_sent root.pictures)
        0
        Picture.id
        Picture.n
        (λ p. sent_of p.elems p.n)
        root.pictures
        (Refused mpi alloc root)
  unfolding shapes_of picture_sent
  pictures-Describes =
      let from_zero : (i : ℕ) → 0 + i ≡ i = λ i. omega arith in
      record {
        id_sent = λ i x at.
            rw (from_zero i)
              (get_elem?-picture_shapes root.pictures (object_shapes root.objects) i at).0;
        side_sent = λ i x at.
            rw (from_zero i)
              (get_elem?-picture_shapes root.pictures (object_shapes root.objects) i at).1;
        cells_sent = λ i x at. rw at refl;
        rebuilt = λ i x at y made.
            picture-rebuilt (alloc.malloc_picture i) x y
              (All-get_elem? IsPicture root.pictures i at valid.all_pictures) (sized_pictures i)
              made;
        no_memory = λ i x at s m failed.
            elim (picture_alloc-cases (alloc.malloc_picture i) x
              (All-get_elem? IsPicture root.pictures i at valid.all_pictures)) [
                | inl (refused, s', m', e) ↦ no_picture i x at refused
                | inr (got, given, memory) ↦ absurd (cc (failed, given))
              ];
        no_bcast = λ i x at lost.
            picture_lost i x at
              (subst (λ k. mpi.ints (k + 2) (sent_of x.elems x.n) ≡ none) (from_zero i) lost);
      }

  pub objects-Describes :
      All (λ (o : Object). o.m ≤ℤ pos 46340) root.objects
      → Describes object_alloc unfilled_object object_data object_with alloc.malloc_object cells
          (shapes_of root)
          (object_sent root.objects)
          (length root.pictures)
          Object.id
          Object.m
          (λ o. sent_of o.elems o.m)
          root.objects
          (Refused mpi alloc root)
  unfolding shapes_of object_sent
  objects-Describes small =
      let object_at : (i : ℕ) (x : Object)
          → get_elem? root.objects i ≡ some x
          → (w : IsObject x) × (w.width ≤ 46340) =
        λ i x at.
          let w = All-get_elem? IsObject root.objects i at valid.all_objects in
          let le = All-get_elem? (λ (o : Object). o.m ≤ℤ pos 46340) root.objects i at small in
          (w, ground (arith, le, w.side_is)) in
      record {
        id_sent = λ i x at. (get_elem?-shapes root.pictures root.objects i at).0;
        side_sent = λ i x at. (get_elem?-shapes root.pictures root.objects i at).1;
        cells_sent = λ i x at. rw at refl;
        rebuilt = λ i x at y made.
            let (w, le) = object_at i x at in
            object-rebuilt (alloc.malloc_object i) x y w le (sized_objects i) made;
        no_memory = λ i x at s m failed.
            let (w, le) = object_at i x at in
            elim (object_alloc-cases (alloc.malloc_object i) x w le) [
              | inl (refused, s', m', e) ↦ no_object i x at refused
              | inr (got, given, memory) ↦ absurd (cc (failed, given))
            ];
        no_bcast = λ i x at lost. object_lost i x at lost;
      }
