-- ===== src/Reader/Stream/Total.antt =====
-- src/core/parser.c: reading ends without a fault, with a problem that can be searched or with none.
use mathlib.Core.Path.{subst}
use mpi_local_lab.Base.{
  ℕ, ◌≡◌, refl, sym, ap, ◌∙◌, arith, ◌⊎◌, inl, inr, Bool, true, List, [], Option, some, length,
  replicate, length-replicate, All, Bool-cases, not, ◌&&◌, false, ◌≢◌, Option-cases,
}
use mpi_local_lab.Base.Int.{ℤ, pos, pos_part, ltb_ℤ}
use mpi_local_lab.Floating.{Floating}
use mpi_local_lab.Types.{
  Result-cases, Status, err_nomem, Picture, Object, Problem, Kind, Label, Message, Result, done,
  err,
}
use mpi_local_lab.Problem.{problem_init, problem_free, zero_object, zero_picture, problem_alloc}
use mpi_local_lab.Problem.Validate.Valid.{Sized, IsAllocated, IsValid, problem_validate-IsValid}
use mpi_local_lab.Reader.{Lexer, lexer_init}
use mpi_local_lab.Reader.Number.{Converted, expect_int, expect_double, read_count}
use mpi_local_lab.Reader.Matrix.{read_picture, read_object}
use mpi_local_lab.Reader.Stream.{
  Allocator, fail, finish, read_objects, fill_pictures, read_pictures, read_problem_stream,
}
use mpi_local_lab.Reader.Matrix.Sized.{IsSizing, read_picture-Sized, read_object-Sized}
use mpi_local_lab.Reader.Stream.Arrays.{read_all-All, problem_free-total, All-replicate}
use mpi_local_lab.Problem.Validate.Total.{problem_validate-total}

module _ {F : Floating} where
  -- How reading ends: with a problem that can be searched, or with one that holds nothing.
  abbrev pub Ended : Problem F → Result (Unit {0}) → Type 0
  Ended p result =
      ((result ≡ done tt) × IsValid p)
      ⊎ ((s : Status) × (m : Message) × (result ≡ err s m) × (p ≡ problem_init F))

  abbrev pub Ends : Option (Problem F × Result (Unit {0})) → Type 0
  Ends o = (p : Problem F) × (result : Result (Unit {0})) × (o ≡ some (p, result)) × Ended p result

  fail-Ends :
      (strtod : List ℕ → Converted F.Double) (alloc : Allocator) (p : Problem F) (s : Status)
      (m : Message)
      → p.num_pictures ≡ pos (length p.pictures)
      → p.num_objects ≡ pos (length p.objects)
      → Ends (fail strtod alloc p s m)
  unfolding fail
  fail-Ends strtod alloc p s m ps os =
      (problem_init F, err s m, rw (problem_free-total p ps os) refl, inr (s, m, refl, refl))

  finish-Ends :
      (strtod : List ℕ → Converted F.Double) (alloc : Allocator) (p : Problem F)
      → IsAllocated p
      → Ends (finish strtod alloc p)
  unfolding finish
  finish-Ends strtod alloc p al =
      let (r, validated) = problem_validate-total p al in
      elim (Result-cases r) [
        | inl (s, m, failed) ↦
            rw (validated, failed)
              (fail-Ends strtod alloc p s m al.pictures_counted al.objects_counted)
        | inr ((p', warned), passed) ↦ (
          p',
          done tt,
          rw (validated, passed) refl,
          inl (refl, (problem_validate-IsValid p p' warned al (validated ∙ ap some passed)).0),
        )
      ]

read_count-pos :
    (lexer : Lexer) (what : Label) (count : ℤ) (lexer' : Lexer)
    → read_count lexer what ≡ done (count, lexer')
    → count ≡ pos (pos_part count)
unfolding read_count
read_count-pos lexer what count lexer' e = elim (Result-cases (expect_int lexer what)) [
  | inl (s, m, failed) ↦ absurd (ground (arith, failed))
  | inr ((value, next), read) ↦ ground (arith, read)
]

problem_alloc_done :
    {F : Floating} (granted : Bool) (p : Problem F) (count : ℤ)
    → (ltb_ℤ (pos 0) count && not granted) ≡ false
    → problem_alloc granted true p count (pos 0) ≡ (
      record p {
        num_pictures = count;
        pictures = replicate (pos_part count) zero_picture;
        num_objects = pos 0;
        objects = [];
      },
      done tt,
    )
unfolding problem_alloc
problem_alloc_done granted p count given = ground (arith, given)

module _ {F : Floating} (strtod : List ℕ → Converted F.Double) (alloc : Allocator)
    (sized_pictures : (i : ℕ) → IsSizing (alloc.malloc_picture i))
    (sized_objects : (i : ℕ) → IsSizing (alloc.malloc_object i)) where
  read_objects-Ends :
      (p : Problem F) (lexer : Lexer)
      → p.num_pictures ≡ pos (length p.pictures)
      → p.num_objects ≡ pos (length p.objects)
      → All (λ x. Sized x.n x.elems) p.pictures
      → Ends (read_objects strtod alloc p lexer)
  unfolding read_objects
  read_objects-Ends p lexer ps os sized =
      elim (Result-cases (read_count lexer Label.object_count)) [
        | inl (s, m, failed) ↦ rw (failed, read_objects) (fail-Ends strtod alloc p s m ps os)
        | inr ((count, next), read) ↦
            elim (Bool-cases (ltb_ℤ (pos 0) count && not alloc.calloc_objects)) [
              | inl refused ↦
                  rw (read, refused, read_objects)
                    (fail-Ends strtod alloc p err_nomem
                      (Message.cannot_allocate_array Kind.object count) ps os)
              | inr granted ↦
                  let slots = length-replicate (pos_part count) zero_object in
                  let (objects, end, run, all, same) =
                    read_all-All (λ x. Sized x.m x.elems) read_object alloc.malloc_object
                      (λ i l. read_object-Sized (alloc.malloc_object i) l (sized_objects i))
                      (pos_part count) 0 next (replicate (pos_part count) zero_object)
                      (omega (arith, slots))
                      (All-replicate (λ (x : Object). Sized x.m x.elems) (pos_part count)
                        zero_object tt) in
                  let counted : count ≡ pos (length objects) =
                    read_count-pos lexer Label.object_count count next read
                    ∙ ap pos (sym (same ∙ slots)) in
                  let p' = record p { num_objects = count; objects = objects } in
                  elim (Result-cases end) [
                    | inl (s, m, failed) ↦
                        rw (read, granted, run, failed, read_objects)
                          (fail-Ends strtod alloc p' s m ps counted)
                    | inr (last, ended) ↦
                        rw (read, granted, run, ended, read_objects)
                          (finish-Ends strtod alloc p' (record {
                            pictures_counted = ps;
                            objects_counted = counted;
                            pictures_sized = sized;
                            objects_sized = all;
                          }))
                  ]
            ]
      ]

  fill_pictures-Ends :
      (p : Problem F) (count : ℤ) (lexer : Lexer)
      → count ≡ pos (length p.pictures)
      → p.num_pictures ≡ count
      → p.num_objects ≡ pos (length p.objects)
      → All (λ x. Sized x.n x.elems) p.pictures
      → Ends (fill_pictures strtod alloc p count lexer)
  unfolding fill_pictures
  fill_pictures-Ends p count lexer slots counted os sized =
      let many : pos_part count ≡ length p.pictures = ap pos_part slots in
      let (pictures, end, run, all, same) =
        read_all-All (λ x. Sized x.n x.elems) read_picture alloc.malloc_picture
          (λ i l. read_picture-Sized (alloc.malloc_picture i) l (sized_pictures i)) (pos_part count)
          0 lexer p.pictures (omega (arith, many)) sized in
      let counted' : p.num_pictures ≡ pos (length pictures) = counted ∙ slots ∙ ap pos (sym same) in
      let p' = record p { pictures = pictures } in
      elim (Result-cases end) [
        | inl (s, m, failed) ↦
            rw (run, failed, fill_pictures) (fail-Ends strtod alloc p' s m counted' os)
        | inr (last, ended) ↦
            rw (run, ended, fill_pictures) (read_objects-Ends p' last counted' os all)
      ]

  read_pictures-Ends :
      (p : Problem F) (count : ℤ) (lexer : Lexer)
      → (ltb_ℤ (pos 0) count && not alloc.calloc_pictures) ≡ false
      → count ≡ pos (pos_part count)
      → Ends (read_pictures strtod alloc p count lexer)
  unfolding read_pictures
  read_pictures-Ends p count lexer granted counted =
      let slots = replicate (pos_part count) zero_picture in
      let allocated = record p {
        num_pictures = count;
        pictures = slots;
        num_objects = pos 0;
        objects = [];
      } in
      let alloc_done = problem_alloc_done alloc.calloc_pictures p count granted in
      subst
        (λ (a : Problem F × Result (Unit {0})). Ends (elim a.1 [
          | err s e ↦ fail strtod alloc a.0 s e
          | done _ ↦ fill_pictures strtod alloc a.0 count lexer
        ]))
        (sym alloc_done)
        (fill_pictures-Ends allocated count lexer
          (counted ∙ ap pos (sym (length-replicate (pos_part count) zero_picture))) refl refl
          (All-replicate (λ (x : Picture). Sized x.n x.elems) (pos_part count) zero_picture tt))

problem_alloc_refused :
    {F : Floating} (granted : Bool) (p : Problem F) (count : ℤ)
    → (ltb_ℤ (pos 0) count && not granted) ≡ true
    → problem_alloc granted true p count (pos 0) ≡ (
      record p { num_pictures = count; pictures = []; num_objects = pos 0; objects = [] },
      err err_nomem (Message.cannot_allocate_array Kind.picture count),
    )
unfolding problem_alloc
problem_alloc_refused granted p count refused = rw refused refl

-- `fail:` returns the failure.
fail_never :
    {F : Floating} (strtod : List ℕ → Converted F.Double) (alloc : Allocator) (p : Problem F)
    (s : Status) (m : Message) (q : Problem F)
    → fail strtod alloc p s m ≢ some (q, done tt)
unfolding fail
fail_never strtod alloc p s m q e = elim (Option-cases (problem_free p)) [
  | inl faulted ↦ cc (rw faulted at e)
  | inr (freed, given) ↦ cc (rw given at e)
]

-- Where the `calloc` for the pictures fails, reading does not succeed.
read_pictures_refused :
    {F : Floating} (strtod : List ℕ → Converted F.Double) (alloc : Allocator) (p : Problem F)
    (count : ℤ) (lexer : Lexer) (q : Problem F)
    → (ltb_ℤ (pos 0) count && not alloc.calloc_pictures) ≡ true
    → read_pictures strtod alloc p count lexer ≢ some (q, done tt)
unfolding read_pictures
read_pictures_refused {F} strtod alloc p count lexer q refused e =
    let failing =
      subst
        (λ (a : Problem F × Result (Unit {0})).
          (elim a.1 [
            | err s m ↦ fail strtod alloc a.0 s m
            | done _ ↦ fill_pictures strtod alloc a.0 count lexer
          ])
          ≡ some (q, done tt))
        (problem_alloc_refused alloc.calloc_pictures p count refused) e in
    fail_never strtod alloc
      (record p { num_pictures = count; pictures = []; num_objects = pos 0; objects = [] })
      err_nomem (Message.cannot_allocate_array Kind.picture count) q failing

-- How reading ends at any answers of the allocator, the `calloc` for the pictures included.
pub read_problem_stream-cases :
    {F : Floating} (strtod : List ℕ → Converted F.Double) (alloc : Allocator) (input : List ℕ)
    → ((i : ℕ) → IsSizing (alloc.malloc_picture i))
    → ((i : ℕ) → IsSizing (alloc.malloc_object i))
    → Ends (read_problem_stream {F = F} strtod alloc input)
      ⊎ ((alloc.calloc_pictures ≡ false)
          × ((q : Problem F) → read_problem_stream strtod alloc input ≢ some (q, done tt)))
unfolding read_problem_stream
read_problem_stream-cases {F} strtod alloc input sized_pictures sized_objects =
    let p = problem_init F in
    elim (Result-cases (expect_double strtod (lexer_init input) Label.threshold_label)) [
      | inl (s, m, failed) ↦ inl (rw failed (fail-Ends strtod alloc p s m refl refl))
      | inr ((threshold, lexer), read) ↦
          let p' = record p { threshold = threshold } in
          elim (Result-cases (read_count lexer Label.picture_count)) [
            | inl (s, m, failed) ↦ inl (rw (read, failed) (fail-Ends strtod alloc p' s m refl refl))
            | inr ((count, next), counted) ↦
                elim (Bool-cases (ltb_ℤ (pos 0) count && not alloc.calloc_pictures)) [
                  | inl refused ↦ inr (
                    ground (arith, refused),
                    λ q e.
                        read_pictures_refused strtod alloc p' count next q refused
                          (rw (read, counted) at e),
                  )
                  | inr granted ↦ inl (
                      rw (read, counted)
                        (read_pictures-Ends strtod alloc sized_pictures sized_objects p' count next
                          granted (read_count-pos lexer Label.picture_count count next counted)))
                ]
          ]
    ]

-- Whatever a file holds, `msearch_read_problem_stream` returns, with no read or write out of bounds: with
-- MSEARCH_OK and a problem that can be searched, or with a failure and a problem that holds
-- nothing. `malloc` must give arrays of the size asked for, and may fail at any call; the `calloc`
-- for the pictures must not fail.
pub read_problem_stream-Ends :
    {F : Floating} (strtod : List ℕ → Converted F.Double) (alloc : Allocator) (input : List ℕ)
    → ((i : ℕ) → IsSizing (alloc.malloc_picture i))
    → ((i : ℕ) → IsSizing (alloc.malloc_object i))
    → alloc.calloc_pictures ≡ true
    → Ends (read_problem_stream {F = F} strtod alloc input)
read_problem_stream-Ends {F} strtod alloc input sized_pictures sized_objects granted =
    elim (read_problem_stream-cases strtod alloc input sized_pictures sized_objects) [
      | inl ends ↦ ends
      | inr (refused, _) ↦ absurd (cc (granted, refused))
    ]
