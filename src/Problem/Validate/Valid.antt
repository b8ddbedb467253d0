-- ===== src/Problem/Validate/Valid.antt =====
-- `msearch_problem_validate` (src/core/problem.c): what an accepted problem satisfies.
use mathlib.Core.Option.{some-injective}
use mathlib.Core.Path.{subst}
use mpi_local_lab.Base.{
  sym, ℕ, zero, suc, ap, ◌∙◌, dec_lt, mul_mono, ◌*◌, ◌≤◌, ◌<◌, ◌≡◌, refl, arith, true, List, [],
  ◌∷◌, Option, none, some, length, All,
}
use mpi_local_lab.Base.Int.{ℤ, pos, negsuc}
use mpi_local_lab.Base.Machine.{size_t}
use mpi_local_lab.Floating.{Floating, fzero}
use mpi_local_lab.Types.{Picture, Object, Problem, done}
use mpi_local_lab.Problem.{placement_count, sort_objects_by_id}
use mpi_local_lab.Problem.Placements.{placement_count_of_le}
use mpi_local_lab.Problem.Sort.{IsSorted}
use mpi_local_lab.Problem.Sort.Order.{
  IsStableSort, All-sort_objects_by_id, sort_objects_by_id-IsStableSort,
}
use mpi_local_lab.Problem.Validate.{
  max_n, oversize, check_pictures, check_objects, problem_validate,
}

-- A matrix that is there has the elements of its side.
abbrev pub Sized : ℤ → Option (List ℤ) → Type 0
Sized side none = Unit
Sized side (some cells) = length cells ≡ size_t side * size_t side

-- A picture or object that can be searched: a positive side, and an array of that size.
pub record IsMatrix (side : ℤ) (elems : Option (List ℤ)) : Type 0 where
  pub width : ℕ
  pub cells : List ℤ
  pub side_is : side ≡ pos width
  pub width_pos : 0 < width
  pub elems_is : elems ≡ some cells
  pub size : length cells ≡ width * width

abbrev pub IsPicture : Picture → Type 0
IsPicture p = (w : IsMatrix p.n p.elems) × (w.width ≤ 46340)

abbrev pub IsObject : Object → Type 0
IsObject o = IsMatrix o.m o.elems

-- The counts count the arrays, and every matrix has the elements of its side.
pub record IsAllocated {F : Floating} (p : Problem F) : Type 0 where
  pub pictures_counted : p.num_pictures ≡ pos (length p.pictures)
  pub objects_counted : p.num_objects ≡ pos (length p.objects)
  pub pictures_sized : All (λ x. Sized x.n x.elems) p.pictures
  pub objects_sized : All (λ x. Sized x.m x.elems) p.objects

-- What the backends assume of a problem.
pub record IsValid {F : Floating} (p : Problem F) : Type 0 where
  pub threshold_pos : F.lt (fzero F) p.threshold ≡ true
  pub pictures_counted : p.num_pictures ≡ pos (length p.pictures)
  pub objects_counted : p.num_objects ≡ pos (length p.objects)
  pub all_pictures : All IsPicture p.pictures
  pub all_objects : All IsObject p.objects
  pub in_order : IsSorted p.objects

side_bound : (n : ℕ) → n * n ≤ 2147483647 → n ≤ 46340
side_bound n h = elim (dec_lt 46340 n) [
  | yes large ↦
      absurd (omega (arith, mul_mono 46341 n 46341 (omega arith), mul_mono 46341 n n (omega arith)))
  | no small ↦ omega arith
]

-- The placements of a 1 x 1 object are the elements of the picture.
placements_of_one : (n : ℕ) → 0 < n → placement_count (pos n) (pos 1) ≡ pos (n * n)
placements_of_one n h =
    placement_count_of_le n 1 (omega arith) ∙ ap (λ w. pos (w * w)) (omega arith)

check_picture :
    (id n : ℤ) (elems : Option (List ℤ)) (ps : List Picture)
    → Sized n elems
    → check_pictures (record { id = id; n = n; elems = elems } ∷ ps) ≡ done tt
    → IsPicture (record { id = id; n = n; elems = elems }) × (check_pictures ps ≡ done tt)
unfolding check_pictures size_t
check_picture id (negsuc k) elems ps s e = absurd (ground arith)
check_picture id (pos zero) elems ps s e = absurd (ground arith)
check_picture id (pos (suc k)) none ps s e = absurd (ground arith)
check_picture id (pos (suc k)) (some cells) ps s e =
    let count = placements_of_one (suc k) (omega arith) in
    let bound : suc k * suc k ≤ 2147483647 = ground arith in
    (
      (
        record {
          width = suc k;
          cells = cells;
          side_is = refl;
          width_pos = omega arith;
          elems_is = refl;
          size = s;
        },
        side_bound (suc k) bound,
      ),
      ground arith,
    )

check_pictures-IsPicture :
    (ps : List Picture)
    → All (λ x. Sized x.n x.elems) ps
    → check_pictures ps ≡ done tt
    → All IsPicture ps
check_pictures-IsPicture [] s e = tt
check_pictures-IsPicture (p ∷ ps) s e =
    let (first, e') = check_picture p.id p.n p.elems ps s.0 e in
    (first, check_pictures-IsPicture ps s.1 e')

check_object :
    (id m : ℤ) (elems : Option (List ℤ)) (os : List Object)
    → Sized m elems
    → check_objects (record { id = id; m = m; elems = elems } ∷ os) ≡ done tt
    → IsMatrix m elems × (check_objects os ≡ done tt)
unfolding check_objects size_t
check_object id (negsuc k) elems os s e = absurd (ground arith)
check_object id (pos zero) elems os s e = absurd (ground arith)
check_object id (pos (suc k)) none os s e = absurd (ground arith)
check_object id (pos (suc k)) (some cells) os s e = (
  record {
    width = suc k;
    cells = cells;
    side_is = refl;
    width_pos = omega arith;
    elems_is = refl;
    size = s;
  },
  ground arith,
)

check_objects-IsObject :
    (os : List Object)
    → All (λ x. Sized x.m x.elems) os
    → check_objects os ≡ done tt
    → All IsObject os
check_objects-IsObject [] s e = tt
check_objects-IsObject (o ∷ os) s e =
    let (first, e') = check_object o.id o.m o.elems os s.0 e in
    (first, check_objects-IsObject os s.1 e')

module _ {F : Floating} (p p' : Problem F) (warned : List Object) where
  -- What an accepted problem has passed.
  pub record Accepted : Type 0 where
    pub threshold_pos : F.lt (fzero F) p.threshold ≡ true
    pub pictures_pass : check_pictures p.pictures ≡ done tt
    pub objects_pass : check_objects p.objects ≡ done tt
    pub sorts : sort_objects_by_id p.objects p.num_objects ≡ some p'.objects
    pub rest_kept : p' ≡ record p { objects = p'.objects }

  pub accepted : problem_validate p ≡ some (done (p', warned)) → Accepted
  unfolding problem_validate
  accepted e = record {
    threshold_pos = ground arith;
    pictures_pass = ground arith;
    objects_pass = ground arith;
    sorts = ground arith;
    rest_kept = ground arith;
  }

-- Validation accepts only what the backends can search: it keeps the pictures and the threshold,
-- and sorts the objects.
pub problem_validate-IsValid :
    {F : Floating} (p p' : Problem F) (warned : List Object)
    → IsAllocated p
    → problem_validate p ≡ some (done (p', warned))
    → IsValid p' × IsStableSort p.objects p'.objects × (p' ≡ record p { objects = p'.objects })
problem_validate-IsValid {F} p p' warned al e = (
  subst IsValid (sym a.rest_kept) (record {
    threshold_pos = a.threshold_pos;
    pictures_counted = al.pictures_counted;
    objects_counted = al.objects_counted ∙ ap pos (sym stable.same_length);
    all_pictures = check_pictures-IsPicture p.pictures al.pictures_sized a.pictures_pass;
    all_objects =
        All-sort_objects_by_id IsObject p.objects sorts
          (check_objects-IsObject p.objects al.objects_sized a.objects_pass);
    in_order = stable.sorted;
  }),
  stable,
  a.rest_kept,
)
  where
    a : Accepted p p' warned
    a = accepted p p' warned e

    sorts : sort_objects_by_id p.objects (pos (length p.objects)) ≡ some p'.objects
    sorts = rw al.objects_counted at a.sorts

    stable : IsStableSort p.objects p'.objects
    stable =
        let (sorted, run, is) = sort_objects_by_id-IsStableSort p.objects in
        subst (IsStableSort p.objects) (some-injective _ _ (sym run ∙ sorts)) is

check_pictures-done : (ps : List Picture) → All IsPicture ps → check_pictures ps ≡ done tt
unfolding check_pictures
check_pictures-done [] h = refl
check_pictures-done (p ∷ ps) h =
    let (w, small) = h.0 in
    let count = placements_of_one w.width w.width_pos in
    let square = mul_mono w.width 46340 w.width small in
    let square' = mul_mono w.width 46340 46340 small in
    rw (w.side_is, w.elems_is) (ground (arith, check_pictures-done ps h.1))

check_objects-done : (os : List Object) → All IsObject os → check_objects os ≡ done tt
unfolding check_objects
check_objects-done [] h = refl
check_objects-done (o ∷ os) h =
    let w = h.0 in
    rw (w.side_is, w.elems_is) (ground (arith, w.width_pos, check_objects-done os h.1))

-- And it accepts all of that: an allocated problem with a positive threshold, whose pictures and
-- objects can all be searched, the pictures with sides of at most 46340, is accepted.
pub problem_validate_accepts :
    {F : Floating} (p : Problem F)
    → IsAllocated p
    → F.lt (fzero F) p.threshold ≡ true
    → All IsPicture p.pictures
    → All IsObject p.objects
    → (p' : Problem F) × (warned : List Object) × (problem_validate p ≡ some (done (p', warned)))
unfolding problem_validate
problem_validate_accepts {F} p al pos_thr pics objs =
    let (sorted, run, _) = sort_objects_by_id-IsStableSort p.objects in
    let sorts : sort_objects_by_id p.objects p.num_objects ≡ some sorted =
      rw al.objects_counted run in
    (
      record p { objects = sorted },
      oversize (max_n (pos 0) p.pictures) p.objects,
      ground (arith, check_pictures-done p.pictures pics, check_objects-done p.objects objs),
    )
