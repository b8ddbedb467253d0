-- ===== src/Backends/Cuda/Packed.antt =====
-- What `cuda_create` (src/backends/backend_cuda.cu) packs on the device.
use mathlib.Core.Path.{subst}
use mathlib.Core.Option.{some-injective}
use mpi_local_lab.Base.{
  ℕ, zero, suc, ◌+◌, ◌*◌, ◌%◌, ◌^◌, ◌≤◌, ◌<◌, ◌≡◌, refl, sym, ap, ◌∙◌, arith, Bool, true, List, [],
  ◌∷◌, ◌++◌, Option, some, length, length-append, length-drop, get_elem?, take, drop, take-length,
  All, leb, ◌⊎◌, inl, inr, Bool-cases,
}
use mpi_local_lab.Base.Int.{ℤ}
use mpi_local_lab.Base.Machine.{size_t}
use mpi_local_lab.Types.{err_backend, cuda_failed, Object, Result, done, err}
use mpi_local_lab.Problem.Validate.Valid.{IsObject}
use mpi_local_lab.Backends.Cuda.Create.{copy_to, upload}

take-append {ℓ} : {A : Type ℓ} (xs ys : List A) → take (length xs) (xs ++ ys) ≡ xs
take-append [] ys = refl
take-append (x ∷ xs) ys = ap (λ l. x ∷ l) (take-append xs ys)

drop-append {ℓ} : {A : Type ℓ} (xs ys : List A) → drop (length xs) (xs ++ ys) ≡ ys
drop-append [] ys = refl
drop-append (x ∷ xs) ys = drop-append xs ys

drop-append_more {ℓ} :
    {A : Type ℓ} (xs ys : List A) (n : ℕ) → drop (length xs + n) (xs ++ ys) ≡ drop n ys
drop-append_more [] ys n = rw (the_same n) refl
  where
    the_same : (n : ℕ) → 0 + n ≡ n
    the_same n = omega arith
drop-append_more (x ∷ xs) ys n = rw (next (length xs) n) (drop-append_more xs ys n)
  where
    next : (a n : ℕ) → suc a + n ≡ suc (a + n)
    next a n = omega arith

unfoldable pub sum_elems : List Object → ℕ
sum_elems [] = 0
sum_elems (o ∷ os) = size_t o.m * size_t o.m + sum_elems os

append_assoc {ℓ} : {A : Type ℓ} (xs ys zs : List A) → (xs ++ ys) ++ zs ≡ xs ++ (ys ++ zs)
append_assoc [] ys zs = refl
append_assoc (x ∷ xs) ys zs = ap (λ l. x ∷ l) (append_assoc xs ys zs)

-- A copy to the end of what is packed.
copy_to-packs :
    (packed room cells : List ℤ)
    → length cells ≤ length room
    → copy_to (packed ++ room) (length packed) (length cells) cells
      ≡ some ((packed ++ cells) ++ drop (length cells) room)
unfolding copy_to
copy_to-packs packed room cells fits =
    let whole = length-append packed room in
    let held : leb (length cells) (length cells) ≡ true = ground arith in
    let inside : leb (length packed + length cells) (length (packed ++ room)) ≡ true =
      ground (arith, whole, fits) in
    rw
      (
        take-append packed room,
        take-length cells (length cells) refl,
        drop-append_more packed room (length cells),
        held,
        inside,
      )
      refl

-- The device has the `i`th object of the list at the `i`th offset.
abbrev pub Stands : (offsets : List ℕ) (memory : List ℤ) → (i : ℕ) → Object → Type 0
Stands offsets memory i object =
    (offset : ℕ) × (get_elem? offsets i ≡ some offset)
    × (some (take (size_t object.m * size_t object.m) (drop offset memory)) ≡ object.elems)

abbrev pub AllStand : List Object → (offsets : List ℕ) (memory : List ℤ) → Type 0
AllStand os offsets memory =
    (i : ℕ) (object : Object) → get_elem? os i ≡ some object → Stands offsets memory i object

-- The upload of objects behind what is packed: it fails at a copy, or every object stands at its
-- offset.
abbrev pub Packs : List Object → (packed : List ℤ) → Option (Result (List ℕ × List ℤ)) → Type 0
Packs os packed o =
    (o ≡ some (err err_backend cuda_failed))
    ⊎ ((offsets : List ℕ) × (tail : List ℤ) × (o ≡ some (done (offsets, packed ++ tail)))
        × AllStand os offsets (packed ++ tail))

-- An object at the end of what is packed.
first-Stands :
    (packed tail : List ℤ) (offsets : List ℕ) (o : Object) (w : IsObject o)
    → length w.cells ≡ size_t o.m * size_t o.m
    → Stands (length packed ∷ offsets) (packed ++ (w.cells ++ tail)) 0 o
first-Stands packed tail offsets o w size = (
  length packed,
  refl,
  rw (drop-append packed (w.cells ++ tail), ← size, take-append w.cells tail) (sym w.elems_is),
)

AllStand-cons :
    (o : Object) (os : List Object) (offset : ℕ) (offsets : List ℕ) (memory : List ℤ)
    → Stands (offset ∷ offsets) memory 0 o
    → AllStand os offsets memory
    → AllStand (o ∷ os) (offset ∷ offsets) memory
AllStand-cons o os offset offsets memory (at, is, slice) rest zero object e =
    let same : o ≡ object = some-injective _ _ e in
    subst (Stands (offset ∷ offsets) memory 0) same (at, is, slice)
AllStand-cons o os offset offsets memory first rest (suc i) object e = rest i object e

pub upload-Packs :
    (copy_object : ℕ → Bool) (k : ℕ) (os : List Object) (packed room : List ℤ)
    → All IsObject os
    → length packed + sum_elems os < 2 ^ 64
    → sum_elems os ≤ length room
    → Packs os packed (upload copy_object k os (length packed) (packed ++ room))
unfolding upload sum_elems size_t
upload-Packs copy_object k [] packed room valid small fits =
    inr ([], room, refl, λ i object at. absurd (ground (arith, at)))
upload-Packs copy_object k (o ∷ os) packed room (w, valid) small fits =
    elim (Bool-cases (copy_object k)) [
      | inr lost ↦ inl (rw lost refl)
      | inl copied ↦
          let side : size_t o.m ≡ w.width = rw w.side_is refl in
          let size : length w.cells ≡ size_t o.m * size_t o.m = rw side w.size in
          let rest = drop (length w.cells) room in
          let len = length-append packed w.cells in
          let more =
            upload-Packs copy_object (k + 1) os (packed ++ w.cells) rest valid
              (omega (arith, len, size, small))
              (omega (arith, length-drop (length w.cells) room, size, fits)) in
          let next : (length packed + length w.cells) % 2 ^ 64 ≡ length (packed ++ w.cells) =
            omega (arith, len, size, small) in
          let placed = copy_to-packs packed room w.cells (omega (arith, size, fits)) in
          elim more [
            | inl failed ↦ inl (rw (copied, w.elems_is, ← size, placed, next, failed) refl)
            | inr (offsets, tail, run, slices) ↦
                let same = append_assoc packed w.cells tail in
                let run' : upload copy_object (k + 1) os (length (packed ++ w.cells))
                      ((packed ++ w.cells) ++ rest)
                    ≡ some (done (offsets, packed ++ (w.cells ++ tail))) =
                  run ∙ ap (λ memory. some (done (offsets, memory))) same in
                inr (
                  length packed ∷ offsets,
                  w.cells ++ tail,
                  rw (copied, w.elems_is, ← size, placed, next, run') refl,
                  AllStand-cons o os (length packed) offsets (packed ++ (w.cells ++ tail))
                      (first-Stands packed tail offsets o w size)
                      (subst (AllStand os offsets) same slices),
                )
          ]
    ]
