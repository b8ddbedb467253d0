-- ===== src/Problem/Sort.antt =====
-- `sort_objects_by_id` (src/core/problem.c): the loops over the array as insertions into a list.
pub mod Order
pub mod Sorted
use mathlib.Core.List.{append-nil, append_assoc}
use mathlib.Core.Path.{subst}
use mpi_local_lab.Base.{
  suc, ◌≡◌, refl, ap, arith, inl, inr, List, [], ◌∷◌, ◌++◌, some, Bool-cases, if◌then◌else◌, length,
  get_elem?, write, length-append, All,
}
use mpi_local_lab.Base.Int.{ℤ, ltb_ℤ, eqb_ℤ, ◌≤ℤ◌}
use mpi_local_lab.Types.{Object}
use mpi_local_lab.Problem.{shift, sort_from}

-- Ascending ids.
abbrev pub IsSorted : List Object → Type 0
IsSorted [] = Unit
IsSorted (o ∷ os) = All (λ p. o.id ≤ℤ p.id) os × IsSorted os

-- The objects with one id, in their order.
abbrev pub with_id : ℤ → List Object → List Object
with_id i [] = []
with_id i (o ∷ os) = if eqb_ℤ o.id i then o ∷ with_id i os else with_id i os

-- A list, given from its end on, with `key` put behind the last element that is not greater.
ins_rev : Object → List Object → List Object
ins_rev key [] = key ∷ []
ins_rev key (o ∷ os) = if ltb_ℤ key.id o.id then o ∷ ins_rev key os else key ∷ o ∷ os

get_elem?-middle {ℓ} :
    {A : Type ℓ} (xs : List A) (y : A) (ys : List A) → get_elem? (xs ++ y ∷ ys) (length xs) ≡ some y
get_elem?-middle [] y ys = refl
get_elem?-middle (x ∷ xs) y ys = get_elem?-middle xs y ys

write-next {ℓ} :
    {A : Type ℓ} (xs : List A) (y z v : A) (ys : List A)
    → write (xs ++ y ∷ z ∷ ys) (suc (length xs)) v ≡ some (xs ++ y ∷ v ∷ ys)
write-next [] y z v ys = refl
write-next (x ∷ xs) y z v ys = rw (write-next xs y z v ys) refl

rev {ℓ} : {A : Type ℓ} → List A → List A
rev [] = []
rev (x ∷ xs) = rev xs ++ x ∷ []

length-rev {ℓ} : {A : Type ℓ} (xs : List A) → length (rev xs) ≡ length xs
unfolding rev
length-rev [] = refl
length-rev (x ∷ xs) = omega (arith, length-append (rev xs) (x ∷ []), length-rev xs)

get_elem?-rev {ℓ} :
    {A : Type ℓ} (front : List A) (o : A) (rest : List A)
    → get_elem? (rev front ++ o ∷ rest) (length front) ≡ some o
get_elem?-rev front o rest =
    subst (λ k. get_elem? (rev front ++ o ∷ rest) k ≡ some o) (length-rev front)
      (get_elem?-middle (rev front) o rest)

write-rev {ℓ} :
    {A : Type ℓ} (front : List A) (o z v : A) (rest : List A)
    → write (rev front ++ o ∷ z ∷ rest) (suc (length front)) v ≡ some (rev front ++ o ∷ v ∷ rest)
write-rev front o z v rest =
    subst (λ k. write (rev front ++ o ∷ z ∷ rest) (suc k) v ≡ some (rev front ++ o ∷ v ∷ rest))
      (length-rev front) (write-next (rev front) o z v rest)

-- The front of the array is `rev front`; the slot behind it, at `hole`, is free to write.
shift-ins_rev :
    (front : List Object) (hole key : Object) (rest : List Object)
    → shift (length front) (rev front ++ hole ∷ rest) key ≡ some (rev (ins_rev key front) ++ rest)
unfolding shift ins_rev rev
shift-ins_rev [] hole key rest = refl
shift-ins_rev (o ∷ front) hole key rest =
    rw (append_assoc (rev front) (o ∷ []) (hole ∷ rest), get_elem?-rev front o (hole ∷ rest))
      (elim (Bool-cases (ltb_ℤ key.id o.id)) [
        | inl greater ↦
            rw
              (
                greater,
                write-rev front o hole o rest,
                append_assoc (rev (ins_rev key front)) (o ∷ []) rest,
              )
              (shift-ins_rev front o key (o ∷ rest))
        | inr not_greater ↦ rw (not_greater, write-rev front o hole key rest) (simp append_assoc)
      ])

-- Each round puts the next object where `ins_rev` has it.
ins_all : List Object → List Object → List Object
ins_all front [] = front
ins_all front (o ∷ os) = ins_all (ins_rev o front) os

length-ins_rev : (key : Object) (os : List Object) → length (ins_rev key os) ≡ suc (length os)
unfolding ins_rev
length-ins_rev key [] = refl
length-ins_rev key (o ∷ os) = ground (arith, length-ins_rev key os)

sort_from-ins_all :
    (front rest : List Object)
    → sort_from (length rest) (length front) (rev front ++ rest) ≡ some (rev (ins_all front rest))
unfolding sort_from ins_all
sort_from-ins_all front [] = simp append-nil
sort_from-ins_all front (o ∷ rest) = rw (get_elem?-rev front o rest) (
    rw (shift-ins_rev front o o rest) (
      subst
        (λ k.
          sort_from (length rest) k (rev (ins_rev o front) ++ rest)
          ≡ some (rev (ins_all (ins_rev o front) rest)))
        (length-ins_rev o front) (sort_from-ins_all (ins_rev o front) rest)))
