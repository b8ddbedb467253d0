-- ===== src/Problem/Sort/Sorted.antt =====
-- `sort_objects_by_id` (src/core/problem.c) on objects that are in order.
use mathlib.Core.Option.{some-injective}
use mpi_local_lab.Base.{
  ℕ, zero, suc, ◌+◌, ◌-◌, ◌≤◌, ◌≡◌, refl, arith, false, List, [], ◌∷◌, some, length, get_elem?,
  get_elem?-some, get_elem?-lt, write_same, All-get_elem?,
}
use mpi_local_lab.Base.Int.{pos, ltb_ℤ, ◌≤ℤ◌}
use mpi_local_lab.Types.{Object}
use mpi_local_lab.Problem.{sort_objects_by_id, sort_from, shift}
use mpi_local_lab.Problem.Sort.{IsSorted}

IsSorted-neighbours :
    (os : List Object) (j : ℕ) {a b : Object}
    → IsSorted os
    → get_elem? os j ≡ some a
    → get_elem? os (suc j) ≡ some b
    → a.id ≤ℤ b.id
IsSorted-neighbours [] j s ea eb = cc
IsSorted-neighbours (o ∷ os) zero {a} {b} s ea eb =
    ground (arith, All-get_elem? (λ p. o.id ≤ℤ p.id) os 0 eb s.0, some-injective _ _ ea)
IsSorted-neighbours (o ∷ os) (suc j) s ea eb = IsSorted-neighbours os j s.1 ea eb

shift_in_order :
    (os : List Object) (i : ℕ) {key : Object}
    → IsSorted os
    → get_elem? os i ≡ some key
    → shift i os key ≡ some os
unfolding shift
shift_in_order os zero s e = write_same os 0 e
shift_in_order os (suc j) {key} s e =
    let (o, at) = get_elem?-some os j (omega (arith, get_elem?-lt os (suc j) e)) in
    let le = IsSorted-neighbours os j s at e in
    let stays : ltb_ℤ key.id o.id ≡ false = ground (arith, le) in
    rw (at, stays) (write_same os (suc j) e)

sort_from_in_order :
    (rounds i : ℕ) (os : List Object)
    → IsSorted os
    → rounds + i ≤ length os
    → sort_from rounds i os ≡ some os
unfolding sort_from
sort_from_in_order zero i os s h = refl
sort_from_in_order (suc k) i os s h =
    let (key, at) = get_elem?-some os i (omega (arith, h)) in
    rw (at, shift_in_order os i s at) (sort_from_in_order k (suc i) os s (omega (arith, h)))

-- What is in order stays as it is.
pub sort_objects_by_id_in_order :
    (os : List Object) → IsSorted os → sort_objects_by_id os (pos (length os)) ≡ some os
unfolding sort_objects_by_id
sort_objects_by_id_in_order [] s = refl
sort_objects_by_id_in_order (o ∷ os) s =
    sort_from_in_order (suc (length os) - 1) 1 (o ∷ os) s (omega arith)
