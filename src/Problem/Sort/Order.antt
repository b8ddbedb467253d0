-- ===== src/Problem/Sort/Order.antt =====
-- `sort_objects_by_id` (src/core/problem.c) sorts, and keeps the order of equal ids.
use mathlib.Core.List.{append-nil, append_assoc}
use mathlib.Core.Option.{some-injective}
use mathlib.Core.Path.{subst, ◌≡⟨◌⟩◌, ◌∎}
use mpi_local_lab.Base.{
  ℕ, suc, ◌+◌, ◌-◌, ◌≡◌, refl, ap, ◌∙◌, sym, arith, true, List, [], ◌∷◌, ◌++◌, some, length, All,
  inl, inr, Bool-cases,
}
use mpi_local_lab.Base.Int.{ℤ, pos, ltb_ℤ, ◌≤ℤ◌}
use mpi_local_lab.Types.{Object}
use mpi_local_lab.Problem.{sort_objects_by_id}
use mpi_local_lab.Problem.Sort.{
  IsSorted, with_id, ins_rev, ins_all, rev, length-rev, length-ins_rev, sort_from-ins_all,
}

suc-sub_one : (n : ℕ) → suc n - 1 ≡ n
suc-sub_one n = omega arith

-- Descending ids.
abbrev IsDescending : List Object → Type 0
IsDescending [] = Unit
IsDescending (o ∷ os) = All (λ p. p.id ≤ℤ o.id) os × IsDescending os

All-ins_rev {ℓ} :
    (P : Object → Type ℓ) (key : Object) (os : List Object)
    → P key
    → All P os
    → All P (ins_rev key os)
unfolding ins_rev
All-ins_rev P key [] hk h = (hk, tt)
All-ins_rev P key (o ∷ os) hk h = elim (Bool-cases (ltb_ℤ key.id o.id)) [
  | inl e ↦ rw e (h.0, All-ins_rev P key os hk h.1)
  | inr e ↦ rw e (hk, h)
]

All-le_trans :
    (a b : ℤ) (os : List Object) → a ≤ℤ b → All (λ p. p.id ≤ℤ a) os → All (λ p. p.id ≤ℤ b) os
All-le_trans a b [] h k = tt
All-le_trans a b (o ∷ os) h k = (omega arith, All-le_trans a b os h k.1)

ins_rev-IsDescending :
    (key : Object) (os : List Object) → IsDescending os → IsDescending (ins_rev key os)
unfolding ins_rev
ins_rev-IsDescending key [] h = (tt, tt)
ins_rev-IsDescending key (o ∷ os) h = elim (Bool-cases (ltb_ℤ key.id o.id)) [
  | inl e ↦ rw e (All-ins_rev _ key os (ground arith) h.0, ins_rev-IsDescending key os h.1)
  | inr e ↦
      let le : o.id ≤ℤ key.id = ground arith in rw e ((le, All-le_trans o.id key.id os le h.0), h)
]

ins_all-IsDescending :
    (front rest : List Object) → IsDescending front → IsDescending (ins_all front rest)
unfolding ins_all
ins_all-IsDescending front [] h = h
ins_all-IsDescending front (o ∷ os) h =
    ins_all-IsDescending (ins_rev o front) os (ins_rev-IsDescending o front h)

All-append {ℓ} :
    {A : Type 0} (P : A → Type ℓ) (xs ys : List A) → All P xs → All P ys → All P (xs ++ ys)
All-append P [] ys h k = k
All-append P (x ∷ xs) ys h k = (h.0, All-append P xs ys h.1 k)

All-rev {ℓ} : {A : Type 0} (P : A → Type ℓ) (xs : List A) → All P xs → All P (rev xs)
unfolding rev
All-rev P [] h = tt
All-rev P (x ∷ xs) h = All-append P (rev xs) (x ∷ []) (All-rev P xs h.1) (h.0, tt)

IsSorted-concat :
    (xs : List Object) (o : Object)
    → IsSorted xs
    → All (λ p. p.id ≤ℤ o.id) xs
    → IsSorted (xs ++ o ∷ [])
IsSorted-concat [] o s h = (tt, tt)
IsSorted-concat (x ∷ xs) o s h =
    (All-append _ xs (o ∷ []) s.0 (h.0, tt), IsSorted-concat xs o s.1 h.1)

rev-IsSorted : (os : List Object) → IsDescending os → IsSorted (rev os)
unfolding rev
rev-IsSorted [] h = tt
rev-IsSorted (o ∷ os) h = IsSorted-concat (rev os) o (rev-IsSorted os h.1) (All-rev _ os h.0)

with_id-append : (i : ℤ) (xs ys : List Object) → with_id i (xs ++ ys) ≡ with_id i xs ++ with_id i ys
with_id-append i [] ys = refl
with_id-append i (x ∷ xs) ys = ground (arith, with_id-append i xs ys)

-- Objects that swap places have different ids.
with_id_swap :
    (i : ℤ) (key o : Object)
    → ltb_ℤ key.id o.id ≡ true
    → with_id i (key ∷ o ∷ []) ≡ with_id i (o ∷ key ∷ [])
with_id_swap i key o h = ground arith

with_id-ins_rev :
    (i : ℤ) (key : Object) (os : List Object)
    → with_id i (rev (ins_rev key os)) ≡ with_id i (rev os ++ key ∷ [])
unfolding ins_rev rev
with_id-ins_rev i key [] = refl
with_id-ins_rev i key (o ∷ os) = elim (Bool-cases (ltb_ℤ key.id o.id)) [
  | inl e ↦ rw e (
      with_id i (rev (ins_rev key os) ++ o ∷ [])
      ≡⟨ with_id-append i (rev (ins_rev key os)) (o ∷ []) ⟩
        with_id i (rev (ins_rev key os)) ++ with_id i (o ∷ [])
      ≡⟨ ap (λ l. l ++ with_id i (o ∷ [])) (with_id-ins_rev i key os) ⟩
        with_id i (rev os ++ key ∷ []) ++ with_id i (o ∷ [])
      ≡⟨ sym (with_id-append i (rev os ++ key ∷ []) (o ∷ [])) ⟩
        with_id i ((rev os ++ key ∷ []) ++ o ∷ [])
      ≡⟨ ap (with_id i) (append_assoc (rev os) (key ∷ []) (o ∷ [])) ⟩
        with_id i (rev os ++ key ∷ o ∷ [])
      ≡⟨ with_id-append i (rev os) (key ∷ o ∷ []) ⟩ with_id i (rev os) ++ with_id i (key ∷ o ∷ [])
      ≡⟨ ap (λ l. with_id i (rev os) ++ l) (with_id_swap i key o e) ⟩
        with_id i (rev os) ++ with_id i (o ∷ key ∷ [])
      ≡⟨ sym (with_id-append i (rev os) (o ∷ key ∷ [])) ⟩ with_id i (rev os ++ o ∷ key ∷ [])
      ≡⟨ ap (with_id i) (sym (append_assoc (rev os) (o ∷ []) (key ∷ []))) ⟩
        with_id i ((rev os ++ o ∷ []) ++ key ∷ []) ∎)
  | inr e ↦ rw e refl
]

with_id-ins_all :
    (i : ℤ) (front rest : List Object)
    → with_id i (rev (ins_all front rest)) ≡ with_id i (rev front ++ rest)
unfolding ins_all
with_id-ins_all i front [] = ap (with_id i) (sym (append-nil (rev front)))
with_id-ins_all i front (o ∷ os) =
    with_id i (rev (ins_all (ins_rev o front) os))
    ≡⟨ with_id-ins_all i (ins_rev o front) os ⟩ with_id i (rev (ins_rev o front) ++ os)
    ≡⟨ with_id-append i (rev (ins_rev o front)) os ⟩
      with_id i (rev (ins_rev o front)) ++ with_id i os
    ≡⟨ ap (λ l. l ++ with_id i os) (with_id-ins_rev i o front) ⟩
      with_id i (rev front ++ o ∷ []) ++ with_id i os
    ≡⟨ sym (with_id-append i (rev front ++ o ∷ []) os) ⟩ with_id i ((rev front ++ o ∷ []) ++ os)
    ≡⟨ ap (with_id i) (append_assoc (rev front) (o ∷ []) os) ⟩ with_id i (rev front ++ o ∷ os) ∎

-- `ys` is `xs` sorted by ascending id, and objects with one id keep their order.
pub record IsStableSort (xs ys : List Object) : Type 0 where
  pub sorted : IsSorted ys
  pub stable : (i : ℤ) → with_id i ys ≡ with_id i xs
  pub same_length : length ys ≡ length xs

All-ins_all {ℓ} :
    (P : Object → Type ℓ) (front rest : List Object)
    → All P front
    → All P rest
    → All P (ins_all front rest)
unfolding ins_all
All-ins_all P front [] h k = h
All-ins_all P front (o ∷ os) h k =
    All-ins_all P (ins_rev o front) os (All-ins_rev P o front k.0 h) k.1

length-ins_all :
    (front rest : List Object) → length (ins_all front rest) ≡ length front + length rest
unfolding ins_all
length-ins_all front [] = omega arith
length-ins_all front (o ∷ os) =
    omega (arith, length-ins_all (ins_rev o front) os, length-ins_rev o front)

sort_objects_by_id_run :
    (o : Object) (os : List Object)
    → sort_objects_by_id (o ∷ os) (pos (length (o ∷ os))) ≡ some (rev (ins_all (o ∷ []) os))
unfolding sort_objects_by_id rev
sort_objects_by_id_run o os = rw (suc-sub_one (length os)) (sort_from-ins_all (o ∷ []) os)

-- `sort_objects_by_id`, run over the whole array, reads and writes inside it, and leaves the
-- objects in ascending order of their ids, each of them once, those with one id in input order.
pub sort_objects_by_id-IsStableSort :
    (objects : List Object)
    → (sorted : List Object) × (sort_objects_by_id objects (pos (length objects)) ≡ some sorted)
      × IsStableSort objects sorted
unfolding sort_objects_by_id rev
sort_objects_by_id-IsStableSort [] =
    ([], refl, record { sorted = tt; stable = λ i. refl; same_length = refl })
sort_objects_by_id-IsStableSort (o ∷ os) =
    let sorted = ins_all (o ∷ []) os in
    (
      rev sorted,
      sort_objects_by_id_run o os,
      record {
        sorted = rev-IsSorted sorted (ins_all-IsDescending (o ∷ []) os (tt, tt));
        stable = λ i. with_id-ins_all i (o ∷ []) os;
        same_length = omega (arith, length-rev sorted, length-ins_all (o ∷ []) os);
      },
    )

-- What holds of every object holds of every object afterwards.
pub All-sort_objects_by_id {ℓ} :
    (P : Object → Type ℓ) (objects : List Object) {sorted : List Object}
    → sort_objects_by_id objects (pos (length objects)) ≡ some sorted
    → All P objects
    → All P sorted
unfolding sort_objects_by_id
All-sort_objects_by_id P [] e h = subst (All P) (some-injective _ _ e) h
All-sort_objects_by_id P (o ∷ os) e h =
    subst (All P) (some-injective _ _ (sym (sort_objects_by_id_run o os) ∙ e))
      (All-rev P _ (All-ins_all P (o ∷ []) os (h.0, tt) h.1))
