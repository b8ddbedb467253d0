-- ===== src/Registry/Choice.antt =====
-- src/backends/registry.c: what `msearch_backend_auto` and `msearch_backend_find` choose.
use mathlib.Core.Path.{subst}
use mathlib.Core.Option.{some-injective}
use mpi_local_lab.Base.{
  sym, ap, ◌∙◌, ℕ, zero, suc, ◌<◌, ◌≡◌, refl, arith, Bool, true, false, inl, inr, List, [], ◌∷◌,
  Option, some, get_elem?, if◌then◌else◌, Bool-cases,
}
use mpi_local_lab.Base.Int.{ℤ}
use mpi_local_lab.Floating.{Floating}
use mpi_local_lab.Options.Flags.{same}
use mpi_local_lab.Backends.Serial
use mpi_local_lab.Registry.{
  MatchBackend, serial, serial_name, openmp, cuda, backends, backend_find, backend_auto,
}

-- The first entry that is available.
abbrev pub IsFirstAvailable : {F : Floating} → List (MatchBackend F) → MatchBackend F → Type 1
IsFirstAvailable xs b =
    (i : ℕ) × (get_elem? xs i ≡ some b)
    × (b.available ≡ true)
    × ((j : ℕ) (c : MatchBackend _) → j < i → get_elem? xs j ≡ some c → c.available ≡ false)

pub if_of_true {ℓ} : {A : Type ℓ} (t : Bool) (x y : A) → t ≡ true → (if t then x else y) ≡ x
if_of_true t x y e = rw e refl

pub if_of_false {ℓ} : {A : Type ℓ} (t : Bool) (x y : A) → t ≡ false → (if t then x else y) ≡ y
if_of_false t x y e = rw e refl

backend_auto-cons :
    {F : Floating} (b : MatchBackend F) (xs : List (MatchBackend F))
    → IsFirstAvailable xs (backend_auto xs)
    → IsFirstAvailable (b ∷ xs) (backend_auto (b ∷ xs))
unfolding backend_auto
backend_auto-cons b xs (i, at, usable, before) = elim (Bool-cases b.available) [
  | inl yes_b ↦
      subst (IsFirstAvailable (b ∷ xs)) (sym (if_of_true b.available b (backend_auto xs) yes_b))
        (0, refl, yes_b, λ j c lt. absurd (omega (arith, lt)))
  | inr no_b ↦
      subst (IsFirstAvailable (b ∷ xs)) (sym (if_of_false b.available b (backend_auto xs) no_b))
        (suc i, at, usable, later_before no_b)
]
  where
    later_before :
        b.available ≡ false
        → (j : ℕ) (c : MatchBackend _) → j < suc i
        → get_elem? (b ∷ xs) j ≡ some c
        → c.available ≡ false
    later_before no_b zero c lt e =
        ap (λ (x : MatchBackend _). x.available) (sym (some-injective _ _ e)) ∙ no_b
    later_before no_b (suc j) c lt e = before j c (omega (arith, lt)) e

serial-IsFirstAvailable :
    {F : Floating} → IsFirstAvailable (serial {F = F} ∷ []) (backend_auto (serial ∷ []))
unfolding backend_auto Serial.available
serial-IsFirstAvailable = (0, refl, refl, λ j c lt. absurd (omega (arith, lt)))

-- In every build the automatic choice is the first backend of the list that is available, and it
-- is there.
pub backend_auto-IsFirstAvailable :
    {F : Floating} (have_cuda have_openmp : Bool) (device_count : Option ℤ)
    → IsFirstAvailable
        (backends {F = F} have_cuda have_openmp device_count)
        (backend_auto (backends have_cuda have_openmp device_count))
unfolding backends
backend_auto-IsFirstAvailable true true d =
    backend_auto-cons (cuda d) (openmp ∷ serial ∷ [])
      (backend_auto-cons openmp (serial ∷ []) serial-IsFirstAvailable)
backend_auto-IsFirstAvailable true false d =
    backend_auto-cons (cuda d) (serial ∷ []) serial-IsFirstAvailable
backend_auto-IsFirstAvailable false true d =
    backend_auto-cons openmp (serial ∷ []) serial-IsFirstAvailable
backend_auto-IsFirstAvailable false false d = serial-IsFirstAvailable

-- The serial backend is found by its name in every build.
pub backend_find-serial :
    {F : Floating} (have_cuda have_openmp : Bool) (device_count : Option ℤ)
    → backend_find (backends {F = F} have_cuda have_openmp device_count) serial_name ≡ some serial
unfolding backends backend_find same
backend_find-serial true true d = refl
backend_find-serial true false d = refl
backend_find-serial false true d = refl
backend_find-serial false false d = refl
