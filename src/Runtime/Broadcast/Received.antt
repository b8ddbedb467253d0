-- ===== src/Runtime/Broadcast/Received.antt =====
-- `msearch_broadcast_problem` (src/runtime/runner_mpi.c): what a rank that is not the root receives.
pub mod Matrices
pub mod Whole
use mathlib.Core.Path.{subst}
use mathlib.Core.Option.{some-injective}
use mpi_local_lab.Base.{
  ℕ, zero, suc, ◌+◌, ◌*◌, ◌≤◌, ◌<◌, ◌≡◌, refl, sym, ap, ◌∙◌, arith, ◌⊎◌, inl, inr, List, [], ◌∷◌,
  ◌++◌, Option, none, some, length, get_elem?, get_elem?-some, get_elem?-lt, get_elem?-set_self,
  get_elem?-set_ne, get_elem?-append, set, length-set, write-set, ℕ_discrete, Option-cases,
}
use mpi_local_lab.Base.Int.{ℤ, ◌*ℤ◌}
use mpi_local_lab.Types.{
  Status, err_backend, bcast_failed, Picture, Object, Message, Result, done, err, Result-cases,
}
use mpi_local_lab.Problem.{Malloc}
use mpi_local_lab.Runtime.Broadcast.{received, receive_all, picture_shapes, object_shapes}

list_ext {ℓ} :
    {A : Type ℓ} (xs ys : List A)
    → length xs ≡ length ys
    → ((j : ℕ) → j < length ys → get_elem? xs j ≡ get_elem? ys j)
    → xs ≡ ys
list_ext [] [] e h = refl
list_ext [] (y ∷ ys) e h = absurd (omega (arith, e))
list_ext (x ∷ xs) [] e h = absurd (omega (arith, e))
list_ext (x ∷ xs) (y ∷ ys) e h = cc (
  some-injective _ _ (h 0 (omega arith)),
  list_ext xs ys (omega (arith, e)) (λ j lt. h (suc j) (omega (arith, lt))),
)

-- What a rank receives is all of `whole`, or it fails and `Refused` says what failed.
abbrev pub Gets {ℓ} :
    {A : Type ℓ} → (Refused : Type 0) → (whole : A) → Option (A × Result (Unit {0})) → Type ℓ
Gets {A = A} Refused whole o =
    (got : A) × (r : Result (Unit {0})) × (o ≡ some (got, r))
    × (((r ≡ done tt) × (got ≡ whole)) ⊎ ((s : Status) × (m : Message) × (r ≡ err s m) × Refused))

pub Gets-cases {ℓ} :
    {A : Type ℓ} {R : Type 0} {whole : A} {o : Option (A × Result (Unit {0}))}
    → Gets R whole o
    → (o ≡ some (whole, done tt))
      ⊎ ((got : A) × (s : Status) × (m : Message) × (o ≡ some (got, err s m)) × R)
Gets-cases (got, r, run, inl (ended, same)) = inl (run ∙ rw (ended, same) refl)
Gets-cases (got, r, run, inr (s, m, failed, why)) = inr (got, s, m, run ∙ rw failed refl, why)

module _ {ℓ} {A : Type ℓ} (alloc_one : Malloc → (id side : ℤ) → Result A)
    (unfilled : (id side : ℤ) → A) (buffer_of : A → List ℤ) (with_data : A → List ℤ → A)
    (malloc : ℕ → Malloc) (bcast : ℕ → List ℤ → Option (List ℤ)) (shapes : List ℤ)
    (sent : ℕ → Option (List ℤ)) (base : ℕ) (id_of side_of : A → ℤ) (cells_of : A → List ℤ)
    (xs : List A) (Refused : Type 0) where
  -- The root describes each element of `xs` by its shape and its cells.
  pub record Describes : Type ℓ where
    pub id_sent :
        (i : ℕ) (x : A)
        → get_elem? xs i ≡ some x
        → get_elem? shapes ((base + i) * 2) ≡ some (id_of x)
    pub side_sent :
        (i : ℕ) (x : A)
        → get_elem? xs i ≡ some x
        → get_elem? shapes ((base + i) * 2 + 1) ≡ some (side_of x)
    pub cells_sent : (i : ℕ) (x : A) → get_elem? xs i ≡ some x → sent i ≡ some (cells_of x)
    pub rebuilt :
        (i : ℕ) (x : A)
        → get_elem? xs i ≡ some x
        → (y : A) → alloc_one (malloc i) (id_of x) (side_of x) ≡ done y
        → (filled : List ℤ) × (received (side_of x *ℤ side_of x) (buffer_of y) (cells_of x)
            ≡ some filled)
          × (with_data y filled ≡ x)
    pub no_memory :
        (i : ℕ) (x : A)
        → get_elem? xs i ≡ some x
        → (s : Status) (m : Message) → alloc_one (malloc i) (id_of x) (side_of x) ≡ err s m
        → Refused
    pub no_bcast :
        (i : ℕ) (x : A) → get_elem? xs i ≡ some x → bcast (base + i) (cells_of x) ≡ none → Refused

  module _ (d : Describes) (lawful : (c : ℕ) (s g : List ℤ) → bcast c s ≡ some g → g ≡ s) where
    pub receive_all-Gets :
        (rounds i : ℕ) (array : List A)
        → rounds + i ≡ length xs
        → length array ≡ length xs
        → ((j : ℕ) → j < i → get_elem? array j ≡ get_elem? xs j)
        → Gets Refused xs (
            receive_all alloc_one unfilled buffer_of with_data malloc bcast shapes sent base rounds
              i array)
    unfolding receive_all
    receive_all-Gets zero i array left len same = (
      array,
      done tt,
      refl,
      inl (refl, list_ext array xs len (λ j lt. same j (omega (arith, left, lt)))),
    )
    receive_all-Gets (suc k) i array left len same =
        let (x, at) = get_elem?-some xs i (omega (arith, left)) in
        let inside : i < length array = omega (arith, left, len) in
        elim (Result-cases (alloc_one (malloc i) (id_of x) (side_of x))) [
          | inl (s, m, failed) ↦ (
            set array i (unfilled (id_of x) (side_of x)),
            err s m,
            rw
                (
                  d.id_sent i x at,
                  d.side_sent i x at,
                  d.cells_sent i x at,
                  failed,
                  write-set array i (unfilled (id_of x) (side_of x)) inside,
                )
                refl,
            inr (s, m, refl, d.no_memory i x at s m failed),
          )
          | inr (y, made) ↦ elim (Option-cases (bcast (base + i) (cells_of x))) [
            | inl lost ↦ (
              set array i y,
              err err_backend bcast_failed,
              rw
                  (
                    d.id_sent i x at,
                    d.side_sent i x at,
                    d.cells_sent i x at,
                    made,
                    lost,
                    write-set array i y inside,
                  )
                  refl,
              inr (err_backend, bcast_failed, refl, d.no_bcast i x at lost),
            )
            | inr (got, came) ↦
                let (filled, fills, whole) = d.rebuilt i x at y made in
                let same_got = lawful (base + i) (cells_of x) got came in
                let next =
                  receive_all-Gets k (suc i) (set array i (with_data y filled))
                    (omega (arith, left)) (length-set array i (with_data y filled) ∙ len)
                    (λ j lt. elim (ℕ_discrete i j) [
                      | yes e ↦
                          subst
                            (λ q. get_elem? (set array i (with_data y filled)) q ≡ get_elem? xs q) e
                            (get_elem?-set_self array i (with_data y filled)
                                (omega (arith, left, len))
                              ∙ ap some whole
                              ∙ sym at)
                      | no ne ↦
                          get_elem?-set_ne array (with_data y filled) ne
                          ∙ same j (omega (arith, lt, ne))
                    ]) in
                rw
                  (
                    d.id_sent i x at,
                    d.side_sent i x at,
                    d.cells_sent i x at,
                    made,
                    came,
                    same_got,
                    fills,
                    write-set array i (with_data y filled) inside,
                  )
                  next
          ]
        ]

-- Two ints on, in a list that starts with two.
double-suc : (i : ℕ) → suc i * 2 ≡ suc (suc (i * 2))
double-suc i = omega arith

double-suc_one : (i : ℕ) → suc i * 2 + 1 ≡ suc (suc (i * 2 + 1))
double-suc_one i = omega arith

pub get_elem?-picture_shapes :
    (ps : List Picture) (rest : List ℤ) (i : ℕ) {p : Picture}
    → get_elem? ps i ≡ some p
    → (get_elem? (picture_shapes ps ++ rest) (i * 2) ≡ some p.id)
      × (get_elem? (picture_shapes ps ++ rest) (i * 2 + 1) ≡ some p.n)
unfolding picture_shapes
get_elem?-picture_shapes [] rest i at = absurd (ground (arith, at))
get_elem?-picture_shapes (q ∷ ps) rest zero at =
    let same = some-injective _ _ at in (ap (λ x. some x.id) same, ap (λ x. some x.n) same)
get_elem?-picture_shapes (q ∷ ps) rest (suc i) at =
    rw (double-suc_one i, double-suc i) (get_elem?-picture_shapes ps rest i at)

get_elem?-object_shapes :
    (os : List Object) (i : ℕ) {o : Object}
    → get_elem? os i ≡ some o
    → (get_elem? (object_shapes os) (i * 2) ≡ some o.id)
      × (get_elem? (object_shapes os) (i * 2 + 1) ≡ some o.m)
unfolding object_shapes
get_elem?-object_shapes [] i at = absurd (ground (arith, at))
get_elem?-object_shapes (q ∷ os) zero at =
    let same = some-injective _ _ at in (ap (λ x. some x.id) same, ap (λ x. some x.m) same)
get_elem?-object_shapes (q ∷ os) (suc i) at =
    rw (double-suc_one i, double-suc i) (get_elem?-object_shapes os i at)

-- The shapes of the objects stand behind those of the pictures.
pub get_elem?-shapes :
    (ps : List Picture) (os : List Object) (i : ℕ) {o : Object}
    → get_elem? os i ≡ some o
    → (get_elem? (picture_shapes ps ++ object_shapes os) ((length ps + i) * 2) ≡ some o.id)
      × (get_elem? (picture_shapes ps ++ object_shapes os) ((length ps + i) * 2 + 1) ≡ some o.m)
unfolding picture_shapes
get_elem?-shapes [] os i at =
    let none_before : 0 + i ≡ i = omega arith in rw none_before (get_elem?-object_shapes os i at)
get_elem?-shapes (q ∷ ps) os i at =
    let one_before : suc (length ps) + i ≡ suc (length ps + i) = omega arith in
    rw (one_before, double-suc_one (length ps + i), double-suc (length ps + i))
      (get_elem?-shapes ps os i at)
