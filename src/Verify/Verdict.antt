-- ===== src/Verify/Verdict.antt =====
-- `run_verify` (src/cli/main.c): what its verdict says of the backends.
use mathlib.Core.Path.{subst}
use mathlib.Core.Option.{some-injective}
use mpi_local_lab.Base.{
  ℕ, suc, ◌<◌, ◌^◌, ◌≡◌, ◌≢◌, ◌==◌, refl, sym, ap, ◌∙◌, arith, Bool, true, false, ◌&&◌, ◌⊎◌, inl,
  inr, List, [], ◌∷◌, Option, some, ltb, All, Bool-cases,
}
use mpi_local_lab.Base.Int.{ℤ, pos, ◌≤ℤ◌, eqb_ℤ}
use mpi_local_lab.Config.{Config}
use mpi_local_lab.Floating.{Floating, Ieee, fzero}
use mpi_local_lab.Types.{
  ok, err_nomem, err_backend, Problem, Match, cannot_allocate_buffers, backends_disagreed, Result,
  done, err,
}
use mpi_local_lab.Problem.Validate.Valid.{IsValid}
use mpi_local_lab.Backends.Cuda.Packed.{sum_elems}
use mpi_local_lab.Options.Flags.{same}
use mpi_local_lab.Determinism.{serial_unique, serial_backend}
use mpi_local_lab.Runtime.Local.{Loop}
use mpi_local_lab.Registry.{MatchBackend, serial, serial_name, backends, backend_find, RunLocal}
use mpi_local_lab.Registry.Choice.{backend_find-serial}
use mpi_local_lab.Registry.Agreement.{IsHonest, reference, backends-IsHonest, serial-IsHonest}
use mpi_local_lab.Verify.{
  same_match, mismatches, Checks, all_checked, is_serial, skipped, run_failed, compared, VerifyRun,
  no_buffers, reference_failed, checked,
}

ltb-lt : (n : ℕ) → ltb 0 n ≡ true → 0 < n
ltb-lt n e = ground (arith, e)

eqb_ℤ_refl : (x : ℤ) → eqb_ℤ x x ≡ true
eqb_ℤ_refl x = ground arith

same_match_refl : (x : Match) → same_match x x ≡ true
unfolding same_match
same_match_refl x =
    rw (eqb_ℤ_refl x.picture_id, eqb_ℤ_refl x.object_id, eqb_ℤ_refl x.row, eqb_ℤ_refl x.col) refl

mismatches_none : (xs : List Match) → mismatches xs xs ≡ 0
unfolding mismatches
mismatches_none [] = refl
mismatches_none (x ∷ xs) = rw (same_match_refl x) (mismatches_none xs)

eq_of_eqb_ℤ : (x y : ℤ) → eqb_ℤ x y ≡ true → x ≡ y
eq_of_eqb_ℤ x y e = ground (arith, e)

and-cases : (a b : Bool) → (a && b) ≡ true → (a ≡ true) × (b ≡ true)
and-cases true b e = (refl, e)
and-cases false b e = cc

same_match-eq : (x y : Match) → same_match x y ≡ true → x ≡ y
unfolding same_match
same_match-eq x y e =
    let (three, col) = and-cases _ _ e in
    let (two, row) = and-cases _ _ three in
    let (picture, object) = and-cases _ _ two in
    cc (
      eq_of_eqb_ℤ x.picture_id y.picture_id picture,
      eq_of_eqb_ℤ x.object_id y.object_id object,
      eq_of_eqb_ℤ x.row y.row row,
      eq_of_eqb_ℤ x.col y.col col,
    )

mismatches-eq : (xs ys : List Match) → mismatches xs ys ≡ 0 → xs ≡ ys
unfolding mismatches
mismatches-eq [] [] e = refl
mismatches-eq [] (y ∷ ys) e = absurd (ground (arith, e))
mismatches-eq (x ∷ xs) [] e = absurd (ground (arith, e))
mismatches-eq (x ∷ xs) (y ∷ ys) e = elim (Bool-cases (same_match x y)) [
  | inl equal ↦ cc (same_match-eq x y equal, mismatches-eq xs ys (rw equal at e))
  | inr other ↦ absurd (ground (arith, rw other at e))
]

module _ {F : Floating} (problem : Problem F) (config : Config F) where
  -- The backend is the reference itself, cannot be used, or has left the reference's matches.
  abbrev pub Agrees : List Match → MatchBackend F → Type 0
  Agrees matches b =
      (same b.name serial_name ≡ true)
      ⊎ ((b.available ≡ false) ⊎ RunLocal problem b config matches ok)

  All-Agrees :
      {matches : List Match} {bs : List (MatchBackend F)} {failures : ℕ}
      → Checks problem config matches bs failures
      → failures ≡ 0
      → All (Agrees matches) bs
  All-Agrees all_checked e = tt
  All-Agrees (is_serial is rest) e = (inl is, All-Agrees rest e)
  All-Agrees (skipped is unusable rest) e = (inr (inl unusable), All-Agrees rest e)
  All-Agrees (run_failed is usable run ne rest) e = absurd (ground (arith, e))
  All-Agrees {matches} (compared {b} {bs} {failures} {candidate} is usable run rest) e =
      elim (Bool-cases (mismatches matches candidate == 0)) [
        | inl none_found ↦
            let equal : matches ≡ candidate =
              mismatches-eq matches candidate (ground (arith, none_found)) in
            (
              inr (inr (subst (λ ms. RunLocal problem b config ms ok) (sym equal) run)),
              All-Agrees rest (rw none_found at e),
            )
        | inr some_found ↦ absurd (ground (arith, rw some_found at e))
      ]

  -- Where `run_verify` returns MSEARCH_OK, with whatever backends, the serial backend has run to
  -- success, and each of the others cannot be used or has left exactly its matches.
  pub VerifyRun-Agrees :
      (bs : List (MatchBackend F)) (r : Result (Unit {0}))
      → VerifyRun bs problem config r
      → r ≡ done tt
      → (b : MatchBackend F) × (matches : List Match) × (backend_find bs serial_name ≡ some b)
        × RunLocal problem b config matches ok
        × All (Agrees matches) bs
  VerifyRun-Agrees bs r no_buffers e = absurd (cc e)
  VerifyRun-Agrees bs r (reference_failed m found run ne) e = absurd (cc e)
  VerifyRun-Agrees bs r (checked {b} {reference = matches} {failures} found run checks) e =
      elim (Bool-cases (ltb 0 failures)) [
        | inl some_failed ↦ absurd (cc (rw some_failed at e))
        | inr none_failed ↦
            (b, matches, found, run, All-Agrees checks (ground (arith, none_failed)))
      ]

  -- How many of the backends that a run of `run_verify` compares have failed in it, in their
  -- creation or in their search.
  abbrev pub failed_runs :
      {matches : List Match} {bs : List (MatchBackend F)} {failures : ℕ}
      → Checks problem config matches bs failures
      → ℕ
  failed_runs all_checked = 0
  failed_runs (is_serial is rest) = failed_runs rest
  failed_runs (skipped is unusable rest) = failed_runs rest
  failed_runs (run_failed is usable run ne rest) = suc (failed_runs rest)
  failed_runs (compared is usable run rest) = failed_runs rest

  -- In this run something has failed: the buffers, the serial backend, or some of the others, and
  -- then the verdict counts exactly those.
  abbrev pub HasFailed :
      {bs : List (MatchBackend F)} {r : Result (Unit {0})} → VerifyRun bs problem config r → Type 0
  HasFailed {r} no_buffers = r ≡ err err_nomem cannot_allocate_buffers
  HasFailed {r} (reference_failed {s} m found run ne) = (r ≡ err s m) × (s ≢ ok)
  HasFailed {r} (checked found run checks) =
      (0 < failed_runs checks) × (r ≡ err err_backend (backends_disagreed (failed_runs checks)))

  module _ (laws : Ieee F) (eps_pos : F.lt (fzero F) config.zero_eps ≡ true)
      (valid : IsValid problem) (few : sum_elems problem.objects < 2 ^ 62)
      (rank_pos : pos 0 ≤ℤ config.node_rank) where
    abbrev Honest : MatchBackend F → Type 0
    Honest = IsHonest problem config laws eps_pos valid few rank_pos

    abbrev SerialLoop : List Match → Type 0
    SerialLoop matches =
        Loop (serial_backend (reference problem config laws eps_pos valid few rank_pos))
          problem.pictures matches ok

    Checks-failed_runs :
        {matches : List Match} {bs : List (MatchBackend F)} {failures : ℕ}
        → All Honest bs
        → SerialLoop matches
        → (checks : Checks problem config matches bs failures) → failures ≡ failed_runs checks
    Checks-failed_runs honest loop all_checked = refl
    Checks-failed_runs honest loop (is_serial is rest) = Checks-failed_runs honest.1 loop rest
    Checks-failed_runs honest loop (skipped is unusable rest) =
        Checks-failed_runs honest.1 loop rest
    Checks-failed_runs honest loop (run_failed is usable run ne rest) =
        ap suc (Checks-failed_runs honest.1 loop rest)
    Checks-failed_runs {matches} honest loop
          (compared {b} {bs} {failures} {candidate} is usable run rest) =
        let other = honest.0 candidate run in
        let equal : matches ≡ candidate = (serial_unique _ loop other).0 in
        let none_found : mismatches matches candidate ≡ 0 =
          ap (mismatches matches) (sym equal) ∙ mismatches_none matches in
        rw none_found (Checks-failed_runs honest.1 loop rest)

    -- `run_verify` raises no false alarm: a run of it, for a valid problem with fewer than 2^62
    -- elements in its objects, a positive zero_eps and a node rank of at least 0, in every build,
    -- returns MSEARCH_OK, or in this run the buffers could not be allocated, or the serial backend
    -- failed and its status is returned, or other backends failed and the verdict counts them and
    -- no others. The floating-point operations must have the properties of `Ieee`.
    pub VerifyRun-HasFailed :
        (have_cuda have_openmp : Bool) (device_count : Option ℤ) (r : Result (Unit {0}))
        → (run : VerifyRun (backends have_cuda have_openmp device_count) problem config r)
        → (r ≡ done tt) ⊎ HasFailed run
    VerifyRun-HasFailed have_cuda have_openmp d r no_buffers = inr refl
    VerifyRun-HasFailed have_cuda have_openmp d r (reference_failed m found run ne) = inr (refl, ne)
    VerifyRun-HasFailed have_cuda have_openmp d r
          (checked {b} {reference = matches} {failures} found run checks) =
        let same_b : serial ≡ b =
          some-injective _ _ (sym (backend_find-serial have_cuda have_openmp d) ∙ found) in
        let loop =
          serial-IsHonest problem config laws eps_pos valid few rank_pos matches
            (subst (λ c. RunLocal problem c config matches ok) (sym same_b) run) in
        let counted =
          Checks-failed_runs
            (backends-IsHonest problem config laws eps_pos valid few rank_pos have_cuda have_openmp
              d)
            loop checks in
        elim (Bool-cases (ltb 0 failures)) [
          | inl some_failed ↦ inr (
            omega (arith, counted, ltb-lt failures some_failed),
            rw some_failed (ap (λ k. err err_backend (backends_disagreed k)) counted),
          )
          | inr none_failed ↦ inl (rw none_failed refl)
        ]
