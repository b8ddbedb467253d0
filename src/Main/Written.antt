-- ===== src/Main/Written.antt =====
-- What `main` (src/cli/main.c) writes, from the command line to the output.
use mathlib.Core.Path.{subst}
use mathlib.Core.Option.{some-injective}
use mpi_local_lab.Base.{
  ℕ, ◌<◌, ◌^◌, ◌≡◌, refl, sym, ap, ◌∙◌, arith, Bool, true, inl, inr, List, [], ◌∷◌, Option, some,
  All, Bool-cases, Option-cases,
}
use mpi_local_lab.Base.Int.{ℤ, pos, ◌≤ℤ◌}
use mpi_local_lab.Config.{Text, Config}
use mpi_local_lab.Floating.{Floating, Ieee, fzero}
use mpi_local_lab.Types.{Status, ok, Picture, Problem, Match}
use mpi_local_lab.Problem.Validate.Valid.{IsPicture, IsValid}
use mpi_local_lab.Canonical.{IsCanonical}
use mpi_local_lab.Backends.{Context}
use mpi_local_lab.Backends.Serial.Canonical.{search-IsCanonical}
use mpi_local_lab.Backends.Cuda.Packed.{sum_elems}
use mpi_local_lab.Reader.Stream.{read_problem}
use mpi_local_lab.Reader.Stream.Total.{read_problem_stream-cases}
use mpi_local_lab.Reader.Matrix.Sized.{IsSizing}
use mpi_local_lab.Options.{Parsed, config_defaults, auto_name}
use mpi_local_lab.Options.Flags.{same}
use mpi_local_lab.Options.Accepted.{IsAccepted, config_parse-Judged}
use mpi_local_lab.Runtime.Local.{Loop, none_left, searched, failed}
use mpi_local_lab.Determinism.{serial_backend}
use mpi_local_lab.Registry.{MatchBackend, serial, backends, backend_find, backend_auto, RunLocal}
use mpi_local_lab.Registry.Choice.{if_of_true, if_of_false}
use mpi_local_lab.Registry.Agreement.{IsHonest, reference, serial-IsHonest, backends-IsHonest}
use mpi_local_lab.Writer.Lines.{lines_of, write_results-lines}
use mpi_local_lab.Main.{
  exited, backend_known, selected, Repeat, rep_failed, last_rep, another_rep, Process, Configured,
  Loaded, MainRun, wrote,
}

Repeat-RunLocal :
    {F : Floating} {problem : Problem F} {backend : MatchBackend F} {config : Config F} {reps : ℕ}
    {matches : List Match} {s : Status}
    → Repeat problem backend config reps matches s
    → s ≡ ok
    → RunLocal problem backend config matches ok
Repeat-RunLocal (rep_failed run ne) e = absurd (ne e)
Repeat-RunLocal (last_rep run) e = run
Repeat-RunLocal (another_rep run rest) e = Repeat-RunLocal rest e

All-backend_find :
    {F : Floating} (P : MatchBackend F → Type 0) (bs : List (MatchBackend F)) (name : Text)
    (b : MatchBackend F)
    → All P bs
    → backend_find bs name ≡ some b
    → P b
unfolding backend_find
All-backend_find P [] name b h e = cc
All-backend_find P (c ∷ bs) name b h e = elim (Bool-cases (same c.name name)) [
  | inl here ↦
      subst P
        (some-injective _ _
          (sym (if_of_true (same c.name name) (some c) (backend_find bs name) here) ∙ e))
        h.0
  | inr later ↦
      All-backend_find P bs name b h.1
        (sym (if_of_false (same c.name name) (some c) (backend_find bs name) later) ∙ e)
]

All-backend_auto :
    {F : Floating} (P : MatchBackend F → Type 0) (bs : List (MatchBackend F))
    → P serial
    → All P bs
    → P (backend_auto bs)
unfolding backend_auto
All-backend_auto P [] last h = last
All-backend_auto P (c ∷ bs) last h = elim (Bool-cases c.available) [
  | inl here ↦ subst P (sym (if_of_true c.available c (backend_auto bs) here)) h.0
  | inr later ↦
      subst P (sym (if_of_false c.available c (backend_auto bs) later))
        (All-backend_auto P bs last h.1)
]

All-selected :
    {F : Floating} (P : MatchBackend F → Type 0) (bs : List (MatchBackend F)) (name : Text)
    (b : MatchBackend F)
    → P serial
    → All P bs
    → selected bs name ≡ some b
    → P b
unfolding selected
All-selected P bs name b last h e = elim (Bool-cases (same name auto_name)) [
  | inl auto ↦
      subst P
        (some-injective _ _ (
          sym
            (if_of_true (same name auto_name) (some (backend_auto bs)) (backend_find bs name) auto)
          ∙ e))
        (All-backend_auto P bs last h)
  | inr named ↦ All-backend_find P bs name b h (
      sym (if_of_false (same name auto_name) (some (backend_auto bs)) (backend_find bs name) named)
      ∙ e)
]

-- For each picture its match, in order, as the determinism contract has it.
abbrev pub AllCanonical :
    {F : Floating} → Problem F → (zero_eps : F.Double) → List Picture → List Match → Type 0
AllCanonical {F} problem zero_eps [] [] = Unit
AllCanonical {F} problem zero_eps [] (m ∷ ms) = ⊥
AllCanonical {F} problem zero_eps (p ∷ ps) [] = ⊥
AllCanonical {F} problem zero_eps (p ∷ ps) (m ∷ ms) =
    IsCanonical F problem.threshold zero_eps p problem.objects m
    × AllCanonical problem zero_eps ps ms

Loop-AllCanonical :
    {F : Floating} (ctx : Context F)
    → Ieee F
    → F.lt (fzero F) ctx.zero_eps ≡ true
    → IsValid ctx.problem
    → {ps : List Picture} {ms : List Match} {s : Status} → Loop (serial_backend ctx) ps ms s
    → All IsPicture ps
    → AllCanonical ctx.problem ctx.zero_eps ps ms
Loop-AllCanonical {F} ctx laws eps valid none_left h = tt
Loop-AllCanonical {F} ctx laws eps valid (searched {picture = p} {match = m} found rest) h =
    let (match, runs, is) = search-IsCanonical ctx p laws eps valid h.0 in
    (
      subst (IsCanonical F ctx.problem.threshold ctx.zero_eps p ctx.problem.objects)
          (some-injective _ _ (sym runs ∙ found)) is,
      Loop-AllCanonical ctx laws eps valid rest h.1,
    )
Loop-AllCanonical ctx laws eps valid (failed none_such) h = absurd none_such

module _ {F : Floating} (process : Process F) (args : List Text)
    (default_pos : F.lt (fzero F) process.default_zero_eps ≡ true)
    (sized_pictures : (i : ℕ) → IsSizing (process.alloc.malloc_picture i))
    (sized_objects : (i : ℕ) → IsSizing (process.alloc.malloc_object i)) where
  defaults-IsAccepted :
      IsAccepted (backend_known process.built) (config_defaults F process.default_zero_eps)
  unfolding config_defaults same
  defaults-IsAccepted = record {
    threads_bounded = (refl, refl);
    device_bounded = (refl, refl);
    bench_bounded = (refl, refl);
    eps_pos = default_pos;
    backend_found = inl refl;
  }

  Configured-eps_pos :
      (config : Config F) → Configured process args config → F.lt (fzero F) config.zero_eps ≡ true
  Configured-eps_pos config c =
      let (parsed, parses, judged) =
        config_parse-Judged process.strtod (backend_known process.built)
          (config_defaults F process.default_zero_eps) args defaults-IsAccepted in
      let same_parsed : parsed ≡ c.parsed = some-injective _ _ (sym parses ∙ c.parses) in
      let eps : c.parsed.config.zero_eps ≡ config.zero_eps =
        ap (λ (k : Config F). k.zero_eps) (sym c.config_is) in
      elim judged [
        | inr (m, refused) ↦ absurd (cc (refused, same_parsed, c.success))
        | inl (success, accepted) ↦
            subst (λ e. F.lt (fzero F) e ≡ true)
              (ap (λ (q : Parsed F). q.config.zero_eps) same_parsed ∙ eps) accepted.eps_pos
      ]

  pub Loaded-IsValid :
      (config : Config F) (problem : Problem F)
      → Loaded process args config problem
      → IsValid problem
  unfolding read_problem
  Loaded-IsValid config problem loaded = elim (Option-cases (process.files config.input_path)) [
    | inl missing ↦ absurd (cc (rw missing at loaded.reads))
    | inr (input, opened) ↦
        elim (read_problem_stream-cases process.strtod process.alloc input sized_pictures
          sized_objects) [
            | inr (refused, never) ↦ absurd (never problem (rw opened at loaded.reads))
            | inl (p, result, ends, how) ↦
                let same_end = some-injective _ _ (sym ends ∙ (rw opened at loaded.reads)) in
                elim how [
                  | inl (success, valid) ↦ subst IsValid (ap (λ x. x.0) same_end) valid
                  | inr (s, m, failure, empty) ↦ absurd (cc (failure, ap (λ x. x.1) same_end))
                ]
          ]
  ]

  -- Where the process exits with code 0 and has written results: the command line was accepted,
  -- the input held a valid problem, and what has been written is a line for each of its pictures,
  -- in input order, with the match that the determinism contract names, whichever backend of the
  -- build was chosen. The default epsilon must be positive, `malloc` must give arrays of the size
  -- asked for, the objects must have less than 2^62
  -- elements, and the floating-point operations must have the properties of `Ieee`.
  pub MainRun-AllCanonical :
      Ieee F
      → (have_cuda have_openmp : Bool) (device_count : Option ℤ)
      → process.built ≡ backends have_cuda have_openmp device_count
      → ((config : Config F) (problem : Problem F)
          → Loaded process args config problem
          → sum_elems problem.objects < 2 ^ 62)
      → (text : Text) → MainRun process args (exited (pos 0) (some text))
      → (config : Config F) × (problem : Problem F) × (matches : List Match) × Loaded process args
          config problem
        × IsValid problem
        × AllCanonical problem config.zero_eps problem.pictures matches
        × (text ≡ lines_of matches)
  MainRun-AllCanonical laws have_cuda have_openmp d built few text
        (wrote {config} {problem} {backend} {matches} finished memory writes) =
      let loaded = finished.chosen.loaded in
      let valid = Loaded-IsValid config problem loaded in
      let eps = Configured-eps_pos config loaded.configured in
      let small = few config problem loaded in
      let rank_pos : pos 0 ≤ℤ config.node_rank = rw loaded.configured.config_is (omega arith) in
      let honest =
        All-selected (IsHonest problem config laws eps valid small rank_pos)
          (backends have_cuda have_openmp d) config.backend_name backend
          (serial-IsHonest problem config laws eps valid small rank_pos)
          (backends-IsHonest problem config laws eps valid small rank_pos have_cuda have_openmp d)
          (rw built at finished.chosen.selects) in
      let loop = honest matches (Repeat-RunLocal finished.repeats refl) in
      let lines =
        write_results-lines process.output config.output_path matches (ap (λ x. x.1) writes) in
      (
        config,
        problem,
        matches,
        loaded,
        valid,
        Loop-AllCanonical (reference problem config laws eps valid small rank_pos) laws eps valid
            loop valid.all_pictures,
        sym (ap (λ x. x.0) writes) ∙ lines,
      )
