-- ===== src/Determinism.antt =====
-- The serial and the OpenMP backend (include/msearch/backend.h) under the local and the MPI runtime
-- (include/msearch/runtime.h).
use mpi_local_lab.Base.{ℕ, ◌<◌, ◌≡◌, sym, ◌∙◌, ap, refl, true, List, [], ◌∷◌, some, All}
use mathlib.Core.Option.{some-injective}
use mpi_local_lab.Base.Int.{ℤ}
use mpi_local_lab.Floating.{Floating, fzero, Ieee}
use mpi_local_lab.Types.{Status, ok, Picture, Object, Match, Result, done, err}
use mpi_local_lab.Problem.Validate.Valid.{IsPicture, IsValid}
use mpi_local_lab.Backends.{Context}
use mpi_local_lab.Backends.Serial.{search}
use mpi_local_lab.Backends.OpenMp.{Search, SearchRun, none_left, no_room, no_match, first_match}
use mpi_local_lab.Backends.OpenMp.Canonical.{Search-eq-serial}
use mpi_local_lab.Runtime.{Backend}
use mpi_local_lab.Runtime.Local.{Loop, searched, failed}
use mpi_local_lab.Runtime.Local
use mpi_local_lab.Runtime.Collectives.{Collectives}
use mpi_local_lab.Runtime.Gather.{MpiRun, gathered, returned}
use mpi_local_lab.Runtime.Agreement.{IsNaming, returned-IsLocal}

-- The serial backend with its context: `serial_search` always returns MSEARCH_OK.
abbrev pub serial_backend : {F : Floating} → Context F → Backend
serial_backend ctx p (done m) = search ctx p ≡ some m
serial_backend ctx p (err s message) = ⊥

abbrev pub openmp_backend : {F : Floating} → Context F → Backend
openmp_backend ctx p (done m) = Search ctx p m
openmp_backend ctx p (err s message) = ⊥

-- The serial backend leaves one list of matches, and always succeeds.
pub serial_unique :
    {F : Floating} (ctx : Context F) {pictures : List Picture} {a b : List Match} {s t : Status}
    → Loop (serial_backend ctx) pictures a s
    → Loop (serial_backend ctx) pictures b t
    → (a ≡ b) × (s ≡ ok) × (t ≡ ok)
serial_unique ctx Local.none_left Local.none_left = (refl, refl, refl)
serial_unique ctx (searched f x) (searched g y) =
    let (same, so, to) = serial_unique ctx x y in
    (cc (some-injective _ _ (sym f ∙ g), same), so, to)
serial_unique ctx (failed f) y = absurd f
serial_unique ctx x (failed g) = absurd g

-- A loop with one backend is one with another that may answer all that the first may.
pub Loop-wider :
    (a b : Backend) {pictures : List Picture} {matches : List Match} {s : Status}
    → All (λ p. (x : Result Match) → a p x → b p x) pictures
    → Loop a pictures matches s
    → Loop b pictures matches s
Loop-wider a b h Local.none_left = Local.none_left
Loop-wider a b h (searched may rest) = searched (h.0 _ may) (Loop-wider a b h.1 rest)
Loop-wider a b h (failed may) = failed (h.0 _ may)

SearchRun-names :
    {F : Floating} {threshold zero_eps : F.Double} {p : Picture} {os : List Object} {out : Match}
    → SearchRun F threshold zero_eps p os out
    → out.picture_id ≡ p.id
SearchRun-names none_left = refl
SearchRun-names (no_room full run) = SearchRun-names run
SearchRun-names (no_match room low none_matched run) = SearchRun-names run
SearchRun-names (first_match room low matched) = refl

pub openmp-IsNaming : {F : Floating} (ctx : Context F) → IsNaming (openmp_backend ctx)
openmp-IsNaming ctx p m run = SearchRun-names run

module _ {F : Floating} (ctx : Context F) (laws : Ieee F)
    (eps_pos : F.lt (fzero F) ctx.zero_eps ≡ true) (valid : IsValid ctx.problem) where
  openmp_to_serial :
      (p : Picture)
      → IsPicture p
      → (x : Result Match) → openmp_backend ctx p x
      → serial_backend ctx p x
  openmp_to_serial p wp (done m) run =
      let (match, serial, run', unique) = Search-eq-serial ctx p laws eps_pos valid wp in
      serial ∙ ap some (sym (unique m run))
  openmp_to_serial p wp (err s message) none_such = none_such

  pub All-to_serial :
      (ps : List Picture)
      → All IsPicture ps
      → All (λ p. (x : Result Match) → openmp_backend ctx p x → serial_backend ctx p x) ps
  All-to_serial [] h = tt
  All-to_serial (p ∷ ps) h = (openmp_to_serial p h.0, All-to_serial ps h.1)

-- For a valid problem, whatever number of MPI processes share it and however they and their OpenMP
-- threads interleave: where a rank of a run of `msearch_run_mpi` with the OpenMP backend returns
-- MSEARCH_OK, rank 0 has the list of matches that `msearch_run_local` returns with the serial
-- backend, which leaves one list only. The floating-point operations must have the properties of
-- `Ieee`, and the threshold below which a divisor counts as zero must be positive.
pub run_mpi-eq-run_local :
    {F : Floating} (ctx : Context F) (mpi : Collectives ℤ) (ranks : ℕ)
    → Ieee F
    → F.lt (fzero F) ctx.zero_eps ≡ true
    → IsValid ctx.problem
    → (m : MpiRun mpi ranks (openmp_backend ctx) ctx.problem.pictures) → (r : ℕ) → r < ranks
    → returned mpi ranks m r ≡ ok
    → (out : List Match) × (gathered mpi ranks m ≡ done out)
      × Loop (serial_backend ctx) ctx.problem.pictures out ok
      × ((matches : List Match) (status : Status)
          → Loop (serial_backend ctx) ctx.problem.pictures matches status
          → (matches ≡ out) × (status ≡ ok))
run_mpi-eq-run_local {F} ctx mpi ranks laws eps_pos valid m r lt e =
    let (out, has, local) =
      returned-IsLocal mpi ranks (openmp_backend ctx) ctx.problem.pictures m (openmp-IsNaming ctx) r
        lt e in
    let serial =
      Loop-wider (openmp_backend ctx) (serial_backend ctx)
        (All-to_serial ctx laws eps_pos valid ctx.problem.pictures valid.all_pictures) local in
    (
      out,
      has,
      serial,
      λ matches status other. let (same, s, t) = serial_unique ctx other serial in (same, s),
    )
