-- ===== src/Backends/Serial/Lowest.antt =====
-- src/backends/backend_serial.c against the determinism contract, in the words of
-- include/msearch/backend.h.
use mpi_local_lab.Base.{ℕ, ◌≡◌, true, some, get_elem?}
use mpi_local_lab.Base.Int.{pos, ◌≤ℤ◌}
use mpi_local_lab.Floating.{Floating, Ieee, fzero}
use mpi_local_lab.Types.{Picture, Object, Match}
use mpi_local_lab.Problem.Validate.Valid.{IsPicture, IsValid}
use mpi_local_lab.Canonical.{Occurs, First}
use mpi_local_lab.Canonical.Contract.{IsCanonical-lowest}
use mpi_local_lab.Backends.{Context}
use mpi_local_lab.Backends.Serial.{search}
use mpi_local_lab.Backends.Serial.Canonical.{search-IsCanonical}

-- Where some object of a valid problem occurs in a picture that can be searched, the serial backend
-- returns a match, and it names an object of the problem that has the lowest id of all that occur,
-- at its row-major-first placement. The floating-point operations must have the properties of
-- `Ieee`, and zero_eps must be positive.
pub search-lowest :
    {F : Floating} (ctx : Context F) (p : Picture)
    → Ieee F
    → F.lt (fzero F) ctx.zero_eps ≡ true
    → IsValid ctx.problem
    → IsPicture p
    → (i : ℕ) (q : Object) (r c : ℕ) → get_elem? ctx.problem.objects i ≡ some q
    → Occurs F ctx.problem.threshold ctx.zero_eps p q r c
    → (match : Match) × (search ctx p ≡ some match)
      × (j : ℕ) × (o : Object) × (r' : ℕ) × (c' : ℕ) × (get_elem? ctx.problem.objects j ≡ some o)
      × First F ctx.problem.threshold ctx.zero_eps p o r' c'
      × (match ≡ record { picture_id = p.id; object_id = o.id; row = pos r'; col = pos c' })
      × (o.id ≤ℤ q.id)
search-lowest {F} ctx p laws eps_pos valid wp i q r c at occurs =
    let (match, run, is) = search-IsCanonical ctx p laws eps_pos valid wp in
    let (j, o, r', c', at', first, names, le) =
      IsCanonical-lowest F ctx.problem.threshold ctx.zero_eps p ctx.problem.objects match i q r c
        valid.in_order is at occurs in
    (match, run, j, o, r', c', at', first, names, le)
