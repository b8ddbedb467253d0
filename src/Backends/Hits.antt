-- ===== src/Backends/Hits.antt =====
-- On searchable input the test of the placement loops (src/backends) is the contract's.
use mpi_local_lab.Base.{
  ℕ, ◌+◌, ◌-◌, ◌*◌, ◌/◌, ◌%◌, ◌≤◌, ◌<◌, ◌≡◌, arith, Bool, true, false, List, Option, none, some,
  mul_mono,
}
use mpi_local_lab.Base.Int.{ℤ, pos, ◌+ℤ◌, ◌-ℤ◌, eqb_ℤ}
use mpi_local_lab.Base.Machine.{int_max, to_int, to_int_of_lt}
use mpi_local_lab.Floating.{Floating, Ieee, fzero}
use mpi_local_lab.Metric.Exact.{score_at-exact}
use mpi_local_lab.Metric.Bounds.{Window, window_fits, score_at_total, exact_score_total}
use mpi_local_lab.Types.{Picture, Object}
use mpi_local_lab.Problem.{placement_count}
use mpi_local_lab.Problem.Placements.{span_lem, placement_count_of_le, placement_count_of_lt}
use mpi_local_lab.Problem.Validate.Valid.{IsMatrix}
use mpi_local_lab.Canonical.{matches, Occurs, Absent, First, Earlier}
use mpi_local_lab.Canonical.Placement.{
  IsLeast, key_row-lt, key_col-lt, key-lt, key_row_col, key_lt_of_Earlier,
}
use mpi_local_lab.Backends.{placement_score}

module _ {F : Floating} (laws : Ieee F) (threshold zero_eps : F.Double)
    (eps_pos : F.lt (fzero F) zero_eps ≡ true) where
  -- Inside the picture the code reads no element out of bounds, and tests what the contract names.
  pub placement_score-matches :
      (p : Picture) (o : Object) (wp : IsMatrix p.n p.elems) (wo : IsMatrix o.m o.elems) (r c : ℕ)
      → wp.width ≤ 46340
      → r + wo.width ≤ wp.width
      → c + wo.width ≤ wp.width
      → (s : F.Double) × (placement_score F threshold zero_eps p o (pos r) (pos c) ≡ some s)
        × (F.lt s threshold ≡ matches F threshold zero_eps wp.cells wp.width wo.cells wo.width r c)
  unfolding placement_score matches
  placement_score-matches p o wp wo r c small hr hc =
      let w : Window wp.cells wp.width wo.cells wo.width r c = record {
        picture_size = wp.size;
        object_size = wo.size;
        rows = hr;
        cols = hc;
        small = small;
      } in
      let (s, e) = score_at_total F zero_eps wp.cells wp.width wo.cells wo.width r c w threshold in
      let (t, f) = exact_score_total F zero_eps wp.cells wp.width wo.cells wo.width r c w in
      let fits = window_fits F zero_eps wp.cells wp.width wo.cells wo.width r c w in
      (
        s,
        rw (wp.elems_is, wo.elems_is, wp.side_is, wo.side_is) e,
        rw (f, matches)
            (score_at-exact F laws zero_eps eps_pos wp.cells wp.width wo.cells wo.width r c
              threshold fits e f).0,
      )

-- A picture and an object that a backend may search, where the object fits.
pub record Fit (p : Picture) (o : Object) : Type 0 where
  pub picture : IsMatrix p.n p.elems
  pub object : IsMatrix o.m o.elems
  pub small : picture.width ≤ 46340
  pub fits : object.width ≤ picture.width

-- The same `matches`, read through any other description of the two matrices.
Occurs-matches :
    {F : Floating} (threshold zero_eps : F.Double) (p : Picture) (o : Object)
    (wp : IsMatrix p.n p.elems) (wo : IsMatrix o.m o.elems) (r c : ℕ)
    → Occurs F threshold zero_eps p o r c
    → (r + wo.width ≤ wp.width)
      × (c + wo.width ≤ wp.width)
      × (matches F threshold zero_eps wp.cells wp.width wo.cells wo.width r c ≡ true)
Occurs-matches threshold zero_eps p o wp wo r c h =
    let n_eq : h.n ≡ wp.width = cc (h.n_is, wp.side_is) in
    let m_eq : h.m ≡ wo.width = cc (h.m_is, wo.side_is) in
    let cells_eq : h.cells ≡ wp.cells = cc (h.cells_is, wp.elems_is) in
    let pattern_eq : h.pattern ≡ wo.cells = cc (h.pattern_is, wo.elems_is) in
    (omega (arith, h.rows), omega (arith, h.cols), cc (h.below))

-- An object that is larger than the picture occurs nowhere in it.
pub Absent-of_lt :
    {F : Floating} (threshold zero_eps : F.Double) (p : Picture) (o : Object)
    (wp : IsMatrix p.n p.elems) (wo : IsMatrix o.m o.elems)
    → wp.width < wo.width
    → Absent F threshold zero_eps p o
Absent-of_lt threshold zero_eps p o wp wo lt r c h =
    absurd (omega (arith, (Occurs-matches threshold zero_eps p o wp wo r c h).0))

-- The placements of a row or of a column, and of the picture.
abbrev pub span_of : {p : Picture} {o : Object} → Fit p o → ℕ
span_of fit = fit.picture.width - fit.object.width + 1

pub span_of-le : {p : Picture} {o : Object} (fit : Fit p o) → span_of fit ≤ 46340
span_of-le fit = omega (arith, fit.small, fit.object.width_pos)

-- Every key, and the number of keys, lies below `MSEARCH_NO_PLACEMENT`.
pub placements-lt : {p : Picture} {o : Object} (fit : Fit p o) → span_of fit * span_of fit < int_max
placements-lt fit =
    let le = span_of-le fit in
    omega
      (arith, mul_mono (span_of fit) 46340 (span_of fit) le, mul_mono (span_of fit) 46340 46340 le)

-- What the code computes as `span` and as `placements`.
pub span-Fit : {p : Picture} {o : Object} (fit : Fit p o) → p.n -ℤ o.m +ℤ pos 1 ≡ pos (span_of fit)
span-Fit fit =
    rw (fit.picture.side_is, fit.object.side_is)
      (span_lem fit.picture.width fit.object.width fit.fits)

pub placements-Fit :
    {p : Picture} {o : Object} (fit : Fit p o)
    → placement_count p.n o.m ≡ pos (span_of fit * span_of fit)
placements-Fit fit =
    rw (fit.picture.side_is, fit.object.side_is)
      (placement_count_of_le fit.picture.width fit.object.width fit.fits)

pub placements_nonzero :
    {p : Picture} {o : Object} (fit : Fit p o)
    → eqb_ℤ (pos (span_of fit * span_of fit)) (pos 0) ≡ false
placements_nonzero fit =
    let one = mul_mono 1 (span_of fit) (span_of fit) (omega arith) in ground (arith, one)

-- An object that is larger than the picture has no placement.
pub placements_larger :
    {n m : ℤ} {a b : Option (List ℤ)} (wp : IsMatrix n a) (wo : IsMatrix m b)
    → wp.width < wo.width
    → placement_count n m ≡ pos 0
placements_larger wp wo lt =
    rw (wp.side_is, wo.side_is) (placement_count_of_lt wp.width wo.width lt)

-- The row and the column of a key fit an int.
pub to_int-row :
    {p : Picture} {o : Object} (fit : Fit p o) (key : ℕ)
    → key < span_of fit * span_of fit
    → to_int (key / span_of fit) ≡ pos (key / span_of fit)
to_int-row fit key lt =
    to_int_of_lt _ (omega (arith, key_row-lt key (span_of fit) lt, span_of-le fit))

pub to_int-col :
    {p : Picture} {o : Object} (fit : Fit p o) (key : ℕ)
    → key < span_of fit * span_of fit
    → to_int (key % span_of fit) ≡ pos (key % span_of fit)
to_int-col fit key lt =
    to_int_of_lt _ (omega (arith, key_col-lt key (span_of fit) lt, span_of-le fit))

module _ (F : Floating) (threshold zero_eps : F.Double) (p : Picture) (o : Object)
    (fit : Fit p o) where
  open fit use {picture, object, small, fits}

  abbrev span : ℕ
  span = span_of fit

  -- Does the object match at this placement key?
  abbrev pub hit : ℕ → Bool
  hit key =
      matches F threshold zero_eps picture.cells picture.width object.cells object.width
        (key / span) (key % span)

  pub Absent-of_IsLeast : IsLeast hit 0 (span * span) none → Absent F threshold zero_eps p o
  Absent-of_IsLeast none_hit r c h =
      let (hr, hc, below) = Occurs-matches threshold zero_eps p o picture object r c h in
      let (row, col) = key_row_col r c span (omega arith) in
      let miss =
        none_hit (r * span + c) (omega arith) (key-lt r c span (omega arith) (omega arith)) in
      absurd (cc (row, col, miss, below))

  least_excludes :
      (k : ℕ)
      → IsLeast hit 0 (span * span) (some k)
      → (r c : ℕ) → Earlier r c (k / span) (k % span)
      → ¬ Occurs F threshold zero_eps p o r c
  least_excludes k (lo, lt, is_hit, least) r c earlier h =
      let (hr, hc, below) = Occurs-matches threshold zero_eps p o picture object r c h in
      let (row, col) = key_row_col r c span (omega arith) in
      let before = key_lt_of_Earlier r c k span (omega arith) earlier in
      let miss = least (r * span + c) (omega arith) before in absurd (cc (row, col, miss, below))

  pub First-of_IsLeast :
      (k : ℕ)
      → IsLeast hit 0 (span * span) (some k)
      → First F threshold zero_eps p o (k / span) (k % span)
  First-of_IsLeast k is_least = record {
    occurs = record {
      n = picture.width;
      m = object.width;
      cells = picture.cells;
      pattern = object.cells;
      n_is = picture.side_is;
      m_is = object.side_is;
      cells_is = picture.elems_is;
      pattern_is = object.elems_is;
      rows = omega (arith, key_row-lt k span is_least.1);
      cols = omega (arith, key_col-lt k span is_least.1);
      below = is_least.2;
    };
    least = least_excludes k is_least;
  }

  -- At every key the test of the code is `hit`, and its casts to int change nothing.
  pub placement_score-hit :
      (laws : Ieee F)
      → F.lt (fzero F) zero_eps ≡ true
      → (key : ℕ) → key < span * span
      → (s : F.Double) × (placement_score F threshold zero_eps p o
            (to_int (key / span))
            (to_int (key % span))
          ≡ some s)
        × (F.lt s threshold ≡ hit key)
  placement_score-hit laws eps_pos key lt =
      let row = key_row-lt key span lt in
      let col = key_col-lt key span lt in
      rw (to_int-row fit key lt, to_int-col fit key lt)
        (placement_score-matches laws threshold zero_eps eps_pos p o picture object (key / span)
          (key % span) small (omega arith) (omega arith))
