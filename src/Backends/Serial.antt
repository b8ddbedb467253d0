-- ===== src/Backends/Serial.antt =====
-- src/backends/backend_serial.c: the placements of each object, scanned in order.
pub mod Canonical
pub mod Lowest
use mpi_local_lab.Base.{
  ℕ, zero, suc, ◌+◌, ◌-◌, ◌/◌, ◌%◌, Bool, true, List, [], ◌∷◌, Option, none, some, ◌>>=◌,
  if◌then◌else◌,
}
use mpi_local_lab.Base.Int.{ℤ, pos, pos_part, ◌+ℤ◌, ◌-ℤ◌, eqb_ℤ}
use mpi_local_lab.Base.Machine.{to_int}
use mpi_local_lab.Floating.{Floating}
use mpi_local_lab.Types.{
  Status, err_nomem, Picture, Object, Problem, Match, match_none, Message, Result, done, err,
}
use mpi_local_lab.Problem.{placement_count}
use mpi_local_lab.Backends.{Context, placement_score, match_at}

module _ (F : Floating) (threshold zero_eps : F.Double) where
  -- The inner loop, with the keys left: the row and column of the first match.
  unfoldable pub scan : (rounds key : ℕ) (span : ℤ) → Picture → Object → Option (Option (ℤ × ℤ))
  scan zero key span picture object = some none
  scan (suc k) key span picture object = do
    let row = to_int (key / pos_part span)
    let col = to_int (key % pos_part span)
    score ← placement_score F threshold zero_eps picture object row col
    let rest = scan k (suc key) span picture object
    if F.lt score threshold then some (some (row, col)) else rest

  -- The outer loop, over the objects that are left.
  unfoldable pub search_objects : List Object → Picture → Option Match
  unfolding scan
  search_objects [] picture = some (match_none picture.id)
  search_objects (object ∷ objects) picture =
      let rest = search_objects objects picture in
      let placements = placement_count picture.n object.m in
      let span = picture.n -ℤ object.m +ℤ pos 1 in
      if eqb_ℤ placements (pos 0) then rest else do
        found ← scan (pos_part placements) 0 span picture object
        elim found [ none ↦ rest | some (row, col) ↦ some (match_at picture object row col) ]

unfoldable pub available : Bool
available = true

-- The flag is the answer of `calloc`.
unfoldable pub create :
    {F : Floating} → (calloc : Bool) → Problem F → (zero_eps : F.Double) → Result (Context F)
create calloc problem zero_eps =
    if calloc
    then done (record { problem = problem; zero_eps = zero_eps })
    else err err_nomem Message.cannot_allocate_context

-- Always `MSEARCH_OK`; `none` is undefined behaviour.
unfoldable pub search : {F : Floating} → Context F → Picture → Option Match
unfolding search_objects
search {F} ctx picture =
    search_objects F ctx.problem.threshold ctx.zero_eps ctx.problem.objects picture
