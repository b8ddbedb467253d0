-- ===== src/Backends/OpenMp.antt =====
-- src/backends/backend_openmp.c: the placements of one object, searched by many threads at once.
pub mod Interleaving
pub mod Progress
pub mod Canonical
pub mod Threads
use mpi_local_lab.Base.{
  ℕ, ◌+◌, ◌/◌, ◌%◌, ◌<◌, ◌≡◌, Bool, true, false, List, [], ◌∷◌, Option, some, ◌>>=◌, if◌then◌else◌,
  update,
}
use mpi_local_lab.Base.Int.{ℤ, pos, pos_part, ◌+ℤ◌, ◌-ℤ◌, ltb_ℤ, leb_ℤ, eqb_ℤ}
use mpi_local_lab.Base.Machine.{int_max, to_int}
use mpi_local_lab.Config.{Config}
use mpi_local_lab.Floating.{Floating}
use mpi_local_lab.Types.{Picture, Object, Match, match_none}
use mpi_local_lab.Problem.{placement_count}
use mpi_local_lab.Backends.{Context, placement_score, match_at}

-- `MSEARCH_NO_PLACEMENT`
abbrev pub no_placement : ℤ
no_placement = pos int_max

-- `env_set`: OMP_NUM_THREADS is in the environment. `max_threads`: what the OpenMP runtime answers.
unfoldable pub resolve_thread_count :
    {F : Floating} → (env_set : Bool) → (max_threads : ℤ) → Config F → ℤ
resolve_thread_count env_set max_threads config =
    if ltb_ℤ (pos 0) config.threads
    then config.threads
    else if env_set
    then max_threads
    else let ranks_here = if ltb_ℤ (pos 0) config.node_ranks then config.node_ranks else pos 1 in
      let share = pos (pos_part max_threads / pos_part ranks_here) in
      if ltb_ℤ (pos 0) share then share else pos 1

-- Where the iteration for one key stands, with the local variables that are live there.
pub data Phase : Type 0 where
  pending : Phase
  snapped : (snapshot : ℤ) → Phase  -- behind the atomic read
  entering : Phase  -- in front of the critical section
  finished : Phase

-- `best`, which the threads share, and the iteration of each key.
pub record Loop : Type 0 where
  pub best : ℤ
  pub phase : ℕ → Phase

abbrev pub start : Loop
start = record { best = no_placement; phase = λ _. pending }

-- One step of the thread that has the iteration for `key`. Which iterations are under way together
-- is left open, so each schedule of any number of threads is a sequence of these steps. `test key`
-- is `score < threshold` at that key, and `none` for a fault.
pub data Step (test : ℕ → Option Bool) (placements : ℕ) (s : Loop) : Loop → Type 0 where
  read :
      (key : ℕ)
      → key < placements
      → s.phase key ≡ pending
      → Step test placements s (record s { phase = update s.phase key (snapped s.best) })
  skip :
      (key : ℕ) (snapshot : ℤ)
      → s.phase key ≡ snapped snapshot
      → leb_ℤ snapshot (pos key) ≡ true
      → Step test placements s (record s { phase = update s.phase key finished })
  miss :
      (key : ℕ) (snapshot : ℤ)
      → s.phase key ≡ snapped snapshot
      → leb_ℤ snapshot (pos key) ≡ false
      → test key ≡ some false
      → Step test placements s (record s { phase = update s.phase key finished })
  matched :
      (key : ℕ) (snapshot : ℤ)
      → s.phase key ≡ snapped snapshot
      → leb_ℤ snapshot (pos key) ≡ false
      → test key ≡ some true
      → Step test placements s (record s { phase = update s.phase key entering })
  critical :
      (key : ℕ)
      → s.phase key ≡ entering
      → Step test placements s (record {
        best = if ltb_ℤ (to_int key) s.best then to_int key else s.best;
        phase = update s.phase key finished;
      })

-- `n` steps lead from the start of the loop to a state.
pub data Run (test : ℕ → Option Bool) (placements : ℕ) : ℕ → Loop → Type 0 where
  begin : Run test placements 0 start
  later :
      {n : ℕ} {s t : Loop}
      → Run test placements n s
      → Step test placements s t
      → Run test placements (n + 1) t

-- The loop ends when every iteration has.
abbrev pub IsFinished : (placements : ℕ) → Loop → Type 0
IsFinished placements s = (key : ℕ) → key < placements → s.phase key ≡ finished

-- `score < threshold` at a key.
unfoldable pub test :
    (F : Floating) (threshold zero_eps : F.Double) → Picture → Object → (span : ℤ) → ℕ → Option Bool
test F threshold zero_eps picture object span key = do
  let row = to_int (key / pos_part span)
  let col = to_int (key % pos_part span)
  score ← placement_score F threshold zero_eps picture object row col
  some (F.lt score threshold)

-- `lowest_matching_placement` may return this value.
pub record Lowest (F : Floating) (threshold zero_eps : F.Double) (picture : Picture)
    (object : Object) (placements span best : ℤ) : Type 0 where
  pub steps : ℕ
  pub last : Loop
  pub run : Run (test F threshold zero_eps picture object span) (pos_part placements) steps last
  pub ended : IsFinished (pos_part placements) last
  pub returned : best ≡ last.best

-- `openmp_search` may return this match: a round for each object that is left.
pub data SearchRun (F : Floating) (threshold zero_eps : F.Double) (picture : Picture)
    : List Object → Match → Type 0 where
  none_left : SearchRun F threshold zero_eps picture [] (match_none picture.id)
  no_room :
      {object : Object} {objects : List Object} {out : Match}
      → eqb_ℤ (placement_count picture.n object.m) (pos 0) ≡ true
      → SearchRun F threshold zero_eps picture objects out
      → SearchRun F threshold zero_eps picture (object ∷ objects) out
  no_match :
      {object : Object} {objects : List Object} {out : Match} {best : ℤ}
      → eqb_ℤ (placement_count picture.n object.m) (pos 0) ≡ false
      → Lowest F threshold zero_eps picture object
          (placement_count picture.n object.m)
          (picture.n -ℤ object.m +ℤ pos 1)
          best
      → eqb_ℤ best no_placement ≡ true
      → SearchRun F threshold zero_eps picture objects out
      → SearchRun F threshold zero_eps picture (object ∷ objects) out
  first_match :
      {object : Object} {objects : List Object} {best : ℤ}
      → eqb_ℤ (placement_count picture.n object.m) (pos 0) ≡ false
      → Lowest F threshold zero_eps picture object
          (placement_count picture.n object.m)
          (picture.n -ℤ object.m +ℤ pos 1)
          best
      → eqb_ℤ best no_placement ≡ false
      → SearchRun F threshold zero_eps picture (object ∷ objects) (
          match_at picture object
            (pos (pos_part best / pos_part (picture.n -ℤ object.m +ℤ pos 1)))
            (pos (pos_part best % pos_part (picture.n -ℤ object.m +ℤ pos 1))))

-- `openmp_search` returns `MSEARCH_OK` and may leave this match in `*out`.
abbrev pub Search : {F : Floating} → Context F → Picture → Match → Type 0
Search {F} ctx picture out =
    SearchRun F ctx.problem.threshold ctx.zero_eps picture ctx.problem.objects out
