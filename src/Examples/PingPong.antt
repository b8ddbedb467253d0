-- ===== src/Examples/PingPong.antt =====
-- examples/ping-pong/main.c: the exchange between ranks 0 and 1.
pub mod Progress
use mpi_local_lab.Base.{
  ℕ, suc, ◌+◌, ◌≡◌, ◌==◌, Bool, true, false, not, ◌||◌, List, [], ◌∷◌, ◌++◌, Option, none, some,
  replicate, if◌then◌else◌, take, drop, length,
}
use mpi_local_lab.Base.Int.{ℤ, pos, pos_part, leb_ℤ, ◌≤ℤ◌}
use mpi_local_lab.Base.Machine.{to_int}
use mpi_local_lab.Config.{Text}
use mpi_local_lab.Reader.Number.{strtol, is_empty}
use mpi_local_lab.Options.{skip_blanks}

-- `parse_positive`, which the examples share; `none` is NULL.
unfoldable pub parse_positive : (text : Option Text) → (fallback : ℤ) → ℤ
unfolding skip_blanks strtol
parse_positive none fallback = fallback
parse_positive (some text) fallback =
    let number = strtol (skip_blanks text) in
    if not number.converted || not (is_empty number.rest) || leb_ℤ number.value (pos 0)
    then fallback
    else number.value

-- The buffers of the ranks, the messages under way with each tag, and where the loops stand: the
-- rounds that are left, and whether the first call of the round has returned.
pub record Exchange : Type 0 where
  pub left0 : ℕ
  pub has_sent : Bool
  pub buffer0 : List ℕ
  pub left1 : ℕ
  pub has_received : Bool
  pub buffer1 : List ℕ
  pub pings : List (List ℕ)
  pub pongs : List (List ℕ)

-- `memset(buffer, 0xA5, payload)`
abbrev pub pattern : (payload : ℕ) → List ℕ
pattern payload = replicate payload 165

-- What rank 0 reports, and returns as the exit code.
unfoldable pub is_corrupted : (buffer : List ℕ) → Bool
is_corrupted [] = false
is_corrupted (b ∷ bs) = if b == 165 then is_corrupted bs else true

abbrev pub begin : (iterations payload : ℕ) → Exchange
begin iterations payload = record {
  left0 = iterations;
  has_sent = false;
  buffer0 = pattern payload;
  left1 = iterations;
  has_received = false;
  buffer1 = pattern payload;
  pings = [];
  pongs = [];
}

-- `(int)payload`, the count that every call is given.
unfoldable pub count_of : (payload : ℕ) → ℤ
unfolding to_int
count_of payload = to_int payload

-- The bytes that a call sends.
unfoldable pub sent : (payload : ℕ) → (buffer : List ℕ) → List ℕ
unfolding count_of
sent payload buffer = take (pos_part (count_of payload)) buffer

-- A buffer behind the receive of a message: the bytes beyond the message stay.
unfoldable pub received : (message buffer : List ℕ) → List ℕ
received message buffer = message ++ drop (length message) buffer

-- A call returns. MPI_Send may buffer its message, where `eager` is true, or wait for the receive;
-- MPI keeps the order of the messages with one tag. A call with a negative count does not return:
-- MPI ends the program.
pub data Step (eager : Bool) (payload : ℕ) (s : Exchange) : Exchange → Type 0 where
  ping_sent :
      pos 0 ≤ℤ count_of payload
      → eager ≡ true
      → (k : ℕ) → s.left0 ≡ suc k
      → s.has_sent ≡ false
      → Step eager payload s
          (record s { has_sent = true; pings = s.pings ++ sent payload s.buffer0 ∷ [] })
  ping_received :
      pos 0 ≤ℤ count_of payload
      → (k : ℕ) (message : List ℕ) (rest : List (List ℕ)) → s.left1 ≡ suc k
      → s.has_received ≡ false
      → s.pings ≡ message ∷ rest
      → Step eager payload s
          (record s { has_received = true; buffer1 = received message s.buffer1; pings = rest })
  ping_met :
      pos 0 ≤ℤ count_of payload
      → (k j : ℕ) → s.left0 ≡ suc k
      → s.has_sent ≡ false
      → s.left1 ≡ suc j
      → s.has_received ≡ false
      → s.pings ≡ []
      → Step eager payload s (record s {
        has_sent = true;
        has_received = true;
        buffer1 = received (sent payload s.buffer0) s.buffer1;
      })
  pong_sent :
      pos 0 ≤ℤ count_of payload
      → eager ≡ true
      → (k : ℕ) → s.left1 ≡ suc k
      → s.has_received ≡ true
      → Step eager payload s (record s {
        left1 = k;
        has_received = false;
        pongs = s.pongs ++ sent payload s.buffer1 ∷ [];
      })
  pong_received :
      pos 0 ≤ℤ count_of payload
      → (k : ℕ) (message : List ℕ) (rest : List (List ℕ)) → s.left0 ≡ suc k
      → s.has_sent ≡ true
      → s.pongs ≡ message ∷ rest
      → Step eager payload s (record s {
        left0 = k;
        has_sent = false;
        buffer0 = received message s.buffer0;
        pongs = rest;
      })
  pong_met :
      pos 0 ≤ℤ count_of payload
      → (k j : ℕ) → s.left0 ≡ suc k
      → s.has_sent ≡ true
      → s.left1 ≡ suc j
      → s.has_received ≡ true
      → s.pongs ≡ []
      → Step eager payload s (record s {
        left0 = k;
        has_sent = false;
        buffer0 = received (sent payload s.buffer1) s.buffer0;
        left1 = j;
        has_received = false;
      })

-- `n` calls have returned.
pub data Run (eager : Bool) (iterations payload : ℕ) : ℕ → Exchange → Type 0 where
  begun : Run eager iterations payload 0 (begin iterations payload)
  next :
      {n : ℕ} {s t : Exchange}
      → Run eager iterations payload n s
      → Step eager payload s t
      → Run eager iterations payload (n + 1) t
