-- ===== src/Examples/PingPong/Progress.antt =====
-- The exchange of examples/ping-pong/main.c ends, with the payload intact.
use mathlib.Core.Path.{subst}
use mpi_local_lab.Base.{
  List, ap, ◌++◌, take, drop, length, ℕ, zero, suc, ◌+◌, ◌*◌, ◌≤◌, ◌≡◌, refl, sym, arith, Bool,
  true, false, ◌⊎◌, inl, inr, [], ◌∷◌,
}
use mpi_local_lab.Base.Int.{pos, pos_part, ◌≤ℤ◌}
use mpi_local_lab.Examples.PingPong.{
  count_of, sent, received, Exchange, pattern, is_corrupted, Step, ping_sent, ping_received,
  ping_met, pong_sent, pong_received, pong_met, Run, begun, next,
}

-- The places of a round.
data Place : Type 0 where
  ready pinging held ponging : Place

-- The only states that the exchange reaches, with the rounds left behind this one.
state_at : (payload : ℕ) → Place → (k : ℕ) → Exchange
state_at payload ready k = record {
  left0 = k;
  has_sent = false;
  buffer0 = pattern payload;
  left1 = k;
  has_received = false;
  buffer1 = pattern payload;
  pings = [];
  pongs = [];
}
state_at payload pinging k = record {
  left0 = suc k;
  has_sent = true;
  buffer0 = pattern payload;
  left1 = suc k;
  has_received = false;
  buffer1 = pattern payload;
  pings = sent payload (pattern payload) ∷ [];
  pongs = [];
}
state_at payload held k = record {
  left0 = suc k;
  has_sent = true;
  buffer0 = pattern payload;
  left1 = suc k;
  has_received = true;
  buffer1 = pattern payload;
  pings = [];
  pongs = [];
}
state_at payload ponging k = record {
  left0 = suc k;
  has_sent = true;
  buffer0 = pattern payload;
  left1 = k;
  has_received = false;
  buffer1 = pattern payload;
  pings = [];
  pongs = sent payload (pattern payload) ∷ [];
}

-- The calls that can still return.
calls_left : Place → ℕ → ℕ
calls_left ready k = 4 * k
calls_left pinging k = 4 * k + 3
calls_left held k = 4 * k + 2
calls_left ponging k = 4 * k + 1

-- What a rank receives from a buffer of the pattern leaves its own buffer with the pattern.
take_received : (n : ℕ) (xs : List ℕ) → take n xs ++ drop (length (take n xs)) xs ≡ xs
take_received zero xs = refl
take_received (suc n) [] = refl
take_received (suc n) (x ∷ xs) = ap (λ ys. x ∷ ys) (take_received n xs)

received_pattern :
    (payload : ℕ) → received (sent payload (pattern payload)) (pattern payload) ≡ pattern payload
unfolding received sent
received_pattern payload = take_received (pos_part (count_of payload)) (pattern payload)

-- A step leads to such a state again, with one call less to go.
Step-Reached :
    (eager : Bool) (payload : ℕ) (place : Place) (k : ℕ) (t : Exchange)
    → Step eager payload (state_at payload place k) t
    → (place' : Place) × (k' : ℕ) × (t ≡ state_at payload place' k')
      × (suc (calls_left place' k') ≤ calls_left place k)
unfolding state_at calls_left
Step-Reached eager payload ready k t (ping_sent ok on j e idle) =
    (pinging, j, rw e refl, omega (arith, e))
Step-Reached eager payload ready k t (ping_received ok j m rest e idle some_ping) =
    absurd (cc some_ping)
Step-Reached eager payload ready k t (ping_met ok j i e idle e' idle1 none_sent) =
    (held, j, cc (e, e', received_pattern payload), omega (arith, e))
Step-Reached eager payload ready k t (pong_sent ok on j e has) = absurd (cc has)
Step-Reached eager payload ready k t (pong_received ok j m rest e has some_pong) = absurd (cc has)
Step-Reached eager payload ready k t (pong_met ok j i e has e' has' none_sent) = absurd (cc has)
Step-Reached eager payload pinging k t (ping_sent ok on j e idle) = absurd (cc idle)
Step-Reached eager payload pinging k t (ping_received ok j m rest e idle some_ping) =
    (held, k, cc (some_ping, received_pattern payload), omega arith)
Step-Reached eager payload pinging k t (ping_met ok j i e idle e' idle1 none_sent) =
    absurd (cc idle)
Step-Reached eager payload pinging k t (pong_sent ok on j e has) = absurd (cc has)
Step-Reached eager payload pinging k t (pong_received ok j m rest e has some_pong) =
    absurd (cc some_pong)
Step-Reached eager payload pinging k t (pong_met ok j i e has e' has' none_sent) = absurd (cc has')
Step-Reached eager payload held k t (ping_sent ok on j e idle) = absurd (cc idle)
Step-Reached eager payload held k t (ping_received ok j m rest e idle some_ping) = absurd (cc idle)
Step-Reached eager payload held k t (ping_met ok j i e idle e' idle1 none_sent) = absurd (cc idle)
Step-Reached eager payload held k t (pong_sent ok on j e has) = (ponging, k, cc e, omega arith)
Step-Reached eager payload held k t (pong_received ok j m rest e has some_pong) =
    absurd (cc some_pong)
Step-Reached eager payload held k t (pong_met ok j i e has e' has' none_sent) =
    (ready, k, cc (e, e', received_pattern payload), omega arith)
Step-Reached eager payload ponging k t (ping_sent ok on j e idle) = absurd (cc idle)
Step-Reached eager payload ponging k t (ping_received ok j m rest e idle some_ping) =
    absurd (cc some_ping)
Step-Reached eager payload ponging k t (ping_met ok j i e idle e' idle1 none_sent) =
    absurd (cc idle)
Step-Reached eager payload ponging k t (pong_sent ok on j e has) = absurd (cc has)
Step-Reached eager payload ponging k t (pong_received ok j m rest e has some_pong) =
    (ready, k, cc (e, some_pong, received_pattern payload), omega arith)
Step-Reached eager payload ponging k t (pong_met ok j i e has e' has' none_sent) = absurd (cc has')

Run-Reached :
    (eager : Bool) (iterations payload n : ℕ) (s : Exchange)
    → Run eager iterations payload n s
    → (place : Place) × (k : ℕ) × (s ≡ state_at payload place k)
      × (n + calls_left place k ≤ 4 * iterations)
unfolding state_at calls_left
Run-Reached eager iterations payload n s begun = (ready, iterations, refl, omega arith)
Run-Reached eager iterations payload n t (next {n = m} {s = s} run step) =
    let (place, k, is, le) = Run-Reached eager iterations payload m s run in
    let (place', k', is', less) =
      Step-Reached eager payload place k t (subst (λ u. Step eager payload u t) is step) in
    (place', k', is', omega (arith, le, less))

-- Rank 0 and rank 1 have left their loops, no message is under way, and rank 0 reports its
-- payload as intact.
abbrev pub IsOver : (payload : ℕ) → Exchange → Type 0
IsOver payload s =
    (s.left0 ≡ 0)
    × (s.left1 ≡ 0)
    × (s.pings ≡ [])
    × (s.pongs ≡ [])
    × (is_corrupted s.buffer0 ≡ false)

pattern-intact : (payload : ℕ) → is_corrupted (pattern payload) ≡ false
unfolding is_corrupted
pattern-intact zero = refl
pattern-intact (suc k) = pattern-intact k

advance :
    (eager : Bool) (payload : ℕ) (place : Place) (k : ℕ)
    → pos 0 ≤ℤ count_of payload
    → IsOver payload (state_at payload place k)
      ⊎ ((t : Exchange) × Step eager payload (state_at payload place k) t)
unfolding state_at
advance eager payload ready zero ok = inl (refl, refl, refl, refl, pattern-intact payload)
advance eager payload ready (suc k) ok = inr (_, ping_met ok k k refl refl refl refl refl)
advance eager payload pinging k ok =
    inr (_, ping_received ok k (sent payload (pattern payload)) [] refl refl refl)
advance eager payload held k ok = inr (_, pong_met ok k k refl refl refl refl refl)
advance eager payload ponging k ok =
    inr (_, pong_received ok k (sent payload (pattern payload)) [] refl refl refl)

-- Where the count `(int)payload` of the calls is not negative, the exchange never waits for ever,
-- whether or not MPI buffers what is sent: in every state that it reaches a call can return, until
-- both ranks have left their loops with no message under way and rank 0 reports the payload as
-- intact; and no more than four calls return in each round.
pub Run-goes_on :
    (eager : Bool) (iterations payload n : ℕ) (s : Exchange)
    → pos 0 ≤ℤ count_of payload
    → Run eager iterations payload n s
    → (n ≤ 4 * iterations) × (IsOver payload s ⊎ ((t : Exchange) × Step eager payload s t))
Run-goes_on eager iterations payload n s ok run =
    let (place, k, is, le) = Run-Reached eager iterations payload n s run in
    (
      omega (arith, le),
      subst (λ u. IsOver payload u ⊎ ((t : Exchange) × Step eager payload u t)) (sym is)
          (advance eager payload place k ok),
    )
