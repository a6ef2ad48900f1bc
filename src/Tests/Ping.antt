-- ===== src/Tests/Ping.antt =====
-- The class `Ping` at concrete inputs.
use fping.Base.{
  inl, inr, All, ℕ, ◌+◌, ◌^◌, ◌≡◌, ◌≢◌, refl, Option, none, some, List, [], ◌∷◌, ◌++◌, replicate,
  arith, All, ℤ, pos,
}
use fping.Host.{little, little-IsHost}
use fping.Result.{Key}
use fping.Ping.{
  Event, Ping, Arrival, datagram, Outcome, finished, blocked, Run, start, hears, prints, sends,
  echo_reply, count,
}
use fping.Icmp.Receive.{IsHeader}
use fping.Ping.Answered.{IsReply, Round, IsRound, sequence, start-answered}
use fping.Ping.Counts.{IsRun}
use fping.Ping.Runs.{start-IsRun}
use fping.Ping.Wide.{start_wide_pid}

-- an IP header of 20 bytes, and an echo reply for the process 77
abbrev answer : List ℕ
answer = (69 ∷ replicate 19 0) ++ (0 ∷ 0 ∷ 1 ∷ 2 ∷ 0 ∷ 77 ∷ 0 ∷ 0 ∷ [])

abbrev arrivals : List Arrival
arrivals =
    datagram 9 answer
    ∷ datagram 8 (1 ∷ [])
    ∷ datagram 9 answer
    ∷ datagram 9 answer
    ∷ datagram 9 answer
    ∷ datagram 9 answer
    ∷ []

abbrev self : Ping
self = record { host = b'h' ∷ [] }

abbrev names : Key → Option ℕ
names [] = none
names (c ∷ name) = some 5

abbrev outcome_of : Option Run → Option Outcome
outcome_of none = none
outcome_of (some r) = some r.outcome

arrivals_counted :
    outcome_of (start little 77 self (pos 3) names (λ s f. pos 0) (λ i a p. pos 8) arrivals)
    ≡ some (finished 5)
unfolding start fping.Utils.Checksum.checksum fping.Base.◌-ℤ◌ fping.Icmp.load
arrivals_counted = refl

start-IsRun_example :
    (r : Run) × (start little 77 self (pos 3) names (λ s f. pos 0) (λ i a p. pos 8) arrivals
      ≡ some r)
    × IsRun 5 0 count count r
start-IsRun_example =
    start-IsRun little 77 little-IsHost self (pos 3) names 5 (λ s f. pos 0) (λ i a p. pos 8)
      arrivals refl (omega arith)

abbrev wide_run : Run
wide_run = record {
  events = sends 5 (8 ∷ 0 ∷ 247 ∷ 178 ∷ 0 ∷ 77 ∷ 0 ∷ 0 ∷ []) ∷ hears 9 ∷ prints echo_reply ∷ [];
  outcome = blocked;
}

wide_runs :
    start little
      (2 ^ 16 + 77)
      self
      (pos 3)
      names
      (λ s f. pos 0)
      (λ i a p. pos 8)
      (datagram 9 answer ∷ [])
    ≡ some wide_run
unfolding start fping.Utils.Checksum.checksum fping.Base.◌-ℤ◌ fping.Icmp.load
wide_runs = refl

start_wide_pid_example : wide_run.outcome ≢ finished 5
start_wide_pid_example =
    start_wide_pid little little-IsHost (2 ^ 16 + 77) (omega arith) self (pos 3) names
      (λ s f. pos 0) (λ i a p. pos 8) (datagram 9 answer ∷ []) (omega arith) wide_run wide_runs 5

-- a reply for the process 256, which does not count
abbrev stray : List ℕ
stray = (69 ∷ replicate 19 0) ++ (0 ∷ 0 ∷ 1 ∷ 2 ∷ 1 ∷ 0 ∷ 0 ∷ 0 ∷ [])

abbrev header : IsHeader (69 ∷ replicate 19 0)
header = record { ver_ihl = 69; starts = refl; counted = refl; least = omega arith }

answer-IsReply : IsReply 77 answer
answer-IsReply = record {
  ip = 69 ∷ replicate 19 0;
  header = header;
  code = 0;
  c = 1;
  c' = 2;
  i = 0;
  i' = 77;
  s = 0;
  s' = 0;
  rest = [];
  bytes = refl;
  high = omega arith;
  low = omega arith;
  same = refl;
}

stray-IsReply : IsReply 256 stray
stray-IsReply = record {
  ip = 69 ∷ replicate 19 0;
  header = header;
  code = 0;
  c = 1;
  c' = 2;
  i = 1;
  i' = 0;
  s = 0;
  s' = 0;
  rest = [];
  bytes = refl;
  high = omega arith;
  low = omega arith;
  same = refl;
}

-- two datagrams that do not count, and the answers
abbrev script : List Round
script =
    (datagram 8 (1 ∷ []) ∷ datagram 9 stray ∷ [], datagram 9 answer)
    ∷ ([], datagram 9 answer)
    ∷ ([], datagram 9 answer)
    ∷ ([], datagram 9 answer)
    ∷ ([], datagram 9 answer)
    ∷ []

script_rounds : All (IsRound 77) script
script_rounds =
    let quick : IsRound 77 ([], datagram 9 answer) = (tt, answer-IsReply) in
    (
      ((inl (omega arith), (inr (256, omega arith, stray-IsReply), tt)), answer-IsReply),
      (quick, (quick, (quick, (quick, tt)))),
    )

start-answered_example :
    (es : List Event) × (start little 77 self
        (pos 3)
        names
        (λ s f. pos 0)
        (λ i a p. pos 8)
        (sequence script)
      ≡ some (record { events = es; outcome = finished count }))
start-answered_example =
    start-answered little little-IsHost 77 (pos 3) (λ i a p. pos 8) (λ i a p. refl) self names 5
      (λ s f. pos 0) script refl refl refl refl script_rounds
