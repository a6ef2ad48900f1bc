-- ===== src/Tests/Threads.antt =====
-- recv.c, send.c and the two threads together at concrete inputs.
use fping.Base.{
  ℕ, zero, suc, ◌≤◌, ◌≡◌, ◌↔◌, refl, false, ◌==◌, if◌then◌else◌, arith, Option, none, some, List,
  [], ◌∷◌, ◌++◌, replicate, length, take, get_elem?, All, ℤ, pos, negsuc, ◌≤ℤ◌, ◌+ℤ◌, ◌*ℤ◌, nonzero,
}
use mathlib.Core.List.{Mem, mem-cons}
use mathlib.Core.Logic.Or
use mathlib.Core.Path.{ap, fun_ext}
use fping.Host.{little}
use fping.Icmp.{failed, received}
use fping.Icmp.Receive.{buf_size}
use fping.Result.{
  Key, Timeval, PingResult, max_count, no_result, zeroed, PingResults, Report, result_output,
}
use fping.Result.Average.{samples, SumsFit}
use fping.Result.Counted.{OneDead}
use fping.Recv.{write, Store, Arrival, on_reply, recv_loop}
use fping.Recv.Bounds.{IsSized, on_reply_faults, recv_loop_safe}
use fping.Send.{Sending, send_loop}
use fping.Send.Rounds.{requests, SameReplies, IsStamped, send_loop-requests, send_loop-IsStamped}
use fping.Session.{System, Reach, start, send, recv, sends, receives}
use fping.Session.Alone.{wired, clocked, send_loop-Reach}
use fping.Session.Clock.{taken, IsTimely}
use fping.Result.Average.{micros}
use fping.Session.Causal.{IsFresh, Reach-IsCausal, Reach-on_reply}
use fping.Session.Race.{Reach-early}
use fping.Session.Silent.{Reach-silent}
use fping.Tests.Probes.{sub_micros, sub_micros-IsTimersub}

-- addresses and keys of one byte; host 7 has its object at address 1, host 9 at address 2
abbrev ntoa : ℕ → Key
ntoa a = a ∷ []

abbrev aton : Key → ℕ
aton [] = 0
aton (c ∷ _) = c

abbrev hosts : List (Key × ℕ)
hosts = (ntoa 9, 2) ∷ (ntoa 7, 1) ∷ []

abbrev get : Key → Option ℕ
get [] = none
get (c ∷ _) = if c == 9 then some 2 else if c == 7 then some 1 else none

abbrev store : Store
store p = record { addr = if p == 2 then 9 else 7; results = replicate max_count no_result }

abbrev at : ℕ → Timeval
at s = record { sec = pos s; usec = pos 0 }

store-IsSized : IsSized store
store-IsSized p = refl

on_reply_faults_example :
    (on_reply get ntoa 5 7 5 (at 1) store ≡ none)
    ↔ ((p : ℕ) × (get (ntoa 7) ≡ some p) × (5 ≤ 5) × (max_count ≤ 5))
on_reply_faults_example = on_reply_faults get ntoa 5 7 5 (at 1) store store-IsSized

-- the fault itself: the reply number 5 to a run with five requests per host
overflow_runs : on_reply get ntoa 5 7 5 (at 1) store ≡ none
unfolding on_reply
overflow_runs = refl

abbrev arrivals : List Arrival
arrivals =
    record { datagram = failed; addr = 0; time = at 1 }
    ∷ record { datagram = received (1 ∷ 2 ∷ []); addr = 7; time = at 2 }
    ∷ []

abbrev zero_buf : List ℕ
zero_buf = replicate buf_size 0

recv_loop_safe_example :
    (buf' : List ℕ) × (st' : Store) × (recv_loop get ntoa 3 little 77 arrivals (zero_buf, store)
      ≡ some (buf', st'))
    × (length buf' ≡ buf_size)
    × IsSized st'
recv_loop_safe_example =
    recv_loop_safe get ntoa 3 little 77 arrivals zero_buf store (omega arith) (omega arith) refl
      store-IsSized

abbrev succeeds : ℕ → ℕ → ℕ → ℤ
succeeds n addr i = pos 0

send_loop-requests_example :
    (out : Sending) × (send_loop succeeds at 2 hosts store ≡ some out)
    × (out.sent ≡ requests store hosts 2 0)
    × SameReplies store out.store
send_loop-requests_example =
    send_loop-requests succeeds at 2 hosts store store-IsSized (omega arith)

send_loop-IsStamped_example :
    (out : Sending) × (send_loop succeeds at 2 hosts store ≡ some out)
    × All (λ host. IsStamped at out.store host.1 1) hosts
send_loop-IsStamped_example =
    send_loop-IsStamped succeeds at 2 hosts store 1 store-IsSized (omega arith) (λ n addr i. refl)
      (omega arith)

requests_runs : requests store hosts 2 0 ≡ (9, 0) ∷ (7, 0) ∷ (9, 1) ∷ (7, 1) ∷ []
unfolding requests
requests_runs = refl

store-IsKeyed : (k : Key) (p : ℕ) → get k ≡ some p → (store p).addr ≡ aton k
store-IsKeyed [] p e = cc
store-IsKeyed (c ∷ s) p e = ground arith

unanswered :
    (i : ℕ) (r : PingResult)
    → get_elem? (replicate max_count no_result) i ≡ some r
    → nonzero r.tv_recv.sec ≡ false
unanswered zero r e = ground arith
unanswered (suc zero) r e = ground arith
unanswered (suc (suc zero)) r e = ground arith
unanswered (suc (suc (suc zero))) r e = ground arith
unanswered (suc (suc (suc (suc zero)))) r e = ground arith
unanswered (suc (suc (suc (suc (suc i))))) r e = cc

store-IsFresh : IsFresh get ntoa hosts 3 aton (λ a. refl) store
store-IsFresh = record {
  sized = store-IsSized;
  keyed = store-IsKeyed;
  unanswered = λ p. unanswered;
}

-- the first request is on the wire
abbrev sent_one : System
sent_one = record {
  sender = record { round = 0; rest = (ntoa 7, 1) ∷ []; pending = some 2 };
  store = store;
  wire = (9, 0) ∷ [];
}

Reach-one : Reach get ntoa hosts 3 store sent_one
Reach-one = send start (sends (ntoa 9) 2 ((ntoa 7, 1) ∷ []) (omega arith) refl refl)

on_wire : Mem (9, 0) sent_one.wire
on_wire = mem-cons.1 (Or.inl refl)

-- and its reply has been stamped
abbrev stamped : PingResult
stamped = record { tv_sent = at 0; tv_recv = at 5 }

abbrev answered_store : Store
answered_store q =
    if q == 2 then record { addr = 9; results = stamped ∷ replicate 4 no_result } else store q

abbrev answered_one : System
answered_one = record { sender = sent_one.sender; store = answered_store; wire = sent_one.wire }

answer_runs : on_reply get ntoa 3 9 0 (at 5) sent_one.store ≡ some answered_store
unfolding on_reply write
answer_runs = ap some (fun_ext λ q. ground arith)

Reach-answered : Reach get ntoa hosts 3 store answered_one
Reach-answered = recv 9 0 Reach-one on_wire (receives 9 0 (at 5) answered_store answer_runs)

Reach-IsCausal_example : Mem ((answered_one.store 2).addr, 0) answered_one.wire
Reach-IsCausal_example =
    Reach-IsCausal get ntoa hosts 3 aton (λ a. refl) (ntoa 9) 2 0 stamped store-IsFresh
      Reach-answered refl refl refl

Reach-on_reply_example : (st' : Store) × (on_reply get ntoa 3 9 0 (at 1) sent_one.store ≡ some st')
Reach-on_reply_example =
    Reach-on_reply get ntoa hosts 3 aton (λ a. refl) 9 0 (at 1) (omega arith) store-IsFresh
      Reach-one on_wire

ordered : micros (at 5) ≤ℤ micros (at 8)
unfolding ◌+ℤ◌ ◌*ℤ◌
ordered = omega arith

Reach-early_example :
    (s : System) × (run : Reach get ntoa hosts 3 store s) × (taken get ntoa hosts 3 run
      ≡ at 8 ∷ at 5 ∷ [])
    × IsTimely (at 8 ∷ at 5 ∷ [])
    × (get_elem? (s.store 2).results 0 ≡ some (record { tv_sent = at 8; tv_recv = at 5 }))
Reach-early_example =
    Reach-early get ntoa (ntoa 9) 2 ((ntoa 7, 1) ∷ []) 3 store (at 5) (at 8) store-IsSized
      (omega arith) refl ordered

-- the second call fails, the others succeed
abbrev second_fails : ℕ → ℕ → ℕ → ℤ
second_fails n addr i = if n == 1 then negsuc 0 else pos 0

send_loop-Reach_example :
    (out : Sending) × (send_loop second_fails at 2 hosts store ≡ some out)
    × (wire : List (ℕ × ℕ)) × (run : Reach get ntoa hosts 2 store (record {
      sender = record { round = 2; rest = hosts; pending = none };
      store = out.store;
      wire = wire;
    }))
    × (wire ≡ wired get ntoa hosts 2 second_fails at store out)
    × (taken get ntoa hosts 2 run ≡ clocked get ntoa hosts 2 second_fails at store out)
send_loop-Reach_example =
    send_loop-Reach get ntoa hosts 2 second_fails at store store-IsSized (omega arith)

-- the run to `answered_one`, in which the host 7 is not heard
abbrev heard_one : Reach get ntoa hosts 3 store answered_one
heard_one =
    recv 9 0 (send start (sends (ntoa 9) 2 ((ntoa 7, 1) ∷ []) (omega arith) refl refl)) on_wire
      (receives 9 0 (at 5) answered_store answer_runs)

zeroed_fit : SumsFit (pos 0) (samples (take 3 zeroed.results))
unfolding samples
zeroed_fit = tt

Reach-silent_example :
    let front : List (Key × PingResults) = (ntoa 5, zeroed) ∷ [] in
    (without report : Report) × (result_output sub_micros 3 front ≡ some without)
    × (result_output sub_micros 3 (front ++ (ntoa 7, answered_one.store 1) ∷ []) ≡ some report)
    × OneDead 3 front [] (ntoa 7) (negsuc 0) without report
Reach-silent_example =
    Reach-silent get ntoa hosts 3 aton (λ a. refl) sub_micros (ntoa 7) 1 ((ntoa 5, zeroed) ∷ []) []
      sub_micros-IsTimersub (omega arith) store-IsFresh heard_one refl (omega arith)
      ((omega arith, zeroed_fit), tt) tt
