-- ===== src/Session/Clock.antt =====
-- The times that the two threads take from the clock in a run of the system.
use fping.Base.{ℕ, Option, List, [], ◌∷◌, ◌++◌, ◌≤ℤ◌}
use fping.Result.{Key, Timeval}
use fping.Result.Average.{micros}
use fping.Recv.{Store}
use fping.Session.{
  System, SendStep, RecvStep, Reach, start, send, recv, sends, fails, stamps, turns, receives,
}

-- no time is taken that lies before an earlier one; the latest stands first
abbrev pub IsTimely : List Timeval → Type 0
IsTimely [] = Unit
IsTimely (b ∷ []) = Unit
IsTimely (b ∷ a ∷ times) = (micros a ≤ℤ micros b) × IsTimely (a ∷ times)

module _ (table_get : Key → Option ℕ) (inet_ntoa : ℕ → Key) (hosts : List (Key × ℕ))
    (count : ℕ) where
  abbrev send_time : {s t : System} → SendStep table_get inet_ntoa hosts count s t → List Timeval
  send_time (sends ips pr rest lt idle next) = []
  send_time (fails ips pr rest lt idle next) = []
  send_time (stamps pr tv st busy run) = tv ∷ []
  send_time (turns idle done lt) = []

  abbrev recv_time :
      {s t : System} {addr seq : ℕ}
      → RecvStep table_get inet_ntoa hosts count s addr seq t
      → List Timeval
  recv_time (receives addr seq tv st run) = tv ∷ []

  -- the times that are taken in a run, in either thread, the latest first
  abbrev pub taken :
      {st : Store} {s : System} → Reach table_get inet_ntoa hosts count st s → List Timeval
  taken start = []
  taken (send run step) = send_time step ++ taken run
  taken (recv addr seq run m step) = recv_time step ++ taken run
