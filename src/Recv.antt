-- ===== src/Recv.antt =====
-- recv.c: what the receiving thread does with a reply. The table's `table_get`, `inet_ntoa` and the
-- clock are parameters, `none` is a write outside the array of a host's probes.
pub mod Bounds
pub mod Outcome
pub mod Thread
use fping.Base.{
  ℕ, ◌≡◌, Bool, true, false, ltb, ◌==◌, if◌then◌else◌, modify?, Option, none, some, List, [], ◌∷◌,
  ◌>>=◌, nonzero,
}
use fping.Host.{Host}
use fping.Icmp.{Recvfrom, icmp_recv}
use fping.Result.{Key, Timeval, PingResult, PingResults}

-- the `struct ping_results` objects, by their addresses
abbrev pub Store : Type 0
Store = ℕ → PingResults

unfoldable pub write : Store → ℕ → List PingResult → Store
write st p rs q = if q == p then record (st q) { results = rs } else st q

-- `pr->results[i]` changed by `f`
unfoldable pub write_result : (PingResult → PingResult) → ℕ → ℕ → Store → Option Store
write_result f p i st = do rs ← modify? f (st p).results i; some (write st p rs)

abbrev pub set_recv : Timeval → PingResult → PingResult
set_recv tv r = record r { tv_recv = tv }

abbrev pub set_sent : Timeval → PingResult → PingResult
set_sent tv r = record r { tv_sent = tv }

-- What one round finds: a datagram or an error, its sender, and the time.
pub record Arrival : Type 0 where
  pub datagram : Recvfrom
  pub addr : ℕ
  pub time : Timeval

module _ (table_get : Key → Option ℕ) (inet_ntoa : ℕ → Key) (count : ℕ) where
  -- the branch `e == 0` of the loop's body; `count` is `g_count`
  unfoldable pub on_reply : ℕ → ℕ → Timeval → Store → Option Store
  unfolding write_result
  on_reply addr seq tv st = if ltb count seq then some st else elim (table_get (inet_ntoa addr)) [
    | none ↦ some st
    | some pr ↦ write_result (set_recv tv) pr seq st
  ]

  -- the body of the loop, over the receive buffer and the results
  unfoldable pub recv_round : Host → ℕ → Arrival → List ℕ × Store → Option (List ℕ × Store)
  recv_round m pid a (buf, st) = do
    out ← icmp_recv m pid buf a.datagram
    if nonzero out.status
        then some (out.buf, st)
        else (do seq ← out.seq; st ← on_reply a.addr seq a.time st; some (out.buf, st))

  -- the loop, until the thread is cancelled behind the last arrival
  unfoldable pub recv_loop : Host → ℕ → List Arrival → List ℕ × Store → Option (List ℕ × Store)
  recv_loop m pid [] s = some s
  recv_loop m pid (a ∷ rest) s = do s ← recv_round m pid a s; recv_loop m pid rest s
