-- ===== src/Send.antt =====
-- send.c: the sending thread. The hosts are the entries of the table in the order of
-- `table_for_each`, a key and the address of a `struct ping_results` each; the results of `icmp_send`
-- and of `gettimeofday` are parameters, by the number of the call.
pub mod Rounds
pub mod Thread
use fping.Base.{
  ℕ, zero, suc, ◌+◌, ◌≡◌, Bool, true, false, if◌then◌else◌, Option, none, some, List, [], ◌∷◌, ◌++◌,
  ◌>>=◌, ℤ, pos, ltb_ℤ, length,
}
use fping.Result.{Key, Timeval}
use fping.Recv.{Store, write_result, set_sent}

-- the requests sent so far, an address and a sequence number each, and the results
pub record Sending : Type 0 where
  pub sent : List (ℕ × ℕ)
  pub store : Store

module _ (icmp_send : ℕ → ℕ → ℕ → ℤ) (gettimeofday : ℕ → Timeval) where
  -- the body of the inner loop, in round `i`, for the object `pr`
  unfoldable pub send_host : ℕ → ℕ → Sending → Option Sending
  send_host i pr s =
      let n = length s.sent in
      let addr = (s.store pr).addr in
      let sent = s.sent ++ (addr, i) ∷ [] in
      if ltb_ℤ (icmp_send n addr i) (pos 0)
      then some (record { sent = sent; store = s.store })
      else (do
        st ← write_result (set_sent (gettimeofday n)) pr i s.store
        some (record { sent = sent; store = st }))

  -- `table_for_each`
  unfoldable pub send_round : ℕ → List (Key × ℕ) → Sending → Option Sending
  send_round i [] s = some s
  send_round i ((ips, pr) ∷ rest) s = do s ← send_host i pr s; send_round i rest s

  -- the outer loop from round `i` on, with the rounds that are left
  unfoldable pub send_rounds : ℕ → ℕ → List (Key × ℕ) → Sending → Option Sending
  send_rounds zero i hosts s = some s
  send_rounds (suc n) i hosts s = do s ← send_round i hosts s; send_rounds n (i + 1) hosts s

  -- `count` is `g_count`
  unfoldable pub send_loop : ℕ → List (Key × ℕ) → Store → Option Sending
  send_loop count hosts st = send_rounds count 0 hosts (record { sent = []; store = st })
