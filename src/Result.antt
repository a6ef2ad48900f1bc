-- ===== src/Result.antt =====
-- result.c and result.h: the probes of a host, the average round-trip time, and the report.
pub mod Average
pub mod Counted
pub mod Sign
pub mod New
pub mod Output
use fping.Base.{
  ℕ, zero, suc, ◌+◌, ◌≡◌, Bool, true, false, ◌&&◌, if◌then◌else◌, Option, none, some, List, [], ◌∷◌,
  ◌++◌, replicate, get_elem?, ◌>>=◌, ℤ, pos, negsuc, ◌+ℤ◌, ◌*ℤ◌, nonzero, ltb_ℤ, tdiv, to_int,
}

-- a C string, by its bytes
abbrev pub Key : Type 0
Key = List ℕ

abbrev pub max_count : ℕ
max_count = 5

abbrev pub def_count : ℕ
def_count = 3

-- `struct timeval`
pub record Timeval : Type 0 where
  pub sec : ℤ
  pub usec : ℤ

abbrev pub zero_time : Timeval
zero_time = record { sec = pos 0; usec = pos 0 }

-- `struct ping_result`
pub record PingResult : Type 0 where
  pub tv_sent : Timeval
  pub tv_recv : Timeval

-- `struct ping_results`; `addr` is `addr.sin_addr.s_addr`
pub record PingResults : Type 0 where
  pub addr : ℕ
  pub results : List PingResult

abbrev pub no_result : PingResult
no_result = record { tv_sent = zero_time; tv_recv = zero_time }

-- a `struct ping_results` after `bzero`
abbrev pub zeroed : PingResults
zeroed = record { addr = 0; results = replicate max_count no_result }

-- The locals `count` and `times` of `calc_time`.
pub record Acc : Type 0 where
  pub count : ℕ
  pub times : ℤ

-- the test `tv_recv->tv_sec && tv_send->tv_sec`
abbrev pub answered : PingResult → Bool
answered r = nonzero r.tv_recv.sec && nonzero r.tv_sent.sec

-- What `result_output` prints, line by line, and its two counters.
pub record Report : Type 0 where
  pub lines : List (Key × ℤ)
  pub dead : ℕ
  pub alive : ℕ

-- `timersub` of sys/time.h is a parameter; `count` is `g_count`.
module _ (timersub : Timeval → Timeval → Timeval) where
  -- the body of the loop
  unfoldable pub add_sample : PingResult → Acc → Acc
  add_sample r s =
      let tv = timersub r.tv_recv r.tv_sent in
      if answered r
      then record {
        count = s.count + 1;
        times = to_int (s.times +ℤ (tv.sec *ℤ pos 1000000 +ℤ tv.usec));
      }
      else s

  -- the loop from `i` on, with the rounds that are left
  unfoldable pub add_samples : ℕ → ℕ → List PingResult → Acc → Option Acc
  add_samples zero i prs s = some s
  add_samples (suc n) i prs s = do r ← get_elem? prs i; add_samples n (i + 1) prs (add_sample r s)

  unfoldable pub calc_time : ℕ → List PingResult → Option ℤ
  unfolding add_sample add_samples
  calc_time count prs = do
    s ← add_samples count 0 prs (record { count = 0; times = pos 0 })
    some (if nonzero (pos s.count) then tdiv s.times s.count else negsuc 0)

  -- the loop over a table that is not NULL, in the table's order
  unfoldable pub output_loop : ℕ → List (Key × PingResults) → Report → Option Report
  output_loop count [] out = some out
  output_loop count ((ips, pr) ∷ rest) out = do
    t ← calc_time count pr.results
    output_loop count rest (record {
      lines = out.lines ++ (ips, t) ∷ [];
      dead = if ltb_ℤ t (pos 0) then out.dead + 1 else out.dead;
      alive = if ltb_ℤ t (pos 0) then out.alive else out.alive + 1;
    })

  unfoldable pub result_output : ℕ → List (Key × PingResults) → Option Report
  unfolding output_loop
  result_output count results =
      output_loop count results (record { lines = []; dead = 0; alive = 0 })

module _ (inet_ntoa : ℕ → Key) where
  -- the loop of `result_dump`: the two strings of each line
  unfoldable pub dump_loop : List (Key × PingResults) → List (Key × Key)
  dump_loop [] = []
  dump_loop ((ips, pr) ∷ rest) = (ips, inet_ntoa pr.addr) ∷ dump_loop rest

  -- `none` is NULL
  unfoldable pub result_dump : Option (List (Key × PingResults)) → List (Key × Key)
  unfolding dump_loop
  result_dump none = []
  result_dump (some results) = dump_loop results
