-- ===== src/Result/Counted.antt =====
-- Which hosts `result_output` counts as dead.
use fping.Base.{
  ℕ, suc, ◌+◌, ◌≡◌, refl, Bool, true, false, not, some, List, [], ◌∷◌, ◌++◌, map, take, All,
  All-append, ap, arith, ℤ,
}
use fping.Result.{Timeval, Key, PingResults, Report, result_output}
use fping.Result.Average.{IsTimersub, samples, mean}
use fping.Result.Sign.{is_dead, is_empty, Nonneg, IsNegative, mean-is_dead, mean-negative}
use fping.Result.Output.{count_if, line, IsMeasured, result_output-lines}

-- none of the host's probes has both stamps
abbrev pub is_silent : ℕ → Key × PingResults → Bool
is_silent count host = is_empty (samples (take count host.1.results))

-- the key of a line, and whether its time is negative
abbrev pub signed : Key × ℤ → Key × Bool
signed l = (l.0, is_dead l.1)

-- the key of a host, and whether it is silent
abbrev pub silent : ℕ → Key × PingResults → Key × Bool
silent count host = (host.0, is_silent count host)

-- no reply of the host is stamped before its request
abbrev pub IsOrdered : ℕ → Key × PingResults → Type 0
IsOrdered count host = All Nonneg (samples (take count host.1.results))

count_if-map {ℓ} :
    {A : Type ℓ} {B : Type ℓ} (f : A → B) (test : B → Bool) (other : A → Bool) (xs : List A)
    → All (λ x. test (f x) ≡ other x) xs
    → count_if test (map f xs) ≡ count_if other xs
unfolding count_if
count_if-map f test other [] h = refl
count_if-map f test other (x ∷ xs) h = rw (h.0, count_if-map f test other xs h.1)

map-append {ℓ} :
    {A : Type ℓ} {B : Type ℓ} (f : A → B) (xs ys : List A) → map f (xs ++ ys) ≡ map f xs ++ map f ys
map-append f [] ys = refl
map-append f (x ∷ xs) ys = ap (λ l. f x ∷ l) (map-append f xs ys)

count_if-append {ℓ} :
    {A : Type ℓ} (test : A → Bool) (xs ys : List A)
    → count_if test (xs ++ ys) ≡ count_if test xs + count_if test ys
unfolding count_if
count_if-append test [] ys = omega arith
count_if-append test (x ∷ xs) ys = ground (arith, count_if-append test xs ys)

line-is_dead :
    (count : ℕ) (hosts : List (Key × PingResults))
    → All (IsOrdered count) hosts
    → All (λ host. is_dead (line count host).1 ≡ is_silent count host) hosts
line-is_dead count [] h = tt
line-is_dead count (host ∷ hosts) h =
    (mean-is_dead (samples (take count host.1.results)) h.0, line-is_dead count hosts h.1)

map-is_dead :
    (count : ℕ) (hosts : List (Key × PingResults))
    → All (λ host. is_dead (line count host).1 ≡ is_silent count host) hosts
    → map signed (map (line count) hosts) ≡ map (silent count) hosts
map-is_dead count [] h = refl
map-is_dead count (host ∷ hosts) h = rw (h.0, map-is_dead count hosts h.1)

All-not :
    (count : ℕ) (hosts : List (Key × PingResults))
    → All (λ host. is_dead (line count host).1 ≡ is_silent count host) hosts
    → All (λ host. not (is_dead (line count host).1) ≡ not (is_silent count host)) hosts
All-not count [] h = tt
All-not count (host ∷ hosts) h = (ap not h.0, All-not count hosts h.1)

-- what one more host that is counted as dead, with the time `t`, adds to a report
pub record OneDead (count : ℕ) (front back : List (Key × PingResults)) (ips : Key) (t : ℤ)
    (without report : Report) : Type 0 where
  pub shown : report.lines ≡ map (line count) front ++ (ips, t) ∷ map (line count) back
  pub others : without.lines ≡ map (line count) front ++ map (line count) back
  pub negative : is_dead t ≡ true
  pub dead : report.dead ≡ suc without.dead
  pub alive : report.alive ≡ without.alive

module _ (timersub : Timeval → Timeval → Timeval) (sub : IsTimersub timersub) (count : ℕ) where
  -- With a `timersub` as documented, for hosts whose arrays hold at least `count` probes, whose times
  -- sum up within an `int`, and of which no reply is stamped before its request: `result_output`
  -- shows a negative time exactly for the hosts none of whose first `count` probes has both
  -- stamps, their number is that of the dead, and the number of all others that of those alive.
  pub result_output-is_silent :
      (hosts : List (Key × PingResults))
      → All (IsMeasured count) hosts
      → All (IsOrdered count) hosts
      → (out : Report) × (result_output timersub count hosts ≡ some out)
        × (map signed out.lines ≡ map (silent count) hosts)
        × (out.dead ≡ count_if (is_silent count) hosts)
        × (out.alive ≡ count_if (λ host. not (is_silent count host)) hosts)
  result_output-is_silent hosts h ordered =
      let same = line-is_dead count hosts ordered in
      (
        _,
        result_output-lines timersub sub count hosts h,
        map-is_dead count hosts same,
        count_if-map (line count) (λ l. is_dead l.1) (is_silent count) hosts same,
        count_if-map (line count) (λ l. not (is_dead l.1)) (λ host. not (is_silent count host))
            hosts (All-not count hosts same),
      )

  pub result_output_among :
      (front back : List (Key × PingResults)) (ips : Key) (pr : PingResults)
      → All (IsMeasured count) front
      → All (IsMeasured count) back
      → IsMeasured count (ips, pr)
      → is_dead (mean (samples (take count pr.results))) ≡ true
      → (without report : Report) × (result_output timersub count (front ++ back) ≡ some without)
        × (result_output timersub count (front ++ (ips, pr) ∷ back) ≡ some report)
        × OneDead count front back ips (mean (samples (take count pr.results))) without report
  unfolding count_if
  result_output_among front back ips pr hf hb h neg =
      let l = line count in
      let split = map-append l front back in
      let split' = map-append l front ((ips, pr) ∷ back) in
      let fs = map l front in
      let bs = map l back in
      let mine = l (ips, pr) in
      (
        _,
        _,
        result_output-lines timersub sub count (front ++ back)
            (All-append (IsMeasured count) front back hf hb),
        result_output-lines timersub sub count (front ++ (ips, pr) ∷ back)
            (All-append (IsMeasured count) front ((ips, pr) ∷ back) hf (h, hb)),
        record {
          shown = split';
          others = split;
          negative = neg;
          dead =
              rw
                (
                  split,
                  split',
                  count_if-append (λ x. is_dead x.1) fs bs,
                  count_if-append (λ x. is_dead x.1) fs (mine ∷ bs),
                  neg,
                )
                (omega arith);
          alive =
              rw
                (
                  split,
                  split',
                  count_if-append (λ x. not (is_dead x.1)) fs bs,
                  count_if-append (λ x. not (is_dead x.1)) fs (mine ∷ bs),
                  neg,
                )
                (omega arith);
        },
      )

  -- With a `timersub` as documented, for hosts whose arrays hold at least `count` probes and whose times
  -- sum up within an `int`: one more such host that has answered, but whose every reply is stamped
  -- before its request, is shown with a negative time at its place in the report, adds one to the
  -- hosts that `result_output` counts as dead, and none to those alive.
  pub result_output_early :
      (front back : List (Key × PingResults)) (ips : Key) (pr : PingResults)
      → All (IsMeasured count) front
      → All (IsMeasured count) back
      → IsMeasured count (ips, pr)
      → All IsNegative (samples (take count pr.results))
      → is_silent count (ips, pr) ≡ false
      → (without report : Report) × (result_output timersub count (front ++ back) ≡ some without)
        × (result_output timersub count (front ++ (ips, pr) ∷ back) ≡ some report)
        × OneDead count front back ips (mean (samples (take count pr.results))) without report
  result_output_early front back ips pr hf hb h early heard =
      result_output_among front back ips pr hf hb h
        (mean-negative (samples (take count pr.results)) early heard)
