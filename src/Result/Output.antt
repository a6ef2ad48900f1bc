-- ===== src/Result/Output.antt =====
-- The report of `result_output`.
use fping.Base.{
  ℕ, suc, ◌+◌, ◌≤◌, ◌≡◌, refl, Bool, not, if◌then◌else◌, some, List, [], ◌∷◌, ◌++◌, map, length,
  take, All, ap, sym, ◌∙◌, arith, ℤ, pos, length-map,
}
use mathlib.Core.List.{append-nil, append_assoc}
use fping.Result.{Timeval, Key, PingResults, Report, output_loop, result_output}
use fping.Result.Average.{IsTimersub, samples, SumsFit, mean, calc_time-mean}
use fping.Result.Sign.{is_dead}

-- the number of items that pass a test
unfoldable pub count_if {ℓ} : {A : Type ℓ} → (A → Bool) → List A → ℕ
count_if test [] = 0
count_if test (x ∷ xs) = let rest = count_if test xs in if test x then suc rest else rest

-- the line of one host: its key and the mean of its round-trip times
abbrev pub line : ℕ → Key × PingResults → Key × ℤ
line count host = (host.0, mean (samples (take count host.1.results)))

-- the array is large enough, and the sums of the times stay `int`s
abbrev pub IsMeasured : ℕ → Key × PingResults → Type 0
IsMeasured count host =
    (count ≤ length host.1.results) × SumsFit (pos 0) (samples (take count host.1.results))

report_path :
    {ls ms : List (Key × ℤ)} {a b c d : ℕ}
    → ls ≡ ms
    → a ≡ b
    → c ≡ d
    → ◌≡◌ {A = Report}
        (record { lines = ls; dead = a; alive = c })
        (record { lines = ms; dead = b; alive = d })
report_path p q r = λ i. record { lines = p i; dead = q i; alive = r i }

count_if_split {ℓ} :
    {A : Type ℓ} (test : A → Bool) (xs : List A)
    → count_if test xs + count_if (λ x. not (test x)) xs ≡ length xs
unfolding count_if
count_if_split test [] = refl
count_if_split test (x ∷ xs) = ground (arith, count_if_split test xs)

module _ (timersub : Timeval → Timeval → Timeval) (sub : IsTimersub timersub) (count : ℕ) where
  abbrev grown : Report → List (Key × PingResults) → Report
  grown out hosts = record {
    lines = out.lines ++ map (line count) hosts;
    dead = out.dead + count_if (λ l. is_dead l.1) (map (line count) hosts);
    alive = out.alive + count_if (λ l. not (is_dead l.1)) (map (line count) hosts);
  }

  output_loop-grown :
      (hosts : List (Key × PingResults)) (out : Report)
      → All (IsMeasured count) hosts
      → output_loop timersub count hosts out ≡ some (grown out hosts)
  unfolding output_loop count_if
  output_loop-grown [] out h =
      ap some (report_path (sym (append-nil out.lines)) (omega arith) (omega arith))
  output_loop-grown ((ips, pr) ∷ hosts) out h =
      let l = line count (ips, pr) in
      rw (calc_time-mean timersub sub count pr.results h.0.0 h.0.1) (
        output_loop-grown hosts _ h.1
        ∙ ap some (
            report_path (append_assoc out.lines (l ∷ []) (map (line count) hosts)) (ground arith)
              (ground arith)))

  -- For hosts whose times can be summed up: `result_output` prints one line for each host, in the
  -- table's order, with its key and its mean round-trip time, and counts a host as dead or alive by
  -- the sign of that.
  pub result_output-lines :
      (hosts : List (Key × PingResults))
      → All (IsMeasured count) hosts
      → let lines = map (line count) hosts in
        result_output timersub count hosts
        ≡ some (record {
          lines = lines;
          dead = count_if (λ l. is_dead l.1) lines;
          alive = count_if (λ l. not (is_dead l.1)) lines;
        })
  unfolding result_output
  result_output-lines hosts h =
      output_loop-grown hosts _ h ∙ ap some (report_path refl (omega arith) (omega arith))

  -- Under the same condition the report has as many lines as the table has hosts, and each host is
  -- counted once, as dead or as alive.
  pub result_output-length :
      (hosts : List (Key × PingResults))
      → All (IsMeasured count) hosts
      → (out : Report) × (result_output timersub count hosts ≡ some out)
        × (length out.lines ≡ length hosts)
        × (out.dead + out.alive ≡ length hosts)
  result_output-length hosts h = (
    _,
    result_output-lines hosts h,
    length-map (line count) hosts,
    count_if_split (λ l. is_dead l.1) (map (line count) hosts) ∙ length-map (line count) hosts,
  )
