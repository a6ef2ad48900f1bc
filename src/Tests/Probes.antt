-- ===== src/Tests/Probes.antt =====
-- result.c at concrete inputs.
use fping.Base.{
  ℕ, ◌≡◌, refl, false, not, arith, some, List, [], ◌∷◌, map, take, All, ℤ, pos, negsuc, ◌-ℤ◌, ◌+ℤ◌,
  ◌*ℤ◌, tdiv,
}
use fping.Result.{
  Key, Timeval, PingResult, PingResults, Report, no_result, zeroed, calc_time, result_output,
}
use fping.Result.Average.{IsTimersub, samples, sum_ℤ, SumsFit, mean, calc_time-mean, micros}
use fping.Result.Counted.{
  is_silent, signed, silent, OneDead, result_output-is_silent, result_output_early,
}
use fping.Result.Sign.{is_dead, is_empty, Nonneg, IsNegative}
use fping.Result.Output.{line, count_if, result_output-lines}

-- a `timersub` that counts in microseconds only
abbrev pub sub_micros : Timeval → Timeval → Timeval
sub_micros a b = record { sec = pos 0; usec = micros a -ℤ micros b }

no_seconds : (x : ℤ) → pos 0 *ℤ pos 1000000 +ℤ x ≡ x
unfolding ◌+ℤ◌ ◌*ℤ◌
no_seconds (pos n) = ground arith
no_seconds (negsuc n) = ground arith

pub sub_micros-IsTimersub : IsTimersub sub_micros
sub_micros-IsTimersub a b = no_seconds (micros a -ℤ micros b)

abbrev at : ℕ → ℕ → Timeval
at s u = record { sec = pos s; usec = pos u }

-- the first reply takes 1200 and the third 1801 microseconds; the second probe has none
abbrev probes : List PingResult
probes =
    record { tv_sent = at 10 0; tv_recv = at 10 1200 }
    ∷ record { tv_sent = at 11 0; tv_recv = at 0 0 }
    ∷ record { tv_sent = at 11 999000; tv_recv = at 12 801 }
    ∷ no_result
    ∷ no_result
    ∷ []

probes_mean : mean (samples (take 3 probes)) ≡ pos 1500
unfolding samples ◌-ℤ◌ ◌+ℤ◌ ◌*ℤ◌ tdiv sum_ℤ
probes_mean = refl

probes_fit : SumsFit (pos 0) (samples (take 3 probes))
unfolding samples ◌-ℤ◌ ◌+ℤ◌ ◌*ℤ◌
probes_fit = omega arith

calc_time-mean_example : calc_time sub_micros 3 probes ≡ some (mean (samples (take 3 probes)))
calc_time-mean_example =
    calc_time-mean sub_micros sub_micros-IsTimersub 3 probes (omega arith) probes_fit

probes_ordered : All Nonneg (samples (take 3 probes))
unfolding samples ◌-ℤ◌ ◌+ℤ◌ ◌*ℤ◌
probes_ordered = omega arith

-- a reply that is stamped 5 microseconds before its request
abbrev early : List PingResult
early = record { tv_sent = at 10 20; tv_recv = at 10 15 } ∷ []

early_fit : SumsFit (pos 0) (samples (take 1 early))
unfolding samples ◌-ℤ◌ ◌+ℤ◌ ◌*ℤ◌
early_fit = omega arith

early-IsNegative : All IsNegative (samples (take 1 early))
unfolding samples ◌-ℤ◌ ◌+ℤ◌ ◌*ℤ◌
early-IsNegative = omega arith

early_some : is_empty (samples (take 1 early)) ≡ false
unfolding samples
early_some = refl

abbrev table : List (Key × PingResults)
table = (b'9' ∷ [], record { addr = 9; results = probes }) ∷ (b'1' ∷ [], zeroed) ∷ []

zeroed_fit : SumsFit (pos 0) (samples (take 3 zeroed.results))
unfolding samples
zeroed_fit = tt

result_output-lines_example :
    result_output sub_micros 3 table
    ≡ some (record {
      lines = map (line 3) table;
      dead = count_if (λ l. is_dead l.1) (map (line 3) table);
      alive = count_if (λ l. not (is_dead l.1)) (map (line 3) table);
    })
result_output-lines_example =
    result_output-lines sub_micros sub_micros-IsTimersub 3 table
      ((omega arith, probes_fit), ((omega arith, zeroed_fit), tt))

zeroed_ordered : All Nonneg (samples (take 3 zeroed.results))
unfolding samples
zeroed_ordered = tt

result_output-is_silent_example :
    (out : Report) × (result_output sub_micros 3 table ≡ some out)
    × (map signed out.lines ≡ map (silent 3) table)
    × (out.dead ≡ count_if (is_silent 3) table)
    × (out.alive ≡ count_if (λ host. not (is_silent 3 host)) table)
result_output-is_silent_example =
    result_output-is_silent sub_micros sub_micros-IsTimersub 3 table
      ((omega arith, probes_fit), ((omega arith, zeroed_fit), tt))
      (probes_ordered, (zeroed_ordered, tt))

zeroed_fit_one : SumsFit (pos 0) (samples (take 1 zeroed.results))
unfolding samples
zeroed_fit_one = tt

abbrev early_host : PingResults
early_host = record { addr = 7; results = early }

result_output_early_example :
    (without report : Report) × (result_output sub_micros 1 ((b'1' ∷ [], zeroed) ∷ [])
      ≡ some without)
    × (result_output sub_micros 1 ((b'1' ∷ [], zeroed) ∷ (b'7' ∷ [], early_host) ∷ [])
        ≡ some report)
    × OneDead 1
        ((b'1' ∷ [], zeroed) ∷ [])
        []
        (b'7' ∷ [])
        (mean (samples (take 1 early)))
        without
        report
result_output_early_example =
    result_output_early sub_micros sub_micros-IsTimersub 1 ((b'1' ∷ [], zeroed) ∷ []) [] (b'7' ∷ [])
      early_host ((omega arith, zeroed_fit_one), tt) tt (omega arith, early_fit) early-IsNegative
      early_some
