-- ===== src/Result/Average.antt =====
-- What `calc_time` computes: the mean of the round-trip times of the probes that were answered.
use fping.Base.{
  ℕ, zero, suc, ◌+◌, ◌-◌, ◌^◌, ◌≤◌, ◌≡◌, refl, true, false, if◌then◌else◌, some, List, [], ◌∷◌,
  length, take, drop, ap, ◌∙◌, arith, ℤ, pos, negsuc, ◌+ℤ◌, ◌-ℤ◌, ◌*ℤ◌, ◌≤ℤ◌, tdiv, to_int,
  Bool-cases, inl, inr, get_elem?-drop, nonzero, lt→ltb,
}
use native.Mathlib.Nat.{zero-add}
use native.Mathlib.Numerals.{add-one}
use fping.Result.{Timeval, PingResult, answered, Acc, add_sample, add_samples, calc_time}

-- a time in microseconds
abbrev pub micros : Timeval → ℤ
micros t = t.sec *ℤ pos 1000000 +ℤ t.usec

-- What sys/time.h says of `timersub`: the difference of the two times.
abbrev pub IsTimersub : (Timeval → Timeval → Timeval) → Type 0
IsTimersub timersub = (a b : Timeval) → micros (timersub a b) ≡ micros a -ℤ micros b

-- the round-trip time of a probe in microseconds; it is negative where the clock stood later when the
-- request was stamped
abbrev pub rtt : PingResult → ℤ
rtt r = micros r.tv_recv -ℤ micros r.tv_sent

-- the round-trip times of the probes with both stamps
unfoldable pub samples : List PingResult → List ℤ
samples [] = []
samples (r ∷ prs) = let rest = samples prs in if answered r then rtt r ∷ rest else rest

unfoldable pub sum_ℤ : ℤ → List ℤ → ℤ
sum_ℤ acc [] = acc
sum_ℤ acc (x ∷ xs) = sum_ℤ (acc +ℤ x) xs

-- the values of a C `int`
abbrev pub IsInt : ℤ → Type 0
IsInt a = (negsuc (2 ^ 31 - 1) ≤ℤ a) × (a ≤ℤ pos (2 ^ 31 - 1))

-- no sum on the way leaves the range of `int`
abbrev pub SumsFit : ℤ → List ℤ → Type 0
SumsFit acc [] = Unit
SumsFit acc (x ∷ xs) = IsInt (acc +ℤ x) × SumsFit (acc +ℤ x) xs

-- the mean, truncated towards 0, or -1 where there is nothing to take the mean of
abbrev pub mean : List ℤ → ℤ
mean [] = negsuc 0
mean (x ∷ xs) = tdiv (sum_ℤ (pos 0) (x ∷ xs)) (length (x ∷ xs))

to_int-IsInt : (a : ℤ) → IsInt a → to_int a ≡ a
unfolding to_int
to_int-IsInt (pos n) h = ground arith
to_int-IsInt (negsuc n) h = ground arith

abbrev sums : ℕ → ℤ → Acc
sums n t = record { count = n; times = t }

mean_of_sums :
    (xs : List ℤ)
    → some (
        if nonzero (pos (0 + length xs)) then tdiv (sum_ℤ (pos 0) xs) (0 + length xs) else negsuc 0)
      ≡ some (mean xs)
unfolding sum_ℤ
mean_of_sums [] = refl
mean_of_sums (x ∷ xs) = rw (zero-add, lt→ltb 0 (suc (length xs)) (omega arith))

module _ (timersub : Timeval → Timeval → Timeval) (sub : IsTimersub timersub) where
  add_sample-answered :
      (r : PingResult) (s : Acc)
      → answered r ≡ true
      → IsInt (s.times +ℤ rtt r)
      → add_sample timersub r s ≡ record { count = s.count + 1; times = s.times +ℤ rtt r }
  unfolding add_sample
  add_sample-answered r s yes' fit =
      rw (yes', sub r.tv_recv r.tv_sent, to_int-IsInt (s.times +ℤ rtt r) fit)

  add_sample-unanswered :
      (r : PingResult) (s : Acc) → answered r ≡ false → add_sample timersub r s ≡ s
  unfolding add_sample
  add_sample-unanswered r s z = rw z

  -- The loop reads the first `n` probes from `i` on and sums up their samples.
  add_samples-samples :
      (prs : List PingResult) (cur : List PingResult) (n i : ℕ) (s : Acc)
      → drop i prs ≡ cur
      → n ≤ length cur
      → SumsFit s.times (samples (take n cur))
      → add_samples timersub n i prs s
        ≡ some (record {
          count = s.count + length (samples (take n cur));
          times = sum_ℤ s.times (samples (take n cur));
        })
  unfolding add_samples samples sum_ℤ
  add_samples-samples prs cur zero i s e h fit = ap some (ground arith)
  add_samples-samples prs [] (suc n) i s e h fit = absurd (omega arith)
  add_samples-samples prs (r ∷ cur) (suc n) i s e h fit =
      let (here, next) = get_elem?-drop prs i r cur e in
      let next' : drop (i + 1) prs ≡ cur = rw add-one next in
      elim (Bool-cases (answered r)) [
        | inl y ↦
            let fit' : SumsFit s.times (rtt r ∷ samples (take n cur)) = rw y at fit in
            rw (here, y, add_sample-answered r s y fit'.0)
              (add_samples-samples prs cur n (i + 1) _ next' (omega arith) fit'.1
                ∙ ap (λ (k : ℕ). some (sums k (sum_ℤ (s.times +ℤ rtt r) (samples (take n cur)))))
                    (omega arith))
        | inr z ↦
            let fit' : SumsFit s.times (samples (take n cur)) = rw z at fit in
            rw (here, z, add_sample-unanswered r s z)
              (add_samples-samples prs cur n (i + 1) s next' (omega arith) fit')
      ]

  -- For a `timersub` that subtracts, a count within the array, and sums that stay `int`s on the way:
  -- `calc_time` reads the first `count` probes and returns the mean of the round-trip times of those
  -- with both stamps, truncated towards 0, and -1 if there is none.
  pub calc_time-mean :
      (count : ℕ) (prs : List PingResult)
      → count ≤ length prs
      → SumsFit (pos 0) (samples (take count prs))
      → calc_time timersub count prs ≡ some (mean (samples (take count prs)))
  unfolding calc_time
  calc_time-mean count prs h fit =
      rw (add_samples-samples prs prs count 0 (sums 0 (pos 0)) refl h fit)
        (mean_of_sums (samples (take count prs)))
