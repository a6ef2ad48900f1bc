-- ===== src/Session/Race.antt =====
-- The gap between `icmp_send` and the time that is taken behind it.
use fping.Base.{
  ℕ, ◌≡◌, ◌<◌, refl, Option, some, List, [], ◌∷◌, ◌≤ℤ◌, get_elem?, get_elem?-some, arith,
}
use mathlib.Core.List.{mem-cons}
use mathlib.Core.Logic.Or
use fping.Result.{Key, Timeval}
use fping.Recv.{Store, set_sent}
use fping.Recv.Bounds.{IsSized, on_reply-Changed, write_result-Changed}
use fping.Result.Average.{micros}
use fping.Session.Clock.{taken, IsTimely}
use fping.Session.{System, Reach, start, send, recv, sends, stamps, receives}

module _ (table_get : Key → Option ℕ) (inet_ntoa : ℕ → Key) (ips : Key) (pr : ℕ)
    (rest : List (Key × ℕ)) (count : ℕ) where
  -- For results with arrays of five probes, a table that finds the first host, a count of at least 1, and
  -- any two times of which `late` does not lie before `early`: the two threads have a run over a
  -- network whose replies answer requests, in which exactly these two times are taken, `early` first,
  -- so that no time lies before one taken earlier, and behind which the first host's first probe has
  -- `early` as the stamp of its reply and `late` as that of its request.
  pub Reach-early :
      (st : Store) (early late : Timeval)
      → IsSized st
      → 0 < count
      → table_get (inet_ntoa (st pr).addr) ≡ some pr
      → micros early ≤ℤ micros late
      → (s : System) × (run : Reach table_get inet_ntoa ((ips, pr) ∷ rest) count st s) × (taken
            table_get inet_ntoa
            ((ips, pr) ∷ rest)
            count
            run
          ≡ late ∷ early ∷ [])
        × IsTimely (late ∷ early ∷ [])
        × (get_elem? (s.store pr).results 0 ≡ some (record { tv_sent = late; tv_recv = early }))
  Reach-early st early late sized some_round found order =
      let (st', run, c) =
        on_reply-Changed table_get inet_ntoa count (st pr).addr 0 pr early st sized (omega arith)
          (omega arith) found in
      let (st'', run', c') = write_result-Changed (set_sent late) pr 0 st' c.sized (omega arith) in
      let (r, at) = get_elem?-some (st pr).results 0 (omega (arith, sized pr)) in
      (
        _,
        send
            (recv (st pr).addr 0 (send start (sends ips pr rest some_round refl refl))
              (mem-cons.1 (Or.inl refl)) (receives (st pr).addr 0 early st' run))
            (stamps pr late st'' refl run'),
        refl,
        (order, tt),
        c'.probe _ (c.probe r at),
      )
