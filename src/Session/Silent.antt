-- ===== src/Session/Silent.antt =====
-- From the two threads to the report: a host from which nothing has come.
use fping.Base.{
  ℕ, zero, suc, ◌≡◌, ◌≢◌, ◌<◌, ◌≤◌, refl, false, Bool-cases, inl, inr, ◌⊎◌, ◌&&◌, ◌==◌, Option,
  some, List, [], ◌∷◌, ◌++◌, All, get_elem?, get_elem?-some, take, nonzero, arith, sym, ◌∙◌, ap,
  subst, negsuc,
}
use fping.Result.{Key, Timeval, PingResult, max_count, PingResults, Report, result_output}
use fping.Result.Average.{IsTimersub, samples, mean}
use fping.Result.Output.{IsMeasured}
use fping.Result.Counted.{OneDead, result_output_among}
use fping.Recv.{Store, set_sent, set_recv}
use fping.Recv.Bounds.{IsSized, Changed, Changed-other}
use fping.Recv.Outcome.{Changed-write_result, on_reply-cases}
use fping.Session.{
  System, SendStep, RecvStep, Reach, start, send, recv, sends, fails, stamps, turns, receives,
}
use fping.Session.Causal.{IsFresh, Inv, Reach-Inv, some-eq}

-- No probe of the object has a receive stamp.
abbrev Unstamped : Store → ℕ → Type 0
Unstamped st p =
    (i : ℕ) (r : PingResult) → get_elem? (st p).results i ≡ some r → nonzero r.tv_recv.sec ≡ false

apart_index : (p q i j : ℕ) → q ≢ p → ((q == p) && (j == i)) ≡ false
apart_index p q i j ne = ground arith

Changed-Unstamped_other :
    (f : PingResult → PingResult) (p i : ℕ) (st st' : Store) (q : ℕ)
    → Changed f p i st st'
    → q ≢ p
    → Unstamped st q
    → Unstamped st' q
Changed-Unstamped_other f p i st st' q c ne h j r at =
    h j r (sym (Changed-other c q j (apart_index p q i j ne)) ∙ at)

Changed-Unstamped_sent :
    (tv : Timeval) (p i : ℕ) (st st' : Store) (q : ℕ)
    → IsSized st
    → i < max_count
    → Changed (set_sent tv) p i st st'
    → Unstamped st q
    → Unstamped st' q
Changed-Unstamped_sent tv p i st st' q sized inside c h j r at =
    elim (Bool-cases ((q == p) && (j == i))) [
      | inr away ↦ h j r (sym (Changed-other c q j away) ∙ at)
      | inl here ↦
          let ep : q ≡ p = ground arith in
          let ei : j ≡ i = ground arith in
          let (r₀, at₀) = get_elem?-some (st p).results i (omega (arith, sized p)) in
          at_change r₀ at₀ ep ei
    ]
  where
    at_change :
        (r₀ : PingResult)
        → get_elem? (st p).results i ≡ some r₀
        → q ≡ p
        → j ≡ i
        → nonzero r.tv_recv.sec ≡ false
    at_change r₀ at₀ ep ei =
        let new : get_elem? (st' p).results i ≡ some r = rw (ep, ei) at at in
        let same : set_sent tv r₀ ≡ r = some-eq (sym (c.probe r₀ at₀) ∙ new) in
        subst (λ x. nonzero x.tv_recv.sec ≡ false) same (h j r₀ (rw (ep, ei) at₀))

samples-nil :
    (n : ℕ) (rs : List PingResult)
    → ((i : ℕ) (r : PingResult) → get_elem? rs i ≡ some r → nonzero r.tv_recv.sec ≡ false)
    → samples (take n rs) ≡ []
unfolding samples
samples-nil zero rs h = refl
samples-nil (suc n) [] h = refl
samples-nil (suc n) (r ∷ rs) h = rw (h 0 r refl) (samples-nil n rs (λ i s at. h (suc i) s at))

module _ (table_get : Key → Option ℕ) (inet_ntoa : ℕ → Key) (hosts : List (Key × ℕ)) (count : ℕ)
    (inet_addr : Key → ℕ) (ntoa-addr : (a : ℕ) → inet_addr (inet_ntoa a) ≡ a) where
  -- the run of the two threads has received a reply from the address
  abbrev pub Heard :
      (a : ℕ) {st : Store} {s : System} → Reach table_get inet_ntoa hosts count st s → Type 0
  Heard a start = ⊥
  Heard a (send run step) = Heard a run
  Heard a (recv addr seq run m step) = (addr ≡ a) ⊎ Heard a run

  SendStep-Unstamped :
      {s t : System} (p : ℕ)
      → IsSized s.store
      → SendStep table_get inet_ntoa hosts count s t
      → Unstamped s.store p
      → Unstamped t.store p
  SendStep-Unstamped p sized (sends ips pr rest lt idle next) h = h
  SendStep-Unstamped p sized (fails ips pr rest lt idle next) h = h
  SendStep-Unstamped {s} p sized (stamps pr tv st busy run) h =
      let (inside, c) = Changed-write_result (set_sent tv) pr s.sender.round s.store st sized run in
      Changed-Unstamped_sent tv pr s.sender.round s.store st p sized inside c h
  SendStep-Unstamped p sized (turns idle done lt) h = h

  RecvStep-Unstamped :
      {s t : System} {addr seq : ℕ} (k : Key) (p : ℕ)
      → Inv table_get inet_ntoa hosts count inet_addr ntoa-addr s
      → table_get k ≡ some p
      → addr ≢ inet_addr k
      → RecvStep table_get inet_ntoa hosts count s addr seq t
      → Unstamped s.store p
      → Unstamped t.store p
  RecvStep-Unstamped {s} k p v found ne (receives addr seq tv st run) h =
      elim (on_reply-cases table_get inet_ntoa count addr seq tv s.store st v.sized run) [
        | inl same ↦ subst (λ x. Unstamped x p) (sym same) h
        | inr (q, at, inside, c) ↦
            let apart : p ≢ q = λ e. ne (
              sym (ntoa-addr addr)
              ∙ sym (v.keyed (inet_ntoa addr) q at)
              ∙ ap (λ x. (s.store x).addr) (sym e)
              ∙ v.keyed k p found) in
            Changed-Unstamped_other (set_recv tv) q seq s.store st p c apart h
      ]

  Reach-Unstamped :
      {st : Store} {s : System} (k : Key) (p : ℕ)
      → IsFresh table_get inet_ntoa hosts count inet_addr ntoa-addr st
      → (run : Reach table_get inet_ntoa hosts count st s) → table_get k ≡ some p
      → ¬ Heard (inet_addr k) run
      → Unstamped s.store p
  Reach-Unstamped k p f start found silent = λ i r at. f.unanswered p i r at
  Reach-Unstamped k p f (send run step) found silent =
      let v = Reach-Inv table_get inet_ntoa hosts count inet_addr ntoa-addr f run in
      SendStep-Unstamped p v.sized step (Reach-Unstamped k p f run found silent)
  Reach-Unstamped k p f (recv addr seq run m step) found silent =
      let v = Reach-Inv table_get inet_ntoa hosts count inet_addr ntoa-addr f run in
      RecvStep-Unstamped k p v found (λ e. silent (inl e)) step
        (Reach-Unstamped k p f run found (λ h. silent (inr h)))

  -- In every state that the two threads reach from fresh results with a count of at most 5, over a network whose echo replies
  -- answer requests: a host of the table from whose address no reply was received is shown with -1 at
  -- its place in the report, among any hosts whose arrays hold `count` probes and whose times sum
  -- up within an `int`, and adds one to the hosts counted as dead, and none to those alive.
  pub Reach-silent :
      (timersub : Timeval → Timeval → Timeval) {st : Store} {s : System} (k : Key) (p : ℕ)
      (front back : List (Key × PingResults))
      → IsTimersub timersub
      → count ≤ max_count
      → IsFresh table_get inet_ntoa hosts count inet_addr ntoa-addr st
      → (run : Reach table_get inet_ntoa hosts count st s) → table_get k ≡ some p
      → ¬ Heard (inet_addr k) run
      → All (IsMeasured count) front
      → All (IsMeasured count) back
      → (without report : Report) × (result_output timersub count (front ++ back) ≡ some without)
        × (result_output timersub count (front ++ (k, s.store p) ∷ back) ≡ some report)
        × OneDead count front back k (negsuc 0) without report
  Reach-silent timersub {st} {s} k p front back sub small f run found silent hf hb =
      let v = Reach-Inv table_get inet_ntoa hosts count inet_addr ntoa-addr f run in
      let none_left =
        samples-nil count (s.store p).results (Reach-Unstamped k p f run found silent) in
      let minus_one : mean (samples (take count (s.store p).results)) ≡ negsuc 0 =
        ap mean none_left in
      rw minus_one at (
        result_output_among timersub sub count front back k (s.store p) hf hb
          (omega (arith, small, v.sized p), rw none_left tt) (rw minus_one refl))
