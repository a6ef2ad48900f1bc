-- ===== src/Session/Alone.antt =====
-- The sequential `send_loop` as a run of the two threads in which the receiver takes no step.
use fping.Base.{
  ℕ, zero, suc, ◌+◌, ◌<◌, ◌≤◌, ◌≡◌, refl, ap, sym, ◌∙◌, if◌then◌else◌, subst, Bool-cases,
  Option-cases, inl, inr, Option, none, some, List, [], ◌∷◌, ◌++◌, length, ℤ, pos, ltb_ℤ, arith,
}
use fping.Result.{Key, Timeval, max_count}
use fping.Recv.{Store, write_result, set_sent}
use fping.Recv.Bounds.{IsSized}
use fping.Send.Rounds.{send_loop-requests}
use fping.Send.{Sending, send_host, send_round, send_rounds, send_loop}
use fping.Session.Clock.{taken}
use fping.Session.{Reach, start, send, sends, fails, stamps, turns}

same_sending : (a b : Sending) → some a ≡ some b → a ≡ b
same_sending a b e = cc

-- What is kept of the requests whose `icmp_send` does not fail, the latest first; the calls are numbered
-- from `n` on.
unfoldable pub accepted {ℓ} :
    {A : Type ℓ} → (ℕ → ℕ → ℕ → ℤ) → (ℕ → ℕ × ℕ → A) → ℕ → List (ℕ × ℕ) → List A → List A
accepted icmp_send keep n [] acc = acc
accepted icmp_send keep n (req ∷ reqs) acc =
    accepted icmp_send keep (suc n) reqs
      (if ltb_ℤ (icmp_send n req.0 req.1) (pos 0) then acc else keep n req ∷ acc)

accepted_last {ℓ} :
    {A : Type ℓ} (icmp_send : ℕ → ℕ → ℕ → ℤ) (keep : ℕ → ℕ × ℕ → A) (n m : ℕ) (reqs : List (ℕ × ℕ))
    (req : ℕ × ℕ) (acc : List A)
    → n + length reqs ≡ m
    → accepted icmp_send keep n (reqs ++ req ∷ []) acc ≡ (
        if ltb_ℤ (icmp_send m req.0 req.1) (pos 0)
        then accepted icmp_send keep n reqs acc
        else keep m req ∷ accepted icmp_send keep n reqs acc)
unfolding accepted
accepted_last icmp_send keep n m [] req acc e = let e' : n ≡ m = omega arith in rw e' refl
accepted_last icmp_send keep n m (r ∷ reqs) req acc e =
    accepted_last icmp_send keep (suc n) m reqs req _ (omega arith)

module _ (table_get : Key → Option ℕ) (inet_ntoa : ℕ → Key) (hosts : List (Key × ℕ)) (count : ℕ)
    (icmp_send : ℕ → ℕ → ℕ → ℤ) (gettimeofday : ℕ → Timeval) (st : Store) where
  -- the requests that `icmp_send` has put on the wire
  abbrev pub wired : Sending → List (ℕ × ℕ)
  wired s = accepted icmp_send (λ n req. req) 0 s.sent []

  -- the times that were taken behind them
  abbrev pub clocked : Sending → List Timeval
  clocked s = accepted icmp_send (λ n req. gettimeofday n) 0 s.sent []

  -- The sender stands in round `i` before the hosts `rest`; the results, the requests on the wire and the
  -- times taken are those of `s`.
  record Stands (i : ℕ) (rest : List (Key × ℕ)) (s : Sending) : Type 0 where
    wire : List (ℕ × ℕ)
    run : Reach table_get inet_ntoa hosts count st (record {
      sender = record { round = i; rest = rest; pending = none };
      store = s.store;
      wire = wire;
    })
    on_wire : wire ≡ wired s
    times : taken table_get inet_ntoa hosts count run ≡ clocked s

  send_host-Stands :
      (i : ℕ) (ips : Key) (pr : ℕ) (rest : List (Key × ℕ)) (s out : Sending)
      → i < count
      → Stands i ((ips, pr) ∷ rest) s
      → send_host icmp_send gettimeofday i pr s ≡ some out
      → Stands i rest out
  unfolding send_host
  send_host-Stands i ips pr rest s out lt at run =
      let n = length s.sent in
      let addr = (s.store pr).addr in
      let last_req = accepted_last icmp_send (λ n req. req) 0 n s.sent (addr, i) [] (omega arith) in
      let last_time =
        accepted_last icmp_send (λ n req. gettimeofday n) 0 n s.sent (addr, i) [] (omega arith) in
      elim (Bool-cases (ltb_ℤ (icmp_send n addr i) (pos 0))) [
        | inl failed ↦
            let run' = rw failed at run in
            subst (Stands i rest) (same_sending _ out run') (record {
              wire = at.wire;
              run = send at.run (fails ips pr rest lt refl refl);
              on_wire = at.on_wire ∙ sym (last_req ∙ rw failed refl);
              times = at.times ∙ sym (last_time ∙ rw failed refl);
            })
        | inr sent ↦
            let run' = rw sent at run in
            elim (Option-cases (write_result (set_sent (gettimeofday n)) pr i s.store)) [
              | inl outside ↦ let run'' = rw outside at run' in absurd (ground arith)
              | inr (st', written) ↦
                  let run'' = rw written at run' in
                  subst (Stands i rest) (same_sending _ out run'') (record {
                    wire = (addr, i) ∷ at.wire;
                    run =
                        send (send at.run (sends ips pr rest lt refl refl))
                          (stamps pr (gettimeofday n) st' refl written);
                    on_wire = ap (λ l. (addr, i) ∷ l) at.on_wire ∙ sym (last_req ∙ rw sent refl);
                    times = ap (λ l. gettimeofday n ∷ l) at.times ∙ sym (last_time ∙ rw sent refl);
                  })
            ]
      ]

  send_round-Stands :
      (i : ℕ) (xs : List (Key × ℕ)) (s out : Sending)
      → i < count
      → Stands i xs s
      → send_round icmp_send gettimeofday i xs s ≡ some out
      → Stands i [] out
  unfolding send_round
  send_round-Stands i [] s out lt at run = subst (Stands i []) (same_sending s out run) at
  send_round-Stands i ((ips, pr) ∷ rest) s out lt at run =
      elim (Option-cases (send_host icmp_send gettimeofday i pr s)) [
        | inl outside ↦ let run' = rw outside at run in absurd (ground arith)
        | inr (s', sent) ↦
            send_round-Stands i rest s' out lt (send_host-Stands i ips pr rest s s' lt at sent)
              (rw sent at run)
      ]

  next_round : (i : ℕ) (s : Sending) → i < count → Stands i [] s → Stands (i + 1) hosts s
  next_round i s lt at = record {
    wire = at.wire;
    run = send at.run (turns refl refl lt);
    on_wire = at.on_wire;
    times = at.times;
  }

  send_rounds-Stands :
      (n i : ℕ) (s out : Sending)
      → i + n ≡ count
      → Stands i hosts s
      → send_rounds icmp_send gettimeofday n i hosts s ≡ some out
      → Stands count hosts out
  unfolding send_rounds
  send_rounds-Stands zero i s out e at run =
      let last : i ≡ count = omega arith in
      subst (λ k. Stands k hosts out) last (subst (Stands i hosts) (same_sending s out run) at)
  send_rounds-Stands (suc n) i s out e at run =
      elim (Option-cases (send_round icmp_send gettimeofday i hosts s)) [
        | inl outside ↦ let run' = rw outside at run in absurd (ground arith)
        | inr (s', sent) ↦
            send_rounds-Stands n (i + 1) s' out (omega arith)
              (next_round i s' (omega arith) (send_round-Stands i hosts s s' (omega arith) at sent))
              (rw sent at run)
      ]

  -- For results with arrays of five probes and at most five rounds: `send_loop` returns, and the two
  -- threads have a run to the end of all its rounds and to the results that it leaves, in which the
  -- requests on the wire are those of its calls of `icmp_send` that do not fail, and the times
  -- taken are those of the clock behind each of them, both in the order of the calls.
  pub send_loop-Reach :
      IsSized st
      → count ≤ max_count
      → (out : Sending) × (send_loop icmp_send gettimeofday count hosts st ≡ some out)
        × (wire : List (ℕ × ℕ)) × (run : Reach table_get inet_ntoa hosts count st (record {
          sender = record { round = count; rest = hosts; pending = none };
          store = out.store;
          wire = wire;
        }))
        × (wire ≡ wired out)
        × (taken table_get inet_ntoa hosts count run ≡ clocked out)
  unfolding send_loop accepted
  send_loop-Reach sized le =
      let (out, run, all_sent, kept) =
        send_loop-requests icmp_send gettimeofday count hosts st sized le in
      let at =
        send_rounds-Stands count 0 (record { sent = []; store = st }) out (omega arith)
          (record { wire = []; run = start; on_wire = refl; times = refl }) run in
      (out, run, at.wire, at.run, at.on_wire, at.times)
