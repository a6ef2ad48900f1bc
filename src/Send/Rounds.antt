-- ===== src/Send/Rounds.antt =====
-- The order of the requests, and the stamps that the sending thread leaves.
use fping.Base.{
  ℕ, zero, suc, ◌+◌, ◌≡◌, ◌<◌, ◌≤◌, refl, false, some, List, [], ◌∷◌, ◌++◌, ℤ, pos, ltb_ℤ, length,
  map, arith, sym, ◌∙◌, Bool-cases, inl, inr, get_elem?, get_elem?-some, All, All-imp, ◌==◌, ◌&&◌,
}
use mathlib.Core.List.{append_assoc, append-nil}
use fping.Result.{PingResult, Key, Timeval, max_count}
use fping.Recv.{Store, set_sent}
use fping.Recv.Bounds.{IsSized, Changed, Changed-other, write_result-Changed, map-write_result}
use fping.Send.{Sending, send_host, send_round, send_rounds, send_loop}

-- the requests of one round: every host once, in the table's order
abbrev pub round_requests : Store → List (Key × ℕ) → ℕ → List (ℕ × ℕ)
round_requests st hosts i = map (λ host. ((st host.1).addr, i)) hosts

-- the requests of the rounds from `i` on
unfoldable pub requests : Store → List (Key × ℕ) → ℕ → ℕ → List (ℕ × ℕ)
requests st hosts zero i = []
requests st hosts (suc n) i = round_requests st hosts i ++ requests st hosts n (i + 1)

-- What the sending thread leaves alone: addresses, receive stamps and the sizes of the arrays.
pub record SameReplies (st st' : Store) : Type 0 where
  pub addr : (q : ℕ) → (st' q).addr ≡ (st q).addr
  pub recv : (q : ℕ) → map (λ r. r.tv_recv) (st' q).results ≡ map (λ r. r.tv_recv) (st q).results
  pub sized : IsSized st'

SameReplies-trans :
    {st st' st'' : Store} → SameReplies st st' → SameReplies st' st'' → SameReplies st st''
SameReplies-trans a b = record {
  addr = λ q. b.addr q ∙ a.addr q;
  recv = λ q. b.recv q ∙ a.recv q;
  sized = b.sized;
}

round_requests-same :
    (st st' : Store) (hosts : List (Key × ℕ)) (i : ℕ)
    → SameReplies st st'
    → round_requests st' hosts i ≡ round_requests st hosts i
round_requests-same st st' [] i a = refl
round_requests-same st st' (host ∷ hosts) i a =
    rw (a.addr host.1, round_requests-same st st' hosts i a)

requests-same :
    (st st' : Store) (hosts : List (Key × ℕ)) (n i : ℕ)
    → SameReplies st st'
    → requests st' hosts n i ≡ requests st hosts n i
unfolding requests
requests-same st st' hosts zero i a = refl
requests-same st st' hosts (suc n) i a =
    rw (round_requests-same st st' hosts i a, requests-same st st' hosts n (i + 1) a)

-- The probe `j` of the object `p` carries the time of some call.
abbrev pub IsStamped : (ℕ → Timeval) → Store → ℕ → ℕ → Type 0
IsStamped clock st p j =
    (r : PingResult) × (n : ℕ) × (get_elem? (st p).results j ≡ some r) × (r.tv_sent ≡ clock n)

module _ (icmp_send : ℕ → ℕ → ℕ → ℤ) (gettimeofday : ℕ → Timeval) where
  -- The outcome of a part of the loop from `s`, in which the requests `reqs` were sent.
  pub record Sent (s : Sending) (reqs : List (ℕ × ℕ)) (s' : Sending) : Type 0 where
    pub sent : s'.sent ≡ s.sent ++ reqs
    pub same : SameReplies s.store s'.store
    pub kept : (p j : ℕ) → IsStamped gettimeofday s.store p j → IsStamped gettimeofday s'.store p j

  Sent-trans :
      {s s' s'' : Sending} {xs ys : List (ℕ × ℕ)}
      → Sent s xs s'
      → Sent s' ys s''
      → Sent s (xs ++ ys) s''
  Sent-trans {s} {s'} {s''} {xs} {ys} a b = record {
    sent = b.sent ∙ rw a.sent (append_assoc s.sent xs ys);
    same = SameReplies-trans a.same b.same;
    kept = λ p j h. b.kept p j (a.kept p j h);
  }

  stamp_kept :
      (n pr i : ℕ) (st st' : Store)
      → Changed (set_sent (gettimeofday n)) pr i st st'
      → (p j : ℕ) → IsStamped gettimeofday st p j
      → IsStamped gettimeofday st' p j
  stamp_kept n pr i st st' c p j (r, k, at, stamped) = elim (Bool-cases ((p == pr) && (j == i))) [
    | inl here ↦
        let ep : pr ≡ p = ground arith in
        let ei : i ≡ j = ground arith in
        (set_sent (gettimeofday n) r, n, rw (ep, ei) at (c.probe r (rw (ep, ei) at)), refl)
    | inr away ↦ (r, k, Changed-other c p j away ∙ at, stamped)
  ]

  -- no call of `icmp_send` fails
  abbrev pub NeverFails : Type 0
  NeverFails = (n addr i : ℕ) → ltb_ℤ (icmp_send n addr i) (pos 0) ≡ false

  send_host-Sent :
      (i pr : ℕ) (s : Sending)
      → IsSized s.store
      → i < max_count
      → (s' : Sending) × (send_host icmp_send gettimeofday i pr s ≡ some s')
        × Sent s (((s.store pr).addr, i) ∷ []) s'
        × (NeverFails → IsStamped gettimeofday s'.store pr i)
  unfolding send_host
  send_host-Sent i pr s sized h =
      let n = length s.sent in
      let set = set_sent (gettimeofday n) in
      let sent = s.sent ++ ((s.store pr).addr, i) ∷ [] in
      let (st', run, c) = write_result-Changed set pr i s.store sized h in
      let (r, found) = get_elem?-some (s.store pr).results i (omega (arith, sized pr)) in
      elim (Bool-cases (ltb_ℤ (icmp_send n (s.store pr).addr i) (pos 0))) [
        | inl bad ↦ (
          record { sent = sent; store = s.store },
          rw bad,
          record {
            sent = refl;
            same = record { addr = λ q. refl; recv = λ q. refl; sized = sized };
            kept = λ p j k. k;
          },
          λ never. cc (never n (s.store pr).addr i),
        )
        | inr good ↦ (
          record { sent = sent; store = st' },
          rw (good, run),
          record {
            sent = refl;
            same = record {
              addr = c.addr;
              recv = map-write_result set (λ x. x.tv_recv) (λ x. refl) pr i s.store st' run;
              sized = c.sized;
            };
            kept = stamp_kept n pr i s.store st' c;
          },
          λ never. (set r, n, c.probe r found, refl),
        )
      ]

  send_round-Sent :
      (i : ℕ) (hosts : List (Key × ℕ)) (s : Sending)
      → IsSized s.store
      → i < max_count
      → (s' : Sending) × (send_round icmp_send gettimeofday i hosts s ≡ some s')
        × Sent s (round_requests s.store hosts i) s'
        × (NeverFails → All (λ host. IsStamped gettimeofday s'.store host.1 i) hosts)
  unfolding send_round
  send_round-Sent i [] s sized h = (
    s,
    refl,
    record {
      sent = sym (append-nil s.sent);
      same = record { addr = λ q. refl; recv = λ q. refl; sized = sized };
      kept = λ p j k. k;
    },
    λ never. tt,
  )
  send_round-Sent i ((ips, pr) ∷ hosts) s sized h =
      let (s', run, sent, stamped) = send_host-Sent i pr s sized h in
      let (s'', run', sent', stamped') = send_round-Sent i hosts s' sent.same.sized h in
      (
        s'',
        rw run run',
        Sent-trans sent (rw (round_requests-same s.store s'.store hosts i sent.same) at sent'),
        λ never. (sent'.kept pr i (stamped never), stamped' never),
      )

  send_rounds-Sent :
      (n i : ℕ) (hosts : List (Key × ℕ)) (s : Sending)
      → IsSized s.store
      → i + n ≤ max_count
      → (s' : Sending) × (send_rounds icmp_send gettimeofday n i hosts s ≡ some s')
        × Sent s (requests s.store hosts n i) s'
        × (NeverFails
            → (j : ℕ) → i ≤ j
            → j < i + n
            → All (λ host. IsStamped gettimeofday s'.store host.1 j) hosts)
  unfolding send_rounds requests
  send_rounds-Sent zero i hosts s sized h = (
    s,
    refl,
    record {
      sent = sym (append-nil s.sent);
      same = record { addr = λ q. refl; recv = λ q. refl; sized = sized };
      kept = λ p j k. k;
    },
    λ never j le lt. absurd (omega arith),
  )
  send_rounds-Sent (suc n) i hosts s sized h =
      let (s', run, sent, stamped) = send_round-Sent i hosts s sized (omega arith) in
      let (s'', run', sent', stamped') =
        send_rounds-Sent n (i + 1) hosts s' sent.same.sized (omega arith) in
      (
        s'',
        rw run run',
        Sent-trans sent (rw (requests-same s.store s'.store hosts n (i + 1) sent.same) at sent'),
        λ never j le lt. elim (Bool-cases (j == i)) [
          | inl now ↦
              let e : i ≡ j = ground arith in
              All-imp (λ host k. sent'.kept host.1 j k) hosts (rw e at (stamped never))
          | inr later ↦ stamped' never j (ground arith) (omega arith)
        ],
      )

  -- With at most as many rounds as an array holds probes, the sending thread writes inside the arrays.
  -- It sends `count` rounds of one request to each host in the table's order, the number of the round
  -- being the sequence number, and leaves addresses and receive stamps alone.
  pub send_loop-requests :
      (count : ℕ) (hosts : List (Key × ℕ)) (st : Store)
      → IsSized st
      → count ≤ max_count
      → (out : Sending) × (send_loop icmp_send gettimeofday count hosts st ≡ some out)
        × (out.sent ≡ requests st hosts count 0)
        × SameReplies st out.store
  unfolding send_loop
  send_loop-requests count hosts st sized h =
      let (out, run, sent, stamped) =
        send_rounds-Sent count 0 hosts (record { sent = []; store = st }) sized (omega arith) in
      (out, run, sent.sent, sent.same)

  -- Where no call of `icmp_send` fails, and there are at most as many rounds as an array holds probes:
  -- when the sending thread is done, the probe of every host and every round carries a time that the
  -- clock gave it.
  pub send_loop-IsStamped :
      (count : ℕ) (hosts : List (Key × ℕ)) (st : Store) (j : ℕ)
      → IsSized st
      → count ≤ max_count
      → NeverFails
      → j < count
      → (out : Sending) × (send_loop icmp_send gettimeofday count hosts st ≡ some out)
        × All (λ host. IsStamped gettimeofday out.store host.1 j) hosts
  unfolding send_loop
  send_loop-IsStamped count hosts st j sized h never lt =
      let (out, run, sent, stamped) =
        send_rounds-Sent count 0 hosts (record { sent = []; store = st }) sized (omega arith) in
      (out, run, stamped never j (omega arith) (omega arith))
