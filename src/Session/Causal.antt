-- ===== src/Session/Causal.antt =====
-- Over a network whose replies answer requests: bounds, and what a receive stamp stands for.
use fping.Base.{
  ℕ, ◌≡◌, ◌<◌, ◌≤◌, true, false, Option, some, List, get_elem?, nonzero, Bool-cases, inl, inr,
  arith, ◌==◌, ◌&&◌, ◌∙◌, sym, ap, Option-cases, ◌⊎◌, get_elem?-some,
}
use mathlib.Core.List.{Mem, mem-cons, not-mem-nil}
use mathlib.Core.Logic.Or
use mathlib.Core.Bool.{false≢true}
use native.Mathlib.Bridge.{le_prop}
use fping.Recv.Outcome.{Changed-write_result, on_reply-cases}
use fping.Result.{Key, Timeval, PingResult, max_count}
use fping.Recv.{Store, set_sent, set_recv, on_reply}
use fping.Recv.Bounds.{IsSized, Changed, Changed-other, on_reply_faults}
use fping.Session.{
  System, SendStep, RecvStep, Reach, start, send, recv, sends, fails, stamps, turns, receives,
}

pub some-eq {ℓ} : {A : Type ℓ} {a b : A} → some a ≡ some b → a ≡ b
some-eq e = cc

module _ (table_get : Key → Option ℕ) (inet_ntoa : ℕ → Key) (hosts : List (Key × ℕ)) (count : ℕ)
    (inet_addr : Key → ℕ) (ntoa-addr : (a : ℕ) → inet_addr (inet_ntoa a) ≡ a) where
  -- The address of every object in the table is that of its key, as `result_new` leaves it.
  abbrev pub IsKeyed : Store → Type 0
  IsKeyed st = (k : Key) (p : ℕ) → table_get k ≡ some p → (st p).addr ≡ inet_addr k

  -- The probes with a receive stamp were requested, for every object in the table.
  abbrev pub IsCausal : Store → List (ℕ × ℕ) → Type 0
  IsCausal st wire =
      (k : Key) (p i : ℕ) (r : PingResult)
      → table_get k ≡ some p
      → get_elem? (st p).results i ≡ some r
      → nonzero r.tv_recv.sec ≡ true
      → Mem ((st p).addr, i) wire

  pub record Inv (s : System) : Type 0 where
    pub sized : IsSized s.store
    pub keyed : IsKeyed s.store
    pub rounds : (addr seq : ℕ) → Mem (addr, seq) s.wire → seq < count
    pub causal : IsCausal s.store s.wire

  -- The effect of a write on the two facts about the store, for a change that a step may make.
  Changed-IsKeyed :
      (f : PingResult → PingResult) (p i : ℕ) (st st' : Store)
      → Changed f p i st st'
      → IsKeyed st
      → IsKeyed st'
  Changed-IsKeyed f p i st st' c keyed k q e = c.addr q ∙ keyed k q e

  -- Every receive stamp of the new store was there before, or is the one just written.
  Changed-IsCausal :
      (f : PingResult → PingResult) (p i : ℕ) (st st' : Store) (wire : List (ℕ × ℕ))
      → IsSized st
      → i < max_count
      → Changed f p i st st'
      → ((r : PingResult)
          → get_elem? (st p).results i ≡ some r
          → nonzero (f r).tv_recv.sec ≡ true
          → (nonzero r.tv_recv.sec ≡ true) ⊎ Mem ((st p).addr, i) wire)
      → IsCausal st wire
      → IsCausal st' wire
  Changed-IsCausal f p i st st' wire sized inside c ok causal k q j r e at stamped =
      elim (Bool-cases ((q == p) && (j == i))) [
        | inr away ↦ rw (c.addr q) (causal k q j r e (sym (Changed-other c q j away) ∙ at) stamped)
        | inl here ↦
            let ep : q ≡ p = ground arith in
            let ei : j ≡ i = ground arith in
            let (r₀, at₀) = get_elem?-some (st p).results i (omega (arith, sized p)) in
            at_change r₀ at₀ ep ei
      ]
    where
      at_change :
          (r₀ : PingResult)
          → get_elem? (st p).results i ≡ some r₀
          → q ≡ p
          → j ≡ i
          → Mem ((st' q).addr, j) wire
      at_change r₀ at₀ ep ei =
          let new : get_elem? (st' p).results i ≡ some r = rw (ep, ei) at at in
          let same : f r₀ ≡ r = some-eq (sym (c.probe r₀ at₀) ∙ new) in
          elim (ok r₀ at₀ (rw same stamped)) [
            | inl before ↦ rw (c.addr q) (causal k q j r₀ e (rw (ep, ei) at₀) before)
            | inr sent ↦ rw (c.addr q) (rw (ep, ei) sent)
          ]

  SendStep-Inv : {s t : System} → Inv s → SendStep table_get inet_ntoa hosts count s t → Inv t
  SendStep-Inv {s} v (sends ips pr rest lt idle next) = record {
    sized = v.sized;
    keyed = v.keyed;
    rounds = λ addr seq m.
        Or.elim le_prop (mem-cons.0 m) (λ e. rw (ap (λ x. x.1) e) lt)
          (λ old. v.rounds addr seq old);
    causal = λ k p i r e at stamped. mem-cons.1 (Or.inr (v.causal k p i r e at stamped));
  }
  SendStep-Inv v (fails ips pr rest lt idle next) = record {
    sized = v.sized;
    keyed = v.keyed;
    rounds = v.rounds;
    causal = v.causal;
  }
  SendStep-Inv {s} v (stamps pr tv st busy run) =
      let (inside, c) =
        Changed-write_result (set_sent tv) pr s.sender.round s.store st v.sized run in
      record {
        sized = c.sized;
        keyed = Changed-IsKeyed (set_sent tv) pr s.sender.round s.store st c v.keyed;
        rounds = v.rounds;
        causal =
            Changed-IsCausal (set_sent tv) pr s.sender.round s.store st s.wire v.sized inside c
              (λ r at h. inl h) v.causal;
      }
  SendStep-Inv v (turns idle done lt) = record {
    sized = v.sized;
    keyed = v.keyed;
    rounds = v.rounds;
    causal = v.causal;
  }

  RecvStep-Inv :
      {s t : System} {addr seq : ℕ}
      → Inv s
      → Mem (addr, seq) s.wire
      → RecvStep table_get inet_ntoa hosts count s addr seq t
      → Inv t
  RecvStep-Inv {s} v m (receives addr seq tv st run) =
      elim (on_reply-cases table_get inet_ntoa count addr seq tv s.store st v.sized run) [
        | inl same ↦
            rw same
              (record { sized = v.sized; keyed = v.keyed; rounds = v.rounds; causal = v.causal })
        | inr (p, found, inside, c) ↦
            let own : (s.store p).addr ≡ addr = v.keyed (inet_ntoa addr) p found ∙ ntoa-addr addr in
            record {
              sized = c.sized;
              keyed = Changed-IsKeyed (set_recv tv) p seq s.store st c v.keyed;
              rounds = v.rounds;
              causal =
                  Changed-IsCausal (set_recv tv) p seq s.store st s.wire v.sized inside c
                    (λ r at h. inr (rw own m)) v.causal;
            }
      ]

  -- A store as `result_new` leaves it: sized, keyed, and with no receive stamp.
  pub record IsFresh (st : Store) : Type 0 where
    pub sized : IsSized st
    pub keyed : IsKeyed st
    pub unanswered :
        (p i : ℕ) (r : PingResult)
        → get_elem? (st p).results i ≡ some r
        → nonzero r.tv_recv.sec ≡ false

  pub Reach-Inv :
      {st : Store} {s : System} → IsFresh st → Reach table_get inet_ntoa hosts count st s → Inv s
  Reach-Inv {st} f start = record {
    sized = f.sized;
    keyed = f.keyed;
    rounds = λ addr seq m. absurd (not-mem-nil m);
    causal = λ k p i r e at stamped. absurd (false≢true (sym (f.unanswered p i r at) ∙ stamped));
  }
  Reach-Inv f (send r step) = SendStep-Inv (Reach-Inv f r) step
  Reach-Inv f (recv addr seq r m step) = RecvStep-Inv (Reach-Inv f r) m step

  -- In every state that the two threads reach in any interleaving, over a network whose echo replies
  -- answer requests: a probe of a host in the table carries a receive stamp only if a request with its
  -- number has been sent to that host.
  pub Reach-IsCausal :
      {st : Store} {s : System} (k : Key) (p i : ℕ) (r : PingResult)
      → IsFresh st
      → Reach table_get inet_ntoa hosts count st s
      → table_get k ≡ some p
      → get_elem? (s.store p).results i ≡ some r
      → nonzero r.tv_recv.sec ≡ true
      → Mem ((s.store p).addr, i) s.wire
  Reach-IsCausal k p i r f reach found at stamped =
      (Reach-Inv f reach).causal k p i r found at stamped

  -- With a count of at most the size of an array, in every such state: a reply to a request on the
  -- wire is recorded, or ignored, without a write outside the array of its host's probes.
  pub Reach-on_reply :
      {st : Store} {s : System} (addr seq : ℕ) (tv : Timeval)
      → count ≤ max_count
      → IsFresh st
      → Reach table_get inet_ntoa hosts count st s
      → Mem (addr, seq) s.wire
      → (st' : Store) × (on_reply table_get inet_ntoa count addr seq tv s.store ≡ some st')
  Reach-on_reply {s} addr seq tv small f r m =
      let v = Reach-Inv f r in
      elim (Option-cases (on_reply table_get inet_ntoa count addr seq tv s.store)) [
        | inr ok ↦ ok
        | inl fault ↦
            let (p, found, le, ge) =
              (on_reply_faults table_get inet_ntoa count addr seq tv s.store v.sized).0 fault in
            absurd (omega (arith, v.rounds addr seq m))
      ]
