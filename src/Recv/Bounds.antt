-- ===== src/Recv/Bounds.antt =====
-- The bounds of the receiving thread's writes, and what they change.
use fping.Base.{
  ℕ, ◌≡◌, ◌↔◌, ◌≤◌, ◌<◌, ◌≢◌, refl, true, false, ltb, ◌==◌, modify?, modify?-Modified, modify?-none,
  Option, none, some, List, [], ◌∷◌, nonzero, length, Bool-cases, inl, inr, arith, get_elem?, All,
  is_some, map, map-modify?, ◌&&◌, Option-cases, le→ltb,
}
use fping.Host.{Host}
use fping.Icmp.Receive.{Fits, buf_size, icmp_recv_safe, icmp_recv-seq}
use fping.Result.{Key, Timeval, PingResult, max_count}
use fping.Recv.{Store, write, write_result, set_recv, Arrival, on_reply, recv_round, recv_loop}

-- every host has its array of probes
abbrev pub IsSized : Store → Type 0
IsSized st = (p : ℕ) → length (st p).results ≡ max_count

-- `st'` is `st` with the probe `i` of the object `p` changed by `f`, and nothing else
pub record Changed (f : PingResult → PingResult) (p i : ℕ) (st st' : Store) : Type 0 where
  pub probe :
      (r : PingResult)
      → get_elem? (st p).results i ≡ some r
      → get_elem? (st' p).results i ≡ some (f r)
  pub probes : (j : ℕ) → j ≢ i → get_elem? (st' p).results j ≡ get_elem? (st p).results j
  pub addr : (q : ℕ) → (st' q).addr ≡ (st q).addr
  pub others : (q : ℕ) → q ≢ p → st' q ≡ st q
  pub sized : IsSized st'

pub write_result-Changed :
    (f : PingResult → PingResult) (p i : ℕ) (st : Store)
    → IsSized st
    → i < max_count
    → (st' : Store) × (write_result f p i st ≡ some st') × Changed f p i st st'
unfolding write_result write
write_result-Changed f p i st sized h =
    let (rs, m) = modify?-Modified f (st p).results i (omega (arith, sized p)) in
    (
      write st p rs,
      rw m.runs,
      record {
        probe = λ r e. ground (arith, m.at r);
        probes = λ j n. ground (arith, m.elsewhere j);
        addr = λ q. ground arith;
        others = λ q n. ground arith;
        sized = λ q. ground (arith, m.size, sized p, sized q);
      },
    )

some_of_is_some {ℓ} : {A : Type ℓ} (o : Option A) → is_some o ≡ true → (a : A) × (o ≡ some a)
some_of_is_some none h = cc
some_of_is_some (some a) h = (a, refl)

module _ (table_get : Key → Option ℕ) (inet_ntoa : ℕ → Key) (count : ℕ) where
  -- Below the count of an array's probes a reply is recorded, or ignored; the store changes at most in
  -- the receive stamp of that probe of the host that the table finds.
  pub on_reply-Changed :
      (addr seq p : ℕ) (tv : Timeval) (st : Store)
      → IsSized st
      → seq ≤ count
      → seq < max_count
      → table_get (inet_ntoa addr) ≡ some p
      → (st' : Store) × (on_reply table_get inet_ntoa count addr seq tv st ≡ some st')
        × Changed (set_recv tv) p seq st st'
  unfolding on_reply
  on_reply-Changed addr seq p tv st sized le lt found =
      rw (le→ltb count seq le, found) (write_result-Changed (set_recv tv) p seq st sized lt)

  -- A reply writes outside the array of a host's probes exactly when its host is in the table and its
  -- sequence number is at most the count, but not below the size of the array.
  pub on_reply_faults :
      (addr seq : ℕ) (tv : Timeval) (st : Store)
      → IsSized st
      → (on_reply table_get inet_ntoa count addr seq tv st ≡ none)
        ↔ ((p : ℕ) × (table_get (inet_ntoa addr) ≡ some p) × (seq ≤ count) × (max_count ≤ seq))
  unfolding on_reply
  on_reply_faults addr seq tv st sized = elim (Bool-cases (ltb count seq)) [
    | inl past ↦ (λ e. cc, λ (p, found, le, ge). absurd (ground arith))
    | inr below ↦ elim (Option-cases (table_get (inet_ntoa addr))) [
      | inl unknown ↦ (λ e. cc, λ (p, found, le, ge). cc)
      | inr (p, found) ↦ elim (Bool-cases (ltb seq max_count)) [
        | inl inside ↦
            let (st', run, changed) =
              write_result-Changed (set_recv tv) p seq st sized (ground arith) in
            (λ e. cc, λ (q, found', le, ge). absurd (ground arith))
        | inr outside ↦ (
          λ e. (p, found, ground arith, ground arith),
          λ (q, found', le, ge). rw (
            below,
            found,
            modify?-none (set_recv tv) (st p).results seq (omega (arith, sized p)),
          ),
        )
      ]
    ]
  ]

  on_reply_safe :
      (addr seq : ℕ) (tv : Timeval) (st : Store)
      → IsSized st
      → count < max_count
      → (st' : Store) × (on_reply table_get inet_ntoa count addr seq tv st ≡ some st') × IsSized st'
  unfolding on_reply
  on_reply_safe addr seq tv st sized small = elim (Bool-cases (ltb count seq)) [
    | inl past ↦ (st, rw past, sized)
    | inr below ↦ elim (Option-cases (table_get (inet_ntoa addr))) [
      | inl unknown ↦ (st, rw (below, unknown), sized)
      | inr (p, found) ↦
          let (st', run, changed) =
            write_result-Changed (set_recv tv) p seq st sized (ground arith) in
          (st', rw (below, found) run, changed.sized)
    ]
  ]

  recv_round_safe :
      (m : Host) (pid : ℕ) (a : Arrival) (buf : List ℕ) (st : Store)
      → count < max_count
      → Fits a.datagram
      → length buf ≡ buf_size
      → IsSized st
      → (buf' : List ℕ) × (st' : Store) × (recv_round table_get inet_ntoa count m pid a (buf, st)
          ≡ some (buf', st'))
        × (length buf' ≡ buf_size)
        × IsSized st'
  unfolding recv_round
  recv_round_safe m pid a buf st small fits len sized =
      let (out, run, len') = icmp_recv_safe m pid buf a.datagram len fits in
      elim (Bool-cases (nonzero out.status)) [
        | inl bad ↦ (out.buf, st, rw (run, bad), len', sized)
        | inr good ↦
            let (seq, es) =
              some_of_is_some out.seq (icmp_recv-seq m pid buf a.datagram out run good) in
            let (st', run', sized') = on_reply_safe a.addr seq a.time st sized small in
            (out.buf, st', rw (run, good, es, run'), len', sized')
      ]

  -- With a count below the size of the array, whatever arrives and however often: the receiving thread
  -- reads and writes inside its buffer and the arrays of the probes.
  pub recv_loop_safe :
      (m : Host) (pid : ℕ) (arrivals : List Arrival) (buf : List ℕ) (st : Store)
      → count < max_count
      → All (λ a. Fits a.datagram) arrivals
      → length buf ≡ buf_size
      → IsSized st
      → (buf' : List ℕ) × (st' : Store) × (recv_loop table_get inet_ntoa count m pid arrivals
            (buf, st)
          ≡ some (buf', st'))
        × (length buf' ≡ buf_size)
        × IsSized st'
  unfolding recv_loop
  recv_loop_safe m pid [] buf st small fits len sized = (buf, st, refl, len, sized)
  recv_loop_safe m pid (a ∷ rest) buf st small fits len sized =
      let (buf', st', run, len', sized') = recv_round_safe m pid a buf st small fits.0 len sized in
      rw run (recv_loop_safe m pid rest buf' st' small fits.1 len' sized')

-- Any other probe than the one changed is as it was.
pub Changed-other :
    {f : PingResult → PingResult} {p i : ℕ} {st st' : Store}
    → Changed f p i st st'
    → (q j : ℕ) → ((q == p) && (j == i)) ≡ false
    → get_elem? (st' q).results j ≡ get_elem? (st q).results j
Changed-other {p} {i} c q j n = elim (Bool-cases (q == p)) [
  | inl here ↦ let e : q ≡ p = ground arith in rw e (c.probes j (ground arith))
  | inr away ↦ rw (c.others q (ground arith))
]

-- A write keeps what `f` does not change in a probe.
pub map-write_result {ℓ} :
    {B : Type ℓ} (f : PingResult → PingResult) (g : PingResult → B)
    → ((r : PingResult) → g (f r) ≡ g r)
    → (p i : ℕ) (st st' : Store) → write_result f p i st ≡ some st'
    → (q : ℕ) → map g (st' q).results ≡ map g (st q).results
unfolding write_result write
map-write_result f g keep p i st st' e q = elim (Option-cases (modify? f (st p).results i)) [
  | inl miss ↦ absurd (ground arith)
  | inr (rs, found) ↦
      let same : st' ≡ write st p rs = ground arith in
      rw same (elim (Bool-cases (q == p)) [
        | inl here ↦
            rw (here, (let e' : q ≡ p = ground arith in e'))
              (map-modify? f g keep (st p).results i rs found)
        | inr away ↦ rw away
      ])
]
