-- ===== src/Ping/Runs.antt =====
-- Every run of `start`: it stays inside its buffer, counts at most one answer for a request, and sends
-- each request to where the last datagram came from.
use fping.Base.{
  ℕ, zero, suc, ◌+◌, ◌-◌, ◌%◌, ◌^◌, ◌≤◌, ◌<◌, ◌≡◌, refl, Bool-cases, inl, inr, ltb, Option, some,
  List, [], ◌∷◌, ◌++◌, length, replicate, All, arith, ℤ, pos, ◌-ℤ◌, ltb_ℤ, nonzero, length-append,
  length-replicate, lt→ltb, ◌∙◌,
}
use fping.Host.{Host, IsHost}
use fping.Utils.Checksum.Words.{checksum-ones_sum, ones_sum, words}
use fping.Icmp.{Icmphdr, icmp_echo, icmp_filter, packet, min_bytes}
use fping.Ping.Counts.{IsRun, Runs, Runs-heard, Runs-counted, Runs-request, Runs-exit}
use fping.Result.{Key}
use fping.Ping.Inspect.{inspect_safe}
use fping.Ping.{
  Ping, no_socket, no_filter, not_sent, incorrect, short_write, Arrival, error, datagram, finished,
  exited, blocked, Run, not_received, echo, await, rounds, start, inbuf_size, count, prints, sends,
  closes, total,
}

-- `recvfrom` takes no more than the buffer holds.
abbrev pub Fits : Arrival → Type 0
Fits error = Unit
Fits (datagram from d) = length d ≤ inbuf_size

module _ (m : Host) (pid : ℕ) where
  await-Runs :
      (i n : ℕ) (leave : ℕ → ℕ → List Arrival → Option Run)
      → i < count
      → ((addr nrec : ℕ) (rest : List Arrival)
          → All Fits rest
          → Runs addr nrec n n (leave addr nrec rest))
      → (addr nrec : ℕ) (arrivals : List Arrival) → All Fits arrivals
      → Runs addr nrec n (suc n) (await m pid i leave addr nrec arrivals)
  unfolding await
  await-Runs i n leave hi hl addr nrec [] h = (
    record { events = []; outcome = blocked },
    refl,
    record { follows = _; counts = omega arith },
  )
  await-Runs i n leave hi hl addr nrec (error ∷ rest) h = (
    record { events = prints not_received ∷ []; outcome = exited 1 },
    refl,
    record { follows = _; counts = omega arith },
  )
  await-Runs i n leave hi hl addr nrec (datagram from d ∷ rest) (fits, h) =
      let inbuf = d ++ replicate (inbuf_size - length d) 0 in
      let full : length inbuf ≡ inbuf_size =
        length-append d (replicate (inbuf_size - length d) 0)
        ∙ (omega (arith, fits, length-replicate (inbuf_size - length d) zero)) in
      let (v, run, is) = inspect_safe m pid i inbuf (length d) full in
      let again = await-Runs i n leave hi hl from nrec rest h in
      elim (Bool-cases (ltb (length d) min_bytes)) [
        | inl short ↦ rw short (
            Runs-heard addr from nrec n (suc n) (suc n) (incorrect ∷ [])
              (await m pid i leave from nrec rest) (omega arith) again)
        | inr long ↦ elim is [
          | inl quiet ↦ elim (Bool-cases v.leaves) [
            | inl leaves ↦
                rw (long, run, quiet, leaves)
                  (Runs-heard addr from nrec n n (suc n) v.lines (leave from nrec rest)
                    (omega arith) (hl from nrec rest h))
            | inr stays ↦
                rw (long, run, quiet, stays)
                  (Runs-heard addr from nrec n (suc n) (suc n) v.lines
                    (await m pid i leave from nrec rest) (omega arith) again)
          ]
          | inr (counted, leaves, lines) ↦
              rw (long, run, counted, leaves, lines, lt→ltb i count hi)
                (Runs-counted addr from nrec n n (leave from (nrec + 1) rest)
                  (hl from (nrec + 1) rest h))
        ]
      ]

  module _ (is : IsHost m) where
    -- the checksum of a packet is over its eight bytes
    pub echo-some : (i : ℕ) → i < 2 ^ 16 → (pkt : List ℕ) × (echo m pid i ≡ some pkt)
    unfolding echo
    echo-some i h =
        let pkt : Icmphdr = record {
          type = icmp_echo;
          code = 0;
          checksum = 0;
          id = m.htons (pid % 2 ^ 16);
          sequence = i;
        } in
        let run =
          checksum-ones_sum m is (packet m pkt) []
            (omega (
              arith,
              is.first-lt 0,
              is.second-lt 0,
              is.htons-lt (pid % 2 ^ 16),
              is.first-lt (m.htons (pid % 2 ^ 16)),
              is.second-lt (m.htons (pid % 2 ^ 16)),
              is.first-lt i,
              is.second-lt i,
            ))
            (omega arith) in
        (
          packet m (record pkt { checksum = 2 ^ 16 - 1 - ones_sum 0 (words m (packet m pkt)) }),
          rw run refl,
        )

    rounds-Runs :
        (sock : ℤ) (sendto : ℕ → ℕ → List ℕ → ℤ) (n i addr nrec : ℕ) (arrivals : List Arrival)
        → i + n ≤ count
        → All Fits arrivals
        → Runs addr nrec n n (rounds m pid sock sendto n i addr nrec arrivals)
    unfolding rounds
    rounds-Runs sock sendto zero i addr nrec arrivals hi h = (
      record { events = prints (total nrec) ∷ []; outcome = finished nrec },
      refl,
      record { follows = _; counts = omega arith },
    )
    rounds-Runs sock sendto (suc n) i addr nrec arrivals hi h =
        let (pkt, run) = echo-some i (omega arith) in
        let next =
          await-Runs i n (rounds m pid sock sendto n (i + 1)) (omega arith)
            (λ a k rest fits. rounds-Runs sock sendto n (i + 1) a k rest (omega arith) fits) addr
            nrec arrivals h in
        let bytes = sendto i addr pkt in
        elim (Bool-cases (ltb_ℤ bytes (pos 0))) [
          | inl failed ↦
              rw (run, failed)
                (Runs-exit addr nrec (suc n) (suc n) 1
                  (sends addr pkt ∷ prints not_sent ∷ closes sock ∷ []) (refl, _) (omega arith))
          | inr went ↦ elim (Bool-cases (nonzero (bytes -ℤ pos 8))) [
            | inl short ↦
                rw (run, went, short)
                  (Runs-exit addr nrec (suc n) (suc n) 1
                    (sends addr pkt ∷ prints (short_write bytes) ∷ closes sock ∷ []) (refl, _)
                    (omega arith))
            | inr whole ↦
                rw (run, went, whole)
                  (Runs-request addr nrec n pkt
                    (await m pid i (rounds m pid sock sendto n (i + 1)) addr nrec arrivals) next)
          ]
        ]

    -- For a name that `gethostbyname` knows, and datagrams that fit in the buffer: `start` never reads
    -- outside the buffer; its packets go to the address of the name and, behind a datagram, to where the
    -- last datagram came from; it sends at most five; and where it comes to its end it has sent five, and
    -- has counted at most five answers and no more than the echo replies that it has reported.
    pub start-IsRun :
        (self : Ping) (sock : ℤ) (gethostbyname : Key → Option ℕ) (addr : ℕ)
        (setsockopt : ℤ → ℕ → ℤ) (sendto : ℕ → ℕ → List ℕ → ℤ) (arrivals : List Arrival)
        → gethostbyname self.host ≡ some addr
        → All Fits arrivals
        → (r : Run) × (start m pid self sock gethostbyname setsockopt sendto arrivals ≡ some r)
          × IsRun addr 0 count count r
    unfolding start
    start-IsRun self sock gethostbyname addr setsockopt sendto arrivals known h =
        elim (Bool-cases (ltb_ℤ sock (pos 0))) [
          | inl bad ↦
              rw bad (
                Runs-exit addr 0 count count 1 (prints no_socket ∷ closes sock ∷ []) _
                  (omega arith))
          | inr good ↦ elim (Bool-cases (ltb_ℤ (setsockopt sock icmp_filter) (pos 0))) [
            | inl refused ↦
                rw (good, known, refused)
                  (Runs-exit addr 0 count count 3 (prints no_filter ∷ []) _ (omega arith))
            | inr set ↦
                rw (good, known, set)
                  (rounds-Runs sock sendto count 0 addr 0 arrivals (omega arith) h)
          ]
        ]
