-- ===== src/Ping/Wide.antt =====
-- `start` in a process whose id does not fit in 16 bits.
use fping.Base.{
  ℕ, zero, suc, ◌+◌, ◌-◌, ◌^◌, ◌≤◌, ◌≡◌, ◌≢◌, refl, Bool-cases, inl, inr, false, ltb, if◌then◌else◌,
  Option, none, some, Option-cases, List, [], ◌∷◌, ◌++◌, length, map, replicate, All, All-append,
  arith, ap, ◌∙◌, ℤ, pos, ltb_ℤ, nonzero, ◌-ℤ◌,
}
use fping.Host.{Byte, Host, IsHost}
use fping.Icmp.{icmp_filter, min_bytes}
use fping.Icmp.Process.{load_ne}
use fping.Result.{Key}
use fping.Ping.{
  Ping, Event, prints, hears, not_received, incorrect, sends, closes, not_sent, short_write,
  no_socket, no_host, no_filter, Arrival, error, datagram, finished, blocked, Run, Verdict, emit,
  exit, echo, inspect, inspect_unreachable, await, rounds, start, inbuf_size,
}

abbrev pub OfBytes : Arrival → Type 0
OfBytes error = Unit
OfBytes (datagram from d) = All Byte d

-- a run that does not come to the end of `start`
abbrev Unfinished : Option Run → Type 0
Unfinished o = (r : Run) → o ≡ some r → (c : ℕ) → r.outcome ≢ finished c

emit-Unfinished : (es : List Event) (o : Option Run) → Unfinished o → Unfinished (emit es o)
emit-Unfinished es none h r e c f = cc
emit-Unfinished es (some q) h r e c f =
    h q refl c (ap (λ o. elim o [ none ↦ blocked | some x ↦ x.outcome ]) e ∙ f)

none-Unfinished : Unfinished none
none-Unfinished r e c f = cc

blocked-Unfinished : Unfinished (some (record { events = []; outcome = blocked }))
blocked-Unfinished r e c f = cc

zeros-Byte : (n : ℕ) → All Byte (replicate n 0)
zeros-Byte zero = tt
zeros-Byte (suc n) = (omega arith, zeros-Byte n)

exit-Unfinished : (es : List Event) (code : ℕ) → Unfinished (exit es code)
exit-Unfinished es code r e c f = cc

module _ (m : Host) (is : IsHost m) (pid : ℕ) (wide : 2 ^ 16 ≤ pid) where
  inspect_unreachable_wide :
      (buf : List ℕ) (bytes : ℤ) (hlen : ℕ) (v : Verdict)
      → All Byte buf
      → inspect_unreachable m pid buf bytes hlen ≡ some v
      → v.leaves ≡ false
  unfolding inspect_unreachable
  inspect_unreachable_wide buf bytes hlen v h e =
      grind (arith, λ (n id : ℕ). load_ne m is pid wide buf n id h)

  inspect_wide :
      (i : ℕ) (buf : List ℕ) (bytes : ℕ) (v : Verdict)
      → All Byte buf
      → inspect m pid i buf bytes ≡ some v
      → v.leaves ≡ false
  unfolding inspect
  inspect_wide i buf bytes v h e = grind (
    arith,
    λ (n id : ℕ). load_ne m is pid wide buf n id h,
    λ (b : ℤ) (hlen : ℕ). inspect_unreachable_wide buf b hlen v h,
  )

  await-Unfinished :
      (i : ℕ) (leave : ℕ → ℕ → List Arrival → Option Run) (addr nrec : ℕ) (arrivals : List Arrival)
      → All OfBytes arrivals
      → Unfinished (await m pid i leave addr nrec arrivals)
  unfolding await
  await-Unfinished i leave addr nrec [] h = blocked-Unfinished
  await-Unfinished i leave addr nrec (error ∷ rest) h = exit-Unfinished (prints not_received ∷ []) 1
  await-Unfinished i leave addr nrec (datagram from d ∷ rest) (hd, h) =
      let inbuf = d ++ replicate (inbuf_size - length d) 0 in
      let bytes : All Byte inbuf =
        All-append Byte d (replicate (inbuf_size - length d) 0) hd
          (zeros-Byte (inbuf_size - length d)) in
      elim (Bool-cases (ltb (length d) min_bytes)) [
        | inl short ↦ rw short (
            emit-Unfinished (hears from ∷ prints incorrect ∷ [])
              (await m pid i leave from nrec rest) (await-Unfinished i leave from nrec rest h))
        | inr long ↦ elim (Option-cases (inspect m pid i inbuf (length d))) [
          | inl outside ↦ rw (long, outside) none-Unfinished
          | inr (v, run) ↦
              rw (long, run, inspect_wide i inbuf (length d) v bytes run)
                (emit-Unfinished (hears from ∷ map prints v.lines)
                  (await m pid i leave from (if v.counted then nrec + 1 else nrec) rest)
                  (await-Unfinished i leave from (if v.counted then nrec + 1 else nrec) rest h))
        ]
      ]

  rounds-Unfinished :
      (sock : ℤ) (sendto : ℕ → ℕ → List ℕ → ℤ) (n i addr nrec : ℕ) (arrivals : List Arrival)
      → All OfBytes arrivals
      → Unfinished (rounds m pid sock sendto (suc n) i addr nrec arrivals)
  unfolding rounds
  rounds-Unfinished sock sendto n i addr nrec arrivals h = elim (Option-cases (echo m pid i)) [
    | inl outside ↦ rw outside none-Unfinished
    | inr (pkt, run) ↦ elim (Bool-cases (ltb_ℤ (sendto i addr pkt) (pos 0))) [
      | inl failed ↦
          rw (run, failed) (exit-Unfinished (sends addr pkt ∷ prints not_sent ∷ closes sock ∷ []) 1)
      | inr went ↦ elim (Bool-cases (nonzero (sendto i addr pkt -ℤ pos 8))) [
        | inl short ↦
            rw (run, went, short)
              (exit-Unfinished
                (sends addr pkt ∷ prints (short_write (sendto i addr pkt)) ∷ closes sock ∷ []) 1)
        | inr whole ↦
            rw (run, went, whole)
              (emit-Unfinished (sends addr pkt ∷ [])
                (await m pid i (rounds m pid sock sendto n (i + 1)) addr nrec arrivals)
                (await-Unfinished i (rounds m pid sock sendto n (i + 1)) addr nrec arrivals h))
      ]
    ]
  ]

  -- In a process whose id does not fit in 16 bits `start` never comes to its end, whatever arrives: it
  -- exits after an error or waits for ever.
  pub start_wide_pid :
      (self : Ping) (sock : ℤ) (gethostbyname : Key → Option ℕ) (setsockopt : ℤ → ℕ → ℤ)
      (sendto : ℕ → ℕ → List ℕ → ℤ) (arrivals : List Arrival)
      → All OfBytes arrivals
      → (r : Run) → start m pid self sock gethostbyname setsockopt sendto arrivals ≡ some r
      → (c : ℕ) → r.outcome ≢ finished c
  unfolding start
  start_wide_pid self sock gethostbyname setsockopt sendto arrivals h =
      elim (Bool-cases (ltb_ℤ sock (pos 0))) [
        | inl bad ↦ rw bad (exit-Unfinished (prints no_socket ∷ closes sock ∷ []) 1)
        | inr good ↦ elim (Option-cases (gethostbyname self.host)) [
          | inl unknown ↦ rw (good, unknown) (exit-Unfinished (prints no_host ∷ closes sock ∷ []) 1)
          | inr (addr, known) ↦ elim (Bool-cases (ltb_ℤ (setsockopt sock icmp_filter) (pos 0))) [
            | inl refused ↦ rw (good, known, refused) (exit-Unfinished (prints no_filter ∷ []) 3)
            | inr set ↦ rw (good, known, set) (rounds-Unfinished sock sendto 4 0 addr 0 arrivals h)
          ]
        ]
      ]
