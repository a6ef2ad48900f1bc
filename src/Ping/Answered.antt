-- ===== src/Ping/Answered.antt =====
-- `start` where every request is answered.
use fping.Base.{
  ℕ, suc, ◌+◌, ◌-◌, ◌*◌, ◌%◌, ◌^◌, ◌≤◌, ◌<◌, ◌≡◌, ◌≢◌, refl, ◌⊎◌, inl, inr, true, false, ltb, ◌==◌,
  if◌then◌else◌, Option, some, List, [], ◌∷◌, ◌++◌, length, replicate, get_elem?, length-append,
  get_elem?-append_left, get_elem?-append_right, All, arith, ℤ, pos, ltb_ℤ, ◌-ℤ◌, lt→ltb, le→ltb,
  ne→false, eq→true, sym, ◌∙◌, ap, subst,
}
use fping.Host.{Byte, Host, IsHost}
use fping.Icmp.{icmp_echoreply, icmp_filter, load, min_bytes}
use fping.Icmp.Receive.{message, IsHeader}
use fping.Result.{Key}
use fping.Ping.{
  Ping, Event, prints, hears, sends, echo_reply, incorrect, total, Arrival, error, datagram,
  finished, Run, emit, inspect, await, rounds, start, inbuf_size, count,
}
use fping.Ping.Runs.{echo-some}

-- An echo reply with the identifier `ident` behind an IP header whose length field is right.
pub record IsReply (ident : ℕ) (d : List ℕ) : Type 0 where
  pub ip : List ℕ
  pub header : IsHeader ip
  pub code : ℕ
  pub c : ℕ
  pub c' : ℕ
  pub i : ℕ
  pub i' : ℕ
  pub s : ℕ
  pub s' : ℕ
  pub rest : List ℕ
  pub bytes : d ≡ ip ++ message icmp_echoreply code c c' i i' s s' rest
  pub high : Byte i
  pub low : Byte i'
  pub same : i * 2 ^ 8 + i' ≡ ident

-- A datagram that does not count: too short, or an echo reply for another process.
abbrev pub IsStray : ℕ → Arrival → Type 0
IsStray pid error = ⊥
IsStray pid (datagram from d) =
    (length d < min_bytes) ⊎ ((ident : ℕ) × (ident ≢ pid) × IsReply ident d)

abbrev pub IsAnswer : ℕ → Arrival → Type 0
IsAnswer pid error = ⊥
IsAnswer pid (datagram from d) = IsReply pid d

-- What arrives in one round, and in all of them.
abbrev pub Round : Type 0
Round = List Arrival × Arrival

abbrev pub IsRound : ℕ → Round → Type 0
IsRound pid r = All (IsStray pid) r.0 × IsAnswer pid r.1

abbrev pub sequence : List Round → List Arrival
sequence [] = []
sequence (r ∷ rs) = r.0 ++ (r.1 ∷ sequence rs)

-- a run that comes to its end with a count
abbrev Ends : ℕ → Option Run → Type 0
Ends c o = (es : List Event) × (o ≡ some (record { events = es; outcome = finished c }))

emit-Ends : (c : ℕ) (es : List Event) (o : Option Run) → Ends c o → Ends c (emit es o)
emit-Ends c es o (fs, e) = (es ++ fs, rw e refl)

read_message :
    (ip msg tail : List ℕ) (n j : ℕ)
    → n ≡ length ip + j
    → j < length msg
    → get_elem? ((ip ++ msg) ++ tail) n ≡ get_elem? msg j
read_message ip msg tail n j e h =
    get_elem?-append_left (ip ++ msg) tail n (omega (arith, length-append ip msg))
    ∙ get_elem?-append_right ip msg n j e

reply_long : (ident : ℕ) (d : List ℕ) → IsReply ident d → ltb (length d) min_bytes ≡ false
reply_long ident d r =
    let msg = message icmp_echoreply r.code r.c r.c' r.i r.i' r.s r.s' r.rest in
    le→ltb (length d) min_bytes
      (omega (arith, ap length r.bytes, length-append r.ip msg, r.header.least))

module _ (m : Host) (is : IsHost m) (pid : ℕ) where
  inspect_reply :
      (round ident n : ℕ) (d tail : List ℕ)
      → IsReply ident d
      → inspect m pid round (d ++ tail) n
        ≡ some (
            if ident == pid
            then record { lines = echo_reply ∷ []; counted = true; leaves = ltb round count }
            else record { lines = echo_reply ∷ []; counted = false; leaves = false })
  unfolding inspect load
  inspect_reply round ident n d tail r =
      let ip = r.ip in
      let msg = message icmp_echoreply r.code r.c r.c' r.i r.i' r.s r.s' r.rest in
      let hlen : r.header.ver_ihl % 2 ^ 4 * 4 ≡ length ip = sym r.header.counted in
      let first =
        get_elem?-append_left (ip ++ msg) tail 0
          (omega (arith, length-append ip msg, r.header.least))
        ∙ get_elem?-append_left ip msg 0 (omega (arith, r.header.least))
        ∙ r.header.starts in
      rw r.bytes (
        rw
          (
            first,
            read_message ip msg tail (r.header.ver_ihl % 2 ^ 4 * 4 + 4) 4 (omega arith)
                (omega arith),
            read_message ip msg tail (r.header.ver_ihl % 2 ^ 4 * 4 + 4 + 1) 5 (omega arith)
                (omega arith),
            read_message ip msg tail (r.header.ver_ihl % 2 ^ 4 * 4) 0 (omega arith) (omega arith),
            is.ntohs-load16 r.i r.i' r.high r.low,
            r.same,
          )
          refl)

  -- a round of the inner loop, from its arrivals to what follows its `break`
  await-Ends :
      (i c : ℕ) (leave : ℕ → ℕ → List Arrival → Option Run) (nrec : ℕ) (strays : List Arrival)
      (answer : Arrival) (rest : List Arrival) (addr : ℕ)
      → i < count
      → ((from : ℕ) → Ends c (leave from (nrec + 1) rest))
      → All (IsStray pid) strays
      → IsAnswer pid answer
      → Ends c (await m pid i leave addr nrec (strays ++ (answer ∷ rest)))
  unfolding await
  await-Ends i c leave nrec [] error rest addr h hl hs ha = elim ha [ ]
  await-Ends i c leave nrec [] (datagram from d) rest addr h hl hs ha =
      let tail : List ℕ = replicate (inbuf_size - length d) 0 in
      rw
        (
          reply_long pid d ha,
          inspect_reply i pid (length d) d tail ha,
          eq→true pid,
          lt→ltb i count h,
        )
        (emit-Ends c (hears from ∷ prints echo_reply ∷ []) (leave from (nrec + 1) rest) (hl from))
  await-Ends i c leave nrec (error ∷ strays) answer rest addr h hl hs ha = elim hs.0 [ ]
  await-Ends i c leave nrec (datagram from d ∷ strays) answer rest addr h hl (stray, hs) ha =
      let again = await-Ends i c leave nrec strays answer rest from h hl hs ha in
      let next = await m pid i leave from nrec (strays ++ (answer ∷ rest)) in
      elim stray [
        | inl short ↦
            rw (lt→ltb (length d) min_bytes short)
              (emit-Ends c (hears from ∷ prints incorrect ∷ []) next again)
        | inr (ident, other, reply) ↦
            let tail : List ℕ = replicate (inbuf_size - length d) 0 in
            rw
              (
                reply_long ident d reply,
                inspect_reply i ident (length d) d tail reply,
                ne→false ident pid other,
              )
              (emit-Ends c (hears from ∷ prints echo_reply ∷ []) next again)
      ]

  module _ (sock : ℤ) (sendto : ℕ → ℕ → List ℕ → ℤ)
      (whole : (i addr : ℕ) (pkt : List ℕ) → sendto i addr pkt ≡ pos 8) where
    rounds-Ends :
        (script : List Round) (i addr nrec : ℕ)
        → i + length script ≤ count
        → All (IsRound pid) script
        → Ends
            (nrec + length script)
            (rounds m pid sock sendto (length script) i addr nrec (sequence script))
    unfolding rounds ◌-ℤ◌
    rounds-Ends [] i addr nrec h hs = (
      prints (total nrec) ∷ [],
      ap (λ n. some (record { events = prints (total nrec) ∷ []; outcome = finished n }))
          (omega arith),
    )
    rounds-Ends (r ∷ script) i addr nrec h ((strays, answer), hs) =
        let (pkt, run) = echo-some m pid is i (omega arith) in
        let leave = rounds m pid sock sendto (length script) (i + 1) in
        let next =
          await-Ends i (nrec + suc (length script)) leave nrec r.0 r.1 (sequence script) addr
            (omega arith)
            (λ from.
              subst (λ c. Ends c (leave from (nrec + 1) (sequence script))) (omega arith)
                (rounds-Ends script (i + 1) from (nrec + 1) (omega arith) hs))
            strays answer in
        rw (run, whole i addr pkt)
          (emit-Ends (nrec + suc (length script)) (sends addr pkt ∷ [])
            (await m pid i leave addr nrec (sequence (r ∷ script))) next)

    -- Where no call fails and every packet is sent whole: let what arrives be five times any number of
    -- datagrams that are too short or are echo replies with another identifier, and then an echo reply
    -- whose identifier is the process id. Then `start` comes to its end, with all five counted.
    pub start-answered :
        (self : Ping) (gethostbyname : Key → Option ℕ) (addr : ℕ) (setsockopt : ℤ → ℕ → ℤ)
        (script : List Round)
        → ltb_ℤ sock (pos 0) ≡ false
        → gethostbyname self.host ≡ some addr
        → ltb_ℤ (setsockopt sock icmp_filter) (pos 0) ≡ false
        → length script ≡ count
        → All (IsRound pid) script
        → (es : List Event) × (start m pid self sock gethostbyname setsockopt sendto
              (sequence script)
            ≡ some (record { events = es; outcome = finished count }))
    unfolding start
    start-answered self gethostbyname addr setsockopt script opened known set five hs =
        rw (opened, known, set)
          (subst (λ n. Ends n (rounds m pid sock sendto n 0 addr 0 (sequence script))) five
            (subst
              (λ n. Ends n (rounds m pid sock sendto (length script) 0 addr 0 (sequence script)))
              (omega arith) (rounds-Ends script 0 addr 0 (omega (arith, five)) hs)))
