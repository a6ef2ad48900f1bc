-- ===== src/Icmp/Receive.antt =====
-- What `icmp_recv` accepts.
use fping.Base.{
  ℕ, ◌+◌, ◌*◌, ◌%◌, ◌^◌, ◌≤◌, ◌<◌, ◌≡◌, refl, false, arith, ◌==◌, ◌&&◌, Bool-cases, is_some, true,
  nonzero, ltb, inl, inr, if◌then◌else◌, Option, none, some, List, ◌∷◌, ◌++◌, length, drop,
  get_elem?, get_elem?-some, length-append, length-drop, ℤ, pos, negsuc, le→ltb, sym, ◌∙◌,
  get_elem?-append_left, get_elem?-append_right,
}
use fping.Host.{Byte, Host, IsHost}
use fping.Icmp.{
  icmp_echoreply, min_bytes, Recvfrom, failed, received, Received, other, load, parse, icmp_recv,
}

-- the size of the static buffer
abbrev pub buf_size : ℕ
buf_size = 512

-- `recvfrom` writes no more than the buffer holds.
abbrev pub Fits : Recvfrom → Type 0
Fits failed = Unit
Fits (received d) = length d ≤ buf_size

module _ (m : Host) where
  pub load-some : (buf : List ℕ) (i : ℕ) → i + 1 < length buf → (v : ℕ) × (load m buf i ≡ some v)
  unfolding load
  load-some buf i h =
      let (a, ea) = get_elem?-some buf i (omega arith) in
      let (b, eb) = get_elem?-some buf (i + 1) h in (m.load16 a b, rw (ea, eb))

  -- The answer to the headers that lie in the buffer, with no trace of the order of the reads.
  abbrev pub answer : ℕ → List ℕ → ℕ → ℕ → ℕ → Received
  answer pid buf type id seq =
      if (type == icmp_echoreply) && (m.ntohs id == pid)
      then record { status = pos 0; seq = some (m.ntohs seq); buf = buf }
      else other buf

  parse-answer :
      (pid : ℕ) (buf : List ℕ) (ver_ihl type id seq : ℕ)
      → get_elem? buf 0 ≡ some ver_ihl
      → get_elem? buf (ver_ihl % 2 ^ 4 * 4) ≡ some type
      → load m buf (ver_ihl % 2 ^ 4 * 4 + 4) ≡ some id
      → load m buf (ver_ihl % 2 ^ 4 * 4 + 6) ≡ some seq
      → parse m pid buf ≡ some (answer pid buf type id seq)
  unfolding parse
  parse-answer pid buf ver_ihl type id seq e0 e1 e2 e3 =
      rw (e0, e1, e2, e3)
        (elim (Bool-cases (type == icmp_echoreply)) [
          | inl t ↦ rw t (elim (Bool-cases (m.ntohs id == pid)) [ inl u ↦ rw u | inr u ↦ rw u ])
          | inr t ↦ rw t
        ])

  parse_safe :
      (pid : ℕ) (buf : List ℕ)
      → length buf ≡ buf_size
      → (r : Received) × (parse m pid buf ≡ some r) × (length r.buf ≡ buf_size)
  parse_safe pid buf e =
      let (v, ev) = get_elem?-some buf 0 (omega arith) in
      let (t, et) = get_elem?-some buf (v % 2 ^ 4 * 4) (omega arith) in
      let (i, ei) = load-some buf (v % 2 ^ 4 * 4 + 4) (omega arith) in
      let (s, es) = load-some buf (v % 2 ^ 4 * 4 + 6) (omega arith) in
      (answer pid buf t i s, parse-answer pid buf v t i s ev et ei es, ground arith)

  length-received :
      (buf d : List ℕ)
      → length buf ≡ buf_size
      → length d ≤ buf_size
      → length (d ++ drop (length d) buf) ≡ buf_size
  length-received buf d e h =
      omega (arith, length-append d (drop (length d) buf), length-drop (length d) buf)

  -- Whatever `recvfrom` gives, up to the size of the buffer: `icmp_recv` reads nothing outside its
  -- buffer and returns, also for a datagram that claims a longer header than it has.
  pub icmp_recv_safe :
      (pid : ℕ) (buf : List ℕ) (r : Recvfrom)
      → length buf ≡ buf_size
      → Fits r
      → (out : Received) × (icmp_recv m pid buf r ≡ some out) × (length out.buf ≡ buf_size)
  unfolding icmp_recv
  icmp_recv_safe pid buf failed e h = (record { status = negsuc 0; seq = none; buf = buf }, refl, e)
  icmp_recv_safe pid buf (received d) e h =
      let len = length-received buf d e h in
      elim (Bool-cases (ltb (length d) min_bytes)) [
        | inl short ↦ (
          record { status = negsuc 1; seq = none; buf = d ++ drop (length d) buf },
          rw short,
          len,
        )
        | inr long ↦ rw long (parse_safe pid (d ++ drop (length d) buf) len)
      ]

-- An ICMP message: its eight bytes of header, the checksum left open, and what follows them.
abbrev pub message : (type code c c' i i' s s' : ℕ) → List ℕ → List ℕ
message type code c c' i i' s s' rest = type ∷ code ∷ c ∷ c' ∷ i ∷ i' ∷ s ∷ s' ∷ rest

-- The outcome for a message of the given type, identifier and sequence number.
abbrev pub outcome : (pid type ident seq : ℕ) → ℤ × Option ℕ
outcome pid type ident seq =
    if (type == icmp_echoreply) && (ident == pid) then (pos 0, some seq) else (negsuc 2, none)

-- An IP header, with its options, whose length field is right.
pub record IsHeader (ip : List ℕ) : Type 0 where
  pub ver_ihl : ℕ
  pub starts : get_elem? ip 0 ≡ some ver_ihl
  pub counted : length ip ≡ ver_ihl % 2 ^ 4 * 4
  pub least : 20 ≤ length ip

module _ (m : Host) (is : IsHost m) (pid : ℕ) (buf ip : List ℕ) (hdr : IsHeader ip)
    (type code c c' i i' s s' : ℕ) (rest : List ℕ) (bi : Byte i) (bi' : Byte i') (bs : Byte s)
    (bs' : Byte s') where
  abbrev msg : List ℕ
  msg = message type code c c' i i' s s' rest

  abbrev d : List ℕ
  d = ip ++ msg

  abbrev full : List ℕ
  full = d ++ drop (length d) buf

  in_datagram : (n : ℕ) → n < length d → get_elem? full n ≡ get_elem? d n
  in_datagram n h = get_elem?-append_left d (drop (length d) buf) n h

  in_header : get_elem? d 0 ≡ some hdr.ver_ihl
  in_header = get_elem?-append_left ip msg 0 (omega (arith, hdr.least)) ∙ hdr.starts

  in_message : (n j : ℕ) → n ≡ length ip + j → j < 8 → get_elem? full n ≡ get_elem? msg j
  in_message n j e h =
      in_datagram n (omega (arith, length-append ip msg)) ∙ get_elem?-append_right ip msg n j e

  load_message :
      (n j a b : ℕ)
      → n ≡ length ip + j
      → j < 7
      → get_elem? msg j ≡ some a
      → get_elem? msg (j + 1) ≡ some b
      → load m full n ≡ some (m.load16 a b)
  unfolding load
  load_message n j a b e h ea eb = rw (
    in_message n j e (omega arith) ∙ ea,
    in_message (n + 1) (j + 1) (omega arith) (omega arith) ∙ eb,
  )

  -- For a datagram of an IP header whose length field is right, options included, and an ICMP message,
  -- in either byte order of the machine: `icmp_recv` returns 0 and stores the big-endian sequence
  -- number if the message is an echo reply whose big-endian identifier is the process id, and
  -- returns -3 and stores nothing otherwise.
  pub icmp_recv-message :
      (out : Received) × (icmp_recv m pid buf
          (received (ip ++ message type code c c' i i' s s' rest))
        ≡ some out)
      × ((out.status, out.seq) ≡ outcome pid type (i * 2 ^ 8 + i') (s * 2 ^ 8 + s'))
  unfolding icmp_recv
  icmp_recv-message =
      let id = m.load16 i i' in
      let seq = m.load16 s s' in
      let len : length d ≡ length ip + length msg = length-append ip msg in
      let enough : ltb (length d) min_bytes ≡ false =
        le→ltb (length d) min_bytes (omega (arith, hdr.least)) in
      let pkt : hdr.ver_ihl % 2 ^ 4 * 4 ≡ length ip = sym hdr.counted in
      let parsed =
        parse-answer m pid full hdr.ver_ihl type id seq
          (in_datagram 0 (omega (arith, hdr.least)) ∙ in_header)
          (in_message _ 0 (omega arith) (omega arith))
          (load_message _ 4 i i' (omega arith) (omega arith) refl refl)
          (load_message _ 6 s s' (omega arith) (omega arith) refl refl) in
      (
        answer m pid full type id seq,
        rw enough parsed,
        rw (is.ntohs-load16 i i' bi bi', is.ntohs-load16 s s' bs bs') (ground arith),
      )

module _ (m : Host) where
  parse-seq :
      (pid : ℕ) (buf : List ℕ) (out : Received)
      → parse m pid buf ≡ some out
      → nonzero out.status ≡ false
      → is_some out.seq ≡ true
  unfolding parse
  parse-seq pid buf out e z = ground arith

  -- Where `icmp_recv` returns 0 it has stored a sequence number.
  pub icmp_recv-seq :
      (pid : ℕ) (buf : List ℕ) (r : Recvfrom) (out : Received)
      → icmp_recv m pid buf r ≡ some out
      → nonzero out.status ≡ false
      → is_some out.seq ≡ true
  unfolding icmp_recv
  icmp_recv-seq pid buf failed out e z = ground arith
  icmp_recv-seq pid buf (received d) out e z = elim (Bool-cases (ltb (length d) min_bytes)) [
    | inl short ↦ ground arith
    | inr long ↦ parse-seq pid (d ++ drop (length d) buf) out (rw long at e) z
  ]
