-- ===== src/Icmp/Process.antt =====
-- `icmp_send` and `icmp_recv` together, and the process id that tells the processes apart.
use fping.Base.{
  ℕ, ◌+◌, ◌*◌, ◌/◌, ◌%◌, ◌^◌, ◌≤◌, ◌<◌, ◌≡◌, ◌≢◌, inl, inr, Bool-cases, arith, ltb, some, List, [],
  ◌∷◌, ◌++◌, length, drop, get_elem?, All, All-append, All-drop, All-get_elem?, Option-cases, ◌∙◌,
  pos,
}
use mathlib.Core.Path.{ap₂}
use fping.Host.{Byte, Host, IsHost}
use fping.Icmp.{
  Received, Recvfrom, failed, received, icmp_echoreply, min_bytes, load, parse, icmp_recv, request,
}
use fping.Icmp.Request.{echo_bytes, request_sum, request-echo_bytes}
use fping.Icmp.Receive.{IsHeader, outcome, icmp_recv-message}

-- The reply to a request: type 0, a checksum of its own, and the rest of the message unchanged.
unfoldable pub reply : (c c' : ℕ) → List ℕ → List ℕ
reply c c' pkt = icmp_echoreply ∷ 0 ∷ c ∷ c' ∷ drop 4 pkt

div_mod : (n : ℕ) → n / 2 ^ 8 * 2 ^ 8 + n % 2 ^ 8 ≡ n
div_mod n = omega arith

module _ (m : Host) (is : IsHost m) (sender receiver seq : ℕ) (hs : seq < 2 ^ 16) (buf ip : List ℕ)
    (hdr : IsHeader ip) (c c' : ℕ) where
  -- A request that the process `sender` sends with sequence number `seq`, and that comes back as an
  -- echo reply behind an IP header whose length field is right: the process `receiver` gets
  -- status 0 and the number `seq` if its id is the low 16 bits of the sender's, and otherwise
  -- status -3 and nothing.
  pub icmp_recv-request :
      (pkt : List ℕ) × (request m sender seq ≡ some pkt)
      × (out : Received) × (icmp_recv m receiver buf (received (ip ++ reply c c' pkt)) ≡ some out)
      × ((out.status, out.seq) ≡ outcome receiver icmp_echoreply (sender % 2 ^ 16) seq)
  unfolding reply
  icmp_recv-request =
      let ident = sender % 2 ^ 16 in
      let (out, run, same) =
        icmp_recv-message m is receiver buf ip hdr icmp_echoreply 0 c c' (ident / 2 ^ 8)
          (ident % 2 ^ 8) (seq / 2 ^ 8) (seq % 2 ^ 8) [] (omega arith) (omega arith) (omega arith)
          (omega arith) in
      (
        echo_bytes (m.first (request_sum m sender seq)) (m.second (request_sum m sender seq)) ident
            seq,
        request-echo_bytes m is sender seq hs,
        out,
        run,
        same ∙ ap₂ (λ x y. outcome receiver icmp_echoreply x y) (div_mod ident) (div_mod seq),
      )

-- Memory and datagrams hold bytes.
abbrev pub OfBytes : Recvfrom → Type 0
OfBytes failed = Unit
OfBytes (received d) = All Byte d

module _ (m : Host) (is : IsHost m) (pid : ℕ) (wide : 2 ^ 16 ≤ pid) where
  pub load_ne : (buf : List ℕ) (n id : ℕ) → All Byte buf → load m buf n ≡ some id → m.ntohs id ≢ pid
  unfolding load
  load_ne buf n id h e = elim (Option-cases (get_elem? buf n)) [
    | inl miss ↦ cc
    | inr (a, ea) ↦ elim (Option-cases (get_elem? buf (n + 1))) [
      | inl miss ↦ cc
      | inr (b, eb) ↦
          let ha = All-get_elem? Byte buf n h ea in
          let hb = All-get_elem? Byte buf (n + 1) h eb in
          let same : m.load16 a b ≡ id = cc in
          rw (← same) (omega (arith, is.ntohs-load16 a b ha hb))
    ]
  ]

  parse_ne :
      (buf : List ℕ) (out : Received)
      → All Byte buf
      → parse m pid buf ≡ some out
      → out.status ≢ pos 0
  unfolding parse
  parse_ne buf out h e = grind (arith, λ (n id : ℕ). load_ne buf n id h)

  -- In a process whose id does not fit in 16 bits `icmp_recv` accepts nothing: no datagram makes it
  -- return 0.
  pub icmp_recv_wide_pid :
      (buf : List ℕ) (r : Recvfrom) (out : Received)
      → All Byte buf
      → OfBytes r
      → icmp_recv m pid buf r ≡ some out
      → out.status ≢ pos 0
  unfolding icmp_recv
  icmp_recv_wide_pid buf failed out hb hr e = ground arith
  icmp_recv_wide_pid buf (received d) out hb hr e = elim (Bool-cases (ltb (length d) min_bytes)) [
    | inl short ↦ ground arith
    | inr long ↦
        parse_ne (d ++ drop (length d) buf) out
          (All-append Byte d (drop (length d) buf) hr (All-drop Byte (length d) buf hb))
          (rw long at e)
  ]
