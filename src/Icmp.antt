-- ===== src/Icmp.antt =====
-- icmp.c: the ICMP socket, the echo request that `icmp_send` builds, and how `icmp_recv` reads a
-- datagram. The system calls are parameters, `none` is a read outside the receive buffer.
pub mod Filter
pub mod Process
pub mod Request
pub mod Receive
use fping.Base.{
  ℕ, ◌+◌, ◌-◌, ◌*◌, ◌%◌, ◌^◌, ◌||◌, ltb, ◌==◌, if◌then◌else◌, Option, none, some, List, [], ◌∷◌,
  ◌++◌, length, drop, get_elem?, ◌>>=◌, ℤ, pos, negsuc, ltb_ℤ,
}
use fping.Effects.{Action}
use fping.Host.{Host}
use fping.Utils.Checksum.{checksum}

-- of linux/icmp.h
abbrev pub icmp_echoreply : ℕ
icmp_echoreply = 0

abbrev pub icmp_echo : ℕ
icmp_echo = 8

abbrev pub icmp_dest_unreach : ℕ
icmp_dest_unreach = 3

abbrev icmp_source_quench : ℕ
icmp_source_quench = 4

abbrev icmp_redirect : ℕ
icmp_redirect = 5

abbrev icmp_time_exceeded : ℕ
icmp_time_exceeded = 11

-- `~(1<<ICMP_SOURCE_QUENCH | …)` as a 32-bit mask; the shifted bits are distinct, so `|` is `+`
unfoldable pub icmp_filter : ℕ
icmp_filter =
    2 ^ 32
    - 1
    - (2 ^ icmp_source_quench
        + 2 ^ icmp_dest_unreach
        + 2 ^ icmp_time_exceeded
        + 2 ^ icmp_redirect
        + 2 ^ icmp_echoreply)

-- The socket that `socket` returns and the result of `setsockopt` for a filter are parameters. The
-- result is that of the function, with the socket that it closed, if any.
unfoldable pub icmp_open : ℤ → (ℤ → ℕ → ℤ) → ℤ × Option ℤ
icmp_open sock setsockopt =
    if ltb_ℤ sock (pos 0)
    then (negsuc 0, none)
    else if ltb_ℤ (setsockopt sock icmp_filter) (pos 0)
    then (negsuc 1, some sock)
    else (sock, none)

-- `struct icmphdr`, its 16-bit fields as the machine holds them
pub record Icmphdr : Type 0 where
  pub type : ℕ
  pub code : ℕ
  pub checksum : ℕ
  pub id : ℕ
  pub sequence : ℕ

abbrev pub icmp_close : ℤ → List Action
icmp_close s = Action.closes s ∷ []

module _ (m : Host) where
  -- the bytes of the struct in memory
  abbrev pub packet : Icmphdr → List ℕ
  packet h =
      h.type
      ∷ h.code
      ∷ m.first h.checksum
      ∷ m.second h.checksum
      ∷ m.first h.id
      ∷ m.second h.id
      ∷ m.first h.sequence
      ∷ m.second h.sequence
      ∷ []

  -- the packet that `icmp_send` fills in, for the process `pid`
  unfoldable pub request : ℕ → ℕ → Option (List ℕ)
  request pid seq =
      let pkt : Icmphdr = record {
        type = icmp_echo;
        code = 0;
        checksum = 0;
        id = m.htons (pid % 2 ^ 16);
        sequence = m.htons seq;
      } in
      do sum ← checksum m (packet pkt) 8; some (packet (record pkt { checksum = sum }))

  -- `sendto` is a parameter: what it returns for a packet
  unfoldable pub icmp_send : ℕ → (List ℕ → ℤ) → ℕ → Option ℤ
  unfolding request
  icmp_send pid sendto seq = do
    pkt ← request pid seq
    let bytes = sendto pkt
    some (
        if ltb_ℤ bytes (pos 0) || ltb_ℤ bytes (pos 8) || ltb_ℤ (pos 8) bytes
        then negsuc 0
        else pos 0)

-- what `recvfrom` gives: an error, or a datagram that it has copied to the front of the buffer
pub data Recvfrom : Type 0 where
  failed : Recvfrom
  received : List ℕ → Recvfrom

-- the result of `icmp_recv`, the value that it stores in `*seq`, if any, and the static buffer
pub record Received : Type 0 where
  pub status : ℤ
  pub seq : Option ℕ
  pub buf : List ℕ

-- `return -3`
abbrev pub other : List ℕ → Received
other buf = record { status = negsuc 2; seq = none; buf = buf }

-- `sizeof(struct iphdr) + sizeof(struct icmphdr)`
abbrev pub min_bytes : ℕ
min_bytes = 28

module _ (m : Host) where
  -- a `uint16_t` of the buffer
  unfoldable pub load : List ℕ → ℕ → Option ℕ
  load buf i = do a ← get_elem? buf i; b ← get_elem? buf (i + 1); some (m.load16 a b)

  -- the headers in the buffer; `ihl` is the low half of the first byte
  unfoldable pub parse : ℕ → List ℕ → Option Received
  parse pid buf = do
    ver_ihl ← get_elem? buf 0
    let pkt = ver_ihl % 2 ^ 4 * 4
    type ← get_elem? buf pkt
    if type == icmp_echoreply
        then (do
          id ← load buf (pkt + 4)
          if m.ntohs id == pid
              then (do
                seq ← load buf (pkt + 6)
                some (record { status = pos 0; seq = some (m.ntohs seq); buf = buf }))
              else some (other buf))
        else some (other buf)

  unfoldable pub icmp_recv : ℕ → List ℕ → Recvfrom → Option Received
  unfolding parse load
  icmp_recv pid buf failed = some (record { status = negsuc 0; seq = none; buf = buf })
  icmp_recv pid buf (received d) =
      let buf = d ++ drop (length d) buf in
      if ltb (length d) min_bytes
      then some (record { status = negsuc 1; seq = none; buf = buf })
      else parse pid buf
