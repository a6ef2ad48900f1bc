-- ===== src/Ping.antt =====
-- The class `Ping` of ping.h. The system calls are parameters; `recvfrom` gives a finite list of
-- arrivals, behind which it blocks. `none` is a read outside the receive buffer.
pub mod Answered
pub mod Counts
pub mod Inspect
pub mod Runs
pub mod Wide
use fping.Base.{
  ℕ, zero, suc, ◌+◌, ◌-◌, ◌*◌, ◌%◌, ◌^◌, Bool, true, false, ltb, ◌==◌, if◌then◌else◌, Option, none,
  some, List, [], ◌∷◌, ◌++◌, map, length, replicate, get_elem?, ◌>>=◌, ℤ, pos, ◌+ℤ◌, ◌-ℤ◌, ltb_ℤ,
  nonzero,
}
use fping.Host.{Host}
use fping.Result.{Key}
use fping.Utils.Checksum
use fping.Icmp.{
  icmp_echo, icmp_echoreply, icmp_dest_unreach, icmp_filter, Icmphdr, packet, load, min_bytes,
}

-- `checksum` of ping.h has the text of the one of utils.c.
abbrev pub checksum : Host → List ℕ → ℕ → Option ℕ
checksum m buf len = Checksum.checksum m buf len

-- the class, with its constructor
pub record Ping : Type 0 where
  pub host : Key

-- what is printed; `short_write` has the number of bytes
pub data Line : Type 0 where
  no_socket no_host no_filter not_sent not_received incorrect echo_reply unreachable ids_match :
      Line
  short_write : ℤ → Line
  total : ℕ → Line

-- What the world sees: a line, a packet that is handed to `sendto` with its address, a datagram that
-- `recvfrom` has taken with the address that it stores, and a closed socket.
pub data Event : Type 0 where
  prints : Line → Event
  sends : ℕ → List ℕ → Event
  hears : ℕ → Event
  closes : ℤ → Event

-- what `recvfrom` gives
pub data Arrival : Type 0 where
  error : Arrival
  datagram : ℕ → List ℕ → Arrival

-- `start` returns with its `nrec`, the process exits, or `recvfrom` blocks for ever.
pub data Outcome : Type 0 where
  finished : ℕ → Outcome
  exited : ℕ → Outcome
  blocked : Outcome

pub record Run : Type 0 where
  pub events : List Event
  pub outcome : Outcome

-- events before those of the rest
abbrev pub emit : List Event → Option Run → Option Run
emit es none = none
emit es (some r) = some (record r { events = es ++ r.events })

abbrev pub exit : List Event → ℕ → Option Run
exit es code = some (record { events = es; outcome = exited code })

-- what the body of the inner loop makes of a datagram
pub record Verdict : Type 0 where
  pub lines : List Line
  pub counted : Bool
  pub leaves : Bool

abbrev pub count : ℕ
count = 5

abbrev pub inbuf_size : ℕ
inbuf_size = 192

-- `sizeof(iphdr) + sizeof(icmphdr) + sizeof(iphdr)`
abbrev pub inner_offset : ℕ
inner_offset = 48

module _ (m : Host) (pid : ℕ) where
  -- the packet of round `i`, whose number is in the byte order of the machine
  unfoldable pub echo : ℕ → Option (List ℕ)
  echo i =
      let pkt : Icmphdr = record {
        type = icmp_echo;
        code = 0;
        checksum = 0;
        id = m.htons (pid % 2 ^ 16);
        sequence = i;
      } in
      do sum ← checksum m (packet m pkt) 8; some (packet m (record pkt { checksum = sum }))

  -- the branch ICMP_DEST_UNREACH, for what is left of `bytes`
  unfoldable pub inspect_unreachable : List ℕ → ℤ → ℕ → Option Verdict
  inspect_unreachable inbuf bytes hlen =
      let no : Verdict = record { lines = unreachable ∷ []; counted = false; leaves = false } in
      if nonzero (bytes +ℤ pos hlen -ℤ pos inner_offset -ℤ pos 8) then some no else (do
        id ← load m inbuf (inner_offset + 4)
        some (
            if m.ntohs id == pid
            then record { lines = unreachable ∷ ids_match ∷ []; counted = false; leaves = true }
            else no))

  -- the headers of a datagram of `bytes` bytes in the buffer, in round `i`
  unfoldable pub inspect : ℕ → List ℕ → ℕ → Option Verdict
  unfolding inspect_unreachable
  inspect i inbuf bytes = do
    ver_ihl ← get_elem? inbuf 0
    let hlen = ver_ihl % 2 ^ 4 * 4
    id ← load m inbuf (hlen + 4)
    type ← get_elem? inbuf hlen
    if type == icmp_echoreply
        then some (
            if m.ntohs id == pid
            then record { lines = echo_reply ∷ []; counted = true; leaves = ltb i count }
            else record { lines = echo_reply ∷ []; counted = false; leaves = false })
        else if type == icmp_dest_unreach
        then inspect_unreachable inbuf (pos bytes -ℤ pos hlen) hlen
        else some (record { lines = []; counted = false; leaves = false })

  -- The inner loop in round `i`, with `pingaddr` and `nrec`; `leave` is what follows its `break`.
  unfoldable pub await : ℕ → (ℕ → ℕ → List Arrival → Option Run) → ℕ → ℕ → List Arrival → Option Run
  await i leave addr nrec [] = some (record { events = []; outcome = blocked })
  await i leave addr nrec (error ∷ rest) = exit (prints not_received ∷ []) 1
  await i leave addr nrec (datagram from d ∷ rest) =
      let short = await i leave from nrec rest in
      let long = do
        v ← inspect i (d ++ replicate (inbuf_size - length d) 0) (length d)
        let nrec = if v.counted then nrec + 1 else nrec
        let again = await i leave from nrec rest
        emit (hears from ∷ map prints v.lines) (if v.leaves then leave from nrec rest else again)
      in if ltb (length d) min_bytes then emit (hears from ∷ prints incorrect ∷ []) short else long

  -- the outer loop from round `i` on, with the rounds that are left; `sendto` is told the round
  unfoldable pub rounds : ℤ → (ℕ → ℕ → List ℕ → ℤ) → ℕ → ℕ → ℕ → ℕ → List Arrival → Option Run
  unfolding echo inspect await
  rounds sock sendto zero i addr nrec arrivals =
      some (record { events = prints (total nrec) ∷ []; outcome = finished nrec })
  rounds sock sendto (suc n) i addr nrec arrivals = do
    pkt ← echo i
    let bytes = sendto i addr pkt
    let next = await i (rounds sock sendto n (i + 1)) addr nrec arrivals
    if ltb_ℤ bytes (pos 0)
        then exit (sends addr pkt ∷ prints not_sent ∷ closes sock ∷ []) 1
        else if nonzero (bytes -ℤ pos 8)
        then exit (sends addr pkt ∷ prints (short_write bytes) ∷ closes sock ∷ []) 1
        else emit (sends addr pkt ∷ []) next

  -- `gethostbyname` gives the address of a name, if it has one; `setuid` and the fields of the address
  -- but the IP address are left out
  unfoldable pub start :
      Ping → ℤ → (Key → Option ℕ) → (ℤ → ℕ → ℤ) → (ℕ → ℕ → List ℕ → ℤ) → List Arrival → Option Run
  unfolding rounds
  start self sock gethostbyname setsockopt sendto arrivals =
      if ltb_ℤ sock (pos 0)
      then exit (prints no_socket ∷ closes sock ∷ []) 1
      else elim (gethostbyname self.host) [
        | none ↦ exit (prints no_host ∷ closes sock ∷ []) 1
        | some addr ↦
            if ltb_ℤ (setsockopt sock icmp_filter) (pos 0)
            then exit (prints no_filter ∷ []) 3
            else rounds sock sendto count 0 addr 0 arrivals
      ]
