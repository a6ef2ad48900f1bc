-- ===== src/Tests/Packets.antt =====
-- utils.c, icmp.c and log.c at concrete inputs.
use fping.Base.{
  ℕ, ◌+◌, ◌-◌, ◌*◌, ◌%◌, ◌^◌, ◌≡◌, ◌≢◌, refl, Bool, zero, suc, if◌then◌else◌, ◌||◌, ◌==◌, arith,
  Option, none, some, List, [], ◌∷◌, ◌++◌, length, drop, ℤ, pos, negsuc,
}
use fping.Host.{little, big, little-IsHost, big-IsHost}
use fping.Utils.Checksum.{checksum}
use fping.Utils.Checksum.Words.{words, ones_sum, checksum-ones_sum}
use fping.Utils.Strip.{string, strip}
use fping.Utils.Strip.Word.{word, strip-word}
use fping.Icmp.{Received, received, icmp_recv, request, icmp_echoreply}
use fping.Icmp.Receive.{IsHeader, message, outcome, buf_size, icmp_recv_safe, icmp_recv-message}
use fping.Icmp.Process.{reply, icmp_recv-request, icmp_recv_wide_pid}
use fping.Log.{levels}
use fping.Log.Levels.{Names}
use fping.Result.{Key}

abbrev odd_buffer : List ℕ
odd_buffer = 0x45 ∷ 0xff ∷ 0xfe ∷ 0x01 ∷ 0x7f ∷ []

checksum_runs : checksum big (0x45 ∷ 0xff ∷ 0xfe ∷ 0x01 ∷ []) 4 ≡ some 0xbbfe
unfolding checksum
checksum_runs = refl

checksum-ones_sum_example :
    checksum little (odd_buffer ++ 9 ∷ []) (length odd_buffer)
    ≡ some (2 ^ 16 - 1 - ones_sum 0 (words little odd_buffer))
checksum-ones_sum_example =
    checksum-ones_sum little little-IsHost odd_buffer (9 ∷ []) (omega arith) (omega arith)

abbrev is_blank_byte : ℕ → Bool
is_blank_byte c = (c == b' ') || (c == b'\n')

abbrev line : List ℕ
line = b' ' ∷ b'1' ∷ b'.' ∷ b'2' ∷ b' ' ∷ b'x' ∷ b'\n' ∷ []

word_runs : word is_blank_byte line ≡ b'1' ∷ b'.' ∷ b'2' ∷ []
unfolding word
word_runs = refl

strip-word_example :
    (s : ℕ) × (buf : List ℕ) × (strip is_blank_byte (line ++ 0 ∷ 5 ∷ []) ≡ some (s, buf))
    × (string (drop s buf) ≡ word is_blank_byte line)
    × (length buf ≡ length (line ++ 0 ∷ 5 ∷ []))
strip-word_example = strip-word is_blank_byte line (5 ∷ []) (omega arith)

-- an IP header without options
abbrev ip : List ℕ
ip = 0x45 ∷ 0 ∷ 0 ∷ 28 ∷ 0 ∷ 0 ∷ 0 ∷ 0 ∷ 64 ∷ 1 ∷ 0 ∷ 0 ∷ 10 ∷ 0 ∷ 0 ∷ 1 ∷ 10 ∷ 0 ∷ 0 ∷ 2 ∷ []

ip-IsHeader : IsHeader ip
ip-IsHeader = record { ver_ihl = 0x45; starts = refl; counted = refl; least = omega arith }

zeros : ℕ → List ℕ
zeros zero = []
zeros (suc n) = 0 ∷ zeros n

length-zeros : (n : ℕ) → length (zeros n) ≡ n
unfolding zeros
length-zeros zero = refl
length-zeros (suc n) = omega (arith, length-zeros n)

icmp_recv_safe_example :
    (out : Received) × (icmp_recv little 77 (zeros 512) (received ip) ≡ some out)
    × (length out.buf ≡ buf_size)
icmp_recv_safe_example =
    icmp_recv_safe little 77 (zeros 512) (received ip) (length-zeros 512) (omega arith)

icmp_recv-message_example :
    (out : Received) × (icmp_recv big 77 (zeros 512) (received (ip ++ message 0 0 1 2 0 77 0 3 []))
      ≡ some out)
    × ((out.status, out.seq) ≡ outcome 77 0 (0 * 2 ^ 8 + 77) (0 * 2 ^ 8 + 3))
icmp_recv-message_example =
    icmp_recv-message big big-IsHost 77 (zeros 512) ip ip-IsHeader 0 0 1 2 0 77 0 3 [] (omega arith)
      (omega arith) (omega arith) (omega arith)

icmp_recv-request_example :
    (pkt : List ℕ) × (request little 77 3 ≡ some pkt)
    × (out : Received) × (icmp_recv little 77 [] (received (ip ++ reply 1 2 pkt)) ≡ some out)
    × ((out.status, out.seq) ≡ outcome 77 icmp_echoreply (77 % 2 ^ 16) 3)
icmp_recv-request_example =
    icmp_recv-request little little-IsHost 77 77 3 (omega arith) [] ip ip-IsHeader 1 2

abbrev wide_out : Received
wide_out = record { status = negsuc 2; seq = none; buf = ip ++ message 0 0 1 2 0 77 0 3 [] }

icmp_recv_wide_pid_example : wide_out.status ≢ pos 0
unfolding icmp_recv
icmp_recv_wide_pid_example =
    icmp_recv_wide_pid big big-IsHost 65613 (omega arith) []
      (received (ip ++ message 0 0 1 2 0 77 0 3 [])) wide_out (omega arith) (omega arith) refl

abbrev byte_cmp : Key → Key → ℤ
byte_cmp (a ∷ []) (b ∷ []) = if a == b then pos 0 else pos 1
byte_cmp _ _ = pos 1

abbrev warn_env : Key → Option Key
warn_env k = some (b'W' ∷ [])

warn-Names : Names byte_cmp levels (b'W' ∷ []) 2
warn-Names zero a e = ground arith
warn-Names (suc zero) a e = ground arith
warn-Names (suc (suc zero)) a e = ground arith
warn-Names (suc (suc (suc zero))) a e = ground arith
warn-Names (suc (suc (suc (suc zero)))) a e = ground arith
warn-Names (suc (suc (suc (suc (suc zero))))) a e = ground arith
warn-Names (suc (suc (suc (suc (suc (suc j)))))) a e = ground arith
