-- ===== src/Icmp/Request.antt =====
-- The echo request of `icmp_send`.
use fping.Base.{ℕ, ◌-◌, ◌/◌, ◌%◌, ◌^◌, ◌<◌, ◌≡◌, arith, some, List, [], ◌∷◌, ◌>>=◌, refl}
use fping.Host.{Host, IsHost}
use fping.Utils.Checksum.{checksum}
use fping.Utils.Checksum.Words.{words, ones_sum, checksum-ones_sum}
use fping.Utils.Checksum.Verify.{checksum_verifies}
use fping.Icmp.{icmp_echo, request}

-- the eight bytes of an echo request, as RFC 792 lays them out
abbrev pub echo_bytes : ℕ → ℕ → ℕ → ℕ → List ℕ
echo_bytes a b ident seq =
    icmp_echo ∷ 0 ∷ a ∷ b ∷ ident / 2 ^ 8 ∷ ident % 2 ^ 8 ∷ seq / 2 ^ 8 ∷ seq % 2 ^ 8 ∷ []

module _ (m : Host) where
  -- the one's complement checksum of a request
  abbrev pub request_sum : ℕ → ℕ → ℕ
  request_sum pid seq = 2 ^ 16 - 1 - ones_sum 0 (words m (echo_bytes 0 0 (pid % 2 ^ 16) seq))

module _ (m : Host) (is : IsHost m) (pid seq : ℕ) (h : seq < 2 ^ 16) where
  zeroed_sum : checksum m (echo_bytes 0 0 (pid % 2 ^ 16) seq) 8 ≡ some (request_sum m pid seq)
  zeroed_sum =
      checksum-ones_sum m is (echo_bytes 0 0 (pid % 2 ^ 16) seq) [] (omega arith) (omega arith)

  -- The packet that `icmp_send` hands to `sendto` is an echo request as RFC 792 lays it out, in either
  -- byte order of the machine: type 8, code 0, the checksum, the low 16 bits of the process id and the
  -- sequence number, both big endian.
  pub request-echo_bytes :
      request m pid seq
      ≡ some (
          echo_bytes
            (m.first (request_sum m pid seq))
            (m.second (request_sum m pid seq))
            (pid % 2 ^ 16)
            seq)
  unfolding request
  request-echo_bytes = simp (
    is.first_zero,
    is.second_zero,
    is.first-htons (pid % 2 ^ 16) (omega arith),
    is.second-htons (pid % 2 ^ 16) (omega arith),
    is.first-htons seq h,
    is.second-htons seq h,
    zeroed_sum,
  )

  -- The receiver's check of that packet succeeds: the checksum of all its eight bytes is 0.
  pub request_verifies : (do pkt ← request m pid seq; checksum m pkt 8) ≡ some 0
  request_verifies = rw request-echo_bytes (
      rw zeroed_sum at (
        checksum_verifies m is 1 (icmp_echo ∷ 0 ∷ [])
          (pid % 2 ^ 16 / 2 ^ 8 ∷ pid % 2 ^ 16 % 2 ^ 8 ∷ seq / 2 ^ 8 ∷ seq % 2 ^ 8 ∷ []) refl
          (omega arith) (omega arith) (omega arith)))
