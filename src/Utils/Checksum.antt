-- ===== src/Utils/Checksum.antt =====
-- `checksum` of utils.c: the Internet checksum of a buffer. `none` is undefined behaviour, a read
-- behind the buffer or a signed overflow of the sum.
pub mod Verify
pub mod Words
use fping.Base.{
  ℕ, zero, suc, ◌+◌, ◌-◌, ◌/◌, ◌%◌, ◌^◌, ltb, if◌then◌else◌, Option, none, some, List, [], ◌∷◌,
  ◌>>=◌,
}
use fping.Host.{Host}

-- `sum += v` on an `int32_t` that is not negative
unfoldable pub add_int32 : ℕ → ℕ → Option ℕ
add_int32 sum v = if ltb (sum + v) (2 ^ 31) then some (sum + v) else none

module _ (m : Host) where
  -- the `while` loop and the `if` behind it, over the bytes from `w` on
  unfoldable pub sum_words : ℕ → List ℕ → ℕ → Option ℕ
  unfolding add_int32
  sum_words (suc (suc nleft)) (a ∷ b ∷ w) sum = do
    s ← add_int32 sum (m.load16 a b)
    sum_words nleft w s
  sum_words (suc (suc nleft)) w sum = none
  sum_words (suc zero) (b ∷ w) sum = add_int32 sum b
  sum_words (suc zero) [] sum = none
  sum_words zero w sum = some sum

  -- `sum = (sum >> 16) + (sum & 0xFFFF); sum += (sum >> 16)`
  unfoldable pub fold_sum : ℕ → ℕ
  fold_sum sum = let sum = sum / 2 ^ 16 + sum % 2 ^ 16 in sum + sum / 2 ^ 16

  unfoldable pub checksum : List ℕ → ℕ → Option ℕ
  unfolding sum_words fold_sum
  checksum buf len = do sum ← sum_words len buf 0; some (2 ^ 16 - 1 - fold_sum sum % 2 ^ 16)
