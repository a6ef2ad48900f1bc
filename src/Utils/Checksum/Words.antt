-- ===== src/Utils/Checksum/Words.antt =====
-- `checksum` against the definition of the Internet checksum by one's complement addition.
use fping.Base.{
  ℕ, ◌+◌, ◌-◌, ◌*◌, ◌/◌, ◌%◌, ◌^◌, ◌≤◌, ◌<◌, ◌≡◌, arith, ltb, if◌then◌else◌, lt→ltb, some, List, [],
  ◌∷◌, ◌++◌, length, All, ◌∙◌, ap, sym,
}
use native.Mathlib.Nat.{zero-add}
use fping.Host.{Byte, Host, IsHost}
use fping.Utils.Checksum.{sum_words, checksum}

-- One's complement addition of 16-bit words: the carry comes round.
abbrev pub ones_add : ℕ → ℕ → ℕ
ones_add a b = if ltb (a + b) (2 ^ 16) then a + b else a + b - (2 ^ 16 - 1)

module _ (m : Host) where
  -- the 16-bit words of a buffer, a last odd byte taken as it is
  unfoldable pub words : List ℕ → List ℕ
  words [] = []
  words (b ∷ []) = b ∷ []
  words (a ∷ b ∷ w) = m.load16 a b ∷ words w

unfoldable pub total : List ℕ → ℕ
total [] = 0
total (x ∷ xs) = x + total xs

unfoldable pub ones_sum : ℕ → List ℕ → ℕ
ones_sum acc [] = acc
ones_sum acc (x ∷ xs) = ones_sum (ones_add acc x) xs

abbrev pub fold16 : ℕ → ℕ
fold16 s = (s / 2 ^ 16 + s % 2 ^ 16 + (s / 2 ^ 16 + s % 2 ^ 16) / 2 ^ 16) % 2 ^ 16

-- The two folds of the code add one word with the carry brought round.
fold16_step : (s x : ℕ) → s + x < 2 ^ 31 → x < 2 ^ 16 → fold16 (s + x) ≡ ones_add (fold16 s) x
fold16_step s x h hx = ground arith

fold16-ones_sum :
    (s : ℕ) (xs : List ℕ)
    → All (λ x. x < 2 ^ 16) xs
    → s + total xs < 2 ^ 31
    → fold16 (s + total xs) ≡ ones_sum (fold16 s) xs
unfolding total ones_sum
fold16-ones_sum s [] b h = ap fold16 (omega arith)
fold16-ones_sum s (x ∷ xs) b h =
    ap fold16 (omega arith)
    ∙ fold16-ones_sum (s + x) xs b.1 (omega arith)
    ∙ ap (λ a. ones_sum a xs) (fold16_step s x (omega arith) b.0)

module _ (m : Host) (is : IsHost m) where
  words-lt : (buf : List ℕ) → All Byte buf → All (λ x. x < 2 ^ 16) (words m buf)
  unfolding words
  words-lt [] h = tt
  words-lt (b ∷ []) h = (omega arith, tt)
  words-lt (a ∷ b ∷ w) h = (is.load16-lt a b h.0 h.1.0, words-lt w h.1.1)

  pub total-words :
      (buf : List ℕ) → All Byte buf → 2 * total (words m buf) ≤ (2 ^ 16 - 1) * (length buf + 1)
  unfolding words total
  total-words [] h = omega arith
  total-words (b ∷ []) h = omega arith
  total-words (a ∷ b ∷ w) h = omega (arith, is.load16-lt a b h.0 h.1.0, total-words w h.1.1)

module _ (m : Host) where
  -- The loop reads the whole buffer and adds up its words, if the sum stays an `int32_t`.
  pub sum_words-total :
      (buf rest : List ℕ) (sum : ℕ)
      → sum + total (words m buf) < 2 ^ 31
      → sum_words m (length buf) (buf ++ rest) sum ≡ some (sum + total (words m buf))
  unfolding sum_words words total
  sum_words-total [] rest sum h = ap some (omega arith)
  sum_words-total (b ∷ []) rest sum h = ground arith
  sum_words-total (a ∷ b ∷ w) rest sum h =
      rw (lt→ltb (sum + m.load16 a b) (2 ^ 31) (omega arith))
        (sum_words-total w rest (sum + m.load16 a b) (omega arith) ∙ ap some (omega arith))

module _ (m : Host) (is : IsHost m) where
  -- Where the buffer has at most 2^16 bytes, the sum stays an `int32_t`, and what comes out is its
  -- total, folded and complemented.
  pub checksum-total :
      (buf rest : List ℕ)
      → All Byte buf
      → length buf ≤ 2 ^ 16
      → checksum m (buf ++ rest) (length buf) ≡ some (2 ^ 16 - 1 - fold16 (total (words m buf)))
  unfolding checksum
  checksum-total buf rest h small =
      rw (sum_words-total m buf rest 0 (omega (arith, total-words m is buf h)))
        (ap (λ (t : ℕ). some (2 ^ 16 - 1 - fold16 t)) (omega arith))

  -- For every buffer of at most 2^16 bytes, whatever lies behind it and in either byte order,
  -- `checksum` runs without undefined behaviour and returns the one's complement of the one's
  -- complement sum of the buffer's 16-bit words, the last odd byte taken as a word.
  pub checksum-ones_sum :
      (buf rest : List ℕ)
      → All Byte buf
      → length buf ≤ 2 ^ 16
      → checksum m (buf ++ rest) (length buf) ≡ some (2 ^ 16 - 1 - ones_sum 0 (words m buf))
  checksum-ones_sum buf rest h small =
      checksum-total buf rest h small
      ∙ ap (λ (t : ℕ). some (2 ^ 16 - 1 - t))
          (ap fold16 (sym (zero-add (total (words m buf))))
            ∙ fold16-ones_sum 0 (words m buf) (words-lt m is buf h)
                (omega (arith, total-words m is buf h)))
