-- ===== src/Utils/Checksum/Verify.antt =====
-- What a receiver of `checksum` checks: with the result stored in its field, the sum comes out right.
use fping.Base.{
  ℕ, ◌+◌, ◌-◌, ◌^◌, ◌≤◌, ◌<◌, ◌≡◌, refl, arith, some, List, [], ◌∷◌, ◌++◌, length, length-append,
  All, All-append, ◌>>=◌, ◌∙◌, ap, sym,
}
use mathlib.Core.Path.{ap₂}
use mathlib.Core.List.{append-nil}
use fping.Host.{Byte, Host, IsHost, load16_zero}
use fping.Utils.Checksum.{checksum}
use fping.Utils.Checksum.Words.{words, total, fold16, checksum-total, total-words}

total-append : (xs ys : List ℕ) → total (xs ++ ys) ≡ total xs + total ys
unfolding total
total-append [] ys = omega arith
total-append (x ∷ xs) ys = omega (arith, total-append xs ys)

words-append :
    (m : Host) (k : ℕ) (xs ys : List ℕ)
    → length xs ≡ k + k
    → words m (xs ++ ys) ≡ words m xs ++ words m ys
unfolding words
words-append m k [] ys e = refl
words-append m k (a ∷ []) ys e = absurd (omega arith)
words-append m k (a ∷ b ∷ xs) ys e =
    ap (λ l. m.load16 a b ∷ l) (words-append m (k - 1) xs ys (omega arith))

fold16_complement : (t s : ℕ) → t ≡ s + (2 ^ 16 - 1 - fold16 s) → t < 2 ^ 31 → fold16 t ≡ 2 ^ 16 - 1
fold16_complement t s e h = ground arith

module _ (m : Host) (is : IsHost m) (k : ℕ) (front back : List ℕ) (even : length front ≡ k + k)
    (hf : All Byte front) (hb : All Byte back)
    (small : length front + length back + 2 ≤ 2 ^ 16) where
  total-field :
      (a b : ℕ)
      → total (words m (front ++ a ∷ b ∷ back))
        ≡ total (words m front) + (m.load16 a b + total (words m back))
  unfolding total words
  total-field a b =
      ap total (words-append m k front (a ∷ b ∷ back) even)
      ∙ total-append (words m front) (words m (a ∷ b ∷ back))

  checksum-field :
      (a b : ℕ)
      → Byte a
      → Byte b
      → checksum m (front ++ a ∷ b ∷ back) (length front + length back + 2)
        ≡ some (2 ^ 16 - 1 - fold16 (total (words m front) + (m.load16 a b + total (words m back))))
  checksum-field a b ha hb' =
      let buf = front ++ a ∷ b ∷ back in
      let len : length buf ≡ length front + length back + 2 =
        omega (arith, length-append front (a ∷ b ∷ back)) in
      ap₂ (λ l n. checksum m l n) (sym (append-nil buf)) (sym len)
      ∙ checksum-total m is buf [] (All-append Byte front (a ∷ b ∷ back) hf (ha, (hb', hb)))
          (omega arith)
      ∙ ap (λ (t : ℕ). some (2 ^ 16 - 1 - fold16 t)) (total-field a b)

  -- For a buffer whose 16-bit checksum field, at an even offset, is zero: `checksum` returns a value,
  -- and once that value is stored in the field `checksum` of the buffer is 0.
  pub checksum_verifies :
      (do
        c ← checksum m (front ++ 0 ∷ 0 ∷ back) (length front + length back + 2)
        checksum m (front ++ m.first c ∷ m.second c ∷ back) (length front + length back + 2))
      ≡ some 0
  checksum_verifies =
      let f = total (words m front) in
      let g = total (words m back) in
      let z : m.load16 0 0 ≡ 0 = load16_zero is in
      let c : ℕ = 2 ^ 16 - 1 - fold16 (f + (m.load16 0 0 + g)) in
      rw (checksum-field 0 0 (omega arith) (omega arith)) (
        checksum-field (m.first c) (m.second c) (is.first-lt c (omega arith))
          (is.second-lt c (omega arith))
        ∙ rw (is.load16-store c (omega arith)) (
            ap some (
              omega (
                arith,
                fold16_complement (f + (c + g)) (f + (m.load16 0 0 + g)) (omega arith)
                    (omega (arith, total-words m is front hf, total-words m is back hb)),
              ))))
