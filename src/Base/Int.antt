-- ===== src/Base/Int.antt =====
-- Signed integers over the native numbers, and the conversions of C's `int`.
use Prim.Native.Nat.{ℕ, suc, ◌+◌, ◌-◌, ◌*◌, ◌/◌, ◌%◌, ◌^◌, ◌≤◌}
use mathlib.Core.Path.{◌≡◌}
use mathlib.Core.Bool.{Bool, true}
use native.Mathlib.Omega.{arith}
use fping.Base.Tests.{ltb, leb, if◌then◌else◌}

-- `negsuc n` is -(n + 1).
pub data ℤ : Type 0 where
  pos : ℕ → ℤ
  negsuc : ℕ → ℤ

abbrev pub pos_part : ℤ → ℕ
pos_part (pos n) = n
pos_part (negsuc n) = 0

abbrev pub neg_part : ℤ → ℕ
neg_part (pos n) = 0
neg_part (negsuc n) = suc n

-- a - b, as an integer.
abbrev pub sub_ℕ : ℕ → ℕ → ℤ
sub_ℕ a b = if leb b a then pos (a - b) else negsuc (b - a - 1)

infixl 65 ◌+ℤ◌ ◌-ℤ◌
infixl 70 ◌*ℤ◌
infix 50 ◌≤ℤ◌
unfoldable pub ◌+ℤ◌ : ℤ → ℤ → ℤ
a +ℤ b = sub_ℕ (pos_part a + pos_part b) (neg_part a + neg_part b)

unfoldable pub ◌-ℤ◌ : ℤ → ℤ → ℤ
a -ℤ b = sub_ℕ (pos_part a + neg_part b) (neg_part a + pos_part b)

unfoldable pub ◌*ℤ◌ : ℤ → ℤ → ℤ
a *ℤ b =
    sub_ℕ (pos_part a * pos_part b + neg_part a * neg_part b)
      (pos_part a * neg_part b + neg_part a * pos_part b)

abbrev pub ◌≤ℤ◌ : ℤ → ℤ → Type 0
a ≤ℤ b = pos_part a + neg_part b ≤ pos_part b + neg_part a

abbrev pub ltb_ℤ : ℤ → ℤ → Bool
ltb_ℤ a b = ltb (pos_part a + neg_part b) (pos_part b + neg_part a)

-- The test `x != 0` of C.
abbrev pub nonzero : ℤ → Bool
nonzero (pos n) = ltb 0 n
nonzero (negsuc n) = true

-- Truncating division by a positive count, as C's `/`.
unfoldable pub tdiv : ℤ → ℕ → ℤ
tdiv (pos a) n = pos (a / n)
tdiv (negsuc a) n = sub_ℕ 0 (suc a / n)

-- The residue modulo 2^32.
abbrev pub word32 : ℤ → ℕ
word32 (pos n) = n % 2 ^ 32
word32 (negsuc n) = 2 ^ 32 - 1 - n % 2 ^ 32

-- The residue modulo 2^32, read as a two's complement `int`.
unfoldable pub to_int : ℤ → ℤ
to_int a = let w = word32 a in if ltb w (2 ^ 31) then pos w else negsuc (2 ^ 32 - 1 - w)

pub to_int-small : (n : ℕ) → suc n ≤ 2 ^ 31 → to_int (pos n) ≡ pos n
unfolding to_int
to_int-small n h = ground arith

pub to_int-negsuc : (n : ℕ) → suc n ≤ 2 ^ 31 → to_int (negsuc n) ≡ negsuc n
unfolding to_int
to_int-negsuc n h = ground arith

pub +ℤ-pos : (a b : ℕ) → pos a +ℤ pos b ≡ pos (a + b)
unfolding ◌+ℤ◌
+ℤ-pos a b = ground arith

pub +ℤ_parts :
    (a b : ℤ)
    → pos_part (a +ℤ b) + neg_part a + neg_part b ≡ neg_part (a +ℤ b) + pos_part a + pos_part b
unfolding ◌+ℤ◌
+ℤ_parts a b = ground arith

pub -ℤ_parts :
    (a b : ℤ)
    → pos_part (a -ℤ b) + neg_part a + pos_part b ≡ neg_part (a -ℤ b) + pos_part a + neg_part b
unfolding ◌-ℤ◌
-ℤ_parts a b = ground arith

pub eq_of_parts : (a b : ℤ) → pos_part a + neg_part b ≡ pos_part b + neg_part a → a ≡ b
eq_of_parts a b h = ground arith
