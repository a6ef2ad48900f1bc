-- ===== src/Result/Sign.antt =====
-- The sign of the mean that `calc_time` gives, by which `result_output` tells the dead hosts from those alive.
use fping.Base.{
  ℕ, suc, ◌+◌, ◌/◌, ◌≤◌, ◌≡◌, refl, Bool, true, false, List, [], ◌∷◌, length, All, arith, ℤ, pos,
  negsuc, ◌+ℤ◌, tdiv, ltb_ℤ, pos_part, neg_part,
}
use fping.Result.Average.{sum_ℤ, mean}

-- the test by which `result_output` counts a host among the dead
abbrev pub is_dead : ℤ → Bool
is_dead t = ltb_ℤ t (pos 0)

abbrev pub is_empty {ℓ} : {A : Type ℓ} → List A → Bool
is_empty [] = true
is_empty (_ ∷ _) = false

abbrev pub Nonneg : ℤ → Type 0
Nonneg x = neg_part x ≡ 0

abbrev pub IsNegative : ℤ → Type 0
IsNegative x = 1 ≤ neg_part x

one_part : (a : ℤ) → 1 ≤ neg_part a → pos_part a ≡ 0
one_part (pos n) h = absurd (omega arith)
one_part (negsuc n) h = refl

add-Nonneg : (a b : ℤ) → Nonneg a → Nonneg b → Nonneg (a +ℤ b)
unfolding ◌+ℤ◌
add-Nonneg a b ha hb = ground arith

add_negative :
    (a b : ℤ)
    → pos_part a ≡ 0
    → IsNegative b
    → (pos_part (a +ℤ b) ≡ 0) × (neg_part a + 1 ≤ neg_part (a +ℤ b))
unfolding ◌+ℤ◌
add_negative a b ha hb = ground arith

sum_ℤ-Nonneg : (acc : ℤ) (xs : List ℤ) → Nonneg acc → All Nonneg xs → Nonneg (sum_ℤ acc xs)
unfolding sum_ℤ
sum_ℤ-Nonneg acc [] h hs = h
sum_ℤ-Nonneg acc (x ∷ xs) h hs = sum_ℤ-Nonneg (acc +ℤ x) xs (add-Nonneg acc x h hs.0) hs.1

sum_ℤ_negative :
    (acc : ℤ) (xs : List ℤ)
    → pos_part acc ≡ 0
    → All IsNegative xs
    → neg_part acc + length xs ≤ neg_part (sum_ℤ acc xs)
unfolding sum_ℤ
sum_ℤ_negative acc [] h hs = omega arith
sum_ℤ_negative acc (x ∷ xs) h hs =
    let (none_left, more) = add_negative acc x h hs.0 in
    omega (arith, sum_ℤ_negative (acc +ℤ x) xs none_left hs.1)

tdiv-Nonneg : (a : ℤ) (n : ℕ) → Nonneg a → is_dead (tdiv a n) ≡ false
unfolding tdiv
tdiv-Nonneg (pos a) n h = ground arith
tdiv-Nonneg (negsuc a) n h = absurd (omega arith)

tdiv_negative : (a : ℤ) (n : ℕ) → suc n ≤ neg_part a → is_dead (tdiv a (suc n)) ≡ true
unfolding tdiv
tdiv_negative (pos a) n h = absurd (omega arith)
tdiv_negative (negsuc a) n h = let q : 1 ≤ suc a / suc n = grind arith in ground arith

pub mean-is_dead : (xs : List ℤ) → All Nonneg xs → is_dead (mean xs) ≡ is_empty xs
mean-is_dead [] h = refl
mean-is_dead (x ∷ xs) h =
    tdiv-Nonneg (sum_ℤ (pos 0) (x ∷ xs)) (suc (length xs)) (sum_ℤ-Nonneg (pos 0) (x ∷ xs) refl h)

pub mean-negative :
    (xs : List ℤ) → All IsNegative xs → is_empty xs ≡ false → is_dead (mean xs) ≡ true
mean-negative [] h e = refl
mean-negative (x ∷ xs) h e =
    tdiv_negative (sum_ℤ (pos 0) (x ∷ xs)) (length xs)
      (omega (arith, sum_ℤ_negative (pos 0) (x ∷ xs) refl h))
