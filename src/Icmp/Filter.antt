-- ===== src/Icmp/Filter.antt =====
-- The filter that `icmp_open` sets on its socket.
use fping.Base.{
  ℕ, zero, suc, ◌/◌, ◌%◌, ◌^◌, ◌<◌, ◌≡◌, refl, Bool, true, not, ◌||◌, if◌then◌else◌, Option, none,
  some, ◌==◌, arith,
}
use fping.Icmp.{icmp_filter}

-- The kernel drops a message of a type below 32 whose bit is set in the filter.
unfoldable pub blocks : ℕ → ℕ → Bool
blocks mask type = mask / 2 ^ type % 2 == 1

eqv : Bool → Bool → Bool
eqv true b = b
eqv _ b = not b

abbrev wanted : ℕ → Bool
wanted type = (type == 0) || (type == 3) || (type == 4) || (type == 5) || (type == 11)

-- the greatest type below a bound that the filter treats otherwise than the list of wanted types
last_difference : ℕ → Option ℕ
last_difference zero = none
last_difference (suc n) =
    if eqv (blocks icmp_filter n) (not (wanted n)) then last_difference n else some n

eqv-true : (a b : Bool) → eqv a b ≡ true → a ≡ b
unfolding eqv
eqv-true a b h = ground arith

last_difference-none :
    (n type : ℕ)
    → last_difference n ≡ none
    → type < n
    → eqv (blocks icmp_filter type) (not (wanted type)) ≡ true
unfolding last_difference
last_difference-none zero type none_differs below = absurd (omega arith)
last_difference-none (suc n) type none_differs below = ground (arith, last_difference-none n type)

none_differs : last_difference 32 ≡ none
unfolding last_difference blocks icmp_filter eqv
none_differs = refl

-- Of the 32 types that the filter can name, exactly echo replies (0), unreachable destinations (3),
-- source quenches (4), redirects (5) and exceeded times (11) pass.
pub blocks-icmp_filter : (type : ℕ) → type < 32 → blocks icmp_filter type ≡ not (wanted type)
blocks-icmp_filter type h =
    eqv-true (blocks icmp_filter type) (not (wanted type))
      (last_difference-none 32 type none_differs h)
