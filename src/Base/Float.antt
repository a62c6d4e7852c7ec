-- ===== src/Base/Float.antt =====
-- The sums and differences of Go's `float64`. A finite value is a whole number of units of 2^-1074,
-- of which all are multiples. Infinities, NaN and the sign of zero are left out.
use Prim.Native.Nat.{ℕ, zero, suc, ◌+◌, ◌*◌, ◌/◌, ◌%◌, ◌^◌}
use mathlib.Core.Bool.{true, false, ◌||◌, ◌&&◌}
use oh_my_graph.Base.Tests.{ltb, eqb, if◌then◌else◌}
use oh_my_graph.Base.Int.{ℤ, pos, negsuc, ◌+ℤ◌, ◌-ℤ◌, sub_ℕ}

-- The binary digits that do not fit in the 53 of a significand; each step of the fuel drops one.
unfoldable pub spare_bits : ℕ → ℕ → ℕ
spare_bits zero n = 0
spare_bits (suc fuel) n = elim (ltb n (2 ^ 53)) [ true ↦ 0 | false ↦ suc (spare_bits fuel (n / 2)) ]

-- A finite value has 2098 binary digits at most in these units.
abbrev pub significand_fuel : ℕ
significand_fuel = 2100

-- The nearest value with a significand of 53 binary digits, the even one of two.
unfoldable pub round_float : ℕ → ℕ
unfolding spare_bits
round_float n =
    let unit = 2 ^ spare_bits significand_fuel n in
    let below = n / unit in
    let rest = n % unit in
    if ltb (2 * rest) unit || (eqb (2 * rest) unit && eqb (below % 2) 0)
    then below * unit
    else (below + 1) * unit

unfoldable pub round_sum : ℤ → ℤ
unfolding round_float
round_sum (pos n) = pos (round_float n)
round_sum (negsuc n) = sub_ℕ 0 (round_float (n + 1))

infixl 65 ◌+float◌ ◌-float◌
unfoldable pub ◌+float◌ : ℤ → ℤ → ℤ
unfolding round_sum
a +float b = round_sum (a +ℤ b)

unfoldable pub ◌-float◌ : ℤ → ℤ → ℤ
unfolding round_sum
a -float b = round_sum (a -ℤ b)
