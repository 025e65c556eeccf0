-- ===== src/Decimal.antt =====
-- Python's `Decimal` over a fixed unit: a sum is exact, a quotient is rounded half to even
-- (`ROUND_HALF_EVEN`, the default context).
pub mod Laws
use the_wealth.Base.{ℕ, suc, ◌+◌, ◌*◌, ◌/◌, ◌%◌, ltb, if◌then◌else◌}
use the_wealth.Base.Int.{ℤ, pos, negsuc, sub_ℕ}

-- n / d to the nearest integer, a tie to the even one
unfoldable pub div_round : ℕ → ℕ → ℕ
div_round n d =
    if ltb (2 * (n % d)) d
    then n / d
    else if ltb d (2 * (n % d))
    then n / d + 1
    else n / d + (n / d) % 2

-- the quotient by a divisor that is not 0
unfoldable pub quot : ℤ → ℤ → ℤ
unfolding div_round
quot (pos n) (pos d) = pos (div_round n d)
quot (pos n) (negsuc d) = sub_ℕ 0 (div_round n (suc d))
quot (negsuc n) (pos d) = sub_ℕ 0 (div_round (suc n) d)
quot (negsuc n) (negsuc d) = pos (div_round (suc n) (suc d))

-- `int(x / d)` of a quotient by a positive number: towards 0
unfoldable pub trunc : ℤ → ℕ → ℤ
trunc (pos n) d = pos (n / d)
trunc (negsuc n) d = sub_ℕ 0 (suc n / d)
