-- ===== src/Decimal/Laws.antt =====
-- Bounds of a rounded quotient.
use the_wealth.Base.{ℕ, ◌*◌, ◌/◌, ◌%◌, ◌≤◌, ◌<◌, arith}
use the_wealth.Decimal.{div_round}

div-le_of : (a n d : ℕ) → 0 < d → n ≤ a * d → n / d ≤ a
div-le_of a n d h k = grind arith

div-lt_of : (a n d : ℕ) → 0 < d → n ≤ a * d → 0 < n % d → n / d < a
div-lt_of a n d h k r = grind arith

pub le-div_round : (a n d : ℕ) → 0 < d → a * d ≤ n → a ≤ div_round n d
unfolding div_round
le-div_round a n d h k = grind arith

pub div_round-le : (a n d : ℕ) → 0 < d → n ≤ a * d → div_round n d ≤ a
unfolding div_round
div_round-le a n d h k = ground (arith, div-le_of a n d h k, div-lt_of a n d h k)
