-- ===== src/Base/Digits.antt =====
-- `str` of a natural number.
use Prim.Native.Char.{Char}
use Prim.Native.String.{◌∷◌ as cons_char}
use the_wealth.Base.{ℕ, zero, suc, ◌/◌, ◌%◌, String, ltb, if◌then◌else◌}

abbrev digit : ℕ → Char
digit zero = "0"
digit (suc zero) = "1"
digit (suc (suc zero)) = "2"
digit (suc (suc (suc zero))) = "3"
digit (suc (suc (suc (suc zero)))) = "4"
digit (suc (suc (suc (suc (suc zero))))) = "5"
digit (suc (suc (suc (suc (suc (suc zero)))))) = "6"
digit (suc (suc (suc (suc (suc (suc (suc zero))))))) = "7"
digit (suc (suc (suc (suc (suc (suc (suc (suc zero)))))))) = "8"
digit (suc (suc (suc (suc (suc (suc (suc (suc (suc n))))))))) = "9"

-- the digits of `n` before those of `out`; as many rounds as `n` has digits are made
digits : ℕ → ℕ → String → String
digits zero n out = out
digits (suc fuel) n out =
    let out' = cons_char (digit (n % 10)) out in
    let rest = digits fuel (n / 10) out' in if ltb n 10 then out' else rest

unfoldable pub show : ℕ → String
unfolding digits
show n = digits (suc n) n ""
