-- ===== src/Metrics/Values.antt =====
-- What the value of a day counts.
use the_wealth.Base.{Option, List, [], ◌∷◌, String, if◌then◌else◌}
use the_wealth.Base.Int.{ℤ, pos, ◌+ℤ◌}
use the_wealth.Base.Text.{str_eq}
use the_wealth.Store.{Holding}
use the_wealth.Metrics.{term}

-- the quantity of a ticker over all rows
abbrev pub quantity_of : String → List Holding → ℤ
quantity_of t [] = pos 0
quantity_of t (h ∷ hs) = (if str_eq h.ticker t then h.quantity else pos 0) +ℤ quantity_of t hs

-- a ticker's whole quantity at its price, for each entry of the list
abbrev pub counted_value : List Holding → (String → Option ℤ) → List String → ℤ
counted_value holdings price [] = pos 0
counted_value holdings price (t ∷ ts) =
    term (quantity_of t holdings) (price t) +ℤ counted_value holdings price ts
