-- ===== src/Metrics.antt =====
-- api/analytics_metrics.py, `get_metrics`: the value of a user's positions day by day.
-- Prices and quantities are exact numbers here.
pub mod Values
use the_wealth.Base.{
  ℕ, Bool, true, false, Option, none, some, List, [], ◌∷◌, String, is_some, ◌==◌, map,
  if◌then◌else◌,
}
use the_wealth.Base.Int.{ℤ, pos, ◌+ℤ◌, ◌*ℤ◌, ltb_ℤ}
use the_wealth.Base.Text.{Dict, lookup, insert}
use the_wealth.Store.{Holding, PriceSnapshot}

-- `d.get(k, 0.0)`
abbrev pub or_zero : Option ℤ → ℤ
or_zero none = pos 0
or_zero (some x) = x

-- `holding_qty`
abbrev pub add_quantities : Dict ℤ → List Holding → Dict ℤ
add_quantities d [] = d
add_quantities d (h ∷ hs) =
    add_quantities (insert h.ticker (or_zero (lookup h.ticker d) +ℤ h.quantity) d) hs

-- `first_close`
abbrev pub add_first : Dict ℤ → List PriceSnapshot → Dict ℤ
add_first d [] = d
add_first d (s ∷ ss) =
    if is_some (lookup s.ticker d) then add_first d ss else add_first (insert s.ticker s.close d) ss

-- `{**first_close, **last_close}`, at one ticker
abbrev pub effective : Dict ℤ → Dict ℤ → String → Option ℤ
effective first last t = elim (lookup t last) [ none ↦ lookup t first | some close ↦ some close ]

-- one addend of `value`
abbrev pub term : ℤ → Option ℤ → ℤ
term quantity none = pos 0
term quantity (some close) = quantity *ℤ close

-- `sum(holding_qty[t] * effective[t] for t in tickers if t in effective)`
abbrev pub value_of : Dict ℤ → (String → Option ℤ) → List String → ℤ
value_of quantities price [] = pos 0
value_of quantities price (t ∷ ts) =
    term (or_zero (lookup t quantities)) (price t) +ℤ value_of quantities price ts

-- `tickers`: one entry for each row
abbrev pub tickers_of : List Holding → List String
tickers_of hs = map (λ h. h.ticker) hs

-- the value at a date, by the closes that are known then
unfoldable pub value_at : List Holding → Dict ℤ → Dict ℤ → ℤ
value_at holdings first last =
    value_of (add_quantities [] holdings) (effective first last) (tickers_of holdings)

-- The loop over the dates: the snapshots come in the order of the query, the rows of one date
-- together; a date's value is added behind its last row, where it is positive.
abbrev pub keep_positive : ℕ → ℤ → List (ℕ × ℤ) → List (ℕ × ℤ)
keep_positive date value rest = if ltb_ℤ (pos 0) value then (date, value) ∷ rest else rest

abbrev pub ends_date : ℕ → List PriceSnapshot → Bool
ends_date date [] = true
ends_date date (s ∷ ss) = if s.snapshot_date == date then false else true

unfoldable pub date_values : List Holding → Dict ℤ → Dict ℤ → List PriceSnapshot → List (ℕ × ℤ)
unfolding value_at
date_values holdings first last [] = []
date_values holdings first last (s ∷ ss) =
    let last' = insert s.ticker s.close last in
    let rest = date_values holdings first last' ss in
    if ends_date s.snapshot_date ss
    then keep_positive s.snapshot_date (value_at holdings first last') rest
    else rest

-- `portfolio_date_values`
unfoldable pub portfolio_date_values : List Holding → List PriceSnapshot → List (ℕ × ℤ)
unfolding date_values
portfolio_date_values holdings snapshots =
    date_values holdings (add_first [] snapshots) [] snapshots
