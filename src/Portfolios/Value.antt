-- ===== src/Portfolios/Value.antt =====
-- api/portfolios.py, `list_portfolios_with_prices`: the value of a portfolio at known prices.
use the_wealth.Base.{
  ◌≡◌, refl, ap, ◌∙◌, Bool, true, false, ◌&&◌, ◌||◌, not, is_some, Option, none, some, List, [],
  ◌∷◌, inl, inr, Bool-cases, arith, if◌then◌else◌,
}
use the_wealth.Base.Int.{ℤ, pos, ◌+ℤ◌, ◌-ℤ◌, ◌*ℤ◌, ltb_ℤ, int_laws, +ℤ_assoc}
use the_wealth.Base.Text.{Dict, lookup}
use the_wealth.Orders.{is_domestic}
use the_wealth.Store.{Holding}

-- Prices and rates are whole numbers of 10^-4, quantities of 10^-6, amounts in won of 10^-14: a sum in
-- won keeps the unit of one that is converted.
abbrev pub rate_unit : ℤ
rate_unit = pos 10000

-- an amount of a holding in won: as it is, or converted
abbrev pub in_won : ℤ → Holding → ℤ → ℤ
in_won exchange_rate h amount =
    if not (is_domestic h.ticker) then amount *ℤ exchange_rate else amount *ℤ rate_unit

-- `mv_total`, `inv_total` and `has_prices`
pub record ValueTotals : Type 0 where
  pub mv_total : ℤ
  pub inv_total : ℤ
  pub has_prices : Bool

abbrev pub no_totals : ValueTotals
no_totals = record { mv_total = pos 0; inv_total = pos 0; has_prices = false }

-- one round of the loop over the holdings
abbrev pub add_value : ℤ → Option ℤ → Holding → ValueTotals → ValueTotals
add_value exchange_rate none h t = t
add_value exchange_rate (some cp) h t = record {
  mv_total = t.mv_total +ℤ in_won exchange_rate h (h.quantity *ℤ cp);
  inv_total = t.inv_total +ℤ in_won exchange_rate h (h.quantity *ℤ h.avg_price);
  has_prices = true;
}

module _ (prices : Dict ℤ) (exchange_rate : ℤ) where
  unfoldable pub value_totals : List Holding → ValueTotals → ValueTotals
  value_totals [] t = t
  value_totals (h ∷ hs) t = value_totals hs (add_value exchange_rate (lookup h.ticker prices) h t)

-- the three fields of a response; the rate is kept as its two terms, the amount times a hundred over
-- what was invested
pub record Valued : Type 0 where
  pub market_value_krw : Option ℤ
  pub pnl_amount_krw : Option ℤ
  pub pnl_rate : Option (ℤ × ℤ)

abbrev pub valued : ValueTotals → Valued
valued t =
    if t.has_prices && ltb_ℤ (pos 0) t.inv_total
    then record {
      market_value_krw = some t.mv_total;
      pnl_amount_krw = some (t.mv_total -ℤ t.inv_total);
      pnl_rate = some ((t.mv_total -ℤ t.inv_total) *ℤ pos 100, t.inv_total);
    }
    else if t.has_prices
    then record { market_value_krw = some t.mv_total; pnl_amount_krw = none; pnl_rate = none }
    else record { market_value_krw = none; pnl_amount_krw = none; pnl_rate = none }

unfoldable pub portfolio_value : Dict ℤ → ℤ → List Holding → Valued
unfolding value_totals
portfolio_value prices exchange_rate holdings =
    valued (value_totals prices exchange_rate holdings no_totals)

-- what one holding is worth, what was paid for it, and what it brings, where it has a price
abbrev pub worth : ℤ → Option ℤ → Holding → ℤ
worth exchange_rate none h = pos 0
worth exchange_rate (some cp) h = in_won exchange_rate h (h.quantity *ℤ cp)

abbrev pub invested : ℤ → Option ℤ → Holding → ℤ
invested exchange_rate none h = pos 0
invested exchange_rate (some cp) h = in_won exchange_rate h (h.quantity *ℤ h.avg_price)

abbrev pub gain : ℤ → Option ℤ → Holding → ℤ
gain exchange_rate none h = pos 0
gain exchange_rate (some cp) h =
    in_won exchange_rate h (h.quantity *ℤ cp) -ℤ in_won exchange_rate h (h.quantity *ℤ h.avg_price)

-- at least one holding has a price
abbrev pub any_priced : Dict ℤ → List Holding → Bool
any_priced prices [] = false
any_priced prices (h ∷ hs) = is_some (lookup h.ticker prices) || any_priced prices hs

zero_sum : (a : ℤ) → pos 0 +ℤ a ≡ a
zero_sum a = omega int_laws

or_assoc : (a b c : Bool) → ((a || b) || c) ≡ (a || (b || c))
or_assoc true b c = refl
or_assoc false b c = refl

-- the fields, from what the totals are
valued-sums :
    (t : ValueTotals) {priced : Bool} {w i g : ℤ}
    → t.has_prices ≡ priced
    → t.mv_total ≡ w
    → t.inv_total ≡ i
    → t.mv_total -ℤ t.inv_total ≡ g
    → ((valued t).market_value_krw ≡ (if priced then some w else none))
      × ((valued t).pnl_amount_krw ≡ (if priced && ltb_ℤ (pos 0) i then some g else none))
valued-sums t has mv inv pnl =
    rw⁻¹ (has, mv, inv, pnl)
      (elim (Bool-cases t.has_prices) [
        | inl e ↦ elim (Bool-cases (ltb_ℤ (pos 0) t.inv_total)) [
          | inl f ↦ rw (e, f) (refl, refl)
          | inr f ↦ rw (e, f) (refl, refl)
        ]
        | inr e ↦ rw e (refl, refl)
      ])

module _ (exchange_rate : ℤ) where
  add_value-worth :
      (cp : Option ℤ) (h : Holding) (t : ValueTotals)
      → (add_value exchange_rate cp h t).mv_total ≡ t.mv_total +ℤ worth exchange_rate cp h
  add_value-worth none h t = omega int_laws
  add_value-worth (some cp) h t = refl

  add_value-invested :
      (cp : Option ℤ) (h : Holding) (t : ValueTotals)
      → (add_value exchange_rate cp h t).inv_total ≡ t.inv_total +ℤ invested exchange_rate cp h
  add_value-invested none h t = omega int_laws
  add_value-invested (some cp) h t = refl

  add_value-gain :
      (cp : Option ℤ) (h : Holding) (t : ValueTotals)
      → let t' = add_value exchange_rate cp h t in
        t'.mv_total -ℤ t'.inv_total ≡ t.mv_total -ℤ t.inv_total +ℤ gain exchange_rate cp h
  add_value-gain none h t = omega int_laws
  add_value-gain (some cp) h t = omega int_laws

  add_value-any_priced :
      (cp : Option ℤ) (h : Holding) (t : ValueTotals)
      → (add_value exchange_rate cp h t).has_prices ≡ (t.has_prices || is_some cp)
  add_value-any_priced none h t = ground arith
  add_value-any_priced (some cp) h t = ground arith

  module _ (prices : Dict ℤ) where
    abbrev pub sum_over : (Option ℤ → Holding → ℤ) → List Holding → ℤ
    sum_over f [] = pos 0
    sum_over f (h ∷ hs) = f (lookup h.ticker prices) h +ℤ sum_over f hs

    value_totals-worth :
        (hs : List Holding) (t : ValueTotals)
        → (value_totals prices exchange_rate hs t).mv_total
          ≡ t.mv_total +ℤ sum_over (worth exchange_rate) hs
    unfolding value_totals
    value_totals-worth [] t = omega int_laws
    value_totals-worth (h ∷ hs) t =
        let cp = lookup h.ticker prices in
        let rest = sum_over (worth exchange_rate) hs in
        value_totals-worth hs (add_value exchange_rate cp h t)
        ∙ ap (λ m. m +ℤ rest) (add_value-worth cp h t)
        ∙ +ℤ_assoc t.mv_total (worth exchange_rate cp h) rest

    value_totals-invested :
        (hs : List Holding) (t : ValueTotals)
        → (value_totals prices exchange_rate hs t).inv_total
          ≡ t.inv_total +ℤ sum_over (invested exchange_rate) hs
    unfolding value_totals
    value_totals-invested [] t = omega int_laws
    value_totals-invested (h ∷ hs) t =
        let cp = lookup h.ticker prices in
        let rest = sum_over (invested exchange_rate) hs in
        value_totals-invested hs (add_value exchange_rate cp h t)
        ∙ ap (λ m. m +ℤ rest) (add_value-invested cp h t)
        ∙ +ℤ_assoc t.inv_total (invested exchange_rate cp h) rest

    value_totals-gain :
        (hs : List Holding) (t : ValueTotals)
        → let t' = value_totals prices exchange_rate hs t in
          t'.mv_total -ℤ t'.inv_total
          ≡ t.mv_total -ℤ t.inv_total +ℤ sum_over (gain exchange_rate) hs
    unfolding value_totals
    value_totals-gain [] t = omega int_laws
    value_totals-gain (h ∷ hs) t =
        let cp = lookup h.ticker prices in
        let rest = sum_over (gain exchange_rate) hs in
        value_totals-gain hs (add_value exchange_rate cp h t)
        ∙ ap (λ m. m +ℤ rest) (add_value-gain cp h t)
        ∙ +ℤ_assoc (t.mv_total -ℤ t.inv_total) (gain exchange_rate cp h) rest

    value_totals-any_priced :
        (hs : List Holding) (t : ValueTotals)
        → (value_totals prices exchange_rate hs t).has_prices
          ≡ (t.has_prices || any_priced prices hs)
    unfolding value_totals
    value_totals-any_priced [] t = ground arith
    value_totals-any_priced (h ∷ hs) t =
        let cp = lookup h.ticker prices in
        let rest = any_priced prices hs in
        value_totals-any_priced hs (add_value exchange_rate cp h t)
        ∙ ap (λ b. b || rest) (add_value-any_priced cp h t)
        ∙ or_assoc t.has_prices (is_some cp) rest

-- The value of a portfolio is there where at least one holding has a price, and is the sum of what
-- the holdings with a price are worth; the gain is there where something was paid for those holdings
-- too, and is the sum of their gains: a holding without a price counts on neither side.
pub portfolio_value-gain :
    (prices : Dict ℤ) (exchange_rate : ℤ) (hs : List Holding)
    → let v = portfolio_value prices exchange_rate hs in
      let sum = sum_over exchange_rate prices in
      let priced = any_priced prices hs in
      (v.market_value_krw ≡ (if priced then some (sum (worth exchange_rate) hs) else none))
      × (v.pnl_amount_krw ≡ (
          if priced && ltb_ℤ (pos 0) (sum (invested exchange_rate) hs)
          then some (sum (gain exchange_rate) hs)
          else none))
unfolding portfolio_value
portfolio_value-gain prices exchange_rate hs =
    let t = value_totals prices exchange_rate hs no_totals in
    let any = value_totals-any_priced exchange_rate prices hs no_totals in
    let mv : t.mv_total ≡ sum_over exchange_rate prices (worth exchange_rate) hs =
      value_totals-worth exchange_rate prices hs no_totals ∙ zero_sum _ in
    let inv : t.inv_total ≡ sum_over exchange_rate prices (invested exchange_rate) hs =
      value_totals-invested exchange_rate prices hs no_totals ∙ zero_sum _ in
    let none_gained : pos 0 -ℤ pos 0 ≡ pos 0 = omega int_laws in
    let pnl : t.mv_total -ℤ t.inv_total ≡ sum_over exchange_rate prices (gain exchange_rate) hs =
      value_totals-gain exchange_rate prices hs no_totals
      ∙ ap (λ m. m +ℤ sum_over exchange_rate prices (gain exchange_rate) hs) none_gained
      ∙ zero_sum _ in
    valued-sums t any mv inv pnl
