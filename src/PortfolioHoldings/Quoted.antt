-- ===== src/PortfolioHoldings/Quoted.antt =====
-- api/portfolio_holdings.py, `list_holdings_with_prices`: the holdings of a portfolio with what each
-- is worth.
use the_wealth.Base.{
  ℕ, ◌≡◌, refl, sym, ◌∙◌, inl, inr, Bool-cases, ◌&&◌, Bool, true, false, not, Option, none, some,
  List, [], ◌∷◌, String, ap, if◌then◌else◌,
}
use the_wealth.Base.Int.{ℤ, pos, ◌+ℤ◌, ◌-ℤ◌, ◌*ℤ◌, ◌==ℤ◌, ==ℤ_eq, ltb_ℤ, int_laws}
use the_wealth.Base.Text.{Dict, lookup}
use the_wealth.Cache.{Fallback}
use the_wealth.Outcome.{Result, ok, ◌>>=◌, ◌>>◌, or_raise, http_exception}
use the_wealth.Orders.{is_domestic}
use the_wealth.Store.{Holding}
use the_wealth.Store.Holdings.{holdings_of}
use the_wealth.Transactions.{get_portfolio, assert_portfolio_owner}
use the_wealth.Prices.{Now}
use the_wealth.Portfolios.{PortfolioTables}
use the_wealth.Portfolios.Value.{
  in_won, portfolio_value, gain, invested, sum_over, any_priced, portfolio_value-gain,
}
use the_wealth.Portfolios.Priced.{Quotes, account_for, fetch_all}

-- an entry of the response; `pnl_rate` is kept as its two terms
pub record HoldingItem : Type 0 where
  pub holding : Holding
  pub current_price : Option ℤ
  pub market_value : Option ℤ
  pub market_value_krw : Option ℤ
  pub pnl_amount : Option ℤ
  pub pnl_rate : Option (ℤ × ℤ)
  pub exchange_rate : Option ℤ
  pub currency : String

abbrev pub amount_if : Bool → ℤ → Option ℤ
amount_if true amount = some amount
amount_if false amount = none

abbrev pub rate_of : Option ℤ → ℤ → Option (ℤ × ℤ)
rate_of none invested = none
rate_of (some pnl) invested = some (pnl *ℤ pos 100, invested)

-- `invested` counts as absent where it is 0
abbrev pub pnl_of : ℤ → Holding → Option ℤ → Option ℤ
pnl_of exchange_rate h none = none
pnl_of exchange_rate h (some cp) =
    let invested_krw = in_won exchange_rate h (h.quantity *ℤ h.avg_price) in
    amount_if (not (invested_krw ==ℤ pos 0))
      (in_won exchange_rate h (h.quantity *ℤ cp) -ℤ invested_krw)

abbrev pub worth_of : (ℤ → ℤ) → Option ℤ → Option ℤ
worth_of f none = none
worth_of f (some cp) = some (f cp)

abbrev pub holding_item : Dict ℤ → ℤ → Holding → HoldingItem
holding_item prices exchange_rate h =
    let cp = lookup h.ticker prices in
    let pnl = pnl_of exchange_rate h cp in
    let domestic = is_domestic h.ticker in
    record {
      holding = h;
      current_price = cp;
      market_value = worth_of (λ c. h.quantity *ℤ c) cp;
      market_value_krw = worth_of (λ c. in_won exchange_rate h (h.quantity *ℤ c)) cp;
      pnl_amount = pnl;
      pnl_rate = rate_of pnl (in_won exchange_rate h (h.quantity *ℤ h.avg_price));
      exchange_rate = if domestic then none else some exchange_rate;
      currency = if domestic then "KRW" else "USD";
    }

unfoldable pub holding_items : Dict ℤ → ℤ → List Holding → List HoldingItem
holding_items prices exchange_rate [] = []
holding_items prices exchange_rate (h ∷ hs) =
    holding_item prices exchange_rate h ∷ holding_items prices exchange_rate hs

-- The items, and the caches of prices and of rates. The rate that is given is taken as it is.
unfoldable pub list_holdings_with_prices :
    (String → Option ℤ)
    → Now
    → Quotes
    → (String → Option String)
    → ℕ
    → ℕ
    → PortfolioTables
    → Fallback ℤ × Fallback ℤ
    → Result (List HoldingItem × (Fallback ℤ × Fallback ℤ))
unfolding holding_items
list_holdings_with_prices decimal now quotes decrypt user pid db c = do
  portfolio ← or_raise (get_portfolio pid db.portfolios) (http_exception 404)
  assert_portfolio_owner portfolio user
  let holdings = holdings_of pid db.holdings
  let acct = account_for user db.accounts (portfolio ∷ []) holdings
  let fetched = fetch_all decimal now quotes (λ fx. fx) decrypt acct holdings c
  ok (holding_items fetched.0 fetched.1 holdings, fetched.2)

-- the sum of the gains that the items show
abbrev pub shown_gains : List HoldingItem → ℤ
shown_gains [] = pos 0
shown_gains (i ∷ is) = elim i.pnl_amount [ none ↦ pos 0 | some pnl ↦ pnl ] +ℤ shown_gains is

-- what a holding for which nothing was paid is worth, where it has a price
abbrev pub unpaid_worth : ℤ → Option ℤ → Holding → ℤ
unpaid_worth exchange_rate none h = pos 0
unpaid_worth exchange_rate (some cp) h =
    if in_won exchange_rate h (h.quantity *ℤ h.avg_price) ==ℤ pos 0
    then in_won exchange_rate h (h.quantity *ℤ cp)
    else pos 0

abbrev or_nothing : Option ℤ → ℤ
or_nothing pnl = elim pnl [ none ↦ pos 0 | some amount ↦ amount ]

gain_of_zero : (worth : ℤ) → pos 0 +ℤ worth ≡ worth -ℤ pos 0
gain_of_zero worth = omega int_laws

unpaid_gain : (worth paid : ℤ) → (paid ==ℤ pos 0) ≡ true → pos 0 +ℤ worth ≡ worth -ℤ paid
unpaid_gain worth paid e = gain_of_zero worth ∙ ap (λ p. worth -ℤ p) (sym (==ℤ_eq paid (pos 0) e))

paid_gain : (g : ℤ) → g +ℤ pos 0 ≡ g
paid_gain g = omega int_laws

-- what an item shows, and the worth of a holding that was not paid for
item_gain :
    (exchange_rate : ℤ) (cp : Option ℤ) (h : Holding)
    → or_nothing (pnl_of exchange_rate h cp) +ℤ unpaid_worth exchange_rate cp h
      ≡ gain exchange_rate cp h
item_gain exchange_rate none h = paid_gain (pos 0)
item_gain exchange_rate (some cp) h =
    let worth = in_won exchange_rate h (h.quantity *ℤ cp) in
    let paid = in_won exchange_rate h (h.quantity *ℤ h.avg_price) in
    elim (Bool-cases (paid ==ℤ pos 0)) [
      | inl e ↦ rw e (unpaid_gain worth paid e)
      | inr e ↦ rw e (paid_gain (worth -ℤ paid))
    ]

sum_pairs : (a b c d : ℤ) → (a +ℤ b) +ℤ (c +ℤ d) ≡ (a +ℤ c) +ℤ (b +ℤ d)
sum_pairs a b c d = omega int_laws

shown_gains-gain :
    (prices : Dict ℤ) (exchange_rate : ℤ) (hs : List Holding)
    → shown_gains (holding_items prices exchange_rate hs)
        +ℤ sum_over exchange_rate prices (unpaid_worth exchange_rate) hs
      ≡ sum_over exchange_rate prices (gain exchange_rate) hs
unfolding holding_items
shown_gains-gain prices exchange_rate [] = omega int_laws
shown_gains-gain prices exchange_rate (h ∷ hs) =
    let cp = lookup h.ticker prices in
    let shown = or_nothing (pnl_of exchange_rate h cp) in
    let items = shown_gains (holding_items prices exchange_rate hs) in
    let unpaid = sum_over exchange_rate prices (unpaid_worth exchange_rate) hs in
    sum_pairs shown items (unpaid_worth exchange_rate cp h) unpaid
    ∙ ap (λ g. g +ℤ (items +ℤ unpaid)) (item_gain exchange_rate cp h)
    ∙ ap (λ g. gain exchange_rate cp h +ℤ g) (shown_gains-gain prices exchange_rate hs)

-- At the same prices and rate, the gain that the list of portfolios shows for a portfolio, where it
-- shows one, is the sum of the gains that its holdings show in the list of holdings and of what those
-- holdings are worth for which nothing was paid: these show no gain of their own.
pub holding_items-portfolio_value :
    (prices : Dict ℤ) (exchange_rate : ℤ) (hs : List Holding) (total : ℤ)
    → (portfolio_value prices exchange_rate hs).pnl_amount_krw ≡ some total
    → shown_gains (holding_items prices exchange_rate hs)
        +ℤ sum_over exchange_rate prices (unpaid_worth exchange_rate) hs
      ≡ total
holding_items-portfolio_value prices exchange_rate hs total h =
    let sum = sum_over exchange_rate prices in
    let paid = any_priced prices hs && ltb_ℤ (pos 0) (sum (invested exchange_rate) hs) in
    let pnl = (portfolio_value-gain prices exchange_rate hs).1 in
    elim (Bool-cases paid) [
      | inl e ↦
          let same : some (sum (gain exchange_rate) hs) ≡ some total = sym (pnl ∙ rw e refl) ∙ h in
          shown_gains-gain prices exchange_rate hs ∙ cc same
      | inr e ↦
          let none_given : none ≡ some total = sym (pnl ∙ rw e refl) ∙ h in absurd (cc none_given)
    ]
