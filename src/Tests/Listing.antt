-- ===== src/Tests/Listing.antt =====
-- portfolios.py on two users.
use the_wealth.Base.{
  ℕ, ◌≡◌, ◌≢◌, refl, ◌&&◌, none, some, List, [], ◌∷◌, map, String, All, arith, if◌then◌else◌,
}
use the_wealth.Base.Int.{ℤ, pos, ◌+ℤ◌, ◌-ℤ◌, ◌*ℤ◌, ltb_ℤ}
use the_wealth.Base.Text.{Dict}
use the_wealth.Outcome.{ok, raise, http_exception}
use the_wealth.Orders.{is_domestic}
use the_wealth.Store.{Portfolio, Holding}
use the_wealth.Store.Holdings.{holdings_of}
use the_wealth.PortfolioHoldings.Quoted.{
  unpaid_worth, holding_items, shown_gains, holding_items-portfolio_value,
}
use the_wealth.Transactions.{get_portfolio}
use the_wealth.PortfolioHoldings.{portfolios_with_prices}
use the_wealth.Prices.{Now}
use the_wealth.Prices.Quote.{not_answered, answered}
use the_wealth.Portfolios.{
  PortfolioTables, PortfolioCreate, ReorderItem, portfolios_of, list_portfolios, reorder_portfolios,
}
use the_wealth.Portfolios.Changes.{delete_portfolio}
use the_wealth.Portfolios.Value.{
  portfolio_value, worth, invested, gain, any_priced, sum_over, portfolio_value-gain,
}
use the_wealth.Portfolios.Created.{create_all, create_all-zero}
use the_wealth.Portfolios.Reordered.{reorder_portfolios-last_order}
use the_wealth.Portfolios.Removed.{Deleted, delete_portfolio-Deleted}
use the_wealth.Portfolios.Priced.{
  Quotes, PricedCaches, compute_priced, list_portfolios_with_prices,
  invalidate_portfolios_with_prices_cache,
}
use the_wealth.Portfolios.Priced.Stale.{list_portfolios_with_prices-stale}

abbrev portfolio : ℕ → ℕ → ℤ → Portfolio
portfolio i user order = record {
  id = i;
  user_id = user;
  name = "main";
  currency = "KRW";
  kis_account_id = none;
  display_order = order;
  target_value = none;
  created_at = i;
}

abbrev position : ℕ → ℕ → String → Holding
position i pid ticker = record {
  id = i;
  portfolio_id = pid;
  ticker = ticker;
  name = ticker;
  quantity = pos 3000000;
  avg_price = pos 100000;
  market = none;
}

abbrev tables : PortfolioTables
tables = record {
  portfolios = portfolio 1 3 (pos 0) ∷ portfolio 2 4 (pos 0) ∷ portfolio 5 3 (pos 0) ∷ [];
  holdings = position 1 1 "005930" ∷ position 2 2 "005930" ∷ position 3 1 "AAPL" ∷ [];
  transactions = [];
  orders = [];
  accounts = [];
  next = 9;
  invalidated = [];
}

abbrev item : ℕ → ℤ → ReorderItem
item i order = record { id = i; display_order = order }

abbrev items : List ReorderItem
items = item 1 (pos 7) ∷ item 5 (pos 2) ∷ item 1 (pos 4) ∷ []

abbrev reordered : PortfolioTables
reordered = record tables {
  portfolios = portfolio 1 3 (pos 4) ∷ portfolio 2 4 (pos 0) ∷ portfolio 5 3 (pos 2) ∷ [];
  invalidated = portfolios_with_prices 3 ∷ [];
}

reorders : reorder_portfolios 3 items tables ≡ ok reordered
unfolding reorder_portfolios
reorders = refl

-- another user's portfolio is refused
refuses : reorder_portfolios 3 (item 2 (pos 1) ∷ []) tables ≡ raise (http_exception 403)
unfolding reorder_portfolios
refuses = refl

-- the list follows the order
lists : map (λ p. p.id) (list_portfolios 3 reordered) ≡ 5 ∷ 1 ∷ []
unfolding list_portfolios
lists = refl

reorder_portfolios-last_order_example :
    (get_portfolio 1 reordered.portfolios ≡ some (portfolio 1 3 (pos 4)))
    × ((portfolio 1 3 (pos 0)).user_id ≢ 3
        → get_portfolio 1 reordered.portfolios ≡ some (portfolio 1 3 (pos 0)))
reorder_portfolios-last_order_example =
    reorder_portfolios-last_order 3 items tables 1 (portfolio 1 3 (pos 0))
      (
        ((λ e. omega (arith, e)), ((λ e. omega (arith, e)), tt)),
        (((λ e. omega (arith, e)), tt), (tt, tt)),
      )
      refl reorders

abbrev wished : String → PortfolioCreate
wished name = record { name = name; currency = "KRW" }

create_all-zero_example :
    All
      (λ p. p.display_order ≡ pos 0)
      (portfolios_of 8 (create_all 8 ((1, wished "a") ∷ (2, wished "b") ∷ []) tables).portfolios)
create_all-zero_example = create_all-zero 8 ((1, wished "a") ∷ (2, wished "b") ∷ []) tables refl

abbrev removed : PortfolioTables
removed = record tables {
  portfolios = portfolio 2 4 (pos 0) ∷ portfolio 5 3 (pos 0) ∷ [];
  holdings = position 2 2 "005930" ∷ [];
  invalidated = portfolios_with_prices 3 ∷ [];
}

deletes : delete_portfolio 3 1 tables ≡ ok removed
unfolding delete_portfolio
deletes = refl

delete_portfolio-Deleted_example : Deleted 3 1 tables removed
delete_portfolio-Deleted_example = delete_portfolio-Deleted 3 1 tables deletes

abbrev prices : Dict ℤ
prices = ("005930", pos 120000) ∷ []

portfolio_value-gain_example :
    let v = portfolio_value prices (pos 14000000) tables.holdings in
    let sum = sum_over (pos 14000000) prices in
    let priced = any_priced prices tables.holdings in
    (v.market_value_krw
      ≡ (if priced then some (sum (worth (pos 14000000)) tables.holdings) else none))
    × (v.pnl_amount_krw ≡ (
        if priced && ltb_ℤ (pos 0) (sum (invested (pos 14000000)) tables.holdings)
        then some (sum (gain (pos 14000000)) tables.holdings)
        else none))
portfolio_value-gain_example = portfolio_value-gain prices (pos 14000000) tables.holdings

abbrev quotes : Quotes
quotes = record {
  token = λ keys. ok "T";
  domestic = λ t. not_answered;
  overseas = λ m t. not_answered;
  details = λ m t. not_answered;
  fx = answered 200 (some (some "1390.5"));
}

abbrev at : ℕ → Now
at seconds = record { seconds = seconds; weekday = 2; hour = 10; minute = 0 }

abbrev cold : PricedCaches
cold = record { responses = []; prices = []; rates = [] }

list_portfolios_with_prices-stale_example :
    let list = λ (time : ℕ) (db : PortfolioTables) (c : PricedCaches).
      list_portfolios_with_prices (λ t. none) (at time) quotes (λ t. some t) 3 db c in
    let (rows, c') = list 100 tables cold in
    let cleared = record c' {
      responses = invalidate_portfolios_with_prices_cache 3 c'.responses;
    } in
    (rows ≡ (compute_priced (λ t. none) (at 100) quotes (λ t. some t) 3 tables ([], [])).0)
    × ((list 120 removed c').0 ≡ rows)
    × ((list 120 removed cleared).0
        ≡ (compute_priced
            (λ t. none)
            (at 120)
            quotes
            (λ t. some t)
            3
            removed
            (c'.prices, c'.rates)).0)
list_portfolios_with_prices-stale_example =
    list_portfolios_with_prices-stale (λ t. none) (at 100) (at 120) quotes quotes (λ t. some t) 3
      tables removed cold refl (omega arith)

-- portfolio 1 with a position for which nothing was paid
abbrev with_gift : List Holding
with_gift = record (position 9 1 "005930") { avg_price = pos 0 } ∷ holdings_of 1 tables.holdings

valued_gain :
    (portfolio_value prices (pos 14000000) with_gift).pnl_amount_krw ≡ some (pos 4200000000000000)
unfolding portfolio_value ◌+ℤ◌ is_domestic ◌*ℤ◌ ◌-ℤ◌
valued_gain = refl

-- the gift shows no gain, and the portfolio counts what it is worth
holding_items-portfolio_value_example :
    shown_gains (holding_items prices (pos 14000000) with_gift)
      +ℤ sum_over (pos 14000000) prices (unpaid_worth (pos 14000000)) with_gift
    ≡ pos 4200000000000000
holding_items-portfolio_value_example =
    holding_items-portfolio_value prices (pos 14000000) with_gift (pos 4200000000000000) valued_gain
