-- ===== src/Portfolios/Changes.antt =====
-- api/portfolios.py, `update_portfolio` and `delete_portfolio`.
use the_wealth.Base.{
  ℕ, not, Option, none, some, List, [], ◌∷◌, ◌++◌, map, String, ◌==◌, select, if◌then◌else◌,
}
use the_wealth.Outcome.{Result, ok, ◌>>=◌, ◌>>◌, or_raise, http_exception}
use the_wealth.Store.{Portfolio, KisAccount}
use the_wealth.Settlement.Query.{linked_account}
use the_wealth.Transactions.{get_portfolio, assert_portfolio_owner}
use the_wealth.PortfolioHoldings.{analytics, portfolios_with_prices}
use the_wealth.Portfolios.{PortfolioTables, PortfolioResponse, portfolio_response}

-- `PortfolioUpdate`; `target_value` is absent, or set to a value or to null
pub record PortfolioUpdate : Type 0 where
  pub name : Option String
  pub currency : Option String
  pub target_value : Option (Option ℕ)

abbrev pub given_or : {A : Type 0} → Option A → A → A
given_or none old = old
given_or (some new) old = new

abbrev pub edit_portfolio : PortfolioUpdate → Portfolio → Portfolio
edit_portfolio body p = record p {
  name = given_or body.name p.name;
  currency = given_or body.currency p.currency;
  target_value = given_or body.target_value p.target_value;
}

abbrev pub update_portfolio_row : ℕ → (Portfolio → Portfolio) → List Portfolio → List Portfolio
update_portfolio_row i f = map (λ p. if p.id == i then f p else p)

-- the label of the linked account follows a new name
abbrev pub rename_account : Option String → Option ℕ → List KisAccount → List KisAccount
rename_account none linked accounts = accounts
rename_account (some name) none accounts = accounts
rename_account (some name) (some i) accounts =
    map (λ a. if a.id == i then record a { label = name } else a) accounts

unfoldable pub update_portfolio :
    ℕ → ℕ → PortfolioUpdate → PortfolioTables → Result (PortfolioResponse × PortfolioTables)
update_portfolio user pid body db = do
  portfolio ← or_raise (get_portfolio pid db.portfolios) (http_exception 404)
  assert_portfolio_owner portfolio user
  let edited = edit_portfolio body portfolio
  ok (
    portfolio_response edited.name none db.holdings edited,
    record db {
      portfolios = update_portfolio_row portfolio.id (edit_portfolio body) db.portfolios;
      accounts = rename_account body.name (linked_account portfolio.kis_account_id) db.accounts;
      invalidated = db.invalidated ++ analytics user ∷ portfolios_with_prices user ∷ [];
    },
  )

-- The cascade of the relationships deletes the rows of the portfolio with it; the rows of the two logs
-- that the database deletes too are not among these tables.
abbrev pub without_portfolio : ℕ → ℕ → PortfolioTables → PortfolioTables
without_portfolio user i db = record db {
  portfolios = select (λ p. not (p.id == i)) db.portfolios;
  holdings = select (λ h. not (h.portfolio_id == i)) db.holdings;
  transactions = select (λ t. not (t.portfolio_id == i)) db.transactions;
  orders = select (λ o. not (o.portfolio_id == i)) db.orders;
  invalidated = db.invalidated ++ portfolios_with_prices user ∷ [];
}

unfoldable pub delete_portfolio : ℕ → ℕ → PortfolioTables → Result PortfolioTables
delete_portfolio user pid db = do
  portfolio ← or_raise (get_portfolio pid db.portfolios) (http_exception 404)
  assert_portfolio_owner portfolio user
  ok (without_portfolio user portfolio.id db)
