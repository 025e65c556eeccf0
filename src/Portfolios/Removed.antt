-- ===== src/Portfolios/Removed.antt =====
-- What an update and a deletion leave of the tables.
use mathlib.Core.Path.{subst}
use the_wealth.Base.{
  ℕ, ◌≡◌, refl, sym, ap, ◌∙◌, not, some, List, [], ◌∷◌, ◌==◌, ==_iff, select, inl, inr, Bool-cases,
  arith, if◌then◌else◌,
}
use the_wealth.Outcome.{ok, >>=-Passed, or_raise, http_exception}
use the_wealth.Store.{Portfolio}
use the_wealth.Transactions.{get_portfolio, assert_portfolio_owner}
use the_wealth.PortfolioHoldings.Owners.{or_raise-ok, raise_if-ok}
use the_wealth.Portfolios.{PortfolioTables}
use the_wealth.Portfolios.Changes.{delete_portfolio, without_portfolio}

-- the rows of one portfolio, in any of the tables
abbrev pub rows_of : {A : Type 0} → (A → ℕ) → ℕ → List A → List A
rows_of key pid = select (λ a. key a == pid)

abbrev pub rows_without : {A : Type 0} → (A → ℕ) → ℕ → List A → List A
rows_without key pid = select (λ a. not (key a == pid))

rows_of-without :
    {A : Type 0} (key : A → ℕ) (pid q : ℕ) (rows : List A)
    → rows_of key q (rows_without key pid rows) ≡ (if q == pid then [] else rows_of key q rows)
rows_of-without key pid q [] = ground arith
rows_of-without key pid q (a ∷ as') = ground (arith, rows_of-without key pid q as')

found-id : (i : ℕ) (ps : List Portfolio) (p : Portfolio) → get_portfolio i ps ≡ some p → p.id ≡ i
found-id i [] p h = absurd (cc h)
found-id i (q ∷ qs) p h = elim (Bool-cases (q.id == i)) [
  | inl e ↦ let same : q ≡ p = cc (rw e at h) in ap (λ x. x.id) (sym same) ∙ (==_iff q.id i).0 e
  | inr e ↦ found-id i qs p (rw e at h)
]

-- what a deletion has passed, and what it gives
pub record Deleted (user pid : ℕ) (db db' : PortfolioTables) : Type 0 where
  pub portfolio : Portfolio
  pub found : get_portfolio pid db.portfolios ≡ some portfolio
  pub owner : portfolio.user_id ≡ user
  -- the rows of a portfolio are gone where it is the one, and else the same
  pub portfolio_rows :
      (q : ℕ)
      → rows_of (λ p. p.id) q db'.portfolios
        ≡ (if q == pid then [] else rows_of (λ p. p.id) q db.portfolios)
  pub holding_rows :
      (q : ℕ)
      → rows_of (λ h. h.portfolio_id) q db'.holdings
        ≡ (if q == pid then [] else rows_of (λ h. h.portfolio_id) q db.holdings)
  pub transaction_rows :
      (q : ℕ)
      → rows_of (λ t. t.portfolio_id) q db'.transactions
        ≡ (if q == pid then [] else rows_of (λ t. t.portfolio_id) q db.transactions)
  pub order_rows :
      (q : ℕ)
      → rows_of (λ o. o.portfolio_id) q db'.orders
        ≡ (if q == pid then [] else rows_of (λ o. o.portfolio_id) q db.orders)
  pub accounts_kept : db'.accounts ≡ db.accounts

-- A deletion succeeds only for the owner of a portfolio that exists; it takes the portfolio with all
-- its holdings, transactions and orders, and leaves every row of every other portfolio, and the
-- accounts.
pub delete_portfolio-Deleted :
    (user pid : ℕ) (db : PortfolioTables) {db' : PortfolioTables}
    → delete_portfolio user pid db ≡ ok db'
    → Deleted user pid db db'
unfolding delete_portfolio
delete_portfolio-Deleted user pid db {db'} h =
    let (portfolio, e, h₁) =
      >>=-Passed (or_raise (get_portfolio pid db.portfolios) (http_exception 404)) _ h in
    let (_, f, h₂) = >>=-Passed (assert_portfolio_owner portfolio user) _ h₁ in
    let own = raise_if-ok _ _ f in
    let found = or_raise-ok _ _ e in
    let i : portfolio.id ≡ pid = found-id pid db.portfolios portfolio found in
    let made : without_portfolio user pid db ≡ db' =
      cc (h₂, ap (λ k. without_portfolio user k db) i) in
    subst (Deleted user pid db) made (record {
      portfolio = portfolio;
      found = found;
      owner = ground (arith, own);
      portfolio_rows = λ q. rows_of-without (λ p. p.id) pid q db.portfolios;
      holding_rows = λ q. rows_of-without (λ h. h.portfolio_id) pid q db.holdings;
      transaction_rows = λ q. rows_of-without (λ t. t.portfolio_id) pid q db.transactions;
      order_rows = λ q. rows_of-without (λ o. o.portfolio_id) pid q db.orders;
      accounts_kept = refl;
    })
