-- ===== src/Tests/Holdings.antt =====
-- api/portfolio_holdings.py: two portfolios of two users.
use the_wealth.Base.{ℕ, ◌≡◌, refl, none, some, [], ◌∷◌, arith}
use the_wealth.Base.Int.{pos}
use the_wealth.Outcome.{ok}
use the_wealth.Store.{Portfolio, Holding}
use the_wealth.Store.Holdings.{holdings_of}
use the_wealth.Settlement.Fill.{Books}
use the_wealth.Settlement.Loop.{no_counts}
use the_wealth.PortfolioHoldings.{
  HoldingCreate, HoldingTables, HoldingUpdate, BulkHoldingResult, bulk_add_holdings, update_holding,
  delete_holding, invalidate_all, analytics, portfolios_with_prices,
}
use the_wealth.PortfolioHoldings.Totals.{Registered, bulk_add-Registered}
use the_wealth.PortfolioHoldings.Owners.{update_holding-others}

abbrev owned : ℕ → ℕ → Portfolio
owned i user = record {
  id = i;
  user_id = user;
  name = "main";
  currency = "KRW";
  kis_account_id = none;
  display_order = pos 0;
  target_value = none;
  created_at = 0;
}

abbrev row : ℕ → ℕ → Holding
row i pid = record {
  id = i;
  portfolio_id = pid;
  ticker = "005930";
  name = "Samsung";
  quantity = pos 10;
  avg_price = pos 700;
  market = none;
}

abbrev db : HoldingTables
db = record {
  portfolios = owned 7 1 ∷ owned 8 2 ∷ [];
  holdings = row 1 7 ∷ row 2 8 ∷ [];
  next = 3;
  invalidated = [];
}

abbrev item : HoldingCreate
item = record {
  ticker = "005930";
  name = "Samsung";
  quantity = pos 5;
  avg_price = pos 730;
  market = none;
}

bulk_add-Registered_example :
    (made : BulkHoldingResult × HoldingTables) × (bulk_add_holdings 1 7 (item ∷ item ∷ []) db
      ≡ ok made)
    × Registered 7 (item ∷ item ∷ []) db made
bulk_add-Registered_example =
    bulk_add-Registered 1 7 (item ∷ item ∷ []) db (owned 7 1) refl refl
      ((omega arith, tt), (tt, tt)) (omega arith, (omega arith, tt))
      (omega arith, (omega arith, tt)) (omega arith, (omega arith, tt))

abbrev books : Books
books = record { holdings = []; transactions = []; next = 9; counts = no_counts }

abbrev body : HoldingUpdate
body = record { quantity = some (pos 4); avg_price = none }

abbrev edited : HoldingTables
edited = record db {
  holdings = record (row 1 7) { quantity = pos 4 } ∷ row 2 8 ∷ [];
  invalidated = analytics 1 ∷ portfolios_with_prices 1 ∷ [];
}

edits : update_holding 1 1 body db ≡ ok (record (row 1 7) { quantity = pos 4 }, edited)
unfolding update_holding
edits = refl

update_holding-others_example : holdings_of 8 edited.holdings ≡ holdings_of 8 db.holdings
update_holding-others_example =
    update_holding-others 1 1 body db 8 (owned 8 2) ((omega arith, tt), (tt, tt)) refl (omega arith)
      edits

abbrev deleted : HoldingTables
deleted = record db { holdings = row 2 8 ∷ []; invalidated = invalidate_all 1 }

deletes : delete_holding 1 1 db ≡ ok deleted
unfolding delete_holding
deletes = refl
