-- ===== src/PortfolioHoldings.antt =====
-- api/portfolio_holdings.py: the holdings of a portfolio, listed, added one by one or in bulk, edited
-- and deleted by hand.
pub mod Owners
pub mod Rows
pub mod Bulk
pub mod Totals
pub mod Quoted
use the_wealth.Base.{
  ℕ, ◌+◌, Bool, true, false, ◌&&◌, ◌||◌, not, Option, none, some, List, [], ◌∷◌, ◌++◌, String, ◌==◌,
  find, if◌then◌else◌,
}
use the_wealth.Base.Int.{ℤ, pos, ◌+ℤ◌, ◌*ℤ◌, ◌==ℤ◌}
use the_wealth.Base.Text.{Dict, lookup, insert}
use the_wealth.Decimal.{quot}
use the_wealth.Outcome.{Result, ok, raise, ◌>>=◌, ◌>>◌, raise_if, or_raise, Fault, http_exception}
use the_wealth.Store.{Holding, Portfolio}
use the_wealth.Store.Holdings.{holdings_of, update_row, delete_row}
use the_wealth.Reconcile.{add_db}
use the_wealth.Transactions.{get_portfolio, assert_portfolio_owner}

-- the caches of a user that a request clears, in other modules
pub data Invalidation : Type 0 where
  analytics portfolios_with_prices sse_tickers : ℕ → Invalidation

-- the two tables, the sequence's next primary key, and what was invalidated so far
pub record HoldingTables : Type 0 where
  pub portfolios : List Portfolio
  pub holdings : List Holding
  pub next : ℕ
  pub invalidated : List Invalidation

abbrev pub get_holding : ℕ → List Holding → Option Holding
get_holding i = find (λ h. h.id == i)

-- `_assert_holding_owner`
abbrev pub assert_holding_owner : Holding → Portfolio → ℕ → Result (Unit {0})
assert_holding_owner holding portfolio user =
    raise_if (not (portfolio.user_id == user) || not (holding.portfolio_id == portfolio.id))
      (http_exception 403)

abbrev pub invalidate_all : ℕ → List Invalidation
invalidate_all user = analytics user ∷ portfolios_with_prices user ∷ sse_tickers user ∷ []

unfoldable pub list_holdings : ℕ → ℕ → HoldingTables → Result (List Holding)
list_holdings user pid db = do
  portfolio ← or_raise (get_portfolio pid db.portfolios) (http_exception 404)
  assert_portfolio_owner portfolio user
  ok (holdings_of pid db.holdings)

-- `HoldingCreate`, and `BulkHoldingItem` with the same fields
pub record HoldingCreate : Type 0 where
  pub ticker : String
  pub name : String
  pub quantity : ℤ
  pub avg_price : ℤ
  pub market : Option String

abbrev pub created_holding : ℕ → ℕ → HoldingCreate → Holding
created_holding i pid body = record {
  id = i;
  portfolio_id = pid;
  ticker = body.ticker;
  name = body.name;
  quantity = body.quantity;
  avg_price = body.avg_price;
  market = body.market;
}

unfoldable pub add_holding :
    ℕ → ℕ → HoldingCreate → HoldingTables → Result (Holding × HoldingTables)
add_holding user pid body db = do
  portfolio ← or_raise (get_portfolio pid db.portfolios) (http_exception 404)
  assert_portfolio_owner portfolio user
  let holding = created_holding db.next pid body
  ok (
    holding,
    record db {
      holdings = db.holdings ++ holding ∷ [];
      next = db.next + 1;
      invalidated = db.invalidated ++ invalidate_all user;
    },
  )

-- The loop of `bulk_add_holdings`. A row object is known by its primary key; a new row has the key
-- that the commit gives it. An error is kept by its ticker.
pub record BulkState : Type 0 where
  pub existing_map : Dict ℕ
  pub rows : List Holding
  pub next : ℕ
  pub created : ℕ
  pub updated : ℕ
  pub errors : List String

-- the sum of the quantities, and the average price weighted by them, to the column's last digit
abbrev pub merge_item : HoldingCreate → Holding → Holding
merge_item item h = record h {
  quantity = h.quantity +ℤ item.quantity;
  avg_price =
      quot (h.quantity *ℤ h.avg_price +ℤ item.quantity *ℤ item.avg_price)
        (h.quantity +ℤ item.quantity);
}

abbrev pub insert_item : ℕ → HoldingCreate → BulkState → BulkState
insert_item pid item s = record s {
  existing_map = insert item.ticker s.next s.existing_map;
  rows = s.rows ++ created_holding s.next pid item ∷ [];
  next = s.next + 1;
  created = s.created + 1;
}

-- A division by 0 is caught, before the row is written.
abbrev pub update_item : HoldingCreate → Option Holding → BulkState → BulkState
update_item item none s = s
update_item item (some h) s =
    if (h.quantity +ℤ item.quantity) ==ℤ pos 0
    then record s { errors = s.errors ++ item.ticker ∷ [] }
    else record s { rows = update_row h.id (merge_item item) s.rows; updated = s.updated + 1 }

abbrev pub bulk_item : ℕ → HoldingCreate → Option ℕ → BulkState → BulkState
bulk_item pid item none s = insert_item pid item s
bulk_item pid item (some i) s = update_item item (get_holding i s.rows) s

unfoldable pub bulk_loop : ℕ → List HoldingCreate → BulkState → BulkState
bulk_loop pid [] s = s
bulk_loop pid (item ∷ items) s =
    bulk_loop pid items (bulk_item pid item (lookup item.ticker s.existing_map) s)

-- `BulkHoldingResult`
pub record BulkHoldingResult : Type 0 where
  pub created : ℕ
  pub updated : ℕ
  pub errors : List String

abbrev pub bulk_start : ℕ → HoldingTables → BulkState
bulk_start pid db = record {
  existing_map = add_db [] (holdings_of pid db.holdings);
  rows = db.holdings;
  next = db.next;
  created = 0;
  updated = 0;
  errors = [];
}

unfoldable pub bulk_add_holdings :
    ℕ → ℕ → List HoldingCreate → HoldingTables → Result (BulkHoldingResult × HoldingTables)
unfolding bulk_loop
bulk_add_holdings user pid items db = do
  portfolio ← or_raise (get_portfolio pid db.portfolios) (http_exception 404)
  assert_portfolio_owner portfolio user
  let s = bulk_loop pid items (bulk_start pid db)
  ok (
    record { created = s.created; updated = s.updated; errors = s.errors },
    record db {
      holdings = s.rows;
      next = s.next;
      invalidated = db.invalidated ++ invalidate_all user;
    },
  )

-- `HoldingUpdate`
pub record HoldingUpdate : Type 0 where
  pub quantity : Option ℤ
  pub avg_price : Option ℤ

abbrev pub or_old : Option ℤ → ℤ → ℤ
or_old none old = old
or_old (some new) old = new

abbrev pub edit : HoldingUpdate → Holding → Holding
edit body h = record h {
  quantity = or_old body.quantity h.quantity;
  avg_price = or_old body.avg_price h.avg_price;
}

unfoldable pub update_holding :
    ℕ → ℕ → HoldingUpdate → HoldingTables → Result (Holding × HoldingTables)
update_holding user i body db = do
  holding ← or_raise (get_holding i db.holdings) (http_exception 404)
  portfolio ← or_raise (get_portfolio holding.portfolio_id db.portfolios) (http_exception 404)
  assert_holding_owner holding portfolio user
  ok (
    edit body holding,
    record db {
      holdings = update_row holding.id (edit body) db.holdings;
      invalidated = db.invalidated ++ analytics user ∷ portfolios_with_prices user ∷ [];
    },
  )

unfoldable pub delete_holding : ℕ → ℕ → HoldingTables → Result HoldingTables
delete_holding user i db = do
  holding ← or_raise (get_holding i db.holdings) (http_exception 404)
  portfolio ← or_raise (get_portfolio holding.portfolio_id db.portfolios) (http_exception 404)
  assert_holding_owner holding portfolio user
  ok (record db {
    holdings = delete_row holding.id db.holdings;
    invalidated = db.invalidated ++ invalidate_all user;
  })
