-- ===== src/Tests/Portfolios.antt =====
-- reconciliation.py, order_settlement.py and portfolio_transactions.py on a portfolio with two
-- holdings beside another user's.
use the_wealth.Base.{
  ℕ, false, not, ◌==◌, ◌≡◌, ◌≢◌, refl, Option, none, some, List, [], ◌∷◌, String, arith, select,
}
use the_wealth.Base.Int.{pos, ◌+ℤ◌, ◌-ℤ◌, ◌*ℤ◌}
use the_wealth.Decimal.{quot}
use the_wealth.Base.Text.{lookup, str_eq, str_eq_iff}
use the_wealth.Store.{limit, Portfolio, buy, partial, Holding, Order, Transaction}
use the_wealth.Store.Holdings.{find_holding, IdsDistinct, TickersDistinct}
use the_wealth.Outcome.{ok, raise, http_exception}
use the_wealth.Transactions.{order_by, is_visible, Tables, delete_transaction}
use the_wealth.Transactions.Removal.{delete_transaction-visible}
use the_wealth.Transactions.Pages.{pages, pages-order_by}
use the_wealth.Settlement.Broker.{CcldRow}
use the_wealth.Settlement.Fill.{Books, update_holdings_for_fill, new_avg}
use the_wealth.Settlement.Loop.{
  settle_pending_orders, settle_loop, settle_order, book_fill, no_counts,
}
use the_wealth.Settlement.Booked.{settle-balance, total_filled, total_booked}
use the_wealth.Reconcile.{KisHolding, add_kis, reconcile_holdings}
use the_wealth.Reconcile.View.{position, kis_position, reconcile-mirrors}

-- prices and quantities in units of 1/10000
abbrev held : ℕ → ℕ → String → ℕ → ℕ → Holding
held i pid ticker quantity price = record {
  id = i;
  portfolio_id = pid;
  ticker = ticker;
  name = ticker;
  quantity = pos quantity;
  avg_price = pos price;
  market = none;
}

abbrev pub table : List Holding
table = held 1 7 "005930" 10 700 ∷ held 2 8 "005930" 5 650 ∷ held 3 7 "AAPL" 2 190 ∷ []

abbrev pub kis_holdings : List KisHolding
kis_holdings =
    record { ticker = "005930"; name = "S"; quantity = pos 12; avg_price = pos 710; market = none }
    ∷ record { ticker = "MSFT"; name = "M"; quantity = pos 1; avg_price = pos 400; market = none }
    ∷ []

pub table-IdsDistinct : IdsDistinct table
table-IdsDistinct = ((omega arith, (omega arith, tt)), ((omega arith, tt), (tt, tt)))

-- two texts that differ
differ : (s t : String) → str_eq s t ≡ false → s ≢ t
differ s t h e = ground (arith, str_eq_iff s t)

pub table-TickersDistinct : TickersDistinct table
table-TickersDistinct =
    let n = differ "AAPL" "005930" refl in
    ((λ e _. omega (arith, e), (λ _. n, tt)), ((λ _. n, tt), (tt, tt)))

reconcile_counts :
    (reconcile_holdings 7 kis_holdings 4 table).1
    ≡ record { inserted = 1; updated = 1; deleted = 1 }
unfolding reconcile_holdings
reconcile_counts = refl

reconcile-mirrors_example :
    position (find_holding 7 "MSFT" (reconcile_holdings 7 kis_holdings 4 table).0)
    ≡ kis_position (lookup "MSFT" (add_kis [] kis_holdings))
reconcile-mirrors_example =
    reconcile-mirrors 7 kis_holdings 4 table "MSFT" table-IdsDistinct table-TickersDistinct

-- an order of which four of ten are booked, and the broker's line that six are filled
abbrev pub bought : Order
bought = record {
  id = 1;
  portfolio_id = 7;
  kis_account_id = some 1;
  ticker = "005930";
  name = none;
  order_type = buy;
  order_class = limit;
  quantity = pos 10;
  price = some (pos 700);
  order_no = some "A1";
  status = partial;
  filled_quantity = some (pos 4);
  filled_price = some (pos 690);
  memo = none;
}

abbrev answer : List String → Option (List CcldRow)
answer _ = some (
    record {
      odno = "A1";
      pdno = "005930";
      sll_buy_dvsn_cd = "02";
      tot_ccld_qty = pos 6;
      avg_prvs = pos 700;
      ord_qty = pos 10;
    }
    ∷ [])

abbrev pub books : Books
books = record { holdings = table; transactions = []; next = 4; counts = no_counts }

abbrev pub settled_orders : List Order
settled_orders =
    record bought { filled_quantity = some (pos 6); filled_price = some (pos 700) } ∷ []

abbrev pub settled_books : Books
settled_books = record books {
  holdings =
      record (held 1 7 "005930" 12 700) { name = "005930" }
      ∷ held 2 8 "005930" 5 650
      ∷ held 3 7 "AAPL" 2 190
      ∷ [];
  transactions =
      record {
        id = 4;
        portfolio_id = 7;
        ticker = "005930";
        type = buy;
        quantity = pos 2;
        price = pos 700;
        traded_at = 9;
        deleted_at = none;
        memo = some "KIS 체결 (주문번호: A1)";
        order_no = some "A1";
        order_source = "kis";
        tags = none;
      }
      ∷ [];
  next = 5;
  counts = record { settled = 0; partly = 1; unchanged = 0 };
}

settled : settle_pending_orders 9 7 answer (bought ∷ []) books ≡ ok (settled_orders, settled_books)
unfolding settle_pending_orders settle_loop settle_order book_fill update_holdings_for_fill new_avg
    ◌-ℤ◌ ◌+ℤ◌ quot ◌*ℤ◌
settled = refl

settle-balance_example :
    total_booked 7 "A1" settled_books.transactions +ℤ total_filled 7 "A1" (bought ∷ [])
    ≡ total_booked 7 "A1" books.transactions +ℤ total_filled 7 "A1" settled_orders
settle-balance_example = settle-balance 9 7 answer (bought ∷ []) books 7 "A1" settled

abbrev traded : ℕ → ℕ → Option ℕ → Transaction
traded i at deleted = record {
  id = i;
  portfolio_id = 7;
  ticker = "005930";
  type = buy;
  quantity = pos 1;
  price = pos 700;
  traded_at = at;
  deleted_at = deleted;
  memo = none;
  order_no = none;
  order_source = "manual";
  tags = none;
}

abbrev transactions : List Transaction
transactions = traded 1 5 none ∷ traded 2 8 none ∷ traded 3 8 none ∷ traded 4 6 (some 7) ∷ []

pages-order_by_example : pages 7 2 transactions 4 0 ≡ order_by (select (is_visible 7) transactions)
unfolding order_by
pages-order_by_example =
    pages-order_by 7 2 transactions 3 (omega arith)
      (
        (omega arith, (omega arith, (omega arith, tt))),
        ((omega arith, (omega arith, tt)), ((omega arith, tt), (tt, tt))),
      )
      (omega arith, (omega arith, (omega arith, (omega arith, tt)))) (omega arith)

abbrev owner : Portfolio
owner = record {
  id = 7;
  user_id = 3;
  name = "main";
  currency = "KRW";
  kis_account_id = none;
  display_order = pos 0;
  target_value = none;
  created_at = 0;
}

abbrev tables : Tables
tables = record { portfolios = owner ∷ []; transactions = transactions; next = 5 }

abbrev tables_after : Tables
tables_after = record tables {
  transactions = traded 1 5 none ∷ traded 2 8 (some 9) ∷ traded 3 8 none ∷ traded 4 6 (some 7) ∷ [];
}

deletes : delete_transaction 9 3 2 tables ≡ ok tables_after
unfolding delete_transaction
deletes = refl

delete_transaction-visible_example :
    (select (is_visible 7) tables_after.transactions
      ≡ select (λ t. not (t.id == 2)) (select (is_visible 7) tables.transactions))
    × (delete_transaction 10 3 2 tables_after ≡ raise (http_exception 404))
delete_transaction-visible_example = delete_transaction-visible 9 3 2 tables 7 10 3 deletes
