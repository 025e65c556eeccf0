-- ===== src/Tests/Settling.antt =====
-- kis_order_query.py and the endpoint of api/orders.py: a stale token, then one line.
use the_wealth.Base.{◌≡◌, refl, false, none, some, List, [], ◌∷◌}
use the_wealth.Base.Int.{pos, ◌+ℤ◌, ◌-ℤ◌, ◌*ℤ◌}
use the_wealth.Decimal.{quot}
use the_wealth.Outcome.{ok}
use the_wealth.Store.{Portfolio, KisAccount}
use the_wealth.Settlement.Broker.{CcldRow}
use the_wealth.Settlement.Fill.{update_holdings_for_fill, new_avg}
use the_wealth.Settlement.Loop.{settle_pending_orders, settle_loop, settle_order, book_fill}
use the_wealth.Settlement.Query.{
  Attempt, answered, check_filled_orders, OrderTables, get_portfolio_with_kis,
  settle_orders_endpoint,
}
use the_wealth.Settlement.Endpoint.{cash_caches, Settled, settle_orders_endpoint-Settled}
use the_wealth.Tests.Portfolios.{bought, books, settled_orders, settled_books}

abbrev pub rows : List CcldRow
rows =
    record {
      odno = "A1";
      pdno = "005930";
      sll_buy_dvsn_cd = "02";
      tot_ccld_qty = pos 6;
      avg_prvs = pos 700;
      ord_qty = pos 10;
    }
    ∷ []

abbrev stale : Attempt
stale = answered 401 none

abbrev fresh : Attempt
fresh = answered 200 (some (record { rt_cd = some "0"; output1 = some rows }))

read : (check_filled_orders stale fresh).1 ≡ some rows
unfolding check_filled_orders
read = refl

abbrev pub account : KisAccount
account = record {
  id = 1;
  user_id = 3;
  label = "main";
  account_no = "123";
  acnt_prdt_cd = "01";
  app_key_enc = "k";
  app_secret_enc = "s";
  is_paper_trading = false;
  account_type = none;
}

abbrev pub linked : Portfolio
linked = record {
  id = 7;
  user_id = 3;
  name = "main";
  currency = "KRW";
  kis_account_id = some 1;
  display_order = pos 0;
  target_value = none;
  created_at = 0;
}

abbrev pub db : OrderTables
db = record {
  portfolios = linked ∷ [];
  accounts = account ∷ [];
  orders = bought ∷ [];
  books = books;
  cleared = [];
}

abbrev settled_db : OrderTables
settled_db = record db {
  orders = settled_orders;
  books = settled_books;
  cleared = cash_caches 7 1 3;
}

succeeds : settle_orders_endpoint 9 some (λ _ _. (stale, fresh)) 7 3 db ≡ ok settled_db
unfolding settle_orders_endpoint get_portfolio_with_kis check_filled_orders settle_pending_orders
    settle_loop settle_order book_fill update_holdings_for_fill new_avg ◌-ℤ◌ ◌+ℤ◌ quot ◌*ℤ◌
succeeds = refl

settle_orders_endpoint-Settled_example : Settled 7 3 db settled_db
settle_orders_endpoint-Settled_example =
    settle_orders_endpoint-Settled 9 some (λ _ _. (stale, fresh)) 7 3 db succeeds
