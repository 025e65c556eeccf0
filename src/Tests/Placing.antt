-- ===== src/Tests/Placing.antt =====
-- Orders of a user: a sale that is posted, a second one, a lost answer, and a cancellation.
use the_wealth.Base.{◌≤◌, ◌≡◌, refl, false, none, some, [], ◌∷◌, ◌++◌, arith}
use the_wealth.Base.Int.{pos}
use the_wealth.Base.Digits.{show}
use the_wealth.Outcome.{Result, ok, raise, http_exception}
use the_wealth.Store.{Holding, Order, buy, sell, limit, pending, cancelled, shares}
use the_wealth.Cache.{get}
use the_wealth.OrderLock.{acquire_order_lock}
use the_wealth.Placement.{
  OrderArgs, OrderReply, no_reply, replied, Desk, domestic_body, guarded_order, order_lock_key,
  rate_limit_key, check_rate_limit, place_domestic_order,
}
use the_wealth.Placement.Limit.{allowed_orders, allowed_orders-le}
use the_wealth.Placement.Laws.{IsHeldBack, guarded_order-twice}
use the_wealth.Settlement.Query.{OrderTables, get_portfolio_with_kis}
use the_wealth.Orders.{
  OrderRequest, CancelArgs, is_domestic, order_args, db_order, prepare_order, record_order,
  place_order, cancel_order_endpoint,
}
use the_wealth.Orders.Final.{cancel_order_endpoint-final}
use the_wealth.Settlement.Loop.{settle_pending_orders, settle_loop, settle_order}
use the_wealth.Settlement.Booked.{total_booked}
use the_wealth.Orders.Placed.{Placed, IsUnrecorded, place_order-Placed, place_order-raise}
use the_wealth.Settlement.Endpoint.{cash_caches}
use the_wealth.Tests.Portfolios.{bought}
use the_wealth.Tests.Settling.{account, rows, db}

abbrev accepted : OrderReply
accepted = replied 200 (some (record { rt_cd = some "0"; msg1 = "주문 완료"; msg2 = ""; odno = "B7" }))

abbrev request : OrderRequest
request = record {
  ticker = "005930";
  name = none;
  order_type = sell;
  order_class = limit;
  quantity = 3;
  price = some (pos 700000);
  exchange_code = none;
  memo = none;
}

abbrev args : OrderArgs
args = order_args 7 3 account request

abbrev other_args : OrderArgs
other_args = record args { user_id = 4; order_type = buy; quantity = 9 }

abbrev idle : Desk
idle = record { rates = []; locks = []; posted = [] }

abbrev busy : Desk
busy = (guarded_order 1000 args (domestic_body args) (ok "T") (λ _. accepted) idle).1

one_posted : busy.posted ≡ domestic_body args ∷ []
unfolding guarded_order acquire_order_lock check_rate_limit order_lock_key rate_limit_key show get
one_posted = refl

guarded_order-twice_example :
    IsHeldBack other_args busy
      (guarded_order 1009 other_args (domestic_body other_args) (ok "T") (λ _. accepted) busy)
guarded_order-twice_example =
    guarded_order-twice 1000 1009 args other_args (domestic_body args) (domestic_body other_args)
      (ok "T") (ok "T") (λ _. accepted) (λ _. accepted) idle busy refl refl refl (omega arith) refl
      (λ e. cc (one_posted, e))

allowed_orders-le_example : allowed_orders 3 1000 (0 ∷ 1 ∷ 0 ∷ 20 ∷ 0 ∷ 9 ∷ 30 ∷ []) [] ≤ 5
allowed_orders-le_example =
    allowed_orders-le 3 1000 (0 ∷ 1 ∷ 0 ∷ 20 ∷ 0 ∷ 9 ∷ 30 ∷ []) [] (omega arith)

abbrev position : Holding
position = record {
  id = 1;
  portfolio_id = 7;
  ticker = "005930";
  name = "Samsung";
  quantity = shares 10;
  avg_price = pos 650000;
  market = none;
}

abbrev held_db : OrderTables
held_db = record db { orders = []; books = record (db.books) { holdings = position ∷ [] } }

abbrev end : Result (Order × OrderTables) × Desk
end = place_order 1000 some (λ _. ok "T") (λ _. accepted) 5 7 3 request held_db idle

abbrev row : Order
row = db_order 5 7 account request (record {
  order_no = "B7";
  ticker = "005930";
  order_type = sell;
  quantity = shares 3;
  price = pos 700000;
  status = pending;
  message = "주문 완료";
})

abbrev after_db : OrderTables
after_db =
    (record_order 5 7 3 account request held_db (record {
      order_no = "B7";
      ticker = "005930";
      order_type = sell;
      quantity = shares 3;
      price = pos 700000;
      status = pending;
      message = "주문 완료";
    })).1

placed : end.0 ≡ ok (row, after_db)
unfolding place_order prepare_order get_portfolio_with_kis place_domestic_order is_domestic
    guarded_order acquire_order_lock check_rate_limit order_lock_key rate_limit_key show get
placed = refl

place_order-Placed_example : Placed 7 3 request held_db idle row after_db end.1
place_order-Placed_example =
    place_order-Placed 1000 some (λ _. ok "T") (λ _. accepted) 5 7 3 request held_db idle placed

abbrev lost : Result (Order × OrderTables) × Desk
lost = place_order 1000 some (λ _. ok "T") (λ _. no_reply) 5 7 3 request held_db idle

raised : lost.0 ≡ raise (http_exception 502)
unfolding place_order prepare_order get_portfolio_with_kis place_domestic_order is_domestic
    guarded_order acquire_order_lock check_rate_limit order_lock_key rate_limit_key show get
raised = refl

place_order-raise_example :
    IsUnrecorded 7 3 request (λ _. no_reply) idle (http_exception 502) lost.1
place_order-raise_example =
    place_order-raise 1000 some (λ _. ok "T") (λ _. no_reply) 5 7 3 request held_db idle raised

abbrev cancel_args : CancelArgs
cancel_args = record {
  order_no = "A1";
  ticker = "005930";
  quantity = 6;
  price = 0;
  is_overseas = false;
  exchange_code = "";
}

-- the partly filled order of the other tests, and an open one beside it
abbrev open_db : OrderTables
open_db = record db { orders = db.orders ++ record row { id = 2 } ∷ [] }

abbrev cancelled_db : OrderTables
cancelled_db = record open_db {
  orders = record bought { status = cancelled } ∷ record row { id = 2 } ∷ [];
  cleared = cash_caches 7 1 3;
}

withdrawn :
    cancel_order_endpoint some (λ _. ok "T") (λ _. accepted) 7 3 cancel_args open_db
    ≡ ok cancelled_db
unfolding cancel_order_endpoint get_portfolio_with_kis
withdrawn = refl

-- the broker reports six of the cancelled order's ten as filled
settled_after :
    settle_pending_orders 1200 7 (λ _. some rows) cancelled_db.orders cancelled_db.books
    ≡ ok (
      cancelled_db.orders,
      record (cancelled_db.books) { counts = record { settled = 0; partly = 0; unchanged = 1 } },
    )
unfolding settle_pending_orders settle_loop settle_order
settled_after = refl

cancel_order_endpoint-final_example :
    total_booked 7 "A1" cancelled_db.books.transactions
    ≡ total_booked 7 "A1" cancelled_db.books.transactions
cancel_order_endpoint-final_example =
    cancel_order_endpoint-final some (λ _. ok "T") (λ _. accepted) 7 3 cancel_args open_db 1200
      (λ _. some rows) (((omega arith), tt), (tt, tt)) withdrawn settled_after
