-- ===== src/Settlement/Loop.antt =====
-- services/order_settlement.py, `settle_pending_orders`: the open orders of a portfolio against the
-- broker's fills.
use Prim.Native.String.{◌++◌ as str_append}
use the_wealth.Base.{
  ℕ, ◌+◌, Bool, true, false, ◌&&◌, Option, none, some, List, [], ◌∷◌, ◌++◌, String, ◌==◌, select,
  if◌then◌else◌,
}
use the_wealth.Base.Int.{ℤ, pos, ◌-ℤ◌, leb_ℤ}
use the_wealth.Base.Text.{Dict, lookup, str_eq}
use the_wealth.Outcome.{Result, ok, raise, ◌>>=◌, runtime_error}
use the_wealth.Store.{Status, pending, partial, filled, Order, Transaction}
use the_wealth.Settlement.Broker.{CcldRow, FilledOrderInfo, filled_infos, add_infos}
use the_wealth.Settlement.Fill.{Counts, Books, text_or, decimal_or, update_holdings_for_fill}

-- `order.status in ("pending", "partial")`
abbrev pub is_open : Status → Bool
is_open pending = true
is_open partial = true
is_open _ = false

-- the `where` of the query for the orders to settle
abbrev pub is_pending : ℕ → Order → Bool
is_pending pid o = (o.portfolio_id == pid) && is_open o.status

abbrev pub count_unchanged : Books → Books
count_unchanged s = record s { counts = record s.counts { unchanged = s.counts.unchanged + 1 } }

abbrev pub count_fill : Bool → Counts → Counts
count_fill true c = record c { settled = c.settled + 1 }
count_fill false c = record c { partly = c.partly + 1 }

-- f"KIS 체결 (주문번호: {order.order_no})"
abbrev pub kis_memo : String → String
kis_memo order_no = str_append (str_append "KIS 체결 (주문번호: " order_no) ")"

-- the transaction of the newly filled quantity
abbrev pub fill_transaction : ℕ → ℕ → ℕ → String → FilledOrderInfo → ℤ → Transaction
fill_transaction now next pid order_no info new_filled = record {
  id = next;
  portfolio_id = pid;
  ticker = info.ticker;
  type = info.order_type;
  quantity = new_filled;
  price = info.filled_price;
  traded_at = now;
  deleted_at = none;
  memo = some (kis_memo order_no);
  order_no = some order_no;
  order_source = "kis";
  tags = none;
}

-- steps 3 to 5 of the loop's body
unfoldable pub book_fill :
    ℕ → ℕ → Order → String → FilledOrderInfo → ℤ → Books → Result (Order × Books)
book_fill now pid o order_no info new_filled s = do
  let o' = record o {
    filled_quantity = some info.filled_quantity;
    filled_price = some info.filled_price;
    status = if info.is_fully_filled then filled else partial;
  }
  let t = fill_transaction now s.next pid order_no info new_filled
  let s' = record s {
    transactions = s.transactions ++ t ∷ [];
    next = s.next + 1;
    counts = count_fill info.is_fully_filled s.counts;
  }
  s'' ←
      update_holdings_for_fill pid info.ticker (text_or o.name info.ticker) info.order_type
        new_filled info.filled_price s'
  ok (o', s'')

-- the body of the loop, by the order's number and the answer for it
abbrev pub settle_found :
    ℕ → ℕ → Order → String → Option FilledOrderInfo → Books → Result (Order × Books)
settle_found now pid o order_no none s = ok (o, count_unchanged s)
settle_found now pid o order_no (some info) s =
    let new_filled = info.filled_quantity -ℤ decimal_or o.filled_quantity (pos 0) in
    if leb_ℤ new_filled (pos 0)
    then ok (o, count_unchanged s)
    else book_fill now pid o order_no info new_filled s

abbrev pub settle_by_number :
    ℕ → ℕ → Dict FilledOrderInfo → Order → Option String → Books → Result (Order × Books)
settle_by_number now pid filled_map o none s = ok (o, count_unchanged s)
settle_by_number now pid filled_map o (some order_no) s =
    if str_eq order_no ""
    then ok (o, count_unchanged s)
    else settle_found now pid o order_no (lookup order_no filled_map) s

unfoldable pub settle_order : ℕ → ℕ → Dict FilledOrderInfo → Order → Books → Result (Order × Books)
settle_order now pid filled_map o s =
    if is_pending pid o then settle_by_number now pid filled_map o o.order_no s else ok (o, s)

-- The loop changes the row objects of the query in place: it walks the table of orders and passes
-- over the rows that the query leaves out.
unfoldable pub settle_loop :
    ℕ → ℕ → Dict FilledOrderInfo → List Order → Books → Result (List Order × Books)
settle_loop now pid filled_map [] s = ok ([], s)
settle_loop now pid filled_map (o ∷ os) s = do
  (o', s') ← settle_order now pid filled_map o s
  (os', s'') ← settle_loop now pid filled_map os s'
  ok (o' ∷ os', s'')

-- `[o.order_no for o in pending_orders if o.order_no]`
abbrev pub order_nos : List Order → List String
order_nos [] = []
order_nos (o ∷ os) = elim o.order_no [
  | none ↦ order_nos os
  | some n ↦ if str_eq n "" then order_nos os else n ∷ order_nos os
]

abbrev pub no_counts : Counts
no_counts = record { settled = 0; partly = 0; unchanged = 0 }

abbrev pub settle_answer :
    ℕ → ℕ → List String → Option (List CcldRow) → List Order → Books → Result (List Order × Books)
settle_answer now pid numbers none orders s = raise runtime_error
settle_answer now pid numbers (some rows) orders s =
    settle_loop now pid (add_infos [] (filled_infos numbers rows)) orders s

abbrev pub settle_numbers :
    ℕ
    → ℕ
    → (List String → Option (List CcldRow))
    → List String
    → List Order
    → Books
    → Result (List Order × Books)
settle_numbers now pid answer [] orders s = ok (orders, s)
settle_numbers now pid answer (n ∷ ns) orders s =
    settle_answer now pid (n ∷ ns) (answer (n ∷ ns)) orders s

-- `answer` is what the broker says of the day's orders, or nothing where it fails.
unfoldable pub settle_pending_orders :
    ℕ → ℕ → (List String → Option (List CcldRow)) → List Order → Books → Result (List Order × Books)
settle_pending_orders now pid answer orders s =
    settle_numbers now pid answer (order_nos (select (is_pending pid) orders)) orders
      (record s { counts = no_counts })
