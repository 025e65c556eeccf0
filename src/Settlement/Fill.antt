-- ===== src/Settlement/Fill.antt =====
-- services/order_settlement.py, `_update_holdings_for_fill`: a fill booked on the holdings.
use the_wealth.Base.{ℕ, ◌+◌, Option, none, some, List, [], ◌∷◌, ◌++◌, String, select, if◌then◌else◌}
use the_wealth.Base.Int.{ℤ, pos, ◌+ℤ◌, ◌-ℤ◌, ◌*ℤ◌, leb_ℤ, ltb_ℤ}
use the_wealth.Base.Text.{str_eq}
use the_wealth.Decimal.{quot}
use the_wealth.Outcome.{Result, ok, ◌>>=◌, scalar_one_or_none}
use the_wealth.Store.{Side, buy, sell, Holding, Transaction}
use the_wealth.Store.Holdings.{is_holding, update_row, delete_row}

-- `a or b` on texts: "" counts as absent
abbrev pub text_or : Option String → String → String
text_or none b = b
text_or (some a) b = if str_eq a "" then b else a

abbrev pub decimal_or : Option ℤ → ℤ → ℤ
decimal_or none b = b
decimal_or (some a) b = a

pub record Counts : Type 0 where
  pub settled : ℕ
  pub partly : ℕ
  pub unchanged : ℕ

-- the two tables that a settlement writes beside the orders, the sequences' next primary keys (one
-- for both) and the counts
pub record Books : Type 0 where
  pub holdings : List Holding
  pub transactions : List Transaction
  pub next : ℕ
  pub counts : Counts

-- the average price after a purchase
unfoldable pub new_avg : ℤ → ℤ → ℤ → ℤ → ℤ
new_avg old_quantity old_price quantity price =
    let total_qty = old_quantity +ℤ quantity in
    if ltb_ℤ (pos 0) total_qty
    then quot (old_quantity *ℤ old_price +ℤ quantity *ℤ price) total_qty
    else price

-- the branches of `_update_holdings_for_fill`, on the row that was found
abbrev pub fill_holding : Option Holding → ℕ → String → String → Side → ℤ → ℤ → Books → Books
fill_holding none pid ticker name buy quantity price s = record s {
  holdings =
      s.holdings
      ++ record {
        id = s.next;
        portfolio_id = pid;
        ticker = ticker;
        name = name;
        quantity = quantity;
        avg_price = price;
        market = none;
      }
        ∷ [];
  next = s.next + 1;
}
fill_holding (some h) pid ticker name buy quantity price s = record s {
  holdings =
      update_row h.id
        (λ r. record r {
          quantity = h.quantity +ℤ quantity;
          avg_price = new_avg h.quantity h.avg_price quantity price;
        })
        s.holdings;
}
fill_holding none pid ticker name sell quantity price s = s
fill_holding (some h) pid ticker name sell quantity price s = record s {
  holdings =
      if leb_ℤ (h.quantity -ℤ quantity) (pos 0)
      then delete_row h.id s.holdings
      else update_row h.id (λ r. record r { quantity = h.quantity -ℤ quantity }) s.holdings;
}

unfoldable pub update_holdings_for_fill : ℕ → String → String → Side → ℤ → ℤ → Books → Result Books
update_holdings_for_fill pid ticker name order_type quantity price s = do
  holding ← scalar_one_or_none (select (is_holding pid ticker) s.holdings)
  ok (fill_holding holding pid ticker name order_type quantity price s)
