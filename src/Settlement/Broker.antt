-- ===== src/Settlement/Broker.antt =====
-- services/kis_order_query.py, `check_filled_orders`: the broker's lines for a set of orders.
use the_wealth.Base.{Bool, false, ◌&&◌, ◌||◌, List, [], ◌∷◌, map, String, select, if◌then◌else◌}
use the_wealth.Base.Int.{ℤ, pos, leb_ℤ, ltb_ℤ}
use the_wealth.Base.Text.{Dict, insert, str_eq}
use the_wealth.Store.{Side, buy, sell}

-- one line of the broker's answer, its numbers decoded
pub record CcldRow : Type 0 where
  pub odno : String
  pub pdno : String
  pub sll_buy_dvsn_cd : String
  pub tot_ccld_qty : ℤ
  pub avg_prvs : ℤ
  pub ord_qty : ℤ

pub record FilledOrderInfo : Type 0 where
  pub order_no : String
  pub ticker : String
  pub order_type : Side
  pub filled_quantity : ℤ
  pub filled_price : ℤ
  pub total_quantity : ℤ
  pub is_fully_filled : Bool

-- `odno in order_no_set`
abbrev pub member : String → List String → Bool
member s [] = false
member s (t ∷ ts) = str_eq t s || member s ts

abbrev pub filled_info : CcldRow → FilledOrderInfo
filled_info row = record {
  order_no = row.odno;
  ticker = row.pdno;
  order_type = if str_eq row.sll_buy_dvsn_cd "01" then sell else buy;
  filled_quantity = row.tot_ccld_qty;
  filled_price = row.avg_prvs;
  total_quantity = row.ord_qty;
  is_fully_filled = leb_ℤ row.ord_qty row.tot_ccld_qty;
}

-- the loop of `check_filled_orders`: lines of these orders that have a filled quantity
abbrev pub filled_infos : List String → List CcldRow → List FilledOrderInfo
filled_infos order_nos rows =
    map filled_info
      (select (λ row. member row.odno order_nos && ltb_ℤ (pos 0) row.tot_ccld_qty) rows)

-- `{f.order_no: f for f in filled_infos}`
abbrev pub add_infos : Dict FilledOrderInfo → List FilledOrderInfo → Dict FilledOrderInfo
add_infos d [] = d
add_infos d (f ∷ fs) = add_infos (insert f.order_no f d) fs
