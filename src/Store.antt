-- ===== src/Store.antt =====
-- The tables that the services read and write (backend/app/models): rows, and the statements that
-- SQLAlchemy sends for them.
pub mod Holdings
use the_wealth.Base.{
  ℕ, ◌+◌, ◌*◌, Bool, true, false, not, Option, none, some, List, [], ◌∷◌, ◌++◌, map, String, ◌==◌,
  select, if◌then◌else◌,
}
use the_wealth.Base.Int.{ℤ, pos}

-- `order_type` and `type`: "BUY" or "SELL"
pub data Side : Type 0 where
  buy sell : Side

-- `Order.status`
pub data Status : Type 0 where
  pending filled partial cancelled failed : Status

-- `order_class`: "limit" or "market"
pub data OrderClass : Type 0 where
  limit market : OrderClass

-- `Decimal(n)` of a whole number, in the unit of the quantity columns, Numeric(18, 6)
abbrev pub shares : ℕ → ℤ
shares n = pos (n * 1000000)

-- models/holding.py
pub record Holding : Type 0 where
  pub id : ℕ
  pub portfolio_id : ℕ
  pub ticker : String
  pub name : String
  pub quantity : ℤ
  pub avg_price : ℤ
  pub market : Option String

-- models/order.py
pub record Order : Type 0 where
  pub id : ℕ
  pub portfolio_id : ℕ
  pub kis_account_id : Option ℕ
  pub ticker : String
  pub name : Option String
  pub order_type : Side
  pub order_class : OrderClass
  pub quantity : ℤ
  pub price : Option ℤ
  pub order_no : Option String
  pub status : Status
  pub filled_quantity : Option ℤ
  pub filled_price : Option ℤ
  pub memo : Option String

-- models/transaction.py
pub record Transaction : Type 0 where
  pub id : ℕ
  pub portfolio_id : ℕ
  pub ticker : String
  pub type : Side
  pub quantity : ℤ
  pub price : ℤ
  pub traded_at : ℕ
  pub deleted_at : Option ℕ
  pub memo : Option String
  pub order_no : Option String
  pub order_source : String
  pub tags : Option (List String)

-- models/portfolio.py
pub record Portfolio : Type 0 where
  pub id : ℕ
  pub user_id : ℕ
  pub name : String
  pub currency : String
  pub kis_account_id : Option ℕ
  pub display_order : ℤ
  pub target_value : Option ℕ
  pub created_at : ℕ

-- models/price_snapshot.py; the dates are numbered
pub record PriceSnapshot : Type 0 where
  pub ticker : String
  pub snapshot_date : ℕ
  pub open_price : Option ℤ
  pub high : Option ℤ
  pub low : Option ℤ
  pub close : ℤ
  pub volume : Option ℕ

-- models/kis_account.py, the keys still encrypted
pub record KisAccount : Type 0 where
  pub id : ℕ
  pub user_id : ℕ
  pub label : String
  pub account_no : String
  pub acnt_prdt_cd : String
  pub app_key_enc : String
  pub app_secret_enc : String
  pub is_paper_trading : Bool
  pub account_type : Option String
