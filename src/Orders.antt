-- ===== src/Orders.antt =====
-- api/orders.py: an order of a user is checked, posted and recorded, and an order is cancelled;
-- services/kis_order_cancel.py, the request to the broker that cancels.
pub mod Placed
pub mod Cancelled
pub mod Final
use Prim.Native.Char.{Char, code}
use Prim.Native.String
use the_wealth.Base.{
  ℕ, zero, suc, Bool, true, false, not, ◌&&◌, ◌||◌, Option, none, some, List, [], ◌∷◌, ◌++◌, map,
  String, ◌==◌, leb, select, if◌then◌else◌,
}
use the_wealth.Base.Int.{ℤ, pos, leb_ℤ, ltb_ℤ}
use the_wealth.Base.Text.{str_eq, opt_eq}
use the_wealth.Outcome.{
  Result, ok, raise, ◌>>=◌, raise_if, scalar_one_or_none, http_exception, runtime_error,
}
use the_wealth.Store.{
  Side, buy, sell, Status, pending, cancelled, failed, OrderClass, limit, market, shares, Holding,
  Order, KisAccount,
}
use the_wealth.Store.Holdings.{is_holding}
use the_wealth.Placement.{
  OrderArgs, OrderBody, OrderReply, no_reply, replied, OrderResult, Desk, OrderAnswer, is_zero,
  place_domestic_order, place_overseas_order,
}
use the_wealth.Settlement.Query.{
  OrderTables, portfolio_cash, account_cash, user_summary, user_portfolios, is_success,
  get_portfolio_with_kis, as_bad_gateway,
}

-- core/ticker.py: `^[0-9A-Z]{6}$`; `$` also matches before a line feed that ends the text
abbrev is_ticker_char : Char → Bool
is_ticker_char c = (leb 48 (code c) && leb (code c) 57) || (leb 65 (code c) && leb (code c) 90)

matches_chars : ℕ → String → Bool
matches_chars zero String.[] = true
matches_chars zero (String.◌∷◌ c s) = (code c == 10) && str_eq s ""
matches_chars (suc n) String.[] = false
matches_chars (suc n) (String.◌∷◌ c s) = is_ticker_char c && matches_chars n s

unfoldable pub is_domestic : String → Bool
unfolding matches_chars
is_domestic ticker = matches_chars 6 ticker

-- schemas/order.py, `OrderRequest`
pub record OrderRequest : Type 0 where
  pub ticker : String
  pub name : Option String
  pub order_type : Side
  pub order_class : OrderClass
  pub quantity : ℕ
  pub price : Option ℤ
  pub exchange_code : Option String
  pub memo : Option String

-- `body.price or Decimal("0")`
abbrev pub price_or_zero : Option ℤ → ℤ
price_or_zero none = pos 0
price_or_zero (some p) = p

-- what the validators of the schema accept: a positive quantity, a price that is not negative, and a
-- positive one for a limit order
abbrev pub validate_price : OrderClass → Option ℤ → Bool
validate_price limit none = false
validate_price limit (some p) = ltb_ℤ (pos 0) p
validate_price market none = true
validate_price market (some p) = leb_ℤ (pos 0) p

abbrev pub validate_request : OrderRequest → Bool
validate_request body = not (body.quantity == 0) && validate_price body.order_class body.price

-- `holding is None or holding.quantity < body.quantity`
abbrev pub lacks : Option Holding → ℕ → Bool
lacks none quantity = true
lacks (some h) quantity = ltb_ℤ h.quantity (shares quantity)

-- the check before a sale
abbrev pub check_holding : Side → ℕ → String → ℕ → List Holding → Result (Unit {0})
check_holding buy pid ticker quantity holdings = ok tt
check_holding sell pid ticker quantity holdings = do
  holding ← scalar_one_or_none (select (is_holding pid ticker) holdings)
  raise_if (lacks holding quantity) (http_exception 400)

-- `_KIS_EXCHANGE_MAP`
abbrev pub kis_exchange : String → String
kis_exchange raw_code =
    if str_eq raw_code "NAS"
    then "NASD"
    else if str_eq raw_code "NYS"
    then "NYSE"
    else if str_eq raw_code "AMS"
    then "AMEX"
    else if str_eq raw_code "HKS"
    then "SEHK"
    else if str_eq raw_code "TSE"
    then "TKSE"
    else raw_code

-- `body.exchange_code or "NASD"`
abbrev pub raw_exchange : Option String → String
raw_exchange none = "NASD"
raw_exchange (some c) = if str_eq c "" then "NASD" else c

abbrev pub order_args : ℕ → ℕ → KisAccount → OrderRequest → OrderArgs
order_args pid user acct body = record {
  account_no = acct.account_no;
  account_product_code = acct.acnt_prdt_cd;
  ticker = body.ticker;
  order_type = body.order_type;
  quantity = body.quantity;
  price = price_or_zero body.price;
  order_class = body.order_class;
  account_type = acct.account_type;
  is_paper_trading = acct.is_paper_trading;
  portfolio_id = pid;
  user_id = user;
}

-- the order on its way, at home or abroad
abbrev pub call_broker :
    ℕ
    → ℕ
    → ℕ
    → KisAccount
    → OrderRequest
    → Result String
    → (OrderBody → OrderReply)
    → Desk
    → Result OrderResult × Desk
call_broker now pid user acct body token broker d =
    if is_domestic body.ticker
    then place_domestic_order now (order_args pid user acct body) token broker d
    else place_overseas_order now (kis_exchange (raw_exchange body.exchange_code))
        (order_args pid user acct body) token broker d

-- `order_result.order_no or None`
abbrev pub none_if_empty : String → Option String
none_if_empty s = if str_eq s "" then none else some s

-- the broker's message for an order that failed, and else the user's memo
abbrev pub effective_memo : Status → String → Option String → Option String
effective_memo failed message memo = if str_eq message "" then memo else some message
effective_memo status message memo = memo

abbrev pub db_order : ℕ → ℕ → KisAccount → OrderRequest → OrderResult → Order
db_order next pid acct body result = record {
  id = next;
  portfolio_id = pid;
  kis_account_id = some acct.id;
  ticker = body.ticker;
  name = body.name;
  order_type = body.order_type;
  order_class = body.order_class;
  quantity = shares body.quantity;
  price = body.price;
  order_no = none_if_empty result.order_no;
  status = result.status;
  filled_quantity = none;
  filled_price = none;
  memo = effective_memo result.status result.message body.memo;
}

-- the tables and caches behind an order or a cancellation
abbrev pub clear_cash : ℕ → ℕ → ℕ → OrderTables → OrderTables
clear_cash pid account user db = record db {
  cleared =
      db.cleared
      ++ portfolio_cash pid ∷ account_cash account ∷ user_summary user ∷ user_portfolios user ∷ [];
}

-- what the endpoint has before it calls the broker: the account and its keys
unfoldable pub prepare_order :
    (String → Option String)
    → ℕ
    → ℕ
    → OrderRequest
    → OrderTables
    → Result (KisAccount × (String × String))
prepare_order decrypt pid user body db = do
  (portfolio, (acct, keys)) ← get_portfolio_with_kis decrypt pid user db
  checked ← check_holding body.order_type pid body.ticker body.quantity db.books.holdings
  ok (acct, keys)

-- `INSERT` of the order with the next primary key
abbrev pub record_order :
    ℕ → ℕ → ℕ → KisAccount → OrderRequest → OrderTables → OrderResult → Order × OrderTables
record_order next pid user acct body db result =
    let order = db_order next pid acct body result in
    (order, clear_cash pid acct.id user (record db { orders = db.orders ++ order ∷ [] }))

abbrev pub post_and_record :
    ℕ
    → ((String × String) → Result String)
    → (OrderBody → OrderReply)
    → ℕ
    → ℕ
    → ℕ
    → OrderRequest
    → OrderTables
    → Desk
    → Result (KisAccount × (String × String))
    → Result (Order × OrderTables) × Desk
post_and_record now token broker next pid user body db d (raise fault) = (raise fault, d)
post_and_record now token broker next pid user body db d (ok (acct, keys)) =
    let (end, d') = call_broker now pid user acct body (token keys) broker d in
    (as_bad_gateway end >>= λ result. ok (record_order next pid user acct body db result), d')

-- `place_order`: `token` is what `get_kis_access_token` gives for a pair of keys, `broker` what is
-- answered to a body, and `next` the sequence's next primary key of the orders.
unfoldable pub place_order :
    ℕ
    → (String → Option String)
    → ((String × String) → Result String)
    → (OrderBody → OrderReply)
    → ℕ
    → ℕ
    → ℕ
    → OrderRequest
    → OrderTables
    → Desk
    → Result (Order × OrderTables) × Desk
place_order now decrypt token broker next pid user body db d =
    post_and_record now token broker next pid user body db d
      (prepare_order decrypt pid user body db)

-- the arguments of `cancel_order`
pub record CancelArgs : Type 0 where
  pub order_no : String
  pub ticker : String
  pub quantity : ℕ
  pub price : ℕ
  pub is_overseas : Bool
  pub exchange_code : String

-- what is posted: the headers' `tr_id` and the fields of the body that differ between two calls
pub record CancelBody : Type 0 where
  pub tr_id : String
  pub cano : String
  pub acnt_prdt_cd : String
  pub ovrs_excg_cd : Option String
  pub pdno : Option String
  pub orgn_odno : String
  pub ord_qty : ℕ
  pub ord_unpr : ℕ
  pub qty_all_ord_yn : Option String

abbrev pub cancel_tr_id : Bool → Bool → String
cancel_tr_id true paper = "TTTT1004U"
cancel_tr_id false true = "VTTC0013U"
cancel_tr_id false false = "TTTC0013U"

abbrev pub cancel_body : KisAccount → CancelArgs → CancelBody
cancel_body acct a = record {
  tr_id = cancel_tr_id a.is_overseas acct.is_paper_trading;
  cano = acct.account_no;
  acnt_prdt_cd = acct.acnt_prdt_cd;
  ovrs_excg_cd = if a.is_overseas then some a.exchange_code else none;
  pdno = if a.is_overseas then some a.ticker else none;
  orgn_odno = a.order_no;
  ord_qty = a.quantity;
  ord_unpr = a.price;
  qty_all_ord_yn = if a.is_overseas then none else some "Y";
}

abbrev pub is_cancelled : OrderReply → Bool
is_cancelled no_reply = false
is_cancelled (replied status none) = false
is_cancelled (replied status (some answer)) = is_success status && is_zero answer.rt_cd

-- `cancel_order`: an exception, a status other than 2xx and a refusal are a `RuntimeError`.
abbrev pub cancel_order :
    KisAccount → CancelArgs → Result String → (CancelBody → OrderReply) → Result (Unit {0})
cancel_order acct a (raise fault) broker = raise fault
cancel_order acct a (ok token) broker =
    raise_if (not (is_cancelled (broker (cancel_body acct a)))) runtime_error

abbrev pub is_order : ℕ → String → Order → Bool
is_order pid number o = (o.portfolio_id == pid) && opt_eq o.order_no (some number)

-- `db_order.status = "cancelled"`
abbrev pub mark_cancelled : Option Order → List Order → List Order
mark_cancelled none orders = orders
mark_cancelled (some found) orders =
    map (λ o. if o.id == found.id then record o { status = cancelled } else o) orders

-- `cancel_order_endpoint`
unfoldable pub cancel_order_endpoint :
    (String → Option String)
    → ((String × String) → Result String)
    → (CancelBody → OrderReply)
    → ℕ
    → ℕ
    → CancelArgs
    → OrderTables
    → Result OrderTables
cancel_order_endpoint decrypt token broker pid user a db = do
  (portfolio, (acct, keys)) ← get_portfolio_with_kis decrypt pid user db
  done ← as_bad_gateway (cancel_order acct a (token keys) broker)
  found ← scalar_one_or_none (select (is_order pid a.order_no) db.orders)
  ok (clear_cash pid acct.id user (record db { orders = mark_cancelled found db.orders }))
