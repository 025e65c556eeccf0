-- ===== src/Placement.antt =====
-- services/kis_order_place.py: an order on its way to the broker, behind the limit of orders per user
-- and the lock against double orders.
pub mod Limit
pub mod Race
pub mod Laws
use the_wealth.Base.{
  ℕ, ◌+◌, Bool, true, false, not, ◌&&◌, ◌||◌, Option, none, some, String, List, [], ◌∷◌, ◌++◌, ◌==◌,
  ltb, leb, if◌then◌else◌,
}
use the_wealth.Base.Int.{ℤ, pos}
use Prim.Native.String.{◌++◌ as str_append}
use the_wealth.Base.Text.{str_eq}
use the_wealth.Base.Digits.{show}
use the_wealth.Outcome.{Result, ok, raise, Fault, runtime_error}
use the_wealth.Store.{Side, buy, sell, Status, pending, failed, OrderClass, limit, market, shares}
use the_wealth.Cache.{Fallback, get, setex}
use the_wealth.OrderLock.{acquire_order_lock}

abbrev pub rate_limit_ttl : ℕ
rate_limit_ttl = 60

abbrev pub rate_limit_max : ℕ
rate_limit_max = 5

-- "order_rate:{user_id}" and "order_lock:{portfolio_id}:{ticker}"
unfoldable pub rate_limit_key : ℕ → String
rate_limit_key user = str_append "order_rate:" (show user)

unfoldable pub order_lock_key : ℕ → String → String
order_lock_key pid ticker = str_append "order_lock:" (str_append (show pid) (str_append ":" ticker))

abbrev pub count_of : Option ℕ → ℕ
count_of none = 0
count_of (some n) = n

-- The read of `_check_rate_limit`, and what follows it once the count is known: other tasks may run
-- in between. The cache keeps the count as a number, in one store.
abbrev pub read_count : ℕ → ℕ → Fallback ℕ → ℕ × Fallback ℕ
read_count now user c = let (count, c') = get now (rate_limit_key user) c in (count_of count, c')

abbrev pub count_attempt : ℕ → ℕ → ℕ → Fallback ℕ → Bool × Fallback ℕ
count_attempt now user count c =
    if leb rate_limit_max count
    then (false, c)
    else (true, setex now (rate_limit_key user) rate_limit_ttl (count + 1) c)

-- `_check_rate_limit` with no other task in between
unfoldable pub check_rate_limit : ℕ → ℕ → Fallback ℕ → Bool × Fallback ℕ
check_rate_limit now user c =
    let (count, c') = read_count now user c in count_attempt now user count c'

abbrev pub domestic_tr_ids : String → String → String → String
domestic_tr_ids tr_id account_type other =
    if str_eq account_type "일반"
      || str_eq account_type "ISA"
      || str_eq account_type "연금저축"
      || str_eq account_type "IRP"
    then tr_id
    else other

abbrev pub account_or : Option String → String
account_or none = "일반"
account_or (some t) = if str_eq t "" then "일반" else t

-- `_get_domestic_tr_id`
abbrev pub get_domestic_tr_id : Side → Option String → Bool → String
get_domestic_tr_id buy account_type true = "VTTC0802U"
get_domestic_tr_id sell account_type true = "VTTC0801U"
get_domestic_tr_id buy account_type false =
    domestic_tr_ids "TTTC0802U" (account_or account_type) "TTTC0802U"
get_domestic_tr_id sell account_type false =
    domestic_tr_ids "TTTC0801U" (account_or account_type) "TTTC0801U"

-- `_get_overseas_tr_id`
abbrev pub get_overseas_tr_id : Side → Bool → String
get_overseas_tr_id buy true = "VTTT1002U"
get_overseas_tr_id sell true = "VTTT1001U"
get_overseas_tr_id buy false = "TTTT1002U"
get_overseas_tr_id sell false = "TTTT1006U"

-- the arguments of the two functions
pub record OrderArgs : Type 0 where
  pub account_no : String
  pub account_product_code : String
  pub ticker : String
  pub order_type : Side
  pub quantity : ℕ
  pub price : ℤ
  pub order_class : OrderClass
  pub account_type : Option String
  pub is_paper_trading : Bool
  pub portfolio_id : ℕ
  pub user_id : ℕ

-- what is posted: the headers' `tr_id` and the body; the exchange of an overseas order
pub record OrderBody : Type 0 where
  pub tr_id : String
  pub cano : String
  pub acnt_prdt_cd : String
  pub ovrs_excg_cd : Option String
  pub pdno : String
  pub ord_dvsn : String
  pub ord_qty : ℕ
  pub ord_unpr : ℤ

abbrev pub ord_dvsn_of : OrderClass → String
ord_dvsn_of limit = "00"
ord_dvsn_of market = "01"

abbrev pub ord_price : OrderClass → ℤ → ℤ
ord_price limit price = price
ord_price market price = pos 0

abbrev pub domestic_body : OrderArgs → OrderBody
domestic_body a = record {
  tr_id = get_domestic_tr_id a.order_type a.account_type a.is_paper_trading;
  cano = a.account_no;
  acnt_prdt_cd = a.account_product_code;
  ovrs_excg_cd = none;
  pdno = a.ticker;
  ord_dvsn = ord_dvsn_of a.order_class;
  ord_qty = a.quantity;
  ord_unpr = ord_price a.order_class a.price;
}

abbrev pub overseas_body : String → OrderArgs → OrderBody
overseas_body exchange_code a = record {
  tr_id = get_overseas_tr_id a.order_type a.is_paper_trading;
  cano = a.account_no;
  acnt_prdt_cd = a.account_product_code;
  ovrs_excg_cd = some exchange_code;
  pdno = a.ticker;
  ord_dvsn = "00";
  ord_qty = a.quantity;
  ord_unpr = ord_price a.order_class a.price;
}

-- `OrderResult`
pub record OrderResult : Type 0 where
  pub order_no : String
  pub ticker : String
  pub order_type : Side
  pub quantity : ℤ
  pub price : ℤ
  pub status : Status
  pub message : String

abbrev pub refused : OrderArgs → String → OrderResult
refused a message = record {
  order_no = "";
  ticker = a.ticker;
  order_type = a.order_type;
  quantity = shares a.quantity;
  price = a.price;
  status = failed;
  message = message;
}

-- the JSON of an answer: `rt_cd`, the texts of `msg1` and `msg2` ("" where they are absent), and the
-- order number of `output`
pub record OrderAnswer : Type 0 where
  pub rt_cd : Option String
  pub msg1 : String
  pub msg2 : String
  pub odno : String

-- what the post comes to: an exception, or a status with the JSON where there is one
pub data OrderReply : Type 0 where
  no_reply : OrderReply
  replied : ℕ → Option OrderAnswer → OrderReply

-- `" ".join(filter(None, [msg1, msg2])) or "Unknown KIS API error"`
abbrev pub join_messages : String → String → String
join_messages msg1 msg2 =
    if str_eq msg1 ""
    then (if str_eq msg2 "" then "Unknown KIS API error" else msg2)
    else if str_eq msg2 ""
    then msg1
    else str_append msg1 (str_append " " msg2)

abbrev pub is_zero : Option String → Bool
is_zero none = false
is_zero (some rt_cd) = str_eq rt_cd "0"

abbrev pub read_answer : OrderArgs → Option OrderAnswer → OrderResult
read_answer a none = refused a "한국투자증권 서버 응답을 해석할 수 없습니다. 잠시 후 다시 시도해주세요."
read_answer a (some answer) =
    if is_zero answer.rt_cd
    then record {
      order_no = answer.odno;
      ticker = a.ticker;
      order_type = a.order_type;
      quantity = shares a.quantity;
      price = a.price;
      status = pending;
      message = answer.msg1;
    }
    else refused a (join_messages answer.msg1 answer.msg2)

-- `_execute_order_request`, and the exception of the caller
abbrev pub execute_order_request : OrderArgs → OrderReply → Result OrderResult
execute_order_request a no_reply = raise runtime_error
execute_order_request a (replied status answer) = ok (
    if leb 500 status
    then refused a "한국투자증권 서버 일시 오류로 주문이 접수되지 않았습니다. 잠시 후 다시 시도해주세요."
    else if leb 400 status
    then refused a (str_append "주문 요청 거부 (HTTP " (str_append (show status) "). 입력값을 확인해주세요."))
    else read_answer a answer)

-- the counts, the locks, and the orders that were posted
pub record Desk : Type 0 where
  pub rates : Fallback ℕ
  pub locks : Fallback String
  pub posted : List OrderBody

-- behind the token: one post
abbrev pub post_order :
    OrderArgs
    → OrderBody
    → Result String
    → (OrderBody → OrderReply)
    → Desk
    → Result OrderResult × Desk
post_order a body (raise fault) broker d = (raise fault, d)
post_order a body (ok token) broker d =
    (execute_order_request a (broker body), record d { posted = d.posted ++ body ∷ [] })

abbrev pub lock_step :
    ℕ
    → OrderArgs
    → OrderBody
    → Result String
    → (OrderBody → OrderReply)
    → Desk
    → Result OrderResult × Desk
lock_step now a body token broker d =
    if a.portfolio_id == 0
    then post_order a body token broker d
    else let (granted, locks) =
        acquire_order_lock now (order_lock_key a.portfolio_id a.ticker) d.locks in
      if granted
      then post_order a body token broker (record d { locks = locks })
      else (ok (refused a "중복 주문 방지: 동일 종목에 대한 주문이 처리 중입니다."), record d { locks = locks })

-- What the two functions share: the limit, the lock, the token and the post. `token` is what
-- `get_kis_access_token` gives, and `broker` what the broker answers to a body.
unfoldable pub guarded_order :
    ℕ
    → OrderArgs
    → OrderBody
    → Result String
    → (OrderBody → OrderReply)
    → Desk
    → Result OrderResult × Desk
guarded_order now a body token broker d =
    if a.user_id == 0
    then lock_step now a body token broker d
    else let (allowed, rates) = check_rate_limit now a.user_id d.rates in
      if allowed
      then lock_step now a body token broker (record d { rates = rates })
      else (ok (refused a "주문 한도 초과: 분당 5회까지 허용됩니다."), record d { rates = rates })

unfoldable pub place_domestic_order :
    ℕ → OrderArgs → Result String → (OrderBody → OrderReply) → Desk → Result OrderResult × Desk
unfolding guarded_order
place_domestic_order now a token broker d = guarded_order now a (domestic_body a) token broker d

unfoldable pub place_overseas_order :
    ℕ
    → String
    → OrderArgs
    → Result String
    → (OrderBody → OrderReply)
    → Desk
    → Result OrderResult × Desk
unfolding guarded_order
place_overseas_order now exchange_code a token broker d =
    guarded_order now a (overseas_body exchange_code a) token broker d
