-- ===== src/CashBalance.antt =====
-- services/cash_balance_aggregator.py: the cash of an account behind a cache, and the sum over the
-- accounts of a user behind another.
pub mod Fetch
pub mod Summary
pub mod Laws
pub mod Caught
use Prim.Native.String.{◌++◌ as str_append}
use the_wealth.Base.{
  ℕ, ◌+◌, ◌*◌, Bool, true, false, ◌||◌, Option, none, some, List, [], ◌∷◌, ◌++◌, String, ◌==◌,
  select, if◌then◌else◌,
}
use the_wealth.Base.Int.{ℤ, pos, ◌+ℤ◌, ◌-ℤ◌, ◌*ℤ◌, ◌==ℤ◌, max_ℤ, leb_ℤ, ltb_ℤ}
use the_wealth.Base.Digits.{show}
use the_wealth.Decimal.{trunc}
use the_wealth.Outcome.{
  Result, ok, raise, Fault, http_exception, multiple_results_found, runtime_error, value_error,
  transport_error, other_error,
}
use the_wealth.Store.{Side, buy, sell, KisAccount}
use the_wealth.Cache.{Fallback, get, setex, delete}
use the_wealth.OrderLock.{truthy}
use the_wealth.Settlement.Query.{decrypt_keys}

-- Amounts and rates are whole numbers of 10^-10: what a quantity (10^-6) times a price (10^-4) is.
abbrev pub unit : ℕ
unit = 10000000000

-- `Decimal(int(a * b))`
abbrev pub whole_product : ℤ → ℤ → ℤ
whole_product a b = trunc (a *ℤ b) (unit * unit) *ℤ pos unit

abbrev pub account_cache_ttl : ℕ
account_cache_ttl = 30

abbrev pub user_summary_cache_ttl : ℕ
user_summary_cache_ttl = 30

-- "cash_balance:account:{account_id}" and "cash_summary:user:{user_id}"
unfoldable pub account_key : ℕ → String
account_key i = str_append "cash_balance:account:" (show i)

unfoldable pub user_key : ℕ → String
user_key i = str_append "cash_summary:user:" (show i)

-- services/kis_balance.py, `CashBalance`, as far as it is read here
pub record CashBalance : Type 0 where
  pub total_cash : ℤ
  pub available_cash : ℤ
  pub total_evaluation : ℤ
  pub total_profit_loss : ℤ
  pub foreign_cash : Option ℤ
  pub usd_krw_rate : Option ℤ

-- services/kis_order_query.py, `PendingOrder`, as far as it is read here
pub record PendingOrder : Type 0 where
  pub order_type : Side
  pub price : ℤ
  pub remaining_quantity : ℤ

-- a position abroad; `frcr_evlu_pfls_amt` and `ovrs_tot_pfls` of their summary, 0 where absent
pub record OverseasHolding : Type 0 where
  pub quantity : ℤ
  pub avg_price : ℤ

pub record OverseasSummary : Type 0 where
  pub frcr_evlu_pfls_amt : ℤ
  pub ovrs_tot_pfls : ℤ

pub record OverseasPresentBalance : Type 0 where
  pub usd_cash : ℤ
  pub usd_krw_rate : ℤ

-- what the broker's queries come to for one account
pub record BrokerReplies : Type 0 where
  pub domestic : Result CashBalance
  pub pending_orders : Result (List PendingOrder)
  pub overseas : Result (List OverseasHolding × OverseasSummary)
  pub exchange_rate : Result ℤ
  pub present : Result OverseasPresentBalance

-- schemas/dashboard.py
pub record CashSummaryAccount : Type 0 where
  pub kis_account_id : ℕ
  pub label : String
  pub total_cash : Option ℤ
  pub available_cash : Option ℤ
  pub total_evaluation : Option ℤ
  pub total_profit_loss : Option ℤ
  pub foreign_cash : Option ℤ
  pub usd_krw_rate : Option ℤ
  pub error : Option String

pub record CashSummaryResponse : Type 0 where
  pub total_cash : ℤ
  pub available_cash : ℤ
  pub total_evaluation : ℤ
  pub total_profit_loss : ℤ
  pub kis_connected : Bool
  pub accounts : List CashSummaryAccount
  pub has_errors : Bool

-- what one open order reserves
abbrev pub reserved_by : PendingOrder → ℤ
reserved_by o = elim o.order_type [
  | buy ↦ if leb_ℤ o.price (pos 0) then pos 0 else o.remaining_quantity *ℤ o.price
  | sell ↦ pos 0
]

abbrev pub reservation : List PendingOrder → ℤ
reservation [] = pos 0
reservation (o ∷ os) = reserved_by o +ℤ reservation os

-- `compute_pending_buy_reservation`: a `RuntimeError` reserves nothing.
abbrev pub compute_pending_buy_reservation : Result (List PendingOrder) → Result ℤ
compute_pending_buy_reservation (ok pending) = ok (reservation pending)
compute_pending_buy_reservation (raise runtime_error) = ok (pos 0)
compute_pending_buy_reservation (raise (http_exception status)) = raise (http_exception status)
compute_pending_buy_reservation (raise multiple_results_found) = raise multiple_results_found
compute_pending_buy_reservation (raise value_error) = raise value_error
compute_pending_buy_reservation (raise transport_error) = raise transport_error
compute_pending_buy_reservation (raise other_error) = raise other_error

abbrev pub failed_account : KisAccount → String → CashSummaryAccount
failed_account acct error = record {
  kis_account_id = acct.id;
  label = acct.label;
  total_cash = none;
  available_cash = none;
  total_evaluation = none;
  total_profit_loss = none;
  foreign_cash = none;
  usd_krw_rate = none;
  error = some error;
}

abbrev pub domestic_account : KisAccount → CashBalance → ℤ → CashSummaryAccount
domestic_account acct domestic reservation = record {
  kis_account_id = acct.id;
  label = acct.label;
  total_cash = some (max_ℤ (pos 0) (domestic.total_cash -ℤ reservation));
  available_cash = some (max_ℤ (pos 0) (domestic.available_cash -ℤ reservation));
  total_evaluation = some (domestic.total_evaluation -ℤ domestic.total_cash);
  total_profit_loss = some domestic.total_profit_loss;
  foreign_cash = domestic.foreign_cash;
  usd_krw_rate = domestic.usd_krw_rate;
  error = none;
}

abbrev pub holdings_cost : List OverseasHolding → ℤ
holdings_cost [] = pos 0
holdings_cost (h ∷ hs) = h.quantity *ℤ h.avg_price +ℤ holdings_cost hs

-- the fallback of 1450 won
abbrev pub rate_or_fallback : Result ℤ → ℤ
rate_or_fallback (ok rate) = rate
rate_or_fallback (raise fault) = pos (1450 * unit)

-- `usd_cash` and `usd_rate`; a `RuntimeError` leaves no cash at the market's rate
abbrev pub usd_of : ℤ → Result OverseasPresentBalance → Result (ℤ × ℤ)
usd_of rate (ok p) = ok (p.usd_cash, if ltb_ℤ (pos 0) p.usd_krw_rate then p.usd_krw_rate else rate)
usd_of rate (raise runtime_error) = ok (pos 0, rate)
usd_of rate (raise (http_exception status)) = raise (http_exception status)
usd_of rate (raise multiple_results_found) = raise multiple_results_found
usd_of rate (raise value_error) = raise value_error
usd_of rate (raise transport_error) = raise transport_error
usd_of rate (raise other_error) = raise other_error

abbrev pub overseas_account :
    KisAccount
    → CashBalance
    → ℤ
    → List OverseasHolding
    → OverseasSummary
    → ℤ
    → ℤ × ℤ
    → CashSummaryAccount
overseas_account acct domestic reservation holdings summary rate (usd_cash, usd_rate) =
    let ovrs_eval_usd =
      if summary.frcr_evlu_pfls_amt ==ℤ pos 0
      then holdings_cost holdings
      else summary.frcr_evlu_pfls_amt in
    let usd_cash_krw = whole_product usd_cash usd_rate in
    record {
      kis_account_id = acct.id;
      label = acct.label;
      total_cash = some (max_ℤ (pos 0) (domestic.total_cash -ℤ reservation) +ℤ usd_cash_krw);
      available_cash =
          some (max_ℤ (pos 0) (domestic.available_cash -ℤ reservation) +ℤ usd_cash_krw);
      total_evaluation =
          some
            (domestic.total_evaluation -ℤ domestic.total_cash +ℤ whole_product ovrs_eval_usd rate);
      total_profit_loss =
          some (domestic.total_profit_loss +ℤ whole_product summary.ovrs_tot_pfls rate);
      foreign_cash = if ltb_ℤ (pos 0) usd_cash then some usd_cash else none;
      usd_krw_rate = some usd_rate;
      error = none;
    }

-- `overseas_holdings` and `overseas_summary`; any exception leaves none
abbrev pub overseas_or_none :
    Result (List OverseasHolding × OverseasSummary) → List OverseasHolding × OverseasSummary
overseas_or_none (ok r) = r
overseas_or_none (raise fault) = ([], record { frcr_evlu_pfls_amt = pos 0; ovrs_tot_pfls = pos 0 })
