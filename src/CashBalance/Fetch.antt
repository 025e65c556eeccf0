-- ===== src/CashBalance/Fetch.antt =====
-- services/cash_balance_aggregator.py, `fetch_cash_balance_for_account`: one account, behind its cache.
use the_wealth.Base.{ℕ, Option, none, some, List, [], ◌∷◌, String}
use the_wealth.Base.Int.{ℤ}
use the_wealth.Outcome.{
  Result, ok, raise, ◌>>=◌, Fault, http_exception, multiple_results_found, runtime_error,
  value_error, transport_error, other_error,
}
use the_wealth.Store.{KisAccount}
use the_wealth.Cache.{Fallback, get, setex, delete}
use the_wealth.Settlement.Query.{decrypt_keys}
use the_wealth.CashBalance.{
  account_key, account_cache_ttl, CashBalance, OverseasHolding, OverseasSummary, BrokerReplies,
  CashSummaryAccount, compute_pending_buy_reservation, failed_account, domestic_account,
  rate_or_fallback, usd_of, overseas_account, overseas_or_none,
}

-- an account that is kept in the cache, or the report of a failure, which is not
pub data Fetched : Type 0 where
  kept : CashSummaryAccount → Fetched
  reported : CashSummaryAccount → Fetched

abbrev pub with_overseas :
    KisAccount
    → CashBalance
    → ℤ
    → BrokerReplies
    → List OverseasHolding × OverseasSummary
    → Result Fetched
with_overseas acct domestic reservation replies ([], summary) =
    ok (kept (domestic_account acct domestic reservation))
with_overseas acct domestic reservation replies (h ∷ hs, summary) = do
  let rate = rate_or_fallback replies.exchange_rate
  usd ← usd_of rate replies.present
  ok (kept (overseas_account acct domestic reservation (h ∷ hs) summary rate usd))

abbrev pub with_domestic :
    (Fault → String) → KisAccount → BrokerReplies → Result CashBalance → Result Fetched
with_domestic message acct replies (ok domestic) = do
  reservation ← compute_pending_buy_reservation replies.pending_orders
  with_overseas acct domestic reservation replies (overseas_or_none replies.overseas)
with_domestic message acct replies (raise runtime_error) =
    ok (reported (failed_account acct (message runtime_error)))
with_domestic message acct replies (raise (http_exception status)) = raise (http_exception status)
with_domestic message acct replies (raise multiple_results_found) = raise multiple_results_found
with_domestic message acct replies (raise value_error) = raise value_error
with_domestic message acct replies (raise transport_error) = raise transport_error
with_domestic message acct replies (raise other_error) = raise other_error

abbrev pub with_keys :
    (Fault → String) → KisAccount → BrokerReplies → Option (String × String) → Result Fetched
with_keys message acct replies none = ok (reported (failed_account acct "자격증명 복호화 실패"))
with_keys message acct replies (some keys) = with_domestic message acct replies replies.domestic

abbrev pub keep_fetched :
    ℕ
    → KisAccount
    → Fallback CashSummaryAccount
    → Result Fetched
    → Result CashSummaryAccount × Fallback CashSummaryAccount
keep_fetched now acct c (raise fault) = (raise fault, c)
keep_fetched now acct c (ok (reported a)) = (ok a, c)
keep_fetched now acct c (ok (kept a)) =
    (ok a, setex now (account_key acct.id) account_cache_ttl a c)

abbrev pub or_fetch :
    ℕ
    → (Fault → String)
    → (String → Option String)
    → KisAccount
    → BrokerReplies
    → Option CashSummaryAccount
    → Fallback CashSummaryAccount
    → Result CashSummaryAccount × Fallback CashSummaryAccount
or_fetch now message decrypt acct replies (some cached) c = (ok cached, c)
or_fetch now message decrypt acct replies none c =
    keep_fetched now acct c (with_keys message acct replies (decrypt_keys decrypt acct))

-- `message` is the text of an exception.
unfoldable pub fetch_cash_balance_for_account :
    ℕ
    → (Fault → String)
    → (String → Option String)
    → KisAccount
    → BrokerReplies
    → Fallback CashSummaryAccount
    → Result CashSummaryAccount × Fallback CashSummaryAccount
fetch_cash_balance_for_account now message decrypt acct replies c =
    let (cached, c') = get now (account_key acct.id) c in
    or_fetch now message decrypt acct replies cached c'

unfoldable pub invalidate_account_cash_balance :
    ℕ → Fallback CashSummaryAccount → Fallback CashSummaryAccount
invalidate_account_cash_balance account c = delete (account_key account) c
