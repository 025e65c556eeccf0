-- ===== src/CashBalance/Summary.antt =====
-- services/cash_balance_aggregator.py, `aggregate_cash_balance_for_user`: the accounts of a user.
use the_wealth.Base.{
  ℕ, Bool, true, false, Option, none, some, List, [], ◌∷◌, ◌++◌, String, ◌==◌, select,
  if◌then◌else◌,
}
use the_wealth.Base.Int.{ℤ, pos, ◌+ℤ◌}
use the_wealth.Outcome.{Result, ok, raise, Fault}
use the_wealth.Store.{KisAccount}
use the_wealth.Cache.{Fallback, get, setex, delete}
use the_wealth.OrderLock.{truthy}
use the_wealth.CashBalance.{
  user_key, user_summary_cache_ttl, BrokerReplies, CashSummaryAccount, CashSummaryResponse,
  failed_account,
}
use the_wealth.CashBalance.Fetch.{fetch_cash_balance_for_account}

pub record CashCaches : Type 0 where
  pub balances : Fallback CashSummaryAccount
  pub summaries : Fallback CashSummaryResponse

abbrev pub empty_response : Bool → CashSummaryResponse
empty_response connected = record {
  total_cash = pos 0;
  available_cash = pos 0;
  total_evaluation = pos 0;
  total_profit_loss = pos 0;
  kis_connected = connected;
  accounts = [];
  has_errors = false;
}

-- `if r.total_cash is not None: total_cash += r.total_cash`
abbrev pub plus_given : ℤ → Option ℤ → ℤ
plus_given total none = total
plus_given total (some amount) = total +ℤ amount

-- one round of the loop over the accounts and their results
abbrev pub add_result :
    (Fault → String)
    → KisAccount
    → Result CashSummaryAccount
    → CashSummaryResponse
    → CashSummaryResponse
add_result message acct (raise fault) s = record s {
  accounts = s.accounts ++ failed_account acct (message fault) ∷ [];
  has_errors = true;
}
add_result message acct (ok a) s =
    if truthy a.error
    then record s { accounts = s.accounts ++ a ∷ []; has_errors = true }
    else record s {
      accounts = s.accounts ++ a ∷ [];
      total_cash = plus_given s.total_cash a.total_cash;
      available_cash = plus_given s.available_cash a.available_cash;
      total_evaluation = plus_given s.total_evaluation a.total_evaluation;
      total_profit_loss = plus_given s.total_profit_loss a.total_profit_loss;
    }

module _ (now : ℕ) (message : Fault → String) (decrypt : String → Option String)
    (replies : KisAccount → BrokerReplies) where
  -- The accounts are asked together; each reads and writes the cache under its own key only, and so
  -- they are taken one by one.
  unfoldable pub gather :
      List KisAccount
      → CashSummaryResponse
      → Fallback CashSummaryAccount
      → CashSummaryResponse × Fallback CashSummaryAccount
  gather [] s c = (s, c)
  gather (acct ∷ accts) s c =
      let (result, c') = fetch_cash_balance_for_account now message decrypt acct (replies acct) c in
      gather accts (add_result message acct result s) c'

  abbrev pub summarize : ℕ → List KisAccount → CashCaches → CashSummaryResponse × CashCaches
  summarize user [] caches = (empty_response false, caches)
  summarize user (acct ∷ accts) caches =
      let (response, balances) = gather (acct ∷ accts) (empty_response true) caches.balances in
      (
        response,
        record {
          balances = balances;
          summaries = setex now (user_key user) user_summary_cache_ttl response caches.summaries;
        },
      )

  abbrev pub or_summarize :
      ℕ
      → List KisAccount
      → Option CashSummaryResponse
      → CashCaches
      → CashSummaryResponse × CashCaches
  or_summarize user accounts (some cached) caches = (cached, caches)
  or_summarize user accounts none caches =
      summarize user (select (λ a. a.user_id == user) accounts) caches

  unfoldable pub aggregate_cash_balance_for_user :
      ℕ → List KisAccount → CashCaches → CashSummaryResponse × CashCaches
  aggregate_cash_balance_for_user user accounts caches =
      let (cached, summaries) = get now (user_key user) caches.summaries in
      or_summarize user accounts cached (record caches { summaries = summaries })

unfoldable pub invalidate_user_cash_summary : ℕ → CashCaches → CashCaches
invalidate_user_cash_summary user caches = record caches {
  summaries = delete (user_key user) caches.summaries;
}
