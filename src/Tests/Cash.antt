-- ===== src/Tests/Cash.antt =====
-- cash_balance_aggregator.py: an account with positions abroad, and one that the broker refuses.
use the_wealth.Base.{
  ℕ, ◌*◌, ◌==◌, ◌≡◌, refl, inl, inr, true, none, some, [], ◌∷◌, String, arith, if◌then◌else◌,
}
use the_wealth.Base.Int.{ℤ, pos, ◌+ℤ◌, ◌-ℤ◌, ◌*ℤ◌}
use the_wealth.Base.Digits.{show}
use the_wealth.Decimal.{trunc}
use the_wealth.Outcome.{ok, raise, Fault, runtime_error, transport_error}
use the_wealth.Store.{KisAccount, buy, sell}
use the_wealth.Cache.{get, setex}
use the_wealth.CashBalance.{BrokerReplies, unit, account_key, user_key}
use the_wealth.CashBalance.Fetch.{fetch_cash_balance_for_account}
use the_wealth.CashBalance.Summary.{CashCaches, gather, aggregate_cash_balance_for_user}
use the_wealth.CashBalance.Laws.{IsSummed, AreSummed, aggregate-AreSummed}
use the_wealth.CashBalance.Caught.{IsGiven, fetch_cash_balance-IsGiven}
use the_wealth.Tests.Settling.{account}

abbrev won : ℕ → ℤ
won n = pos (n * unit)

abbrev other_account : KisAccount
other_account = record account { id = 2; label = "other" }

-- an open purchase of 10 at 700 won, and 3 shares of 100 dollars at an unknown rate
abbrev good : BrokerReplies
good = record {
  domestic = ok (record {
    total_cash = won 50000;
    available_cash = won 5000;
    total_evaluation = won 80000;
    total_profit_loss = won 1000;
    foreign_cash = none;
    usd_krw_rate = none;
  });
  pending_orders = ok (
      record { order_type = buy; price = pos 7000000; remaining_quantity = pos 10000000 }
      ∷ record { order_type = sell; price = pos 9000000; remaining_quantity = pos 10000000 }
      ∷ []);
  overseas = ok (
    record { quantity = pos 3000000; avg_price = pos 1000000 } ∷ [],
    record { frcr_evlu_pfls_amt = pos 0; ovrs_tot_pfls = pos 0 },
  );
  exchange_rate = raise transport_error;
  present = raise runtime_error;
}

abbrev refused_replies : BrokerReplies
refused_replies = record good { domestic = raise runtime_error }

abbrev replies : KisAccount → BrokerReplies
replies a = if a.id == 2 then refused_replies else good

abbrev message : Fault → String
message fault = "refused"

abbrev no_caches : CashCaches
no_caches = record { balances = []; summaries = [] }

totals :
    let r =
      (aggregate_cash_balance_for_user 1000 message some replies 3
        (account ∷ other_account ∷ [])
        no_caches).0 in
    (r.total_cash ≡ won 43000)
    × (r.available_cash ≡ pos 0)
    × (r.total_evaluation ≡ won 465000)
    × (r.has_errors ≡ true)
unfolding aggregate_cash_balance_for_user gather fetch_cash_balance_for_account account_key user_key
    show get setex ◌+ℤ◌ ◌-ℤ◌ ◌*ℤ◌ trunc
totals = (refl, refl, refl, refl)

aggregate-AreSummed_example :
    IsSummed
      (aggregate_cash_balance_for_user 1000 message some replies 3
        (account ∷ other_account ∷ [])
        no_caches).0
    × AreSummed 1000
        (aggregate_cash_balance_for_user 1000 message some replies 3
          (account ∷ other_account ∷ [])
          no_caches).1.summaries
aggregate-AreSummed_example =
    aggregate-AreSummed 1000 message some replies 3 (account ∷ other_account ∷ []) no_caches
      (λ later key r l e. absurd (cc e))

fetch_cash_balance-IsGiven_example :
    IsGiven 1020 account [] (fetch_cash_balance_for_account 1000 message some account good [])
fetch_cash_balance-IsGiven_example =
    fetch_cash_balance-IsGiven 1000 1020 message some account good [] refl (inl (_, refl))
      (inl (_, refl)) (inr refl) (omega arith) (omega arith)
