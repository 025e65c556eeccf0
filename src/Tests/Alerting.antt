-- ===== src/Tests/Alerting.antt =====
-- api/alerts.py: two alerts, one of which triggers.
use the_wealth.Base.{◌≡◌, true, not, none, some, List, [], ◌∷◌, select, is_some}
use the_wealth.Base.Int.{pos}
use the_wealth.Alerts.{Alert, above, drawdown, Market, dedup_entry, check_and_dedup_alerts}
use the_wealth.Alerts.Laws.{check_and_dedup-once}

abbrev target : Alert
target = record {
  id = 1;
  user_id = 3;
  ticker = "AAPL";
  name = "Apple";
  condition = above;
  threshold = pos 2000000;
  is_active = true;
  created_at = 100;
  last_triggered_at = none;
}

abbrev alerts : List Alert
alerts = target ∷ record target { id = 2; condition = drawdown; threshold = pos 100000 } ∷ []

abbrev market : Market
market = record {
  current_prices = ("AAPL", some (pos 2100000)) ∷ [];
  avg_prices = ("AAPL", some (pos 2200000)) ∷ [];
  day_change_pcts = [];
}

check_and_dedup-once_example :
    (check_and_dedup_alerts 9000 (check_and_dedup_alerts 5000 alerts market).1 market).0
    ≡ (check_and_dedup_alerts 9000
        (select (λ a. not (is_some (dedup_entry a 5000 market))) alerts)
        market).0
check_and_dedup-once_example = check_and_dedup-once 5000 9000 alerts market market
