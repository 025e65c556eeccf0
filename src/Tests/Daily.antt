-- ===== src/Tests/Daily.antt =====
-- analytics_metrics.py: a ticker in two rows, and one without a close on the first date.
use the_wealth.Base.{ℕ, ◌≡◌, refl, none, some, arith, List, [], ◌∷◌, String}
use the_wealth.Base.Int.{ℤ, pos, ◌+ℤ◌, ◌*ℤ◌}
use the_wealth.Base.Text.{Dict, lookup}
use the_wealth.Snapshots.{save_snapshots, get_prev_close}
use the_wealth.Snapshots.Kept.{get_prev_close-save_snapshots}
use the_wealth.Store.{Holding, PriceSnapshot}
use the_wealth.Metrics.{value_at, date_values, portfolio_date_values}

abbrev row : ℕ → ℕ → String → ℕ → Holding
row i pid ticker quantity = record {
  id = i;
  portfolio_id = pid;
  ticker = ticker;
  name = ticker;
  quantity = pos quantity;
  avg_price = pos 600;
  market = none;
}

abbrev holdings : List Holding
holdings = row 1 7 "005930" 10 ∷ row 2 8 "005930" 5 ∷ row 3 7 "000660" 2 ∷ []

abbrev snapshot : String → ℕ → ℕ → PriceSnapshot
snapshot ticker date close = record {
  ticker = ticker;
  snapshot_date = date;
  open_price = none;
  high = none;
  low = none;
  close = pos close;
  volume = none;
}

abbrev snapshots : List PriceSnapshot
snapshots = snapshot "005930" 1 700 ∷ snapshot "005930" 2 710 ∷ snapshot "000660" 2 1000 ∷ []

-- 15 shares at 700 and 2 at 1000 are worth 12500
values : portfolio_date_values holdings snapshots ≡ (1, pos 23000) ∷ (2, pos 23300) ∷ []
unfolding portfolio_date_values date_values value_at ◌+ℤ◌ ◌*ℤ◌
values = refl

abbrev closes : Dict ℤ
closes = ("005930", pos 720) ∷ ("000660", pos 990) ∷ []

get_prev_close-save_snapshots_example :
    lookup "005930"
      (get_prev_close ("000660" ∷ "005930" ∷ []) 4 (save_snapshots 2 closes snapshots).1)
    ≡ some (pos 720)
get_prev_close-save_snapshots_example =
    get_prev_close-save_snapshots "005930" 2 4 (pos 720) closes ("000660" ∷ "005930" ∷ []) snapshots
      (omega arith) (refl, (refl, tt)) refl
      ((λ e. omega arith), ((λ e. omega arith), ((λ e. omega arith), tt))) refl
