-- ===== src/Alerts.antt =====
-- api/alerts.py: price alerts, their conditions and their cooldown. Prices, thresholds and percents
-- are whole numbers of 1/10000.
pub mod Laws
use the_wealth.Base.{
  ℕ, ◌+◌, ◌-◌, ◌^◌, Bool, true, false, ◌&&◌, not, Option, none, some, List, [], ◌∷◌, ◌++◌, map,
  String, ◌==◌, ltb, select, if◌then◌else◌,
}
use the_wealth.Base.Int.{ℤ, pos, ◌+ℤ◌, ◌-ℤ◌, ◌*ℤ◌, leb_ℤ, abs_ℤ}
use the_wealth.Base.Text.{Dict, lookup}
use the_wealth.Decimal.{quot}
use the_wealth.Outcome.{
  Result, ok, raise, ◌>>=◌, ◌>>◌, or_raise, scalar_one_or_none, Fault, http_exception,
}

pub data Condition : Type 0 where
  above below pct_change drawdown : Condition

-- models/alert.py
pub record Alert : Type 0 where
  pub id : ℕ
  pub user_id : ℕ
  pub ticker : String
  pub name : String
  pub condition : Condition
  pub threshold : ℤ
  pub is_active : Bool
  pub created_at : ℕ
  pub last_triggered_at : Option ℕ

-- `d.get(k)` where the values may be `None`
abbrev pub get_opt : String → Dict (Option ℤ) → Option ℤ
get_opt k d = elim (lookup k d) [ none ↦ none | some v ↦ v ]

-- `(avg - price) / avg` in units of 10 to the -28, and the percents with it
abbrev pub drawdown_hit : ℤ → ℤ → ℤ → Bool
drawdown_hit price threshold avg =
    if leb_ℤ avg (pos 0)
    then false
    else leb_ℤ (threshold *ℤ pos (10 ^ 22)) (quot ((avg -ℤ price) *ℤ pos (10 ^ 28)) avg)

-- `avg_prices` and `day_change_pcts`, empty where they are not given
pub record Market : Type 0 where
  pub current_prices : Dict (Option ℤ)
  pub avg_prices : Dict (Option ℤ)
  pub day_change_pcts : Dict (Option ℤ)

abbrev pub hit : Condition → ℤ → ℤ → Option ℤ → Option ℤ → Bool
hit above price threshold avg pct = leb_ℤ threshold price
hit below price threshold avg pct = leb_ℤ price threshold
hit pct_change price threshold avg none = false
hit pct_change price threshold avg (some pct) = leb_ℤ threshold (abs_ℤ pct)
hit drawdown price threshold none pct = false
hit drawdown price threshold (some avg) pct = drawdown_hit price threshold avg

-- `_evaluate_condition`
unfoldable pub evaluate_condition : Alert → ℤ → Market → Bool
evaluate_condition alert price market =
    hit alert.condition price alert.threshold (get_opt alert.ticker market.avg_prices)
      (get_opt alert.ticker market.day_change_pcts)

-- one entry of the answer
pub record Triggered : Type 0 where
  pub id : ℕ
  pub ticker : String
  pub name : String
  pub condition : Condition
  pub threshold : ℤ
  pub current_price : ℤ

abbrev pub entry : Alert → ℤ → Triggered
entry alert price = record {
  id = alert.id;
  ticker = alert.ticker;
  name = alert.name;
  condition = alert.condition;
  threshold = alert.threshold;
  current_price = price;
}

-- the loop's body: the entry, where there is a price and the condition holds
abbrev pub entry_at : Alert → Option ℤ → Market → Option Triggered
entry_at alert none market = none
entry_at alert (some price) market =
    if evaluate_condition alert price market then some (entry alert price) else none

abbrev pub triggered_entry : Alert → Market → Option Triggered
triggered_entry alert market =
    if alert.is_active
    then entry_at alert (get_opt alert.ticker market.current_prices) market
    else none

abbrev pub append_entry : Option Triggered → List Triggered → List Triggered
append_entry none ts = ts
append_entry (some t) ts = t ∷ ts

pub check_triggered_alerts : List Alert → Market → List Triggered
check_triggered_alerts [] market = []
check_triggered_alerts (alert ∷ alerts) market =
    append_entry (triggered_entry alert market) (check_triggered_alerts alerts market)

abbrev pub alert_cooldown_seconds : ℕ
alert_cooldown_seconds = 3600

-- times in seconds; a stored time ahead of `now` counts as under the cooldown
abbrev pub within_cooldown : Option ℕ → ℕ → Bool
within_cooldown none now = false
within_cooldown (some last) now = ltb now (last + alert_cooldown_seconds)

unfoldable pub is_cooldown_active : Alert → ℕ → Bool
is_cooldown_active alert now = within_cooldown alert.last_triggered_at now

abbrev pub dedup_entry : Alert → ℕ → Market → Option Triggered
dedup_entry alert now market =
    if is_cooldown_active alert now then none else triggered_entry alert market

-- the row object, changed in place where it triggers
abbrev pub mark : Option Triggered → ℕ → Alert → Alert
mark none now alert = alert
mark (some _) now alert = record alert { last_triggered_at = some now; is_active = false }

pub check_and_dedup_alerts : ℕ → List Alert → Market → List Triggered × List Alert
check_and_dedup_alerts now [] market = ([], [])
check_and_dedup_alerts now (alert ∷ alerts) market =
    let (triggered, alerts') = check_and_dedup_alerts now alerts market in
    let e = dedup_entry alert now market in (append_entry e triggered, mark e now alert ∷ alerts')

-- `AlertCreate` and `AlertPatch`, validated
pub record AlertCreate : Type 0 where
  pub ticker : String
  pub name : String
  pub condition : Condition
  pub threshold : ℤ

pub record AlertPatch : Type 0 where
  pub is_active : Option Bool
  pub threshold : Option ℤ

-- the table, and the sequence's next primary key
pub record AlertTable : Type 0 where
  pub alerts : List Alert
  pub next : ℕ

unfoldable pub create_alert : ℕ → ℕ → AlertCreate → AlertTable → Alert × AlertTable
create_alert now user body db =
    let alert : Alert = record {
      id = db.next;
      user_id = user;
      ticker = body.ticker;
      name = body.name;
      condition = body.condition;
      threshold = body.threshold;
      is_active = true;
      created_at = now;
      last_triggered_at = none;
    } in
    (alert, record { alerts = db.alerts ++ alert ∷ []; next = db.next + 1 })

abbrev pub is_owned : ℕ → ℕ → Alert → Bool
is_owned i user a = (a.id == i) && (a.user_id == user)

abbrev pub given {ℓ} : {A : Type ℓ} → Option A → A → A
given none old = old
given (some new) old = new

abbrev pub apply_patch : AlertPatch → Alert → Alert
apply_patch body a = record a {
  is_active = given body.is_active a.is_active;
  threshold = given body.threshold a.threshold;
}

unfoldable pub patch_alert : ℕ → ℕ → AlertPatch → AlertTable → Result (Alert × AlertTable)
patch_alert user i body db = do
  found ← scalar_one_or_none (select (is_owned i user) db.alerts)
  alert ← or_raise found (http_exception 404)
  ok (
    apply_patch body alert,
    record db { alerts = map (λ a. if a.id == alert.id then apply_patch body a else a) db.alerts },
  )

unfoldable pub delete_alert : ℕ → ℕ → AlertTable → Result AlertTable
delete_alert user i db = do
  found ← scalar_one_or_none (select (is_owned i user) db.alerts)
  alert ← or_raise found (http_exception 404)
  ok (record db { alerts = select (λ a. not (a.id == alert.id)) db.alerts })
