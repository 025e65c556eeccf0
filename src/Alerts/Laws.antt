-- ===== src/Alerts/Laws.antt =====
-- Which alerts trigger, and that one that has triggered stays quiet.
use the_wealth.Base.{
  ℕ, ◌+◌, ◌<◌, ◌≡◌, refl, true, not, Option, some, List, [], ◌∷◌, arith, select, is_some, map,
}
use the_wealth.Base.Int.{ℤ}
use the_wealth.Alerts.{
  Alert, Market, check_triggered_alerts, is_cooldown_active, dedup_entry, apply_patch,
  alert_cooldown_seconds, check_and_dedup_alerts,
}

-- What triggers is what `check_triggered_alerts` finds among the alerts that are not cooling down.
pub check_and_dedup-triggered :
    (now : ℕ) (alerts : List Alert) (market : Market)
    → (check_and_dedup_alerts now alerts market).0
      ≡ check_triggered_alerts (select (λ a. not (is_cooldown_active a now)) alerts) market
unfolding check_and_dedup_alerts check_triggered_alerts
check_and_dedup-triggered now [] market = refl
check_and_dedup-triggered now (a ∷ rest) market =
    ground (arith, check_and_dedup-triggered now rest market)

-- A check that follows another, with nothing in between, at any time and with any prices, gives what
-- it would give without the alerts that the first has reported.
pub check_and_dedup-once :
    (now later : ℕ) (alerts : List Alert) (market market' : Market)
    → (check_and_dedup_alerts later (check_and_dedup_alerts now alerts market).1 market').0
      ≡ (check_and_dedup_alerts later
          (select (λ a. not (is_some (dedup_entry a now market))) alerts)
          market').0
unfolding check_and_dedup_alerts
check_and_dedup-once now later [] market market' = refl
check_and_dedup-once now later (a ∷ rest) market market' =
    ground (arith, check_and_dedup-once now later rest market market')

-- Switching alerts on again does not shorten the cooldown: less than an hour after a check, at
-- whatever new threshold, a second check gives what it would give without the alerts reported.
pub check_and_dedup-cooldown :
    (now later : ℕ) (threshold : Option ℤ) (alerts : List Alert) (market market' : Market)
    → later < now + alert_cooldown_seconds
    → let switch = apply_patch (record { is_active = some true; threshold = threshold }) in
      (check_and_dedup_alerts later
        (map switch (check_and_dedup_alerts now alerts market).1)
        market').0
      ≡ (check_and_dedup_alerts later
          (map switch (select (λ a. not (is_some (dedup_entry a now market))) alerts))
          market').0
unfolding check_and_dedup_alerts is_cooldown_active
check_and_dedup-cooldown now later threshold [] market market' h = refl
check_and_dedup-cooldown now later threshold (a ∷ rest) market market' h =
    ground (arith, check_and_dedup-cooldown now later threshold rest market market' h)
