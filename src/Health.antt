-- ===== src/Health.antt =====
-- services/kis_health.py and the job of services/scheduler.py that calls it: whether the broker's API
-- can be reached, as one flag for the whole program.
use the_wealth.Base.{ℕ, ◌-◌, Bool, true, false, Option, none, some, String, ltb, if◌then◌else◌}

-- `KisAvailabilityState`
pub record KisAvailabilityState : Type 0 where
  pub is_available : Bool
  pub last_error : String

abbrev pub set_kis_availability : Bool → String → KisAvailabilityState → KisAvailabilityState
set_kis_availability available error state = record { is_available = available; last_error = error }

-- What the HEAD request comes to: a response with any status, or an exception with the message that
-- is made of it.
pub data Head : Type 0 where
  responded : ℕ → Head
  not_reached : String → Head

unfoldable pub check_kis_api_health : Head → KisAvailabilityState → Bool × KisAvailabilityState
check_kis_api_health (responded status) state = (true, set_kis_availability true "" state)
check_kis_api_health (not_reached message) state = (false, set_kis_availability false message state)

abbrev pub recheck_cooldown_seconds : ℕ
recheck_cooldown_seconds = 600

-- `elapsed < _KIS_HEALTH_RECHECK_COOLDOWN_SECONDS` where a check was made
abbrev pub in_cooldown : ℕ → Option ℕ → Bool
in_cooldown now none = false
in_cooldown now (some checked_at) = ltb (now - checked_at) recheck_cooldown_seconds

-- `_kis_health_recheck_job`, with `_last_healthy_check_at`; the head is what a request would meet.
unfoldable pub kis_health_recheck_job :
    ℕ → Head → Option ℕ × KisAvailabilityState → Option ℕ × KisAvailabilityState
unfolding check_kis_api_health
kis_health_recheck_job now head (last, state) =
    let (recovered, state') = check_kis_api_health head state in
    if state.is_available
    then (if in_cooldown now last then (last, state) else (some now, state'))
    else (if recovered then some now else last, state')
