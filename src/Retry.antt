-- ===== src/Retry.antt =====
-- services/kis_retry.py: a request to the broker, repeated with exponential backoff.
pub mod Laws
use Prim.Native.Nat.{min}
use the_wealth.Base.{
  ℕ, zero, suc, ◌+◌, ◌-◌, ◌*◌, ◌^◌, ◌≤◌, Bool, true, false, ◌&&◌, Option, none, some, List, [], ◌∷◌,
  ◌++◌, String, ltb, leb, ◌==◌, if◌then◌else◌,
}
use the_wealth.Base.Text.{opt_eq, str_eq}

abbrev retry_base_min_ms : ℕ
retry_base_min_ms = 50

abbrev retry_base_max_ms : ℕ
retry_base_max_ms = 200

abbrev network_base_min_ms : ℕ
network_base_min_ms = 200

abbrev network_base_max_ms : ℕ
network_base_max_ms = 500

abbrev pub retry_cap_ms : ℕ
retry_cap_ms = 3000

-- `httpx.Response`: the status, and `rt_cd` where the body is a JSON object that has it
pub record Response : Type 0 where
  pub status_code : ℕ
  pub rt_cd : Option String

-- what `_do_request` comes to
pub data Reply : Type 0 where
  response : Response → Reply
  network_error : Reply

-- how a call of `kis_request` ends: the last response, the network's exception, or the
-- `RuntimeError` behind the loop
pub data End : Type 0 where
  returned : Response → End
  raised_network : End
  raised_unreachable : End

-- what it does on the way
pub data Event : Type 0 where
  sent : Event
  slept : ℕ → Event
  took_token : Event

-- `random.randint(lo, hi)`: some number of the range
pub record Random : Type 0 where
  pub randint : ℕ → ℕ → ℕ
  pub randint_lower : (lo hi : ℕ) → lo ≤ hi → lo ≤ randint lo hi
  pub randint_upper : (lo hi : ℕ) → lo ≤ hi → randint lo hi ≤ hi

unfoldable pub backoff_ms : Random → ℕ → ℕ → ℕ → ℕ
backoff_ms r attempt base_min base_max =
    let factor = 2 ^ (attempt - 1) in
    let lo = min (base_min * factor) retry_cap_ms in
    let hi = min (base_max * factor) retry_cap_ms in r.randint (if ltb hi lo then hi else lo) hi

unfoldable pub is_rate_limited : Response → Bool
is_rate_limited resp =
    if resp.status_code == 429
    then true
    else if resp.status_code == 200
    then opt_eq resp.rt_cd (some "EGW00201")
    else false

unfoldable pub is_server_error : Response → Bool
is_server_error resp = leb 500 resp.status_code && ltb resp.status_code 600

-- `retry_reason`
pub data Reason : Type 0 where
  rate_limited server_error : Reason

unfoldable pub retry_reason : Bool → Response → Option Reason
unfolding is_rate_limited is_server_error
retry_reason can_retry_5xx resp =
    if is_rate_limited resp
    then some rate_limited
    else if can_retry_5xx && is_server_error resp
    then some server_error
    else none

-- a step's events before those of the rest
abbrev pub after : List Event → List Event × End → List Event × End
after es r = (es ++ r.0, r.1)

abbrev pub after_reason : Reason → ℕ → List Event
after_reason rate_limited wait_ms = sent ∷ slept wait_ms ∷ took_token ∷ []
after_reason server_error wait_ms = sent ∷ slept wait_ms ∷ []

module _ (r : Random) (network_retries : ℕ) (can_retry_5xx : Bool) (replies : ℕ → Reply) where
  -- `for attempt in range(1, attempts + 1)` with `left` rounds to go, the k-th request answered by
  -- `replies k`
  unfoldable pub request_loop : ℕ → ℕ → ℕ → List Event × End
  request_loop zero attempt network_attempt = ([], raised_unreachable)
  request_loop (suc left) attempt network_attempt = elim (replies attempt) [
    | network_error ↦
        if ltb network_attempt network_retries
        then after
            (sent
              ∷ slept (backoff_ms r (network_attempt + 1) network_base_min_ms network_base_max_ms)
              ∷ [])
            (request_loop left (attempt + 1) (network_attempt + 1))
        else (sent ∷ [], raised_network)
    | response resp ↦ elim (retry_reason can_retry_5xx resp) [
      | none ↦ (sent ∷ [], returned resp)
      | some reason ↦
          if left == 0
          then (sent ∷ [], returned resp)
          else after
              (after_reason reason (backoff_ms r attempt retry_base_min_ms retry_base_max_ms))
              (request_loop left (attempt + 1) network_attempt)
    ]
  ]

  -- `max_retries` is the argument or the setting
  unfoldable pub kis_request : ℕ → List Event × End
  unfolding request_loop
  kis_request max_retries = request_loop (max_retries + 1) 1 0
