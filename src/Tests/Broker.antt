-- ===== src/Tests/Broker.antt =====
-- kis_retry.py and kis_rate_limiter.py: a call that meets rate limits, and a bucket of two tokens.
use the_wealth.Base.{ℕ, zero, suc, ◌-◌, ◌*◌, ◌<◌, ◌≡◌, refl, false, none, some, arith}
use the_wealth.Retry.{
  Reply, response, network_error, returned, raised_unreachable, Random, retry_reason,
  is_rate_limited, request_loop, kis_request,
}
use the_wealth.Retry.Laws.{kis_request_unreachable}
use the_wealth.RateLimiter.{Limiter, init, refill, consume, acquire, timed_out}
use the_wealth.RateLimiter.Laws.{callers, callers_staircase}

-- the lower end of the range, always
abbrev lowest : Random
lowest = record {
  randint = λ lo hi. lo;
  randint_lower = λ lo hi h. omega arith;
  randint_upper = λ lo hi h. h;
}

-- a rate-limited reply, then a good one, then none
abbrev replies : ℕ → Reply
replies zero = network_error
replies (suc zero) = response (record { status_code = 429; rt_cd = none })
replies (suc (suc zero)) = response (record { status_code = 200; rt_cd = some "0" })
replies (suc (suc (suc n))) = network_error

good :
    (kis_request lowest 1 false replies 1).1
    ≡ returned (record { status_code = 200; rt_cd = some "0" })
unfolding kis_request request_loop retry_reason
good = refl

-- a rate-limited reply, then none
abbrev failing : ℕ → Reply
failing zero = network_error
failing (suc zero) = response (record { status_code = 429; rt_cd = none })
failing (suc (suc n)) = network_error

kis_request_unreachable_example : (kis_request lowest 1 false failing 1).1 ≡ raised_unreachable
unfolding is_rate_limited
kis_request_unreachable_example =
    kis_request_unreachable lowest 1 false failing 1 (omega arith)
      (record { status_code = 429; rt_cd = none }, refl, refl, refl)

-- a bucket that holds two tokens of 5 ticks, and is empty
abbrev empty : Limiter
empty = record {
  cost = 5;
  burst = 2;
  mock_mode = false;
  tokens = 0;
  last_refill = 10;
  next_release = 10;
}

waits : 0 < (consume 1 13 14 empty).0
unfolding consume refill
waits = omega arith

late : (acquire 3 (some 4) 13 14 (empty, 0)).0 ≡ timed_out
unfolding acquire consume refill
late = refl

callers_staircase_example : (consume 1 7 7 (callers 7 4 (init 5 2 false 7))).0 ≡ (5 - 2) * 5
callers_staircase_example = callers_staircase 5 2 7 4 (omega arith)
