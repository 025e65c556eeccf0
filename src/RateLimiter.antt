-- ===== src/RateLimiter.antt =====
-- services/kis_rate_limiter.py: the token bucket with reservations. Times are whole ticks and a token
-- is the `cost` ticks in which one is refilled (`1 / rate`), so the bucket's contents, the deficits
-- and the waits are exact numbers of ticks.
pub mod Laws
use Prim.Native.Nat.{min, max}
use the_wealth.Base.{
  ℕ, suc, ◌+◌, ◌-◌, ◌*◌, ◌≤◌, ◌<◌, Bool, true, false, Option, none, some, ltb, leb, ◌==◌,
  if◌then◌else◌,
}

-- `KisRateLimiter`: its three settings and its three variables
pub record Limiter : Type 0 where
  pub cost : ℕ
  pub burst : ℕ
  pub mock_mode : Bool
  pub tokens : ℕ
  pub last_refill : ℕ
  pub next_release : ℕ

-- `__init__`, at the time `now`
unfoldable pub init : ℕ → ℕ → Bool → ℕ → Limiter
init cost burst mock_mode now = record {
  cost = cost;
  burst = burst;
  mock_mode = mock_mode;
  tokens = burst * cost;
  last_refill = now;
  next_release = now;
}

unfoldable pub refill : ℕ → Limiter → Limiter
refill now l = record l {
  tokens = min (l.burst * l.cost) (l.tokens + (now - l.last_refill));
  last_refill = now;
}

-- `_consume`: the wait, with the clock read at `now` by `_refill` and at `later` for the reservation
unfoldable pub consume : ℕ → ℕ → ℕ → Limiter → ℕ × Limiter
unfolding refill
consume n now later l =
    if l.mock_mode
    then (0, l)
    else let f = refill now l in
      let need = n * l.cost in
      if leb need f.tokens
      then (0, record f { tokens = f.tokens - need })
      else let scheduled = max f.next_release later + (need - f.tokens) in
        (scheduled - later, record f { tokens = 0; next_release = scheduled })

unfoldable pub available_tokens : ℕ → Limiter → ℕ × Limiter
unfolding refill
available_tokens now l = let f = refill now l in (f.tokens, f)

-- how `acquire` ends: at once, after a sleep, or by `asyncio.TimeoutError`
pub data Grant : Type 0 where
  immediate : Grant
  slept_for : ℕ → Grant
  timed_out : Grant

abbrev pub exceeds : ℕ → Option ℕ → Bool
exceeds wait none = false
exceeds wait (some timeout) = ltb timeout wait

-- `acquire`, with the count of time-outs beside the limiter
unfoldable pub acquire : ℕ → Option ℕ → ℕ → ℕ → Limiter × ℕ → Grant × (Limiter × ℕ)
unfolding consume
acquire n timeout now later (l, timeouts) =
    let (wait, l') = consume n now later l in
    if wait == 0
    then (immediate, (l', timeouts))
    else if exceeds wait timeout
    then (timed_out, (l', timeouts + 1))
    else (slept_for wait, (l', timeouts))
