-- ===== src/RateLimiter/Laws.antt =====
-- What the bucket promises, and where its reservations and its refill count the same time twice.
use native.Mathlib.Decide.{dec_lt}
use the_wealth.Base.{ap, ℕ, zero, suc, ◌+◌, ◌-◌, ◌*◌, ◌≤◌, ◌<◌, ◌≡◌, false, some, arith}
use the_wealth.RateLimiter.{Limiter, init, refill, consume, timed_out, acquire}

le-mul : (b c : ℕ) → 0 < b → c ≤ b * c
le-mul b c h = grind arith

-- the bucket is never fuller than its burst
abbrev pub IsBounded : Limiter → Type 0
IsBounded l = l.tokens ≤ l.burst * l.cost

-- Taking tokens never leaves the bucket fuller than its burst, whatever the clock reads.
pub consume-IsBounded :
    (n now later : ℕ) (l : Limiter) → IsBounded l → IsBounded (consume n now later l).1
unfolding consume
consume-IsBounded n now later l h = ground arith

-- A wait is never shorter than the deficit, and a caller that waits empties the bucket and reserves
-- a time no earlier than the last reservation.
pub consume_waits :
    (n now later : ℕ) (l : Limiter)
    → 0 < (consume n now later l).0
    → let (wait, l') = consume n now later l in
      (l'.tokens ≡ 0)
      × (l'.next_release ≡ later + wait)
      × (l.next_release + (n * l.cost - (refill now l).tokens) ≤ l'.next_release)
unfolding consume
consume_waits n now later l h = ground arith

-- A caller that times out leaves its reservation behind: the bucket is empty, the time of the last
-- reservation has moved by at least the deficit past the later of the old one and the clock, and
-- the time-out is counted.
pub acquire_timed_out :
    (n timeout now later timeouts : ℕ) (l : Limiter)
    → (acquire n (some timeout) now later (l, timeouts)).0 ≡ timed_out
    → let (grant, (l', timeouts')) = acquire n (some timeout) now later (l, timeouts) in
      (l'.tokens ≡ 0)
      × (later + timeout < l'.next_release)
      × (l.next_release + (n * l.cost - (refill now l).tokens) ≤ l'.next_release)
      × (timeouts' ≡ timeouts + 1)
unfolding acquire
acquire_timed_out n timeout now later timeouts l h = ground arith

-- the limiter after `k` callers at the time `now`
unfoldable pub callers : ℕ → ℕ → Limiter → Limiter
callers now zero l = l
callers now (suc k) l = (consume 1 now now (callers now k l)).1

-- the bucket after `k` callers, from a full one at rest
record Served (cost burst now k : ℕ) (l : Limiter) : Type 0 where
  same_cost : l.cost ≡ cost
  same_burst : l.burst ≡ burst
  live : l.mock_mode ≡ false
  refilled : l.last_refill ≡ now
  left : l.tokens ≡ (burst - k) * cost
  reserved : l.next_release ≡ now + (k - burst) * cost

sub-mul_zero : (b k c : ℕ) → k ≤ b → (k - b) * c ≡ 0
sub-mul_zero b k c h = grind arith

sub-suc-mul : (b k c : ℕ) → (b - suc k) * c ≡ (b - k) * c - c
sub-suc-mul b k c = elim (dec_lt k b) [
  | yes p ↦
      omega (arith, ap (λ (t : ℕ). t * c) (let e : b - k ≡ suc (b - suc k) = omega arith in e))
  | no p ↦ omega (arith, sub-mul_zero k b c (omega arith), sub-mul_zero (suc k) b c (omega arith))
]

suc-sub-mul : (b k c : ℕ) → b ≤ k → (suc k - b) * c ≡ (k - b) * c + c
suc-sub-mul b k c h =
    omega (arith, ap (λ (t : ℕ). t * c) (let e : suc k - b ≡ suc (k - b) = omega arith in e))

sub-mul_pos : (b k c : ℕ) → k < b → c ≤ (b - k) * c
sub-mul_pos b k c h = grind arith

mul-le_burst : (b k c : ℕ) → (b - k) * c ≤ b * c
mul-le_burst b k c = grind arith

Served-consume :
    (cost burst now k : ℕ) (l : Limiter)
    → 0 < cost
    → Served cost burst now k l
    → Served cost burst now (suc k) (consume 1 now now l).1
      × ((consume 1 now now l).0 ≡ (suc k - burst) * cost)
unfolding consume
Served-consume cost burst now k l pos v = ground (
  arith,
  sub-suc-mul burst k cost,
  suc-sub-mul burst k cost,
  sub-mul_zero burst k cost,
  sub-mul_zero burst (suc k) cost,
  sub-mul_zero k burst cost,
  sub-mul_pos burst k cost,
  mul-le_burst burst k cost,
)

Served-callers :
    (cost burst now k : ℕ)
    → 0 < cost
    → Served cost burst now k (callers now k (init cost burst false now))
unfolding callers init
Served-callers cost burst now zero pos =
    ground (arith, sub-mul_zero burst zero cost, sub-mul_zero zero burst cost)
Served-callers cost burst now (suc k) pos =
    (Served-consume cost burst now k (callers now k (init cost burst false now)) pos
      (Served-callers cost burst now k pos)).0

-- Of callers that come at one time to a new limiter that is not in mock mode, the one that finds
-- `k` before it waits the time in which k + 1 - burst tokens are refilled: none within the burst.
pub callers_staircase :
    (cost burst now k : ℕ)
    → 0 < cost
    → (consume 1 now now (callers now k (init cost burst false now))).0 ≡ (suc k - burst) * cost
callers_staircase cost burst now k pos =
    (Served-consume cost burst now k (callers now k (init cost burst false now)) pos
      (Served-callers cost burst now k pos)).1

-- A caller that comes to an empty bucket reserves the time at which one token is refilled, and a
-- caller that comes at that time passes at once: one refilled token releases two callers.
pub released_together :
    (now : ℕ) (l : Limiter)
    → l.mock_mode ≡ false
    → 0 < l.burst
    → l.tokens ≡ 0
    → l.last_refill ≡ now
    → l.next_release ≤ now
    → let (wait, l') = consume 1 now now l in
      (wait ≡ l.cost) × ((consume 1 (now + wait) (now + wait) l').0 ≡ 0)
unfolding consume
released_together now l live pos empty fresh free = ground (arith, le-mul l.burst l.cost pos)
