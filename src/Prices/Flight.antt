-- ===== src/Prices/Flight.antt =====
-- services/kis_price.py, `get_or_fetch_domestic_price_detail` and `get_or_fetch_overseas_price_detail`:
-- calls for one ticker that run together, of which one asks the broker.
pub mod Ends
pub mod Steps
pub mod Shared
pub mod Lost
use Prim.Native.String.{◌++◌ as str_append}
use the_wealth.Base.{
  ℕ, zero, suc, ◌+◌, Bool, true, false, Option, none, some, List, [], ◌∷◌, String, ltb, get_elem?,
  set, if◌then◌else◌,
}
use the_wealth.Base.Int.{ℤ}
use the_wealth.Outcome.{Result, ok, raise}
use the_wealth.Cache.{Fallback, setex, set_nx, delete}
use the_wealth.Prices.{Now, PriceCaches, price_key, is_positive, effective_ttl}
use the_wealth.Prices.Quote.{
  Answer, DomesticOutput, OverseasOutput, DetailOutput, PriceDetail, fetch_domestic_price_detail,
  fetch_overseas_price_detail,
}
use the_wealth.Prices.Detail.{Decimals, Payload, get_cached_price_detail, store_detail}

abbrev pub singleflight_lock_ttl : ℕ
singleflight_lock_ttl = 5

abbrev pub poll_interval_ms : ℕ
poll_interval_ms = 80

abbrev pub poll_timeout_ms : ℕ
poll_timeout_ms = 3000

abbrev pub lock_key : String → String
lock_key ticker = str_append "sf_lock:price_detail:" ticker

abbrev pub Detailed : Type 0
Detailed = Result (Option PriceDetail)

-- Where a call stands, between its awaits: before the first read; before the lock; asleep before a
-- poll, `elapsed_ms` behind it; before the request; before either write; before the lock is given
-- back; and behind its end. The flag is `is_leader`.
pub data Phase : Type 0 where
  started contending : Phase
  polling : ℕ → Phase
  fetching : Bool → Phase
  storing storing_price : Bool → PriceDetail → Phase
  releasing returned : Detailed → Phase

-- what a read leads to: the end, or the next phase where nothing is cached
abbrev pub after_read : Phase → Detailed → Phase
after_read absent (raise fault) = returned (raise fault)
after_read absent (ok none) = absent
after_read absent (ok (some detail)) = returned (ok (some detail))

-- the `finally`
abbrev pub finish : Bool → Detailed → Phase
finish true end = releasing end
finish false end = returned end

abbrev pub after_fetch : Bool → Detailed → Phase
after_fetch is_leader (raise fault) = finish is_leader (raise fault)
after_fetch is_leader (ok none) = finish is_leader (ok none)
after_fetch is_leader (ok (some detail)) =
    if is_positive detail.current then storing is_leader detail else finish is_leader (ok none)

-- what a step meets: the time, and what the request for the detail comes to
pub record Moment : Type 0 where
  pub now : Now
  pub reply : Detailed

-- the calls and the caches that they share
pub record Calls : Type 0 where
  pub calls : List Phase
  pub caches : PriceCaches Payload

module _ (ds : Decimals) (ticker : String) (ttl : Option ℕ) where
  -- One step of a call, to its next await.
  unfoldable pub run_phase : Moment → Phase → PriceCaches Payload → Phase × PriceCaches Payload
  run_phase m started c =
      let (cached, details) = get_cached_price_detail ds m.now ticker c.details in
      (after_read contending cached, record c { details = details })
  run_phase m contending c =
      let (is_leader, locks) =
        set_nx m.now.seconds (lock_key ticker) singleflight_lock_ttl "1" c.locks in
      (if is_leader then fetching true else polling 0, record c { locks = locks })
  run_phase m (polling elapsed_ms) c =
      let (cached, details) = get_cached_price_detail ds m.now ticker c.details in
      if ltb elapsed_ms poll_timeout_ms
      then (
        after_read (polling (elapsed_ms + poll_interval_ms)) cached,
        record c { details = details },
      )
      else (fetching false, c)
  run_phase m (fetching is_leader) c = (after_fetch is_leader m.reply, c)
  run_phase m (storing is_leader detail) c = (
    storing_price is_leader detail,
    record c { details = store_detail ds m.now ticker detail ttl c.details },
  )
  run_phase m (storing_price is_leader detail) c = (
    finish is_leader (ok (some detail)),
    record c {
      prices =
          setex m.now.seconds (price_key ticker) (effective_ttl m.now ttl) detail.current c.prices;
    },
  )
  run_phase m (releasing end) c =
      (returned end, record c { locks = delete (lock_key ticker) c.locks })
  run_phase m (returned end) c = (returned end, c)

  -- A call among others: at its k-th step it finds the caches as the others have left them.
  unfoldable pub run_among : ℕ → (ℕ → Moment) → (ℕ → PriceCaches Payload) → ℕ → Phase → Phase
  unfolding run_phase
  run_among zero moments caches k p = p
  run_among (suc n) moments caches k p =
      run_among n moments caches (suc k) (run_phase (moments k) p (caches k)).0

  abbrev pub run_call_at : Moment → ℕ → Option Phase → Calls → Calls
  run_call_at m i none w = w
  run_call_at m i (some p) w =
      let (p', c') = run_phase m p w.caches in record w { calls = set w.calls i p'; caches = c' }

  -- the calls in a given order, each step at its moment
  unfoldable pub run_calls_in : List (ℕ × Moment) → Calls → Calls
  unfolding run_phase
  run_calls_in [] w = w
  run_calls_in ((i, m) ∷ turns) w = run_calls_in turns (run_call_at m i (get_elem? w.calls i) w)

  -- The two functions; their longest way has 45 steps. `times` says when a step is made.
  unfoldable pub get_or_fetch_domestic_price_detail :
      (ℕ → Now) → Result String → Answer DomesticOutput → (ℕ → PriceCaches Payload) → Phase
  unfolding run_among
  get_or_fetch_domestic_price_detail times token answer caches =
      let reply = fetch_domestic_price_detail ds.decimal token answer in
      run_among 45 (λ k. record { now = times k; reply = reply }) caches 0 started

  unfoldable pub get_or_fetch_overseas_price_detail :
      (ℕ → Now)
      → Result String
      → Answer OverseasOutput
      → Answer DetailOutput
      → (ℕ → PriceCaches Payload)
      → Phase
  unfolding run_among
  get_or_fetch_overseas_price_detail times token answer again caches =
      let reply = fetch_overseas_price_detail ds.decimal token answer again in
      run_among 45 (λ k. record { now = times k; reply = reply }) caches 0 started
