-- ===== src/Prices/Bulk/Silenced.antt =====
-- One ticker without a price turns the broker off for every other one.
use the_wealth.Base.{
  ℕ, ◌≡◌, refl, ap, ◌∙◌, true, false, Option, none, List, [], ◌∷◌, String, inl, inr, Bool-cases,
}
use the_wealth.Base.Int.{ℤ}
use the_wealth.Base.Text.{Dict}
use the_wealth.Outcome.{ok}
use the_wealth.Health.{responded, kis_health_recheck_job}
use the_wealth.Prices.{Now}
use the_wealth.Prices.Bulk.{Meets, PriceState, fetch_result, fetch_prices_parallel}

-- a call of `fetch_prices_parallel`
pub record Call : Type 0 where
  pub now : Now
  pub market : String
  pub tickers : Dict Meets

-- calls one after the other
unfoldable pub run_calls : (String → Option ℤ) → List Call → PriceState → PriceState
unfolding fetch_prices_parallel
run_calls decimal [] s = s
run_calls decimal (call ∷ calls) s =
    run_calls decimal calls (fetch_prices_parallel call.now decimal call.market call.tickers s).1

-- where the flag is off, a call asks nothing and leaves it off
run_calls-off :
    (decimal : String → Option ℤ) (calls : List Call) (s : PriceState)
    → s.availability.is_available ≡ false
    → ((run_calls decimal calls s).asked ≡ s.asked)
      × ((run_calls decimal calls s).availability ≡ s.availability)
unfolding run_calls fetch_prices_parallel
run_calls-off decimal [] s off = (refl, refl)
run_calls-off decimal (call ∷ calls) s off =
    let s' = (fetch_prices_parallel call.now decimal call.market call.tickers s).1 in
    let kept : (s'.asked ≡ s.asked) × (s'.availability ≡ s.availability) = rw off (refl, refl) in
    let i = run_calls-off decimal calls s' (ap (λ a. a.is_available) kept.1 ∙ off) in
    (i.0 ∙ kept.0, i.1 ∙ kept.1)

-- After a call for a single ticker whose answer holds no price, no later call asks the broker for any
-- ticker, whatever it would answer, until the job of the health check has run: where that reaches the
-- broker, the flag is on again.
pub fetch_prices_parallel-silenced :
    (now : Now) (decimal : String → Option ℤ) (market ticker : String) (m : Meets) (s : PriceState)
    (calls : List Call) (time status : ℕ) (last : Option ℕ)
    → fetch_result decimal market m ≡ ok none
    → let s' = (fetch_prices_parallel now decimal market ((ticker, m) ∷ []) s).1 in
      let end = run_calls decimal calls s' in
      (end.asked ≡ s'.asked)
      × (end.availability.is_available ≡ false)
      × ((kis_health_recheck_job time (responded status) (last, end.availability)).1.is_available
          ≡ true)
unfolding fetch_prices_parallel kis_health_recheck_job
fetch_prices_parallel-silenced now decimal market ticker m s calls time status last h =
    let s' = (fetch_prices_parallel now decimal market ((ticker, m) ∷ []) s).1 in
    let off : s'.availability.is_available ≡ false = elim (Bool-cases s.availability.is_available) [
      | inl e ↦ rw (e, h) refl
      | inr e ↦ rw e refl
    ] in
    let i = run_calls-off decimal calls s' off in
    let still : (run_calls decimal calls s').availability.is_available ≡ false =
      ap (λ a. a.is_available) i.1 ∙ off in
    (i.0, still, rw still refl)
