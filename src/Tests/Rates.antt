-- ===== src/Tests/Rates.antt =====
-- kis_fx.py: a source that answers once and fails then.
use the_wealth.Base.{
  ℕ, ◌≡◌, refl, Option, none, some, List, [], ◌∷◌, String, All, arith, if◌then◌else◌,
}
use the_wealth.Base.Int.{ℤ, pos}
use the_wealth.Base.Text.{str_eq}
use the_wealth.Cache.{get, setex}
use the_wealth.Prices.Quote.{Answer, not_answered, answered}
use the_wealth.Fx.{fetch_usd_krw_rate}
use the_wealth.Fx.Rates.{
  FxRequest, fetch, report, look_up, rates_given, IsPlausible, rates_given-IsPlausible,
}
use the_wealth.Fx.Outlives.{fetch_usd_krw_rate-outlives}

abbrev decimal : String → Option ℤ
decimal text =
    if str_eq text "1390.5"
    then some (pos 13905000)
    else if str_eq text "99"
    then some (pos 990000)
    else none

abbrev answer : String → Answer (Option String)
answer text = answered 200 (some (some text))

-- an implausible answer and report, the constant, a report, the cache, and the stale rate
abbrev requests : List (ℕ × FxRequest)
requests =
    (10, fetch (answer "99"))
    ∷ (11, report (pos 1000000))
    ∷ (12, look_up)
    ∷ (13, report (pos 14010000))
    ∷ (14, fetch (answer "1390.5"))
    ∷ (9000, fetch (answer "99"))
    ∷ []

rates :
    rates_given decimal requests [] ≡ pos 14500000 ∷ pos 14500000 ∷ pos 14010000 ∷ pos 14010000 ∷ []
unfolding rates_given get setex
rates = refl

rates_given-IsPlausible_example : All IsPlausible (rates_given decimal requests [])
rates_given-IsPlausible_example = rates_given-IsPlausible decimal requests

fetch_usd_krw_rate-outlives_example :
    let (first, c') = fetch_usd_krw_rate decimal 100 (answer "1390.5") [] in
    (first ≡ pos 13905000) × ((fetch_usd_krw_rate decimal 90000 not_answered c').0 ≡ pos 13905000)
fetch_usd_krw_rate-outlives_example =
    fetch_usd_krw_rate-outlives decimal 100 90000 (answer "1390.5") not_answered (pos 13905000) []
      refl refl refl refl (omega arith)
