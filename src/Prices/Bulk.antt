-- ===== src/Prices/Bulk.antt =====
-- services/kis_price.py, `fetch_prices_parallel`: the prices of many tickers, and the flag that turns
-- the broker off.
pub mod Known
pub mod Silenced
use the_wealth.Base.{
  ℕ, ◌+◌, ◌*◌, Bool, true, false, ◌&&◌, Option, none, some, List, [], ◌∷◌, ◌++◌, String, ltb, leb,
  length, if◌then◌else◌,
}
use the_wealth.Base.Int.{ℤ}
use the_wealth.Base.Text.{Dict, str_eq, insert}
use the_wealth.Outcome.{
  Result, ok, raise, http_exception, multiple_results_found, runtime_error, value_error,
  transport_error, other_error,
}
use the_wealth.Cache.{Fallback}
use the_wealth.Health.{KisAvailabilityState, set_kis_availability}
use the_wealth.Prices.{Now, cache_price, get_cached_price, is_positive}
use the_wealth.Prices.Quote.{
  Answer, DomesticOutput, OverseasOutput, fetch_domestic_price, fetch_overseas_price,
}

-- what a request for one ticker meets: the token, and the broker's answer in either market
pub record Meets : Type 0 where
  pub token : Result String
  pub domestic : Answer DomesticOutput
  pub overseas : Answer OverseasOutput

-- the cache, the flag, and the tickers that the broker was asked for
pub record PriceState : Type 0 where
  pub prices : Fallback ℤ
  pub availability : KisAvailabilityState
  pub asked : List String

-- an entry of `results`
abbrev pub fetch_result : (String → Option ℤ) → String → Meets → Result (Option ℤ)
fetch_result decimal market m =
    if str_eq market "domestic"
    then fetch_domestic_price decimal m.token m.domestic
    else fetch_overseas_price decimal m.token m.overseas

-- a connection that fails, a value that cannot be read, or `None`
abbrev pub network_failure : Result (Option ℤ) → ℕ
network_failure (ok none) = 1
network_failure (ok (some price)) = 0
network_failure (raise transport_error) = 1
network_failure (raise value_error) = 1
network_failure (raise runtime_error) = 0
network_failure (raise (http_exception status)) = 0
network_failure (raise multiple_results_found) = 0
network_failure (raise other_error) = 0

abbrev pub network_failures : Dict (Result (Option ℤ)) → ℕ
network_failures [] = 0
network_failures ((ticker, r) ∷ rows) = network_failure r + network_failures rows

-- `total > 0 and network_failures / total >= 0.8`
abbrev pub is_bulk_failure : Dict (Result (Option ℤ)) → Bool
is_bulk_failure rows =
    let total = length rows in ltb 0 total && leb (8 * total) (10 * network_failures rows)

abbrev pub results : (String → Option ℤ) → String → Dict Meets → Dict (Result (Option ℤ))
results decimal market [] = []
results decimal market ((ticker, m) ∷ rows) =
    (ticker, fetch_result decimal market m) ∷ results decimal market rows

abbrev pub asked_tickers : Dict Meets → List String
asked_tickers [] = []
asked_tickers ((ticker, m) ∷ rows) = ticker ∷ asked_tickers rows

module _ (now : Now) where
  -- the loop of the cache mode
  unfoldable pub cached_prices :
      List String → Dict (Option ℤ) → Fallback ℤ → Dict (Option ℤ) × Fallback ℤ
  cached_prices [] price_map c = (price_map, c)
  cached_prices (ticker ∷ tickers) price_map c =
      let (cached, c') = get_cached_price now ticker c in
      cached_prices tickers (insert ticker cached price_map) c'

  -- one round of the loop over the results: the entry of the ticker
  abbrev pub price_entry : String → Result (Option ℤ) → Fallback ℤ → Option ℤ × Fallback ℤ
  price_entry ticker (raise fault) c = get_cached_price now ticker c
  price_entry ticker (ok none) c = get_cached_price now ticker c
  price_entry ticker (ok (some price)) c =
      if is_positive price
      then (some price, cache_price now ticker price c)
      else get_cached_price now ticker c

  unfoldable pub fetched_prices :
      Dict (Result (Option ℤ)) → Dict (Option ℤ) → Fallback ℤ → Dict (Option ℤ) × Fallback ℤ
  fetched_prices [] price_map c = (price_map, c)
  fetched_prices ((ticker, r) ∷ rows) price_map c =
      let (price, c') = price_entry ticker r c in
      fetched_prices rows (insert ticker price price_map) c'

  abbrev pub with_prices : Dict (Option ℤ) × Fallback ℤ → PriceState → Dict (Option ℤ) × PriceState
  with_prices (price_map, c) s = (price_map, record s { prices = c })

  -- The tickers with what the broker answers to each.
  unfoldable pub fetch_prices_parallel :
      (String → Option ℤ) → String → Dict Meets → PriceState → Dict (Option ℤ) × PriceState
  unfolding cached_prices fetched_prices
  fetch_prices_parallel decimal market tickers s =
      let rows = results decimal market tickers in
      if s.availability.is_available
      then (let s' = record s { asked = s.asked ++ asked_tickers tickers } in
          if is_bulk_failure rows
          then with_prices (cached_prices (asked_tickers tickers) [] s.prices) (record s' {
            availability =
                set_kis_availability false "runtime: bulk connect failure" s.availability;
          })
          else with_prices (fetched_prices rows [] s.prices) s')
      else with_prices (cached_prices (asked_tickers tickers) [] s.prices) s
