-- ===== src/Prices/Current.antt =====
-- services/kis_price.py: one current price, from the cache or from the broker.
pub mod Reuse
use the_wealth.Base.{ℕ, Option, none, some, String, if◌then◌else◌}
use the_wealth.Base.Int.{ℤ}
use the_wealth.Outcome.{Result, ok, raise}
use the_wealth.Cache.{Fallback, setex}
use the_wealth.Prices.{Now, price_key, get_cached_price, is_positive, effective_ttl}
use the_wealth.Prices.Quote.{
  Answer, DomesticOutput, OverseasOutput, DetailOutput, PriceDetail, fetch_domestic_price,
  fetch_overseas_price_detail,
}

-- what was fetched is written where it is positive
abbrev pub keep_price :
    Now → Option ℕ → String → Result (Option ℤ) → Fallback ℤ → Result (Option ℤ) × Fallback ℤ
keep_price now ttl ticker (raise fault) c = (raise fault, c)
keep_price now ttl ticker (ok none) c = (ok none, c)
keep_price now ttl ticker (ok (some price)) c = (
  ok (some price),
  if is_positive price
      then setex now.seconds (price_key ticker) (effective_ttl now ttl) price c
      else c,
)

-- the current price of a detail, where it is positive
abbrev pub keep_current :
    Now
    → Option ℕ
    → String
    → Result (Option PriceDetail)
    → Fallback ℤ
    → Result (Option ℤ) × Fallback ℤ
keep_current now ttl ticker (raise fault) c = (raise fault, c)
keep_current now ttl ticker (ok none) c = (ok none, c)
keep_current now ttl ticker (ok (some detail)) c =
    if is_positive detail.current
    then (
      ok (some detail.current),
      setex now.seconds (price_key ticker) (effective_ttl now ttl) detail.current c,
    )
    else (ok none, c)

-- `if cached is not None: return cached`, else what the rest of the function comes to
abbrev pub cached_or :
    Option ℤ
    → Fallback ℤ
    → (Fallback ℤ → Result (Option ℤ) × Fallback ℤ)
    → Result (Option ℤ) × Fallback ℤ
cached_or (some cached) c rest = (ok (some cached), c)
cached_or none c rest = rest c

module _ (decimal : String → Option ℤ) (token : Result String) where
  unfoldable pub get_or_fetch_domestic_price :
      Now → Answer DomesticOutput → String → Option ℕ → Fallback ℤ → Result (Option ℤ) × Fallback ℤ
  get_or_fetch_domestic_price now reply ticker ttl c =
      let (cached, c') = get_cached_price now ticker c in
      cached_or cached c' (keep_price now ttl ticker (fetch_domestic_price decimal token reply))

  unfoldable pub fetch_and_cache_domestic_price :
      Now → Answer DomesticOutput → String → Fallback ℤ → Result (Option ℤ) × Fallback ℤ
  fetch_and_cache_domestic_price now reply ticker c =
      keep_price now none ticker (fetch_domestic_price decimal token reply) c

  unfoldable pub get_or_fetch_overseas_price :
      Now
      → Answer OverseasOutput
      → Answer DetailOutput
      → String
      → Option ℕ
      → Fallback ℤ
      → Result (Option ℤ) × Fallback ℤ
  get_or_fetch_overseas_price now reply again ticker ttl c =
      let (cached, c') = get_cached_price now ticker c in
      cached_or cached c'
        (keep_current now ttl ticker (fetch_overseas_price_detail decimal token reply again))
