-- ===== src/Prices.antt =====
-- services/kis_price.py: the prices of the broker behind their cache, with times to live that follow
-- the hours of the market.
pub mod Quote
pub mod Daily
pub mod Detail
pub mod Current
pub mod Bulk
pub mod Flight
use Prim.Native.String.{◌++◌ as str_append}
use the_wealth.Base.{
  ℕ, Bool, true, false, ◌&&◌, ◌||◌, Option, none, some, String, ◌==◌, ltb, leb, if◌then◌else◌,
}
use the_wealth.Base.Int.{ℤ, pos, ltb_ℤ}
use the_wealth.Cache.{Fallback, get, setex}

-- the time in Seoul, with the seconds that the cache's clock shows
pub record Now : Type 0 where
  pub seconds : ℕ
  pub weekday : ℕ
  pub hour : ℕ
  pub minute : ℕ

-- `a <= b` on tuples of an hour and a minute
abbrev pub leb_time : ℕ × ℕ → ℕ × ℕ → Bool
leb_time (h, m) (h', m') = ltb h h' || ((h == h') && leb m m')

abbrev pub is_market_open : Now → Bool
is_market_open now =
    if leb 5 now.weekday
    then false
    else leb_time (9, 0) (now.hour, now.minute) && leb_time (now.hour, now.minute) (15, 30)

abbrev pub get_holdings_ttl : Now → ℕ
get_holdings_ttl now = if is_market_open now then 60 else 300

abbrev pub get_adaptive_ttl : Now → ℕ
get_adaptive_ttl now = if is_market_open now then 300 else 86400

abbrev pub price_key : String → String
price_key ticker = str_append "price:" ticker

-- The keys of prices, of details and of their locks begin differently: three stores.
pub record PriceCaches (Payload : Type 0) : Type 0 where
  pub prices : Fallback ℤ
  pub details : Fallback Payload
  pub locks : Fallback String

-- `_cache_price`
unfoldable pub cache_price : Now → String → ℤ → Fallback ℤ → Fallback ℤ
cache_price now ticker price c = setex now.seconds (price_key ticker) (get_adaptive_ttl now) price c

-- `_get_cached_price`
unfoldable pub get_cached_price : Now → String → Fallback ℤ → Option ℤ × Fallback ℤ
get_cached_price now ticker c = get now.seconds (price_key ticker) c

-- `price > 0`
abbrev pub is_positive : ℤ → Bool
is_positive price = ltb_ℤ (pos 0) price

-- `ttl if ttl is not None else get_holdings_ttl()`
abbrev pub effective_ttl : Now → Option ℕ → ℕ
effective_ttl now none = get_holdings_ttl now
effective_ttl now (some ttl) = ttl
