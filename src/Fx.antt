-- ===== src/Fx.antt =====
-- services/kis_fx.py: the exchange rate of the dollar, from a public source behind two caches, a fresh
-- one and one for the days when the source fails. A rate is a whole number of 10^-4.
pub mod Rates
pub mod Outlives
use the_wealth.Base.{
  ℕ, Bool, true, false, ◌&&◌, Option, none, some, List, [], ◌∷◌, String, ◌==◌, if◌then◌else◌,
}
use the_wealth.Base.Int.{ℤ, pos, ltb_ℤ}
use the_wealth.Base.Text.{str_eq}
use the_wealth.Cache.{Fallback, get, setex}
use the_wealth.Prices.Quote.{Answer, output_of, field_or, is_missing, ◌>>?◌}

abbrev pub fx_cache_key : String
fx_cache_key = "fx:USDKRW"

abbrev pub fx_stale_key : String
fx_stale_key = "fx:USDKRW:stale"

abbrev pub fx_cache_ttl : ℕ
fx_cache_ttl = 3600

abbrev pub fx_stale_ttl : ℕ
fx_stale_ttl = 604800

-- `Decimal("1450")`
abbrev pub fx_fallback_rate : ℤ
fx_fallback_rate = pos 14500000

-- `rate > 100`
abbrev pub is_plausible : ℤ → Bool
is_plausible rate = ltb_ℤ (pos 1000000) rate

-- the two writes
unfoldable pub store_rate : ℕ → ℤ → Fallback ℤ → Fallback ℤ
store_rate now rate c =
    setex now fx_stale_key fx_stale_ttl rate (setex now fx_cache_key fx_cache_ttl rate c)

-- the stale rate, or the constant
abbrev pub or_fallback : Option ℤ × Fallback ℤ → ℤ × Fallback ℤ
or_fallback (some stale, c) = (stale, c)
or_fallback (none, c) = (fx_fallback_rate, c)

-- The rate in an answer: `text` is that of `rates.KRW`, where there is one. An exception, also of
-- `Decimal`, is caught.
abbrev pub answered_rate : (String → Option ℤ) → Answer (Option String) → Option ℤ
answered_rate decimal reply = output_of reply >>? λ text.
    let rate_str = field_or text "0" in if is_missing rate_str then none else decimal rate_str

-- behind the fresh cache
abbrev pub or_source : ℕ → Option ℤ → Fallback ℤ → ℤ × Fallback ℤ
or_source now none c = or_fallback (get now fx_stale_key c)
or_source now (some rate) c =
    if is_plausible rate
    then (rate, store_rate now rate c)
    else or_fallback (get now fx_stale_key c)

-- `if cached: return …`
abbrev pub cached_rate_or : Option ℤ × Fallback ℤ → (Fallback ℤ → ℤ × Fallback ℤ) → ℤ × Fallback ℤ
cached_rate_or (some cached, c) rest = (cached, c)
cached_rate_or (none, c) rest = rest c

unfoldable pub fetch_usd_krw_rate :
    (String → Option ℤ) → ℕ → Answer (Option String) → Fallback ℤ → ℤ × Fallback ℤ
unfolding store_rate
fetch_usd_krw_rate decimal now reply c =
    cached_rate_or (get now fx_cache_key c) (or_source now (answered_rate decimal reply))

-- `get_exchange_rate`, with a client of its own
unfoldable pub get_exchange_rate :
    (String → Option ℤ) → ℕ → Answer (Option String) → Fallback ℤ → ℤ × Fallback ℤ
unfolding fetch_usd_krw_rate
get_exchange_rate decimal now reply c = fetch_usd_krw_rate decimal now reply c

unfoldable pub cache_fx_rate : ℕ → ℤ → Fallback ℤ → Fallback ℤ
unfolding store_rate
cache_fx_rate now rate c = if is_plausible rate then store_rate now rate c else c

unfoldable pub get_cached_fx_rate : ℕ → Fallback ℤ → ℤ × Fallback ℤ
get_cached_fx_rate now c =
    cached_rate_or (get now fx_cache_key c) (λ c'. or_fallback (get now fx_stale_key c'))

-- models/fx_rate_snapshot.py; the dates are numbered
pub record FxRateSnapshot : Type 0 where
  pub currency_pair : String
  pub rate : ℤ
  pub snapshot_date : ℕ

-- INSERT … ON CONFLICT (currency_pair, snapshot_date) DO UPDATE SET rate
abbrev pub upsert_rate : FxRateSnapshot → List FxRateSnapshot → List FxRateSnapshot
upsert_rate row [] = row ∷ []
upsert_rate row (s ∷ ss) =
    if str_eq s.currency_pair row.currency_pair && (s.snapshot_date == row.snapshot_date)
    then record s { rate = row.rate } ∷ ss
    else s ∷ upsert_rate row ss

-- `saved` says whether the database takes the statement; where it raises, the session is rolled back.
unfoldable pub save_fx_rate_snapshot :
    Bool → ℕ → String → ℤ → List FxRateSnapshot → Bool × List FxRateSnapshot
save_fx_rate_snapshot false today pair rate ss = (false, ss)
save_fx_rate_snapshot true today pair rate ss =
    (true, upsert_rate (record { currency_pair = pair; rate = rate; snapshot_date = today }) ss)
