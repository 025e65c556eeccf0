-- ===== src/Prices/Current/Reuse.antt =====
-- A price that one call has written is what the next calls give, without the broker.
use the_wealth.Base.{ℕ, ◌+◌, ◌≤◌, ◌≡◌, refl, false, Option, some, String, ltb, arith}
use the_wealth.Base.Int.{ℤ}
use the_wealth.Base.Text.{str_eq_refl}
use the_wealth.Outcome.{Result, ok}
use the_wealth.Cache.{Fallback, get, setex}
use the_wealth.Cache.Laws.{live, get-live, setex-live}
use the_wealth.Prices.{Now, PriceCaches, price_key, get_cached_price, effective_ttl}
use the_wealth.Prices.Quote.{Answer, DomesticOutput, OverseasOutput, DetailOutput, PriceDetail}
use the_wealth.Prices.Detail.{
  Decimals, Payload, detail_key, cache_price_detail, get_cached_price_detail,
  serialize_price_detail, deserialize-serialize,
}
use the_wealth.Prices.Current.{get_or_fetch_domestic_price, get_or_fetch_overseas_price}

-- a value that was written is live in time
pub live-setex :
    {V : Type 0} (now later : ℕ) (key : String) (ttl : ℕ) (value : V) (c : Fallback V)
    → later ≤ now + ttl
    → live later key (setex now key ttl value c) ≡ some value
live-setex now later key ttl value c h =
    let in_time : ltb (now + ttl) later ≡ false = ground (arith, h) in
    rw (setex-live now later key key ttl value c, str_eq_refl key, in_time) refl

pub get-value :
    {V : Type 0} (now : ℕ) (key : String) (c : Fallback V) → (get now key c).0 ≡ live now key c
get-value now key c = (get-live now now key key c (omega arith)).0

module _ (decimal : String → Option ℤ) (token : Result String) (now : Now) (ticker : String)
    (ttl : Option ℕ) (c : Fallback ℤ) (p : ℤ)
    (h : live now.seconds (price_key ticker) c ≡ some p) where
  -- Both readers give what the cache shows.
  pub get_or_fetch_domestic_price-live :
      (reply : Answer DomesticOutput)
      → (get_or_fetch_domestic_price decimal token now reply ticker ttl c).0 ≡ ok (some p)
  unfolding get_or_fetch_domestic_price get_cached_price
  get_or_fetch_domestic_price-live reply = rw (get-value now.seconds (price_key ticker) c, h) refl

  pub get_or_fetch_overseas_price-live :
      (reply : Answer OverseasOutput) (again : Answer DetailOutput)
      → (get_or_fetch_overseas_price decimal token now reply again ticker ttl c).0 ≡ ok (some p)
  unfolding get_or_fetch_overseas_price get_cached_price
  get_or_fetch_overseas_price-live reply again =
      rw (get-value now.seconds (price_key ticker) c, h) refl

-- Until the time to live of a detail has passed, the cache gives the whole detail back, and the two
-- functions for a current price give its price, whatever the broker would have answered.
pub cache_price_detail-reused :
    (ds : Decimals) (now later : Now) (ticker : String) (d : PriceDetail) (ttl : Option ℕ)
    (c : PriceCaches Payload) (token : Result String) (reply : Answer DomesticOutput)
    (overseas : Answer OverseasOutput) (again : Answer DetailOutput) (ttl' : Option ℕ)
    → later.seconds ≤ now.seconds + effective_ttl now ttl
    → let c' = cache_price_detail ds now ticker d ttl c in
      ((get_cached_price_detail ds later ticker c'.details).0 ≡ ok (some d))
      × ((get_or_fetch_domestic_price ds.decimal token later reply ticker ttl' c'.prices).0
          ≡ ok (some d.current))
      × ((get_or_fetch_overseas_price ds.decimal token later overseas again ticker ttl' c'.prices).0
          ≡ ok (some d.current))
unfolding cache_price_detail get_cached_price_detail
cache_price_detail-reused ds now later ticker d ttl c token reply overseas again ttl' h =
    let t = effective_ttl now ttl in
    let details = setex now.seconds (detail_key ticker) t (serialize_price_detail ds d) c.details in
    let prices = setex now.seconds (price_key ticker) t d.current c.prices in
    let p = live-setex now.seconds later.seconds (price_key ticker) t d.current c.prices h in
    let q =
      live-setex now.seconds later.seconds (detail_key ticker) t (serialize_price_detail ds d)
        c.details h in
    (
      rw (get-value later.seconds (detail_key ticker) details, q) (deserialize-serialize ds d),
      get_or_fetch_domestic_price-live ds.decimal token later ticker ttl' prices d.current p reply,
      get_or_fetch_overseas_price-live ds.decimal token later ticker ttl' prices d.current p
          overseas again,
    )
