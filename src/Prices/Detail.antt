-- ===== src/Prices/Detail.antt =====
-- services/kis_price.py: details as the texts that the cache keeps.
use Prim.Native.String.{◌++◌ as str_append}
use the_wealth.Base.{ℕ, ◌≡◌, refl, false, Option, none, some, [], ◌∷◌, String, if◌then◌else◌}
use the_wealth.Base.Int.{ℤ}
use the_wealth.Base.Text.{Dict, lookup, str_eq}
use the_wealth.Outcome.{Result, ok, raise, ◌>>=◌, other_error}
use the_wealth.Cache.{Fallback, get, setex}
use the_wealth.Prices.{Now, PriceCaches, price_key, effective_ttl}
use the_wealth.Prices.Quote.{PriceDetail}

-- `str` of a `Decimal` and `Decimal` of a text, nothing where it raises `InvalidOperation`: a
-- `Decimal` is read again from its text, which is never empty.
pub record Decimals : Type 0 where
  pub str : ℤ → String
  pub decimal : String → Option ℤ
  pub decimal-str : (d : ℤ) → decimal (str d) ≡ some d
  pub str-ne-empty : (d : ℤ) → str_eq (str d) "" ≡ false

-- The JSON object of a detail; `json.dumps` and `json.loads` keep it.
abbrev pub Payload : Type 0
Payload = Dict (Option String)

abbrev pub detail_key : String → String
detail_key ticker = str_append "price_detail:" ticker

module _ (ds : Decimals) where
  open ds use {str, decimal}

  -- `str(d) if d is not None else None`
  abbrev pub str_or_none : Option ℤ → Option String
  str_or_none none = none
  str_or_none (some d) = some (str d)

  unfoldable pub serialize_price_detail : PriceDetail → Payload
  serialize_price_detail d =
      ("current", some (str d.current))
      ∷ ("prev_close", str_or_none d.prev_close)
      ∷ ("day_change_rate", str_or_none d.day_change_rate)
      ∷ ("w52_high", str_or_none d.w52_high)
      ∷ ("w52_low", str_or_none d.w52_low)
      ∷ []

  -- `Decimal(data["current"])`, with its exceptions: a missing key is caught, a null or a text that is
  -- no number is not
  abbrev pub required : Option (Option String) → Result (Option ℤ)
  required none = ok none
  required (some none) = raise other_error
  required (some (some text)) = elim (decimal text) [
    | none ↦ raise other_error
    | some d ↦ ok (some d)
  ]

  -- `Decimal(data[key]) if data.get(key) else None`
  abbrev pub optional : Option (Option String) → Result (Option ℤ)
  optional none = ok none
  optional (some none) = ok none
  optional (some (some text)) =
      if str_eq text ""
      then ok none
      else elim (decimal text) [ none ↦ raise other_error | some d ↦ ok (some d) ]

  -- with the current price, the rest of the dict
  abbrev pub read_rest : Payload → Option ℤ → Result (Option PriceDetail)
  read_rest payload none = ok none
  read_rest payload (some current) = do
    prev_close ← optional (lookup "prev_close" payload)
    day_change_rate ← optional (lookup "day_change_rate" payload)
    w52_high ← optional (lookup "w52_high" payload)
    w52_low ← optional (lookup "w52_low" payload)
    ok (
        some (record {
          current = current;
          prev_close = prev_close;
          day_change_rate = day_change_rate;
          w52_high = w52_high;
          w52_low = w52_low;
        }))

  unfoldable pub deserialize_price_detail : Payload → Result (Option PriceDetail)
  deserialize_price_detail payload = do
    current ← required (lookup "current" payload)
    read_rest payload current

  abbrev pub read_cached : Option Payload → Result (Option PriceDetail)
  read_cached none = ok none
  read_cached (some payload) = deserialize_price_detail payload

  -- `_get_cached_price_detail`
  unfoldable pub get_cached_price_detail :
      Now → String → Fallback Payload → Result (Option PriceDetail) × Fallback Payload
  get_cached_price_detail now ticker c =
      let (payload, c') = get now.seconds (detail_key ticker) c in (read_cached payload, c')

  -- The two writes of `_cache_price_detail`.
  unfoldable pub store_detail :
      Now → String → PriceDetail → Option ℕ → Fallback Payload → Fallback Payload
  store_detail now ticker d ttl c =
      setex now.seconds (detail_key ticker) (effective_ttl now ttl) (serialize_price_detail d) c

  unfoldable pub cache_price_detail :
      Now → String → PriceDetail → Option ℕ → PriceCaches Payload → PriceCaches Payload
  unfolding store_detail
  cache_price_detail now ticker d ttl c = record c {
    details = store_detail now ticker d ttl c.details;
    prices = setex now.seconds (price_key ticker) (effective_ttl now ttl) d.current c.prices;
  }

  optional-str : (d : Option ℤ) → optional (some (str_or_none d)) ≡ ok d
  optional-str none = refl
  optional-str (some d) = rw (ds.str-ne-empty d, ds.decimal-str d) refl

  -- A detail is read back from its payload, whichever of its fields are absent.
  pub deserialize-serialize :
      (d : PriceDetail) → deserialize_price_detail (serialize_price_detail d) ≡ ok (some d)
  unfolding deserialize_price_detail serialize_price_detail
  deserialize-serialize d =
      rw
        (
          ds.decimal-str d.current,
          optional-str d.prev_close,
          optional-str d.day_change_rate,
          optional-str d.w52_high,
          optional-str d.w52_low,
        )
        refl
