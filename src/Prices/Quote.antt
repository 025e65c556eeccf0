-- ===== src/Prices/Quote.antt =====
-- services/kis_price.py and services/price_snapshot.py: what the broker's answers say of a price.
use the_wealth.Base.{ℕ, Bool, true, false, ◌||◌, Option, none, some, String, if◌then◌else◌}
use the_wealth.Base.Int.{ℤ}
use the_wealth.Base.Text.{str_eq}
use the_wealth.Outcome.{Result, ok, ◌>>=◌}
use the_wealth.Settlement.Query.{is_success}

-- What `kis_get` comes to: an exception, or a response with its body where that is JSON.
pub data Answer (Output : Type 0) : Type 0 where
  not_answered : Answer Output
  answered : ℕ → Option Output → Answer Output

-- `raise_for_status()` and `json()`: nothing where one of them raises
abbrev pub output_of : {Output : Type 0} → Answer Output → Option Output
output_of not_answered = none
output_of (answered status body) = if is_success status then body else none

-- `output.get(key, default)`
abbrev pub field_or : Option String → String → String
field_or none default = default
field_or (some text) default = text

-- `output.get(key, default) or default`
abbrev pub truthy_or : Option String → String → String
truthy_or none default = default
truthy_or (some text) default = if str_eq text "" then default else text

-- `not text or text == "0"`
abbrev pub is_missing : String → Bool
is_missing text = str_eq text "" || str_eq text "0"

-- the step that runs where a value is there
infixl 5 ◌>>?◌
abbrev pub ◌>>?◌ : {Got Made : Type 0} → Option Got → (Got → Option Made) → Option Made
none >>? next = none
some got >>? next = next got

-- the output of HHDFS00000300
pub record OverseasOutput : Type 0 where
  pub last : Option String
  pub base : Option String
  pub rate : Option String
  pub w52hgpr : Option String
  pub w52lwpr : Option String

-- the output of HHDFS76200200
pub record DetailOutput : Type 0 where
  pub detail_w52hgpr : Option String
  pub h52p : Option String
  pub detail_w52lwpr : Option String
  pub l52p : Option String

-- the output of FHKST01010100
pub record DomesticOutput : Type 0 where
  pub stck_prpr : Option String
  pub stck_sdpr : Option String
  pub prdy_ctrt : Option String
  pub w52_hgpr : Option String
  pub w52_lwpr : Option String

-- `PriceDetail` and `OverseasPriceDetail`, and the dict that is made of them
pub record PriceDetail : Type 0 where
  pub current : ℤ
  pub prev_close : Option ℤ
  pub day_change_rate : Option ℤ
  pub w52_high : Option ℤ
  pub w52_low : Option ℤ

-- `decimal` is `Decimal` of a text in a fixed unit, nothing where it raises; `token` is what
-- `get_kis_access_token` gives, outside the `try`.
module _ (decimal : String → Option ℤ) where
  abbrev pub read_price : String → Option ℤ
  read_price text = if is_missing text then none else decimal text

  -- `Decimal(text) if test else None`, where the whole answer is dropped when `Decimal` raises
  abbrev pub decimal_unless : Bool → String → Option (Option ℤ)
  decimal_unless true text = some none
  decimal_unless false text = decimal text >>? λ d. some (some d)

  unfoldable pub fetch_domestic_price : Result String → Answer DomesticOutput → Result (Option ℤ)
  fetch_domestic_price token reply = do
    t ← token
    ok (output_of reply >>? λ output. read_price (field_or output.stck_prpr "0"))

  unfoldable pub fetch_overseas_price : Result String → Answer OverseasOutput → Result (Option ℤ)
  fetch_overseas_price token reply = do
    t ← token
    ok (output_of reply >>? λ output. read_price (truthy_or output.last "0"))

  -- price_snapshot.py, `fetch_domestic_price_detail`
  unfoldable pub fetch_domestic_price_detail :
      Result String → Answer DomesticOutput → Result (Option PriceDetail)
  fetch_domestic_price_detail token reply = do
    t ← token
    ok (
        output_of reply >>? λ output.
        let current_str = field_or output.stck_prpr "0" in
        let w52_high_str = field_or output.w52_hgpr "" in
        let w52_low_str = field_or output.w52_lwpr "" in
        if is_missing current_str
        then none
        else decimal current_str >>? λ current.
            decimal (field_or output.stck_sdpr "0") >>? λ prev_close.
            decimal (field_or output.prdy_ctrt "0") >>? λ day_change_rate.
            decimal_unless (str_eq w52_high_str "") w52_high_str >>? λ w52_high.
            decimal_unless (str_eq w52_low_str "") w52_low_str >>? λ w52_low. some (record {
              current = current;
              prev_close = some prev_close;
              day_change_rate = some day_change_rate;
              w52_high = w52_high;
              w52_low = w52_low;
            }))

  -- `a or b or c`
  abbrev pub first_truthy : Option String → Option String → String → String
  first_truthy a b c = truthy_or a (truthy_or b c)

  -- the high and the low of 52 weeks, behind the second request where the first had no high
  abbrev pub w52_of : OverseasOutput → Answer DetailOutput → String × String
  w52_of output again =
      let high = truthy_or output.w52hgpr "" in
      let low = truthy_or output.w52lwpr "" in
      if is_missing high
      then elim (output_of again) [
        | none ↦ (high, low)
        | some detail ↦ (
          first_truthy detail.detail_w52hgpr detail.h52p high,
          first_truthy detail.detail_w52lwpr detail.l52p low,
        )
      ]
      else (high, low)

  -- the price, or the close of the day before where there is none
  abbrev pub price_str_of : OverseasOutput → String
  price_str_of output =
      let price_str = truthy_or output.last "" in
      if is_missing price_str then truthy_or output.base "" else price_str

  unfoldable pub fetch_overseas_price_detail :
      Result String → Answer OverseasOutput → Answer DetailOutput → Result (Option PriceDetail)
  fetch_overseas_price_detail token reply again = do
    t ← token
    ok (
        output_of reply >>? λ output.
        let price_str = price_str_of output in
        let prev_close_str = truthy_or output.base "" in
        let (w52_high_str, w52_low_str) = w52_of output again in
        if is_missing price_str
        then none
        else decimal price_str >>? λ current.
            decimal_unless (is_missing prev_close_str) prev_close_str >>? λ prev_close.
            decimal (truthy_or output.rate "0") >>? λ day_change_rate.
            decimal_unless (is_missing w52_high_str) w52_high_str >>? λ w52_high.
            decimal_unless (is_missing w52_low_str) w52_low_str >>? λ w52_low. some (record {
              current = current;
              prev_close = prev_close;
              day_change_rate = some day_change_rate;
              w52_high = w52_high;
              w52_low = w52_low;
            }))
