-- ===== src/Prices/Daily.antt =====
-- services/kis_price.py, `fetch_domestic_daily_ohlcv` and `fetch_overseas_daily_ohlcv`: the prices of
-- a day.
use the_wealth.Base.{ℕ, Option, none, some, List, [], ◌∷◌, String, if◌then◌else◌}
use the_wealth.Base.Int.{ℤ}
use the_wealth.Base.Text.{str_eq}
use the_wealth.Outcome.{Result, ok, ◌>>=◌}
use the_wealth.Prices.Quote.{Answer, output_of, field_or, is_missing, ◌>>?◌}
use the_wealth.Snapshots.{OhlcvData}

-- the first row of `output2`, whose fields have other names in either market
pub record DailyRow : Type 0 where
  pub open_text : Option String
  pub high_text : Option String
  pub low_text : Option String
  pub close_text : Option String
  pub volume_text : Option String

-- `read(row[key]) if row.get(key) else None`, where the whole row is dropped when `read` raises
abbrev pub read_if : {A : Type 0} → (String → Option A) → Option String → Option (Option A)
read_if read none = some none
read_if read (some text) =
    if str_eq text "" then some none else read text >>? λ value. some (some value)

module _ (decimal : String → Option ℤ) (integer : String → Option ℕ) where
  abbrev pub read_daily : List DailyRow → Option OhlcvData
  read_daily [] = none
  read_daily (row ∷ rows) =
      let close_str = field_or row.close_text "0" in
      if is_missing close_str
      then none
      else read_if decimal row.open_text >>? λ open_price. read_if decimal row.high_text >>? λ high.
          read_if decimal row.low_text >>? λ low. decimal close_str >>? λ close.
          read_if integer row.volume_text >>? λ volume. some (record {
            open_price = open_price;
            high = high;
            low = low;
            close = close;
            volume = volume;
          })

  unfoldable pub fetch_domestic_daily_ohlcv :
      Result String → Answer (List DailyRow) → Result (Option OhlcvData)
  fetch_domestic_daily_ohlcv token reply = do t ← token; ok (output_of reply >>? read_daily)

  unfoldable pub fetch_overseas_daily_ohlcv :
      Result String → Answer (List DailyRow) → Result (Option OhlcvData)
  fetch_overseas_daily_ohlcv token reply = do t ← token; ok (output_of reply >>? read_daily)
