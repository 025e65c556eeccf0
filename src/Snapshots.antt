-- ===== src/Snapshots.antt =====
-- services/price_snapshot.py: the closing prices of each day, and the last one before a day. Prices
-- are exact numbers here; dates are numbered.
pub mod Kept
use the_wealth.Base.{
  ℕ, ◌+◌, Bool, true, false, ◌&&◌, Option, none, some, List, [], ◌∷◌, String, ◌==◌, ltb, leb,
  length, if◌then◌else◌,
}
use the_wealth.Base.Int.{ℤ}
use the_wealth.Base.Text.{Dict, insert, str_eq}
use the_wealth.Store.{PriceSnapshot}

-- `OhlcvData`
pub record OhlcvData : Type 0 where
  pub open_price : Option ℤ
  pub high : Option ℤ
  pub low : Option ℤ
  pub close : ℤ
  pub volume : Option ℕ

-- the row of a ticker and a date
abbrev pub is_snapshot : String → ℕ → PriceSnapshot → Bool
is_snapshot ticker date s = str_eq s.ticker ticker && (s.snapshot_date == date)

abbrev pub close_row : String → ℕ → ℤ → PriceSnapshot
close_row ticker date close = record {
  ticker = ticker;
  snapshot_date = date;
  open_price = none;
  high = none;
  low = none;
  close = close;
  volume = none;
}

abbrev pub ohlcv_row : String → ℕ → OhlcvData → PriceSnapshot
ohlcv_row ticker date ohlcv = record {
  ticker = ticker;
  snapshot_date = date;
  open_price = ohlcv.open_price;
  high = ohlcv.high;
  low = ohlcv.low;
  close = ohlcv.close;
  volume = ohlcv.volume;
}

-- INSERT … ON CONFLICT (ticker, snapshot_date) DO UPDATE: `update` is the SET of the statement.
abbrev pub upsert :
    (PriceSnapshot → PriceSnapshot) → PriceSnapshot → List PriceSnapshot → List PriceSnapshot
upsert update row [] = row ∷ []
upsert update row (s ∷ ss) =
    if is_snapshot row.ticker row.snapshot_date s then update s ∷ ss else s ∷ upsert update row ss

-- the values of one statement, row by row
unfoldable pub upsert_closes : ℕ → Dict ℤ → List PriceSnapshot → List PriceSnapshot
upsert_closes date [] ss = ss
upsert_closes date ((ticker, close) ∷ prices) ss =
    upsert_closes date prices
      (upsert (λ s. record s { close = close }) (close_row ticker date close) ss)

unfoldable pub upsert_ohlcv : ℕ → Dict OhlcvData → List PriceSnapshot → List PriceSnapshot
upsert_ohlcv date [] ss = ss
upsert_ohlcv date ((ticker, ohlcv) ∷ rest) ss =
    let row = ohlcv_row ticker date ohlcv in upsert_ohlcv date rest (upsert (λ s. row) row ss)

-- `save_snapshots`: the number of rows, and the table
unfoldable pub save_snapshots : ℕ → Dict ℤ → List PriceSnapshot → ℕ × List PriceSnapshot
unfolding upsert_closes
save_snapshots date [] ss = (0, ss)
save_snapshots date (p ∷ ps) ss = (length (p ∷ ps), upsert_closes date (p ∷ ps) ss)

-- `save_ohlcv_snapshots`
unfoldable pub save_ohlcv_snapshots :
    ℕ → Dict OhlcvData → List PriceSnapshot → ℕ × List PriceSnapshot
unfolding upsert_ohlcv
save_ohlcv_snapshots date [] ss = (0, ss)
save_ohlcv_snapshots date (p ∷ ps) ss = (length (p ∷ ps), upsert_ohlcv date (p ∷ ps) ss)

-- the later of two rows
abbrev pub later_close : PriceSnapshot → Option (ℕ × ℤ) → Option (ℕ × ℤ)
later_close s none = some (s.snapshot_date, s.close)
later_close s (some (date, close)) =
    if leb date s.snapshot_date then some (s.snapshot_date, s.close) else some (date, close)

-- DISTINCT ON (ticker) … ORDER BY snapshot_date DESC: the last row of a ticker before a day
abbrev pub last_close : String → ℕ → List PriceSnapshot → Option (ℕ × ℤ)
last_close ticker today [] = none
last_close ticker today (s ∷ ss) =
    if str_eq s.ticker ticker && ltb s.snapshot_date today
    then later_close s (last_close ticker today ss)
    else last_close ticker today ss

abbrev pub put_close : String → Option (ℕ × ℤ) → Dict ℤ → Dict ℤ
put_close ticker none closes = closes
put_close ticker (some (date, close)) closes = insert ticker close closes

unfoldable pub get_prev_close : List String → ℕ → List PriceSnapshot → Dict ℤ
get_prev_close [] today ss = []
get_prev_close (t ∷ ts) today ss = put_close t (last_close t today ss) (get_prev_close ts today ss)
