-- ===== src/Tests/Pricing.antt =====
-- kis_price.py and kis_health.py on a small market.
use the_wealth.Base.{
  ℕ, zero, suc, ◌≡◌, refl, sym, ap, ◌∙◌, inl, inr, Bool-cases, true, false, Option, none, some,
  List, [], ◌∷◌, String, arith,
}
use the_wealth.Base.Int.{ℤ, pos, negsuc}
use the_wealth.Base.Text.{Dict, lookup, str_eq, str_eq_iff}
use the_wealth.Outcome.{ok, raise, runtime_error}
use the_wealth.Health.{responded, kis_health_recheck_job}
use the_wealth.Prices.{Now, PriceCaches, get_holdings_ttl, get_adaptive_ttl}
use the_wealth.Prices.Quote.{
  not_answered, answered, DomesticOutput, PriceDetail, fetch_domestic_price,
  fetch_domestic_price_detail, fetch_overseas_price_detail,
}
use the_wealth.Prices.Detail.{Decimals, Payload, cache_price_detail, get_cached_price_detail}
use the_wealth.Prices.Current.{get_or_fetch_domestic_price, get_or_fetch_overseas_price}
use the_wealth.Prices.Current.Reuse.{cache_price_detail-reused}
use the_wealth.Prices.Bulk.{Meets, PriceState, fetch_prices_parallel}
use the_wealth.Prices.Bulk.Known.{shown, fetch_prices_parallel-known}
use the_wealth.Prices.Bulk.Silenced.{Call, run_calls, fetch_prices_parallel-silenced}
use the_wealth.Prices.Flight.{
  Phase, started, fetching, storing_price, returned, Moment, run_calls_in,
  get_or_fetch_domestic_price_detail, get_or_fetch_overseas_price_detail,
}
use the_wealth.Prices.Flight.Ends.{Outcome, get_or_fetch_price_detail-Outcome}
use the_wealth.Prices.Flight.Shared.{shared_turns, run_calls_in-shared}
use the_wealth.Prices.Flight.Lost.{lost_turns, run_calls_in-lost}

-- Decimals as a count of marks, an odd one for those from 0 on.
abbrev marks : ℕ → String
marks zero = ""
marks (suc n) = String.◌∷◌ "x" (String.◌∷◌ "x" (marks n))

abbrev marked : ℤ → String
marked (pos n) = String.◌∷◌ "x" (marks n)
marked (negsuc n) = String.◌∷◌ "x" (String.◌∷◌ "x" (marks n))

abbrev further : Option ℤ → Option ℤ
further none = none
further (some (pos n)) = some (pos (suc n))
further (some (negsuc n)) = some (negsuc (suc n))

abbrev count : String → Option ℤ
count String.[] = none
count (String.◌∷◌ a String.[]) = some (pos 0)
count (String.◌∷◌ a (String.◌∷◌ b String.[])) = some (negsuc 0)
count (String.◌∷◌ a (String.◌∷◌ b (String.◌∷◌ c s))) = further (count (String.◌∷◌ c s))

count-pos : (n : ℕ) → count (marked (pos n)) ≡ some (pos n)
count-pos zero = refl
count-pos (suc n) = ap further (count-pos n)

count-negsuc : (n : ℕ) → count (marked (negsuc n)) ≡ some (negsuc n)
count-negsuc zero = refl
count-negsuc (suc n) = ap further (count-negsuc n)

count-marked : (d : ℤ) → count (marked d) ≡ some d
count-marked (pos n) = count-pos n
count-marked (negsuc n) = count-negsuc n

marked-ne-empty : (d : ℤ) → str_eq (marked d) "" ≡ false
marked-ne-empty d = elim (Bool-cases (str_eq (marked d) "")) [
  | inl e ↦
      let none_read : some d ≡ none =
        sym (count-marked d) ∙ ap count ((str_eq_iff (marked d) "").0 e) in
      absurd (cc none_read)
  | inr e ↦ e
]

abbrev decimals : Decimals
decimals = record {
  str = marked;
  decimal = count;
  decimal-str = count-marked;
  str-ne-empty = marked-ne-empty;
}

-- on a Wednesday
abbrev at : ℕ → Now
at seconds = record { seconds = seconds; weekday = 2; hour = 10; minute = 0 }

-- the hours of the market, their ends included, and a Saturday
ttls :
    (get_holdings_ttl (record { seconds = 0; weekday = 4; hour = 15; minute = 30 }) ≡ 60)
    × (get_adaptive_ttl (record { seconds = 0; weekday = 4; hour = 15; minute = 31 }) ≡ 86400)
    × (get_holdings_ttl (record { seconds = 0; weekday = 0; hour = 8; minute = 59 }) ≡ 300)
    × (get_adaptive_ttl (record { seconds = 0; weekday = 5; hour = 10; minute = 0 }) ≡ 86400)
ttls = (refl, refl, refl, refl)

abbrev quote : Option String → DomesticOutput
quote price = record {
  stck_prpr = price;
  stck_sdpr = some "xxx";
  prdy_ctrt = some "x";
  w52_hgpr = some "";
  w52_lwpr = none;
}

abbrev detail : PriceDetail
detail = record {
  current = pos 2;
  prev_close = some (pos 1);
  day_change_rate = some (pos 0);
  w52_high = none;
  w52_low = none;
}

fetched :
    fetch_domestic_price_detail count (ok "T") (answered 200 (some (quote (some "xxxxx"))))
    ≡ ok (some detail)
unfolding fetch_domestic_price_detail
fetched = refl

-- a price of "0", and a reply with an error
no_price : fetch_domestic_price count (ok "T") (answered 200 (some (quote (some "0")))) ≡ ok none
unfolding fetch_domestic_price
no_price = refl

abbrev no_cache : PriceCaches Payload
no_cache = record { prices = []; details = []; locks = [] }

cache_price_detail-reused_example :
    let c' = cache_price_detail decimals (at 100) "005930" detail none no_cache in
    ((get_cached_price_detail decimals (at 150) "005930" c'.details).0 ≡ ok (some detail))
    × ((get_or_fetch_domestic_price count
          (raise runtime_error)
          (at 150)
          not_answered
          "005930"
          none
          c'.prices).0
        ≡ ok (some (pos 2)))
    × ((get_or_fetch_overseas_price count
          (raise runtime_error)
          (at 150)
          not_answered
          not_answered
          "005930"
          none
          c'.prices).0
        ≡ ok (some (pos 2)))
cache_price_detail-reused_example =
    cache_price_detail-reused decimals (at 100) (at 150) "005930" detail none no_cache
      (raise runtime_error) not_answered not_answered not_answered none (omega arith)

abbrev meets : Option String → Meets
meets price = record {
  token = ok "T";
  domestic = answered 200 (some (quote price));
  overseas = not_answered;
}

abbrev market : Dict Meets
market = ("005930", meets (some "xxxxx")) ∷ ("000660", meets none) ∷ []

abbrev state : PriceState
state = record {
  prices = ("price:000660", record { value = pos 9; expires_at = 500 }) ∷ [];
  availability = record { is_available = true; last_error = "" };
  asked = [];
}

fetch_prices_parallel-known_example :
    let (price_map, s') = fetch_prices_parallel (at 100) count "domestic" market state in
    (lookup "000660" price_map ≡ some (some (pos 9)))
    × (shown 400 "000660" s'.prices ≡ some (pos 9))
unfolding fetch_domestic_price
fetch_prices_parallel-known_example =
    fetch_prices_parallel-known (at 100) count "domestic" market state "000660" (meets none) 400
      (refl, (refl, tt)) refl (omega arith)

abbrev silent : List Call
silent = record { now = at 130; market = "domestic"; tickers = market } ∷ []

fetch_prices_parallel-silenced_example :
    let s' =
      (fetch_prices_parallel
        (at 100)
        count
        "domestic"
        (("999999", meets (some "0")) ∷ [])
        state).1 in
    let end = run_calls count silent s' in
    (end.asked ≡ s'.asked)
    × (end.availability.is_available ≡ false)
    × ((kis_health_recheck_job 140 (responded 404) (none, end.availability)).1.is_available ≡ true)
unfolding fetch_domestic_price
fetch_prices_parallel-silenced_example =
    fetch_prices_parallel-silenced (at 100) count "domestic" "999999" (meets (some "0")) state
      silent 140 404 none refl

-- the caches as the others leave them: another call holds the lock, and its detail comes at step 4
abbrev others : ℕ → PriceCaches Payload
others (suc (suc (suc (suc k)))) =
    cache_price_detail decimals (at 101) "005930" detail none no_cache
others k = record {
  prices = [];
  details = [];
  locks = ("sf_lock:price_detail:005930", record { value = "1"; expires_at = 105 }) ∷ [];
}

abbrev domestic_call : Phase
domestic_call =
    get_or_fetch_domestic_price_detail decimals "005930" none (λ k. at 101) (ok "T") not_answered
      others

abbrev overseas_call : Phase
overseas_call =
    get_or_fetch_overseas_price_detail decimals "005930" none (λ k. at 101) (ok "T") not_answered
      not_answered others

get_or_fetch_price_detail-Outcome_example :
    Outcome decimals "005930" none
      (λ k. at 101)
      (fetch_domestic_price_detail count (ok "T") not_answered)
      others
      domestic_call
    × Outcome decimals "005930" none
        (λ k. at 101)
        (fetch_overseas_price_detail count (ok "T") not_answered not_answered)
        others
        overseas_call
get_or_fetch_price_detail-Outcome_example =
    get_or_fetch_price_detail-Outcome decimals "005930" none (λ k. at 101) (ok "T") not_answered
      not_answered not_answered others

abbrev moment : ℕ → Moment
moment seconds = record { now = at seconds; reply = ok (some detail) }

abbrev in_vain : ℕ → Moment
in_vain seconds = record { now = at seconds; reply = ok none }

run_calls_in-shared_example :
    (run_calls_in decimals "005930" none
      (shared_turns
        (moment 100)
        (moment 100)
        (moment 101)
        (moment 101)
        (moment 101 ∷ [])
        (moment 102)
        (moment 102)
        (moment 102))
      (record { calls = started ∷ started ∷ []; caches = no_cache })).calls
    ≡ storing_price true detail ∷ returned (ok (some detail)) ∷ []
run_calls_in-shared_example =
    run_calls_in-shared decimals "005930" none (moment 100) (moment 100) (moment 101) (moment 101)
      (moment 101 ∷ []) (moment 102) (moment 102) (moment 102) detail no_cache refl refl
      (omega arith) (omega arith) refl refl (omega arith)

run_calls_in-lost_example :
    (run_calls_in decimals "005930" none
      (lost_turns
        (in_vain 100)
        (in_vain 100)
        (in_vain 106)
        (in_vain 106)
        (in_vain 107)
        (in_vain 107)
        (in_vain 107)
        (in_vain 107))
      (record { calls = started ∷ started ∷ started ∷ []; caches = no_cache })).calls
    ≡ returned (ok none) ∷ fetching true ∷ fetching true ∷ []
run_calls_in-lost_example =
    run_calls_in-lost decimals "005930" none (in_vain 100) (in_vain 100) (in_vain 106) (in_vain 106)
      (in_vain 107) (in_vain 107) (in_vain 107) (in_vain 107) no_cache refl refl (omega arith) refl
