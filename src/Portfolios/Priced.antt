-- ===== src/Portfolios/Priced.antt =====
-- api/portfolios.py, `list_portfolios_with_prices`: the portfolios of a user at the broker's prices,
-- behind a cache.
pub mod Stale
use Prim.Native.String.{◌++◌ as str_append}
use the_wealth.Base.{
  ℕ, Bool, true, false, ◌&&◌, ◌||◌, not, Option, none, some, List, [], ◌∷◌, ◌++◌, map, String, ◌==◌,
  select, if◌then◌else◌,
}
use the_wealth.Base.Int.{ℤ, pos}
use the_wealth.Base.Text.{Dict, lookup, insert, contains}
use the_wealth.Base.Digits.{show}
use the_wealth.Outcome.{Result, ok, raise}
use the_wealth.Cache.{Fallback, get, setex, delete}
use the_wealth.Orders.{is_domestic}
use the_wealth.Store.{Portfolio, Holding, KisAccount}
use the_wealth.Settlement.Query.{linked_account, decrypt_keys}
use the_wealth.Fx.{fetch_usd_krw_rate}
use the_wealth.Prices.{Now, is_positive}
use the_wealth.Prices.Quote.{Answer, DomesticOutput, OverseasOutput, DetailOutput, truthy_or}
use the_wealth.Prices.Current.{get_or_fetch_domestic_price, get_or_fetch_overseas_price}
use the_wealth.Portfolios.{
  PortfolioTables, PortfolioResponse, get_account, shown_name, portfolio_response, contains_id,
  order_portfolios, portfolios_of,
}
use the_wealth.Portfolios.Value.{Valued, portfolio_value}

-- `PortfolioWithPricesResponse`
pub record PricedPortfolio : Type 0 where
  pub portfolio : PortfolioResponse
  pub value : Valued
  pub exchange_rate : Option ℤ

-- the caches of the responses, of the prices and of the exchange rate, whose keys differ
pub record PricedCaches : Type 0 where
  pub responses : Fallback (List PricedPortfolio)
  pub prices : Fallback ℤ
  pub rates : Fallback ℤ

abbrev pub pwp_key : ℕ → String
pwp_key user = str_append "pwp:user:" (show user)

abbrev pub pwp_cache_ttl : ℕ
pwp_cache_ttl = 30

-- `_MARKET_MAP`
abbrev pub market_map : Dict String
market_map =
    ("NASD", "NAS")
    ∷ ("NYSE", "NYS")
    ∷ ("AMEX", "AMS")
    ∷ ("SEHK", "HKS")
    ∷ ("TKSE", "TSE")
    ∷ ("SHAA", "SHS")
    ∷ ("SZAA", "SZS")
    ∷ ("HASE", "HNX")
    ∷ ("VNSE", "HSX")
    ∷ []

abbrev pub or_default : Option String → String → String
or_default none default = default
or_default (some value) default = value

-- `_MARKET_MAP.get(h.market or "", h.market or "NAS")`
abbrev pub price_market : Option String → String
price_market market = or_default (lookup (truthy_or market "") market_map) (truthy_or market "NAS")

-- `all_domestic` as the keys of a dict, and `ticker_to_market`, whose keys are `all_overseas`
abbrev pub split_tickers : List Holding → Dict String × Dict String → Dict String × Dict String
split_tickers [] sets = sets
split_tickers (h ∷ hs) (domestic, overseas) =
    if is_domestic h.ticker
    then split_tickers hs (insert h.ticker "" domestic, overseas)
    else split_tickers hs (domestic, insert h.ticker (price_market h.market) overseas)

-- the account of the first portfolio whose account is found
abbrev pub linked_to : List KisAccount → List Portfolio → Option KisAccount
linked_to accounts [] = none
linked_to accounts (p ∷ ps) = elim (linked_account p.kis_account_id) [
  | none ↦ linked_to accounts ps
  | some i ↦ elim (get_account i accounts) [ none ↦ linked_to accounts ps | some a ↦ some a ]
]

-- `bool(rows)`
abbrev pub is_empty : {A : Type 0} → List A → Bool
is_empty [] = true
is_empty (a ∷ as') = false

-- the first row of a query
abbrev pub first_row : {A : Type 0} → List A → Option A
first_row [] = none
first_row (a ∷ as') = some a

-- or any account of the user's, where there are holdings
abbrev pub account_for : ℕ → List KisAccount → List Portfolio → List Holding → Option KisAccount
account_for user accounts portfolios holdings = elim (linked_to accounts portfolios) [
  | some a ↦ some a
  | none ↦ if is_empty holdings then none else first_row (select (λ a. a.user_id == user) accounts)
]

-- what the broker answers: the token for the keys, the prices, and the exchange rate
pub record Quotes : Type 0 where
  pub token : String × String → Result String
  pub domestic : String → Answer DomesticOutput
  pub overseas : String → String → Answer OverseasOutput
  pub details : String → String → Answer DetailOutput
  pub fx : Answer (Option String)

-- `if isinstance(price, Decimal) and price > 0: prices[ticker] = price`
abbrev pub keep_quoted : String → Result (Option ℤ) → Dict ℤ → Dict ℤ
keep_quoted ticker (raise fault) prices = prices
keep_quoted ticker (ok none) prices = prices
keep_quoted ticker (ok (some price)) prices =
    if is_positive price then insert ticker price prices else prices

-- `if isinstance(fx, Decimal) and fx > 0: exchange_rate = fx`
abbrev pub rate_or : ℤ → ℤ → ℤ
rate_or fx default = if is_positive fx then fx else default

-- `Decimal("1450")`
abbrev pub default_rate : ℤ
default_rate = pos 14500000

module _ (decimal : String → Option ℤ) (now : Now) (quotes : Quotes) where
  -- The tickers are asked for together; each reads and writes the cache under its own key only, and so
  -- they are taken one by one.
  unfoldable pub gather_domestic :
      Result String → Dict String → Dict ℤ × Fallback ℤ → Dict ℤ × Fallback ℤ
  gather_domestic token [] (prices, c) = (prices, c)
  gather_domestic token ((t, _) ∷ ts) (prices, c) =
      let (price, c') =
        get_or_fetch_domestic_price decimal token now (quotes.domestic t) t none c in
      gather_domestic token ts (keep_quoted t price prices, c')

  unfoldable pub gather_overseas :
      Result String → Dict String → Dict ℤ × Fallback ℤ → Dict ℤ × Fallback ℤ
  gather_overseas token [] (prices, c) = (prices, c)
  gather_overseas token ((t, market) ∷ ts) (prices, c) =
      let (price, c') =
        get_or_fetch_overseas_price decimal token now (quotes.overseas market t)
          (quotes.details market t) t none c in
      gather_overseas token ts (keep_quoted t price prices, c')

  -- the exchange rate, asked for where there is a position abroad
  abbrev pub exchange_rate_for : Dict String → Fallback ℤ → ℤ × Fallback ℤ
  exchange_rate_for [] rates = (default_rate, rates)
  exchange_rate_for (t ∷ ts) rates = fetch_usd_krw_rate decimal now.seconds quotes.fx rates

  -- the constant stays where nobody asked
  abbrev pub rate_taken : Dict String → (ℤ → ℤ) → ℤ → ℤ
  rate_taken [] take_rate fx = default_rate
  rate_taken (t ∷ ts) take_rate fx = take_rate fx

  -- the prices and the exchange rate, where an account is there and its keys can be read; `take_rate`
  -- says what is made of a rate that was given, and the caches are those of prices and of rates
  abbrev pub fetch_all :
      (ℤ → ℤ)
      → (String → Option String)
      → Option KisAccount
      → List Holding
      → Fallback ℤ × Fallback ℤ
      → Dict ℤ × ℤ × (Fallback ℤ × Fallback ℤ)
  fetch_all take_rate decrypt none holdings c = ([], default_rate, c)
  fetch_all take_rate decrypt (some acct) holdings (c, rates) = elim (decrypt_keys decrypt acct) [
    | none ↦ ([], default_rate, (c, rates))
    | some keys ↦
        let (domestic, overseas) = split_tickers holdings ([], []) in
        let (prices, c') =
          gather_overseas (quotes.token keys) overseas
            (gather_domestic (quotes.token keys) domestic ([], c)) in
        let (fx, rates') = exchange_rate_for overseas rates in
        (prices, rate_taken overseas take_rate fx, (c', rates'))
  ]

  -- one entry of the response
  abbrev pub priced_portfolio :
      List KisAccount → List Holding → Dict ℤ → ℤ → Option ℤ → Portfolio → PricedPortfolio
  priced_portfolio accounts holdings prices exchange_rate shown_rate p = record {
    portfolio = portfolio_response (shown_name accounts p) p.kis_account_id holdings p;
    value = portfolio_value prices exchange_rate (select (λ h. h.portfolio_id == p.id) holdings);
    exchange_rate = shown_rate;
  }

  -- what is computed behind the cache, and the caches of prices and of rates
  unfoldable pub compute_priced :
      (String → Option String)
      → ℕ
      → PortfolioTables
      → Fallback ℤ × Fallback ℤ
      → List PricedPortfolio × (Fallback ℤ × Fallback ℤ)
  unfolding gather_domestic gather_overseas
  compute_priced decrypt user db c =
      let portfolios = order_portfolios (portfolios_of user db.portfolios) in
      let ids = map (λ p. p.id) portfolios in
      let holdings = select (λ h. contains_id h.portfolio_id ids) db.holdings in
      let acct = account_for user db.accounts portfolios holdings in
      let (prices, exchange_rate, c') =
        fetch_all (λ fx. rate_or fx default_rate) decrypt acct holdings c in
      let (_, overseas) = split_tickers holdings ([], []) in
      let shown_rate : Option ℤ = elim acct [
        | none ↦ none
        | some a ↦ if is_empty overseas then none else some exchange_rate
      ] in
      (map (priced_portfolio db.accounts holdings prices exchange_rate shown_rate) portfolios, c')

  abbrev pub or_compute :
      (String → Option String)
      → ℕ
      → PortfolioTables
      → Option (List PricedPortfolio)
      → PricedCaches
      → List PricedPortfolio × PricedCaches
  or_compute decrypt user db (some cached) c = (cached, c)
  or_compute decrypt user db none c =
      let (results, (prices, rates)) = compute_priced decrypt user db (c.prices, c.rates) in
      (
        results,
        record {
          responses = setex now.seconds (pwp_key user) pwp_cache_ttl results c.responses;
          prices = prices;
          rates = rates;
        },
      )

  unfoldable pub list_portfolios_with_prices :
      (String → Option String)
      → ℕ
      → PortfolioTables
      → PricedCaches
      → List PricedPortfolio × PricedCaches
  unfolding compute_priced
  list_portfolios_with_prices decrypt user db c =
      let (cached, responses) = get now.seconds (pwp_key user) c.responses in
      or_compute decrypt user db cached (record c { responses = responses })

unfoldable pub invalidate_portfolios_with_prices_cache :
    ℕ → Fallback (List PricedPortfolio) → Fallback (List PricedPortfolio)
invalidate_portfolios_with_prices_cache user c = delete (pwp_key user) c
