-- ===== src/Portfolios/Priced/Stale.antt =====
-- What the cache of responses shows, until it expires or is invalidated.
use the_wealth.Base.{ℕ, ◌+◌, ◌≤◌, ◌≡◌, refl, sym, ap, ◌∙◌, Option, none, some, List, String}
use the_wealth.Base.Int.{ℤ}
use the_wealth.Base.Text.{str_eq_refl}
use the_wealth.Cache.{get, setex}
use the_wealth.Cache.Laws.{live, delete-live}
use the_wealth.Prices.{Now}
use the_wealth.Prices.Current.Reuse.{live-setex, get-value}
use the_wealth.Portfolios.{PortfolioTables}
use the_wealth.Portfolios.Priced.{
  PricedPortfolio, PricedCaches, Quotes, pwp_key, pwp_cache_ttl, compute_priced,
  list_portfolios_with_prices, invalidate_portfolios_with_prices_cache,
}

module _ (decimal : String → Option ℤ) (now : Now) (quotes : Quotes)
    (decrypt : String → Option String) (user : ℕ) (db : PortfolioTables) (c : PricedCaches) where
  list-live :
      (rows : List PricedPortfolio)
      → live now.seconds (pwp_key user) c.responses ≡ some rows
      → (list_portfolios_with_prices decimal now quotes decrypt user db c).0 ≡ rows
  unfolding list_portfolios_with_prices
  list-live rows h = rw (get-value now.seconds (pwp_key user) c.responses, h) refl

  list-absent :
      live now.seconds (pwp_key user) c.responses ≡ none
      → let computed = compute_priced decimal now quotes decrypt user db (c.prices, c.rates) in
        ((list_portfolios_with_prices decimal now quotes decrypt user db c).0 ≡ computed.0)
        × ((list_portfolios_with_prices decimal now quotes decrypt user db c).1.responses
            ≡ setex now.seconds
                (pwp_key user)
                pwp_cache_ttl
                computed.0
                (get now.seconds (pwp_key user) c.responses).1)
  unfolding list_portfolios_with_prices
  list-absent h = rw (get-value now.seconds (pwp_key user) c.responses ∙ h) (refl, refl)

-- Where nothing is cached, what is computed is shown again for thirty seconds, whatever the tables and
-- the broker say meanwhile; but once the user's response is invalidated, what the tables and the broker
-- say then is computed and shown.
pub list_portfolios_with_prices-stale :
    (decimal : String → Option ℤ) (now later : Now) (quotes quotes' : Quotes)
    (decrypt : String → Option String) (user : ℕ) (db db' : PortfolioTables) (c : PricedCaches)
    → live now.seconds (pwp_key user) c.responses ≡ none
    → later.seconds ≤ now.seconds + pwp_cache_ttl
    → let (rows, c') = list_portfolios_with_prices decimal now quotes decrypt user db c in
      let cleared = record c' {
        responses = invalidate_portfolios_with_prices_cache user c'.responses;
      } in
      (rows ≡ (compute_priced decimal now quotes decrypt user db (c.prices, c.rates)).0)
      × ((list_portfolios_with_prices decimal later quotes' decrypt user db' c').0 ≡ rows)
      × ((list_portfolios_with_prices decimal later quotes' decrypt user db' cleared).0
          ≡ (compute_priced decimal later quotes' decrypt user db' (c'.prices, c'.rates)).0)
unfolding invalidate_portfolios_with_prices_cache
list_portfolios_with_prices-stale decimal now later quotes quotes' decrypt user db db' c absent h =
    let (rows, c') = list_portfolios_with_prices decimal now quotes decrypt user db c in
    let cleared = record c' {
      responses = invalidate_portfolios_with_prices_cache user c'.responses;
    } in
    let (first, stored) = list-absent decimal now quotes decrypt user db c absent in
    let s = (get now.seconds (pwp_key user) c.responses).1 in
    let kept : live later.seconds (pwp_key user) c'.responses ≡ some rows =
      ap (live later.seconds (pwp_key user))
        (stored ∙ ap (λ r. setex now.seconds (pwp_key user) pwp_cache_ttl r s) (sym first))
      ∙ live-setex now.seconds later.seconds (pwp_key user) pwp_cache_ttl rows s h in
    let gone : live later.seconds (pwp_key user) cleared.responses ≡ none =
      delete-live later.seconds (pwp_key user) (pwp_key user) c'.responses
      ∙ rw (str_eq_refl (pwp_key user)) refl in
    (
      first,
      list-live decimal later quotes' decrypt user db' c' rows kept,
      (list-absent decimal later quotes' decrypt user db' cleared gone).0,
    )
