-- ===== src/Fx/Outlives.antt =====
-- A rate outlives its source.
use the_wealth.Base.{
  ℕ, ◌+◌, ◌≤◌, ◌≡◌, refl, ap, ◌∙◌, Bool, true, false, Option, none, some, String, ltb, inl, inr,
  Bool-cases, arith, if◌then◌else◌,
}
use the_wealth.Base.Int.{ℤ}
use the_wealth.Cache.{Fallback, get, setex}
use the_wealth.Cache.Laws.{live, get-live, setex-live}
use the_wealth.Prices.Quote.{Answer}
use the_wealth.Prices.Current.Reuse.{get-value, live-setex}
use the_wealth.Fx.{
  fx_cache_key, fx_stale_key, fx_cache_ttl, fx_stale_ttl, is_plausible, store_rate, answered_rate,
  or_source, fetch_usd_krw_rate,
}

-- whether an answer gives a rate
abbrev pub usable : Option ℤ → Bool
usable none = false
usable (some rate) = is_plausible rate

or_source-stale :
    (now : ℕ) (o : Option ℤ) (c : Fallback ℤ) (rate : ℤ)
    → usable o ≡ false
    → live now fx_stale_key c ≡ some rate
    → (or_source now o c).0 ≡ rate
or_source-stale now none c rate u h = rw (get-value now fx_stale_key c, h) refl
or_source-stale now (some r) c rate u h = rw (u, get-value now fx_stale_key c, h) refl

stored-fresh :
    (now later : ℕ) (rate : ℤ) (c : Fallback ℤ)
    → live later fx_cache_key (store_rate now rate c)
      ≡ (if ltb (now + fx_cache_ttl) later then none else some rate)
unfolding store_rate
stored-fresh now later rate c =
    setex-live now later fx_stale_key fx_cache_key fx_stale_ttl rate
      (setex now fx_cache_key fx_cache_ttl rate c)
    ∙ setex-live now later fx_cache_key fx_cache_key fx_cache_ttl rate c

stored-stale :
    (now later : ℕ) (rate : ℤ) (c : Fallback ℤ)
    → later ≤ now + fx_stale_ttl
    → live later fx_stale_key (store_rate now rate c) ≡ some rate
unfolding store_rate
stored-stale now later rate c h =
    live-setex now later fx_stale_key fx_stale_ttl rate (setex now fx_cache_key fx_cache_ttl rate c)
      h

-- A rate that the source has given, where no fresh one is cached, is given again for seven days, at
-- first from the fresh cache and then from the stale one, while the source gives nothing plausible.
pub fetch_usd_krw_rate-outlives :
    (decimal : String → Option ℤ) (now later : ℕ) (reply reply' : Answer (Option String)) (rate : ℤ)
    (c : Fallback ℤ)
    → live now fx_cache_key c ≡ none
    → answered_rate decimal reply ≡ some rate
    → is_plausible rate ≡ true
    → usable (answered_rate decimal reply') ≡ false
    → later ≤ now + fx_stale_ttl
    → let (first, c') = fetch_usd_krw_rate decimal now reply c in
      (first ≡ rate) × ((fetch_usd_krw_rate decimal later reply' c').0 ≡ rate)
unfolding fetch_usd_krw_rate
fetch_usd_krw_rate-outlives decimal now later reply reply' rate c absent answer plausible silent h =
    let c₀ = (get now fx_cache_key c).1 in
    let first : fetch_usd_krw_rate decimal now reply c ≡ (rate, store_rate now rate c₀) =
      rw (get-value now fx_cache_key c, absent, answer, plausible) refl in
    let c' = store_rate now rate c₀ in
    let kept = (get-live later later fx_cache_key fx_stale_key c' (omega arith)).1 in
    let again : (fetch_usd_krw_rate decimal later reply' c').0 ≡ rate =
      elim (Bool-cases (ltb (now + fx_cache_ttl) later)) [
        | inl e ↦
            rw (get-value later fx_cache_key c', stored-fresh now later rate c₀, e)
              (or_source-stale later (answered_rate decimal reply') (get later fx_cache_key c').1
                rate silent (kept ∙ stored-stale now later rate c₀ h))
        | inr e ↦ rw (get-value later fx_cache_key c', stored-fresh now later rate c₀, e) refl
      ] in
    (ap (λ r. r.0) first, ap (λ r. (fetch_usd_krw_rate decimal later reply' r.1).0) first ∙ again)
