-- ===== src/Fx/Rates.antt =====
-- Every rate that is given is plausible.
use mathlib.Core.Path.{subst}
use the_wealth.Base.{
  ℕ, ◌+◌, ◌≡◌, refl, true, Option, none, some, List, [], ◌∷◌, String, All, ltb, inl, inr,
  Bool-cases,
}
use the_wealth.Base.Int.{ℤ}
use the_wealth.Base.Text.{str_eq, lookup, insert, erase}
use the_wealth.Cache.{Fallback, CacheEntry, evict, entry_value, get, setex}
use the_wealth.Prices.Quote.{Answer}
use the_wealth.Fx.{
  fx_cache_key, fx_stale_key, fx_cache_ttl, fx_stale_ttl, is_plausible, store_rate, answered_rate,
  or_fallback, or_source, cached_rate_or, fetch_usd_krw_rate, get_exchange_rate, cache_fx_rate,
  get_cached_fx_rate,
}

-- what the program asks of the rate: the source's answer or the rate of a balance
pub data FxRequest : Type 0 where
  fetch exchange : Answer (Option String) → FxRequest
  report : ℤ → FxRequest
  look_up : FxRequest

-- a request: the rate that it gives, where it gives one
unfoldable pub run_request :
    (String → Option ℤ) → ℕ → FxRequest → Fallback ℤ → Option ℤ × Fallback ℤ
unfolding fetch_usd_krw_rate get_exchange_rate cache_fx_rate get_cached_fx_rate
run_request decimal now (fetch reply) c =
    let (rate, c') = fetch_usd_krw_rate decimal now reply c in (some rate, c')
run_request decimal now (exchange reply) c =
    let (rate, c') = get_exchange_rate decimal now reply c in (some rate, c')
run_request decimal now (report rate) c = (none, cache_fx_rate now rate c)
run_request decimal now look_up c = let (rate, c') = get_cached_fx_rate now c in (some rate, c')

abbrev given_before : Option ℤ → List ℤ → List ℤ
given_before none rates = rates
given_before (some rate) rates = rate ∷ rates

-- requests at their times: the rates that they give
unfoldable pub rates_given : (String → Option ℤ) → List (ℕ × FxRequest) → Fallback ℤ → List ℤ
unfolding run_request
rates_given decimal [] c = []
rates_given decimal ((now, request) ∷ requests) c =
    let (given, c') = run_request decimal now request c in
    given_before given (rates_given decimal requests c')

abbrev pub IsPlausible : ℤ → Type 0
IsPlausible rate = is_plausible rate ≡ true

-- every entry of the cache is a plausible rate
abbrev pub AllPlausible : Fallback ℤ → Type 0
AllPlausible = All (λ e. IsPlausible e.1.value)

erase-AllPlausible : (k : String) (c : Fallback ℤ) → AllPlausible c → AllPlausible (erase k c)
erase-AllPlausible k [] a = tt
erase-AllPlausible k ((j, v) ∷ c) a = elim (Bool-cases (str_eq j k)) [
  | inl e ↦ rw e (erase-AllPlausible k c a.1)
  | inr e ↦ rw e (a.0, erase-AllPlausible k c a.1)
]

insert-AllPlausible :
    (k : String) (e : CacheEntry ℤ) (c : Fallback ℤ)
    → IsPlausible e.value
    → AllPlausible c
    → AllPlausible (insert k e c)
insert-AllPlausible k e [] p a = (p, tt)
insert-AllPlausible k e ((j, v) ∷ c) p a = elim (Bool-cases (str_eq j k)) [
  | inl s ↦ rw s (p, a.1)
  | inr s ↦ rw s (a.0, insert-AllPlausible k e c p a.1)
]

lookup-IsPlausible :
    (k : String) (c : Fallback ℤ) (e : CacheEntry ℤ)
    → AllPlausible c
    → lookup k c ≡ some e
    → IsPlausible e.value
lookup-IsPlausible k [] e a h = absurd (cc h)
lookup-IsPlausible k ((j, v) ∷ c) e a h = elim (Bool-cases (str_eq j k)) [
  | inl s ↦ let same : v ≡ e = cc (rw s at h) in subst (λ x. IsPlausible x.value) same a.0
  | inr s ↦ lookup-IsPlausible k c e a.1 (rw s at h)
]

evict-AllPlausible :
    (o : Option (CacheEntry ℤ)) (now : ℕ) (k : String) (c : Fallback ℤ)
    → AllPlausible c
    → AllPlausible (evict o now k c)
evict-AllPlausible none now k c a = a
evict-AllPlausible (some e) now k c a = elim (Bool-cases (ltb e.expires_at now)) [
  | inl s ↦ rw s (erase-AllPlausible k c a)
  | inr s ↦ rw s a
]

-- a rate that is plausible, from caches that hold only such, and what it leaves
abbrev IsSound : ℤ × Fallback ℤ → Type 0
IsSound (rate, c) = IsPlausible rate × AllPlausible c

abbrev IsSoundRead : Option ℤ × Fallback ℤ → Type 0
IsSoundRead (none, c) = AllPlausible c
IsSoundRead (some rate, c) = IsPlausible rate × AllPlausible c

read-IsSound :
    (o : Option (CacheEntry ℤ)) (k : String) (c : Fallback ℤ)
    → lookup k c ≡ o
    → AllPlausible c
    → IsSoundRead (entry_value o, c)
read-IsSound none k c h a = a
read-IsSound (some e) k c h a = (lookup-IsPlausible k c e a h, a)

get-IsSound : (now : ℕ) (k : String) (c : Fallback ℤ) → AllPlausible c → IsSoundRead (get now k c)
unfolding get
get-IsSound now k c a =
    let c' = evict (lookup k c) now k c in
    read-IsSound (lookup k c') k c' refl (evict-AllPlausible (lookup k c) now k c a)

store_rate-AllPlausible :
    (now : ℕ) (rate : ℤ) (c : Fallback ℤ)
    → IsPlausible rate
    → AllPlausible c
    → AllPlausible (store_rate now rate c)
unfolding store_rate setex
store_rate-AllPlausible now rate c p a =
    insert-AllPlausible fx_stale_key (record { value = rate; expires_at = now + fx_stale_ttl })
      (setex now fx_cache_key fx_cache_ttl rate c) p
      (insert-AllPlausible fx_cache_key (record { value = rate; expires_at = now + fx_cache_ttl }) c
        p a)

or_fallback-IsSound : (r : Option ℤ × Fallback ℤ) → IsSoundRead r → IsSound (or_fallback r)
or_fallback-IsSound (none, c) a = (refl, a)
or_fallback-IsSound (some rate, c) a = a

or_source-IsSound :
    (now : ℕ) (o : Option ℤ) (c : Fallback ℤ) → AllPlausible c → IsSound (or_source now o c)
or_source-IsSound now none c a =
    or_fallback-IsSound (get now fx_stale_key c) (get-IsSound now _ c a)
or_source-IsSound now (some rate) c a = elim (Bool-cases (is_plausible rate)) [
  | inl e ↦ rw e (e, store_rate-AllPlausible now rate c e a)
  | inr e ↦ rw e (or_fallback-IsSound (get now fx_stale_key c) (get-IsSound now _ c a))
]

cached_rate_or-IsSound :
    (r : Option ℤ × Fallback ℤ) (rest : Fallback ℤ → ℤ × Fallback ℤ)
    → IsSoundRead r
    → ((c : Fallback ℤ) → AllPlausible c → IsSound (rest c))
    → IsSound (cached_rate_or r rest)
cached_rate_or-IsSound (none, c) rest a h = h c a
cached_rate_or-IsSound (some rate, c) rest a h = a

run_request-IsSoundRead :
    (decimal : String → Option ℤ) (now : ℕ) (request : FxRequest) (c : Fallback ℤ)
    → AllPlausible c
    → IsSoundRead (run_request decimal now request c)
unfolding run_request fetch_usd_krw_rate get_exchange_rate cache_fx_rate get_cached_fx_rate
run_request-IsSoundRead decimal now (fetch reply) c a =
    cached_rate_or-IsSound (get now fx_cache_key c) (or_source now (answered_rate decimal reply))
      (get-IsSound now _ c a) (or_source-IsSound now (answered_rate decimal reply))
run_request-IsSoundRead decimal now (exchange reply) c a =
    cached_rate_or-IsSound (get now fx_cache_key c) (or_source now (answered_rate decimal reply))
      (get-IsSound now _ c a) (or_source-IsSound now (answered_rate decimal reply))
run_request-IsSoundRead decimal now (report rate) c a = elim (Bool-cases (is_plausible rate)) [
  | inl e ↦ rw e (store_rate-AllPlausible now rate c e a)
  | inr e ↦ rw e a
]
run_request-IsSoundRead decimal now look_up c a =
    cached_rate_or-IsSound (get now fx_cache_key c) (λ c'. or_fallback (get now fx_stale_key c'))
      (get-IsSound now _ c a)
      (λ c' a'. or_fallback-IsSound (get now fx_stale_key c') (get-IsSound now _ c' a'))

after-AllPlausible : (r : Option ℤ × Fallback ℤ) → IsSoundRead r → AllPlausible r.1
after-AllPlausible (none, c) a = a
after-AllPlausible (some rate, c) a = a.1

given_before-IsPlausible :
    (r : Option ℤ × Fallback ℤ) (rates : List ℤ)
    → IsSoundRead r
    → All IsPlausible rates
    → All IsPlausible (given_before r.0 rates)
given_before-IsPlausible (none, c) rates a h = h
given_before-IsPlausible (some rate, c) rates a h = (a.0, h)

rates_after :
    (decimal : String → Option ℤ) (requests : List (ℕ × FxRequest)) (c : Fallback ℤ)
    → AllPlausible c
    → All IsPlausible (rates_given decimal requests c)
unfolding rates_given
rates_after decimal [] c a = tt
rates_after decimal ((now, request) ∷ requests) c a =
    let (given, c') = run_request decimal now request c in
    let sound = run_request-IsSoundRead decimal now request c a in
    given_before-IsPlausible (given, c') (rates_given decimal requests c') sound
      (rates_after decimal requests c' (after-AllPlausible (given, c') sound))

-- Whatever the source answers and the balances report, at whatever times: every rate that the program
-- is given, by any sequence of requests on empty caches, is above 100.
pub rates_given-IsPlausible :
    (decimal : String → Option ℤ) (requests : List (ℕ × FxRequest))
    → All IsPlausible (rates_given decimal requests [])
rates_given-IsPlausible decimal requests = rates_after decimal requests [] tt
