-- ===== src/Prices/Flight/Steps.antt =====
-- The steps of a call for a detail, an equation each.
use the_wealth.Base.{
  ℕ, ◌+◌, ◌≤◌, ◌<◌, ◌≡◌, refl, ap, ◌∙◌, Bool, true, false, Option, none, some, List, ◌∷◌, String,
  ltb, get_elem?, set, arith, inl, inr, Bool-cases,
}
use the_wealth.Base.Text.{lookup, lookup-insert, str_eq_refl}
use the_wealth.Outcome.{ok, raise}
use the_wealth.Cache.{Fallback, evict, get, set_nx, delete}
use the_wealth.Cache.Laws.{live, set_nx-live}
use the_wealth.Prices.{PriceCaches, is_positive, effective_ttl}
use the_wealth.Prices.Quote.{PriceDetail}
use the_wealth.Prices.Detail.{
  Decimals, Payload, detail_key, get_cached_price_detail, store_detail, serialize_price_detail,
  deserialize-serialize,
}
use the_wealth.Prices.Current.Reuse.{live-setex, get-value}
use the_wealth.Prices.Flight.{
  Phase, started, contending, polling, fetching, storing, storing_price, releasing, returned,
  Detailed, after_fetch, Moment, lock_key, singleflight_lock_ttl, poll_interval_ms, poll_timeout_ms,
  run_phase, run_calls_in,
}
use the_wealth.Prices.Flight.Ends.{checked}

pub get-absent :
    {V : Type 0} (now : ℕ) (key : String) (s : Fallback V)
    → lookup key s ≡ none
    → get now key s ≡ (none, s)
unfolding get
get-absent now key s h = rw (h, h) refl

pub live-absent :
    {V : Type 0} (now : ℕ) (key : String) (s : Fallback V)
    → lookup key s ≡ none
    → live now key s ≡ none
live-absent now key s h = rw h refl

-- a key that was taken is free again behind its time to live
pub live-set_nx_expired :
    {V : Type 0} (now later : ℕ) (key : String) (ttl : ℕ) (value : V) (s : Fallback V)
    → (set_nx now key ttl value s).0 ≡ true
    → now + ttl < later
    → live later key (set_nx now key ttl value s).1 ≡ none
unfolding set_nx
live-set_nx_expired now later key ttl value s taken h =
    let s' = evict (lookup key s) now key s in
    ground (
      arith,
      lookup-insert key key (record { value = value; expires_at = now + ttl }) s',
      str_eq_refl key,
    )

pub after_fetch-none :
    (r : Detailed) → checked r ≡ ok none → after_fetch true r ≡ releasing (ok none)
after_fetch-none (raise f) h = absurd (cc h)
after_fetch-none (ok none) h = refl
after_fetch-none (ok (some d)) h = elim (Bool-cases (is_positive d.current)) [
  | inl e ↦ absurd (cc (rw e at h))
  | inr e ↦ rw e refl
]

module _ (ds : Decimals) (ticker : String) (ttl : Option ℕ) where
  abbrev pub locked_at : ℕ → Fallback String → Bool × Fallback String
  locked_at time locks = set_nx time (lock_key ticker) singleflight_lock_ttl "1" locks

  -- The steps of a call, one equation each.
  pub started-absent :
      (m : Moment) (c : PriceCaches Payload)
      → lookup (detail_key ticker) c.details ≡ none
      → run_phase ds ticker ttl m started c ≡ (contending, c)
  unfolding run_phase get_cached_price_detail
  started-absent m c h = rw (get-absent m.now.seconds (detail_key ticker) c.details h) refl

  pub polling-absent :
      (m : Moment) (e : ℕ) (c : PriceCaches Payload)
      → lookup (detail_key ticker) c.details ≡ none
      → e < poll_timeout_ms
      → run_phase ds ticker ttl m (polling e) c ≡ (polling (e + poll_interval_ms), c)
  unfolding run_phase get_cached_price_detail
  polling-absent m e c h l =
      let b : ltb e poll_timeout_ms ≡ true = ground (arith, l) in
      rw (b, get-absent m.now.seconds (detail_key ticker) c.details h) refl

  pub contending-leads :
      (m : Moment) (c : PriceCaches Payload)
      → live m.now.seconds (lock_key ticker) c.locks ≡ none
      → ((locked_at m.now.seconds c.locks).0 ≡ true)
        × (run_phase ds ticker ttl m contending c
            ≡ (fetching true, record c { locks = (locked_at m.now.seconds c.locks).1 }))
  unfolding run_phase
  contending-leads m c h =
      let e : (locked_at m.now.seconds c.locks).0 ≡ true =
        set_nx-live m.now.seconds (lock_key ticker) singleflight_lock_ttl "1" c.locks ∙ rw h refl in
      (e, rw e refl)

  pub contending-follows :
      (m : Moment) (c : PriceCaches Payload)
      → live m.now.seconds (lock_key ticker) c.locks ≡ some "1"
      → run_phase ds ticker ttl m contending c
        ≡ (polling 0, record c { locks = (locked_at m.now.seconds c.locks).1 })
  unfolding run_phase
  contending-follows m c h =
      let e : (locked_at m.now.seconds c.locks).0 ≡ false =
        set_nx-live m.now.seconds (lock_key ticker) singleflight_lock_ttl "1" c.locks ∙ rw h refl in
      rw e refl

  pub storing-stores :
      (m : Moment) (b : Bool) (d : PriceDetail) (c : PriceCaches Payload)
      → run_phase ds ticker ttl m (storing b d) c
        ≡ (storing_price b d, record c { details = store_detail ds m.now ticker d ttl c.details })
  unfolding run_phase
  storing-stores m b d c = refl

  pub polling-served :
      (m n : Moment) (e : ℕ) (d : PriceDetail) (c : PriceCaches Payload) (s : Fallback Payload)
      → c.details ≡ store_detail ds n.now ticker d ttl s
      → m.now.seconds ≤ n.now.seconds + effective_ttl n.now ttl
      → e < poll_timeout_ms
      → (run_phase ds ticker ttl m (polling e) c).0 ≡ returned (ok (some d))
  unfolding run_phase get_cached_price_detail store_detail
  polling-served m n e d c s h l t =
      let b : ltb e poll_timeout_ms ≡ true = ground (arith, t) in
      let key = detail_key ticker in
      let stored =
        live-setex n.now.seconds m.now.seconds key (effective_ttl n.now ttl)
          (serialize_price_detail ds d) s l in
      let value : (get m.now.seconds key c.details).0 ≡ some (serialize_price_detail ds d) =
        get-value m.now.seconds key c.details ∙ ap (live m.now.seconds key) h ∙ stored in
      rw (b, value, deserialize-serialize ds d) refl

  pub fetching-positive :
      (m : Moment) (d : PriceDetail) (c : PriceCaches Payload)
      → m.reply ≡ ok (some d)
      → is_positive d.current ≡ true
      → run_phase ds ticker ttl m (fetching true) c ≡ (storing true d, c)
  unfolding run_phase
  fetching-positive m d c h p = rw (h, p) refl

  -- one turn of a call
  pub run_calls_in-turn :
      (i : ℕ) (m : Moment) (turns : List (ℕ × Moment)) (ps : List Phase) (p p' : Phase)
      (c c' : PriceCaches Payload)
      → get_elem? ps i ≡ some p
      → run_phase ds ticker ttl m p c ≡ (p', c')
      → run_calls_in ds ticker ttl ((i, m) ∷ turns) (record { calls = ps; caches = c })
        ≡ run_calls_in ds ticker ttl turns (record { calls = set ps i p'; caches = c' })
  unfolding run_calls_in
  run_calls_in-turn i m turns ps p p' c c' h e = rw (h, e) refl

  pub fetching-none :
      (m : Moment) (c : PriceCaches Payload)
      → checked m.reply ≡ ok none
      → run_phase ds ticker ttl m (fetching true) c ≡ (releasing (ok none), c)
  unfolding run_phase
  fetching-none m c h = ap (λ p. (p, c)) (after_fetch-none m.reply h)

  pub releasing-deletes :
      (m : Moment) (end : Detailed) (c : PriceCaches Payload)
      → run_phase ds ticker ttl m (releasing end) c
        ≡ (returned end, record c { locks = delete (lock_key ticker) c.locks })
  unfolding run_phase
  releasing-deletes m end c = refl
