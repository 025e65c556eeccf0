-- ===== src/Prices/Bulk/Known.antt =====
-- What a bulk request gives for each ticker.
use mathlib.Core.Path.{subst}
use text.Mathlib.TextLemmas.{append_cancel_left}
use the_wealth.Base.{
  ℕ, ◌+◌, ◌≤◌, ltb, ◌≡◌, refl, sym, ap, ◌∙◌, false, ◌&&◌, not, Option, none, some, List, [], ◌∷◌,
  String, arith, inl, inr, Bool-cases, if◌then◌else◌,
}
use the_wealth.Base.Int.{ℤ}
use the_wealth.Base.Text.{Dict, str_eq, str_eq_iff, lookup, insert, lookup-insert, str_eq_refl}
use the_wealth.Outcome.{Result, ok, raise}
use the_wealth.Cache.{Fallback}
use the_wealth.Cache.Laws.{live, get-live, setex-live}
use the_wealth.Prices.{
  Now, is_market_open, price_key, cache_price, get_cached_price, is_positive, get_adaptive_ttl,
}
use the_wealth.Prices.Bulk.{
  Meets, PriceState, fetch_result, is_bulk_failure, results, asked_tickers, cached_prices,
  price_entry, fetched_prices, fetch_prices_parallel,
}

-- no ticker twice
abbrev pub KeysDistinct : {V : Type 0} → Dict V → Type 0
KeysDistinct [] = Unit
KeysDistinct ((k, v) ∷ d) = (lookup k d ≡ none) × KeysDistinct d

other_key : (t u : String) → str_eq t u ≡ false → str_eq (price_key t) (price_key u) ≡ false
other_key t u h = elim (Bool-cases (str_eq (price_key t) (price_key u))) [
  | inl e ↦
      absurd (cc (h, (str_eq_iff t u).1 (append_cancel_left "price:" t u ((str_eq_iff _ _).0 e))))
  | inr e ↦ e
]

-- the lifetime of a price: five minutes while the market is open, and else a day
abbrev pub price_lifetime : Now → ℕ
price_lifetime now = if is_market_open now then 300 else 86400

-- what the cache shows of a ticker to a reader at a time
abbrev pub shown : ℕ → String → Fallback ℤ → Option ℤ
shown later t c = live later (price_key t) c

module _ (now : Now) where
  -- the fresh price where it is positive, and else what the cache shows
  abbrev pub fresh_or : Result (Option ℤ) → Option ℤ → Option ℤ
  fresh_or (raise fault) cached = cached
  fresh_or (ok none) cached = cached
  fresh_or (ok (some price)) cached = if is_positive price then some price else cached

  -- a price whose lifetime begins now, as a reader sees it
  abbrev pub kept_until : ℕ → ℤ → Option ℤ
  kept_until later price = if ltb (now.seconds + price_lifetime now) later then none else some price

  -- the fresh price for its lifetime where it is positive, and else what the cache shows
  abbrev pub fresh_until : ℕ → Result (Option ℤ) → Option ℤ → Option ℤ
  fresh_until later (raise fault) cached = cached
  fresh_until later (ok none) cached = cached
  fresh_until later (ok (some price)) cached =
      if is_positive price then kept_until later price else cached

  get_cached_price-shown :
      (u : String) (c : Fallback ℤ) → (get_cached_price now u c).0 ≡ shown now.seconds u c
  unfolding get_cached_price
  get_cached_price-shown u c =
      (get-live now.seconds now.seconds (price_key u) (price_key u) c (omega arith)).0

  price_entry-fresh_or :
      (u : String) (r : Result (Option ℤ)) (c : Fallback ℤ)
      → (price_entry now u r c).0 ≡ fresh_or r (shown now.seconds u c)
  price_entry-fresh_or u (raise fault) c = get_cached_price-shown u c
  price_entry-fresh_or u (ok none) c = get_cached_price-shown u c
  price_entry-fresh_or u (ok (some p)) c = elim (Bool-cases (is_positive p)) [
    | inl e ↦ rw e refl
    | inr e ↦ rw e (get_cached_price-shown u c)
  ]

module _ (now : Now) (later : ℕ) (in_order : now.seconds ≤ later) where
  -- a read hides nothing
  shown-get_cached_price :
      (u t : String) (c : Fallback ℤ) → shown later t (get_cached_price now u c).1 ≡ shown later t c
  unfolding get_cached_price
  shown-get_cached_price u t c =
      (get-live now.seconds later (price_key u) (price_key t) c in_order).1

  shown-cache_price :
      (u : String) (p : ℤ) (c : Fallback ℤ)
      → shown later u (cache_price now u p c) ≡ kept_until now later p
  unfolding cache_price
  shown-cache_price u p c =
      rw
        (
          setex-live now.seconds later (price_key u) (price_key u) (get_adaptive_ttl now) p c,
          str_eq_refl (price_key u),
        )
        refl

  cache_price-other :
      (u t : String) (p : ℤ) (c : Fallback ℤ)
      → str_eq u t ≡ false
      → shown later t (cache_price now u p c) ≡ shown later t c
  unfolding cache_price
  cache_price-other u t p c h =
      rw
        (
          setex-live now.seconds later (price_key u) (price_key t) (get_adaptive_ttl now) p c,
          other_key u t h,
        )
        refl

  -- the cache keeps the fresh price for its lifetime
  shown-price_entry :
      (u : String) (r : Result (Option ℤ)) (c : Fallback ℤ)
      → shown later u (price_entry now u r c).1 ≡ fresh_until now later r (shown later u c)
  shown-price_entry u (raise fault) c = shown-get_cached_price u u c
  shown-price_entry u (ok none) c = shown-get_cached_price u u c
  shown-price_entry u (ok (some p)) c = elim (Bool-cases (is_positive p)) [
    | inl e ↦ rw e (shown-cache_price u p c)
    | inr e ↦ rw e (shown-get_cached_price u u c)
  ]

  price_entry-other :
      (u t : String) (r : Result (Option ℤ)) (c : Fallback ℤ)
      → str_eq u t ≡ false
      → shown later t (price_entry now u r c).1 ≡ shown later t c
  price_entry-other u t (raise fault) c h = shown-get_cached_price u t c
  price_entry-other u t (ok none) c h = shown-get_cached_price u t c
  price_entry-other u t (ok (some p)) c h = elim (Bool-cases (is_positive p)) [
    | inl e ↦ rw e (cache_price-other u t p c h)
    | inr e ↦ rw e (shown-get_cached_price u t c)
  ]

  -- a ticker that is not among the rows is shown as before
  shown-fetched_prices-absent :
      (t : String) (rows : Dict (Result (Option ℤ))) (pm : Dict (Option ℤ)) (c : Fallback ℤ)
      → lookup t rows ≡ none
      → shown later t (fetched_prices now rows pm c).1 ≡ shown later t c
  unfolding fetched_prices
  shown-fetched_prices-absent t [] pm c h = refl
  shown-fetched_prices-absent t ((u, r) ∷ rows) pm c h = elim (Bool-cases (str_eq u t)) [
    | inl e ↦ absurd (cc (rw e at h))
    | inr e ↦
        let (price, c') = price_entry now u r c in
        shown-fetched_prices-absent t rows (insert u price pm) c' (rw e at h)
        ∙ price_entry-other u t r c e
  ]

  shown-fetched_prices :
      (t : String) (r : Result (Option ℤ)) (rows : Dict (Result (Option ℤ))) (pm : Dict (Option ℤ))
      (c : Fallback ℤ)
      → KeysDistinct rows
      → lookup t rows ≡ some r
      → shown later t (fetched_prices now rows pm c).1 ≡ fresh_until now later r (shown later t c)
  unfolding fetched_prices
  shown-fetched_prices t r [] pm c d h = absurd (cc h)
  shown-fetched_prices t r ((u, q) ∷ rows) pm c d h = elim (Bool-cases (str_eq u t)) [
    | inl e ↦
        let same : u ≡ t = (str_eq_iff u t).0 e in
        let own : q ≡ r = cc (rw e at h) in
        let absent : lookup t rows ≡ none = subst (λ k. lookup k rows ≡ none) same d.0 in
        let (price, c') = price_entry now u q c in
        shown-fetched_prices-absent t rows (insert u price pm) c' absent
        ∙ ap (λ k. shown later k c') (sym same)
        ∙ shown-price_entry u q c
        ∙ cc (own, same)
    | inr e ↦
        let (price, c') = price_entry now u q c in
        let i = shown-fetched_prices t r rows (insert u price pm) c' d.1 (rw e at h) in
        rw (price_entry-other u t q c e) at i
  ]

  shown-cached_prices :
      (t : String) (ts : List String) (pm : Dict (Option ℤ)) (c : Fallback ℤ)
      → shown later t (cached_prices now ts pm c).1 ≡ shown later t c
  unfolding cached_prices
  shown-cached_prices t [] pm c = refl
  shown-cached_prices t (u ∷ ts) pm c =
      let (cached, c') = get_cached_price now u c in
      shown-cached_prices t ts (insert u cached pm) c' ∙ shown-get_cached_price u t c

module _ (now : Now) where
  -- the entry of a ticker that is not among the rows stays
  fetched_prices-absent :
      (t : String) (rows : Dict (Result (Option ℤ))) (pm : Dict (Option ℤ)) (c : Fallback ℤ)
      → lookup t rows ≡ none
      → lookup t (fetched_prices now rows pm c).0 ≡ lookup t pm
  unfolding fetched_prices
  fetched_prices-absent t [] pm c h = refl
  fetched_prices-absent t ((u, r) ∷ rows) pm c h = elim (Bool-cases (str_eq u t)) [
    | inl e ↦ absurd (cc (rw e at h))
    | inr e ↦
        let (price, c') = price_entry now u r c in
        fetched_prices-absent t rows (insert u price pm) c' (rw e at h)
        ∙ lookup-insert u t price pm
        ∙ rw e refl
  ]

  fetched_prices-known :
      (t : String) (r : Result (Option ℤ)) (rows : Dict (Result (Option ℤ))) (pm : Dict (Option ℤ))
      (c : Fallback ℤ)
      → KeysDistinct rows
      → lookup t rows ≡ some r
      → lookup t (fetched_prices now rows pm c).0 ≡ some (fresh_or now r (shown now.seconds t c))
  unfolding fetched_prices
  fetched_prices-known t r [] pm c d h = absurd (cc h)
  fetched_prices-known t r ((u, q) ∷ rows) pm c d h = elim (Bool-cases (str_eq u t)) [
    | inl e ↦
        let same : u ≡ t = (str_eq_iff u t).0 e in
        let own : q ≡ r = cc (rw e at h) in
        let absent : lookup t rows ≡ none = subst (λ k. lookup k rows ≡ none) same d.0 in
        let (price, c') = price_entry now u q c in
        let entry : price ≡ fresh_or now r (shown now.seconds t c) =
          price_entry-fresh_or now u q c ∙ cc (own, same) in
        fetched_prices-absent t rows (insert u price pm) c' absent
        ∙ lookup-insert u t price pm
        ∙ rw e (ap some entry)
    | inr e ↦
        let (price, c') = price_entry now u q c in
        let i = fetched_prices-known t r rows (insert u price pm) c' d.1 (rw e at h) in
        rw (price_entry-other now now.seconds (omega arith) u t q c e) at i
  ]

  -- one round of the cache mode
  lookup-cached :
      (u t : String) (pm : Dict (Option ℤ)) (c : Fallback ℤ)
      → lookup t (insert u (get_cached_price now u c).0 pm)
        ≡ (if str_eq u t then some (shown now.seconds t c) else lookup t pm)
  lookup-cached u t pm c =
      let cached = (get_cached_price now u c).0 in
      lookup-insert u t cached pm ∙ (elim (Bool-cases (str_eq u t)) [
        | inl e ↦ rw e (
            ap some (
              get_cached_price-shown now u c
              ∙ ap (λ k. shown now.seconds k c) ((str_eq_iff u t).0 e)))
        | inr e ↦ rw e refl
      ])

  cached_prices-kept :
      (t : String) (ts : List String) (pm : Dict (Option ℤ)) (c : Fallback ℤ)
      → lookup t pm ≡ some (shown now.seconds t c)
      → lookup t (cached_prices now ts pm c).0 ≡ some (shown now.seconds t c)
  unfolding cached_prices
  cached_prices-kept t [] pm c h = h
  cached_prices-kept t (u ∷ ts) pm c h =
      let (cached, c') = get_cached_price now u c in
      let other = shown-get_cached_price now now.seconds (omega arith) u t c in
      let entry : lookup t (insert u cached pm) ≡ some (shown now.seconds t c) =
        lookup-cached u t pm c
        ∙ (elim (Bool-cases (str_eq u t)) [ inl e ↦ rw e refl | inr e ↦ rw e h ]) in
      cached_prices-kept t ts (insert u cached pm) c' (entry ∙ ap some (sym other)) ∙ ap some other

  cached_prices-known :
      (t : String) (m : Meets) (rows : Dict Meets) (pm : Dict (Option ℤ)) (c : Fallback ℤ)
      → lookup t rows ≡ some m
      → lookup t (cached_prices now (asked_tickers rows) pm c).0 ≡ some (shown now.seconds t c)
  unfolding cached_prices
  cached_prices-known t m [] pm c h = absurd (cc h)
  cached_prices-known t m ((u, q) ∷ rows) pm c h =
      let (cached, c') = get_cached_price now u c in
      let other = shown-get_cached_price now now.seconds (omega arith) u t c in
      elim (Bool-cases (str_eq u t)) [
        | inl e ↦
            let entry : lookup t (insert u cached pm) ≡ some (shown now.seconds t c) =
              lookup-cached u t pm c ∙ rw e refl in
            cached_prices-kept t (asked_tickers rows) (insert u cached pm) c'
              (entry ∙ ap some (sym other))
            ∙ ap some other
        | inr e ↦ cached_prices-known t m rows (insert u cached pm) c' (rw e at h) ∙ ap some other
      ]

lookup-results :
    (decimal : String → Option ℤ) (market : String) (t : String) (m : Meets) (rows : Dict Meets)
    → lookup t rows ≡ some m
    → lookup t (results decimal market rows) ≡ some (fetch_result decimal market m)
lookup-results decimal market t m [] h = absurd (cc h)
lookup-results decimal market t m ((u, q) ∷ rows) h = elim (Bool-cases (str_eq u t)) [
  | inl e ↦
      let own : q ≡ m = cc (rw e at h) in rw e (ap (λ x. some (fetch_result decimal market x)) own)
  | inr e ↦ rw e (lookup-results decimal market t m rows (rw e at h))
]

absent-results :
    (decimal : String → Option ℤ) (market : String) (t : String) (rows : Dict Meets)
    → lookup t rows ≡ none
    → lookup t (results decimal market rows) ≡ none
absent-results decimal market t [] h = refl
absent-results decimal market t ((u, q) ∷ rows) h = elim (Bool-cases (str_eq u t)) [
  | inl e ↦ absurd (cc (rw e at h))
  | inr e ↦ rw e (absent-results decimal market t rows (rw e at h))
]

results-KeysDistinct :
    (decimal : String → Option ℤ) (market : String) (rows : Dict Meets)
    → KeysDistinct rows
    → KeysDistinct (results decimal market rows)
results-KeysDistinct decimal market [] d = d
results-KeysDistinct decimal market ((u, q) ∷ rows) d =
    (absent-results decimal market u rows d.0, results-KeysDistinct decimal market rows d.1)

-- Every ticker that is asked for, none of them twice, has an entry: the fresh price where the broker
-- was asked, less than four fifths of its answers failed, and the price is positive; and else what
-- the cache shows. A later reader finds such a fresh price in the cache until its lifetime has passed
-- (300 seconds while the market is open, and else 86400), and nothing after that; of every other
-- ticker that was asked for the cache shows at any later time what it would have shown without the
-- call.
pub fetch_prices_parallel-known :
    (now : Now) (decimal : String → Option ℤ) (market : String) (rows : Dict Meets) (s : PriceState)
    (t : String) (m : Meets) (later : ℕ)
    → KeysDistinct rows
    → lookup t rows ≡ some m
    → now.seconds ≤ later
    → let (price_map, s') = fetch_prices_parallel now decimal market rows s in
      let uses_answers =
        s.availability.is_available && not (is_bulk_failure (results decimal market rows)) in
      let fresh = fetch_result decimal market m in
      let cached = shown now.seconds t s.prices in
      let kept = shown later t s.prices in
      (lookup t price_map ≡ some (if uses_answers then fresh_or now fresh cached else cached))
      × (shown later t s'.prices
          ≡ (if uses_answers then fresh_until now later fresh kept else kept))
unfolding fetch_prices_parallel
fetch_prices_parallel-known now decimal market rows s t m later d h in_order =
    let fresh = fetch_result decimal market m in
    let answers = results decimal market rows in
    let cached = cached_prices-known now t m rows [] s.prices h in
    let before = shown-cached_prices now later in_order t (asked_tickers rows) [] s.prices in
    elim (Bool-cases s.availability.is_available) [
      | inr off ↦ rw off (cached, before)
      | inl on ↦ elim (Bool-cases (is_bulk_failure answers)) [
        | inl e ↦ rw (on, e) (cached, before)
        | inr e ↦
            let distinct = results-KeysDistinct decimal market rows d in
            let answer = lookup-results decimal market t m rows h in
            rw (on, e)
              (
                fetched_prices-known now t fresh answers [] s.prices distinct answer,
                shown-fetched_prices now later in_order t fresh answers [] s.prices distinct answer,
              )
      ]
    ]
