-- ===== src/Prices/Flight/Shared.antt =====
-- Calls for one ticker that run together share the broker's one answer.
use the_wealth.Base.{
  ℕ, ◌+◌, ◌*◌, ◌≤◌, ◌<◌, ◌≡◌, refl, ap, ◌∙◌, true, Option, none, some, List, [], ◌∷◌, String,
  length, arith,
}
use the_wealth.Base.Text.{lookup}
use the_wealth.Outcome.{ok}
use the_wealth.Cache.Laws.{live, live-set_nx}
use the_wealth.Prices.{PriceCaches, is_positive, effective_ttl}
use the_wealth.Prices.Quote.{PriceDetail}
use the_wealth.Prices.Detail.{Decimals, Payload, detail_key, store_detail}
use the_wealth.Prices.Flight.{
  Phase, started, contending, polling, fetching, storing, storing_price, returned, Moment, lock_key,
  singleflight_lock_ttl, poll_interval_ms, poll_timeout_ms, run_phase, run_calls_in,
}
use the_wealth.Prices.Flight.Steps.{
  locked_at, started-absent, polling-absent, contending-leads, contending-follows, storing-stores,
  polling-served, fetching-positive, run_calls_in-turn,
}

-- the second call polls at these moments
abbrev pub polls_then : List Moment → List (ℕ × Moment) → List (ℕ × Moment)
polls_then [] rest = rest
polls_then (m ∷ ms) rest = (1, m) ∷ polls_then ms rest

-- Two calls: the first reads, takes the lock, and asks; the second reads, does not get the lock, and
-- polls until the first has stored its answer.
abbrev pub shared_turns :
    Moment → Moment → Moment → Moment → List Moment → Moment → Moment → Moment → List (ℕ × Moment)
shared_turns m₀ m₁ m₂ m₃ polls m₄ m₅ m₆ =
    (0, m₀) ∷ (0, m₁) ∷ (1, m₂) ∷ (1, m₃) ∷ polls_then polls ((0, m₄) ∷ (0, m₅) ∷ (1, m₆) ∷ [])

module _ (ds : Decimals) (ticker : String) (ttl : Option ℕ) where
  polls-absent :
      (ms : List Moment) (rest : List (ℕ × Moment)) (p : Phase) (e : ℕ) (c : PriceCaches Payload)
      → lookup (detail_key ticker) c.details ≡ none
      → e + poll_interval_ms * length ms < poll_timeout_ms
      → (e' : ℕ) × (e' < poll_timeout_ms)
        × (run_calls_in ds ticker ttl
              (polls_then ms rest)
              (record { calls = p ∷ polling e ∷ []; caches = c })
            ≡ run_calls_in ds ticker ttl rest (record { calls = p ∷ polling e' ∷ []; caches = c }))
  polls-absent [] rest p e c h l = (e, omega (arith, l), refl)
  polls-absent (m ∷ ms) rest p e c h l =
      let (e', l', i) = polls-absent ms rest p (e + poll_interval_ms) c h (omega (arith, l)) in
      let turn =
        run_calls_in-turn ds ticker ttl 1 m (polls_then ms rest) (p ∷ polling e ∷ []) (polling e)
          (polling (e + poll_interval_ms)) c c refl
          (polling-absent ds ticker ttl m e c h (omega (arith, l))) in
      (e', l', turn ∙ i)

-- Where no detail is cached and nobody holds the lock, a second call that comes while the first holds
-- it, within five seconds, and has made at most 37 polls when the first stores what the broker
-- answered, gives that answer at its next poll, without a request of its own.
pub run_calls_in-shared :
    (ds : Decimals) (ticker : String) (ttl : Option ℕ) (m₀ m₁ m₂ m₃ : Moment) (polls : List Moment)
    (m₄ m₅ m₆ : Moment) (d : PriceDetail) (c : PriceCaches Payload)
    → lookup (detail_key ticker) c.details ≡ none
    → live m₁.now.seconds (lock_key ticker) c.locks ≡ none
    → m₃.now.seconds ≤ m₁.now.seconds + singleflight_lock_ttl
    → length polls ≤ 37
    → m₄.reply ≡ ok (some d)
    → is_positive d.current ≡ true
    → m₆.now.seconds ≤ m₅.now.seconds + effective_ttl m₅.now ttl
    → (run_calls_in ds ticker ttl
        (shared_turns m₀ m₁ m₂ m₃ polls m₄ m₅ m₆)
        (record { calls = started ∷ started ∷ []; caches = c })).calls
      ≡ storing_price true d ∷ returned (ok (some d)) ∷ []
unfolding run_calls_in
run_calls_in-shared ds ticker ttl m₀ m₁ m₂ m₃ polls m₄ m₅ m₆ d c h free held few reply positive
      in_time =
    let (taken, leads) = contending-leads ds ticker ttl m₁ c free in
    let locks = locked_at ds ticker ttl m₁.now.seconds c.locks in
    let c₁ = record c { locks = locks.1 } in
    let lock : live m₃.now.seconds (lock_key ticker) c₁.locks ≡ some "1" =
      live-set_nx m₁.now.seconds m₃.now.seconds (lock_key ticker) singleflight_lock_ttl "1" c.locks
        taken held in
    let c₂ = record c₁ { locks = (locked_at ds ticker ttl m₃.now.seconds c₁.locks).1 } in
    let c₃ = record c₂ { details = store_detail ds m₅.now ticker d ttl c₂.details } in
    let (e, below, polled) =
      polls-absent ds ticker ttl polls ((0, m₄) ∷ (0, m₅) ∷ (1, m₆) ∷ []) (fetching true) 0 c₂ h
        (omega (arith, few)) in
    let turn = run_calls_in-turn ds ticker ttl in
    let t₆ = (1, m₆) ∷ [] in
    let t₅ = (0, m₅) ∷ t₆ in
    let t₄ = polls_then polls ((0, m₄) ∷ t₅) in
    let t₃ = (1, m₃) ∷ t₄ in
    let t₂ = (1, m₂) ∷ t₃ in
    let served = polling-served ds ticker ttl m₆ m₅ e d c₃ c₂.details refl in_time below in
    ap (λ w. w.calls)
      (turn 0 m₀ ((0, m₁) ∷ t₂) (started ∷ started ∷ []) started contending c c refl
          (started-absent ds ticker ttl m₀ c h)
        ∙ turn 0 m₁ t₂ (contending ∷ started ∷ []) contending (fetching true) c c₁ refl leads
        ∙ turn 1 m₂ t₃ (fetching true ∷ started ∷ []) started contending c₁ c₁ refl
            (started-absent ds ticker ttl m₂ c₁ h)
        ∙ turn 1 m₃ t₄ (fetching true ∷ contending ∷ []) contending (polling 0) c₁ c₂ refl
            (contending-follows ds ticker ttl m₃ c₁ lock)
        ∙ polled
        ∙ turn 0 m₄ t₅ (fetching true ∷ polling e ∷ []) (fetching true) (storing true d) c₂ c₂ refl
            (fetching-positive ds ticker ttl m₄ d c₂ reply positive)
        ∙ turn 0 m₅ t₆ (storing true d ∷ polling e ∷ []) (storing true d) (storing_price true d) c₂
            c₃ refl (storing-stores ds ticker ttl m₅ true d c₂)
        ∙ turn 1 m₆ [] (storing_price true d ∷ polling e ∷ []) (polling e) (returned (ok (some d)))
            c₃ (run_phase ds ticker ttl m₆ (polling e) c₃).1 refl
            (ap (λ p. (p, (run_phase ds ticker ttl m₆ (polling e) c₃).1)) served))
