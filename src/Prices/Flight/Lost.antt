-- ===== src/Prices/Flight/Lost.antt =====
-- A call that outlives its lock deletes the lock of another.
use the_wealth.Base.{ℕ, ◌+◌, ◌<◌, ◌≡◌, refl, ap, ◌∙◌, true, Option, none, List, [], ◌∷◌, String}
use the_wealth.Base.Text.{lookup, str_eq_refl}
use the_wealth.Outcome.{ok}
use the_wealth.Cache.{delete}
use the_wealth.Cache.Laws.{live, delete-live}
use the_wealth.Prices.{PriceCaches}
use the_wealth.Prices.Detail.{Decimals, Payload, detail_key}
use the_wealth.Prices.Flight.{
  started, contending, fetching, releasing, returned, Moment, lock_key, singleflight_lock_ttl,
  run_calls_in,
}
use the_wealth.Prices.Flight.Ends.{checked}
use the_wealth.Prices.Flight.Steps.{
  live-set_nx_expired, locked_at, started-absent, contending-leads, fetching-none,
  releasing-deletes, run_calls_in-turn,
}

-- Three calls: the first asks the broker for longer than its lock lives, so the second gets the lock;
-- the first ends, and the third comes.
abbrev pub lost_turns :
    Moment → Moment → Moment → Moment → Moment → Moment → Moment → Moment → List (ℕ × Moment)
lost_turns m₀ m₁ m₂ m₃ m₄ m₅ m₆ m₇ =
    (0, m₀) ∷ (0, m₁) ∷ (1, m₂) ∷ (1, m₃) ∷ (0, m₄) ∷ (0, m₅) ∷ (2, m₆) ∷ (2, m₇) ∷ []

-- Where no detail is cached and nobody holds the lock, a call whose request takes more than five
-- seconds and gives no price deletes, at its end, the lock that a second call has taken meanwhile: a
-- third call gets it at once, at any time, and asks the broker while the second one does.
pub run_calls_in-lost :
    (ds : Decimals) (ticker : String) (ttl : Option ℕ) (m₀ m₁ m₂ m₃ m₄ m₅ m₆ m₇ : Moment)
    (c : PriceCaches Payload)
    → lookup (detail_key ticker) c.details ≡ none
    → live m₁.now.seconds (lock_key ticker) c.locks ≡ none
    → m₁.now.seconds + singleflight_lock_ttl < m₃.now.seconds
    → checked m₄.reply ≡ ok none
    → (run_calls_in ds ticker ttl
        (lost_turns m₀ m₁ m₂ m₃ m₄ m₅ m₆ m₇)
        (record { calls = started ∷ started ∷ started ∷ []; caches = c })).calls
      ≡ returned (ok none) ∷ fetching true ∷ fetching true ∷ []
unfolding run_calls_in
run_calls_in-lost ds ticker ttl m₀ m₁ m₂ m₃ m₄ m₅ m₆ m₇ c h free late nothing =
    let (taken, leads) = contending-leads ds ticker ttl m₁ c free in
    let c₁ = record c { locks = (locked_at ds ticker ttl m₁.now.seconds c.locks).1 } in
    let expired : live m₃.now.seconds (lock_key ticker) c₁.locks ≡ none =
      live-set_nx_expired m₁.now.seconds m₃.now.seconds (lock_key ticker) singleflight_lock_ttl "1"
        c.locks taken late in
    let (taken', leads') = contending-leads ds ticker ttl m₃ c₁ expired in
    let c₂ = record c₁ { locks = (locked_at ds ticker ttl m₃.now.seconds c₁.locks).1 } in
    let c₃ = record c₂ { locks = delete (lock_key ticker) c₂.locks } in
    let deleted : live m₇.now.seconds (lock_key ticker) c₃.locks ≡ none =
      delete-live m₇.now.seconds (lock_key ticker) (lock_key ticker) c₂.locks
      ∙ rw (str_eq_refl (lock_key ticker)) refl in
    let (taken'', leads'') = contending-leads ds ticker ttl m₇ c₃ deleted in
    let c₄ = record c₃ { locks = (locked_at ds ticker ttl m₇.now.seconds c₃.locks).1 } in
    let turn = run_calls_in-turn ds ticker ttl in
    let t₆ = (2, m₆) ∷ (2, m₇) ∷ [] in
    let t₄ = (0, m₄) ∷ (0, m₅) ∷ t₆ in
    let t₂ = (1, m₂) ∷ (1, m₃) ∷ t₄ in
    ap (λ w. w.calls)
      (turn 0 m₀ ((0, m₁) ∷ t₂) (started ∷ started ∷ started ∷ []) started contending c c refl
          (started-absent ds ticker ttl m₀ c h)
        ∙ turn 0 m₁ t₂ (contending ∷ started ∷ started ∷ []) contending (fetching true) c c₁ refl
            leads
        ∙ turn 1 m₂ ((1, m₃) ∷ t₄) (fetching true ∷ started ∷ started ∷ []) started contending c₁ c₁
            refl (started-absent ds ticker ttl m₂ c₁ h)
        ∙ turn 1 m₃ t₄ (fetching true ∷ contending ∷ started ∷ []) contending (fetching true) c₁ c₂
            refl leads'
        ∙ turn 0 m₄ ((0, m₅) ∷ t₆) (fetching true ∷ fetching true ∷ started ∷ []) (fetching true)
            (releasing (ok none)) c₂ c₂ refl (fetching-none ds ticker ttl m₄ c₂ nothing)
        ∙ turn 0 m₅ t₆ (releasing (ok none) ∷ fetching true ∷ started ∷ []) (releasing (ok none))
            (returned (ok none)) c₂ c₃ refl (releasing-deletes ds ticker ttl m₅ (ok none) c₂)
        ∙ turn 2 m₆ ((2, m₇) ∷ []) (returned (ok none) ∷ fetching true ∷ started ∷ []) started
            contending c₃ c₃ refl (started-absent ds ticker ttl m₆ c₃ h)
        ∙ turn 2 m₇ [] (returned (ok none) ∷ fetching true ∷ contending ∷ []) contending
            (fetching true) c₃ c₄ refl leads'')
