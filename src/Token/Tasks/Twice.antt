-- ===== src/Token/Tasks/Twice.antt =====
-- Where a stale value is cached, its eviction outside the lock can hit the token that replaced it.
use Prim.Native.Nat.{max}
use the_wealth.Base.{
  ℕ, ◌+◌, ◌-◌, ◌≤◌, ◌≡◌, refl, sym, ap, ◌∙◌, true, false, none, some, String, [], ◌∷◌, ltb, arith,
}
use the_wealth.Base.Text.{str_eq_refl}
use the_wealth.Outcome.{ok}
use the_wealth.Cache.{Fallback, get, setex, delete}
use the_wealth.Cache.Laws.{live, get-live, delete-live}
use the_wealth.Token.{
  Cached, stamped, rotation_buffer_seconds, TokenReply, issue_token, Phase, started, found_stale,
  queued, locked, issuing, storing, returned, after_issue, run_phase,
}
use the_wealth.Token.Tasks.{World, run, Reach, here, next, tokens_issued, may_run}

module _ (key : String) (now : ℕ) (replies : ℕ → TokenReply) where
  get-value : (c : Fallback Cached) → (get now key c).0 ≡ live now key c
  get-value c = (get-live now now key key c (omega arith)).0

  meets_stale :
      (c : Fallback Cached) (t : String) (e : ℕ)
      → live now key c ≡ some (stamped t e)
      → e ≤ now + rotation_buffer_seconds
      → run_phase key now (replies now) started c ≡ (found_stale, (get now key c).1)
  unfolding run_phase
  meets_stale c t e h k =
      let b : ltb (now + rotation_buffer_seconds) e ≡ false = ground arith in
      rw (get-value c, h, b) refl

  meets_nothing :
      (c : Fallback Cached)
      → live now key c ≡ none
      → run_phase key now (replies now) locked c ≡ (issuing, (get now key c).1)
  unfolding run_phase
  meets_nothing c h = rw (get-value c, h) refl

  gets_token :
      (c : Fallback Cached) (t : String) (ttl e : ℕ)
      → issue_token now (replies now) ≡ ok (t, (ttl, e))
      → run_phase key now (replies now) issuing c ≡ (storing t ttl e, c)
  unfolding run_phase
  gets_token c t ttl e h = ap (λ r. (after_issue r, c)) h

  live-delete : (c : Fallback Cached) → live now key (delete key c) ≡ none
  live-delete c = delete-live now key key c ∙ (rw (str_eq_refl key) refl)

  abbrev pub world : Fallback Cached → Phase → Phase → ℕ → World
  world c p q n = record { clock = now; cache = c; tasks = p ∷ q ∷ []; issued = n }

  -- a step of the first task, and one of the second
  first :
      {w : World} (c c' : Fallback Cached) (p p' q : Phase) (n : ℕ)
      → may_run (p ∷ q ∷ []) p ≡ true
      → run_phase key now (replies now) p c ≡ (p', c')
      → Reach key replies w (world c p q n)
      → Reach key replies w (world c' p' q (n + tokens_issued p p'))
  first c c' p p' q n m e r =
      next r (run 0 p refl m (ap (λ x. world x.1 x.0 q (n + tokens_issued p x.0)) (sym e)))

  second :
      {w : World} (c c' : Fallback Cached) (p q q' : Phase) (n : ℕ)
      → may_run (p ∷ q ∷ []) q ≡ true
      → run_phase key now (replies now) q c ≡ (q', c')
      → Reach key replies w (world c p q n)
      → Reach key replies w (world c' p q' (n + tokens_issued q q'))
  second c c' p q q' n m e r =
      next r (run 1 q refl m (ap (λ x. world x.1 p x.0 (n + tokens_issued q x.0)) (sym e)))

  -- Two tasks that meet a stale value can be issued two tokens: the one that is slower to evict the
  -- stale value evicts the token that the other has stored.
  pub token_issued_twice :
      (c : Fallback Cached) (t t' : String) (e ttl e' : ℕ)
      → live now key c ≡ some (stamped t e)
      → e ≤ now + rotation_buffer_seconds
      → issue_token now (replies now) ≡ ok (t', (ttl, e'))
      → (w : World) × Reach key replies (world c started started 0) w × (w.issued ≡ 2)
  unfolding run_phase
  token_issued_twice c t t' e ttl e' h k ok_reply =
      let c₁ = (get now key c).1 in
      let h₁ : live now key c₁ ≡ some (stamped t e) =
        (get-live now now key key c (omega arith)).1 ∙ h in
      let c₂ = (get now key c₁).1 in
      let c₃ = delete key c₂ in
      let c₄ = (get now key c₃).1 in
      let c₅ = setex now key (max (ttl - rotation_buffer_seconds) 60) (stamped t' e') c₄ in
      let c₆ = delete key c₅ in
      let c₇ = (get now key c₆).1 in
      let r₂ =
        second c₁ c₂ found_stale started found_stale 0 refl (meets_stale c₁ t e h₁ k)
          (first c c₁ started found_stale started 0 refl (meets_stale c t e h k) here) in
      let r₄ =
        second c₃ c₃ found_stale queued locked 0 refl refl
          (second c₂ c₃ found_stale found_stale queued 0 refl refl r₂) in
      let r₆ =
        second c₄ c₄ found_stale issuing (storing t' ttl e') 0 refl
          (gets_token c₄ t' ttl e' ok_reply)
          (second c₃ c₄ found_stale locked issuing 0 refl (meets_nothing c₃ (live-delete c₂)) r₄) in
      let r₈ =
        first c₅ c₆ found_stale queued (returned t') 1 refl refl
          (second c₄ c₅ found_stale (storing t' ttl e') (returned t') 1 refl refl r₆) in
      let r₁₀ =
        first c₆ c₇ locked issuing (returned t') 1 refl (meets_nothing c₆ (live-delete c₅))
          (first c₆ c₆ queued locked (returned t') 1 refl refl r₈) in
      (
        world c₇ (storing t' ttl e') (returned t') 2,
        first c₇ c₇ issuing (storing t' ttl e') (returned t') 1 refl
            (gets_token c₇ t' ttl e' ok_reply) r₁₀,
        refl,
      )
