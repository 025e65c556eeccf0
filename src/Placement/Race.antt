-- ===== src/Placement/Race.antt =====
-- The limit of orders per user for attempts that run at the same time: each has read the count before
-- any of them writes.
use the_wealth.Base.{
  ℕ, ◌+◌, ◌≤◌, ◌<◌, ◌≡◌, refl, false, some, All, List, [], ◌∷◌, leb, length, arith, if◌then◌else◌,
}
use the_wealth.Cache.{Fallback, setex}
use the_wealth.Cache.Laws.{live}
use the_wealth.Prices.Current.Reuse.{live-setex}
use the_wealth.Placement.{rate_limit_max, rate_limit_ttl, rate_limit_key, count_attempt}
use the_wealth.Placement.Limit.{counted}

module _ (user count : ℕ) where
  -- what is let through, and the cache, once attempts that all read `count` have gone on at `times`
  unfoldable pub rush : List ℕ → Fallback ℕ → ℕ × Fallback ℕ
  rush [] c = (0, c)
  rush (time ∷ times) c =
      let (allowed, c') = count_attempt time user count c in
      let (others, end) = rush times c' in ((if allowed then 1 else 0) + others, end)

  -- However many attempts have read the same count below the limit, all of them are let through.
  pub rush-all :
      (times : List ℕ) (c : Fallback ℕ) → count < rate_limit_max → (rush times c).0 ≡ length times
  unfolding rush
  rush-all [] c h = refl
  rush-all (time ∷ times) c h =
      let room : leb rate_limit_max count ≡ false = ground (arith, h) in
      let rest = rush-all times (setex time (rate_limit_key user) rate_limit_ttl (count + 1) c) h in
      rw (room, rest) (omega arith)

  -- They count as one, as long as the last of them does.
  pub rush-counted :
      (later time : ℕ) (times : List ℕ) (c : Fallback ℕ)
      → count < rate_limit_max
      → All (λ t. later ≤ t + rate_limit_ttl) (time ∷ times)
      → counted user later (rush (time ∷ times) c).1 ≡ count + 1
  unfolding rush
  rush-counted later time [] c h a =
      let key = rate_limit_key user in
      let room : leb rate_limit_max count ≡ false = ground (arith, h) in
      let kept : live later key (setex time key rate_limit_ttl (count + 1) c) ≡ some (count + 1) =
        live-setex time later key rate_limit_ttl (count + 1) c a.0 in
      rw (room, kept) refl
  rush-counted later time (next ∷ times) c h a =
      let room : leb rate_limit_max count ≡ false = ground (arith, h) in
      let rest =
        rush-counted later next times
          (setex time (rate_limit_key user) rate_limit_ttl (count + 1) c) h a.1 in
      rw room (rw room at rest)
