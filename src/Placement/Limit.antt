-- ===== src/Placement/Limit.antt =====
-- The limit of orders per user, over a window of time, for attempts that come one after the other.
use the_wealth.Base.{
  ℕ, ◌+◌, ◌≤◌, ◌<◌, ◌≡◌, refl, ◌⊎◌, inl, inr, not, List, [], ◌∷◌, leb, arith, Bool-cases,
  if◌then◌else◌,
}
use the_wealth.Base.Text.{str_eq_refl}
use the_wealth.Cache.{Fallback, get}
use the_wealth.Cache.Laws.{live, get-live, setex-live}
use the_wealth.Placement.{
  rate_limit_ttl, rate_limit_max, rate_limit_key, count_of, check_rate_limit,
}

module _ (user : ℕ) where
  abbrev pub counted : ℕ → Fallback ℕ → ℕ
  counted later c = count_of (live later (rate_limit_key user) c)

  check-allowed :
      (now : ℕ) (c : Fallback ℕ)
      → (check_rate_limit now user c).0 ≡ not (leb rate_limit_max (counted now c))
  unfolding check_rate_limit
  check-allowed now c =
      ground (arith, get-live now now (rate_limit_key user) (rate_limit_key user) c)

  check-counted :
      (now later : ℕ) (c : Fallback ℕ)
      → now ≤ later
      → later ≤ now + rate_limit_ttl
      → counted later (check_rate_limit now user c).1
        ≡ (if leb rate_limit_max (counted now c) then counted later c else counted now c + 1)
  unfolding check_rate_limit
  check-counted now later c h k =
      let key = rate_limit_key user in
      ground (
        arith,
        get-live now now key key c,
        get-live now later key key c,
        setex-live now later key key rate_limit_ttl (count_of (get now key c).0 + 1)
            (get now key c).1,
        str_eq_refl key,
      )

  -- the orders that are let through, of attempts one after the other, after the waits `gaps`
  unfoldable pub allowed_orders : ℕ → List ℕ → Fallback ℕ → ℕ
  allowed_orders now [] c = 0
  allowed_orders now (gap ∷ gaps) c =
      let (allowed, c') = check_rate_limit (now + gap) user c in
      (if allowed then 1 else 0) + allowed_orders (now + gap) gaps c'

  abbrev pub total_gap : List ℕ → ℕ
  total_gap [] = 0
  total_gap (gap ∷ gaps) = gap + total_gap gaps

  -- `k` orders of the window are counted
  AreCounted : ℕ → ℕ → ℕ → Fallback ℕ → Type 0
  AreCounted now fin k c = (k ≡ 0) ⊎ ((later : ℕ) → now ≤ later → later ≤ fin → k ≤ counted later c)

  AreCounted-le :
      (now fin k later : ℕ) (c : Fallback ℕ)
      → AreCounted now fin k c
      → now ≤ later
      → later ≤ fin
      → k ≤ counted later c
  unfolding AreCounted
  AreCounted-le now fin k later c (inl e) h l = omega (arith, e)
  AreCounted-le now fin k later c (inr f) h l = f later h l

  allowed_orders-window :
      (start now fin k : ℕ) (gaps : List ℕ) (c : Fallback ℕ)
      → start ≤ now
      → fin ≤ start + rate_limit_ttl
      → now + total_gap gaps ≤ fin
      → k ≤ rate_limit_max
      → AreCounted now fin k c
      → k + allowed_orders now gaps c ≤ rate_limit_max
  unfolding allowed_orders AreCounted
  allowed_orders-window start now fin k [] c s f t h i = omega (arith, h)
  allowed_orders-window start now fin k (gap ∷ gaps) c s f t h i =
      let c' = (check_rate_limit (now + gap) user c).1 in
      let below = AreCounted-le now fin k (now + gap) c i (omega arith) (omega (arith, t)) in
      elim (Bool-cases (leb rate_limit_max (counted (now + gap) c))) [
        | inl full ↦
            let r =
              allowed_orders-window start (now + gap) fin k gaps c' (omega (arith, s)) f
                (omega (arith, t)) h
                (inr λ later p q.
                  let e = check-counted (now + gap) later c p (omega (arith, s, f, q)) in
                  omega (
                    arith,
                    (rw full at e),
                    AreCounted-le now fin k later c i (omega (arith, p)) q,
                  )) in
            rw (check-allowed (now + gap) c, full) (omega (arith, r))
        | inr room ↦
            let few : counted (now + gap) c < rate_limit_max = ground (arith, room) in
            let r =
              allowed_orders-window start (now + gap) fin (k + 1) gaps c' (omega (arith, s)) f
                (omega (arith, t)) (omega (arith, few, below))
                (inr λ later p q.
                  let e = check-counted (now + gap) later c p (omega (arith, s, f, q)) in
                  omega (arith, (rw room at e), below)) in
            rw (check-allowed (now + gap) c, room) (omega (arith, r))
      ]

  -- Of a user's attempts within sixty seconds, each of which begins after the check of the one before
  -- has ended, at most five are let through, whatever was counted before.
  pub allowed_orders-le :
      (now : ℕ) (gaps : List ℕ) (c : Fallback ℕ)
      → total_gap gaps ≤ rate_limit_ttl
      → allowed_orders now gaps c ≤ rate_limit_max
  unfolding AreCounted
  allowed_orders-le now gaps c h = omega (
    arith,
    allowed_orders-window now now (now + rate_limit_ttl) 0 gaps c (omega arith) (omega arith)
        (omega (arith, h)) (omega arith) (inl refl),
  )
