-- ===== src/Placement/Laws.antt =====
-- When an order is posted, and what keeps a second one from being posted.
use the_wealth.Base.{
  ℕ, ◌+◌, ◌≤◌, ◌≡◌, ◌≢◌, refl, ap, ◌∙◌, ◌⊎◌, inl, inr, true, false, String, [], ◌∷◌, ◌++◌, ◌==◌,
  Bool-cases,
}
use the_wealth.Outcome.{Result, ok, raise, Fault}
use the_wealth.OrderLock.{acquire_order_lock, order_lock_ttl}
use the_wealth.OrderLock.Laws.{order_lock-excludes}
use the_wealth.Placement.{
  OrderArgs, OrderBody, OrderReply, OrderResult, Desk, refused, check_rate_limit,
  execute_order_request, post_order, lock_step, order_lock_key, guarded_order,
}

-- a call that posts nothing: it is refused, or it has no token
abbrev pub IsHeldBack : OrderArgs → Desk → Result OrderResult × Desk → Type 0
IsHeldBack a d (end, d') =
    (d'.posted ≡ d.posted)
    × (((message : String) × (end ≡ ok (refused a message)))
        ⊎ ((fault : Fault) × (end ≡ raise fault)))

-- a call that posts its body once, and ends by the broker's answer to it
abbrev pub IsPosted :
    OrderArgs → OrderBody → (OrderBody → OrderReply) → Desk → Result OrderResult × Desk → Type 0
IsPosted a body broker d (end, d') =
    (d'.posted ≡ d.posted ++ body ∷ []) × (end ≡ execute_order_request a (broker body))

lock_step-answered :
    (now : ℕ) (a : OrderArgs) (body : OrderBody) (token : Result String)
    (broker : OrderBody → OrderReply) (d : Desk)
    → IsHeldBack a d (lock_step now a body token broker d)
      ⊎ IsPosted a body broker d (lock_step now a body token broker d)
lock_step-answered now a body (raise f) broker d = elim (Bool-cases (a.portfolio_id == 0)) [
  | inl z ↦ rw z (inl (refl, inr (f, refl)))
  | inr n ↦
      elim (Bool-cases
        (acquire_order_lock now (order_lock_key a.portfolio_id a.ticker) d.locks).0) [
          | inl g ↦ rw (n, g) (inl (refl, inr (f, refl)))
          | inr g ↦ rw (n, g) (inl (refl, inl (_, refl)))
        ]
]
lock_step-answered now a body (ok t) broker d = elim (Bool-cases (a.portfolio_id == 0)) [
  | inl z ↦ rw z (inr (refl, refl))
  | inr n ↦
      elim (Bool-cases
        (acquire_order_lock now (order_lock_key a.portfolio_id a.ticker) d.locks).0) [
          | inl g ↦ rw (n, g) (inr (refl, refl))
          | inr g ↦ rw (n, g) (inl (refl, inl (_, refl)))
        ]
]

-- A call posts its own body exactly once and ends by the broker's answer, or it posts nothing and is
-- refused or raises.
pub guarded_order-answered :
    (now : ℕ) (a : OrderArgs) (body : OrderBody) (token : Result String)
    (broker : OrderBody → OrderReply) (d : Desk)
    → IsHeldBack a d (guarded_order now a body token broker d)
      ⊎ IsPosted a body broker d (guarded_order now a body token broker d)
unfolding guarded_order
guarded_order-answered now a body token broker d = elim (Bool-cases (a.user_id == 0)) [
  | inl z ↦ rw z (lock_step-answered now a body token broker d)
  | inr n ↦ elim (Bool-cases (check_rate_limit now a.user_id d.rates).0) [
    | inl g ↦
        rw (n, g)
          (lock_step-answered now a body token broker
            (record d { rates = (check_rate_limit now a.user_id d.rates).1 }))
    | inr g ↦ rw (n, g) (inl (refl, inl (_, refl)))
  ]
]

held_back :
    (later : ℕ) (a : OrderArgs) (body : OrderBody) (token : Result String)
    (broker : OrderBody → OrderReply) (d : Desk)
    → (a.portfolio_id == 0) ≡ false
    → (acquire_order_lock later (order_lock_key a.portfolio_id a.ticker) d.locks).0 ≡ false
    → IsHeldBack a d (lock_step later a body token broker d)
held_back later a body token broker d nz g = rw (nz, g) (refl, inl (_, refl))

locks-post :
    (a : OrderArgs) (body : OrderBody) (token : Result String) (broker : OrderBody → OrderReply)
    (d : Desk)
    → (post_order a body token broker d).1.locks ≡ d.locks
locks-post a body (raise f) broker d = refl
locks-post a body (ok t) broker d = refl

-- a call that posted holds the lock from then on
lock_step-locks :
    (now : ℕ) (a : OrderArgs) (body : OrderBody) (token : Result String)
    (broker : OrderBody → OrderReply) (d : Desk)
    → (a.portfolio_id == 0) ≡ false
    → (lock_step now a body token broker d).1.posted ≢ d.posted
    → ((acquire_order_lock now (order_lock_key a.portfolio_id a.ticker) d.locks).0 ≡ true)
      × ((lock_step now a body token broker d).1.locks
          ≡ (acquire_order_lock now (order_lock_key a.portfolio_id a.ticker) d.locks).1)
lock_step-locks now a body token broker d nz post =
    elim (Bool-cases (acquire_order_lock now (order_lock_key a.portfolio_id a.ticker) d.locks).0) [
      | inl g ↦ (g, rw (nz, g) (locks-post a body token broker _))
      | inr g ↦ absurd (post (rw (nz, g) refl))
    ]

lock_step-twice :
    (now later : ℕ) (a a' : OrderArgs) (body body' : OrderBody) (token token' : Result String)
    (broker broker' : OrderBody → OrderReply) (d d' : Desk)
    → (a.portfolio_id == 0) ≡ false
    → a'.portfolio_id ≡ a.portfolio_id
    → a'.ticker ≡ a.ticker
    → later ≤ now + order_lock_ttl
    → d'.locks ≡ (lock_step now a body token broker d).1.locks
    → (lock_step now a body token broker d).1.posted ≢ d.posted
    → IsHeldBack a' d' (lock_step later a' body' token' broker' d')
lock_step-twice now later a a' body body' token token' broker broker' d d' nz p t h l post =
    let (granted, locks) = lock_step-locks now a body token broker d nz post in
    let key = order_lock_key a.portfolio_id a.ticker in
    held_back later a' body' token' broker' d' (rw p nz)
      (rw (p, t, l, locks) (order_lock-excludes now later key d.locks granted h))

-- the step behind the limit, and the desk it starts from
guarded_order-lock :
    (now : ℕ) (a : OrderArgs) (body : OrderBody) (token : Result String)
    (broker : OrderBody → OrderReply) (d : Desk)
    → IsHeldBack a d (guarded_order now a body token broker d)
      ⊎ ((e : Desk) × (e.posted ≡ d.posted)
          × (e.locks ≡ d.locks)
          × (guarded_order now a body token broker d ≡ lock_step now a body token broker e))
unfolding guarded_order
guarded_order-lock now a body token broker d = elim (Bool-cases (a.user_id == 0)) [
  | inl z ↦ rw z (inr (d, refl, refl, refl))
  | inr n ↦ elim (Bool-cases (check_rate_limit now a.user_id d.rates).0) [
    | inl g ↦ rw (n, g) (inr (_, refl, refl, refl))
    | inr g ↦ rw (n, g) (inl (refl, inl (_, refl)))
  ]
]

-- After a call that posted an order, another call for the same portfolio and ticker posts nothing
-- until ten seconds have passed, whatever its user, side, quantity and price, where nothing else
-- touches the locks in between and the portfolio's number is not zero.
pub guarded_order-twice :
    (now later : ℕ) (a a' : OrderArgs) (body body' : OrderBody) (token token' : Result String)
    (broker broker' : OrderBody → OrderReply) (d d' : Desk)
    → (a.portfolio_id == 0) ≡ false
    → a'.portfolio_id ≡ a.portfolio_id
    → a'.ticker ≡ a.ticker
    → later ≤ now + order_lock_ttl
    → d'.locks ≡ (guarded_order now a body token broker d).1.locks
    → (guarded_order now a body token broker d).1.posted ≢ d.posted
    → IsHeldBack a' d' (guarded_order later a' body' token' broker' d')
guarded_order-twice now later a a' body body' token token' broker broker' d d' nz p t h l post =
    elim (guarded_order-lock now a body token broker d) [
      | inl (same, _) ↦ absurd (post same)
      | inr (e, ep, el, eq) ↦ elim (guarded_order-lock later a' body' token' broker' d') [
        | inl held ↦ held
        | inr (e', ep', el', eq') ↦
            let (kept, end) =
              lock_step-twice now later a a' body body' token token' broker broker' e e' nz p t h
                (el' ∙ l ∙ ap (λ r. r.1.locks) eq) (λ s. post (ap (λ r. r.1.posted) eq ∙ s ∙ ep)) in
            rw eq' (kept ∙ ep', end)
      ]
    ]
