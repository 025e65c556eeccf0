-- ===== src/Settlement/Step.antt =====
-- One order of the loop: it is passed over, or its new fill is booked.
use the_wealth.Base.{
  ℕ, ◌≡◌, refl, ◌⊎◌, inl, inr, true, false, Option, none, some, List, [], ◌∷◌, String, arith,
  Bool-cases,
}
use the_wealth.Base.Int.{ℤ, pos, ◌-ℤ◌, leb_ℤ}
use the_wealth.Base.Text.{Dict, lookup, str_eq}
use the_wealth.Outcome.{Result, ok, >>=-Passed}
use the_wealth.Store.{Order}
use the_wealth.Settlement.Broker.{FilledOrderInfo}
use the_wealth.Settlement.Fill.{Books, decimal_or}
use the_wealth.Settlement.Loop.{
  is_pending, count_unchanged, book_fill, settle_found, settle_by_number, settle_order, settle_loop,
}

-- the quantity that is filled beyond what the order says
abbrev pub newly_filled : Order → FilledOrderInfo → ℤ
newly_filled o info = info.filled_quantity -ℤ decimal_or o.filled_quantity (pos 0)

pub record Fills (now pid : ℕ) (m : Dict FilledOrderInfo) (o : Order) (s : Books) (o' : Order)
    (s' : Books) : Type 0 where
  pub number : String
  pub info : FilledOrderInfo
  pub numbered : o.order_no ≡ some number
  pub open_order : is_pending pid o ≡ true
  pub reported : lookup number m ≡ some info
  pub more : leb_ℤ (newly_filled o info) (pos 0) ≡ false
  pub booked : book_fill now pid o number info (newly_filled o info) s ≡ ok (o', s')

-- `none` of the fills: the order and the tables stay
pub data Passes (pid : ℕ) (o : Order) (s : Books) (o' : Order) (s' : Books) : Type 0 where
  not_asked : is_pending pid o ≡ false → o' ≡ o → s' ≡ s → Passes pid o s o' s'
  no_news : is_pending pid o ≡ true → o' ≡ o → s' ≡ count_unchanged s → Passes pid o s o' s'

module _ (now pid : ℕ) (m : Dict FilledOrderInfo) (o : Order) (s : Books) {o' : Order} {s' : Books}
    (p : is_pending pid o ≡ true) where
  passes :
      ◌≡◌ {A = Result (Order × Books)} (ok (o, count_unchanged s)) (ok (o', s'))
      → Passes pid o s o' s'
  passes h = let e : o' ≡ o = cc in let f : s' ≡ count_unchanged s = cc in no_news p e f

  settle_found-inv :
      (number : String) (found : Option FilledOrderInfo)
      → o.order_no ≡ some number
      → lookup number m ≡ found
      → settle_found now pid o number found s ≡ ok (o', s')
      → Passes pid o s o' s' ⊎ Fills now pid m o s o' s'
  settle_found-inv number none e f h = inl (passes h)
  settle_found-inv number (some info) e f h =
      elim (Bool-cases (leb_ℤ (newly_filled o info) (pos 0))) [
        | inl old ↦ inl (passes (rw old at h))
        | inr new ↦ inr (record {
          number = number;
          info = info;
          numbered = e;
          open_order = p;
          reported = f;
          more = new;
          booked = rw new at h;
        })
      ]

  settle_by_number-inv :
      (number : Option String)
      → o.order_no ≡ number
      → settle_by_number now pid m o number s ≡ ok (o', s')
      → Passes pid o s o' s' ⊎ Fills now pid m o s o' s'
  settle_by_number-inv none e h = inl (passes h)
  settle_by_number-inv (some number) e h = elim (Bool-cases (str_eq number "")) [
    | inl blank ↦ inl (passes (rw blank at h))
    | inr some_text ↦ settle_found-inv number (lookup number m) e refl (rw some_text at h)
  ]

skips :
    {now pid : ℕ} {m : Dict FilledOrderInfo} {o : Order} {s : Books} {o' : Order} {s' : Books}
    → is_pending pid o ≡ false
    → ◌≡◌ {A = Result (Order × Books)} (ok (o, s)) (ok (o', s'))
    → Passes pid o s o' s' ⊎ Fills now pid m o s o' s'
skips {o} {s} {o'} {s'} p h = let e : o' ≡ o = cc in let f : s' ≡ s = cc in inl (not_asked p e f)

-- A step that gives a result passed over the order or booked a fill of it.
pub settle_order-inv :
    (now pid : ℕ) (m : Dict FilledOrderInfo) (o : Order) (s : Books) {o' : Order} {s' : Books}
    → settle_order now pid m o s ≡ ok (o', s')
    → Passes pid o s o' s' ⊎ Fills now pid m o s o' s'
unfolding settle_order
settle_order-inv now pid m o s h = elim (Bool-cases (is_pending pid o)) [
  | inl p ↦ settle_by_number-inv now pid m o s p o.order_no refl (rw p at h)
  | inr p ↦ skips p (rw p at h)
]

pub is_pending-portfolio : (pid : ℕ) (o : Order) → is_pending pid o ≡ true → o.portfolio_id ≡ pid
is_pending-portfolio pid o h = ground arith

pub record LoopStep (now pid : ℕ) (m : Dict FilledOrderInfo) (o : Order) (os : List Order)
    (s : Books) (os' : List Order) (s' : Books) : Type 0 where
  pub head_order : Order
  pub between : Books
  pub rest : List Order
  pub first : settle_order now pid m o s ≡ ok (head_order, between)
  pub then_rest : settle_loop now pid m os between ≡ ok (rest, s')
  pub orders_eq : os' ≡ head_order ∷ rest

pub settle_loop-inv :
    (now pid : ℕ) (m : Dict FilledOrderInfo) (o : Order) (os : List Order) (s : Books)
    {os' : List Order} {s' : Books}
    → settle_loop now pid m (o ∷ os) s ≡ ok (os', s')
    → LoopStep now pid m o os s os' s'
unfolding settle_loop
settle_loop-inv now pid m o os s {os'} {s'} h =
    let (p, e, f) = >>=-Passed (settle_order now pid m o s) _ h in
    let (r, g, k) = >>=-Passed (settle_loop now pid m os p.1) _ f in
    record {
      head_order = p.0;
      between = p.1;
      rest = r.0;
      first = e;
      then_rest = let last : r.1 ≡ s' = cc in rw (← last) g;
      orders_eq = cc;
    }

pub settle_loop-nil :
    (now pid : ℕ) (m : Dict FilledOrderInfo) (s : Books) {os' : List Order} {s' : Books}
    → settle_loop now pid m [] s ≡ ok (os', s')
    → (os' ≡ []) × (s' ≡ s)
unfolding settle_loop
settle_loop-nil now pid m s h = (cc, cc)
