-- ===== src/Orders/Final.antt =====
-- What a cancellation means for the fills that are settled later.
use mathlib.Core.Path.{subst}
use the_wealth.Base.{
  ℕ, ◌≡◌, refl, sym, ap, ◌∙◌, inl, inr, true, false, Option, List, [], ◌∷◌, map, String, All, arith,
  Bool-cases, Option-cases,
}
use the_wealth.Base.Int.{ℤ, ◌+ℤ◌, pos_part, neg_part, int_laws}
use the_wealth.Base.Text.{Dict}
use the_wealth.Outcome.{Result, ok}
use the_wealth.Store.{Order}
use the_wealth.Placement.{OrderReply}
use the_wealth.Settlement.Broker.{CcldRow, FilledOrderInfo, filled_infos, add_infos}
use the_wealth.Settlement.Fill.{Books}
use the_wealth.Settlement.Loop.{
  is_open, settle_order, settle_loop, settle_numbers, settle_pending_orders,
}
use the_wealth.Settlement.Step.{
  not_asked, no_news, newly_filled, settle_order-inv, settle_loop-inv, settle_loop-nil,
}
use the_wealth.Settlement.Booked.{
  filled_of, total_filled, total_booked, book_fill-inv, settle-balance,
}
use the_wealth.Settlement.Query.{OrderTables}
use the_wealth.Orders.{CancelArgs, CancelBody, is_order, cancel_order_endpoint}
use the_wealth.Orders.Cancelled.{OrderIdsDistinct, cancel_named, cancel_order_endpoint-Withdrawn}

module _ (q : ℕ) (n : String) where
  -- the rows with the order's number are not open
  IsClosed : Order → Type 0
  IsClosed o = is_order q n o ≡ true → is_open o.status ≡ false

  filled_of-closed :
      (now pid : ℕ) (m : Dict FilledOrderInfo) (o : Order) (s : Books) {o' : Order} {s' : Books}
      → IsClosed o
      → settle_order now pid m o s ≡ ok (o', s')
      → filled_of q n o' ≡ filled_of q n o
  unfolding IsClosed
  filled_of-closed now pid m o s {o'} {s'} c h = elim (settle_order-inv now pid m o s h) [
    | inl (not_asked _ e f) ↦ ap (filled_of q n) e
    | inl (no_news _ e f) ↦ ap (filled_of q n) e
    | inr b ↦
        let (e, _) = book_fill-inv now pid o b.number b.info (newly_filled o b.info) s b.booked in
        elim (Bool-cases (is_order q n o)) [
          | inl named ↦ let shut = c named in let p = b.open_order in ground (arith, shut, p)
          | inr other ↦ rw (e, other) refl
        ]
  ]

  total_filled-closed :
      (now pid : ℕ) (m : Dict FilledOrderInfo) (os : List Order) (s : Books) {os' : List Order}
      {s' : Books}
      → All IsClosed os
      → settle_loop now pid m os s ≡ ok (os', s')
      → total_filled q n os' ≡ total_filled q n os
  total_filled-closed now pid m [] s a h = rw ((settle_loop-nil now pid m s h).0) refl
  total_filled-closed now pid m (o ∷ os) s (c, a) h =
      let l = settle_loop-inv now pid m o os s h in
      rw
        (
          l.orders_eq,
          filled_of-closed now pid m o s c l.first,
          total_filled-closed now pid m os l.between a l.then_rest,
        )
        refl

  settle_numbers-closed :
      (now pid : ℕ) (answer : List String → Option (List CcldRow)) (numbers : List String)
      (os : List Order) (s : Books) {os' : List Order} {s' : Books}
      → All IsClosed os
      → settle_numbers now pid answer numbers os s ≡ ok (os', s')
      → total_filled q n os' ≡ total_filled q n os
  settle_numbers-closed now pid answer [] os s {os'} a h =
      let e : os' ≡ os = cc in ap (total_filled q n) e
  settle_numbers-closed now pid answer (k ∷ ks) os s a h = elim (Option-cases (answer (k ∷ ks))) [
    | inl e ↦ absurd (cc (rw e at h))
    | inr (rows, e) ↦
        total_filled-closed now pid (add_infos [] (filled_infos (k ∷ ks) rows)) os s a (rw e at h)
  ]

  named-IsClosed : (o : Order) → IsClosed (cancel_named q n o)
  unfolding IsClosed
  named-IsClosed o h = elim (Bool-cases (is_order q n o)) [
    | inl e ↦ rw e refl
    | inr e ↦ absurd (cc (e, rw e at h))
  ]

  cancel_named-IsClosed : (os : List Order) → All IsClosed (map (cancel_named q n) os)
  unfolding IsClosed
  cancel_named-IsClosed [] = tt
  cancel_named-IsClosed (o ∷ os) = (named-IsClosed o, cancel_named-IsClosed os)

cancelled_total : (a b f : ℤ) → a +ℤ f ≡ b +ℤ f → a ≡ b
cancelled_total a b f h = omega (int_laws, ap pos_part h, ap neg_part h)

-- A settlement that follows a cancellation, with nothing in between, books no more of the order,
-- whatever the broker reports as filled: the transactions under its number keep their total.
pub cancel_order_endpoint-final :
    (decrypt : String → Option String) (token : (String × String) → Result String)
    (broker : CancelBody → OrderReply) (pid user : ℕ) (a : CancelArgs) (db : OrderTables) (now : ℕ)
    (answer : List String → Option (List CcldRow)) {db' : OrderTables} {os : List Order} {s : Books}
    → OrderIdsDistinct db.orders
    → cancel_order_endpoint decrypt token broker pid user a db ≡ ok db'
    → settle_pending_orders now pid answer db'.orders db'.books ≡ ok (os, s)
    → total_booked pid a.order_no s.transactions
      ≡ total_booked pid a.order_no db'.books.transactions
unfolding settle_pending_orders
cancel_order_endpoint-final decrypt token broker pid user a db now answer {db'} {os} {s} d h k =
    let w = cancel_order_endpoint-Withdrawn decrypt token broker pid user a db d h in
    let closed =
      subst (All (IsClosed pid a.order_no)) (sym w.marked)
        (cancel_named-IsClosed pid a.order_no db.orders) in
    let same = settle_numbers-closed pid a.order_no now pid answer _ db'.orders _ closed k in
    let balance = settle-balance now pid answer db'.orders db'.books pid a.order_no k in
    cancelled_total _ _ (total_filled pid a.order_no db'.orders)
      (balance ∙ ap (λ f. total_booked pid a.order_no db'.books.transactions +ℤ f) same)
