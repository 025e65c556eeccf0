-- ===== src/Settlement/Booked.antt =====
-- The transactions account for what the orders say was filled.
use the_wealth.Base.{
  ℕ, ◌+◌, ◌≡◌, refl, ap, Bool, true, false, ◌&&◌, Option, none, some, List, [], ◌∷◌, ◌++◌, String,
  ◌==◌, arith, inl, inr, Option-cases, if◌then◌else◌, select,
}
use the_wealth.Base.Int.{ℤ, pos, ◌+ℤ◌, ◌-ℤ◌, pos_part, neg_part, int_laws}
use the_wealth.Base.Text.{Dict, opt_eq}
use the_wealth.Outcome.{ok, >>=-Passed, scalar_one_or_none}
use the_wealth.Store.{Side, buy, sell, filled, partial, Holding, Order, Transaction}
use the_wealth.Store.Holdings.{is_holding}
use the_wealth.Settlement.Broker.{CcldRow, FilledOrderInfo, filled_infos, add_infos}
use the_wealth.Settlement.Fill.{Books, fill_holding, update_holdings_for_fill, text_or, decimal_or}
use the_wealth.Settlement.Step.{
  not_asked, no_news, newly_filled, settle_order-inv, is_pending-portfolio, settle_loop-inv,
  settle_loop-nil,
}
use the_wealth.Settlement.Loop.{
  is_pending, count_fill, fill_transaction, book_fill, settle_order, settle_loop, settle_numbers,
  settle_pending_orders, order_nos, no_counts,
}

fill_holding-transactions :
    (h : Option Holding) (pid : ℕ) (t n : String) (side : Side) (q p : ℤ) (s : Books)
    → (fill_holding h pid t n side q p s).transactions ≡ s.transactions
fill_holding-transactions none pid t n buy q p s = refl
fill_holding-transactions (some h) pid t n buy q p s = refl
fill_holding-transactions none pid t n sell q p s = refl
fill_holding-transactions (some h) pid t n sell q p s = refl

update_holdings-transactions :
    (pid : ℕ) (t n : String) (side : Side) (q p : ℤ) (s : Books) {s' : Books}
    → update_holdings_for_fill pid t n side q p s ≡ ok s'
    → s'.transactions ≡ s.transactions
unfolding update_holdings_for_fill
update_holdings-transactions pid t n side q p s h =
    let (found, _, e) =
      >>=-Passed (scalar_one_or_none (select (is_holding pid t) s.holdings))
        (λ f. ok (fill_holding f pid t n side q p s)) h in
    grind (arith, fill_holding-transactions found pid t n side q p s)

-- what an order says was filled, for one portfolio and one order number
abbrev pub filled_of : ℕ → String → Order → ℤ
filled_of q n o =
    if (o.portfolio_id == q) && opt_eq o.order_no (some n)
    then decimal_or o.filled_quantity (pos 0)
    else pos 0

abbrev pub total_filled : ℕ → String → List Order → ℤ
total_filled q n [] = pos 0
total_filled q n (o ∷ os) = filled_of q n o +ℤ total_filled q n os

abbrev pub booked_of : ℕ → String → Transaction → ℤ
booked_of q n t = if (t.portfolio_id == q) && opt_eq t.order_no (some n) then t.quantity else pos 0

abbrev pub total_booked : ℕ → String → List Transaction → ℤ
total_booked q n [] = pos 0
total_booked q n (t ∷ ts) = booked_of q n t +ℤ total_booked q n ts

total_booked-snoc :
    (q : ℕ) (n : String) (ts : List Transaction) (t : Transaction)
    → total_booked q n (ts ++ t ∷ []) ≡ total_booked q n ts +ℤ booked_of q n t
total_booked-snoc q n [] t = omega int_laws
total_booked-snoc q n (u ∷ ts) t = rw (total_booked-snoc q n ts t) (omega int_laws)

-- What a booked fill leaves: the order, and the transactions with one more.
pub book_fill-inv :
    (now pid : ℕ) (o : Order) (number : String) (info : FilledOrderInfo) (d : ℤ) (s : Books)
    {o' : Order} {s' : Books}
    → book_fill now pid o number info d s ≡ ok (o', s')
    → (o' ≡ record o {
      filled_quantity = some info.filled_quantity;
      filled_price = some info.filled_price;
      status = if info.is_fully_filled then filled else partial;
    })
      × (s'.transactions ≡ s.transactions ++ fill_transaction now s.next pid number info d ∷ [])
unfolding book_fill
book_fill-inv now pid o number info d s h =
    let s₁ = record s {
      transactions = s.transactions ++ fill_transaction now s.next pid number info d ∷ [];
      next = s.next + 1;
      counts = count_fill info.is_fully_filled s.counts;
    } in
    let m =
      update_holdings_for_fill pid info.ticker (text_or o.name info.ticker) info.order_type d
        info.filled_price s₁ in
    let (s₂, e, f) = >>=-Passed m _ h in
    let u =
      update_holdings-transactions pid info.ticker (text_or o.name info.ticker) info.order_type d
        info.filled_price s₁ e in
    (cc, ground (arith, u))

fill_balance :
    (same : Bool) (a x p : ℤ)
    → a +ℤ (if same then x -ℤ p else pos 0) +ℤ (if same then p else pos 0)
      ≡ a +ℤ (if same then x else pos 0)
fill_balance true a x p = omega int_laws
fill_balance false a x p = omega int_laws

regroup :
    (a b c f f' g g' : ℤ) → b +ℤ f ≡ a +ℤ f' → c +ℤ g ≡ b +ℤ g' → c +ℤ (f +ℤ g) ≡ a +ℤ (f' +ℤ g')
regroup a b c f f' g g' h k =
    omega (int_laws, ap pos_part h, ap neg_part h, ap pos_part k, ap neg_part k)

module _ (q : ℕ) (n : String) where
  -- what was filled and not booked stays the same, as one order goes from `o` to `o'`
  abbrev IsBalanced : List Transaction → ℤ → List Transaction → ℤ → Type 0
  IsBalanced ts f ts' f' = total_booked q n ts' +ℤ f ≡ total_booked q n ts +ℤ f'

  settle_order-balance :
      (now pid : ℕ) (m : Dict FilledOrderInfo) (o : Order) (s : Books) {o' : Order} {s' : Books}
      → settle_order now pid m o s ≡ ok (o', s')
      → IsBalanced s.transactions (filled_of q n o) s'.transactions (filled_of q n o')
  settle_order-balance now pid m o s {o'} {s'} h = elim (settle_order-inv now pid m o s h) [
    | inl (not_asked _ e f) ↦ rw (e, f) refl
    | inl (no_news _ e f) ↦ rw (e, f) refl
    | inr b ↦
        let (e, f) = book_fill-inv now pid o b.number b.info (newly_filled o b.info) s b.booked in
        rw (e, f, total_booked-snoc q n s.transactions _)
          (rw (is_pending-portfolio pid o b.open_order, b.numbered)
            (fill_balance ((pid == q) && opt_eq (some b.number) (some n)) _ _ _))
  ]

  settle_loop-balance :
      (now pid : ℕ) (m : Dict FilledOrderInfo) (os : List Order) (s : Books) {os' : List Order}
      {s' : Books}
      → settle_loop now pid m os s ≡ ok (os', s')
      → IsBalanced s.transactions (total_filled q n os) s'.transactions (total_filled q n os')
  settle_loop-balance now pid m [] s h =
      let (e, f) = settle_loop-nil now pid m s h in rw (e, f) refl
  settle_loop-balance now pid m (o ∷ os) s h =
      let l = settle_loop-inv now pid m o os s h in
      rw l.orders_eq (
        regroup _ _ _ _ _ _ _ (settle_order-balance now pid m o s l.first)
          (settle_loop-balance now pid m os l.between l.then_rest))

settle_numbers-balance :
    (q : ℕ) (n : String) (now pid : ℕ) (answer : List String → Option (List CcldRow))
    (numbers : List String) (orders : List Order) (s : Books) {orders' : List Order} {s' : Books}
    → settle_numbers now pid answer numbers orders s ≡ ok (orders', s')
    → total_booked q n s'.transactions +ℤ total_filled q n orders
      ≡ total_booked q n s.transactions +ℤ total_filled q n orders'
settle_numbers-balance q n now pid answer [] orders s {orders'} {s'} h =
    let e : orders' ≡ orders = cc in let f : s' ≡ s = cc in rw (e, f) refl
settle_numbers-balance q n now pid answer (k ∷ ks) orders s {orders'} {s'} h =
    elim (Option-cases (answer (k ∷ ks))) [
      | inl e ↦ cc (rw e at h)
      | inr (rows, e) ↦
          settle_loop-balance q n now pid (add_infos [] (filled_infos (k ∷ ks) rows)) orders s
            (rw e at h)
    ]

-- When `settle_pending_orders` gives a result, then for every portfolio and every order number the
-- quantity that its transactions book has grown by exactly what its orders' filled quantity has.
pub settle-balance :
    (now pid : ℕ) (answer : List String → Option (List CcldRow)) (orders : List Order) (s : Books)
    {orders' : List Order} {s' : Books} (q : ℕ) (n : String)
    → settle_pending_orders now pid answer orders s ≡ ok (orders', s')
    → total_booked q n s'.transactions +ℤ total_filled q n orders
      ≡ total_booked q n s.transactions +ℤ total_filled q n orders'
unfolding settle_pending_orders
settle-balance now pid answer orders s q n h =
    settle_numbers-balance q n now pid answer (order_nos (select (is_pending pid) orders)) orders
      (record s { counts = no_counts }) h
