-- ===== src/Orders/Cancelled.antt =====
-- What a cancellation comes to, for the orders and for the fills that are booked later.
use mathlib.Core.Path.{subst}
use the_wealth.Base.{
  ℕ, ◌≡◌, ◌≢◌, refl, sym, ◌∙◌, inl, inr, Bool, true, Option, none, some, List, [], ◌∷◌, map, String,
  ◌==◌, All, arith, Bool-cases, select, if◌then◌else◌,
}
use the_wealth.Outcome.{Result, ok, raise, >>=-Passed, scalar_one_or_none}
use the_wealth.Store.{cancelled, Order, Portfolio, KisAccount}
use the_wealth.Placement.{OrderReply}
use the_wealth.Settlement.Query.{OrderTables, get_portfolio_with_kis, as_bad_gateway}
use the_wealth.Settlement.Endpoint.{IsTheirs, get_portfolio_with_kis-IsTheirs, as_bad_gateway-ok}
use the_wealth.Orders.{
  CancelArgs, CancelBody, cancel_body, is_cancelled, cancel_order, is_order, mark_cancelled,
  clear_cash, cancel_order_endpoint,
}

-- no primary key twice
abbrev pub OrderIdsDistinct : List Order → Type 0
OrderIdsDistinct [] = Unit
OrderIdsDistinct (o ∷ os) = All (λ p. p.id ≢ o.id) os × OrderIdsDistinct os

abbrev pub cancel_named : ℕ → String → Order → Order
cancel_named pid number o = if is_order pid number o then record o { status = cancelled } else o

-- rows that the update by primary key passes over
unmarked :
    (found : Order) (os : List Order)
    → All (λ p. p.id ≢ found.id) os
    → map (λ o. if o.id == found.id then record o { status = cancelled } else o) os ≡ os
unmarked found [] d = refl
unmarked found (o ∷ os) (n, d) = ground (arith, unmarked found os d)

-- no row is named, so none is changed
unnamed :
    (pid : ℕ) (number : String) (os : List Order)
    → select (is_order pid number) os ≡ []
    → map (cancel_named pid number) os ≡ os
unnamed pid number [] h = refl
unnamed pid number (o ∷ os) h = elim (Bool-cases (is_order pid number o)) [
  | inl e ↦ absurd (cc (rw e at h))
  | inr e ↦ rw (e, unnamed pid number os (rw e at h)) refl
]

tail_empty :
    {A : Type 0} (y : A) (ys : List A) {found : Option A}
    → scalar_one_or_none (y ∷ ys) ≡ ok found
    → (found ≡ some y) × (ys ≡ [])
tail_empty y [] h = (cc, refl)
tail_empty y (z ∷ zs) h = absurd (cc h)

none-empty : {A : Type 0} (xs : List A) → scalar_one_or_none xs ≡ ok none → xs ≡ []
none-empty [] h = refl
none-empty (x ∷ []) h = absurd (cc h)
none-empty (x ∷ y ∷ xs) h = absurd (cc h)

found-All :
    (P : Order → Type 0) (p : Order → Bool) (os : List Order) {found : Order}
    → All P os
    → scalar_one_or_none (select p os) ≡ ok (some found)
    → P found
found-All P p [] a h = absurd (cc h)
found-All P p (o ∷ os) (a, all) h = elim (Bool-cases (p o)) [
  | inl e ↦ subst P (cc ((tail_empty o (select p os) (rw e at h)).0)) a
  | inr e ↦ found-All P p os all (rw e at h)
]

found-named :
    (pid : ℕ) (number : String) (os : List Order) {found : Order}
    → OrderIdsDistinct os
    → scalar_one_or_none (select (is_order pid number) os) ≡ ok (some found)
    → mark_cancelled (some found) os ≡ map (cancel_named pid number) os
found-named pid number [] d h = refl
found-named pid number (o ∷ os) {found} (n, d) h = elim (Bool-cases (is_order pid number o)) [
  | inl e ↦
      let (f, r) = tail_empty o (select (is_order pid number) os) (rw e at h) in
      let same : found ≡ o = cc f in
      subst (λ f. mark_cancelled (some f) (o ∷ os) ≡ map (cancel_named pid number) (o ∷ os))
        (sym same) (rw (e, unmarked o os n, unnamed pid number os r) (ground arith))
  | inr e ↦
      let k = rw e at h in
      let other = found-All (λ q. q.id ≢ o.id) (is_order pid number) os n k in
      rw (e, sym (found-named pid number os d k)) (ground (arith, other))
]

mark_cancelled-named :
    (pid : ℕ) (number : String) (os : List Order) (found : Option Order)
    → OrderIdsDistinct os
    → scalar_one_or_none (select (is_order pid number) os) ≡ ok found
    → mark_cancelled found os ≡ map (cancel_named pid number) os
mark_cancelled-named pid number os none d h =
    sym (unnamed pid number os (none-empty (select (is_order pid number) os) h))
mark_cancelled-named pid number os (some found) d h = found-named pid number os d h

-- what a cancellation has behind it
pub record Withdrawn (broker : CancelBody → OrderReply) (pid user : ℕ) (a : CancelArgs)
    (db db' : OrderTables) : Type 0 where
  portfolio : Portfolio
  account : KisAccount
  keys : String × String
  pub theirs : IsTheirs pid user db (portfolio, (account, keys))
  confirmed : is_cancelled (broker (cancel_body account a)) ≡ true
  pub marked : db'.orders ≡ map (cancel_named pid a.order_no) db.orders
  unbooked : db'.books ≡ db.books
  cleared : db'.cleared ≡ (clear_cash pid account.id user db).cleared

cancel_order-is_cancelled :
    (acct : KisAccount) (a : CancelArgs) (token : Result String) (broker : CancelBody → OrderReply)
    {u : Unit {0}}
    → cancel_order acct a token broker ≡ ok u
    → is_cancelled (broker (cancel_body acct a)) ≡ true
cancel_order-is_cancelled acct a (raise f) broker h = absurd (cc h)
cancel_order-is_cancelled acct a (ok t) broker h =
    elim (Bool-cases (is_cancelled (broker (cancel_body acct a)))) [
      | inl e ↦ e
      | inr e ↦ absurd (cc (rw e at h))
    ]

-- A cancellation succeeds only for the owner of the portfolio, a row of its table, and after the
-- broker confirmed it; then exactly the rows of the portfolio with the order's number, of which there is at most one, are
-- marked as cancelled, nothing is booked, and the four caches of cash and prices are cleared, where
-- no primary key of an order is there twice.
pub cancel_order_endpoint-Withdrawn :
    (decrypt : String → Option String) (token : (String × String) → Result String)
    (broker : CancelBody → OrderReply) (pid user : ℕ) (a : CancelArgs) (db : OrderTables)
    {db' : OrderTables}
    → OrderIdsDistinct db.orders
    → cancel_order_endpoint decrypt token broker pid user a db ≡ ok db'
    → Withdrawn broker pid user a db db'
unfolding cancel_order_endpoint
cancel_order_endpoint-Withdrawn decrypt token broker pid user a db {db'} d h =
    let (got, e, r) = >>=-Passed (get_portfolio_with_kis decrypt pid user db) _ h in
    let theirs = get_portfolio_with_kis-IsTheirs decrypt pid user db e in
    let (_, f, r₁) =
      >>=-Passed (as_bad_gateway (cancel_order got.1.0 a (token got.1.1) broker)) _ r in
    let (found, g, r₂) =
      >>=-Passed (scalar_one_or_none (select (is_order pid a.order_no) db.orders)) _ r₁ in
    let orders : db'.orders ≡ mark_cancelled found db.orders = cc r₂ in
    record {
      portfolio = got.0;
      account = got.1.0;
      keys = got.1.1;
      theirs = theirs;
      confirmed =
          cancel_order-is_cancelled got.1.0 a (token got.1.1) broker (as_bad_gateway-ok _ f);
      marked = orders ∙ mark_cancelled-named pid a.order_no db.orders found d g;
      unbooked = cc r₂;
      cleared = cc r₂;
    }
