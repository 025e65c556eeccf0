-- ===== src/Orders/Placed.antt =====
-- What an order of a user comes to: the row, the position behind a sale, and the answer that is lost.
use mathlib.Core.Path.{subst}
use the_wealth.Base.{
  ℕ, ◌≡◌, refl, sym, ap, ◌∙◌, ◌⊎◌, inl, inr, Option, none, some, List, [], ◌∷◌, ◌++◌, String, leb,
  arith, Bool-cases, select, if◌then◌else◌,
}
use the_wealth.Base.Int.{◌≤ℤ◌}
use the_wealth.Outcome.{
  Result, ok, raise, Fault, ◌>>=◌, >>=-Passed, raise_if, scalar_one_or_none, http_exception,
  runtime_error, value_error, transport_error, other_error, multiple_results_found,
}
use the_wealth.Store.{
  Side, buy, sell, Status, pending, failed, shares, Holding, Order, Portfolio, KisAccount,
}
use the_wealth.Store.Holdings.{is_holding}
use the_wealth.Placement.{
  OrderArgs, OrderBody, OrderReply, no_reply, replied, OrderAnswer, OrderResult, is_zero,
  read_answer, Desk, execute_order_request, domestic_body, overseas_body, place_domestic_order,
  place_overseas_order,
}
use the_wealth.Placement.Laws.{IsHeldBack, IsPosted, guarded_order-answered}
use the_wealth.Settlement.Query.{OrderTables, get_portfolio_with_kis, as_bad_gateway}
use the_wealth.Settlement.Endpoint.{IsTheirs, get_portfolio_with_kis-IsTheirs, as_bad_gateway-ok}
use the_wealth.Orders.{
  OrderRequest, is_domestic, kis_exchange, raw_exchange, order_args, call_broker, check_holding,
  lacks, db_order, clear_cash, prepare_order, post_and_record, place_order,
}

-- the body of a request, at home or abroad
abbrev pub request_body : ℕ → ℕ → KisAccount → OrderRequest → OrderBody
request_body pid user acct body =
    if is_domestic body.ticker
    then domestic_body (order_args pid user acct body)
    else overseas_body (kis_exchange (raw_exchange body.exchange_code))
        (order_args pid user acct body)

call_broker-answered :
    (now pid user : ℕ) (acct : KisAccount) (body : OrderRequest) (token : Result String)
    (broker : OrderBody → OrderReply) (d : Desk)
    → IsHeldBack
        (order_args pid user acct body)
        d
        (call_broker now pid user acct body token broker d)
      ⊎ IsPosted
          (order_args pid user acct body)
          (request_body pid user acct body)
          broker
          d
          (call_broker now pid user acct body token broker d)
unfolding place_domestic_order place_overseas_order
call_broker-answered now pid user acct body token broker d =
    let a = order_args pid user acct body in
    elim (Bool-cases (is_domestic body.ticker)) [
      | inl h ↦ rw h (guarded_order-answered now a (domestic_body a) token broker d)
      | inr h ↦ rw h (
          guarded_order-answered now a
            (overseas_body (kis_exchange (raw_exchange body.exchange_code)) a) token broker d)
    ]

-- a sale is of a position that holds as much
abbrev pub IsCovered : Side → ℕ → String → ℕ → List Holding → Type 0
IsCovered buy pid ticker quantity holdings = Unit
IsCovered sell pid ticker quantity holdings =
    (h : Holding) × (scalar_one_or_none (select (is_holding pid ticker) holdings) ≡ ok (some h))
    × (shares quantity ≤ℤ h.quantity)

lacks-IsCovered :
    (pid : ℕ) (ticker : String) (quantity : ℕ) (holdings : List Holding) (found : Option Holding)
    {u : Unit {0}}
    → scalar_one_or_none (select (is_holding pid ticker) holdings) ≡ ok found
    → raise_if (lacks found quantity) (http_exception 400) ≡ ok u
    → IsCovered sell pid ticker quantity holdings
lacks-IsCovered pid ticker quantity holdings none e r = cc
lacks-IsCovered pid ticker quantity holdings (some h) e r = (h, e, ground (arith, r))

check_holding-IsCovered :
    (side : Side) (pid : ℕ) (ticker : String) (quantity : ℕ) (holdings : List Holding)
    {u : Unit {0}}
    → check_holding side pid ticker quantity holdings ≡ ok u
    → IsCovered side pid ticker quantity holdings
check_holding-IsCovered buy pid ticker quantity holdings h = tt
check_holding-IsCovered sell pid ticker quantity holdings h =
    let rows = select (is_holding pid ticker) holdings in
    let (found, e, r) = >>=-Passed (scalar_one_or_none rows) _ h in
    lacks-IsCovered pid ticker quantity holdings found e r

-- a row for an order, failed or on its way
abbrev pub HasEnded : Status → OrderBody → Desk → Desk → Type 0
HasEnded status body d d' =
    (status ≡ failed) ⊎ ((status ≡ pending) × (d'.posted ≡ d.posted ++ body ∷ []))

read-status :
    (a : OrderArgs) (answer : Option OrderAnswer)
    → ((read_answer a answer).status ≡ failed) ⊎ ((read_answer a answer).status ≡ pending)
read-status a none = inl refl
read-status a (some answer) = elim (Bool-cases (is_zero answer.rt_cd)) [
  | inl z ↦ rw z (inr refl)
  | inr z ↦ rw z (inl refl)
]

result_of-ok : {A : Type 0} {x y : A} → ok x ≡ ok y → x ≡ y
result_of-ok e = cc

execute-status :
    (a : OrderArgs) (reply : OrderReply) {result : OrderResult}
    → execute_order_request a reply ≡ ok result
    → (result.status ≡ failed) ⊎ (result.status ≡ pending)
execute-status a no_reply h = cc
execute-status a (replied status answer) h =
    rw⁻¹ (result_of-ok h) (elim (Bool-cases (leb 500 status)) [
      | inl l ↦ rw l (inl refl)
      | inr l ↦ elim (Bool-cases (leb 400 status)) [
        | inl k ↦ rw (l, k) (inl refl)
        | inr k ↦ rw (l, k) (read-status a answer)
      ]
    ])

call_broker-HasEnded :
    (now pid user : ℕ) (acct : KisAccount) (body : OrderRequest) (token : Result String)
    (broker : OrderBody → OrderReply) (d : Desk) {result : OrderResult}
    → (call_broker now pid user acct body token broker d).0 ≡ ok result
    → HasEnded result.status
        (request_body pid user acct body)
        d
        (call_broker now pid user acct body token broker d).1
call_broker-HasEnded now pid user acct body token broker d h =
    elim (call_broker-answered now pid user acct body token broker d) [
      | inl (_, inl (_, e)) ↦ inl (sym (ap (λ r. r.status) (result_of-ok (sym e ∙ h))))
      | inl (_, inr (_, e)) ↦ absurd (cc (sym e ∙ h))
      | inr (p, e) ↦
          elim (execute-status (order_args pid user acct body)
            (broker (request_body pid user acct body)) (sym e ∙ h)) [
              | inl f ↦ inl f
              | inr g ↦ inr (g, p)
            ]
    ]

-- what an order that was recorded has behind it
pub record Placed (pid user : ℕ) (body : OrderRequest) (db : OrderTables) (d : Desk) (order : Order)
    (db' : OrderTables) (d' : Desk) : Type 0 where
  portfolio : Portfolio
  account : KisAccount
  keys : String × String
  pub theirs : IsTheirs pid user db (portfolio, (account, keys))
  covered : IsCovered body.order_type pid body.ticker body.quantity db.books.holdings
  recorded : db'.orders ≡ db.orders ++ order ∷ []
  unbooked : db'.books ≡ db.books
  ended : HasEnded order.status (request_body pid user account body) d d'
  cleared : db'.cleared ≡ (clear_cash pid account.id user db).cleared

post_and_record-Placed :
    (now : ℕ) (token : (String × String) → Result String) (broker : OrderBody → OrderReply)
    (next pid user : ℕ) (body : OrderRequest) (db : OrderTables) (d : Desk) (portfolio : Portfolio)
    (prepared : Result (KisAccount × (String × String))) {order : Order} {db' : OrderTables}
    → ((acct : KisAccount) (keys : String × String)
        → prepared ≡ ok (acct, keys)
        → IsTheirs pid user db (portfolio, (acct, keys)))
    → IsCovered body.order_type pid body.ticker body.quantity db.books.holdings
    → (post_and_record now token broker next pid user body db d prepared).0 ≡ ok (order, db')
    → Placed pid user body db d order db'
        (post_and_record now token broker next pid user body db d prepared).1
post_and_record-Placed now token broker next pid user body db d portfolio (raise f) v c h =
    absurd (cc h)
post_and_record-Placed now token broker next pid user body db d portfolio (ok (acct, keys)) {order}
      {db'} v c h =
    let (result, e, r) =
      >>=-Passed (as_bad_gateway (call_broker now pid user acct body (token keys) broker d).0) _
        h in
    let o : (db_order next pid acct body result) ≡ order = cc r in
    record {
      portfolio = portfolio;
      account = acct;
      keys = keys;
      theirs = v acct keys refl;
      covered = c;
      recorded = cc r;
      unbooked = cc r;
      ended = rw⁻¹ o (
          call_broker-HasEnded now pid user acct body (token keys) broker d
            (as_bad_gateway-ok _ e));
      cleared = cc r;
    }

prepared-ok :
    (now : ℕ) (token : (String × String) → Result String) (broker : OrderBody → OrderReply)
    (next pid user : ℕ) (body : OrderRequest) (db : OrderTables) (d : Desk)
    (prepared : Result (KisAccount × (String × String))) {end : Order × OrderTables}
    → (post_and_record now token broker next pid user body db d prepared).0 ≡ ok end
    → (got : KisAccount × (String × String)) × (prepared ≡ ok got)
prepared-ok now token broker next pid user body db d (raise f) h = absurd (cc h)
prepared-ok now token broker next pid user body db d (ok got) h = (got, refl)

-- An order is recorded only where the table of portfolios has a row with this id whose owner is this
-- user, linked to an account that is there, and, where it sells, only if the portfolio's one row for
-- the ticker holds the quantity; it goes to that account, its row is added with the status failed, or
-- pending where its body was posted once, no holding or transaction is written, and the four caches
-- of cash and prices are cleared.
pub place_order-Placed :
    (now : ℕ) (decrypt : String → Option String) (token : (String × String) → Result String)
    (broker : OrderBody → OrderReply) (next pid user : ℕ) (body : OrderRequest) (db : OrderTables)
    (d : Desk) {order : Order} {db' : OrderTables}
    → (place_order now decrypt token broker next pid user body db d).0 ≡ ok (order, db')
    → Placed pid user body db d order db'
        (place_order now decrypt token broker next pid user body db d).1
unfolding place_order prepare_order
place_order-Placed now decrypt token broker next pid user body db d h =
    let (got, e) =
      prepared-ok now token broker next pid user body db d (prepare_order decrypt pid user body db)
        h in
    let (found, f, r) = >>=-Passed (get_portfolio_with_kis decrypt pid user db) _ e in
    let theirs = get_portfolio_with_kis-IsTheirs decrypt pid user db f in
    let (_, c, s) =
      >>=-Passed (check_holding body.order_type pid body.ticker body.quantity db.books.holdings) _
        r in
    let kept : prepare_order decrypt pid user body db ≡ ok found.1 = e ∙ sym s in
    post_and_record-Placed now token broker next pid user body db d found.0
      (prepare_order decrypt pid user body db)
      (λ acct keys p.
        let same : found.1 ≡ (acct, keys) = result_of-ok (sym kept ∙ p) in
        subst (λ q. IsTheirs pid user db (found.0, q)) same theirs)
      (check_holding-IsCovered body.order_type pid body.ticker body.quantity db.books.holdings c) h

execute-raise :
    (a : OrderArgs) (reply : OrderReply) {fault : Fault}
    → execute_order_request a reply ≡ raise fault
    → (reply ≡ no_reply) × (fault ≡ runtime_error)
execute-raise a no_reply h = (refl, cc)
execute-raise a (replied status answer) h = absurd (cc h)

call_broker-raise :
    (now pid user : ℕ) (acct : KisAccount) (body : OrderRequest) (token : Result String)
    (broker : OrderBody → OrderReply) (d : Desk) {fault : Fault}
    → (call_broker now pid user acct body token broker d).0 ≡ raise fault
    → ((call_broker now pid user acct body token broker d).1.posted ≡ d.posted)
      ⊎ ((fault ≡ runtime_error)
          × (broker (request_body pid user acct body) ≡ no_reply)
          × ((call_broker now pid user acct body token broker d).1.posted
              ≡ d.posted ++ request_body pid user acct body ∷ []))
call_broker-raise now pid user acct body token broker d h =
    elim (call_broker-answered now pid user acct body token broker d) [
      | inl (same, _) ↦ inl same
      | inr (p, e) ↦
          let (lost, f) =
            execute-raise (order_args pid user acct body) (broker (request_body pid user acct body))
              (sym e ∙ h) in
          inr (f, lost, p)
    ]

-- nothing was posted, or the answer to the one order that was posted is lost and the request ends
-- with 502
abbrev pub IsUnrecorded :
    ℕ → ℕ → OrderRequest → (OrderBody → OrderReply) → Desk → Fault → Desk → Type 0
IsUnrecorded pid user body broker d fault d' =
    (d'.posted ≡ d.posted)
    ⊎ ((acct : KisAccount) × (fault ≡ http_exception 502)
        × (broker (request_body pid user acct body) ≡ no_reply)
        × (d'.posted ≡ d.posted ++ request_body pid user acct body ∷ []))

raised_inside :
    {A B : Type 0} (m : Result A) (make : A → B) {fault : Fault}
    → (as_bad_gateway m >>= λ a. ok (make a)) ≡ raise fault
    → (f : Fault) × (m ≡ raise f) × (as_bad_gateway m ≡ raise fault)
raised_inside (ok a) make h = absurd (cc h)
raised_inside (raise runtime_error) make h = (runtime_error, refl, cc)
raised_inside (raise (http_exception s)) make h = (http_exception s, refl, cc)
raised_inside (raise multiple_results_found) make h = (multiple_results_found, refl, cc)
raised_inside (raise value_error) make h = (value_error, refl, cc)
raised_inside (raise transport_error) make h = (transport_error, refl, cc)
raised_inside (raise other_error) make h = (other_error, refl, cc)

post_and_record-raise :
    (now : ℕ) (token : (String × String) → Result String) (broker : OrderBody → OrderReply)
    (next pid user : ℕ) (body : OrderRequest) (db : OrderTables) (d : Desk)
    (prepared : Result (KisAccount × (String × String))) {fault : Fault}
    → (post_and_record now token broker next pid user body db d prepared).0 ≡ raise fault
    → IsUnrecorded pid user body broker d fault
        (post_and_record now token broker next pid user body db d prepared).1
post_and_record-raise now token broker next pid user body db d (raise f) h = inl refl
post_and_record-raise now token broker next pid user body db d (ok (acct, keys)) h =
    let (f, e, g) =
      raised_inside (call_broker now pid user acct body (token keys) broker d).0 _ h in
    elim (call_broker-raise now pid user acct body (token keys) broker d e) [
      | inl same ↦ inl same
      | inr (r, lost, p) ↦ inr (acct, cc, lost, p)
    ]

-- Where the endpoint raises, no order was posted, or one was posted whose answer never came: the
-- request then ends with 502 and no row for the order.
pub place_order-raise :
    (now : ℕ) (decrypt : String → Option String) (token : (String × String) → Result String)
    (broker : OrderBody → OrderReply) (next pid user : ℕ) (body : OrderRequest) (db : OrderTables)
    (d : Desk) {fault : Fault}
    → (place_order now decrypt token broker next pid user body db d).0 ≡ raise fault
    → IsUnrecorded pid user body broker d fault
        (place_order now decrypt token broker next pid user body db d).1
unfolding place_order
place_order-raise now decrypt token broker next pid user body db d h =
    post_and_record-raise now token broker next pid user body db d
      (prepare_order decrypt pid user body db) h
