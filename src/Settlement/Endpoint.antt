-- ===== src/Settlement/Endpoint.antt =====
-- api/orders.py, `settle_orders_endpoint`: who may settle, and what a settlement comes to.
use mathlib.Core.Path.{subst}
use the_wealth.Base.{
  ℕ, ◌≡◌, ◌⊎◌, sym, find, ap, ◌∙◌, Bool, true, ◌&&◌, Option, none, some, List, [], ◌∷◌, ◌++◌,
  String, ◌==◌, arith, Bool-cases, inl, inr, select,
}
use the_wealth.Base.Int.{◌+ℤ◌}
use the_wealth.Outcome.{
  Result, ok, raise, >>=-Passed, or_raise, scalar_one_or_none, http_exception, runtime_error,
  value_error, transport_error, other_error, multiple_results_found,
}
use the_wealth.Store.{Portfolio, KisAccount}
use the_wealth.Settlement.Broker.{CcldRow}
use the_wealth.Settlement.Loop.{settle_pending_orders}
use the_wealth.Settlement.Booked.{total_filled, total_booked, settle-balance}
use the_wealth.Settlement.Query.{
  Attempt, check_filled_orders, OrderTables, CashCache, portfolio_cash, account_cash, user_summary,
  user_portfolios, get_portfolio_with_kis, as_bad_gateway, settle_orders_endpoint, linked_account,
  decrypt_keys,
}

only_row :
    {A : Type 0} (y : A) (zs : List A) {x : A} → scalar_one_or_none (y ∷ zs) ≡ ok (some x) → y ≡ x
only_row y [] h = cc
only_row y (z ∷ zs) h = cc

first_passes :
    {A : Type 0} (p : A → Bool) (y : A) (ys : List A) {x : A}
    → p y ≡ true
    → scalar_one_or_none (y ∷ select p ys) ≡ ok (some x)
    → p x ≡ true
first_passes p y ys e h = subst (λ z. p z ≡ true) (only_row y (select p ys) h) e

passes :
    {A : Type 0} (p : A → Bool) (xs : List A) {x : A}
    → scalar_one_or_none (select p xs) ≡ ok (some x)
    → p x ≡ true
passes p [] h = cc
passes p (y ∷ ys) h = elim (Bool-cases (p y)) [
  | inl e ↦ first_passes p y ys e (rw e at h)
  | inr e ↦ passes p ys (rw e at h)
]

-- one of the rows of a table
abbrev pub IsRow : {A : Type 0} → A → List A → Type 0
IsRow x [] = ⊥
IsRow x (y ∷ ys) = (y ≡ x) ⊎ IsRow x ys

first_row :
    {A : Type 0} (p : A → Bool) (y : A) (ys : List A) {x : A}
    → scalar_one_or_none (y ∷ select p ys) ≡ ok (some x)
    → IsRow x (y ∷ ys)
first_row p y ys h = inl (only_row y (select p ys) h)

-- what a query finds is a row of its table
scalar_one_or_none-IsRow :
    {A : Type 0} (p : A → Bool) (xs : List A) {x : A}
    → scalar_one_or_none (select p xs) ≡ ok (some x)
    → IsRow x xs
scalar_one_or_none-IsRow p [] h = cc
scalar_one_or_none-IsRow p (y ∷ ys) h = elim (Bool-cases (p y)) [
  | inl e ↦ first_row p y ys (rw e at h)
  | inr e ↦ inr (scalar_one_or_none-IsRow p ys (rw e at h))
]

pub as_bad_gateway-ok : {A : Type 0} (m : Result A) {a : A} → as_bad_gateway m ≡ ok a → m ≡ ok a
as_bad_gateway-ok (ok a) h = h
as_bad_gateway-ok (raise runtime_error) h = cc
as_bad_gateway-ok (raise (http_exception s)) h = cc
as_bad_gateway-ok (raise multiple_results_found) h = cc
as_bad_gateway-ok (raise value_error) h = cc
as_bad_gateway-ok (raise transport_error) h = cc
as_bad_gateway-ok (raise other_error) h = cc

pub or_raise-some :
    {A : Type 0} (o : Option A) (s : ℕ) {a : A} → or_raise o (http_exception s) ≡ ok a → o ≡ some a
or_raise-some none s h = cc
or_raise-some (some a) s h = cc

-- The portfolio and the account that a request is for: the portfolio is a row of its table, with the
-- id that was asked for and this owner; the account is the row that the portfolio is linked to.
pub record IsTheirs (pid user : ℕ) (db : OrderTables)
    (got : Portfolio × (KisAccount × (String × String))) : Type 0 where
  pub is_row : IsRow got.0 db.portfolios
  pub right_id : got.0.id ≡ pid
  pub right_user : got.0.user_id ≡ user
  pub account_id : ℕ
  pub linked : linked_account got.0.kis_account_id ≡ some account_id
  pub its_account : find (λ a. a.id == account_id) db.accounts ≡ some got.1.0

pub get_portfolio_with_kis-IsTheirs :
    (decrypt : String → Option String) (pid user : ℕ) (db : OrderTables)
    {got : Portfolio × (KisAccount × (String × String))}
    → get_portfolio_with_kis decrypt pid user db ≡ ok got
    → IsTheirs pid user db got
unfolding get_portfolio_with_kis
get_portfolio_with_kis-IsTheirs decrypt pid user db {got} h =
    let (found, e, h₁) =
      >>=-Passed
        (scalar_one_or_none (select (λ p. (p.id == pid) && (p.user_id == user)) db.portfolios)) _
        h in
    let (portfolio, f, h₂) = >>=-Passed (or_raise found (http_exception 404)) _ h₁ in
    let (i, g, h₃) =
      >>=-Passed (or_raise (linked_account portfolio.kis_account_id) (http_exception 400)) _ h₂ in
    let (acct, k, h₄) =
      >>=-Passed (or_raise (find (λ a. a.id == i) db.accounts) (http_exception 404)) _ h₃ in
    let (keys, _, h₅) =
      >>=-Passed (or_raise (decrypt_keys decrypt acct) (http_exception 500)) _ h₄ in
    let same : portfolio ≡ got.0 = cc in
    let own : acct ≡ got.1.0 = cc in
    let one = e ∙ ap ok (or_raise-some found 404 f) in
    let test : ((portfolio.id == pid) && (portfolio.user_id == user)) ≡ true =
      passes (λ p. (p.id == pid) && (p.user_id == user)) db.portfolios one in
    record {
      is_row =
          subst (λ p. IsRow p db.portfolios) same
            (scalar_one_or_none-IsRow (λ p. (p.id == pid) && (p.user_id == user)) db.portfolios
              one);
      right_id = ap (λ p. p.id) (sym same) ∙ ground (arith, test);
      right_user = ap (λ p. p.user_id) (sym same) ∙ ground (arith, test);
      account_id = i;
      linked =
          ap (λ p. linked_account p.kis_account_id) (sym same)
          ∙ or_raise-some (linked_account portfolio.kis_account_id) 400 g;
      its_account = or_raise-some (find (λ a. a.id == i) db.accounts) 404 k ∙ ap some own;
    }

-- the four caches that a settlement clears
abbrev pub cash_caches : ℕ → ℕ → ℕ → List CashCache
cash_caches pid account user =
    portfolio_cash pid ∷ account_cash account ∷ user_summary user ∷ user_portfolios user ∷ []

-- what a settlement that succeeds has behind it, and what it has done
pub record Settled (pid user : ℕ) (db db' : OrderTables) : Type 0 where
  pub portfolio : Portfolio
  pub account : KisAccount
  pub keys : String × String
  pub theirs : IsTheirs pid user db (portfolio, (account, keys))
  cleared : db'.cleared ≡ db.cleared ++ cash_caches pid account.id user
  balanced :
      (q : ℕ) (n : String)
      → total_booked q n db'.books.transactions +ℤ total_filled q n db.orders
        ≡ total_booked q n db.books.transactions +ℤ total_filled q n db'.orders

-- The endpoint that settles by hand succeeds only where the table of portfolios has a row with this
-- id whose owner is this user, linked to an account that is there; then the transactions have grown
-- by what the orders' filled quantity has, for every portfolio and order number, and the four caches
-- of cash and prices, those of that account among them, are cleared.
pub settle_orders_endpoint-Settled :
    (now : ℕ) (decrypt : String → Option String)
    (replies : KisAccount → String × String → Attempt × Attempt) (pid user : ℕ) (db : OrderTables)
    {db' : OrderTables}
    → settle_orders_endpoint now decrypt replies pid user db ≡ ok db'
    → Settled pid user db db'
unfolding settle_orders_endpoint
settle_orders_endpoint-Settled now decrypt replies pid user db {db'} h =
    let (got, e, h₁) = >>=-Passed (get_portfolio_with_kis decrypt pid user db) _ h in
    let v = get_portfolio_with_kis-IsTheirs decrypt pid user db e in
    let pair = replies got.1.0 got.1.1 in
    let answer : List String → Option (List CcldRow) =
      λ numbers. (check_filled_orders pair.0 pair.1).1 in
    let (after, f, h₂) =
      >>=-Passed (as_bad_gateway (settle_pending_orders now pid answer db.orders db.books)) _ h₁ in
    let books : after.1 ≡ db'.books = cc (h₂) in
    let orders : after.0 ≡ db'.orders = cc (h₂) in
    record {
      portfolio = got.0;
      account = got.1.0;
      keys = got.1.1;
      theirs = v;
      cleared = cc (h₂);
      balanced = λ q n.
          rw (sym books, sym orders)
            (settle-balance now pid answer db.orders db.books q n (as_bad_gateway-ok _ f));
    }
