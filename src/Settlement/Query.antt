-- ===== src/Settlement/Query.antt =====
-- services/kis_order_query.py, `check_filled_orders`, and api/orders.py: the request for the day's
-- fills, repeated once with a new token, and the endpoint that settles by hand.
use the_wealth.Base.{
  ℕ, ◌≡◌, ◌⊎◌, Bool, ◌&&◌, ◌||◌, Option, none, some, List, [], ◌∷◌, ◌++◌, String, ◌==◌, ltb, leb,
  find, arith, select, if◌then◌else◌,
}
use the_wealth.Base.Text.{opt_eq}
use the_wealth.Outcome.{
  Result, ok, raise, ◌>>=◌, or_raise, scalar_one_or_none, http_exception, multiple_results_found,
  runtime_error, value_error, transport_error, other_error,
}
use the_wealth.Store.{Order, Portfolio, KisAccount}
use the_wealth.Settlement.Broker.{CcldRow}
use the_wealth.Settlement.Fill.{Books}
use the_wealth.Settlement.Loop.{settle_pending_orders}

-- The JSON of an answer: `output1` is absent where a number of these orders' lines cannot be read.
pub record Body : Type 0 where
  pub rt_cd : Option String
  pub output1 : Option (List CcldRow)

-- what `kis_get` comes to: an exception, or a response with its body where that is JSON
pub data Attempt : Type 0 where
  failed_call : Attempt
  answered : ℕ → Option Body → Attempt

-- `resp.raise_for_status()` passes
abbrev pub is_success : ℕ → Bool
is_success status = leb 200 status && ltb status 300

abbrev pub is_stale : ℕ → Bool
is_stale status = (status == 401) || (status == 500)

abbrev pub body_rows : Option Body → Option (List CcldRow)
body_rows none = none
body_rows (some body) = if opt_eq body.rt_cd (some "0") then body.output1 else none

-- The rows of a reply that is not answered by a new token; every failure is a `RuntimeError`.
abbrev pub read_reply : Attempt → Option (List CcldRow)
read_reply failed_call = none
read_reply (answered status body) = if is_success status then body_rows body else none

-- `_retried = True`
abbrev pub second_try : Attempt → Option (List CcldRow)
second_try a = read_reply a

-- what the function does on the way: requests, and the token that is thrown away
pub data QueryEvent : Type 0 where
  requested_fills : QueryEvent
  invalidated_token : QueryEvent

abbrev pub first_try : Attempt → Attempt → List QueryEvent × Option (List CcldRow)
first_try failed_call again = (requested_fills ∷ [], none)
first_try (answered status body) again =
    if is_stale status
    then (requested_fills ∷ invalidated_token ∷ requested_fills ∷ [], second_try again)
    else (requested_fills ∷ [], read_reply (answered status body))

-- The rows that the loop of `check_filled_orders` goes through, or nothing for the `RuntimeError`.
-- The broker's two replies are arguments: to the old token, and to the new one.
unfoldable pub check_filled_orders : Attempt → Attempt → List QueryEvent × Option (List CcldRow)
check_filled_orders reply again = first_try reply again

-- A request is repeated at most once, and then the token was thrown away in between; lines are read
-- only from a reply with a 2xx status and `rt_cd` "0", the first one or, where the first was a 401
-- or a 500, the second.
pub check_filled_orders-rows :
    (reply again : Attempt) (rows : List CcldRow)
    → (check_filled_orders reply again).1 ≡ some rows
    → (((check_filled_orders reply again).0 ≡ requested_fills ∷ [])
        × (read_reply reply ≡ some rows))
      ⊎ (((check_filled_orders reply again).0
            ≡ requested_fills ∷ invalidated_token ∷ requested_fills ∷ [])
          × (read_reply reply ≡ none)
          × (read_reply again ≡ some rows))
unfolding check_filled_orders
check_filled_orders-rows failed_call again rows h = cc
check_filled_orders-rows (answered status body) again rows h = ground arith

-- the caches that an order, a cancellation or a settlement clears
pub data CashCache : Type 0 where
  portfolio_cash account_cash user_summary user_portfolios : ℕ → CashCache

-- what the endpoint reads and writes
pub record OrderTables : Type 0 where
  pub portfolios : List Portfolio
  pub accounts : List KisAccount
  pub orders : List Order
  pub books : Books
  pub cleared : List CashCache

-- `kis_account_id` counts as absent where it is 0
abbrev pub linked_account : Option ℕ → Option ℕ
linked_account none = none
linked_account (some i) = if i == 0 then none else some i

-- `decrypt` of the two keys, or nothing where it raises
abbrev pub decrypt_keys : (String → Option String) → KisAccount → Option (String × String)
decrypt_keys decrypt acct = elim (decrypt acct.app_key_enc) [
  | none ↦ none
  | some key ↦ elim (decrypt acct.app_secret_enc) [ none ↦ none | some secret ↦ some (key, secret) ]
]

-- `_get_portfolio_with_kis`
unfoldable pub get_portfolio_with_kis :
    (String → Option String)
    → ℕ
    → ℕ
    → OrderTables
    → Result (Portfolio × (KisAccount × (String × String)))
get_portfolio_with_kis decrypt pid user db = do
  found ← scalar_one_or_none (select (λ p. (p.id == pid) && (p.user_id == user)) db.portfolios)
  portfolio ← or_raise found (http_exception 404)
  account_id ← or_raise (linked_account portfolio.kis_account_id) (http_exception 400)
  acct ← or_raise (find (λ a. a.id == account_id) db.accounts) (http_exception 404)
  keys ← or_raise (decrypt_keys decrypt acct) (http_exception 500)
  ok (portfolio, (acct, keys))

-- `except RuntimeError: raise HTTPException(502)`
abbrev pub as_bad_gateway : {A : Type 0} → Result A → Result A
as_bad_gateway (ok a) = ok a
as_bad_gateway (raise runtime_error) = raise (http_exception 502)
as_bad_gateway (raise (http_exception status)) = raise (http_exception status)
as_bad_gateway (raise multiple_results_found) = raise multiple_results_found
as_bad_gateway (raise value_error) = raise value_error
as_bad_gateway (raise transport_error) = raise transport_error
as_bad_gateway (raise other_error) = raise other_error

-- The endpoint; `replies` are the broker's two replies for an account and its keys.
unfoldable pub settle_orders_endpoint :
    ℕ
    → (String → Option String)
    → (KisAccount → String × String → Attempt × Attempt)
    → ℕ
    → ℕ
    → OrderTables
    → Result OrderTables
settle_orders_endpoint now decrypt replies pid user db = do
  (portfolio, (acct, keys)) ← get_portfolio_with_kis decrypt pid user db
  let (reply, again) = replies acct keys
  (orders, books) ← as_bad_gateway (
      settle_pending_orders now pid (λ numbers. (check_filled_orders reply again).1) db.orders
        db.books)
  ok (record db {
    orders = orders;
    books = books;
    cleared =
        db.cleared
        ++ portfolio_cash pid
          ∷ account_cash acct.id
          ∷ user_summary user
          ∷ user_portfolios user
          ∷ [];
  })
