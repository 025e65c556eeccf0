-- ===== src/Transactions.antt =====
-- api/portfolio_transactions.py: the transactions of a portfolio, listed by pages, created, softly
-- deleted and annotated.
pub mod Order
pub mod Pages
pub mod Removal
use the_wealth.Base.{
  ℕ, ◌+◌, Bool, true, false, ◌&&◌, ◌||◌, not, Option, none, some, List, [], ◌∷◌, ◌++◌, map, String,
  ◌==◌, ltb, length, take, select, find, is_some, if◌then◌else◌,
}
use the_wealth.Base.Int.{ℤ}
use the_wealth.Outcome.{Result, ok, raise, ◌>>=◌, ◌>>◌, raise_if, or_raise, Fault, http_exception}
use the_wealth.Store.{Side, Portfolio, Transaction}

-- the tables that the endpoints use, and the sequence's next primary key
pub record Tables : Type 0 where
  pub portfolios : List Portfolio
  pub transactions : List Transaction
  pub next : ℕ

-- `db.get(Portfolio, i)`, `db.get(Transaction, i)`
abbrev pub get_portfolio : ℕ → List Portfolio → Option Portfolio
get_portfolio i = find (λ p. p.id == i)

abbrev pub get_transaction : ℕ → List Transaction → Option Transaction
get_transaction i = find (λ t. t.id == i)

-- `_assert_portfolio_owner`
abbrev pub assert_portfolio_owner : Portfolio → ℕ → Result (Unit {0})
assert_portfolio_owner portfolio user =
    raise_if (not (portfolio.user_id == user)) (http_exception 403)

-- the rows of a portfolio that are not deleted
abbrev pub is_visible : ℕ → Transaction → Bool
is_visible pid t = (t.portfolio_id == pid) && not (is_some t.deleted_at)

-- `a` comes before `b` in `ORDER BY traded_at DESC, id DESC`
abbrev pub before : Transaction → Transaction → Bool
before a b = ltb b.traded_at a.traded_at || ((b.traded_at == a.traded_at) && ltb b.id a.id)

abbrev pub place : Transaction → List Transaction → List Transaction
place t [] = t ∷ []
place t (u ∷ us) = if before t u then t ∷ u ∷ us else u ∷ place t us

unfoldable pub order_by : List Transaction → List Transaction
order_by [] = []
order_by (t ∷ ts) = place t (order_by ts)

pub record Page : Type 0 where
  pub items : List Transaction
  pub next_cursor : Option ℕ
  pub has_more : Bool

-- `items[-1].id`
abbrev pub last_id : List Transaction → Option ℕ
last_id [] = none
last_id (t ∷ []) = some t.id
last_id (t ∷ u ∷ us) = last_id (u ∷ us)

-- the `where` that the cursor adds
abbrev pub past : ℕ → Option Transaction → List Transaction → List Transaction
past pid none rows = rows
past pid (some ref_txn) rows =
    if ref_txn.portfolio_id == pid then select (before ref_txn) rows else rows

abbrev pub cut : ℕ → List Transaction → Page
cut limit rows =
    let has_more = ltb limit (length (take (limit + 1) rows)) in
    let items = take limit rows in
    record {
      items = items;
      next_cursor = if has_more then last_id items else none;
      has_more = has_more;
    }

-- the query and the page, behind the checks
unfoldable pub page : ℕ → ℕ → ℕ → List Transaction → Page
unfolding order_by
page pid cursor limit transactions =
    let query = order_by (select (is_visible pid) transactions) in
    cut limit (if ltb 0 cursor then past pid (get_transaction cursor transactions) query else query)

unfoldable pub list_transactions_paginated : ℕ → ℕ → ℕ → ℕ → Tables → Result Page
unfolding page
list_transactions_paginated user pid cursor limit db = do
  portfolio ← or_raise (get_portfolio pid db.portfolios) (http_exception 404)
  assert_portfolio_owner portfolio user
  ok (page pid cursor limit db.transactions)

-- `TransactionCreate`
pub record TransactionCreate : Type 0 where
  pub ticker : String
  pub type : Side
  pub quantity : ℤ
  pub price : ℤ
  pub traded_at : Option ℕ

abbrev pub traded_or : Option ℕ → ℕ → ℕ
traded_or none now = now
traded_or (some t) now = t

abbrev pub new_transaction : ℕ → ℕ → ℕ → TransactionCreate → Transaction
new_transaction now i pid body = record {
  id = i;
  portfolio_id = pid;
  ticker = body.ticker;
  type = body.type;
  quantity = body.quantity;
  price = body.price;
  traded_at = traded_or body.traded_at now;
  deleted_at = none;
  memo = none;
  order_no = none;
  order_source = "manual";
  tags = none;
}

unfoldable pub create_transaction :
    ℕ → ℕ → ℕ → TransactionCreate → Tables → Result (Transaction × Tables)
create_transaction now user pid body db = do
  portfolio ← or_raise (get_portfolio pid db.portfolios) (http_exception 404)
  assert_portfolio_owner portfolio user
  let txn = new_transaction now db.next pid body
  ok (txn, record db { transactions = db.transactions ++ txn ∷ []; next = db.next + 1 })

abbrev pub update_transaction :
    ℕ → (Transaction → Transaction) → List Transaction → List Transaction
update_transaction i f = map (λ t. if t.id == i then f t else t)

unfoldable pub delete_transaction : ℕ → ℕ → ℕ → Tables → Result Tables
delete_transaction now user i db = do
  txn ← or_raise (get_transaction i db.transactions) (http_exception 404)
  raise_if (is_some txn.deleted_at) (http_exception 404)
  portfolio ← or_raise (get_portfolio txn.portfolio_id db.portfolios) (http_exception 404)
  assert_portfolio_owner portfolio user
  ok (record db {
    transactions = update_transaction i (λ t. record t { deleted_at = some now }) db.transactions;
  })

-- `body.memo`, and `body.tags` where they are given
abbrev pub annotate : Option String → Option (List String) → Transaction → Transaction
annotate memo none t = record t { memo = memo }
annotate memo (some tags) t = record t { memo = memo; tags = some tags }

unfoldable pub update_transaction_memo :
    ℕ → ℕ → ℕ → Option String → Option (List String) → Tables → Result (Transaction × Tables)
update_transaction_memo user pid i memo tags db = do
  portfolio ← or_raise (get_portfolio pid db.portfolios) (http_exception 404)
  assert_portfolio_owner portfolio user
  txn ← or_raise (get_transaction i db.transactions) (http_exception 404)
  raise_if (is_some txn.deleted_at || not (txn.portfolio_id == pid)) (http_exception 404)
  ok (
    annotate memo tags txn,
    record db { transactions = update_transaction i (annotate memo tags) db.transactions },
  )
