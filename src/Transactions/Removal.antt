-- ===== src/Transactions/Removal.antt =====
-- The soft deletion of a transaction.
use the_wealth.Base.{
  ℕ, ◌≡◌, refl, not, Option, none, some, List, [], ◌∷◌, ◌==◌, select, is_some, arith,
}
use the_wealth.Outcome.{ok, raise, >>=-Passed, or_raise, raise_if, Fault, http_exception}
use the_wealth.Store.{Transaction}
use the_wealth.Transactions.{
  Tables, get_transaction, get_portfolio, assert_portfolio_owner, is_visible, update_transaction,
  delete_transaction,
}

abbrev removed : ℕ → Transaction → Transaction
removed now t = record t { deleted_at = some now }

visible-removed :
    (pid now i : ℕ) (ts : List Transaction)
    → select (is_visible pid) (update_transaction i (removed now) ts)
      ≡ select (λ t. not (t.id == i)) (select (is_visible pid) ts)
visible-removed pid now i [] = refl
visible-removed pid now i (t ∷ ts) = ground (arith, visible-removed pid now i ts)

found-removed :
    (now i : ℕ) (ts : List Transaction) (t : Transaction)
    → get_transaction i ts ≡ some t
    → get_transaction i (update_transaction i (removed now) ts) ≡ some (removed now t)
found-removed now i [] t e = cc
found-removed now i (u ∷ ts) t e = ground (arith, found-removed now i ts t)

or_raise_found : {A : Type 0} (o : Option A) (e : Fault) {a : A} → or_raise o e ≡ ok a → o ≡ some a
or_raise_found none e h = cc
or_raise_found (some a) e h = cc

-- A deletion that succeeds takes the transaction out of what every list of a portfolio shows, and
-- nothing else; a second deletion of it, by whoever, is answered with 404.
pub delete_transaction-visible :
    (now user i : ℕ) (db : Tables) {db' : Tables} (pid later user' : ℕ)
    → delete_transaction now user i db ≡ ok db'
    → (select (is_visible pid) db'.transactions
        ≡ select (λ t. not (t.id == i)) (select (is_visible pid) db.transactions))
      × (delete_transaction later user' i db' ≡ raise (http_exception 404))
unfolding delete_transaction
delete_transaction-visible now user i db {db'} pid later user' h =
    let (t, e, h₁) =
      >>=-Passed (or_raise (get_transaction i db.transactions) (http_exception 404)) _ h in
    let (_, _, h₂) = >>=-Passed (raise_if (is_some t.deleted_at) (http_exception 404)) _ h₁ in
    let (p, _, h₃) =
      >>=-Passed (or_raise (get_portfolio t.portfolio_id db.portfolios) (http_exception 404)) _
        h₂ in
    let (_, _, h₄) = >>=-Passed (assert_portfolio_owner p user) _ h₃ in
    let k : db'.transactions ≡ update_transaction i (removed now) db.transactions = cc (h₄) in
    (
      rw k (visible-removed pid now i db.transactions),
      rw (k, found-removed now i db.transactions t (or_raise_found _ _ e)) refl,
    )
