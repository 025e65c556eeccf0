-- ===== src/Portfolios.antt =====
-- api/portfolios.py: the portfolios of a user, listed, created, put in order, changed and deleted.
pub mod Changes
pub mod Value
pub mod Priced
pub mod Created
pub mod Reordered
pub mod Removed
use the_wealth.Base.{
  ℕ, zero, suc, ◌+◌, Bool, true, false, ◌&&◌, ◌||◌, not, Option, none, some, List, [], ◌∷◌, ◌++◌,
  map, String, ◌==◌, leb, ltb, find, length, select, if◌then◌else◌,
}
use the_wealth.Base.Int.{ℤ, pos, negsuc, ◌+ℤ◌, ◌*ℤ◌, ◌==ℤ◌, ltb_ℤ, max_ℤ}
use the_wealth.Outcome.{Result, ok, raise, ◌>>=◌, ◌>>◌, raise_if, or_raise, http_exception}
use the_wealth.Store.{Portfolio, Holding, Transaction, Order, KisAccount}
use the_wealth.Store.Holdings.{holdings_of}
use the_wealth.OrderLock.{truthy}
use the_wealth.Settlement.Query.{linked_account}
use the_wealth.Transactions.{get_portfolio, assert_portfolio_owner}
use the_wealth.PortfolioHoldings.{Invalidation, analytics, portfolios_with_prices}

-- the tables that the endpoints use, the sequence's next primary key, and the caches that were cleared
pub record PortfolioTables : Type 0 where
  pub portfolios : List Portfolio
  pub holdings : List Holding
  pub transactions : List Transaction
  pub orders : List Order
  pub accounts : List KisAccount
  pub next : ℕ
  pub invalidated : List Invalidation

abbrev pub get_account : ℕ → List KisAccount → Option KisAccount
get_account i = find (λ a. a.id == i)

-- `PortfolioResponse`
pub record PortfolioResponse : Type 0 where
  pub id : ℕ
  pub user_id : ℕ
  pub name : String
  pub currency : String
  pub display_order : ℤ
  pub created_at : ℕ
  pub holdings_count : ℕ
  pub total_invested : ℤ
  pub kis_account_id : Option ℕ
  pub target_value : Option ℕ

-- `SUM(quantity * avg_price)`, 0 for no row
unfoldable pub total_invested : List Holding → ℤ
total_invested [] = pos 0
total_invested (h ∷ hs) = h.quantity *ℤ h.avg_price +ℤ total_invested hs

-- `kis_label if kis_label else p.name`, with the outer join on the primary key
abbrev pub shown_name : List KisAccount → Portfolio → String
shown_name accounts p = elim p.kis_account_id [
  | none ↦ p.name
  | some i ↦ elim (get_account i accounts) [
    | none ↦ p.name
    | some a ↦ if truthy (some a.label) then a.label else p.name
  ]
]

abbrev pub portfolio_response : String → Option ℕ → List Holding → Portfolio → PortfolioResponse
portfolio_response name account holdings p = record {
  id = p.id;
  user_id = p.user_id;
  name = name;
  currency = p.currency;
  display_order = p.display_order;
  created_at = p.created_at;
  holdings_count = length (holdings_of p.id holdings);
  total_invested = total_invested (holdings_of p.id holdings);
  kis_account_id = account;
  target_value = p.target_value;
}

-- `a` comes no later than `b` in `ORDER BY display_order, created_at`
abbrev pub in_order : Portfolio → Portfolio → Bool
in_order a b =
    ltb_ℤ a.display_order b.display_order
    || ((a.display_order ==ℤ b.display_order) && leb a.created_at b.created_at)

abbrev pub place_portfolio : Portfolio → List Portfolio → List Portfolio
place_portfolio p [] = p ∷ []
place_portfolio p (q ∷ qs) = if in_order p q then p ∷ q ∷ qs else q ∷ place_portfolio p qs

unfoldable pub order_portfolios : List Portfolio → List Portfolio
order_portfolios [] = []
order_portfolios (p ∷ ps) = place_portfolio p (order_portfolios ps)

-- `where(Portfolio.user_id == current_user.id)`
abbrev pub portfolios_of : ℕ → List Portfolio → List Portfolio
portfolios_of user = select (λ p. p.user_id == user)

unfoldable pub list_portfolios : ℕ → PortfolioTables → List PortfolioResponse
unfolding order_portfolios total_invested
list_portfolios user db =
    map (λ p. portfolio_response (shown_name db.accounts p) p.kis_account_id db.holdings p)
      (order_portfolios (portfolios_of user db.portfolios))

pub record PortfolioCreate : Type 0 where
  pub name : String
  pub currency : String

-- `func.max(Portfolio.display_order)`: nothing over no row
abbrev pub max_display_order : List Portfolio → Option ℤ
max_display_order [] = none
max_display_order (p ∷ ps) = elim (max_display_order ps) [
  | none ↦ some p.display_order
  | some m ↦ some (max_ℤ p.display_order m)
]

-- `scalar() or -1`
abbrev pub or_minus_one : Option ℤ → ℤ
or_minus_one none = negsuc 0
or_minus_one (some m) = if m ==ℤ pos 0 then negsuc 0 else m

-- the new row behind the user's largest order
abbrev pub new_portfolio : ℕ → ℕ → ℕ → ℤ → PortfolioCreate → Portfolio
new_portfolio now i user max_order body = record {
  id = i;
  user_id = user;
  name = body.name;
  currency = body.currency;
  kis_account_id = none;
  display_order = max_order +ℤ pos 1;
  target_value = none;
  created_at = now;
}

unfoldable pub create_portfolio :
    ℕ → ℕ → PortfolioCreate → PortfolioTables → Portfolio × PortfolioTables
create_portfolio now user body db =
    let max_order = or_minus_one (max_display_order (portfolios_of user db.portfolios)) in
    let portfolio = new_portfolio now db.next user max_order body in
    (
      portfolio,
      record db {
        portfolios = db.portfolios ++ portfolio ∷ [];
        next = db.next + 1;
        invalidated = db.invalidated ++ portfolios_with_prices user ∷ [];
      },
    )

pub record ReorderItem : Type 0 where
  pub id : ℕ
  pub display_order : ℤ

abbrev pub contains_id : ℕ → List ℕ → Bool
contains_id i [] = false
contains_id i (j ∷ js) = if j == i then true else contains_id i js

abbrev pub includes : List ℕ → List ℕ → Bool
includes [] js = true
includes (i ∷ is) js = contains_id i js && includes is js

-- `==` of two sets
abbrev pub same_ids : List ℕ → List ℕ → Bool
same_ids is js = includes is js && includes js is

-- UPDATE portfolios SET display_order = … WHERE id = …
abbrev pub set_order : ReorderItem → List Portfolio → List Portfolio
set_order item =
    map (λ p. if p.id == item.id then record p { display_order = item.display_order } else p)

unfoldable pub set_orders : List ReorderItem → List Portfolio → List Portfolio
set_orders [] ps = ps
set_orders (item ∷ items) ps = set_orders items (set_order item ps)

abbrev pub owned_ids : ℕ → List ℕ → List Portfolio → List ℕ
owned_ids user ids ps =
    map (λ p. p.id) (select (λ p. contains_id p.id ids && (p.user_id == user)) ps)

unfoldable pub reorder_portfolios : ℕ → List ReorderItem → PortfolioTables → Result PortfolioTables
unfolding set_orders
reorder_portfolios user items db = do
  let ids = map (λ i. i.id) items
  owned ← raise_if (not (same_ids (owned_ids user ids db.portfolios) ids)) (http_exception 403)
  ok (record db {
    portfolios = set_orders items db.portfolios;
    invalidated = db.invalidated ++ portfolios_with_prices user ∷ [];
  })
