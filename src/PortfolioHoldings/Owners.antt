-- ===== src/PortfolioHoldings/Owners.antt =====
-- Edits and deletions by hand reach no other user's portfolio.
use mathlib.Core.Path.{subst}
use the_wealth.Base.{
  ℕ, ◌≡◌, ◌≢◌, refl, sym, ap, ◌∙◌, Bool, true, false, Option, none, some, List, [], ◌∷◌, ◌==◌,
  ==_iff, All, arith, inl, inr, Bool-cases,
}
use the_wealth.Outcome.{
  Result, ok, ◌>>=◌, ◌>>◌, >>=-Passed, or_raise, raise_if, Fault, http_exception,
}
use the_wealth.Store.{Holding, Portfolio}
use the_wealth.Store.Holdings.{holdings_of, update_row, delete_row, IdsDistinct}
use the_wealth.Transactions.{get_portfolio}
use the_wealth.PortfolioHoldings.Rows.{get_holding-id}
use the_wealth.PortfolioHoldings.{
  HoldingTables, HoldingUpdate, edit, get_holding, assert_holding_owner, update_holding,
  delete_holding,
}

pub or_raise-ok : {A : Type 0} (o : Option A) (e : Fault) {a : A} → or_raise o e ≡ ok a → o ≡ some a
or_raise-ok none e h = cc
or_raise-ok (some a) e h = cc

pub raise_if-ok : (b : Bool) (e : Fault) {u : Unit {0}} → raise_if b e ≡ ok u → b ≡ false
raise_if-ok true e h = cc
raise_if-ok false e h = refl

-- where the checks of both endpoints are passed
record Allowed {A : Type 0} (user i : ℕ) (db : HoldingTables) (body : Holding → Result A) (made : A)
    : Type 0 where
  holding : Holding
  portfolio : Portfolio
  found : get_holding i db.holdings ≡ some holding
  its_portfolio : get_portfolio holding.portfolio_id db.portfolios ≡ some portfolio
  owner : portfolio.user_id ≡ user
  done : body holding ≡ ok made

allowed :
    {A : Type 0} (user i : ℕ) (db : HoldingTables) (body : Holding → Result A) {made : A}
    → (or_raise (get_holding i db.holdings) (http_exception 404) >>= λ holding.
        or_raise (get_portfolio holding.portfolio_id db.portfolios) (http_exception 404)
        >>= λ portfolio. (assert_holding_owner holding portfolio user >> body holding))
      ≡ ok made
    → Allowed user i db body made
allowed user i db body h =
    let (holding, e, h₁) =
      >>=-Passed (or_raise (get_holding i db.holdings) (http_exception 404)) _ h in
    let (portfolio, f, h₂) =
      >>=-Passed (or_raise (get_portfolio holding.portfolio_id db.portfolios) (http_exception 404))
        _ h₁ in
    let (_, g, h₃) = >>=-Passed (assert_holding_owner holding portfolio user) _ h₂ in
    let own = raise_if-ok _ _ g in
    record {
      holding = holding;
      portfolio = portfolio;
      found = or_raise-ok _ _ e;
      its_portfolio = or_raise-ok _ _ f;
      owner = ground (arith, own);
      done = h₃;
    }

not_of :
    {A : Type 0} (user i : ℕ) (db : HoldingTables) (body : Holding → Result A) {made : A} (q : ℕ)
    (other : Portfolio)
    → get_portfolio q db.portfolios ≡ some other
    → other.user_id ≢ user
    → (a : Allowed user i db body made) → a.holding.portfolio_id ≢ q
not_of user i db body q other e n a same =
    let k : a.portfolio ≡ other = cc (rw same at a.its_portfolio) in
    n (ap (λ p. p.user_id) (sym k) ∙ a.owner)

update_absent :
    (i : ℕ) (f : Holding → Holding) (hs : List Holding)
    → All (λ g. g.id ≢ i) hs
    → update_row i f hs ≡ hs
update_absent i f [] a = refl
update_absent i f (g ∷ hs) a = ground (arith, update_absent i f hs a.1)

delete_absent : (i : ℕ) (hs : List Holding) → All (λ g. g.id ≢ i) hs → delete_row i hs ≡ hs
delete_absent i [] a = refl
delete_absent i (g ∷ hs) a = ground (arith, delete_absent i hs a.1)

-- The row with a key is the one that is found by it.
holdings_of-edit :
    (q : ℕ) (body : HoldingUpdate) (h : Holding) (hs : List Holding)
    → IdsDistinct hs
    → get_holding h.id hs ≡ some h
    → h.portfolio_id ≢ q
    → holdings_of q (update_row h.id (edit body) hs) ≡ holdings_of q hs
holdings_of-edit q body h [] d e n = refl
holdings_of-edit q body h (g ∷ hs) d e n = elim (Bool-cases (g.id == h.id)) [
  | inl same ↦
      let k : g ≡ h = cc (rw same at e) in
      let p : g.portfolio_id ≡ h.portfolio_id = ap (λ x. x.portfolio_id) k in
      let i : g.id ≡ h.id = (==_iff g.id h.id).0 same in
      let o : (g.portfolio_id == q) ≡ false = ground (arith, n, p) in
      let u = update_absent h.id (edit body) hs (subst (λ j. All (λ x. x.id ≢ j) hs) i d.0) in
      rw (same, u, o) refl
  | inr differ ↦ rw differ (ground (arith, holdings_of-edit q body h hs d.1 (rw differ at e) n))
]

holdings_of-delete :
    (q : ℕ) (h : Holding) (hs : List Holding)
    → IdsDistinct hs
    → get_holding h.id hs ≡ some h
    → h.portfolio_id ≢ q
    → holdings_of q (delete_row h.id hs) ≡ holdings_of q hs
holdings_of-delete q h [] d e n = refl
holdings_of-delete q h (g ∷ hs) d e n = elim (Bool-cases (g.id == h.id)) [
  | inl same ↦
      let k : g ≡ h = cc (rw same at e) in
      let p : g.portfolio_id ≡ h.portfolio_id = ap (λ x. x.portfolio_id) k in
      let i : g.id ≡ h.id = (==_iff g.id h.id).0 same in
      let o : (g.portfolio_id == q) ≡ false = ground (arith, n, p) in
      let u = delete_absent h.id hs (subst (λ j. All (λ x. x.id ≢ j) hs) i d.0) in
      rw (same, u, o) refl
  | inr differ ↦ rw differ (ground (arith, holdings_of-delete q h hs d.1 (rw differ at e) n))
]

found_by_id :
    (i : ℕ) (hs : List Holding) (h : Holding)
    → get_holding i hs ≡ some h
    → get_holding h.id hs ≡ some h
found_by_id i hs h e = subst (λ j. get_holding j hs ≡ some h) (sym (get_holding-id i hs h e)) e

-- A holding is edited by its portfolio's owner alone: the holdings of a portfolio that belongs to
-- another user are the same after every edit that succeeds.
pub update_holding-others :
    (user i : ℕ) (body : HoldingUpdate) (db : HoldingTables) {h : Holding} {db' : HoldingTables}
    (q : ℕ) (other : Portfolio)
    → IdsDistinct db.holdings
    → get_portfolio q db.portfolios ≡ some other
    → other.user_id ≢ user
    → update_holding user i body db ≡ ok (h, db')
    → holdings_of q db'.holdings ≡ holdings_of q db.holdings
unfolding update_holding
update_holding-others user i body db {h} {db'} q other d e n r =
    let a = allowed user i db _ r in
    let m = not_of user i db _ q other e n a in
    let k : db'.holdings ≡ update_row a.holding.id (edit body) db.holdings = cc (a.done) in
    rw k (
      holdings_of-edit q body a.holding db.holdings d (found_by_id i db.holdings a.holding a.found)
        m)

-- A holding is deleted by its portfolio's owner alone: the holdings of a portfolio that belongs to
-- another user are the same after every deletion that succeeds.
pub delete_holding-others :
    (user i : ℕ) (db : HoldingTables) {db' : HoldingTables} (q : ℕ) (other : Portfolio)
    → IdsDistinct db.holdings
    → get_portfolio q db.portfolios ≡ some other
    → other.user_id ≢ user
    → delete_holding user i db ≡ ok db'
    → holdings_of q db'.holdings ≡ holdings_of q db.holdings
unfolding delete_holding
delete_holding-others user i db {db'} q other d e n r =
    let a = allowed user i db _ r in
    let m = not_of user i db _ q other e n a in
    let k : db'.holdings ≡ delete_row a.holding.id db.holdings = cc (a.done) in
    rw k
      (holdings_of-delete q a.holding db.holdings d (found_by_id i db.holdings a.holding a.found) m)
