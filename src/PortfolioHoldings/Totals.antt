-- ===== src/PortfolioHoldings/Totals.antt =====
-- What a bulk registration comes to, and what two single registrations of a ticker lead to.
use the_wealth.Base.{
  ℕ, ◌+◌, ◌<◌, ◌≡◌, refl, Bool, some, List, [], ◌∷◌, ◌++◌, String, ==_refl, All, arith, length,
  select,
}
use the_wealth.Base.Int.{ℤ, pos, ◌+ℤ◌, ◌<ℤ◌}
use the_wealth.Base.Text.{str_eq_refl}
use the_wealth.Outcome.{ok, raise, ◌>>=◌, multiple_results_found, scalar_one_or_none}
use the_wealth.Store.{Side, Portfolio, Holding}
use the_wealth.Store.Holdings.{is_holding, IdsDistinct}
use the_wealth.Transactions.{get_portfolio}
use the_wealth.Settlement.Fill.{Books, update_holdings_for_fill}
use the_wealth.PortfolioHoldings.{
  HoldingCreate, HoldingTables, BulkHoldingResult, bulk_add_holdings, bulk_start, bulk_loop,
  add_holding, created_holding, invalidate_all,
}
use the_wealth.PortfolioHoldings.Rows.{quantity_of, ArePositive}
use the_wealth.PortfolioHoldings.Bulk.{
  requested, IsSound, bulk_loop-Steps, get_holding-all, IsLinked-add_db,
}

bulk_start-IsSound :
    (pid : ℕ) (db : HoldingTables)
    → IdsDistinct db.holdings
    → All (λ h. h.id < db.next) db.holdings
    → ArePositive db.holdings
    → IsSound pid (bulk_start pid db)
bulk_start-IsSound pid db d f p = record {
  keys = d;
  fresh = f;
  linked =
      IsLinked-add_db pid [] db.holdings db.holdings (λ t i e. cc)
        (get_holding-all pid db.holdings d);
  positive = p;
}

-- what a bulk registration promises
pub record Registered (pid : ℕ) (items : List HoldingCreate) (db : HoldingTables)
    (made : BulkHoldingResult × HoldingTables) : Type 0 where
  totals :
      (t : String)
      → quantity_of pid t made.1.holdings ≡ quantity_of pid t db.holdings +ℤ requested t items
  all_counted : made.0.created + made.0.updated ≡ length items
  no_errors : made.0.errors ≡ []

-- For the owner of the portfolio, with quantities above 0 in the table and in the request, a bulk
-- registration succeeds: for every ticker the portfolio's quantity grows by the sum of what the
-- items ask for, repeated tickers included, each item counts as created or updated, and there are
-- no errors. Primary keys are distinct and below the sequence's next.
pub bulk_add-Registered :
    (user pid : ℕ) (items : List HoldingCreate) (db : HoldingTables) (portfolio : Portfolio)
    → get_portfolio pid db.portfolios ≡ some portfolio
    → portfolio.user_id ≡ user
    → IdsDistinct db.holdings
    → All (λ h. h.id < db.next) db.holdings
    → ArePositive db.holdings
    → All (λ item. pos 0 <ℤ item.quantity) items
    → (made : BulkHoldingResult × HoldingTables) × (bulk_add_holdings user pid items db ≡ ok made)
      × Registered pid items db made
unfolding bulk_add_holdings
bulk_add-Registered user pid items db portfolio found owner d f p q =
    let (sums, count, errors) =
      bulk_loop-Steps pid items (bulk_start pid db) q (bulk_start-IsSound pid db d f p) in
    let s = bulk_loop pid items (bulk_start pid db) in
    (
      (
        record { created = s.created; updated = s.updated; errors = s.errors },
        record db {
          holdings = s.rows;
          next = s.next;
          invalidated = db.invalidated ++ invalidate_all user;
        },
      ),
      rw (found, owner, ==_refl user) refl,
      record { totals = sums; all_counted = omega (arith, count); no_errors = errors },
    )

select-append :
    (p : Holding → Bool) (hs gs : List Holding) → select p (hs ++ gs) ≡ select p hs ++ select p gs
select-append p [] gs = refl
select-append p (h ∷ hs) gs = ground (arith, select-append p hs gs)

two_found :
    (hs : List Holding) (x y : Holding)
    → scalar_one_or_none ((hs ++ x ∷ []) ++ y ∷ []) ≡ raise multiple_results_found
two_found [] x y = refl
two_found (h ∷ []) x y = refl
two_found (h ∷ g ∷ hs) x y = refl

-- the tables with a new holding
abbrev with_holding : ℕ → ℕ → HoldingCreate → HoldingTables → HoldingTables
with_holding user pid body db = record db {
  holdings = db.holdings ++ created_holding db.next pid body ∷ [];
  next = db.next + 1;
  invalidated = db.invalidated ++ invalidate_all user;
}

added :
    (user pid : ℕ) (body : HoldingCreate) (db : HoldingTables) (portfolio : Portfolio)
    → get_portfolio pid db.portfolios ≡ some portfolio
    → portfolio.user_id ≡ user
    → add_holding user pid body db
      ≡ ok (created_holding db.next pid body, with_holding user pid body db)
unfolding add_holding
added user pid body db portfolio found owner = rw (found, owner, ==_refl user) refl

-- The owner of a portfolio can add the same ticker twice, and from then on no fill of that ticker
-- can be booked: the settlement's query for the one row finds two, and raises.
pub add_holding-twice :
    (user pid : ℕ) (a b : HoldingCreate) (db : HoldingTables) (portfolio : Portfolio)
    (name : String) (side : Side) (quantity price : ℤ) (s : Books)
    → get_portfolio pid db.portfolios ≡ some portfolio
    → portfolio.user_id ≡ user
    → b.ticker ≡ a.ticker
    → (made : HoldingTables) × ((add_holding user pid a db >>= λ first.
          add_holding user pid b first.1 >>= λ second. ok second.1)
        ≡ ok made)
      × (update_holdings_for_fill pid a.ticker name side quantity price
            (record s { holdings = made.holdings })
          ≡ raise multiple_results_found)
unfolding update_holdings_for_fill
add_holding-twice user pid a b db portfolio name side quantity price s found owner same =
    let x = created_holding db.next pid a in
    let y = created_holding (db.next + 1) pid b in
    let p = is_holding pid a.ticker in
    let e : select p ((db.holdings ++ x ∷ []) ++ y ∷ [])
        ≡ (select p db.holdings ++ x ∷ []) ++ y ∷ [] =
      rw
        (
          select-append p (db.holdings ++ x ∷ []) (y ∷ []),
          select-append p db.holdings (x ∷ []),
          ==_refl pid,
          same,
          str_eq_refl a.ticker,
        )
        refl in
    (
      with_holding user pid b (with_holding user pid a db),
      rw
          (
            added user pid a db portfolio found owner,
            added user pid b (with_holding user pid a db) portfolio found owner,
          )
          refl,
      rw (e, two_found (select p db.holdings) x y) refl,
    )
