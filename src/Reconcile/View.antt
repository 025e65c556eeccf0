-- ===== src/Reconcile/View.antt =====
-- The table after `reconcile_holdings`, as its readers see it: by portfolio and ticker.
use the_wealth.Base.{
  ℕ, ◌+◌, ◌≡◌, ◌≢◌, refl, ◌∙◌, Option, none, some, List, [], ◌∷◌, ◌++◌, map, String, ==_iff,
  ==_refl, select, All, arith, is_some, if◌then◌else◌,
}
use mathlib.Core.List.{append-nil}
use the_wealth.Base.Int.{ℤ}
use the_wealth.Base.Text.{Dict, lookup, contains, insert, str_eq_iff, contains-lookup}
use the_wealth.Store.{Holding}
use the_wealth.Store.Holdings.{
  holdings_of, find_holding, find_holding-none, IdsDistinct, TickersDistinct,
}
use the_wealth.Reconcile.{KisHolding, add_kis, flush, reconcile_holdings}
use the_wealth.Reconcile.Rows.{missing}
use the_wealth.Reconcile.Mirror.{entries, mirror_row, stays, reconciled, reconcile-reconciled}

-- what a holding says of its ticker
abbrev pub Position : Type 0
Position = ℤ × ℤ × Option String

abbrev pub position : Option Holding → Option Position
position none = none
position (some h) = some (h.quantity, h.avg_price, h.market)

abbrev pub kis_position : Option KisHolding → Option Position
kis_position none = none
kis_position (some k) = some (k.quantity, k.avg_price, k.market)

-- `None or b`
abbrev or_else {ℓ} : {A : Type ℓ} → Option A → Option A → Option A
or_else none b = b
or_else (some a) b = some a

position-append :
    (pid : ℕ) (t : String) (xs ys : List Holding)
    → position (find_holding pid t (xs ++ ys))
      ≡ or_else (position (find_holding pid t xs)) (position (find_holding pid t ys))
position-append pid t [] ys = refl
position-append pid t (x ∷ xs) ys = ground (arith, position-append pid t xs ys)

contains-entries :
    (pid : ℕ) (t : String) (hs : List Holding)
    → contains t (entries pid hs) ≡ is_some (find_holding pid t hs)
contains-entries pid t [] = refl
contains-entries pid t (h ∷ hs) = ground (arith, contains-entries pid t hs)

-- every key of the broker's dictionary is its value's ticker
abbrev AreKeyed : Dict KisHolding → Type 0
AreKeyed = All (λ e. e.0 ≡ e.1.ticker)

insert-AreKeyed :
    (k : KisHolding) (d : Dict KisHolding) → AreKeyed d → AreKeyed (insert k.ticker k d)
insert-AreKeyed k [] a = (refl, tt)
insert-AreKeyed k ((j, v) ∷ d) a = ground (arith, str_eq_iff j k.ticker, insert-AreKeyed k d a.1)

add_kis-AreKeyed :
    (d : Dict KisHolding) (ks : List KisHolding) → AreKeyed d → AreKeyed (add_kis d ks)
add_kis-AreKeyed d [] a = a
add_kis-AreKeyed d (k ∷ ks) a = add_kis-AreKeyed (insert k.ticker k d) ks (insert-AreKeyed k d a)

-- The inserted rows show the positions that the table lacked.
position-missing :
    (pid next : ℕ) (t : String) (table : Dict ℕ) (m : Dict KisHolding)
    → AreKeyed m
    → position (find_holding pid t (flush next pid (missing table m)))
      ≡ (if contains t table then none else kis_position (lookup t m))
position-missing pid next t table [] a = ground arith
position-missing pid next t table ((j, k) ∷ m) a = ground (
  arith,
  a.0,
  str_eq_iff j t,
  str_eq_iff k.ticker t,
  ==_refl pid,
  position-missing pid next t table m a.1,
  position-missing pid (next + 1) t table m a.1,
)

position-mirror_row :
    (m : Dict KisHolding) (pid : ℕ) (t : String) (hs : List Holding)
    → TickersDistinct hs
    → position (find_holding pid t (map (mirror_row m pid) (select (stays m pid) hs)))
      ≡ (if is_some (find_holding pid t hs) then kis_position (lookup t m) else none)
position-mirror_row m pid t [] d = refl
position-mirror_row m pid t (h ∷ hs) d = ground (
  arith,
  ==_iff h.portfolio_id pid,
  str_eq_iff h.ticker t,
  find_holding-none pid t h hs,
  contains-lookup h.ticker m,
  position-mirror_row m pid t hs d.1,
)

module _ (pid : ℕ) (kis_holdings : List KisHolding) (next : ℕ) (table : List Holding) where
  abbrev after : List Holding
  after = (reconcile_holdings pid kis_holdings next table).0

  -- In a table with no primary key twice and no ticker twice in a portfolio, the portfolio shows
  -- after `reconcile_holdings`, for every ticker, the quantity, average price and market of the
  -- broker's last entry for it, and no position where the broker has none: a row that was added by
  -- hand is removed too.
  pub reconcile-mirrors :
      (t : String)
      → IdsDistinct table
      → TickersDistinct table
      → position (find_holding pid t after) ≡ kis_position (lookup t (add_kis [] kis_holdings))
  unfolding reconciled
  reconcile-mirrors t ids tickers =
      let m = add_kis [] kis_holdings in
      rw (reconcile-reconciled pid kis_holdings next table ids tickers) (
        ground (
          arith,
          position-append pid t (map (mirror_row m pid) (select (stays m pid) table))
              (flush next pid (missing (entries pid table) m)),
          position-mirror_row m pid t table tickers,
          position-missing pid next t (entries pid table) m (add_kis-AreKeyed [] kis_holdings tt),
          contains-entries pid t table,
        ))

holdings_of-append :
    (q : ℕ) (xs ys : List Holding) → holdings_of q (xs ++ ys) ≡ holdings_of q xs ++ holdings_of q ys
holdings_of-append q [] ys = refl
holdings_of-append q (x ∷ xs) ys = ground (arith, holdings_of-append q xs ys)

holdings_of-flush :
    (pid q next : ℕ) (ks : List KisHolding) → q ≢ pid → holdings_of q (flush next pid ks) ≡ []
holdings_of-flush pid q next [] n = refl
holdings_of-flush pid q next (k ∷ ks) n = ground (arith, holdings_of-flush pid q (next + 1) ks n)

holdings_of-mirror_row :
    (m : Dict KisHolding) (pid q : ℕ) (hs : List Holding)
    → q ≢ pid
    → holdings_of q (map (mirror_row m pid) (select (stays m pid) hs)) ≡ holdings_of q hs
holdings_of-mirror_row m pid q [] n = refl
holdings_of-mirror_row m pid q (h ∷ hs) n = ground (arith, holdings_of-mirror_row m pid q hs n)

-- The rows of every other portfolio are what they were, in the same order.
pub reconcile-others :
    (pid : ℕ) (kis_holdings : List KisHolding) (next : ℕ) (table : List Holding) (q : ℕ)
    → IdsDistinct table
    → TickersDistinct table
    → q ≢ pid
    → holdings_of q (reconcile_holdings pid kis_holdings next table).0 ≡ holdings_of q table
unfolding reconciled
reconcile-others pid kis_holdings next table q ids tickers n =
    let m = add_kis [] kis_holdings in
    rw (reconcile-reconciled pid kis_holdings next table ids tickers) (
      holdings_of-append q (map (mirror_row m pid) (select (stays m pid) table))
        (flush next pid (missing (entries pid table) m))
      ∙ cc (
        holdings_of-mirror_row m pid q table n,
        holdings_of-flush pid q next (missing (entries pid table) m) n,
        append-nil (holdings_of q table),
      ))
