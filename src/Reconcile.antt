-- ===== src/Reconcile.antt =====
-- services/reconciliation.py: the rows of one portfolio are brought to what the broker reports.
pub mod Rows
pub mod Mirror
pub mod View
use the_wealth.Base.{
  ℕ, suc, ◌+◌, Bool, true, false, not, ◌&&◌, ◌||◌, Option, none, some, List, [], ◌∷◌, ◌++◌, map,
  String, ◌==◌, select, find, if◌then◌else◌,
}
use the_wealth.Base.Int.{ℤ, ◌==ℤ◌}
use the_wealth.Base.Text.{Dict, lookup, contains, insert, opt_eq}
use the_wealth.Store.{Holding}
use the_wealth.Store.Holdings.{holdings_of, update_row, delete_row}

-- `KisHolding`: one position of the account, as the broker reports it. Quantity and price are whole
-- numbers of the unit of their columns (six and four decimals): the rounding of finer ones, which the
-- database does when a row is stored, does not occur.
pub record KisHolding : Type 0 where
  pub ticker : String
  pub name : String
  pub quantity : ℤ
  pub avg_price : ℤ
  pub market : Option String

-- `counts`
pub record Counts : Type 0 where
  pub inserted : ℕ
  pub updated : ℕ
  pub deleted : ℕ

-- the table of holdings, the rows that `db.add` has queued, and the counts
pub record Session : Type 0 where
  pub rows : List Holding
  pub queued : List KisHolding
  pub counts : Counts

-- `{h.ticker: h for h in db_holdings}`: a row object is known by its primary key
abbrev pub add_db : Dict ℕ → List Holding → Dict ℕ
add_db d [] = d
add_db d (h ∷ hs) = add_db (insert h.ticker h.id d) hs

-- `{k.ticker: k for k in kis_holdings}`
abbrev pub add_kis : Dict KisHolding → List KisHolding → Dict KisHolding
add_kis d [] = d
add_kis d (k ∷ ks) = add_kis (insert k.ticker k d) ks

-- `db_h.quantity != kis.quantity or …`
abbrev pub changed : Holding → KisHolding → Bool
changed h k =
    not (h.quantity ==ℤ k.quantity)
    || not (h.avg_price ==ℤ k.avg_price)
    || not (opt_eq h.market k.market)

abbrev pub overwrite : KisHolding → Holding → Holding
overwrite k h = record h { quantity = k.quantity; avg_price = k.avg_price; market = k.market }

-- INSERT: in the broker's list and not in the table
pub insert_loop : Dict ℕ → Dict KisHolding → Session → Session
insert_loop db_map [] s = s
insert_loop db_map ((ticker, kis) ∷ es) s = insert_loop db_map es (
    if contains ticker db_map then s else record s {
      queued = s.queued ++ kis ∷ [];
      counts = record s.counts { inserted = s.counts.inserted + 1 };
    })

-- `if changed: …`, on the row object itself
abbrev pub sync_row : KisHolding → Holding → Holding
sync_row kis h = if changed h kis then overwrite kis h else h

abbrev pub count_changed : ℕ → KisHolding → List Holding → ℕ → ℕ
count_changed i kis rows n = elim (find (λ h. h.id == i) rows) [
  | none ↦ n
  | some h ↦ if changed h kis then n + 1 else n
]

abbrev pub update_one : Option KisHolding → ℕ → Session → Session
update_one none i s = s
update_one (some kis) i s = record s {
  rows = update_row i (sync_row kis) s.rows;
  counts = record s.counts { updated = count_changed i kis s.rows s.counts.updated };
}

-- UPDATE: on both sides, and different
pub update_loop : Dict KisHolding → Dict ℕ → Session → Session
update_loop kis_map [] s = s
update_loop kis_map ((ticker, i) ∷ es) s =
    update_loop kis_map es (update_one (lookup ticker kis_map) i s)

-- DELETE: in the table and not in the broker's list
pub delete_loop : Dict KisHolding → Dict ℕ → Session → Session
delete_loop kis_map [] s = s
delete_loop kis_map ((ticker, i) ∷ es) s = delete_loop kis_map es (
    if contains ticker kis_map then s else record s {
      rows = delete_row i s.rows;
      counts = record s.counts { deleted = s.counts.deleted + 1 };
    })

-- `Holding(…)` of a queued row; the database numbers the rows from its sequence
abbrev pub new_holding : ℕ → ℕ → KisHolding → Holding
new_holding i pid kis = record {
  id = i;
  portfolio_id = pid;
  ticker = kis.ticker;
  name = kis.name;
  quantity = kis.quantity;
  avg_price = kis.avg_price;
  market = kis.market;
}

abbrev pub flush : ℕ → ℕ → List KisHolding → List Holding
flush next pid [] = []
flush next pid (kis ∷ ks) = new_holding next pid kis ∷ flush (next + 1) pid ks

abbrev no_counts : Counts
no_counts = record { inserted = 0; updated = 0; deleted = 0 }

-- `next` is the sequence's next primary key. `commit` writes the queued rows.
unfoldable pub reconcile_holdings : ℕ → List KisHolding → ℕ → List Holding → List Holding × Counts
unfolding insert_loop update_loop delete_loop
reconcile_holdings pid kis_holdings next table =
    let db_map = add_db [] (holdings_of pid table) in
    let kis_map = add_kis [] kis_holdings in
    let s = insert_loop db_map kis_map (record { rows = table; queued = []; counts = no_counts }) in
    let s' = delete_loop kis_map db_map (update_loop kis_map db_map s) in
    (s'.rows ++ flush next pid s'.queued, s'.counts)
