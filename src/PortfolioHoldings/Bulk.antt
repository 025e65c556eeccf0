-- ===== src/PortfolioHoldings/Bulk.antt =====
-- What a bulk registration adds up to.
use mathlib.Core.Path.{subst}
use the_wealth.Base.{
  ℕ, suc, ◌+◌, ◌<◌, ◌≡◌, ◌≢◌, refl, sym, ◌∙◌, false, some, List, [], ◌∷◌, String, ◌==◌, ==_refl,
  ==_iff, All, arith, length, inl, inr, Bool-cases, Option-cases, if◌then◌else◌,
}
use the_wealth.Base.Int.{ℤ, pos, ◌+ℤ◌, ◌==ℤ◌, ◌<ℤ◌, int_laws}
use the_wealth.Base.Text.{Dict, lookup, insert, lookup-insert, str_eq, str_eq_iff}
use the_wealth.Store.{Holding}
use the_wealth.Store.Holdings.{holdings_of, update_row, IdsDistinct}
use the_wealth.Reconcile.{add_db}
use the_wealth.PortfolioHoldings.{
  HoldingCreate, BulkState, get_holding, created_holding, merge_item, insert_item, bulk_item,
  bulk_loop,
}
use the_wealth.PortfolioHoldings.Rows.{
  quantity_of, quantity_of-append, get_holding-append, get_holding-fresh, quantity_of-update,
  get_holding-update, All-id_append, All-id_update, weaken, IdsDistinct-append, IdsDistinct-update,
  ArePositive-append, positive_sum, ArePositive-update, get_holding-positive, get_holding-id,
}

-- the quantity that a request asks for
abbrev pub requested : String → List HoldingCreate → ℤ
requested t [] = pos 0
requested t (item ∷ items) =
    (if str_eq item.ticker t then item.quantity else pos 0) +ℤ requested t items

module _ (pid : ℕ) where
  -- a row of the portfolio for this ticker
  pub record IsRow (t : String) (h : Holding) : Type 0 where
    pub in_portfolio : h.portfolio_id ≡ pid
    pub for_ticker : h.ticker ≡ t

  -- the entries of `existing_map` are rows of the portfolio
  abbrev pub IsLinked : Dict ℕ → List Holding → Type 0
  IsLinked m rows =
      (t : String) (i : ℕ)
      → lookup t m ≡ some i
      → (h : Holding) × (get_holding i rows ≡ some h) × IsRow t h

  -- what the loop keeps
  pub record IsSound (s : BulkState) : Type 0 where
    pub keys : IdsDistinct s.rows
    pub fresh : All (λ h. h.id < s.next) s.rows
    pub linked : IsLinked s.existing_map s.rows
    pub positive : All (λ h. pos 0 <ℤ h.quantity) s.rows

module _ (pid : ℕ) where
  -- what one item does
  record Step (item : HoldingCreate) (s s' : BulkState) : Type 0 where
    sound : IsSound pid s'
    added :
        (t : String)
        → quantity_of pid t s'.rows
          ≡ quantity_of pid t s.rows +ℤ (if str_eq item.ticker t then item.quantity else pos 0)
    counted : s'.created + s'.updated ≡ suc (s.created + s.updated)
    no_error : s'.errors ≡ s.errors

  IsLinked-insert :
      (item : HoldingCreate) (s : BulkState)
      → IsSound pid s
      → IsLinked pid (insert_item pid item s).existing_map (insert_item pid item s).rows
  IsLinked-insert item s v t i e = elim (Bool-cases (str_eq item.ticker t)) [
    | inl same ↦
        let k : s.next ≡ i =
          cc (rw (lookup-insert item.ticker t s.next s.existing_map, same) at e) in
        (
          created_holding s.next pid item,
          get_holding-fresh i s.rows (created_holding s.next pid item)
              (subst (λ n. All (λ h. h.id < n) s.rows) k v.fresh) k,
          record { in_portfolio = refl; for_ticker = (str_eq_iff item.ticker t).0 same },
        )
    | inr differ ↦
        let (h, found, row) =
          v.linked t i (rw (lookup-insert item.ticker t s.next s.existing_map, differ) at e) in
        (h, get_holding-append i s.rows _ h found, row)
  ]

  insert_item-Step :
      (item : HoldingCreate) (s : BulkState)
      → pos 0 <ℤ item.quantity
      → IsSound pid s
      → Step item s (insert_item pid item s)
  insert_item-Step item s p v =
      let h = created_holding s.next pid item in
      record {
        sound = record {
          keys = IdsDistinct-append s.rows h s.next v.keys v.fresh refl;
          fresh =
              All-id_append (λ i. i < s.next + 1) s.rows h (weaken s.next s.rows v.fresh)
                (omega arith);
          linked = IsLinked-insert item s v;
          positive = ArePositive-append s.rows h v.positive p;
        };
        added = λ t. quantity_of-append pid t s.rows h ∙ (rw (==_refl pid) refl);
        counted = omega arith;
        no_error = refl;
      }

  IsLinked-update :
      (j : ℕ) (item : HoldingCreate) (s : BulkState)
      → IsLinked pid s.existing_map s.rows
      → IsLinked pid s.existing_map (update_row j (merge_item item) s.rows)
  IsLinked-update j item s v t i e =
      let (h, found, row) = v t i e in
      elim (Bool-cases (h.id == j)) [
        | inl same ↦ (
          merge_item item h,
          get_holding-update j i item s.rows h found ∙ (rw same refl),
          record { in_portfolio = row.in_portfolio; for_ticker = row.for_ticker },
        )
        | inr differ ↦ (h, get_holding-update j i item s.rows h found ∙ (rw differ refl), row)
      ]

  -- the row that an item is merged into
  abbrev merged : HoldingCreate → Holding → BulkState → BulkState
  merged item h s = record s {
    rows = update_row h.id (merge_item item) s.rows;
    updated = s.updated + 1;
  }

  merged-Step :
      (item : HoldingCreate) (h : Holding) (s : BulkState)
      → pos 0 <ℤ item.quantity
      → IsSound pid s
      → get_holding h.id s.rows ≡ some h
      → IsRow pid item.ticker h
      → Step item s (merged item h s)
  merged-Step item h s p v found row = record {
    sound = record {
      keys = IdsDistinct-update h.id item s.rows v.keys;
      fresh = All-id_update (λ i. i < s.next) h.id item s.rows v.fresh;
      linked = IsLinked-update h.id item s v.linked;
      positive = ArePositive-update h.id item s.rows p v.positive;
    };
    added = λ t.
        quantity_of-update pid t item h s.rows v.keys found
        ∙ (rw (row.in_portfolio, row.for_ticker, ==_refl pid) refl);
    counted = omega arith;
    no_error = refl;
  }

  not_zero : (a : ℤ) → pos 0 <ℤ a → (a ==ℤ pos 0) ≡ false
  not_zero a h = ground arith

  bulk_item-Step :
      (item : HoldingCreate) (s : BulkState)
      → pos 0 <ℤ item.quantity
      → IsSound pid s
      → Step item s (bulk_item pid item (lookup item.ticker s.existing_map) s)
  bulk_item-Step item s p v = elim (Option-cases (lookup item.ticker s.existing_map)) [
    | inl e ↦ rw e (insert_item-Step item s p v)
    | inr (i, e) ↦
        let (h, found, row) = v.linked item.ticker i e in
        let k = get_holding-id i s.rows h found in
        let z = not_zero (h.quantity +ℤ item.quantity) (
          positive_sum h.quantity item.quantity (get_holding-positive i s.rows h v.positive found)
            p) in
        rw (e, found, z)
          (merged-Step item h s p v (subst (λ j. get_holding j s.rows ≡ some h) (sym k) found) row)
  ]

  pub bulk_loop-Steps :
      (items : List HoldingCreate) (s : BulkState)
      → All (λ item. pos 0 <ℤ item.quantity) items
      → IsSound pid s
      → let s' = bulk_loop pid items s in
        ((t : String) → quantity_of pid t s'.rows ≡ quantity_of pid t s.rows +ℤ requested t items)
        × (s'.created + s'.updated ≡ s.created + s.updated + length items)
        × (s'.errors ≡ s.errors)
  unfolding bulk_loop
  bulk_loop-Steps [] s p v = (λ t. omega int_laws, omega arith, refl)
  bulk_loop-Steps (item ∷ items) s p v =
      let step = bulk_item-Step item s p.0 v in
      let s' = bulk_item pid item (lookup item.ticker s.existing_map) s in
      let (sums, count, errors) = bulk_loop-Steps items s' p.1 step.sound in
      (
        λ t. sums t ∙ (rw (step.added t) (omega int_laws)),
        omega (arith, count, step.counted),
        errors ∙ step.no_error,
      )

  -- Every row of a table with distinct keys is found by its key.
  get_holding-skip :
      (g : Holding) (rows hs : List Holding)
      → All (λ h. h.id ≢ g.id) hs
      → All (λ h. get_holding h.id rows ≡ some h) hs
      → All (λ h. get_holding h.id (g ∷ rows) ≡ some h) hs
  get_holding-skip g rows [] n a = tt
  get_holding-skip g rows (h ∷ hs) n a = (ground (arith, n.0), get_holding-skip g rows hs n.1 a.1)

  pub get_holding-all :
      (rows : List Holding) → IdsDistinct rows → All (λ h. get_holding h.id rows ≡ some h) rows
  get_holding-all [] d = tt
  get_holding-all (h ∷ hs) d =
      (rw (==_refl h.id) refl, get_holding-skip h hs hs d.0 (get_holding-all hs d.1))

  pub IsLinked-add_db :
      (d : Dict ℕ) (rows hs : List Holding)
      → IsLinked pid d rows
      → All (λ h. get_holding h.id rows ≡ some h) hs
      → IsLinked pid (add_db d (holdings_of pid hs)) rows
  IsLinked-add_db d rows [] l a = l
  IsLinked-add_db d rows (h ∷ hs) l a = elim (Bool-cases (h.portfolio_id == pid)) [
    | inr other ↦ rw other (IsLinked-add_db d rows hs l a.1)
    | inl ours ↦ rw ours (
        IsLinked-add_db (insert h.ticker h.id d) rows hs
          (λ t i e. elim (Bool-cases (str_eq h.ticker t)) [
            | inr differ ↦ l t i (rw (lookup-insert h.ticker t h.id d, differ) at e)
            | inl same ↦
                let k : h.id ≡ i = cc (rw (lookup-insert h.ticker t h.id d, same) at e) in
                (
                  h,
                  subst (λ j. get_holding j rows ≡ some h) k a.0,
                  record {
                    in_portfolio = (==_iff h.portfolio_id pid).0 ours;
                    for_ticker = (str_eq_iff h.ticker t).0 same;
                  },
                )
          ])
          a.1)
  ]
