-- ===== src/Reconcile/Mirror.antt =====
-- What `reconcile_holdings` leaves in the table: the loops over the two dictionaries as one pass
-- over the rows, and the broker's list as seen through the table.
use the_wealth.Base.{
  ℕ, ◌≡◌, ◌≢◌, refl, sym, ap, ◌∙◌, Bool, true, false, not, ◌||◌, Option, none, some, List, [], ◌∷◌,
  ◌++◌, map, String, ◌==◌, ==_iff, ==_refl, select, All, arith, inl, inr, Bool-cases, if◌then◌else◌,
}
use mathlib.Core.Path.{subst}
use mathlib.Core.List.{append-nil, append_assoc}
use the_wealth.Base.Text.{Dict, lookup, contains, insert, str_eq_iff}
use the_wealth.Store.{Holding}
use the_wealth.Store.Holdings.{holdings_of, IdsDistinct, TickersDistinct}
use the_wealth.Reconcile.{KisHolding, add_db, add_kis, overwrite, flush, reconcile_holdings}
use the_wealth.Reconcile.Rows.{
  touch, touch_all, kept, missing, update_loop-rows, update_loop-queued, delete_loop-rows,
  delete_loop-queued, insert_loop-rows, insert_loop-queued,
}

abbrev pub entries : ℕ → List Holding → Dict ℕ
entries pid [] = []
entries pid (h ∷ hs) =
    if h.portfolio_id == pid then (h.ticker, h.id) ∷ entries pid hs else entries pid hs

insert_fresh :
    (k : String) (i : ℕ) (d : Dict ℕ) → contains k d ≡ false → insert k i d ≡ d ++ (k, i) ∷ []
insert_fresh k i [] h = refl
insert_fresh k i ((j, v) ∷ d) h = ground (arith, insert_fresh k i d)

contains-snoc :
    (j k : String) (i : ℕ) (d : Dict ℕ)
    → contains j d ≡ false
    → k ≢ j
    → contains j (d ++ (k, i) ∷ []) ≡ false
contains-snoc j k i [] h n = ground (arith, str_eq_iff k j)
contains-snoc j k i ((l, v) ∷ d) h n = ground (arith, contains-snoc j k i d)

-- the tickers of these rows are new to `d`
abbrev AreNew : ℕ → Dict ℕ → List Holding → Type 0
AreNew pid d = All (λ g. g.portfolio_id ≡ pid → contains g.ticker d ≡ false)

AreNew-snoc :
    (pid : ℕ) (d : Dict ℕ) (h : Holding) (hs : List Holding)
    → h.portfolio_id ≡ pid
    → All (λ g. g.portfolio_id ≡ h.portfolio_id → g.ticker ≢ h.ticker) hs
    → AreNew pid d hs
    → AreNew pid (d ++ (h.ticker, h.id) ∷ []) hs
AreNew-snoc pid d h [] e n a = tt
AreNew-snoc pid d h (g ∷ hs) e n a = (
  λ p. contains-snoc g.ticker h.ticker h.id d (a.0 p) (λ q. n.0 (p ∙ sym e) (sym q)),
  AreNew-snoc pid d h hs e n.1 a.1,
)

add_db-append :
    (pid : ℕ) (d : Dict ℕ) (hs : List Holding)
    → TickersDistinct hs
    → AreNew pid d hs
    → add_db d (holdings_of pid hs) ≡ d ++ entries pid hs
add_db-append pid d [] t a = sym (append-nil d)
add_db-append pid d (h ∷ hs) t a = elim (Bool-cases (h.portfolio_id == pid)) [
  | inr e ↦ rw e (add_db-append pid d hs t.1 a.1)
  | inl e ↦
      let p = (==_iff h.portfolio_id pid).0 e in
      rw e (
        ap (λ d'. add_db d' (holdings_of pid hs)) (insert_fresh h.ticker h.id d (a.0 p))
        ∙ add_db-append pid (d ++ (h.ticker, h.id) ∷ []) hs t.1 (AreNew-snoc pid d h hs p t.0 a.1)
        ∙ append_assoc d ((h.ticker, h.id) ∷ []) (entries pid hs))
]

AreNew-nil : (pid : ℕ) (hs : List Holding) → AreNew pid [] hs
AreNew-nil pid [] = tt
AreNew-nil pid (h ∷ hs) = (λ p. refl, AreNew-nil pid hs)

-- With distinct tickers the dictionary has an entry for each row, in the order of the rows.
pub add_db-entries :
    (pid : ℕ) (hs : List Holding)
    → TickersDistinct hs
    → add_db [] (holdings_of pid hs) ≡ entries pid hs
add_db-entries pid hs t = add_db-append pid [] hs t (AreNew-nil pid hs)

-- the effect on one row of the table
abbrev pub mirror_row : Dict KisHolding → ℕ → Holding → Holding
mirror_row m pid h =
    if h.portfolio_id == pid
    then elim (lookup h.ticker m) [ none ↦ h | some k ↦ overwrite k h ]
    else h

abbrev pub stays : Dict KisHolding → ℕ → Holding → Bool
stays m pid h = not (h.portfolio_id == pid) || contains h.ticker m

touch_all-ne :
    (m : Dict KisHolding) (pid : ℕ) (g : Holding) (hs : List Holding)
    → All (λ h. h.id ≢ g.id) hs
    → touch_all m (entries pid hs) g ≡ g
touch_all-ne m pid g [] a = refl
touch_all-ne m pid g (h ∷ hs) a = elim (Bool-cases (h.portfolio_id == pid)) [
  | inr e ↦ rw (e, entries) (touch_all-ne m pid g hs a.1)
  | inl e ↦
      rw (e, entries)
        (ap (touch_all m (entries pid hs)) (touch_ne (lookup h.ticker m))
          ∙ touch_all-ne m pid g hs a.1)
]
  where
    touch_ne : (o : Option KisHolding) → touch o h.id g ≡ g
    touch_ne none = refl
    touch_ne (some k) = ground (arith, a.0)

kept-ne :
    (m : Dict KisHolding) (pid : ℕ) (g : Holding) (hs : List Holding)
    → All (λ h. h.id ≢ g.id) hs
    → kept m (entries pid hs) g ≡ true
kept-ne m pid g [] a = refl
kept-ne m pid g (h ∷ hs) a = ground (arith, a.0, kept-ne m pid g hs a.1)

map-touch_ne :
    (m : Dict KisHolding) (t : String) (i : ℕ) (es : Dict ℕ) (hs : List Holding)
    → All (λ g. g.id ≢ i) hs
    → map (touch_all m ((t, i) ∷ es)) hs ≡ map (touch_all m es) hs
map-touch_ne m t i es [] a = refl
map-touch_ne m t i es (g ∷ hs) a =
    cc (ap (touch_all m es) (touch_ne (lookup t m)), map-touch_ne m t i es hs a.1)
  where
    touch_ne : (o : Option KisHolding) → touch o i g ≡ g
    touch_ne none = refl
    touch_ne (some k) = ground (arith, a.0)

touch_all-head :
    (m : Dict KisHolding) (pid : ℕ) (o : Option KisHolding) (h : Holding) (hs : List Holding)
    → All (λ g. g.id ≢ h.id) hs
    → touch_all m (entries pid hs) (touch o h.id h) ≡ elim o [ none ↦ h | some k ↦ overwrite k h ]
touch_all-head m pid none h hs a = touch_all-ne m pid h hs a
touch_all-head m pid (some k) h hs a = rw (==_refl h.id) (touch_all-ne m pid (overwrite k h) hs a)

entries_in :
    (pid : ℕ) (h : Holding) (hs : List Holding)
    → (h.portfolio_id == pid) ≡ true
    → entries pid (h ∷ hs) ≡ (h.ticker, h.id) ∷ entries pid hs
entries_in pid h hs e = rw e

entries_out :
    (pid : ℕ) (h : Holding) (hs : List Holding)
    → (h.portfolio_id == pid) ≡ false
    → entries pid (h ∷ hs) ≡ entries pid hs
entries_out pid h hs e = rw e

-- The loop over the entries is one pass over the rows.
map-touch_all-entries :
    (m : Dict KisHolding) (pid : ℕ) (hs : List Holding)
    → IdsDistinct hs
    → map (touch_all m (entries pid hs)) hs ≡ map (mirror_row m pid) hs
map-touch_all-entries m pid [] d = refl
map-touch_all-entries m pid (h ∷ hs) d = elim (Bool-cases (h.portfolio_id == pid)) [
  | inr e ↦
      ap (λ es. map (touch_all m es) (h ∷ hs)) (entries_out pid h hs e)
      ∙ rw e (cc (touch_all-ne m pid h hs d.0, map-touch_all-entries m pid hs d.1))
  | inl e ↦
      ap (λ es. map (touch_all m es) (h ∷ hs)) (entries_in pid h hs e)
      ∙ rw e (
          cc (
            touch_all-head m pid (lookup h.ticker m) h hs d.0,
            map-touch_ne m h.ticker h.id (entries pid hs) hs d.0,
            map-touch_all-entries m pid hs d.1,
          ))
]

mirror_row-id : (m : Dict KisHolding) (pid : ℕ) (h : Holding) → (mirror_row m pid h).id ≡ h.id
mirror_row-id m pid h = ground arith

kept-mirror_row :
    (m : Dict KisHolding) (pid : ℕ) (h : Holding) (hs : List Holding)
    → All (λ g. g.id ≢ h.id) hs
    → kept m (entries pid hs) (mirror_row m pid h) ≡ true
kept-mirror_row m pid h hs a =
    kept-ne m pid (mirror_row m pid h) hs
      (subst (λ (i : ℕ). All (λ g. g.id ≢ i) hs) (sym (mirror_row-id m pid h)) a)

select-kept_tail :
    (m : Dict KisHolding) (pid : ℕ) (t : String) (i : ℕ) (es : Dict ℕ) (hs : List Holding)
    → All (λ g. g.id ≢ i) hs
    → select (kept m ((t, i) ∷ es)) (map (mirror_row m pid) hs)
      ≡ select (kept m es) (map (mirror_row m pid) hs)
select-kept_tail m pid t i es [] a = refl
select-kept_tail m pid t i es (g ∷ hs) a =
    ground (arith, a.0, mirror_row-id m pid g, select-kept_tail m pid t i es hs a.1)

select-kept-entries :
    (m : Dict KisHolding) (pid : ℕ) (hs : List Holding)
    → IdsDistinct hs
    → select (kept m (entries pid hs)) (map (mirror_row m pid) hs)
      ≡ map (mirror_row m pid) (select (stays m pid) hs)
select-kept-entries m pid [] d = refl
select-kept-entries m pid (h ∷ hs) d = elim (Bool-cases (h.portfolio_id == pid)) [
  | inr e ↦
      ap (λ es. select (kept m es) (map (mirror_row m pid) (h ∷ hs))) (entries_out pid h hs e)
      ∙ rw e (rw (kept-ne m pid h hs d.0) (cc (select-kept-entries m pid hs d.1)))
  | inl e ↦
      ap (λ es. select (kept m es) (map (mirror_row m pid) (h ∷ hs))) (entries_in pid h hs e)
      ∙ ground (
        arith,
        mirror_row-id m pid h,
        kept-mirror_row m pid h hs d.0,
        select-kept_tail m pid h.ticker h.id (entries pid hs) hs d.0,
        select-kept-entries m pid hs d.1,
      )
]

-- The rows after the three loops and the flush, in one pass.
unfoldable pub reconciled : ℕ → List KisHolding → ℕ → List Holding → List Holding
reconciled pid kis_holdings next table =
    let m = add_kis [] kis_holdings in
    map (mirror_row m pid) (select (stays m pid) table)
    ++ flush next pid (missing (entries pid table) m)

-- In a table with no primary key twice and no ticker twice in a portfolio, the three loops and the
-- commit give the table that `reconciled` describes: the portfolio's rows that the broker still has,
-- each with the broker's quantity, price and market, the other rows as they are, and then the new rows in the order
-- of the broker's dictionary.
pub reconcile-reconciled :
    (pid : ℕ) (kis_holdings : List KisHolding) (next : ℕ) (table : List Holding)
    → IdsDistinct table
    → TickersDistinct table
    → (reconcile_holdings pid kis_holdings next table).0 ≡ reconciled pid kis_holdings next table
unfolding reconcile_holdings reconciled
reconcile-reconciled pid kis_holdings next table ids tickers =
    let m = add_kis [] kis_holdings in
    simp (
      add_db-entries pid table tickers,
      delete_loop-rows,
      delete_loop-queued,
      update_loop-rows,
      update_loop-queued,
      insert_loop-rows,
      insert_loop-queued,
      map-touch_all-entries m pid table ids,
      select-kept-entries m pid table ids,
    )
