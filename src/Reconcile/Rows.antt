-- ===== src/Reconcile/Rows.antt =====
-- The three loops of `reconcile_holdings`, row by row.
use mathlib.Core.List.{append-nil, append_assoc}
use the_wealth.Base.{
  sym, ap, ◌∙◌, inl, inr, Bool-cases, ℕ, ◌≡◌, refl, Bool, true, false, not, ◌&&◌, ◌||◌, Option,
  none, some, List, [], ◌∷◌, ◌++◌, map, String, ◌==◌, select, arith, if◌then◌else◌,
}
use the_wealth.Base.Int.{==ℤ_eq}
use the_wealth.Base.Text.{Dict, lookup, contains, opt_eq_lem}
use the_wealth.Store.{Holding}
use the_wealth.Store.Holdings.{update_row, delete_row}
use the_wealth.Reconcile.{
  KisHolding, Session, overwrite, sync_row, update_one, update_loop, delete_loop, insert_loop,
}

-- A row that did not change is what the overwrite would write.
sync_row-overwrite : (k : KisHolding) (h : Holding) → sync_row k h ≡ overwrite k h
sync_row-overwrite k h = ground (
  arith,
  ==ℤ_eq h.quantity k.quantity,
  ==ℤ_eq h.avg_price k.avg_price,
  opt_eq_lem h.market k.market,
)

-- the effect of one entry of `db_map` on one row
abbrev pub touch : Option KisHolding → ℕ → Holding → Holding
touch none i h = h
touch (some k) i h = if h.id == i then overwrite k h else h

abbrev pub touch_all : Dict KisHolding → Dict ℕ → Holding → Holding
touch_all m [] h = h
touch_all m ((t, i) ∷ es) h = touch_all m es (touch (lookup t m) i h)

update_row-touch :
    (k : KisHolding) (i : ℕ) (rows : List Holding)
    → update_row i (sync_row k) rows ≡ map (touch (some k) i) rows
update_row-touch k i [] = refl
update_row-touch k i (h ∷ hs) = ground (arith, sync_row-overwrite k h, update_row-touch k i hs)

map-touch-none : (i : ℕ) (rows : List Holding) → map (touch none i) rows ≡ rows
map-touch-none i [] = refl
map-touch-none i (h ∷ hs) = cc (map-touch-none i hs)

update_one-rows :
    (o : Option KisHolding) (i : ℕ) (s : Session) → (update_one o i s).rows ≡ map (touch o i) s.rows
update_one-rows none i s = sym (map-touch-none i s.rows)
update_one-rows (some k) i s = update_row-touch k i s.rows

map-touch_all :
    (m : Dict KisHolding) (o : Option KisHolding) (i : ℕ) (es : Dict ℕ) (rows : List Holding)
    → map (touch_all m es) (map (touch o i) rows) ≡ map (λ h. touch_all m es (touch o i h)) rows
map-touch_all m o i es [] = refl
map-touch_all m o i es (h ∷ hs) = cc (map-touch_all m o i es hs)

map-touch_all_nil : (m : Dict KisHolding) (rows : List Holding) → map (touch_all m []) rows ≡ rows
map-touch_all_nil m [] = refl
map-touch_all_nil m (h ∷ hs) = cc (map-touch_all_nil m hs)

pub update_loop-rows :
    (m : Dict KisHolding) (es : Dict ℕ) (s : Session)
    → (update_loop m es s).rows ≡ map (touch_all m es) s.rows
unfolding update_loop
update_loop-rows m [] s = sym (map-touch_all_nil m s.rows)
update_loop-rows m ((t, i) ∷ es) s =
    update_loop-rows m es (update_one (lookup t m) i s)
    ∙ ap (map (touch_all m es)) (update_one-rows (lookup t m) i s)
    ∙ map-touch_all m (lookup t m) i es s.rows

update_one-queued :
    (o : Option KisHolding) (i : ℕ) (s : Session) → (update_one o i s).queued ≡ s.queued
update_one-queued none i s = refl
update_one-queued (some k) i s = refl

pub update_loop-queued :
    (m : Dict KisHolding) (es : Dict ℕ) (s : Session) → (update_loop m es s).queued ≡ s.queued
unfolding update_loop
update_loop-queued m [] s = refl
update_loop-queued m ((t, i) ∷ es) s =
    update_loop-queued m es (update_one (lookup t m) i s) ∙ update_one-queued (lookup t m) i s

-- a row that no entry of `db_map` deletes
abbrev pub kept : Dict KisHolding → Dict ℕ → Holding → Bool
kept m [] h = true
kept m ((t, i) ∷ es) h = (contains t m || not (h.id == i)) && kept m es h

select-kept_nil : (m : Dict KisHolding) (rows : List Holding) → select (kept m []) rows ≡ rows
select-kept_nil m [] = refl
select-kept_nil m (h ∷ hs) = cc (select-kept_nil m hs)

select-kept_in :
    (m : Dict KisHolding) (t : String) (i : ℕ) (es : Dict ℕ) (rows : List Holding)
    → contains t m ≡ true
    → select (kept m ((t, i) ∷ es)) rows ≡ select (kept m es) rows
select-kept_in m t i es [] e = refl
select-kept_in m t i es (h ∷ hs) e = ground (arith, select-kept_in m t i es hs e)

select-kept_out :
    (m : Dict KisHolding) (t : String) (i : ℕ) (es : Dict ℕ) (rows : List Holding)
    → contains t m ≡ false
    → select (kept m ((t, i) ∷ es)) rows ≡ select (kept m es) (delete_row i rows)
select-kept_out m t i es [] e = refl
select-kept_out m t i es (h ∷ hs) e = ground (arith, select-kept_out m t i es hs e)

pub delete_loop-rows :
    (m : Dict KisHolding) (es : Dict ℕ) (s : Session)
    → (delete_loop m es s).rows ≡ select (kept m es) s.rows
unfolding delete_loop
delete_loop-rows m [] s = sym (select-kept_nil m s.rows)
delete_loop-rows m ((t, i) ∷ es) s = elim (Bool-cases (contains t m)) [
  | inl e ↦ rw (e, delete_loop) (delete_loop-rows m es s ∙ sym (select-kept_in m t i es s.rows e))
  | inr e ↦ rw (e, delete_loop) (delete_loop-rows m es _ ∙ sym (select-kept_out m t i es s.rows e))
]

pub delete_loop-queued :
    (m : Dict KisHolding) (es : Dict ℕ) (s : Session) → (delete_loop m es s).queued ≡ s.queued
unfolding delete_loop
delete_loop-queued m [] s = refl
delete_loop-queued m ((t, i) ∷ es) s = elim (Bool-cases (contains t m)) [
  | inl e ↦ rw (e, delete_loop) (delete_loop-queued m es s)
  | inr e ↦ rw (e, delete_loop) (delete_loop-queued m es _)
]

-- the positions that the table lacks
abbrev pub missing : Dict ℕ → Dict KisHolding → List KisHolding
missing db_map [] = []
missing db_map ((t, k) ∷ es) =
    if contains t db_map then missing db_map es else k ∷ missing db_map es

pub insert_loop-queued :
    (db_map : Dict ℕ) (es : Dict KisHolding) (s : Session)
    → (insert_loop db_map es s).queued ≡ s.queued ++ missing db_map es
unfolding insert_loop
insert_loop-queued db_map [] s = sym (append-nil s.queued)
insert_loop-queued db_map ((t, k) ∷ es) s = elim (Bool-cases (contains t db_map)) [
  | inl e ↦ rw (e, missing, insert_loop) (insert_loop-queued db_map es s)
  | inr e ↦
      rw (e, missing, insert_loop)
        (insert_loop-queued db_map es _ ∙ append_assoc s.queued (k ∷ []) _)
]

pub insert_loop-rows :
    (db_map : Dict ℕ) (es : Dict KisHolding) (s : Session) → (insert_loop db_map es s).rows ≡ s.rows
unfolding insert_loop
insert_loop-rows db_map [] s = refl
insert_loop-rows db_map ((t, k) ∷ es) s = elim (Bool-cases (contains t db_map)) [
  | inl e ↦ rw (e, insert_loop) (insert_loop-rows db_map es s)
  | inr e ↦ rw (e, insert_loop) (insert_loop-rows db_map es _)
]
