-- ===== src/PortfolioHoldings/Rows.antt =====
-- The holdings table under the statements of a bulk registration.
use mathlib.Core.Path.{subst}
use the_wealth.Base.{
  ℕ, ◌+◌, ◌<◌, ◌≡◌, ◌≢◌, refl, Bool, true, false, some, List, [], ◌∷◌, ◌++◌, String, ◌==◌, ==_refl,
  ==_iff, All, arith, inl, inr, Bool-cases, if◌then◌else◌,
}
use the_wealth.Base.Int.{ℤ, pos, ◌+ℤ◌, ◌<ℤ◌, int_laws}
use the_wealth.Store.{Holding}
use the_wealth.Store.Holdings.{is_holding, update_row, IdsDistinct}
use the_wealth.PortfolioHoldings.{HoldingCreate, get_holding, merge_item}

-- the quantity that a portfolio holds of a ticker, over all its rows
abbrev pub quantity_of : ℕ → String → List Holding → ℤ
quantity_of pid t [] = pos 0
quantity_of pid t (h ∷ hs) =
    (if is_holding pid t h then h.quantity else pos 0) +ℤ quantity_of pid t hs

pub quantity_of-append :
    (pid : ℕ) (t : String) (hs : List Holding) (h : Holding)
    → quantity_of pid t (hs ++ h ∷ [])
      ≡ quantity_of pid t hs +ℤ (if is_holding pid t h then h.quantity else pos 0)
quantity_of-append pid t [] h = omega int_laws
quantity_of-append pid t (g ∷ hs) h = rw (quantity_of-append pid t hs h) (omega int_laws)

pub get_holding-append :
    (i : ℕ) (hs gs : List Holding) (h : Holding)
    → get_holding i hs ≡ some h
    → get_holding i (hs ++ gs) ≡ some h
get_holding-append i [] gs h e = cc
get_holding-append i (g ∷ hs) gs h e = ground (arith, get_holding-append i hs gs h)

pub get_holding-fresh :
    (n : ℕ) (hs : List Holding) (h : Holding)
    → All (λ g. g.id < n) hs
    → h.id ≡ n
    → get_holding n (hs ++ h ∷ []) ≡ some h
get_holding-fresh n [] h a e = ground arith
get_holding-fresh n (g ∷ hs) h a e = ground (arith, get_holding-fresh n hs h a.1 e)

pub update_row-absent :
    (i : ℕ) (f : Holding → Holding) (hs : List Holding)
    → All (λ g. g.id ≢ i) hs
    → update_row i f hs ≡ hs
update_row-absent i f [] a = refl
update_row-absent i f (g ∷ hs) a = ground (arith, update_row-absent i f hs a.1)

pub merged_sum :
    (b : Bool) (x q rest : ℤ)
    → (if b then x +ℤ q else pos 0) +ℤ rest
      ≡ (if b then x else pos 0) +ℤ rest +ℤ (if b then q else pos 0)
merged_sum true x q rest = omega int_laws
merged_sum false x q rest = omega int_laws

pub quantity_of-update_head :
    (pid : ℕ) (t : String) (item : HoldingCreate) (g : Holding) (hs : List Holding)
    → All (λ h. h.id ≢ g.id) hs
    → quantity_of pid t (update_row g.id (merge_item item) (g ∷ hs))
      ≡ quantity_of pid t (g ∷ hs) +ℤ (if is_holding pid t g then item.quantity else pos 0)
quantity_of-update_head pid t item g hs a =
    rw (==_refl g.id, update_row-absent g.id (merge_item item) hs a)
      (merged_sum (is_holding pid t g) g.quantity item.quantity (quantity_of pid t hs))

pub quantity_of-update :
    (pid : ℕ) (t : String) (item : HoldingCreate) (h : Holding) (hs : List Holding)
    → IdsDistinct hs
    → get_holding h.id hs ≡ some h
    → quantity_of pid t (update_row h.id (merge_item item) hs)
      ≡ quantity_of pid t hs +ℤ (if is_holding pid t h then item.quantity else pos 0)
quantity_of-update pid t item h [] d e = cc
quantity_of-update pid t item h (g ∷ hs) d e = elim (Bool-cases (g.id == h.id)) [
  | inl same ↦
      let k : g ≡ h = cc (rw same at e) in
      subst
        (λ x.
          quantity_of pid t (update_row x.id (merge_item item) (g ∷ hs))
          ≡ quantity_of pid t (g ∷ hs) +ℤ (if is_holding pid t x then item.quantity else pos 0))
        k (quantity_of-update_head pid t item g hs d.0)
  | inr differ ↦
      rw (differ, quantity_of-update pid t item h hs d.1 (rw differ at e)) (omega int_laws)
]

pub get_holding-update :
    (i j : ℕ) (item : HoldingCreate) (hs : List Holding) (h : Holding)
    → get_holding j hs ≡ some h
    → get_holding j (update_row i (merge_item item) hs)
      ≡ some (if h.id == i then merge_item item h else h)
get_holding-update i j item [] h e = cc
get_holding-update i j item (g ∷ hs) h e = ground (arith, get_holding-update i j item hs h)

module _ (P : ℕ → Type 0) where
  pub All-id_append :
      (hs : List Holding) (h : Holding)
      → All (λ g. P g.id) hs
      → P h.id
      → All (λ g. P g.id) (hs ++ h ∷ [])
  All-id_append [] h a p = (p, tt)
  All-id_append (g ∷ hs) h a p = (a.0, All-id_append hs h a.1 p)

  pub All-id_update :
      (i : ℕ) (item : HoldingCreate) (hs : List Holding)
      → All (λ g. P g.id) hs
      → All (λ g. P g.id) (update_row i (merge_item item) hs)
  All-id_update i item [] a = tt
  All-id_update i item (g ∷ hs) a = ground (arith, All-id_update i item hs a.1)

pub weaken : (n : ℕ) (hs : List Holding) → All (λ h. h.id < n) hs → All (λ h. h.id < n + 1) hs
weaken n [] a = tt
weaken n (h ∷ hs) a = (omega (arith, a.0), weaken n hs a.1)

pub IdsDistinct-append :
    (hs : List Holding) (h : Holding) (n : ℕ)
    → IdsDistinct hs
    → All (λ g. g.id < n) hs
    → h.id ≡ n
    → IdsDistinct (hs ++ h ∷ [])
IdsDistinct-append [] h n d a e = (tt, tt)
IdsDistinct-append (g ∷ hs) h n d a e = (
  All-id_append (λ i. i ≢ g.id) hs h d.0 (omega (arith, a.0, e)),
  IdsDistinct-append hs h n d.1 a.1 e,
)

pub IdsDistinct-update :
    (i : ℕ) (item : HoldingCreate) (hs : List Holding)
    → IdsDistinct hs
    → IdsDistinct (update_row i (merge_item item) hs)
IdsDistinct-update i item [] d = tt
IdsDistinct-update i item (g ∷ hs) d = elim (Bool-cases (g.id == i)) [
  | inl e ↦ rw e (All-id_update (λ j. j ≢ g.id) i item hs d.0, IdsDistinct-update i item hs d.1)
  | inr e ↦ rw e (All-id_update (λ j. j ≢ g.id) i item hs d.0, IdsDistinct-update i item hs d.1)
]

abbrev pub ArePositive : List Holding → Type 0
ArePositive = All (λ h. pos 0 <ℤ h.quantity)

pub ArePositive-append :
    (hs : List Holding) (h : Holding)
    → ArePositive hs
    → pos 0 <ℤ h.quantity
    → ArePositive (hs ++ h ∷ [])
ArePositive-append [] h a p = (p, tt)
ArePositive-append (g ∷ hs) h a p = (a.0, ArePositive-append hs h a.1 p)

pub positive_sum : (a b : ℤ) → pos 0 <ℤ a → pos 0 <ℤ b → pos 0 <ℤ (a +ℤ b)
positive_sum a b h k = omega (int_laws, h, k)

pub ArePositive-update :
    (i : ℕ) (item : HoldingCreate) (hs : List Holding)
    → pos 0 <ℤ item.quantity
    → ArePositive hs
    → ArePositive (update_row i (merge_item item) hs)
ArePositive-update i item [] p a = tt
ArePositive-update i item (g ∷ hs) p a = elim (Bool-cases (g.id == i)) [
  | inl e ↦ rw e (positive_sum g.quantity item.quantity a.0 p, ArePositive-update i item hs p a.1)
  | inr e ↦ rw e (a.0, ArePositive-update i item hs p a.1)
]

pub get_holding-positive :
    (i : ℕ) (hs : List Holding) (h : Holding)
    → ArePositive hs
    → get_holding i hs ≡ some h
    → pos 0 <ℤ h.quantity
get_holding-positive i [] h a e = cc
get_holding-positive i (g ∷ hs) h a e = elim (Bool-cases (g.id == i)) [
  | inl same ↦ let k : g ≡ h = cc (rw same at e) in subst (λ x. pos 0 <ℤ x.quantity) k a.0
  | inr differ ↦ get_holding-positive i hs h a.1 (rw differ at e)
]

pub get_holding-id :
    (i : ℕ) (hs : List Holding) (h : Holding) → get_holding i hs ≡ some h → h.id ≡ i
get_holding-id i [] h e = cc
get_holding-id i (g ∷ hs) h e = elim (Bool-cases (g.id == i)) [
  | inl same ↦ let k : g ≡ h = cc (rw same at e) in subst (λ x. x.id ≡ i) k ((==_iff g.id i).0 same)
  | inr differ ↦ get_holding-id i hs h (rw differ at e)
]
