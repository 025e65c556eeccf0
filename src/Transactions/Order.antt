-- ===== src/Transactions/Order.antt =====
-- `ORDER BY traded_at DESC, id DESC` over rows with distinct primary keys.
use the_wealth.Base.{
  ◌≡◌, ◌≢◌, Bool, true, false, some, List, [], ◌∷◌, ==_refl, inl, inr, Bool-cases, arith, All,
  select,
}
use the_wealth.Store.{Transaction}
use the_wealth.Transactions.{before, place, order_by, get_transaction}

-- no primary key twice
abbrev pub IdsDistinct : List Transaction → Type 0
IdsDistinct [] = Unit
IdsDistinct (t ∷ ts) = All (λ u. u.id ≢ t.id) ts × IdsDistinct ts

-- each row comes before all rows after it
abbrev pub IsOrdered : List Transaction → Type 0
IsOrdered [] = Unit
IsOrdered (t ∷ ts) = All (λ u. before t u ≡ true) ts × IsOrdered ts

module _ (P : Transaction → Type 0) where
  pub All-select : (p : Transaction → Bool) (ts : List Transaction) → All P ts → All P (select p ts)
  All-select p [] a = tt
  All-select p (t ∷ ts) a = ground (arith, All-select p ts a.1)

  pub All-place : (t : Transaction) (ts : List Transaction) → P t → All P ts → All P (place t ts)
  All-place t [] p a = (p, tt)
  All-place t (u ∷ us) p a = ground (arith, All-place t us p a.1)

  pub All-order_by : (ts : List Transaction) → All P ts → All P (order_by ts)
  unfolding order_by
  All-order_by [] a = tt
  All-order_by (t ∷ ts) a = All-place t (order_by ts) a.0 (All-order_by ts a.1)

before_trans : (a b c : Transaction) → before a b ≡ true → before b c ≡ true → before a c ≡ true
before_trans a b c h k = ground arith

before_total : (a b : Transaction) → b.id ≢ a.id → before a b ≡ false → before b a ≡ true
before_total a b n h = ground arith

pub before_irrefl : (a : Transaction) → before a a ≡ false
before_irrefl a = ground arith

pub before_asym : (a b : Transaction) → before a b ≡ true → before b a ≡ false
before_asym a b h = ground arith

All-before :
    (t u : Transaction) (us : List Transaction)
    → before t u ≡ true
    → All (λ v. before u v ≡ true) us
    → All (λ v. before t v ≡ true) us
All-before t u [] h a = tt
All-before t u (v ∷ vs) h a = (before_trans t u v h a.0, All-before t u vs h a.1)

place-IsOrdered :
    (t : Transaction) (ts : List Transaction)
    → All (λ u. u.id ≢ t.id) ts
    → IsOrdered ts
    → IsOrdered (place t ts)
place-IsOrdered t [] n o = (tt, tt)
place-IsOrdered t (u ∷ us) n o = elim (Bool-cases (before t u)) [
  | inl e ↦ rw e ((e, All-before t u us e o.0), o)
  | inr e ↦ rw e (
    All-place (λ v. before u v ≡ true) t us (before_total t u n.0 e) o.0,
    place-IsOrdered t us n.1 o.1,
  )
]

-- The rows of an ordered query stand in strict order.
pub order_by-IsOrdered : (ts : List Transaction) → IdsDistinct ts → IsOrdered (order_by ts)
unfolding order_by
order_by-IsOrdered [] d = tt
order_by-IsOrdered (t ∷ ts) d =
    place-IsOrdered t (order_by ts) (All-order_by (λ u. u.id ≢ t.id) ts d.0)
      (order_by-IsOrdered ts d.1)

pub select-IdsDistinct :
    (p : Transaction → Bool) (ts : List Transaction) → IdsDistinct ts → IdsDistinct (select p ts)
select-IdsDistinct p [] d = tt
select-IdsDistinct p (t ∷ ts) d =
    ground (arith, select-IdsDistinct p ts d.1, All-select (λ u. u.id ≢ t.id) p ts d.0)

-- what a lookup by primary key finds
abbrev pub IsStored : List Transaction → Transaction → Type 0
IsStored ts t = get_transaction t.id ts ≡ some t

IsStored-cons :
    (t : Transaction) (ts us : List Transaction)
    → All (λ u. u.id ≢ t.id) us
    → All (IsStored ts) us
    → All (IsStored (t ∷ ts)) us
IsStored-cons t ts [] n a = tt
IsStored-cons t ts (u ∷ us) n a = (ground (arith, n.0), IsStored-cons t ts us n.1 a.1)

pub All-IsStored : (ts : List Transaction) → IdsDistinct ts → All (IsStored ts) ts
All-IsStored [] d = tt
All-IsStored (t ∷ ts) d = (rw (==_refl t.id), IsStored-cons t ts ts d.0 (All-IsStored ts d.1))
