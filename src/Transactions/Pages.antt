-- ===== src/Transactions/Pages.antt =====
-- Reading a transaction list to its end by following `next_cursor`.
use mathlib.Core.Path.{subst}
use mathlib.Core.List.{append-nil}
use the_wealth.Base.{
  ℕ, suc, zero, ◌+◌, ◌≤◌, ◌<◌, ◌≡◌, ◌⊎◌, refl, sym, ap, ◌∙◌, true, false, none, some, List, [], ◌∷◌,
  ◌++◌, ◌==◌, ltb, inl, inr, Bool-cases, arith, All, select, take, length, length-append, is_some,
  if◌then◌else◌,
}
use the_wealth.Store.{Transaction}
use the_wealth.Transactions.{
  before, order_by, get_transaction, is_visible, page, Page, past, cut, last_id,
}
use the_wealth.Transactions.Order.{
  IdsDistinct, IsOrdered, All-order_by, before_irrefl, before_asym, order_by-IsOrdered,
  select-IdsDistinct, IsStored, All-IsStored,
}

-- a page's items, and those that its cursor leads to
abbrev pub follow : (ℕ → List Transaction) → Page → List Transaction
follow read p = p.items ++ elim p.next_cursor [ none ↦ [] | some c ↦ read c ]

-- the items of the page at a cursor and of the pages after it
unfoldable pub pages : ℕ → ℕ → List Transaction → ℕ → ℕ → List Transaction
pages pid limit ts zero cursor = []
pages pid limit ts (suc fuel) cursor = follow (pages pid limit ts fuel) (page pid cursor limit ts)

All-mid :
    (P : Transaction → Type 0) (xs : List Transaction) (r : Transaction) (ys : List Transaction)
    → All P (xs ++ r ∷ ys)
    → P r
All-mid P [] r ys a = a.0
All-mid P (x ∷ xs) r ys a = All-mid P xs r ys a.1

select-after :
    (r : Transaction) (ys : List Transaction)
    → All (λ u. before r u ≡ true) ys
    → select (before r) ys ≡ ys
select-after r [] a = refl
select-after r (y ∷ ys) a = rw a.0 (ap (λ zs. y ∷ zs) (select-after r ys a.1))

select-before :
    (xs : List Transaction) (r : Transaction) (ys : List Transaction)
    → IsOrdered (xs ++ r ∷ ys)
    → select (before r) (xs ++ r ∷ ys) ≡ ys
select-before [] r ys o = rw (before_irrefl r) (select-after r ys o.0)
select-before (x ∷ xs) r ys o =
    rw (before_asym x r (All-mid (λ u. before x u ≡ true) xs r ys o.0)) (select-before xs r ys o.1)

-- a full page and what is left after its last row
abbrev Split : ℕ → List Transaction → Type 0
Split n rows =
    (front : List Transaction) × (r : Transaction) × (back : List Transaction) × (rows
      ≡ front ++ r ∷ back)
    × (take n rows ≡ front ++ r ∷ [])

split : (n : ℕ) (rows : List Transaction) → n < length rows → Split (suc n) rows
split n [] h = absurd (omega (arith, h))
split zero (x ∷ xs) h = ([], x, xs, refl, refl)
split (suc n) (x ∷ xs) h =
    let (front, r, back, e, f) = split n xs (omega (arith, h)) in
    (x ∷ front, r, back, ap (λ zs. x ∷ zs) e, ap (λ zs. x ∷ zs) f)

last_id_lem : (front : List Transaction) (r : Transaction) → last_id (front ++ r ∷ []) ≡ some r.id
last_id_lem [] r = refl
last_id_lem (x ∷ []) r = refl
last_id_lem (x ∷ y ∷ front) r = last_id_lem (y ∷ front) r

take_all : (n : ℕ) (rows : List Transaction) → length rows ≤ n → take n rows ≡ rows
take_all zero [] h = refl
take_all zero (x ∷ xs) h = ground (arith, h)
take_all (suc n) [] h = refl
take_all (suc n) (x ∷ xs) h = ap (λ zs. x ∷ zs) (take_all n xs (omega (arith, h)))

length-take_more :
    (n : ℕ) (rows : List Transaction) → n < length rows → ltb n (length (take (n + 1) rows)) ≡ true
length-take_more zero [] h = ground (arith, h)
length-take_more zero (x ∷ xs) h = refl
length-take_more (suc n) [] h = ground (arith, h)
length-take_more (suc n) (x ∷ xs) h = ground (arith, length-take_more n xs (omega (arith, h)))

length-take_less :
    (n : ℕ) (rows : List Transaction) → length rows ≤ n → ltb n (length (take (n + 1) rows)) ≡ false
length-take_less n rows h = rw (take_all (n + 1) rows (omega (arith, h))) (ground arith)

cut_last :
    (n : ℕ) (rows : List Transaction)
    → length rows ≤ n
    → cut n rows ≡ record { items = rows; next_cursor = none; has_more = false }
cut_last n rows h = rw (length-take_less n rows h, take_all n rows h) refl

cut_more :
    (n : ℕ) (rows front : List Transaction) (r : Transaction)
    → n < length rows
    → take n rows ≡ front ++ r ∷ []
    → cut n rows ≡ record { items = front ++ r ∷ []; next_cursor = some r.id; has_more = true }
cut_more n rows front r h e = rw (length-take_more n rows h, e, last_id_lem front r) refl

-- the rows that a query reads at a cursor
abbrev pub rows_at : ℕ → List Transaction → ℕ → List Transaction
rows_at pid ts cursor =
    if ltb 0 cursor
    then past pid (get_transaction cursor ts) (order_by (select (is_visible pid) ts))
    else order_by (select (is_visible pid) ts)

-- what is known of a listed row
abbrev IsRow : ℕ → List Transaction → Transaction → Type 0
IsRow pid ts t = IsStored ts t × (1 ≤ t.id) × ((t.portfolio_id == pid) ≡ true)

select-IsRow :
    (pid : ℕ) (ts us : List Transaction)
    → All (IsStored ts) us
    → All (λ t. 1 ≤ t.id) us
    → All (IsRow pid ts) (select (is_visible pid) us)
select-IsRow pid ts [] a b = tt
select-IsRow pid ts (u ∷ us) a b = elim (Bool-cases (u.portfolio_id == pid)) [
  | inl e ↦ elim (Bool-cases (is_some u.deleted_at)) [
    | inl d ↦ rw (e, d) (select-IsRow pid ts us a.1 b.1)
    | inr d ↦ rw (e, d) ((a.0, b.0, e), select-IsRow pid ts us a.1 b.1)
  ]
  | inr e ↦ rw e (select-IsRow pid ts us a.1 b.1)
]

pages_step_last :
    (pid limit : ℕ) (ts : List Transaction) (fuel cursor : ℕ) (rest : List Transaction)
    → rows_at pid ts cursor ≡ rest
    → length rest ≤ limit
    → pages pid limit ts (suc fuel) cursor ≡ rest
unfolding pages page
pages_step_last pid limit ts fuel cursor rest e h =
    ap (λ p. follow (pages pid limit ts fuel) p) (ap (cut limit) e ∙ cut_last limit rest h)
    ∙ append-nil rest

pages_step_more :
    (pid limit : ℕ) (ts : List Transaction) (fuel cursor : ℕ) (rest front : List Transaction)
    (r : Transaction)
    → rows_at pid ts cursor ≡ rest
    → limit < length rest
    → take limit rest ≡ front ++ r ∷ []
    → pages pid limit ts (suc fuel) cursor ≡ (front ++ r ∷ []) ++ pages pid limit ts fuel r.id
unfolding pages page
pages_step_more pid limit ts fuel cursor rest front r e h f =
    ap (λ p. follow (pages pid limit ts fuel) p)
      (ap (cut limit) e ∙ cut_more limit rest front r h f)

-- the cursor of a listed row reads the rows after it
rows_at_row :
    (pid : ℕ) (ts xs : List Transaction) (r : Transaction) (ys : List Transaction)
    → order_by (select (is_visible pid) ts) ≡ xs ++ r ∷ ys
    → IsOrdered (xs ++ r ∷ ys)
    → IsRow pid ts r
    → rows_at pid ts r.id ≡ ys
rows_at_row pid ts xs r ys e o row =
    let h : ltb 0 r.id ≡ true = ground (arith, row.1) in
    rw (h, row.0, row.2, e) (select-before xs r ys o)

append_assoc : (xs ys zs : List Transaction) → (xs ++ ys) ++ zs ≡ xs ++ (ys ++ zs)
append_assoc [] ys zs = refl
append_assoc (x ∷ xs) ys zs = ap (λ us. x ∷ us) (append_assoc xs ys zs)

le_or_gt : (a b : ℕ) → (a ≤ b) ⊎ (b < a)
le_or_gt a b = omega arith

-- Reading on from a cursor whose rows are the rest of the query gives that rest.
pages-rest :
    (pid limit : ℕ) (ts : List Transaction) (fuel cursor : ℕ) (xs rest : List Transaction)
    → 1 ≤ limit
    → IsOrdered (order_by (select (is_visible pid) ts))
    → All (IsRow pid ts) (order_by (select (is_visible pid) ts))
    → order_by (select (is_visible pid) ts) ≡ xs ++ rest
    → rows_at pid ts cursor ≡ rest
    → length rest ≤ fuel
    → pages pid limit ts (suc fuel) cursor ≡ rest
pages-rest pid limit ts zero cursor xs rest pos o a e f h =
    pages_step_last pid limit ts zero cursor rest f (omega (arith, h))
pages-rest pid zero ts (suc fuel) cursor xs rest pos o a e f h = absurd (omega (arith, pos))
pages-rest pid (suc n) ts (suc fuel) cursor xs rest pos o a e f h =
    elim (le_or_gt (length rest) (suc n)) [
      | inl l ↦ pages_step_last pid (suc n) ts (suc fuel) cursor rest f l
      | inr l ↦
          let (front, r, back, s, t) = split n rest (omega (arith, l)) in
          let g : order_by (select (is_visible pid) ts) ≡ (xs ++ front) ++ r ∷ back =
            e ∙ ap (λ us. xs ++ us) s ∙ sym (append_assoc xs front (r ∷ back)) in
          let row : IsRow pid ts r =
            All-mid (IsRow pid ts) (xs ++ front) r back (subst (λ us. All (IsRow pid ts) us) g a) in
          let len : length rest ≡ length front + length (r ∷ back) =
            ap length s ∙ length-append front (r ∷ back) in
          pages_step_more pid (suc n) ts (suc fuel) cursor rest front r f l t
          ∙ ap (λ us. (front ++ r ∷ []) ++ us)
              (pages-rest pid (suc n) ts fuel r.id ((xs ++ front) ++ r ∷ []) back pos o a
                (g ∙ sym (append_assoc (xs ++ front) (r ∷ []) back))
                (rows_at_row pid ts (xs ++ front) r back g (subst IsOrdered g o) row)
                (omega (arith, len, h)))
          ∙ append_assoc front (r ∷ []) back
          ∙ sym s
    ]

-- A client that starts with cursor 0 and follows `next_cursor`, page by page, reads the rows of the
-- portfolio that are not deleted, each once and newest first, whatever the page size is from 1 up:
-- given one page more than there are rows at most, and that primary keys are distinct and not 0.
pub pages-order_by :
    (pid limit : ℕ) (ts : List Transaction) (fuel : ℕ)
    → 1 ≤ limit
    → IdsDistinct ts
    → All (λ t. 1 ≤ t.id) ts
    → length (order_by (select (is_visible pid) ts)) ≤ fuel
    → pages pid limit ts (suc fuel) 0 ≡ order_by (select (is_visible pid) ts)
pages-order_by pid limit ts fuel pos keys ids h =
    pages-rest pid limit ts fuel 0 [] (order_by (select (is_visible pid) ts)) pos
      (order_by-IsOrdered (select (is_visible pid) ts)
        (select-IdsDistinct (is_visible pid) ts keys))
      (All-order_by (IsRow pid ts) (select (is_visible pid) ts)
        (select-IsRow pid ts ts (All-IsStored ts keys) ids))
      refl refl h
