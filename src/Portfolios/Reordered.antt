-- ===== src/Portfolios/Reordered.antt =====
-- What a new order changes, and whose portfolios it reaches.
use mathlib.Core.Path.{subst}
use the_wealth.Base.{
  ℕ, ◌≡◌, ◌≢◌, refl, sym, ap, ◌∙◌, true, false, ◌&&◌, not, Option, none, some, List, [], ◌∷◌, map,
  ◌==◌, ==_iff, All, inl, inr, Bool-cases, Option-cases, arith, if◌then◌else◌,
}
use the_wealth.Base.Int.{ℤ}
use the_wealth.Outcome.{ok, >>=-Passed, raise_if, http_exception}
use the_wealth.Store.{Portfolio}
use the_wealth.Transactions.{get_portfolio}
use the_wealth.PortfolioHoldings.Owners.{raise_if-ok}
use the_wealth.Portfolios.{
  PortfolioTables, ReorderItem, contains_id, includes, same_ids, set_order, set_orders, owned_ids,
  reorder_portfolios,
}

-- no primary key twice
abbrev pub PortfolioIdsDistinct : List Portfolio → Type 0
PortfolioIdsDistinct [] = Unit
PortfolioIdsDistinct (p ∷ ps) = All (λ q. q.id ≢ p.id) ps × PortfolioIdsDistinct ps

-- the order that the last item for a portfolio asks for
abbrev pub last_order : ℕ → List ReorderItem → Option ℤ
last_order i [] = none
last_order i (item ∷ items) = elim (last_order i items) [
  | some order ↦ some order
  | none ↦ if item.id == i then some item.display_order else none
]

abbrev pub with_order : Option ℤ → Portfolio → Portfolio
with_order none p = p
with_order (some order) p = record p { display_order = order }

get-set_order :
    (i : ℕ) (item : ReorderItem) (ps : List Portfolio) (p : Portfolio)
    → get_portfolio i ps ≡ some p
    → get_portfolio i (set_order item ps)
      ≡ some (with_order (if item.id == i then some item.display_order else none) p)
get-set_order i item [] p h = absurd (cc h)
get-set_order i item (q ∷ qs) p h = elim (Bool-cases (q.id == i)) [
  | inl e ↦
      let same : q ≡ p = cc (rw e at h) in
      let own : q.id ≡ i = (==_iff q.id i).0 e in
      elim (Bool-cases (item.id == i)) [
        | inl f ↦
            let g : (q.id == item.id) ≡ true = ground (arith, own, f) in
            rw (f, g, e) (ap (λ x. some (with_order (some item.display_order) x)) same)
        | inr f ↦
            let g : (q.id == item.id) ≡ false = ground (arith, own, f) in
            rw (f, g, e) (ap some same)
      ]
  | inr e ↦ elim (Bool-cases (q.id == item.id)) [
    | inl g ↦ rw (g, e) (get-set_order i item qs p (rw e at h))
    | inr g ↦ rw (g, e) (get-set_order i item qs p (rw e at h))
  ]
]

with_order-last :
    (i : ℕ) (item : ReorderItem) (items : List ReorderItem) (p : Portfolio)
    → with_order
        (last_order i items)
        (with_order (if item.id == i then some item.display_order else none) p)
      ≡ with_order (last_order i (item ∷ items)) p
with_order-last i item items p = elim (Option-cases (last_order i items)) [
  | inl e ↦ rw e refl
  | inr (order, e) ↦ elim (Bool-cases (item.id == i)) [
    | inl f ↦ rw (e, f) refl
    | inr f ↦ rw (e, f) refl
  ]
]

get-set_orders :
    (i : ℕ) (items : List ReorderItem) (ps : List Portfolio) (p : Portfolio)
    → get_portfolio i ps ≡ some p
    → get_portfolio i (set_orders items ps) ≡ some (with_order (last_order i items) p)
unfolding set_orders
get-set_orders i [] ps p h = h
get-set_orders i (item ∷ items) ps p h =
    let one = with_order (if item.id == i then some item.display_order else none) p in
    get-set_orders i items (set_order item ps) one (get-set_order i item ps p h)
    ∙ ap some (with_order-last i item items p)

-- an id that is asked for is among the ids
asked-contains_id :
    (i : ℕ) (order : ℤ) (items : List ReorderItem)
    → last_order i items ≡ some order
    → contains_id i (map (λ x. x.id) items) ≡ true
asked-contains_id i order [] h = absurd (cc h)
asked-contains_id i order (item ∷ items) h = elim (Bool-cases (item.id == i)) [
  | inl f ↦ rw f refl
  | inr f ↦ elim (Option-cases (last_order i items)) [
    | inl e ↦ absurd (cc (rw (e, f) at h))
    | inr (o, e) ↦ rw f (asked-contains_id i o items e)
  ]
]

included :
    (i : ℕ) (is js : List ℕ)
    → includes is js ≡ true
    → contains_id i is ≡ true
    → contains_id i js ≡ true
included i [] js h m = absurd (cc m)
included i (k ∷ is) js h m = elim (Bool-cases (contains_id k js)) [
  | inl c ↦ elim (Bool-cases (k == i)) [
    | inl e ↦ subst (λ n. contains_id n js ≡ true) ((==_iff k i).0 e) c
    | inr e ↦ included i is js (rw c at h) (rw e at m)
  ]
  | inr c ↦ absurd (cc (rw c at h))
]

module _ (user : ℕ) (ids : List ℕ) where
  absent_id :
      (i : ℕ) (ps : List Portfolio)
      → All (λ q. q.id ≢ i) ps
      → contains_id i (owned_ids user ids ps) ≡ false
  absent_id i [] a = refl
  absent_id i (q ∷ qs) a =
      let other : (q.id == i) ≡ false = ground (arith, a.0) in
      elim (Bool-cases (contains_id q.id ids && (q.user_id == user))) [
        | inl e ↦ rw (e, other) (absent_id i qs a.1)
        | inr e ↦ rw e (absent_id i qs a.1)
      ]

  -- the row with an id that is owned is the user's
  owned-user :
      (i : ℕ) (ps : List Portfolio) (p : Portfolio)
      → PortfolioIdsDistinct ps
      → get_portfolio i ps ≡ some p
      → contains_id i (owned_ids user ids ps) ≡ true
      → p.user_id ≡ user
  owned-user i [] p d h m = absurd (cc h)
  owned-user i (q ∷ qs) p d h m = elim (Bool-cases (q.id == i)) [
    | inl f ↦
        let same : q ≡ p = cc (rw f at h) in
        let id : q.id ≡ i = (==_iff q.id i).0 f in
        elim (Bool-cases (contains_id q.id ids && (q.user_id == user))) [
          | inl e ↦
              let own : q.user_id ≡ user = ground (arith, e) in ap (λ x. x.user_id) (sym same) ∙ own
          | inr e ↦
              let absent = absent_id i qs (subst (λ n. All (λ x. x.id ≢ n) qs) id d.0) in
              absurd (cc (rw e at m, absent))
        ]
    | inr f ↦ elim (Bool-cases (contains_id q.id ids && (q.user_id == user))) [
      | inl e ↦ owned-user i qs p d.1 (rw f at h) (rw f at (rw e at m))
      | inr e ↦ owned-user i qs p d.1 (rw f at h) (rw e at m)
    ]
  ]

-- where the check is passed, an order is asked for the user's portfolios alone
same_ids-user :
    (user : ℕ) (items : List ReorderItem) (ps : List Portfolio) (i : ℕ) (order : ℤ) (p : Portfolio)
    → PortfolioIdsDistinct ps
    → same_ids (owned_ids user (map (λ x. x.id) items) ps) (map (λ x. x.id) items) ≡ true
    → get_portfolio i ps ≡ some p
    → last_order i items ≡ some order
    → p.user_id ≡ user
same_ids-user user items ps i order p d s h l =
    let ids = map (λ x. x.id) items in
    let owned = owned_ids user ids ps in
    let back : includes ids owned ≡ true = elim (Bool-cases (includes owned ids)) [
      | inl e ↦ rw e at s
      | inr e ↦ absurd (cc (rw e at s))
    ] in
    owned-user user ids i ps p d h (included i ids owned back (asked-contains_id i order items l))

-- A new order succeeds only where every portfolio that it names is the user's: then each of the
-- user's portfolios has the order that its last item asks for, and its own where there is none, with
-- all else unchanged; another user's portfolio is the same.
pub reorder_portfolios-last_order :
    (user : ℕ) (items : List ReorderItem) (db : PortfolioTables) {db' : PortfolioTables} (i : ℕ)
    (p : Portfolio)
    → PortfolioIdsDistinct db.portfolios
    → get_portfolio i db.portfolios ≡ some p
    → reorder_portfolios user items db ≡ ok db'
    → (get_portfolio i db'.portfolios ≡ some (with_order (last_order i items) p))
      × (p.user_id ≢ user → get_portfolio i db'.portfolios ≡ some p)
unfolding reorder_portfolios
reorder_portfolios-last_order user items db {db'} i p d h r =
    let ids = map (λ x. x.id) items in
    let checked =
      raise_if (not (same_ids (owned_ids user ids db.portfolios) ids)) (http_exception 403) in
    let (_, e, made) = >>=-Passed checked _ r in
    let same : same_ids (owned_ids user ids db.portfolios) ids ≡ true =
      ground (arith, raise_if-ok _ _ e) in
    let rows : set_orders items db.portfolios ≡ db'.portfolios = cc made in
    let set =
      subst (λ ps. get_portfolio i ps ≡ some (with_order (last_order i items) p)) rows
        (get-set_orders i items db.portfolios p h) in
    (
      set,
      λ other. elim (Option-cases (last_order i items)) [
        | inl none_asked ↦ set ∙ rw none_asked refl
        | inr (order, asked) ↦
            absurd (other (same_ids-user user items db.portfolios i order p d same h asked))
      ],
    )
