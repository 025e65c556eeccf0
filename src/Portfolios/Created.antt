-- ===== src/Portfolios/Created.antt =====
-- The order that new portfolios get.
use the_wealth.Base.{
  ℕ, ◌≡◌, refl, ap, ◌⊎◌, none, some, List, [], ◌∷◌, ◌++◌, ◌==◌, ==_refl, All, inl, inr, Bool-cases,
}
use the_wealth.Base.Int.{pos, negsuc, ◌+ℤ◌}
use the_wealth.Store.{Portfolio}
use the_wealth.Portfolios.{
  PortfolioTables, PortfolioCreate, portfolios_of, max_display_order, or_minus_one,
  create_portfolio,
}

-- requests of one user, one after the other
unfoldable pub create_all : ℕ → List (ℕ × PortfolioCreate) → PortfolioTables → PortfolioTables
unfolding create_portfolio
create_all user [] db = db
create_all user ((now, body) ∷ bodies) db =
    create_all user bodies (create_portfolio now user body db).1

abbrev Zeros : List Portfolio → Type 0
Zeros = All (λ p. p.display_order ≡ pos 0)

max_display_order-Zeros :
    (ps : List Portfolio)
    → Zeros ps
    → (max_display_order ps ≡ none) ⊎ (max_display_order ps ≡ some (pos 0))
max_display_order-Zeros [] a = inl refl
max_display_order-Zeros (p ∷ ps) a = elim (max_display_order-Zeros ps a.1) [
  | inl e ↦ inr (rw (e, a.0) refl)
  | inr e ↦ inr (rw (e, a.0) refl)
]

-- rows that all have the order 0 ask for 0 again
or_minus_one-Zeros :
    (ps : List Portfolio) → Zeros ps → or_minus_one (max_display_order ps) ≡ negsuc 0
or_minus_one-Zeros ps a = elim (max_display_order-Zeros ps a) [
  | inl e ↦ rw e refl
  | inr e ↦ rw e refl
]

append-Zeros :
    (ps : List Portfolio) (p : Portfolio)
    → Zeros ps
    → p.display_order ≡ pos 0
    → Zeros (ps ++ p ∷ [])
append-Zeros [] p a h = (h, tt)
append-Zeros (q ∷ qs) p a h = (a.0, append-Zeros qs p a.1 h)

portfolios_of-append :
    (user : ℕ) (ps : List Portfolio) (p : Portfolio)
    → p.user_id ≡ user
    → portfolios_of user (ps ++ p ∷ []) ≡ portfolios_of user ps ++ p ∷ []
portfolios_of-append user [] p h = rw (h, ==_refl user) refl
portfolios_of-append user (q ∷ qs) p h = elim (Bool-cases (q.user_id == user)) [
  | inl e ↦ rw e (ap (◌∷◌ q) (portfolios_of-append user qs p h))
  | inr e ↦ rw e (portfolios_of-append user qs p h)
]

created-Zeros :
    (now user : ℕ) (body : PortfolioCreate) (db : PortfolioTables)
    → Zeros (portfolios_of user db.portfolios)
    → Zeros (portfolios_of user (create_portfolio now user body db).1.portfolios)
unfolding create_portfolio ◌+ℤ◌
created-Zeros now user body db a =
    let p = (create_portfolio now user body db).0 in
    let h : p.display_order ≡ pos 0 =
      ap (λ m. m +ℤ pos 1) (or_minus_one-Zeros (portfolios_of user db.portfolios) a) in
    rw (portfolios_of-append user db.portfolios p refl)
      (append-Zeros (portfolios_of user db.portfolios) p a h)

create_all-Zeros :
    (user : ℕ) (bodies : List (ℕ × PortfolioCreate)) (db : PortfolioTables)
    → Zeros (portfolios_of user db.portfolios)
    → Zeros (portfolios_of user (create_all user bodies db).portfolios)
unfolding create_all
create_all-Zeros user [] db a = a
create_all-Zeros user ((now, body) ∷ bodies) db a =
    create_all-Zeros user bodies (create_portfolio now user body db).1
      (created-Zeros now user body db a)

-- However many portfolios a user without one creates, with no other change of them in between, each
-- gets the display order 0: none is placed behind the ones before it.
pub create_all-zero :
    (user : ℕ) (bodies : List (ℕ × PortfolioCreate)) (db : PortfolioTables)
    → portfolios_of user db.portfolios ≡ []
    → All (λ p. p.display_order ≡ pos 0) (portfolios_of user (create_all user bodies db).portfolios)
create_all-zero user bodies db h = create_all-Zeros user bodies db (rw h tt)
