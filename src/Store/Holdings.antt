-- ===== src/Store/Holdings.antt =====
-- The holdings table: queries by portfolio and ticker, statements by primary key, and what keeps
-- the queries for one row from finding two.
use the_wealth.Base.{
  ℕ, ◌≡◌, ◌≢◌, refl, Bool, not, ◌&&◌, Option, none, List, [], ◌∷◌, map, String, ◌==◌, ==_iff,
  select, find, All, arith, if◌then◌else◌,
}
use the_wealth.Base.Text.{str_eq, str_eq_iff}
use the_wealth.Store.{Holding}

-- `select(Holding).where(Holding.portfolio_id == portfolio_id)`
abbrev pub holdings_of : ℕ → List Holding → List Holding
holdings_of pid = select (λ h. h.portfolio_id == pid)

abbrev pub is_holding : ℕ → String → Holding → Bool
is_holding pid t h = (h.portfolio_id == pid) && str_eq h.ticker t

-- the first row of a portfolio for a ticker
abbrev pub find_holding : ℕ → String → List Holding → Option Holding
find_holding pid t = find (is_holding pid t)

-- UPDATE … WHERE id = i
abbrev pub update_row : ℕ → (Holding → Holding) → List Holding → List Holding
update_row i f = map (λ h. if h.id == i then f h else h)

-- DELETE … WHERE id = i
abbrev pub delete_row : ℕ → List Holding → List Holding
delete_row i = select (λ h. not (h.id == i))

-- no primary key twice
abbrev pub IdsDistinct : List Holding → Type 0
IdsDistinct [] = Unit
IdsDistinct (h ∷ hs) = All (λ g. g.id ≢ h.id) hs × IdsDistinct hs

-- no ticker twice in one portfolio
abbrev pub TickersDistinct : List Holding → Type 0
TickersDistinct [] = Unit
TickersDistinct (h ∷ hs) =
    All (λ g. g.portfolio_id ≡ h.portfolio_id → g.ticker ≢ h.ticker) hs × TickersDistinct hs

pub find_holding-none :
    (pid : ℕ) (t : String) (h : Holding) (hs : List Holding)
    → h.portfolio_id ≡ pid
    → h.ticker ≡ t
    → All (λ g. g.portfolio_id ≡ h.portfolio_id → g.ticker ≢ h.ticker) hs
    → find_holding pid t hs ≡ none
find_holding-none pid t h [] p q a = refl
find_holding-none pid t h (g ∷ hs) p q a = ground (
  arith,
  a.0,
  ==_iff g.portfolio_id pid,
  str_eq_iff g.ticker t,
  find_holding-none pid t h hs p q a.1,
)
