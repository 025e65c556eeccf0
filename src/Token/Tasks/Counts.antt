-- ===== src/Token/Tasks/Counts.antt =====
-- Sums over the tasks when one of them changes.
use mathlib.Core.Path.{subst}
use the_wealth.Base.{ℕ, zero, suc, ◌+◌, ◌≤◌, ◌≡◌, some, List, [], ◌∷◌, get_elem?, set, arith, All}
use the_wealth.Token.{
  Phase, started, found_stale, queued, locked, found_stale_again, issuing, storing, returned,
  failed,
}
use the_wealth.Token.Tasks.{total, holds_lock, is_storing}

abbrev pub evicts : Phase → ℕ
evicts found_stale = 1
evicts found_stale_again = 1
evicts started = 0
evicts queued = 0
evicts locked = 0
evicts issuing = 0
evicts (storing t ttl e) = 0
evicts (returned t) = 0
evicts (failed f) = 0

abbrev pub is_issuing : Phase → ℕ
is_issuing issuing = 1
is_issuing found_stale = 0
is_issuing found_stale_again = 0
is_issuing started = 0
is_issuing queued = 0
is_issuing locked = 0
is_issuing (storing t ttl e) = 0
is_issuing (returned t) = 0
is_issuing (failed f) = 0

pub total-set :
    (w : Phase → ℕ) (ps : List Phase) (i : ℕ) (p q : Phase)
    → get_elem? ps i ≡ some p
    → total w (set ps i q) + w p ≡ total w ps + w q
total-set w [] i p q h = cc
total-set w (x ∷ ps) zero p q h = let e : x ≡ p = cc in rw e (omega arith)
total-set w (x ∷ ps) (suc i) p q h = omega (arith, total-set w ps i p q h)

holds_lock-split : (p : Phase) → is_storing p + is_issuing p ≤ holds_lock p
holds_lock-split started = omega arith
holds_lock-split found_stale = omega arith
holds_lock-split queued = omega arith
holds_lock-split locked = omega arith
holds_lock-split found_stale_again = omega arith
holds_lock-split issuing = omega arith
holds_lock-split (storing t ttl e) = omega arith
holds_lock-split (returned t) = omega arith
holds_lock-split (failed f) = omega arith

-- Whoever issues or stores a token holds the lock.
pub total-split :
    (ps : List Phase) → total is_storing ps + total is_issuing ps ≤ total holds_lock ps
total-split [] = omega arith
total-split (p ∷ ps) = omega (arith, total-split ps, holds_lock-split p)

module _ (P : Phase → Type 0) where
  pub All-set : (ps : List Phase) (i : ℕ) (q : Phase) → All P ps → P q → All P (set ps i q)
  All-set [] i q a b = tt
  All-set (x ∷ ps) zero q a b = (b, a.1)
  All-set (x ∷ ps) (suc i) q a b = (a.0, All-set ps i q a.1 b)

  pub All-get : (ps : List Phase) (i : ℕ) (p : Phase) → All P ps → get_elem? ps i ≡ some p → P p
  All-get [] i p a h = cc
  All-get (x ∷ ps) zero p a h = let e : x ≡ p = cc in subst P e a.0
  All-get (x ∷ ps) (suc i) p a h = All-get ps i p a.1 h
