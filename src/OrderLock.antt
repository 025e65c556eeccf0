-- ===== src/OrderLock.antt =====
-- services/kis_order_place.py, `_acquire_order_lock`: a read and a write of the cache, with other
-- tasks in between.
pub mod Laws
use the_wealth.Base.{
  ℕ, ◌+◌, ◌≤◌, ◌≡◌, refl, Bool, true, false, not, Option, none, some, String, is_some, arith,
  if◌then◌else◌,
}
use the_wealth.Base.Text.{str_eq, str_eq_refl}
use the_wealth.Cache.{Fallback, get, setex}
use the_wealth.Cache.Laws.{live, get-live, setex-live}

abbrev pub order_lock_ttl : ℕ
order_lock_ttl = 10

-- `if existing`: "" counts as absent
abbrev pub truthy : Option String → Bool
truthy none = false
truthy (some s) = not (str_eq s "")

-- the whole body with nothing in between
unfoldable pub acquire_order_lock : ℕ → String → Fallback String → Bool × Fallback String
acquire_order_lock now key store =
    let (existing, s) = get now key store in
    if truthy existing then (false, s) else (true, setex now key order_lock_ttl "1" s)

-- One task of two: before its read, after it with what it read, and behind its return.
pub data Task : Type 0 where
  waiting : Task
  has_read : Bool → Task
  finished : Bool → Task

-- A step of a task at a time: the read, or the rest of the body.
unfoldable pub run_task : ℕ → String → Task → Fallback String → Task × Fallback String
run_task now key waiting store =
    let (existing, s) = get now key store in (has_read (truthy existing), s)
run_task now key (has_read true) store = (finished false, store)
run_task now key (has_read false) store = (finished true, setex now key order_lock_ttl "1" store)
run_task now key (finished b) store = (finished b, store)

pub record System : Type 0 where
  pub clock : ℕ
  pub store : Fallback String
  pub first : Task
  pub second : Task

-- Time passes, or one of the tasks runs to its next `await`.
pub data Step (key : String) (s t : System) : Type 0 where
  tick : t ≡ record s { clock = s.clock + 1 } → Step key s t
  run_first :
      (u : Task × Fallback String)
      → run_task s.clock key s.first s.store ≡ u
      → t ≡ record s { first = u.0; store = u.1 }
      → Step key s t
  run_second :
      (u : Task × Fallback String)
      → run_task s.clock key s.second s.store ≡ u
      → t ≡ record s { second = u.0; store = u.1 }
      → Step key s t

pub data Reach (key : String) (s : System) : System → Type 0 where
  here : Reach key s s
  next : {t u : System} → Reach key s t → Step key t u → Reach key s u
