-- ===== src/OrderLock/Laws.antt =====
-- The order lock, alone and against another task.
use the_wealth.Base.{ℕ, ◌+◌, ◌≤◌, ◌≡◌, refl, ◌∙◌, true, false, not, none, some, String, arith}
use the_wealth.Base.Text.{str_eq_refl}
use the_wealth.Cache.{Fallback, get, setex}
use the_wealth.Cache.Laws.{live, get-live, setex-live}
use the_wealth.OrderLock.{
  order_lock_ttl, truthy, acquire_order_lock, waiting, has_read, finished, run_task, System,
  run_first, run_second, Reach, here, next,
}

get-value :
    (now : ℕ) (key : String) (store : Fallback String) → (get now key store).0 ≡ live now key store
get-value now key store = (get-live now now key key store (omega arith)).0

acquired :
    (now : ℕ) (key : String) (store : Fallback String)
    → (acquire_order_lock now key store).0 ≡ not (truthy (live now key store))
unfolding acquire_order_lock
acquired now key store = ground (arith, get-value now key store)

live-acquired :
    (now later : ℕ) (key : String) (store : Fallback String)
    → (acquire_order_lock now key store).0 ≡ true
    → later ≤ now + order_lock_ttl
    → live later key (acquire_order_lock now key store).1 ≡ some "1"
unfolding acquire_order_lock
live-acquired now later key store h k =
    ground (
      arith,
      setex-live now later key key order_lock_ttl "1" (get now key store).1,
      str_eq_refl key,
    )

-- With no other task in between, an order lock that was granted is refused again for the same key
-- until ten seconds have passed.
pub order_lock-excludes :
    (now later : ℕ) (key : String) (store : Fallback String)
    → (acquire_order_lock now key store).0 ≡ true
    → later ≤ now + order_lock_ttl
    → (acquire_order_lock later key (acquire_order_lock now key store).1).0 ≡ false
order_lock-excludes now later key store h k =
    rw (
      acquired later key (acquire_order_lock now key store).1,
      live-acquired now later key store h k,
    )

-- Two tasks that start while nothing is live under the key can both be granted the lock: each reads
-- before the other writes.
pub order_lock_granted_twice :
    (key : String) (s : System)
    → s.first ≡ waiting
    → s.second ≡ waiting
    → live s.clock key s.store ≡ none
    → (t : System) × Reach key s t × (t.first ≡ finished true) × (t.second ≡ finished true)
unfolding run_task
order_lock_granted_twice key s a b free =
    let c₁ = (get s.clock key s.store).1 in
    let s₁ = record s { first = has_read false; store = c₁ } in
    let c₂ = (get s.clock key c₁).1 in
    let s₂ = record s₁ { second = has_read false; store = c₂ } in
    let c₃ = setex s.clock key order_lock_ttl "1" c₂ in
    let s₃ = record s₂ { first = finished true; store = c₃ } in
    let c₄ = setex s.clock key order_lock_ttl "1" c₃ in
    let s₄ = record s₃ { second = finished true; store = c₄ } in
    let free₁ : (get s.clock key s.store).0 ≡ none = get-value s.clock key s.store ∙ free in
    let free₂ : (get s.clock key c₁).0 ≡ none =
      get-value s.clock key c₁
      ∙ (get-live s.clock s.clock key key s.store (omega arith)).1
      ∙ free in
    (
      s₄,
      next
          (next
            (next (next here (run_first (has_read false, c₁) (ground (arith, free₁)) refl))
              (run_second (has_read false, c₂) (ground (arith, free₂)) refl))
            (run_first (finished true, c₃) refl refl))
          (run_second (finished true, c₄) refl refl),
      refl,
      refl,
    )
