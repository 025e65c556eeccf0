-- ===== src/Tests/Caches.antt =====
-- redis_cache.py and the order lock on small stores.
use the_wealth.Base.{
  ℕ, ◌+◌, ◌<◌, ◌≡◌, refl, true, false, Option, none, some, [], ◌∷◌, String, ltb, is_some, arith,
  if◌then◌else◌,
}
use the_wealth.Base.Text.{str_eq_refl, lookup, insert, erase, lookup-insert, lookup-erase}
use the_wealth.Cache.{CacheEntry, Fallback, get, set_nx}
use the_wealth.Cache.Laws.{live}
use the_wealth.Cache.Redis.{Redis, State}
use the_wealth.OrderLock.{acquire_order_lock, System, waiting, finished, Reach}
use the_wealth.OrderLock.Laws.{order_lock_granted_twice}

-- one entry, to the time 20
abbrev store : Fallback String
store = ("a", record { value = "1"; expires_at = 20 }) ∷ []

taken : (set_nx 21 "a" 5 "2" store).0 ≡ true
unfolding set_nx
taken = refl

-- a server that keeps its keys as a list
abbrev server_live : ℕ → Option (CacheEntry String) → Option String
server_live now none = none
server_live now (some e) = if ltb now e.expires_at then some e.value else none

server_get-setex :
    (now later : ℕ) (key : String) (ttl : ℕ) (value : String) (s : Fallback String)
    → later < now + ttl
    → server_live later
        (lookup key (insert key (record { value = value; expires_at = now + ttl }) s))
      ≡ some value
server_get-setex now later key ttl value s h = ground (
  arith,
  lookup-insert key key (record { value = value; expires_at = now + ttl }) s,
  str_eq_refl key,
)

server_get-delete :
    (now : ℕ) (key : String) (s : Fallback String)
    → server_live now (lookup key (erase key s)) ≡ none
server_get-delete now key s = ground (arith, lookup-erase key key s, str_eq_refl key)

abbrev server : Redis
server = record {
  Server = Fallback String;
  server_get = λ now key s. server_live now (lookup key s);
  server_setex =
      λ now key ttl value s. insert key (record { value = value; expires_at = now + ttl }) s;
  server_delete = erase;
  server_set_nx = λ now key ttl value s.
      if is_some (server_live now (lookup key s))
      then (false, s)
      else (true, insert key (record { value = value; expires_at = now + ttl }) s);
  get-setex = server_get-setex;
  get-delete = server_get-delete;
}

abbrev state : State server
state = record { server = []; fallback = store; redis_healthy = true }

granted : (acquire_order_lock 5 "o" store).0 ≡ true
unfolding acquire_order_lock get
granted = refl

abbrev system : System
system = record { clock = 5; store = store; first = waiting; second = waiting }

free : live 5 "o" store ≡ none
free = refl

order_lock_granted_twice_example :
    (t : System) × Reach "o" system t × (t.first ≡ finished true) × (t.second ≡ finished true)
order_lock_granted_twice_example = order_lock_granted_twice "o" system refl refl free
