-- ===== src/Cache/Redis.antt =====
-- core/redis_cache.py, `RedisCache`: each operation on Redis, or on the memory where Redis fails.
use the_wealth.Base.{ℕ, ◌+◌, ◌≤◌, ◌<◌, ◌≡◌, Bool, true, false, Option, none, some, String, arith}
use the_wealth.Base.Text.{str_eq_refl}
use the_wealth.Cache.{Fallback, get, setex, set_nx, delete}
use the_wealth.Cache.Laws.{get-live, setex-live}

-- The server: GET, SETEX, DEL and SET NX EX, each with the server's clock. A key that was written
-- shows its value before its time to live is over, and a deleted key shows nothing.
pub record Redis : Type 1 where
  pub Server : Type 0
  pub server_get : ℕ → String → Server → Option String
  pub server_setex : ℕ → String → ℕ → String → Server → Server
  pub server_delete : String → Server → Server
  pub server_set_nx : ℕ → String → ℕ → String → Server → Bool × Server
  pub get-setex :
      (now later : ℕ) (key : String) (ttl : ℕ) (value : String) (s : Server)
      → later < now + ttl
      → server_get later key (server_setex now key ttl value s) ≡ some value
  pub get-delete :
      (now : ℕ) (key : String) (s : Server) → server_get now key (server_delete key s) ≡ none

module _ (r : Redis) where
  open r use {Server, server_get, server_setex, server_delete, server_set_nx}

  -- the server, `_fallback` and `_redis_healthy`
  pub record State : Type 0 where
    pub server : Server
    pub fallback : Fallback String
    pub redis_healthy : Bool

  -- In each method `up` says whether the call of the server succeeds.
  unfoldable pub cache_get : Bool → ℕ → String → State → Option String × State
  cache_get true now key s = (server_get now key s.server, record s { redis_healthy = true })
  cache_get false now key s =
      let (value, f) = get now key s.fallback in
      (value, record s { fallback = f; redis_healthy = false })

  unfoldable pub cache_setex : Bool → ℕ → String → ℕ → String → State → State
  cache_setex true now key ttl value s = record s {
    server = server_setex now key ttl value s.server;
    redis_healthy = true;
  }
  cache_setex false now key ttl value s = record s {
    fallback = setex now key ttl value s.fallback;
    redis_healthy = false;
  }

  unfoldable pub cache_delete : Bool → String → State → State
  cache_delete true key s = record s { server = server_delete key s.server; redis_healthy = true }
  cache_delete false key s = record s { fallback = delete key s.fallback; redis_healthy = false }

  unfoldable pub cache_set_nx : Bool → ℕ → String → ℕ → String → State → Bool × State
  cache_set_nx true now key ttl value s =
      let (taken, server) = server_set_nx now key ttl value s.server in
      (taken, record s { server = server; redis_healthy = true })
  cache_set_nx false now key ttl value s =
      let (taken, f) = set_nx now key ttl value s.fallback in
      (taken, record s { fallback = f; redis_healthy = false })

  -- While Redis is down a value that was written is read back until its time to live has passed,
  -- from the memory.
  pub outage_round_trip :
      (now later : ℕ) (key : String) (ttl : ℕ) (value : String) (s : State)
      → later ≤ now + ttl
      → (cache_get false later key (cache_setex false now key ttl value s)).0 ≡ some value
  unfolding cache_get cache_setex
  outage_round_trip now later key ttl value s h = ground (
    arith,
    get-live later later key key (setex now key ttl value s.fallback) (omega arith),
    setex-live now later key key ttl value s.fallback,
    str_eq_refl key,
  )

  -- A deletion while Redis is down is lost: a value that was written before the outage is read
  -- again once Redis is back, if its time to live is not over.
  pub outage_loses_delete :
      (now later : ℕ) (key : String) (ttl : ℕ) (value : String) (s : State)
      → later < now + ttl
      → (cache_get true later key (cache_delete false key (cache_setex true now key ttl value s))).0
        ≡ some value
  unfolding cache_get cache_delete cache_setex
  outage_loses_delete now later key ttl value s h = r.get-setex now later key ttl value s.server h
