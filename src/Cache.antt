-- ===== src/Cache.antt =====
-- core/redis_cache.py: the cache with a time to live, in memory while Redis cannot be reached.
pub mod Laws
pub mod Redis
use the_wealth.Base.{
  ℕ, ◌+◌, ◌≡◌, Bool, true, false, Option, none, some, String, ltb, is_some, if◌then◌else◌,
}
use the_wealth.Base.Text.{Dict, lookup, insert, erase}

-- `_CacheEntry`. The values are kept decoded: for a key's user they are texts, counts or balances.
pub record CacheEntry (V : Type 0) : Type 0 where
  pub value : V
  pub expires_at : ℕ

abbrev pub Fallback : Type 0 → Type 0
Fallback V = Dict (CacheEntry V)

module _ {V : Type 0} where
  -- The methods of `_InMemoryFallback`; `now` is the clock.
  abbrev pub evict : Option (CacheEntry V) → ℕ → String → Fallback V → Fallback V
  evict none now key store = store
  evict (some entry) now key store = if ltb entry.expires_at now then erase key store else store

  unfoldable pub evict_expired : ℕ → String → Fallback V → Fallback V
  evict_expired now key store = evict (lookup key store) now key store

  abbrev pub entry_value : Option (CacheEntry V) → Option V
  entry_value none = none
  entry_value (some entry) = some entry.value

  unfoldable pub get : ℕ → String → Fallback V → Option V × Fallback V
  unfolding evict_expired
  get now key store = let s = evict_expired now key store in (entry_value (lookup key s), s)

  unfoldable pub setex : ℕ → String → ℕ → V → Fallback V → Fallback V
  setex now key ttl value store =
      insert key (record { value = value; expires_at = now + ttl }) store

  unfoldable pub set_nx : ℕ → String → ℕ → V → Fallback V → Bool × Fallback V
  unfolding evict_expired setex
  set_nx now key ttl value store =
      let s = evict_expired now key store in
      if is_some (lookup key s) then (false, s) else (true, setex now key ttl value s)

  unfoldable pub delete : String → Fallback V → Fallback V
  delete key store = erase key store
