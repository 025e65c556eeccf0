-- ===== src/Cache/Laws.antt =====
-- The in-memory cache against what is live at a time: an entry that has not expired.
use the_wealth.Base.{
  ℕ, ◌+◌, ◌≤◌, ◌≡◌, true, false, not, Option, none, some, String, ltb, is_some, arith,
  if◌then◌else◌,
}
use the_wealth.Base.Text.{lookup, lookup-insert, lookup-erase, str_eq, str_eq_refl, str_eq_iff}
use the_wealth.Cache.{CacheEntry, Fallback, evict, get, setex, set_nx, delete}

module _ {V : Type 0} where
  abbrev pub live_entry : ℕ → Option (CacheEntry V) → Option V
  live_entry now none = none
  live_entry now (some entry) = if ltb entry.expires_at now then none else some entry.value

  -- what a reader at `now` may see under a key
  abbrev pub live : ℕ → String → Fallback V → Option V
  live now key store = live_entry now (lookup key store)

  -- A read gives what is live, and hides nothing that a reader at this time or later may see.
  pub get-live :
      (now later : ℕ) (key other : String) (store : Fallback V)
      → now ≤ later
      → let (value, s) = get now key store in
        (value ≡ live now key store) × (live later other s ≡ live later other store)
  unfolding get
  get-live now later key other store h = ground (
    arith,
    lookup-erase key key store,
    lookup-erase key other store,
    str_eq_refl key,
    str_eq_iff key other,
  )

  -- After a write the key shows the value until its time to live has passed, and nothing after that;
  -- the other keys show what they did.
  pub setex-live :
      (now later : ℕ) (key other : String) (ttl : ℕ) (value : V) (store : Fallback V)
      → live later other (setex now key ttl value store) ≡ (
          if str_eq key other
          then (if ltb (now + ttl) later then none else some value)
          else live later other store)
  unfolding setex
  setex-live now later key other ttl value store =
      ground
        (arith, lookup-insert key other (record { value = value; expires_at = now + ttl }) store)

  -- After a deletion the key shows nothing; the other keys show what they did.
  pub delete-live :
      (now : ℕ) (key other : String) (store : Fallback V)
      → live now other (delete key store)
        ≡ (if str_eq key other then none else live now other store)
  unfolding delete
  delete-live now key other store = ground (arith, lookup-erase key other store)

  is_some-evict :
      (now : ℕ) (key : String) (store : Fallback V)
      → is_some (lookup key (evict (lookup key store) now key store)) ≡ is_some (live now key store)
  is_some-evict now key store = ground (arith, lookup-erase key key store, str_eq_refl key)

  -- `set_nx` takes a key exactly when nothing is live under it.
  pub set_nx-live :
      (now : ℕ) (key : String) (ttl : ℕ) (value : V) (store : Fallback V)
      → (set_nx now key ttl value store).0 ≡ not (is_some (live now key store))
  unfolding set_nx
  set_nx-live now key ttl value store = ground (arith, is_some-evict now key store)

  pub live-set_nx :
      (now later : ℕ) (key : String) (ttl : ℕ) (value : V) (store : Fallback V)
      → (set_nx now key ttl value store).0 ≡ true
      → later ≤ now + ttl
      → live later key (set_nx now key ttl value store).1 ≡ some value
  unfolding set_nx
  live-set_nx now later key ttl value store taken h =
      let s = evict (lookup key store) now key store in
      ground (
        arith,
        lookup-insert key key (record { value = value; expires_at = now + ttl }) s,
        str_eq_refl key,
      )

  -- A key that was taken is refused to every other caller until its time to live has passed.
  pub set_nx-excludes :
      (now later : ℕ) (key : String) (ttl ttl' : ℕ) (value value' : V) (store : Fallback V)
      → (set_nx now key ttl value store).0 ≡ true
      → later ≤ now + ttl
      → (set_nx later key ttl' value' (set_nx now key ttl value store).1).0 ≡ false
  set_nx-excludes now later key ttl ttl' value value' store taken h = rw (
    set_nx-live later key ttl' value' (set_nx now key ttl value store).1,
    live-set_nx now later key ttl value store taken h,
  )
