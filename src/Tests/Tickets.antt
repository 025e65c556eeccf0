-- ===== src/Tests/Tickets.antt =====
-- core/security.py: two refreshes by one token, a logout, and a server that keeps its keys as a list.
use text.Mathlib.Text.{starts_with}
use text.Mathlib.TextPositions.{starts_with-append}
use Prim.Native.String.{◌++◌ as str_append}
use the_wealth.Base.{
  ℕ, ◌+◌, ◌≤◌, ◌≡◌, refl, Bool, true, false, All, Option, none, some, List, [], ◌∷◌, String, ltb,
  arith, Bool-cases, inl, inr, if◌then◌else◌,
}
use the_wealth.Base.Text.{
  Dict, lookup, insert, erase, lookup-insert, lookup-erase, str_eq, str_eq_iff, str_eq_refl,
}
use the_wealth.Base.Digits.{show}
use the_wealth.Settlement.Broker.{member}
use the_wealth.Auth.{
  RefreshServer, Request, log_in, refresh_by, refresh_key, refresh_prefix,
  revoke_all_refresh_tokens_for_user,
}
use the_wealth.Auth.Once.{Avoids, times_granted, times_granted-le}
use the_wealth.Auth.Revoked.{revoked-times_granted}

abbrev is_live : ℕ → Option ℕ → Bool
is_live now none = false
is_live now (some expires_at) = ltb now expires_at

abbrev scan : String → Dict ℕ → List String
scan prefix [] = []
scan prefix ((k, e) ∷ s) = if starts_with k prefix then k ∷ scan prefix s else scan prefix s

live-insert :
    (now later : ℕ) (key other : String) (ttl : ℕ) (s : Dict ℕ)
    → str_eq other key ≡ false
    → is_live later (lookup key (insert other (now + ttl) s)) ≡ is_live later (lookup key s)
live-insert now later key other ttl s h = ground (arith, lookup-insert other key (now + ttl) s, h)

live-erase : (now : ℕ) (key : String) (s : Dict ℕ) → is_live now (lookup key (erase key s)) ≡ false
live-erase now key s = ground (arith, lookup-erase key key s, str_eq_refl key)

erase-absent :
    (now : ℕ) (key other : String) (s : Dict ℕ)
    → is_live now (lookup key s) ≡ false
    → is_live now (lookup key (erase other s)) ≡ false
erase-absent now key other s h = ground (arith, lookup-erase other key s, h)

later-absent :
    (now later : ℕ) (o : Option ℕ) → now ≤ later → is_live now o ≡ false → is_live later o ≡ false
later-absent now later none l h = refl
later-absent now later (some e) l h = ground (arith, l, h)

live-scan :
    (now : ℕ) (prefix key : String) (s : Dict ℕ)
    → starts_with key prefix ≡ true
    → is_live now (lookup key s) ≡ true
    → member key (scan prefix s) ≡ true
live-scan now prefix key [] p h = absurd (cc h)
live-scan now prefix key ((k, e) ∷ s) p h = elim (Bool-cases (str_eq k key)) [
  | inl same ↦
      let there = (str_eq_iff k key).0 same in
      let q : starts_with k prefix ≡ true = rw there p in rw (q, same) refl
  | inr other ↦ elim (Bool-cases (starts_with k prefix)) [
    | inl q ↦ rw (q, other) (live-scan now prefix key s p (rw other at h))
    | inr q ↦ rw q (live-scan now prefix key s p (rw other at h))
  ]
]

abbrev server : RefreshServer
server = record {
  Server = Dict ℕ;
  is_stored = λ now key s. is_live now (lookup key s);
  server_setex = λ now key ttl s. insert key (now + ttl) s;
  server_delete = erase;
  server_scan = scan;
  stored-setex = live-insert;
  stored-delete = live-erase;
  deleted-stays = erase-absent;
  expired-stays = λ now later key s. later-absent now later (lookup key s);
  stored-scan = λ now prefix rest s h.
      live-scan now prefix (str_append prefix rest) s (starts_with-append prefix rest) h;
}

abbrev exists : ℕ → Bool
exists user = true

-- the token "a" of user 3
abbrev stored : Dict ℕ
stored = (refresh_key 3 "a", 700000) ∷ []

abbrev requests : List (ℕ × Request)
requests =
    (0, refresh_by 3 "a" "b")
    ∷ (1, refresh_by 3 "a" "c")
    ∷ (5, refresh_by 3 "b" "d")
    ∷ (0, log_in 4 "e")
    ∷ []

avoided : All (λ p. Avoids (refresh_key 3 "a") p.1) requests
unfolding refresh_prefix show
avoided = (refl, (refl, (refl, (refl, tt))))

is_there : server.is_stored 1000 (refresh_key 3 "a") stored ≡ true
unfolding refresh_prefix show
is_there = refl

times_granted-le_example : times_granted server exists (refresh_key 3 "a") 1000 requests stored ≤ 1
times_granted-le_example =
    times_granted-le server exists (refresh_key 3 "a") 1000 requests stored avoided

revoked-times_granted_example :
    times_granted server exists
      (refresh_key 3 "a")
      1000
      requests
      (revoke_all_refresh_tokens_for_user server 3 stored)
    ≡ 0
revoked-times_granted_example =
    revoked-times_granted server exists 1000 3 "a" requests stored avoided
