-- ===== src/Auth/Once.antt =====
-- How often a refresh token is accepted.
use the_wealth.Base.{
  ℕ, ◌+◌, ◌≤◌, ◌≡◌, refl, ◌∙◌, Bool, true, false, some, List, [], ◌∷◌, String, All, arith,
  Bool-cases, inl, inr, if◌then◌else◌,
}
use the_wealth.Base.Text.{str_eq, str_eq_iff}
use the_wealth.OrderLock.{waiting, finished}
use the_wealth.Auth.{
  refresh_ttl, refresh_prefix, refresh_key, RefreshServer, Request, log_in, refresh_by, sign_out,
  end_session, store_refresh_jti, verify_and_consume_refresh_jti, delete_all,
  revoke_all_refresh_tokens_for_user, refresh, revoke_session, handle, run_consume, run_order,
}

-- the key that a request may write
abbrev pub Avoids : String → Request → Type 0
Avoids key (log_in user jti) = str_eq (refresh_key user jti) key ≡ false
Avoids key (refresh_by user jti new_jti) = str_eq (refresh_key user new_jti) key ≡ false
Avoids key (sign_out user) = Unit
Avoids key (end_session user jti) = Unit

-- a refresh by the token of a key
abbrev pub asks : String → Request → Bool
asks key (log_in user jti) = false
asks key (refresh_by user jti new_jti) = str_eq (refresh_key user jti) key
asks key (sign_out user) = false
asks key (end_session user jti) = false

module _ (r : RefreshServer) (exists : ℕ → Bool) (key : String) where
  open r use {
    Server, is_stored, server_setex, server_delete, server_scan, stored-setex, stored-delete,
    deleted-stays, expired-stays, stored-scan,
  }

  pub delete_all-absent :
      (now : ℕ) (keys : List String) (s : Server)
      → is_stored now key s ≡ false
      → is_stored now key (delete_all r keys s) ≡ false
  delete_all-absent now [] s h = h
  delete_all-absent now (k ∷ keys) s h =
      delete_all-absent now keys (server_delete k s) (deleted-stays now key k s h)

  -- a token that is not stored is not accepted, and stays so
  refresh-absent :
      (now user : ℕ) (jti new_jti : String) (s : Server)
      → str_eq (refresh_key user new_jti) key ≡ false
      → is_stored now key s ≡ false
      → is_stored now key (refresh r now exists (some (user, jti)) new_jti s).1 ≡ false
  unfolding refresh verify_and_consume_refresh_jti store_refresh_jti
  refresh-absent now user jti new_jti s other h =
      elim (Bool-cases (is_stored now (refresh_key user jti) s)) [
        | inl there ↦ elim (Bool-cases (exists user)) [
          | inl e ↦
              rw (there, e)
                (stored-setex now now key (refresh_key user new_jti) refresh_ttl _ other
                  ∙ deleted-stays now key (refresh_key user jti) s h)
          | inr e ↦ rw (there, e) (deleted-stays now key (refresh_key user jti) s h)
        ]
        | inr gone ↦ rw gone h
      ]

  handle-absent :
      (now : ℕ) (q : Request) (s : Server)
      → Avoids key q
      → is_stored now key s ≡ false
      → is_stored now key (handle r now exists q s).1 ≡ false
  unfolding handle store_refresh_jti revoke_all_refresh_tokens_for_user revoke_session
  handle-absent now (log_in user jti) s a h =
      stored-setex now now key (refresh_key user jti) refresh_ttl s a ∙ h
  handle-absent now (refresh_by user jti new_jti) s a h = refresh-absent now user jti new_jti s a h
  handle-absent now (sign_out user) s a h =
      delete_all-absent now (server_scan (refresh_prefix user) s) s h
  handle-absent now (end_session user jti) s a h = deleted-stays now key (refresh_key user jti) s h

  -- how often the token of the key is accepted; each request comes after a wait
  unfoldable pub times_granted : ℕ → List (ℕ × Request) → Server → ℕ
  times_granted now [] s = 0
  times_granted now ((wait, q) ∷ qs) s =
      let (granted, s') = handle r (now + wait) exists q s in
      (if asks key q then (if granted then 1 else 0) else 0) + times_granted (now + wait) qs s'

  -- a refresh by the key's token is accepted only where it is stored
  granted-stored :
      (now : ℕ) (q : Request) (s : Server)
      → asks key q ≡ true
      → (handle r now exists q s).0 ≡ true
      → is_stored now key s ≡ true
  unfolding handle refresh verify_and_consume_refresh_jti
  granted-stored now (log_in user jti) s a h = absurd (cc a)
  granted-stored now (refresh_by user jti new_jti) s a h =
      let same = (str_eq_iff (refresh_key user jti) key).0 a in
      elim (Bool-cases (is_stored now (refresh_key user jti) s)) [
        | inl there ↦ rw (← same) there
        | inr gone ↦ absurd (cc (rw gone at h))
      ]
  granted-stored now (sign_out user) s a h = absurd (cc a)
  granted-stored now (end_session user jti) s a h = absurd (cc a)

  -- and is not stored any more behind it
  granted-consumed :
      (now : ℕ) (q : Request) (s : Server)
      → Avoids key q
      → asks key q ≡ true
      → is_stored now key (handle r now exists q s).1 ≡ false
  unfolding handle refresh verify_and_consume_refresh_jti store_refresh_jti
  granted-consumed now (log_in user jti) s a h = absurd (cc h)
  granted-consumed now (refresh_by user jti new_jti) s a h =
      let same = (str_eq_iff (refresh_key user jti) key).0 h in
      elim (Bool-cases (is_stored now (refresh_key user jti) s)) [
        | inl there ↦ elim (Bool-cases (exists user)) [
          | inl e ↦
              rw (there, e)
                (stored-setex now now key (refresh_key user new_jti) refresh_ttl _ a
                  ∙ rw (← same) (stored-delete now (refresh_key user jti) s))
          | inr e ↦ rw (there, e) (rw (← same) (stored-delete now (refresh_key user jti) s))
        ]
        | inr gone ↦ rw gone (rw (← same) gone)
      ]
  granted-consumed now (sign_out user) s a h = absurd (cc h)
  granted-consumed now (end_session user jti) s a h = absurd (cc h)

  pub times_granted-absent :
      (now : ℕ) (qs : List (ℕ × Request)) (s : Server)
      → All (λ p. Avoids key p.1) qs
      → is_stored now key s ≡ false
      → times_granted now qs s ≡ 0
  unfolding times_granted
  times_granted-absent now [] s a h = refl
  times_granted-absent now ((wait, q) ∷ qs) s (a, as') h =
      let t = now + wait in
      let gone = expired-stays now t key s (omega arith) h in
      let rest =
        times_granted-absent t qs (handle r t exists q s).1 as' (handle-absent t q s a gone) in
      elim (Bool-cases (asks key q)) [
        | inl asked ↦ elim (Bool-cases (handle r t exists q s).0) [
          | inl granted ↦ absurd (cc (granted-stored t q s asked granted, gone))
          | inr no_grant ↦ rw (asked, no_grant) (omega (arith, rest))
        ]
        | inr other ↦ rw other (omega (arith, rest))
      ]

  -- Whatever requests come one after the other, at whatever times, a refresh token is accepted at
  -- most once, where none of them stores its number again.
  pub times_granted-le :
      (now : ℕ) (qs : List (ℕ × Request)) (s : Server)
      → All (λ p. Avoids key p.1) qs
      → times_granted now qs s ≤ 1
  unfolding times_granted
  times_granted-le now [] s a = omega arith
  times_granted-le now ((wait, q) ∷ qs) s (a, as') =
      let t = now + wait in
      let s' = (handle r t exists q s).1 in
      elim (Bool-cases (asks key q)) [
        | inl asked ↦
            let rest = times_granted-absent t qs s' as' (granted-consumed t q s a asked) in
            elim (Bool-cases (handle r t exists q s).0) [
              | inl granted ↦ rw (asked, granted) (omega (arith, rest))
              | inr no_grant ↦ rw (asked, no_grant) (omega (arith, rest))
            ]
        | inr other ↦ rw other (omega (arith, times_granted-le t qs s' as'))
      ]

module _ (r : RefreshServer) (key : String) where
  open r use {Server, is_stored}

  -- A token that is stored can be accepted twice by two refreshes that run together: both read it
  -- before either deletes it.
  pub consumed_twice :
      (now : ℕ) (s : Server)
      → is_stored now key s ≡ true
      → (order : List Bool) × ((run_order r now key order waiting waiting s).0 ≡ finished true)
        × ((run_order r now key order waiting waiting s).1 ≡ finished true)
  unfolding run_order run_consume
  consumed_twice now s h = (true ∷ false ∷ true ∷ false ∷ [], rw h refl, rw h refl)
