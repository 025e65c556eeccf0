-- ===== src/Auth/Revoked.antt =====
-- What a logout or a change of the password leaves of a user's refresh tokens.
use the_wealth.Base.{ℕ, ◌≡◌, Bool, true, false, List, [], ◌∷◌, String, All, Bool-cases, inl, inr}
use the_wealth.Base.Text.{str_eq, str_eq_iff}
use the_wealth.Settlement.Broker.{member}
use the_wealth.Auth.{
  refresh_prefix, refresh_key, RefreshServer, Request, delete_all,
  revoke_all_refresh_tokens_for_user,
}
use the_wealth.Auth.Once.{Avoids, times_granted, times_granted-absent, delete_all-absent}

module _ (r : RefreshServer) (exists : ℕ → Bool) where
  open r use {Server, is_stored, server_delete, server_scan, stored-delete, stored-scan}

  delete_all-member :
      (now : ℕ) (key : String) (keys : List String) (s : Server)
      → member key keys ≡ true
      → is_stored now key (delete_all r keys s) ≡ false
  delete_all-member now key [] s h = absurd (cc h)
  delete_all-member now key (k ∷ keys) s h = elim (Bool-cases (str_eq k key)) [
    | inl e ↦
        let same = (str_eq_iff k key).0 e in
        delete_all-absent r exists key now keys (server_delete k s)
          (rw (← same) (stored-delete now k s))
    | inr e ↦ delete_all-member now key keys (server_delete k s) (rw e at h)
  ]

  revoked :
      (now user : ℕ) (jti : String) (s : Server)
      → is_stored now (refresh_key user jti) (revoke_all_refresh_tokens_for_user r user s) ≡ false
  unfolding revoke_all_refresh_tokens_for_user
  revoked now user jti s =
      let key = refresh_key user jti in
      let keys = server_scan (refresh_prefix user) s in
      elim (Bool-cases (is_stored now key s)) [
        | inl there ↦
            delete_all-member now key keys s (stored-scan now (refresh_prefix user) jti s there)
        | inr gone ↦ delete_all-absent r exists key now keys s gone
      ]

  -- After all tokens of a user were revoked, none of them is accepted any more, whatever requests
  -- come one after the other, where none of them stores its number again.
  pub revoked-times_granted :
      (now user : ℕ) (jti : String) (qs : List (ℕ × Request)) (s : Server)
      → All (λ p. Avoids (refresh_key user jti) p.1) qs
      → times_granted r exists
          (refresh_key user jti)
          now
          qs
          (revoke_all_refresh_tokens_for_user r user s)
        ≡ 0
  revoked-times_granted now user jti qs s a =
      times_granted-absent r exists (refresh_key user jti) now qs
        (revoke_all_refresh_tokens_for_user r user s) a (revoked now user jti s)
