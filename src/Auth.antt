-- ===== src/Auth.antt =====
-- core/security.py and api/auth.py: refresh tokens that are kept on the server, used once and revoked.
pub mod Once
pub mod Revoked
use Prim.Native.String.{◌++◌ as str_append}
use the_wealth.Base.{
  ℕ, ◌+◌, ◌*◌, ◌≤◌, ◌≡◌, Bool, true, false, not, Option, none, some, List, [], ◌∷◌, String,
  if◌then◌else◌,
}
use the_wealth.Base.Text.{str_eq}
use the_wealth.Base.Digits.{show}
use the_wealth.Outcome.{Result, ok, raise, http_exception}
use the_wealth.OrderLock.{Task, waiting, has_read, finished}
use the_wealth.Settlement.Broker.{member}

-- REFRESH_TOKEN_EXPIRE_DAYS in seconds
abbrev pub refresh_ttl : ℕ
refresh_ttl = 7 * 86400

-- "refresh:{user_id}:" and "refresh:{user_id}:{jti}"
unfoldable pub refresh_prefix : ℕ → String
refresh_prefix user = str_append "refresh:" (str_append (show user) ":")

abbrev pub refresh_key : ℕ → String → String
refresh_key user jti = str_append (refresh_prefix user) jti

-- The Redis server: whether GET gives a value, SETEX, DEL, and the keys that a whole SCAN for a
-- prefix and `*` gives. An expired or deleted key shows nothing, and only a write brings it back; a
-- scan gives every key with the prefix that shows a value.
pub record RefreshServer : Type 1 where
  pub Server : Type 0
  pub is_stored : ℕ → String → Server → Bool
  pub server_setex : ℕ → String → ℕ → Server → Server
  pub server_delete : String → Server → Server
  pub server_scan : String → Server → List String
  pub stored-setex :
      (now later : ℕ) (key other : String) (ttl : ℕ) (s : Server)
      → str_eq other key ≡ false
      → is_stored later key (server_setex now other ttl s) ≡ is_stored later key s
  pub stored-delete :
      (now : ℕ) (key : String) (s : Server) → is_stored now key (server_delete key s) ≡ false
  pub deleted-stays :
      (now : ℕ) (key other : String) (s : Server)
      → is_stored now key s ≡ false
      → is_stored now key (server_delete other s) ≡ false
  pub expired-stays :
      (now later : ℕ) (key : String) (s : Server)
      → now ≤ later
      → is_stored now key s ≡ false
      → is_stored later key s ≡ false
  pub stored-scan :
      (now : ℕ) (prefix rest : String) (s : Server)
      → is_stored now (str_append prefix rest) s ≡ true
      → member (str_append prefix rest) (server_scan prefix s) ≡ true

-- what a client asks of the sessions: a login that succeeds with a new token, a refresh by a token
-- for a new one, a logout or a change of the password, and the end of one session
pub data Request : Type 0 where
  log_in : ℕ → String → Request
  refresh_by : ℕ → String → String → Request
  sign_out : ℕ → Request
  end_session : ℕ → String → Request

module _ (r : RefreshServer) where
  open r use {Server, is_stored, server_setex, server_delete, server_scan}

  unfoldable pub store_refresh_jti : ℕ → String → ℕ → Server → Server
  store_refresh_jti now jti user s = server_setex now (refresh_key user jti) refresh_ttl s

  unfoldable pub verify_and_consume_refresh_jti : ℕ → String → ℕ → Server → Bool × Server
  verify_and_consume_refresh_jti now jti user s =
      if is_stored now (refresh_key user jti) s
      then (true, server_delete (refresh_key user jti) s)
      else (false, s)

  abbrev pub delete_all : List String → Server → Server
  delete_all [] s = s
  delete_all (key ∷ keys) s = delete_all keys (server_delete key s)

  -- The loop over the pages of the scan; no other request comes in between.
  unfoldable pub revoke_all_refresh_tokens_for_user : ℕ → Server → Server
  revoke_all_refresh_tokens_for_user user s = delete_all (server_scan (refresh_prefix user) s) s

  -- `refresh`, behind the decoding of the token; `exists` says whether the user is still there, and
  -- `new_jti` is the number of the new token.
  unfoldable pub refresh :
      ℕ → (ℕ → Bool) → Option (ℕ × String) → String → Server → Result (ℕ × String) × Server
  unfolding verify_and_consume_refresh_jti store_refresh_jti
  refresh now exists none new_jti s = (raise (http_exception 401), s)
  refresh now exists (some (user, jti)) new_jti s =
      let (jti_valid, s') = verify_and_consume_refresh_jti now jti user s in
      if jti_valid
      then (if exists user
          then (ok (user, new_jti), store_refresh_jti now new_jti user s')
          else (raise (http_exception 401), s'))
      else (raise (http_exception 401), s')

  -- `revoke_session`
  unfoldable pub revoke_session : ℕ → ℕ → String → Server → Result (Unit {0}) × Server
  revoke_session now user jti s = (
    if is_stored now (refresh_key user jti) s then ok tt else raise (http_exception 404),
    server_delete (refresh_key user jti) s,
  )

  abbrev pub is_granted : Result (ℕ × String) → Bool
  is_granted (ok t) = true
  is_granted (raise f) = false

  -- a request: whether it is a refresh that succeeds, and the server behind it
  unfoldable pub handle : ℕ → (ℕ → Bool) → Request → Server → Bool × Server
  unfolding refresh revoke_session revoke_all_refresh_tokens_for_user
  handle now exists (log_in user jti) s = (false, store_refresh_jti now jti user s)
  handle now exists (refresh_by user jti new_jti) s =
      let (end, s') = refresh now exists (some (user, jti)) new_jti s in (is_granted end, s')
  handle now exists (sign_out user) s = (false, revoke_all_refresh_tokens_for_user user s)
  handle now exists (end_session user jti) s = (false, (revoke_session now user jti s).1)

  -- A step of one of two refreshes by the same token: the read, or the deletion behind it.
  unfoldable pub run_consume : ℕ → String → Task → Server → Task × Server
  run_consume now key waiting s = (has_read (is_stored now key s), s)
  run_consume now key (has_read true) s = (finished true, server_delete key s)
  run_consume now key (has_read false) s = (finished false, s)
  run_consume now key (finished b) s = (finished b, s)

  -- the tasks in an order: `true` runs the first
  unfoldable pub run_order : ℕ → String → List Bool → Task → Task → Server → Task × Task × Server
  run_order now key [] first second s = (first, second, s)
  run_order now key (true ∷ order) first second s =
      let (first', s') = run_consume now key first s in run_order now key order first' second s'
  run_order now key (false ∷ order) first second s =
      let (second', s') = run_consume now key second s in run_order now key order first second' s'
