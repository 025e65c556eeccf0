-- ===== src/Token.antt =====
-- services/kis_token.py: the broker's access token, kept in the cache and issued under a lock. Times
-- are whole seconds.
pub mod Alone
pub mod Tasks
use Prim.Native.Nat.{max}
use the_wealth.Base.{
  ℕ, zero, suc, ◌+◌, ◌-◌, Bool, true, false, not, Option, none, some, String, ltb, if◌then◌else◌,
}
use the_wealth.Base.Text.{str_eq}
use the_wealth.Outcome.{Result, ok, raise, Fault, runtime_error, value_error, transport_error}
use the_wealth.Cache.{Fallback, get, setex, delete}

abbrev pub rotation_buffer_seconds : ℕ
rotation_buffer_seconds = 600

abbrev pub token_ttl_seconds : ℕ
token_ttl_seconds = 86400

-- A cached text: without the separator, with an expiry that `float` reads, or with one that it does
-- not read.
pub data Cached : Type 0 where
  legacy malformed : String → Cached
  stamped : String → ℕ → Cached

-- `_parse_cached`
abbrev pub parse_cached : ℕ → Cached → String × Bool
parse_cached now (legacy token) = (token, true)
parse_cached now (malformed token) = (token, true)
parse_cached now (stamped token expires_at) =
    (token, ltb (now + rotation_buffer_seconds) expires_at)

-- What the endpoint that issues tokens comes to: an HTTP error, no connection, no JSON, or an object
-- with its token and its expiry (absent; or present, and a time or unreadable).
pub data TokenReply : Type 0 where
  refused unreachable unreadable : TokenReply
  issued_token : Option String → Option (Option ℕ) → TokenReply

abbrev pub expiry_of : ℕ → Option (Option ℕ) → ℕ × ℕ
expiry_of now (some (some expires_at)) = (max (expires_at - now) 60, expires_at)
expiry_of now (some none) = (token_ttl_seconds, now + token_ttl_seconds)
expiry_of now none = (token_ttl_seconds, now + token_ttl_seconds)

-- `_issue_token`: the token, its time to live and its expiry
abbrev pub issue_token : ℕ → TokenReply → Result (String × (ℕ × ℕ))
issue_token now refused = raise runtime_error
issue_token now unreachable = raise transport_error
issue_token now unreadable = raise value_error
issue_token now (issued_token none expiry) = raise value_error
issue_token now (issued_token (some token) expiry) =
    if str_eq token "" then raise value_error else ok (token, expiry_of now expiry)

-- Where a call of `get_kis_access_token` stands, between its awaits: before the fast read; with a
-- stale value to evict; before the lock; inside it before the second read; with a stale value again;
-- before the request; before the write; and behind its end.
pub data Phase : Type 0 where
  started found_stale queued locked found_stale_again issuing : Phase
  storing : String → ℕ → ℕ → Phase
  returned : String → Phase
  failed : Fault → Phase

-- what a read of the cache leads to: the token where it is valid, or one of two phases
abbrev pub after_read : ℕ → Phase → Phase → Option Cached → Phase
after_read now absent stale none = absent
after_read now absent stale (some cached) =
    let (token, is_valid) = parse_cached now cached in if is_valid then returned token else stale

abbrev pub after_issue : Result (String × (ℕ × ℕ)) → Phase
after_issue (raise fault) = failed fault
after_issue (ok (token, (ttl, expires_at))) = storing token ttl expires_at

-- One step of the call, to its next await, at a time; `reply` is what an issuance meets.
unfoldable pub run_phase :
    String → ℕ → TokenReply → Phase → Fallback Cached → Phase × Fallback Cached
run_phase key now reply started c =
    let (cached, c') = get now key c in (after_read now queued found_stale cached, c')
run_phase key now reply found_stale c = (queued, delete key c)
run_phase key now reply queued c = (locked, c)
run_phase key now reply locked c =
    let (cached, c') = get now key c in (after_read now issuing found_stale_again cached, c')
run_phase key now reply found_stale_again c = (issuing, delete key c)
run_phase key now reply issuing c = (after_issue (issue_token now reply), c)
run_phase key now reply (storing token ttl expires_at) c = (
  returned token,
  setex now key (max (ttl - rotation_buffer_seconds) 60) (stamped token expires_at) c,
)
run_phase key now reply (returned token) c = (returned token, c)
run_phase key now reply (failed fault) c = (failed fault, c)

-- the call with no other task in between
unfoldable pub run_alone :
    ℕ → String → ℕ → TokenReply → Phase × Fallback Cached → Phase × Fallback Cached
run_alone zero key now reply (phase, c) = (phase, c)
run_alone (suc n) key now reply (phase, c) =
    run_alone n key now reply (run_phase key now reply phase c)

-- `get_kis_access_token`; the longest way has seven steps
unfoldable pub get_kis_access_token :
    String → ℕ → TokenReply → Fallback Cached → Phase × Fallback Cached
unfolding run_alone run_phase
get_kis_access_token key now reply c = run_alone 7 key now reply (started, c)

-- `invalidate_kis_token`
unfoldable pub invalidate_kis_token : String → Fallback Cached → Fallback Cached
invalidate_kis_token key c = delete key c
