-- ===== src/Sync.antt =====
-- api/sync.py: a portfolio is brought to what the broker reports, and the log of it.
pub mod Synced
use Prim.Native.Char.{Char}
use Prim.Native.String
use the_wealth.Base.{
  ℕ, zero, suc, ◌+◌, Bool, not, Option, none, some, List, [], ◌∷◌, ◌++◌, String, ◌==◌, find,
  if◌then◌else◌,
}
use the_wealth.Outcome.{Result, ok, raise, ◌>>=◌, ◌>>◌, raise_if, or_raise, Fault, http_exception}
use the_wealth.Store.{Holding, Portfolio, KisAccount}
use the_wealth.Settlement.Query.{linked_account, decrypt_keys}
use the_wealth.Reconcile.{KisHolding, Counts, reconcile_holdings}

pub data SyncStatus : Type 0 where
  success : SyncStatus
  error : SyncStatus

-- models/sync_log.py, without its primary key and the time that the server gives; a message that is
-- not given is ""
pub record SyncLog : Type 0 where
  pub user_id : ℕ
  pub portfolio_id : ℕ
  pub status : SyncStatus
  pub inserted : ℕ
  pub updated : ℕ
  pub deleted : ℕ
  pub message : String

-- the caches that a synchronization clears, by user
pub data UserCache : Type 0 where
  analytics user_portfolios : ℕ → UserCache

pub record SyncTables : Type 0 where
  pub portfolios : List Portfolio
  pub accounts : List KisAccount
  pub holdings : List Holding
  pub next : ℕ
  pub logs : List SyncLog
  pub cleared : List UserCache

-- `text[:n]`
unfoldable pub take_chars : ℕ → String → String
take_chars zero text = ""
take_chars (suc n) String.[] = ""
take_chars (suc n) (String.◌∷◌ c text) = String.◌∷◌ c (take_chars n text)

-- what the endpoint has before it asks the broker
unfoldable pub prepare_sync :
    (String → Option String) → ℕ → ℕ → SyncTables → Result (KisAccount × (String × String))
prepare_sync decrypt pid user db = do
  portfolio ← or_raise (find (λ p. p.id == pid) db.portfolios) (http_exception 404)
  mine ← raise_if (not (portfolio.user_id == user)) (http_exception 404)
  account_id ← or_raise (linked_account portfolio.kis_account_id) (http_exception 400)
  acct ← or_raise (find (λ a. a.id == account_id) db.accounts) (http_exception 400)
  -- an exception that nothing catches is answered by 500
  keys ← or_raise (decrypt_keys decrypt acct) (http_exception 500)
  ok (acct, keys)

-- `domestic_holdings + overseas_holdings`
abbrev pub all_holdings :
    Result (List KisHolding) → Result (List KisHolding) → Result (List KisHolding)
all_holdings domestic overseas =
    domestic >>= λ at_home. overseas >>= λ abroad. ok (at_home ++ abroad)

abbrev pub success_log : ℕ → ℕ → Counts → SyncLog
success_log pid user counts = record {
  user_id = user;
  portfolio_id = pid;
  status = success;
  inserted = counts.inserted;
  updated = counts.updated;
  deleted = counts.deleted;
  message = "";
}

abbrev pub error_log : ℕ → ℕ → String → SyncLog
error_log pid user message = record {
  user_id = user;
  portfolio_id = pid;
  status = error;
  inserted = 0;
  updated = 0;
  deleted = 0;
  message = message;
}

-- The sequence of the holdings is past the rows that were inserted.
abbrev pub synced : ℕ → ℕ → List KisHolding → SyncTables → Counts × SyncTables
synced pid user kis_holdings db =
    let (holdings, counts) = reconcile_holdings pid kis_holdings db.next db.holdings in
    (
      counts,
      record db {
        holdings = holdings;
        next = db.next + counts.inserted;
        logs = db.logs ++ success_log pid user counts ∷ [];
        cleared = db.cleared ++ analytics user ∷ user_portfolios user ∷ [];
      },
    )

abbrev pub finish_sync :
    (Fault → String) → ℕ → ℕ → Result (List KisHolding) → SyncTables → Result Counts × SyncTables
finish_sync message pid user (ok kis_holdings) db =
    let (counts, db') = synced pid user kis_holdings db in (ok counts, db')
finish_sync message pid user (raise fault) db = (
  raise (http_exception 502),
  record db { logs = db.logs ++ error_log pid user (take_chars 500 (message fault)) ∷ [] },
)

abbrev pub or_finish :
    (Fault → String)
    → (KisAccount → String × String → Result (List KisHolding) × Result (List KisHolding))
    → ℕ
    → ℕ
    → SyncTables
    → Result (KisAccount × (String × String))
    → Result Counts × SyncTables
or_finish message broker pid user db (raise fault) = (raise fault, db)
or_finish message broker pid user db (ok (acct, keys)) =
    let (domestic, overseas) = broker acct keys in
    finish_sync message pid user (all_holdings domestic overseas) db

-- `sync_portfolio`: `broker` gives the positions at home and abroad, or the exceptions of the two
-- queries, and `message` is the text of an exception.
unfoldable pub sync_portfolio :
    (Fault → String)
    → (String → Option String)
    → (KisAccount → String × String → Result (List KisHolding) × Result (List KisHolding))
    → ℕ
    → ℕ
    → SyncTables
    → Result Counts × SyncTables
sync_portfolio message decrypt broker pid user db =
    or_finish message broker pid user db (prepare_sync decrypt pid user db)
