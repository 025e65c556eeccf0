-- ===== src/Sync/Synced.antt =====
-- What a synchronization comes to.
use the_wealth.Base.{
  ℕ, ◌≡◌, ◌≢◌, refl, ap, ◌⊎◌, inl, inr, not, Option, some, List, [], ◌∷◌, ◌++◌, String, ◌==◌, find,
  arith,
}
use the_wealth.Base.Text.{lookup}
use the_wealth.Outcome.{Result, ok, raise, >>=-Passed, raise_if, or_raise, Fault, http_exception}
use the_wealth.Store.{Portfolio, KisAccount}
use the_wealth.Store.Holdings.{holdings_of, find_holding, IdsDistinct, TickersDistinct}
use the_wealth.Settlement.Endpoint.{or_raise-some}
use the_wealth.Reconcile.{KisHolding, Counts, add_kis, reconcile_holdings}
use the_wealth.Reconcile.View.{position, kis_position, reconcile-mirrors, reconcile-others}
use the_wealth.Sync.{
  SyncTables, analytics, user_portfolios, prepare_sync, all_holdings, success_log, error_log,
  finish_sync, or_finish, sync_portfolio,
}

-- the portfolio is there and the user's
abbrev pub IsOwned : ℕ → ℕ → SyncTables → Type 0
IsOwned pid user db =
    (p : Portfolio) × (find (λ q. q.id == pid) db.portfolios ≡ some p) × (p.user_id ≡ user)

mine : (a b : ℕ) {u : Unit {0}} → raise_if (not (a == b)) (http_exception 404) ≡ ok u → a ≡ b
mine a b h = ground (arith, h)

prepare_sync-IsOwned :
    (decrypt : String → Option String) (pid user : ℕ) (db : SyncTables)
    {got : KisAccount × (String × String)}
    → prepare_sync decrypt pid user db ≡ ok got
    → IsOwned pid user db
unfolding prepare_sync
prepare_sync-IsOwned decrypt pid user db h =
    let found = find (λ p. p.id == pid) db.portfolios in
    let (p, e, h₁) = >>=-Passed (or_raise found (http_exception 404)) _ h in
    let (_, m, _) = >>=-Passed (raise_if (not (p.user_id == user)) (http_exception 404)) _ h₁ in
    (p, or_raise-some found 404 e, mine p.user_id user m)

-- the table shows the broker's positions, and the other portfolios' rows are what they were
pub record Mirrors (pid : ℕ) (kis_holdings : List KisHolding) (db db' : SyncTables) : Type 0 where
  shown :
      (t : String)
      → position (find_holding pid t db'.holdings)
        ≡ kis_position (lookup t (add_kis [] kis_holdings))
  others : (q : ℕ) → q ≢ pid → holdings_of q db'.holdings ≡ holdings_of q db.holdings

abbrev pub Queries : Type 0
Queries = KisAccount → String × String → Result (List KisHolding) × Result (List KisHolding)

-- a synchronization that was made
pub record Synced (decrypt : String → Option String) (broker : Queries) (pid user : ℕ)
    (counts : Counts) (db db' : SyncTables) : Type 0 where
  owned : IsOwned pid user db
  account : KisAccount
  keys : String × String
  prepared : prepare_sync decrypt pid user db ≡ ok (account, keys)
  kis_holdings : List KisHolding
  reported : all_holdings (broker account keys).0 (broker account keys).1 ≡ ok kis_holdings
  mirrors : Mirrors pid kis_holdings db db'
  logged : db'.logs ≡ db.logs ++ success_log pid user counts ∷ []
  cleared : db'.cleared ≡ db.cleared ++ analytics user ∷ user_portfolios user ∷ []

module _ (message : Fault → String) (decrypt : String → Option String) (broker : Queries)
    (pid user : ℕ) (db : SyncTables) (ids : IdsDistinct db.holdings)
    (tickers : TickersDistinct db.holdings) where
  finish_sync-Synced :
      (owned : IsOwned pid user db) (account : KisAccount) (keys : String × String)
      (got : Result (List KisHolding)) {counts : Counts}
      → prepare_sync decrypt pid user db ≡ ok (account, keys)
      → all_holdings (broker account keys).0 (broker account keys).1 ≡ got
      → (finish_sync message pid user got db).0 ≡ ok counts
      → Synced decrypt broker pid user counts db (finish_sync message pid user got db).1
  finish_sync-Synced owned account keys (raise f) r e h = absurd (cc h)
  finish_sync-Synced owned account keys (ok kis_holdings) {counts} r e h =
      let same : (reconcile_holdings pid kis_holdings db.next db.holdings).1 ≡ counts = cc h in
      record {
        owned = owned;
        account = account;
        keys = keys;
        prepared = r;
        kis_holdings = kis_holdings;
        reported = e;
        mirrors = record {
          shown = λ t. reconcile-mirrors pid kis_holdings db.next db.holdings t ids tickers;
          others = λ q n. reconcile-others pid kis_holdings db.next db.holdings q ids tickers n;
        };
        logged = ap (λ c. db.logs ++ success_log pid user c ∷ []) same;
        cleared = refl;
      }

  or_finish-Synced :
      (prepared : Result (KisAccount × (String × String))) {counts : Counts}
      → prepare_sync decrypt pid user db ≡ prepared
      → (or_finish message broker pid user db prepared).0 ≡ ok counts
      → Synced decrypt broker pid user counts db (or_finish message broker pid user db prepared).1
  or_finish-Synced (raise f) r h = absurd (cc h)
  or_finish-Synced (ok (account, keys)) r h =
      finish_sync-Synced (prepare_sync-IsOwned decrypt pid user db r) account keys
        (all_holdings (broker account keys).0 (broker account keys).1) r refl h

  -- A synchronization succeeds only for the owner of the portfolio and where both queries of the
  -- broker did for the account that is linked to it; then, where no primary key and no ticker of a
  -- portfolio is there twice, the portfolio shows for every ticker the broker's last entry for it and
  -- no position where there is none, so that a row that was added by hand is removed, the other
  -- portfolios' rows are what they were, the counts are logged and the user's two caches are cleared.
  pub sync_portfolio-Synced :
      {counts : Counts}
      → (sync_portfolio message decrypt broker pid user db).0 ≡ ok counts
      → Synced decrypt broker pid user counts db
          (sync_portfolio message decrypt broker pid user db).1
  unfolding sync_portfolio
  sync_portfolio-Synced h = or_finish-Synced (prepare_sync decrypt pid user db) refl h

-- nothing was written, or the error was logged and answered by 502
abbrev pub IsRefused : ℕ → ℕ → SyncTables → Fault → SyncTables → Type 0
IsRefused pid user db fault db' =
    (db' ≡ db)
    ⊎ ((text : String) × (fault ≡ http_exception 502)
        × IsOwned pid user db
        × (db' ≡ record db { logs = db.logs ++ error_log pid user text ∷ [] }))

finish_sync-IsRefused :
    (message : Fault → String) (pid user : ℕ) (got : Result (List KisHolding)) (db : SyncTables)
    {fault : Fault}
    → IsOwned pid user db
    → (finish_sync message pid user got db).0 ≡ raise fault
    → IsRefused pid user db fault (finish_sync message pid user got db).1
finish_sync-IsRefused message pid user (ok ks) db o h = absurd (cc h)
finish_sync-IsRefused message pid user (raise f) db o h = inr (_, cc h, o, refl)

or_finish-IsRefused :
    (message : Fault → String) (broker : Queries) (pid user : ℕ) (db : SyncTables)
    (prepared : Result (KisAccount × (String × String))) {fault : Fault}
    → ((got : KisAccount × (String × String)) → prepared ≡ ok got → IsOwned pid user db)
    → (or_finish message broker pid user db prepared).0 ≡ raise fault
    → IsRefused pid user db fault (or_finish message broker pid user db prepared).1
or_finish-IsRefused message broker pid user db (raise f) o h = inl refl
or_finish-IsRefused message broker pid user db (ok (account, keys)) o h =
    finish_sync-IsRefused message pid user
      (all_holdings (broker account keys).0 (broker account keys).1) db (o (account, keys) refl) h

-- A synchronization that raises changes nothing but the log: no table at all, or, for the owner and
-- with 502, one error more in it.
pub sync_portfolio-IsRefused :
    (message : Fault → String) (decrypt : String → Option String) (broker : Queries) (pid user : ℕ)
    (db : SyncTables) {fault : Fault}
    → (sync_portfolio message decrypt broker pid user db).0 ≡ raise fault
    → IsRefused pid user db fault (sync_portfolio message decrypt broker pid user db).1
unfolding sync_portfolio
sync_portfolio-IsRefused message decrypt broker pid user db h =
    or_finish-IsRefused message broker pid user db (prepare_sync decrypt pid user db)
      (λ got e. prepare_sync-IsOwned decrypt pid user db e) h
