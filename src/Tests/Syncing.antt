-- ===== src/Tests/Syncing.antt =====
-- api/sync.py: a portfolio that is brought to two positions, and one whose broker cannot be reached.
use the_wealth.Base.{◌≡◌, refl, some, [], ◌∷◌, String}
use the_wealth.Outcome.{ok, raise, Fault, http_exception, transport_error}
use the_wealth.Reconcile.{Counts, reconcile_holdings}
use the_wealth.Sync.{SyncTables, prepare_sync, sync_portfolio, take_chars}
use the_wealth.Sync.Synced.{Synced, Queries, sync_portfolio-Synced}
use the_wealth.Tests.Portfolios.{table, kis_holdings, table-IdsDistinct, table-TickersDistinct}
use the_wealth.Tests.Settling.{account, linked}

abbrev db : SyncTables
db = record {
  portfolios = linked ∷ [];
  accounts = account ∷ [];
  holdings = table;
  next = 4;
  logs = [];
  cleared = [];
}

abbrev message : Fault → String
message fault = "no connection"

abbrev broker : Queries
broker acct keys = (ok kis_holdings, ok [])

abbrev unreached : Queries
unreached acct keys = (ok kis_holdings, raise transport_error)

abbrev counts : Counts
counts = record { inserted = 1; updated = 1; deleted = 1 }

makes : (sync_portfolio message some broker 7 3 db).0 ≡ ok counts
unfolding sync_portfolio prepare_sync reconcile_holdings
makes = refl

sync_portfolio-Synced_example :
    Synced some broker 7 3 counts db (sync_portfolio message some broker 7 3 db).1
sync_portfolio-Synced_example =
    sync_portfolio-Synced message some broker 7 3 db table-IdsDistinct table-TickersDistinct makes

refuses : (sync_portfolio message some unreached 7 3 db).0 ≡ raise (http_exception 502)
unfolding sync_portfolio prepare_sync take_chars
refuses = refl
