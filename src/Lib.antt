-- ===== src/Lib.antt =====
-- The Wealth: the services of backend/app that move money, positions and orders, as functions on
-- the tables that they read and write, and what holds of them.
--
-- Parts and files
-- - Base, Outcome, Decimal: what the others share. Numbers are native; amounts and prices are whole
--   numbers of the column's smallest unit (Base.Int); a division rounds half to even (Decimal). A
--   request that fails is a value of `Result`, with the HTTP status.
-- - Store: the rows of backend/app/models (Holding, Order, Transaction, Portfolio, KisAccount) and
--   the statements on the holdings table. A table is the list of its rows.
-- - Reconcile: backend/app/services/reconciliation.py, `reconcile_holdings` with its three loops.
-- - Settlement: backend/app/services/order_settlement.py, `settle_pending_orders` and
--   `_update_holdings_for_fill`; Settlement.Broker is the decoding of the broker's lines in
--   backend/app/services/kis_order_query.py, `check_filled_orders`, which the settlement calls, and
--   Settlement.Query its request; Settlement.Endpoint is about the endpoint of
--   backend/app/api/orders.py that settles by hand.
-- - Sync: backend/app/api/sync.py, `sync_portfolio`, which runs the reconciliation for a user.
-- - Retry: backend/app/services/kis_retry.py, `kis_request`; RateLimiter:
--   backend/app/services/kis_rate_limiter.py, the token bucket that every call of the broker passes.
-- - Cache: backend/app/core/redis_cache.py, the memory store and `RedisCache` before it; OrderLock:
--   the lock of backend/app/services/kis_order_place.py on that cache, alone and interleaved.
-- - Token: backend/app/services/kis_token.py, the cached access token and the double-checked lock
--   around its issuance, one call alone and any number of tasks that interleave.
-- - Placement: backend/app/services/kis_order_place.py, the limit of orders, the lock, the body that is
--   posted and the reading of the answer.
-- - Orders: backend/app/api/orders.py, `place_order` and `cancel_order_endpoint`, with
--   backend/app/services/kis_order_cancel.py, backend/app/core/ticker.py and the request of
--   backend/app/schemas/order.py.
-- - CashBalance: backend/app/services/cash_balance_aggregator.py, the balance of an account behind its
--   cache (Fetch) and the sum over a user's accounts behind another (Summary).
-- - Auth: backend/app/core/security.py and the endpoints of backend/app/api/auth.py that keep, use and
--   revoke refresh tokens.
-- - Transactions: backend/app/api/portfolio_transactions.py, the pages of the list and the
--   endpoints that write.
-- - PortfolioHoldings: backend/app/api/portfolio_holdings.py, the holdings that a user lists, adds, adds in
--   bulk, edits and deletes.
-- - Alerts: backend/app/api/alerts.py, the conditions of price alerts and their cooldown.
-- - Metrics: backend/app/api/analytics_metrics.py, the value of a user's positions at each date, with
--   exact numbers in place of floating point.
-- - Prices: backend/app/services/kis_price.py and `fetch_domestic_price_detail` of
--   backend/app/services/price_snapshot.py: the reading of the broker's answers (Quote, Daily), details as
--   the cache keeps them (Detail), current prices (Current), many at once (Bulk), and the calls for one
--   detail that run together (Flight).
-- - Health: backend/app/services/kis_health.py and its job in backend/app/services/scheduler.py.
-- - Snapshots: the closes of each day in backend/app/services/price_snapshot.py.
-- - Fx: backend/app/services/kis_fx.py, the exchange rate of the dollar behind two caches.
-- - Portfolios: backend/app/api/portfolios.py, the list, creation and order, change and deletion
--   (Changes), and the list with prices (Value, Priced), which asks Prices and Fx.
-- - Tests: runs on concrete inputs.
--
-- Parameters. The clock is an argument of the operations that read it. The broker's answers
-- (`answer`, `replies`, `broker`), the token in front of an order (`token`), the decryption of keys, the
-- text of an exception (`message`), the random wait, the Redis server and the texts of decimals are
-- arguments; what is assumed of the last three is written in the records `Random`, `Redis`,
-- `RefreshServer` and `Decimals`. Caches that an endpoint clears in other modules are kept as a list.
-- Primary keys come from a sequence whose next value is passed along; the hypotheses IdsDistinct and
-- OrderIdsDistinct (no primary key twice) and TickersDistinct (no ticker twice in a portfolio) are
-- stated where they are used.
--
-- Values in the cache are kept decoded: a count, a token with its expiry, a price, a balance, a JSON
-- object or a text. Times are whole seconds. In CashBalance an amount is a whole number of 10^-10, what
-- a quantity times a price is; in Portfolios.Value of 10^-14, what it is times a rate. Quantities and
-- prices are whole numbers of the unit of their columns: the rounding of finer ones is left out.
--
-- Fuel. `kis_request` runs as many rounds as the source's `range` has. `pages`, a client that follows
-- the cursors, takes fuel; one page more than there are rows is enough. A call for the token has at
-- most seven steps, a call for a detail at most 45, and the digits of a number are written with as
-- many rounds as the number says. All else is structural.
--
-- The count of orders per user is read and written in one step wherever an order is placed;
-- Placement.Race looks at attempts that all read it before any of them writes.
--
-- Not modelled: the HTTP requests themselves, JSON, logging, the event loop beyond the interleavings
-- of the order lock, of the token's tasks, of two refreshes and of the calls for a detail, and the
-- parts of the backend that are named in no file above.
pub mod Auth
pub mod Base
pub mod Decimal
pub mod Store
pub mod Sync
pub mod Reconcile
pub mod Outcome
pub mod Settlement
pub mod Retry
pub mod RateLimiter
pub mod Cache
pub mod CashBalance
pub mod OrderLock
pub mod Token
pub mod Orders
pub mod Placement
pub mod Transactions
pub mod Alerts
pub mod Health
pub mod Fx
pub mod Prices
pub mod Metrics
pub mod Snapshots
pub mod PortfolioHoldings
pub mod Portfolios
pub mod Tests
