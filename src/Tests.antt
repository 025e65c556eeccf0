-- ===== src/Tests.antt =====
-- Runs of the model on concrete inputs, and the theorems at them.
pub mod Portfolios
pub mod Broker
pub mod Caches
pub mod Alerting
pub mod Holdings
pub mod Settling
pub mod Tokens
pub mod Placing
pub mod Cash
pub mod Syncing
pub mod Tickets
pub mod Daily
pub mod Pricing
pub mod Listing
pub mod Rates
