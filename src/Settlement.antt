-- ===== src/Settlement.antt =====
-- services/order_settlement.py: the broker's fills of the pending orders, booked as transactions and
-- holdings.
pub mod Broker
pub mod Fill
pub mod Loop
pub mod Step
pub mod Query
pub mod Booked
pub mod Endpoint
