-- ===== src/Examples.antt =====
-- Concrete data, and the theorems at that data.
mod Data
mod Stores
mod Links
mod Plans
mod Settlement
mod Codes
mod Limits
mod Outbox
mod Sales
mod Orders
mod Portal
mod Jobs
mod Cleared
