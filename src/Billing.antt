-- ===== src/Billing.antt =====
-- services/billing.py: plan invoices, the dunning clock, settlement and the freeze.
mod Clock
mod Terms
mod Issue
mod Coverage
mod Settle
mod Grace
pub mod Hq
pub mod Banner
pub mod Oldest
unfoldable pub use Clock.*
unfoldable pub use Terms.*
unfoldable pub use Issue.*
unfoldable pub use Coverage.*
unfoldable pub use Settle.*
unfoldable pub use Grace.*
pub mod Tiers
pub mod Windows
pub mod Live
pub mod Replaced
pub mod Receipt
pub mod Outcome
pub mod Lapse
pub mod Retry
pub mod Freeze
pub mod Frozen
pub mod Untouched
