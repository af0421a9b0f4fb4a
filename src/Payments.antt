-- ===== src/Payments.antt =====
-- services/payments.py: the states of a payment, its confirmation and reversal, and the usage ledger.
mod Ledger
mod Confirm
mod Expiry
unfoldable pub use Ledger.*
unfoldable pub use Confirm.*
unfoldable pub use Expiry.*
pub mod Net
pub mod Usage
pub mod Sweep
pub mod Mint
pub mod Quota
pub mod Create
pub mod Accepted
pub mod Replay
pub mod Reissue
pub mod Successors
pub mod Repeat
