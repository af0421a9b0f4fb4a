-- ===== src/Stores.antt =====
-- services/stores.py: the store allowance of a plan (`apply_store_cap`, `move_store_slot`), and the
-- switch between a disabled store and a live one.
mod Cap
mod Slot
pub mod Links
pub mod Attach
pub mod Create
pub mod Update
pub mod Patched
pub mod Opened
pub mod Destinations
unfoldable pub use Cap.*
unfoldable pub use Slot.*
pub mod Allowance
pub mod Swap
pub mod Switch
