-- ===== src/Webhooks.antt =====
-- webhooks.py and workers/w2_webhook_sender.py: the outbox of events and their deliveries.
mod Outbox
mod Delivery
unfoldable pub use Outbox.*
unfoldable pub use Delivery.*
pub mod Fanout
pub mod Retries
pub mod Scans
pub mod Batch
pub mod Exhausted
