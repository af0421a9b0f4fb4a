-- ===== src/Retention.antt =====
-- services/retention.py: stored gateway payloads are cleared after a while.
pub mod Purge
pub mod Offline
