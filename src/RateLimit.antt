-- ===== src/RateLimit.antt =====
-- ratelimit.py: the counter of one window, and the lockout of one e-mail address.
mod Counter
unfoldable pub use Counter.*
pub mod Ceiling
pub mod Lockout
