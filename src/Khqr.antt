-- ===== src/Khqr.antt =====
-- khqr.py: the fields of a payment code, their reader, and the checksum.
mod Tlv
mod Checksum
mod Build
pub mod RoundTrip
unfoldable pub use Tlv.*
unfoldable pub use Checksum.*
unfoldable pub use Build.*
pub mod Sealed
pub mod Payload
