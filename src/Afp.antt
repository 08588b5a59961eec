-- ===== src/Afp.antt =====
-- The constants, records and requests of the Apple Filing Protocol client.
pub mod Codes
pub mod Errno
pub mod Bits
pub mod Types
pub mod Request
pub mod Session
