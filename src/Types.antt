-- ===== src/Types.antt =====
-- The types of grinboxlib.
pub mod Errors
pub mod Messages
pub mod Address
pub mod Message
pub mod Proof
