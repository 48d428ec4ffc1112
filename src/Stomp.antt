-- ===== src/Stomp.antt =====
-- The STOMP client library of src/broker/stomp.
pub mod Header
pub mod Frame
pub mod Codec
pub mod Connection
pub mod Session
pub mod Builders
