-- ===== src/Relay.antt =====
-- The server of src/server/mod.rs and the broker's thread of src/broker/rabbit_broker.rs together:
-- the one channel from the connections to the thread.
pub mod History
pub mod Thread
pub mod Steps
pub mod Connections
pub mod Orderly
pub mod Together
