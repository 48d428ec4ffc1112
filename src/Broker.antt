-- ===== src/Broker.antt =====
-- The broker's side of the relay: src/broker/broker_protocol.rs and src/broker/rabbit_broker.rs.
pub mod Protocol
pub mod Consumers
pub mod Tables
pub mod Consistent
pub mod Unsubscribing
pub mod Subscribing
pub mod Polling
pub mod Delivery
pub mod Publishing
pub mod Runs
