-- ===== src/Server.antt =====
-- src/server/mod.rs: the websocket server of the relay.
pub mod Environment
pub mod Handler
pub mod Authority
pub mod Subscriptions
pub mod Posting
pub mod Refusals
pub mod Library
