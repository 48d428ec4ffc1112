-- ===== src/Stomp/Builders.antt =====
-- The builders of src/broker/stomp and their options. `with` of a builder calls the setter of the
-- option that it is given.
pub mod Message
pub mod Subscribe
pub mod Connect
pub mod Transaction
