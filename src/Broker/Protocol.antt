-- ===== src/Broker/Protocol.antt =====
-- src/broker/broker_protocol.rs. The sending end of a channel is the channel's number.
use grinbox.Prelude.{ℕ, Option}
use grinbox.Prelude.Text.{Text}

pub data BrokerRequest : Type 0 where
  -- id, subject, response sender
  subscribe : Text → Text → ℕ → BrokerRequest
  -- id
  unsubscribe : Text → BrokerRequest
  -- subject, payload, reply to, expiration of the message in seconds
  post_message : Text → Text → Text → Option ℕ → BrokerRequest

pub record BrokerResponse : Type 0 where
  pub subject : Text
  pub payload : Text
  pub reply_to : Text
