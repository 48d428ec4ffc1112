-- ===== src/Lib.antt =====
-- Grinbox is a relay of transaction slates. A client opens a websocket to the server, proves with a
-- signature that it owns an address, subscribes to it, and posts slates to the addresses of others.
-- The server passes subscriptions and slates on to the broker's thread, which is a STOMP client of
-- RabbitMQ: a subject is a queue, and a slate is a message in it. What arrives in a queue goes
-- through the channel of the subscription back to the server's handlers, and to the client.
--
-- The parts, from the wire upwards, by module and by path from the repository's root:
-- - Stomp.Header, Stomp.Frame, Stomp.Codec: src/broker/stomp/header.rs, frame.rs and codec.rs. A byte
--   buffer is a list of numbers. The header loop of the decoder has as many rounds as there are
--   bytes, and one more; each round takes at least a byte.
-- - Stomp.Connection: src/broker/stomp/connection.rs, and the arithmetic on f32 in session.rs.
-- - Stomp.Session with State, Receive and Polling: src/broker/stomp/session.rs. The state is the
--   record Session. The transport below it is a script of the answers that it will give and a log
--   of what it has taken. The loop of `poll` has as many rounds as the script holds answers to a
--   poll, and one more, since each round but the last takes one; Stomp.Session.Ending has the bound
--   that does not look behind the answer at which the loop stops. (A stream that always has a
--   transmission ready keeps the loop of the source going.) `poll_stream` calls itself once.
--   The counters of ids are `u32`s that wrap, as in the release build.
-- - Stomp.Builders: src/broker/stomp/message_builder.rs, subscription_builder.rs,
--   session_builder.rs, transaction.rs and option_setter.rs. A builder owns its session while it
--   lives, and gives it back when it ends.
-- - Broker.Protocol, Broker.Consumers, Broker.Polling: src/broker/broker_protocol.rs and
--   src/broker/rabbit_broker.rs. A hash map is an association list; the clones of the session
--   share one state behind locks, so that every operation is a step of that one state. The sending
--   end of a channel is a number, and what is sent is added to a log.
-- - Types.Errors, Types.Messages: grinboxlib/src/error and the requests and responses of
--   grinboxlib/src/types. A result is a value, an error or a panic.
-- - Utils.Hex, Utils.Base58, Utils.Crypto: grinboxlib/src/utils/mod.rs, base58.rs and crypto.rs. The
--   inner loop of to_base58 has as many rounds as the buffer has digits, and one more; its index
--   goes down with each round but the last. secp256k1zkp and sha2 are the record Secp, and IsSecp
--   says what is relied on.
-- - Types.Address, Types.Message, Types.Proof: grinbox_address.rs, grinbox_message.rs and tx_proof.rs
--   of grinboxlib/src/types. regex is a parameter: Types.Address.Grammar says which texts the one
--   expression of the source matches, with which groups. ring is the record Ring, with IsRing;
--   serde_json the record Json, with IsJson. The network, the random salt and the random nonce are
--   arguments, a slate is of any type.
-- - Server.Environment, Server.Handler: src/server/mod.rs. What the server uses of addresses,
--   signatures, JSON and websocket clients are the fields of the record Environment, and
--   IsFaithful says what is relied on. A connection to another relay ends well, with an error
--   or in a panic. Server.Library puts the models of grinboxlib in the place of the fields for
--   addresses and signatures; the modules below it follow requests through both.
-- - Relay: both ends of the channel between them. Relay.Connections has the states that any number
--   of connections can come to, with what they have sent; Relay.Thread the states that the broker's
--   thread can come to when it has handled a history of requests.
-- The other modules hold the proofs, each under the component that it is about; Prelude has the
-- texts, maps and numerals that all share, and Tests the runs on concrete inputs.
--
-- The segmentation of texts into grapheme clusters and the timers are parameters. Not modelled are
-- the logs and the coloured Display instances of requests, responses and errors, the start of the
-- threads and the reading of the environment in src/main.rs, the traits of
-- grinboxlib/src/client, and the callbacks of the websocket handler that only log or build the
-- answer to the handshake.
pub mod Prelude
pub mod Stomp
pub mod Types
pub mod Broker
pub mod Server
pub mod Utils
pub mod Relay
pub mod Tests
