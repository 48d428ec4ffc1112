-- ===== src/Broker/Consumers.antt =====
-- src/broker/rabbit_broker.rs: `Broker::start` and `BrokerSession`. A response that is sent on a
-- channel is added to a log; whether the channel's receiver still lives is an argument.
use grinbox.Prelude.{
  ℕ, ◌*◌, ◌%◌, ◌^◌, Bool, true, false, Option, none, some, List, [], ◌∷◌, ◌++◌, ◌&&◌, leb,
  if◌then◌else◌,
}
use grinbox.Prelude.Text.{Text, codes}
use grinbox.Prelude.Text.Utf8.{valid_utf8}
use grinbox.Prelude.Decimal.{to_text}
use grinbox.Prelude.Assoc.{Assoc, lookup, insert, remove}
use grinbox.Stomp.Header.{Header, get}
use grinbox.Stomp.Header.Names.{StandardHeader, standard}
use grinbox.Stomp.Header.Values.{from_str}
use grinbox.Stomp.Frame.{Frame, AckMode}
use grinbox.Stomp.Session as Sessions
use grinbox.Stomp.Session.{Session, SessionEvent, SessionConfig, Transport, IoError}
use grinbox.Stomp.Builders.Message as Message
use grinbox.Stomp.Builders.Subscribe as Subscribe
use grinbox.Stomp.Builders.Connect as Connect
use grinbox.Broker.Protocol.{BrokerRequest, BrokerResponse, subscribe, unsubscribe, post_message}

abbrev pub default_queue_expiration : Text
default_queue_expiration = codes "86400000"

abbrev pub default_message_expiration : ℕ
default_message_expiration = 86400

pub record Consumer : Type 0 where
  pub subject : Text
  pub subscription_id : Text
  pub sender : ℕ

-- The number of the session, which only the log names, is left out.
pub record BrokerSession : Type 0 where
  pub session : Session
  pub consumers : Assoc Consumer
  pub subject_to_consumer_id : Assoc Text
  pub subscription_id_to_consumer_id : Assoc Text
  pub delivered : List (ℕ × BrokerResponse)

-- the session that `Broker::start` builds
unfoldable pub broker_session : Text → Text → Transport → ℕ → BrokerSession
broker_session username password io now = record {
  session =
      Connect.build
        (Connect.with_heartbeat
          (Connect.with_credentials Connect.create
            (record { login = username; passcode = password }))
          (10000, 10000))
        io now;
  consumers = [];
  subject_to_consumer_id = [];
  subscription_id_to_consumer_id = [];
  delivered = [];
}

-- the removal of a consumer's subscription, which ends both ways of unsubscribing
unfoldable pub drop_subscription : BrokerSession → Text → BrokerSession
drop_subscription b subscription_id = record b {
  subscription_id_to_consumer_id = remove subscription_id b.subscription_id_to_consumer_id;
  session = Sessions.unsubscribe b.session subscription_id;
}

-- the branches of `unsubscribe_by_subject` on the consumer that it has looked up
unfoldable pub drop_consumer_of : Text → Option Consumer → BrokerSession → BrokerSession
drop_consumer_of consumer_id none b = b
drop_consumer_of consumer_id (some consumer) b =
    drop_subscription (record b { consumers = remove consumer_id b.consumers })
      consumer.subscription_id

-- `unsubscribe_by_subject`
unfoldable pub unsubscribe_by_subject : BrokerSession → Text → BrokerSession
unsubscribe_by_subject b subject = elim (lookup subject b.subject_to_consumer_id) [
  | some consumer_id ↦
      drop_consumer_of consumer_id (lookup consumer_id b.consumers)
        (record b { subject_to_consumer_id = remove subject b.subject_to_consumer_id })
  | none ↦ b
]

-- the branches of `unsubscribe` on the subject's entry
unfoldable pub drop_subject_of : Consumer → Option Text → BrokerSession → BrokerSession
drop_subject_of consumer none b = b
drop_subject_of consumer (some consumer_id) b =
    drop_subscription
      (record b { subject_to_consumer_id = remove consumer.subject b.subject_to_consumer_id })
      consumer.subscription_id

-- `unsubscribe`
unfoldable pub unsubscribe_id : BrokerSession → Text → BrokerSession
unsubscribe_id b id = elim (lookup id b.consumers) [
  | some consumer ↦
      drop_subject_of consumer (lookup consumer.subject b.subject_to_consumer_id)
        (record b { consumers = remove id b.consumers })
  | none ↦ b
]

-- `message_expiration` in milliseconds, in 32 bits
unfoldable pub message_expiration : Option ℕ → ℕ
message_expiration none = default_message_expiration * 1000 % 2 ^ 32
message_expiration (some seconds) =
    if leb 1 seconds && leb seconds 86400
    then seconds * 1000 % 2 ^ 32
    else default_message_expiration * 1000 % 2 ^ 32

-- what `on_message` does for the consumer that a frame is for
pub data Handled : Type 0 where
  returned : BrokerSession → Handled
  panicked : Handled

unfoldable pub deliver : Bool → BrokerSession → ℕ → BrokerResponse → BrokerSession
deliver true b sender response = record b { delivered = b.delivered ++ (sender, response) ∷ [] }
deliver false b sender response = b

module _ (graphemes : Text → List Text) where
  abbrev header : Text → Text → Header
  header name value = record { name = from_str graphemes name; value = value }

  -- the subscription that `subscribe` starts
  unfoldable pub start_subscription : Session → Text → Text × Session
  start_subscription s subject = Subscribe.start (
      Subscribe.with_header
        (Subscribe.with_ack_mode (Subscribe.subscription s subject) AckMode.auto)
        (header (codes "x-expires") default_queue_expiration))

  unfoldable pub add_consumer : BrokerSession → Text → Text → ℕ → Text × Session → BrokerSession
  add_consumer b id subject sender (subscription_id, session) = record b {
    session = session;
    subject_to_consumer_id = insert subject id b.subject_to_consumer_id;
    subscription_id_to_consumer_id = insert subscription_id id b.subscription_id_to_consumer_id;
    consumers =
        insert id (record { subject = subject; subscription_id = subscription_id; sender = sender })
          b.consumers;
  }

  -- `subscribe`
  unfoldable pub subscribe_id : BrokerSession → Text → Text → ℕ → BrokerSession
  subscribe_id b id subject sender =
      let b' = unsubscribe_by_subject b subject in
      add_consumer b' id subject sender (start_subscription b'.session subject)

  -- the message that `publish` sends
  unfoldable pub outgoing : Session → Text → Text → Text → Option ℕ → Message.MessageBuilder
  outgoing s subject payload reply_to seconds =
      Message.with_header
        (Message.with_header
          (Message.with_header (Message.message s (codes "/queue/" ++ subject) payload)
            (header (codes "x-expires") default_queue_expiration))
          (header (codes "expiration") (to_text (message_expiration seconds))))
        (header (codes "grinbox-reply-to") reply_to)

  -- `publish`
  unfoldable pub publish : BrokerSession → Text → Text → Text → Option ℕ → BrokerSession
  publish b subject payload reply_to seconds = record b {
    session = Message.send (outgoing b.session subject payload reply_to seconds);
  }

  -- the loop over the requests in `Broker::start`
  unfoldable pub on_request : BrokerSession → BrokerRequest → BrokerSession
  on_request b (subscribe id subject sender) = subscribe_id b id subject sender
  on_request b (unsubscribe id) = unsubscribe_id b id
  on_request b (post_message subject payload reply_to seconds) =
      publish b subject payload reply_to seconds

  -- the consumer that a frame is for
  unfoldable pub consumer_for : BrokerSession → Frame → Option Consumer
  consumer_for b frame = elim (get frame.headers (standard StandardHeader.subscription)) [
    | none ↦ none
    | some subscription_id ↦ elim (lookup subscription_id b.subscription_id_to_consumer_id) [
      | none ↦ none
      | some consumer_id ↦ lookup consumer_id b.consumers
    ]
  ]

  -- `on_message`; the `unwrap` of a body that is no UTF-8 panics
  unfoldable pub on_message : (ℕ → Bool) → BrokerSession → Frame → Handled
  on_message is_open b frame = elim (consumer_for b frame) [
    | none ↦ returned b
    | some consumer ↦ elim (get frame.headers (from_str graphemes (codes "grinbox-reply-to"))) [
      | none ↦ returned b
      | some reply_to ↦
          if valid_utf8 frame.body
          then returned (
              deliver (is_open consumer.sender) b consumer.sender
                (record { subject = consumer.subject; payload = frame.body; reply_to = reply_to }))
          else panicked
    ]
  ]
