-- ===== src/Stomp/Session/State.antt =====
-- The state of a session of src/broker/stomp/session.rs, with `Subscription` of
-- src/broker/stomp/subscription.rs and `SessionConfig` of src/broker/stomp/session_builder.rs.
use grinbox.Prelude.{ℕ, Option, List}
use grinbox.Prelude.Text.{Text}
use grinbox.Prelude.Assoc.{Assoc}
use grinbox.Stomp.Header.{HeaderList}
use grinbox.Stomp.Frame.{Frame, Transmission, AckMode}
use grinbox.Stomp.Connection.{Credentials}

-- `std::io::Error`, by its message.
abbrev pub IoError : Type 0
IoError = Text

-- `DisconnectionReason`
pub data DisconnectionReason : Type 0 where
  recv_failed connect_failed send_failed : IoError → DisconnectionReason
  closed_by_other_side heart_beat_timeout requested : DisconnectionReason

-- `SessionEvent`
pub data SessionEvent : Type 0 where
  connected : SessionEvent
  error : Frame → SessionEvent
  receipt : Text → Frame → Frame → SessionEvent
  message : Text → AckMode → Frame → SessionEvent
  subscriptionless unknown : Frame → SessionEvent
  disconnected : DisconnectionReason → SessionEvent

-- `HeartBeatDelay`: the interval in milliseconds, and the instant of its `Delay`
pub record HeartBeatDelay : Type 0 where
  pub interval : ℕ
  pub deadline : ℕ

pub record Subscription : Type 0 where
  pub id : Text
  pub destination : Text
  pub ack_mode : AckMode
  pub headers : HeaderList

-- `SessionConfig`
pub record SessionConfig : Type 0 where
  pub credentials : Option Credentials
  pub heartbeat : ℕ × ℕ
  pub headers : HeaderList

-- `SessionState`; an `OutstandingReceipt` is its original frame
pub record SessionState : Type 0 where
  pub next_transaction_id : ℕ
  pub next_subscription_id : ℕ
  pub next_receipt_id : ℕ
  pub rx_heartbeat : Option HeartBeatDelay
  pub tx_heartbeat : Option HeartBeatDelay
  pub subscriptions : Assoc Subscription
  pub outstanding_receipts : Assoc Frame

-- `StreamState`; the transport itself is the script below
pub data StreamState : Type 0 where
  established connecting failed : StreamState

-- What `Framed::start_send` answers: the item was taken, handed back, or failed.
pub data StartSend : Type 0 where
  accepted handed_back : StartSend
  start_error : IoError → StartSend

-- What `Framed::poll` and the connecting future's `poll` answer.
pub data FramedPoll : Type 0 where
  item : Transmission → FramedPoll
  end pending : FramedPoll
  recv_error : IoError → FramedPoll

pub data ConnectPoll : Type 0 where
  open_stream still_connecting : ConnectPoll
  connect_error : IoError → ConnectPoll

-- The answers to come, in order, and the transmissions that were taken. An exhausted script answers
-- "not ready" to a poll, and takes and flushes what is sent.
pub record Transport : Type 0 where
  pub connects : List ConnectPoll
  pub polls : List FramedPoll
  pub starts : List StartSend
  pub flushes : List (Option IoError)
  pub sent : List Transmission

pub record Session : Type 0 where
  pub config : SessionConfig
  pub state : SessionState
  pub stream : StreamState
  pub events : List SessionEvent
  pub io : Transport
  pub now : ℕ
