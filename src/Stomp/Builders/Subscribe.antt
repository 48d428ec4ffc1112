-- ===== src/Stomp/Builders/Subscribe.antt =====
-- src/broker/stomp/subscription_builder.rs with its options in option_setter.rs, `Subscription::new`
-- of subscription.rs and `Session::subscription`.
use grinbox.Prelude.{ℕ, ◌++◌, [], Option, none, some}
use grinbox.Prelude.Text.{Text, codes}
use grinbox.Prelude.Decimal.{to_text}
use grinbox.Prelude.Assoc.{insert}
use grinbox.Stomp.Header.{Header, HeaderList, push, retain, concat}
use grinbox.Stomp.Header.Names.{StandardHeader}
use grinbox.Stomp.Frame.{Frame, AckMode, auto, std, subscribe_frame}
use grinbox.Stomp.Session.{
  Session, Subscription, send_frame, generate_subscription_id, generate_receipt_id,
}
use grinbox.Stomp.Builders.Message.{differs, await_receipt}

pub record SubscriptionBuilder : Type 0 where
  pub session : Session
  pub destination : Text
  pub ack_mode : AckMode
  pub headers : HeaderList
  pub receipt_request : Option Text

-- `Session::subscription` and `SubscriptionBuilder::new`
unfoldable pub subscription : Session → Text → SubscriptionBuilder
subscription s destination = record {
  session = s;
  destination = destination;
  ack_mode = auto;
  headers = [];
  receipt_request = none;
}

-- `set_option` of an `AckMode`, a `Header`, a `SuppressedHeader` and `GenerateReceipt`
unfoldable pub with_ack_mode : SubscriptionBuilder → AckMode → SubscriptionBuilder
with_ack_mode b mode = record b { ack_mode = mode }

unfoldable pub with_header : SubscriptionBuilder → Header → SubscriptionBuilder
with_header b h = record b { headers = push b.headers h }

unfoldable pub without_header : SubscriptionBuilder → Text → SubscriptionBuilder
without_header b key = record b { headers = retain (differs key) b.headers }

unfoldable pub with_receipt : SubscriptionBuilder → SubscriptionBuilder
with_receipt b =
    let (next_id, session) = generate_receipt_id b.session in
    let receipt_id = codes "message/" ++ to_text next_id in
    record b {
      session = session;
      receipt_request = some receipt_id;
      headers = push b.headers (std StandardHeader.receipt receipt_id);
    }

-- the id of a subscription, in `Subscription::new`
unfoldable pub subscription_id : ℕ → Text
subscription_id n = codes "stomp-rs/" ++ to_text n

-- `Subscription::new`
unfoldable pub create : ℕ → Text → AckMode → HeaderList → Subscription
create n destination mode headers = record {
  id = subscription_id n;
  destination = destination;
  ack_mode = mode;
  headers = headers;
}

unfoldable pub register : Session → Subscription → Session
register s sub = record s {
  state = record (s.state) { subscriptions = insert sub.id sub s.state.subscriptions };
}

-- the frame that `start` sends
unfoldable pub frame_of : SubscriptionBuilder → Subscription → Frame
frame_of b sub =
    let f = subscribe_frame sub.id b.destination b.ack_mode in
    record f { headers = (concat f.headers b.headers).0 }

-- `SubscriptionBuilder::start`
unfoldable pub start : SubscriptionBuilder → Text × Session
start b =
    let (next_id, s) = generate_subscription_id b.session in
    let sub = create next_id b.destination b.ack_mode b.headers in
    let frame = frame_of b sub in
    (sub.id, await_receipt b.receipt_request frame (register (send_frame s frame) sub))
