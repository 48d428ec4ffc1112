-- ===== src/Stomp/Session/Subscriptions.antt =====
-- What sending and subscribing do to the subscriptions of a session of
-- src/broker/stomp/session.rs and src/broker/stomp/subscription_builder.rs.
use grinbox.Prelude.{ℕ, ◌≡◌, refl, ap, ◌∙◌, Option, none, some, arith, drop, if◌then◌else◌}
use grinbox.Prelude.Text.{Text, text_eq}
use grinbox.Prelude.Decimal.{to_text_injective}
use grinbox.Prelude.Assoc.{Assoc, lookup, lookup-remove, lookup-insert}
use grinbox.Stomp.Frame.{Frame, Transmission}
use grinbox.Stomp.Session.{
  Session, Subscription, StreamState, established, connecting, failed, send, send_by, send_result,
  on_disconnect, unsubscribe, generate_subscription_id, next_id,
}
use grinbox.Stomp.Builders.Message.{await_receipt}
use grinbox.Stomp.Builders.Subscribe.{SubscriptionBuilder, subscription_id, create, register, start}

-- What is left alone by sending: all of the state but the timers.
abbrev pub subscriptions_of : Session → Assoc Subscription
subscriptions_of s = s.state.subscriptions

abbrev pub next_of : Session → ℕ
next_of s = s.state.next_subscription_id

pub record SameSubscriptions (s t : Session) : Type 0 where
  pub subscriptions : subscriptions_of s ≡ subscriptions_of t
  pub next : next_of s ≡ next_of t

send_by-SameSubscriptions :
    (st : StreamState) (s : Session) (tx : Transmission) → SameSubscriptions (send_by st s tx) s
unfolding send_by send_result on_disconnect
send_by-SameSubscriptions established s tx = ground arith
send_by-SameSubscriptions connecting s tx = record { subscriptions = refl; next = refl }
send_by-SameSubscriptions failed s tx = record { subscriptions = refl; next = refl }

pub send-SameSubscriptions : (s : Session) (tx : Transmission) → SameSubscriptions (send s tx) s
unfolding send
send-SameSubscriptions s tx = send_by-SameSubscriptions s.stream s tx

-- Session::unsubscribe forgets the subscription and leaves every other one as it was, whatever
-- becomes of the frame that it sends.
pub lookup-unsubscribe :
    (s : Session) (id k : Text)
    → lookup k (subscriptions_of (unsubscribe s id))
      ≡ (if text_eq id k then none else lookup k (subscriptions_of s))
unfolding unsubscribe
lookup-unsubscribe s id k =
    ap (lookup k) (send-SameSubscriptions _ _).subscriptions
    ∙ lookup-remove id k (subscriptions_of s)

pub next-unsubscribe : (s : Session) (id : Text) → next_of (unsubscribe s id) ≡ next_of s
unfolding unsubscribe
next-unsubscribe s id = (send-SameSubscriptions _ _).next

pub subscription_id_injective : (m n : ℕ) → subscription_id m ≡ subscription_id n → m ≡ n
unfolding subscription_id
subscription_id_injective m n e = to_text_injective m n (ap (drop 9) e)

await_receipt-SameSubscriptions :
    (o : Option Text) (f : Frame) (s : Session) → SameSubscriptions (await_receipt o f s) s
unfolding await_receipt
await_receipt-SameSubscriptions none f s = record { subscriptions = refl; next = refl }
await_receipt-SameSubscriptions (some id) f s = record { subscriptions = refl; next = refl }

module _ (b : SubscriptionBuilder) where
  -- The subscription gets the id of the session's counter, which moves on.
  pub start-id : (start b).0 ≡ subscription_id (next_of b.session)
  unfolding start generate_subscription_id create
  start-id = refl

  pub next-start : next_of (start b).1 ≡ next_id (next_of b.session)
  unfolding start generate_subscription_id register
  next-start =
      (await_receipt-SameSubscriptions b.receipt_request _ _).next
      ∙ (send-SameSubscriptions _ _).next

  -- SubscriptionBuilder::start registers the subscription under the id of the session's counter,
  -- with its destination, mode and headers, and leaves every other subscription as it was, whatever
  -- becomes of the frame that it sends.
  pub lookup-start :
      (k : Text)
      → lookup k (subscriptions_of (start b).1) ≡ (
          if text_eq (subscription_id (next_of b.session)) k
          then some (create (next_of b.session) b.destination b.ack_mode b.headers)
          else lookup k (subscriptions_of b.session))
  unfolding start generate_subscription_id register create
  lookup-start k =
      let n = next_of b.session in
      let sub = create n b.destination b.ack_mode b.headers in
      ap (lookup k) (await_receipt-SameSubscriptions b.receipt_request _ _).subscriptions
      ∙ lookup-insert (subscription_id n) k sub _
      ∙ ap
          (λ (m : Assoc Subscription).
            if text_eq (subscription_id n) k then some sub else lookup k m)
          (send-SameSubscriptions _ _).subscriptions
