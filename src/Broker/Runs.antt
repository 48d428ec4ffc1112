-- ===== src/Broker/Runs.antt =====
-- Runs of the broker's thread of src/broker/rabbit_broker.rs: requests of connections and polls in
-- any order, while the transport and the clock go on as they like.
use grinbox.Prelude.{
  ℕ, ◌+◌, ◌<◌, ◌^◌, ◌≡◌, refl, ap, Bool, Option, some, List, arith, Option-cases, inl, inr,
}
use grinbox.Prelude.Text.{Text}
use grinbox.Prelude.Assoc.{Assoc}
use grinbox.Stomp.Session.{Subscription, Transport}
use grinbox.Stomp.Session.Polling.{TimerPoll, PollResult, event, idle, poll_error}
use grinbox.Stomp.Session.Polling as Sessions
use grinbox.Stomp.Session.Kept.{kept, kept-send, kept-poll}
use grinbox.Stomp.Session.Subscriptions.{subscriptions_of, next_of}
use grinbox.Stomp.Builders.Message as Message
use grinbox.Broker.Protocol.{BrokerRequest}
use grinbox.Broker.Consumers.{
  BrokerSession, returned, broker_session, deliver, on_message, publish, outgoing, on_request,
}
use grinbox.Broker.Polling.{BrokerPoll, on_event, on_polled, poll}
use grinbox.Broker.Consistent.{IsConsistent}
use grinbox.Broker.Unsubscribing.{unsubscribe_id-IsConsistent}
use grinbox.Broker.Subscribing.{IsAvailable, subscribe_id-IsConsistent, broker_session-IsConsistent}
use grinbox.Stomp.Frame.{Frame}

-- What consistency is about.
pub record HasSameTables (b b' : BrokerSession) : Type 0 where
  pub consumers : b'.consumers ≡ b.consumers
  pub subjects : b'.subject_to_consumer_id ≡ b.subject_to_consumer_id
  pub ids : b'.subscription_id_to_consumer_id ≡ b.subscription_id_to_consumer_id
  pub session : kept b'.session ≡ kept b.session

same-IsConsistent : (b b' : BrokerSession) → HasSameTables b b' → IsConsistent b → IsConsistent b'
same-IsConsistent b b' same inv =
    let subscriptions : subscriptions_of b'.session ≡ subscriptions_of b.session =
      ap (λ (p : Assoc Subscription × ℕ). p.0) same.session in
    let next : next_of b'.session ≡ next_of b.session =
      ap (λ (p : Assoc Subscription × ℕ). p.1) same.session in
    record {
      subjects = record { at = λ k i. rw same.subjects (rw same.consumers (inv.subjects.at k i)) };
      ids = record { at = λ k i. rw same.ids (rw same.consumers (inv.ids.at k i)) };
      known = λ i c e. rw subscriptions (inv.known i c (rw same.consumers at e));
      issued = λ i c e. rw next (inv.issued i c (rw same.consumers at e));
    }

module _ (graphemes : Text → List Text) where
  pub publish-HasSameTables :
      (b : BrokerSession) (subject payload reply_to : Text) (seconds : Option ℕ)
      → HasSameTables b (publish graphemes b subject payload reply_to seconds)
  unfolding publish Message.send outgoing Message.with_header Message.message Message.await_receipt
  publish-HasSameTables b subject payload reply_to seconds = record {
    consumers = refl;
    subjects = refl;
    ids = refl;
    session = kept-send b.session _;
  }

  module _ (is_open : ℕ → Bool) where
    on_message-HasSameTables :
        (b b' : BrokerSession) (f : Frame)
        → on_message graphemes is_open b f ≡ returned b'
        → HasSameTables b b'
    unfolding on_message deliver
    on_message-HasSameTables b b' f e = grind arith

    on_polled-HasSameTables :
        (b : BrokerSession) (r : PollResult) → HasSameTables b (on_polled graphemes is_open b r).1
    unfolding on_polled on_event
    on_polled-HasSameTables b r = grind (arith, on_message-HasSameTables)

    pub poll-HasSameTables :
        (delay_poll : ℕ → ℕ → TimerPoll) (b b' : BrokerSession) (r : BrokerPoll)
        → poll graphemes is_open delay_poll b ≡ some (r, b')
        → HasSameTables b b'
    unfolding poll
    poll-HasSameTables delay_poll b b' r e =
        elim (Option-cases (Sessions.poll delay_poll b.session)) [
          | inl missing ↦ cc (rw (missing, poll) at e)
          | inr ((result, s), polled) ↦ grind (
            arith,
            polled,
            kept-poll delay_poll b.session s result polled,
            on_polled-HasSameTables (record b { session = s }) result,
          )
        ]

  -- What a request needs: a new subscription's id has no other subject, and there is a number for it.
  abbrev pub IsAcceptable : BrokerSession → BrokerRequest → Type 0
  IsAcceptable b (BrokerRequest.subscribe id subject sender) =
      IsAvailable graphemes b id subject × (next_of b.session + 1 < 2 ^ 32)
  IsAcceptable b _ = Unit

  on_request-IsConsistent :
      (b : BrokerSession) (q : BrokerRequest)
      → IsAcceptable b q
      → IsConsistent b
      → IsConsistent (on_request graphemes b q)
  unfolding on_request
  on_request-IsConsistent b (BrokerRequest.subscribe id subject sender) a inv =
      subscribe_id-IsConsistent graphemes b id subject sender inv a.0 a.1
  on_request-IsConsistent b (BrokerRequest.unsubscribe id) a inv =
      unsubscribe_id-IsConsistent b id inv
  on_request-IsConsistent b (BrokerRequest.post_message subject payload reply_to seconds) a inv =
      same-IsConsistent b _ (publish-HasSameTables b subject payload reply_to seconds) inv

-- The states that the thread can come to.
pub data Reaches (graphemes : Text → List Text) (is_open : ℕ → Bool)
    (delay_poll : ℕ → ℕ → TimerPoll) : BrokerSession → Type 0 where
  start :
      (username password : Text) (io : Transport) (now : ℕ)
      → Reaches graphemes is_open delay_poll (broker_session username password io now)
  environment :
      {b : BrokerSession} (io : Transport) (now : ℕ)
      → Reaches graphemes is_open delay_poll b
      → Reaches graphemes is_open delay_poll
          (record b { session = record (b.session) { io = io; now = now } })
  requesting :
      {b : BrokerSession} (q : BrokerRequest)
      → Reaches graphemes is_open delay_poll b
      → IsAcceptable graphemes b q
      → Reaches graphemes is_open delay_poll (on_request graphemes b q)
  polling :
      {b b' : BrokerSession} (r : BrokerPoll)
      → Reaches graphemes is_open delay_poll b
      → poll graphemes is_open delay_poll b ≡ some (r, b')
      → Reaches graphemes is_open delay_poll b'

module _ {graphemes : Text → List Text} {is_open : ℕ → Bool} {delay_poll : ℕ → ℕ → TimerPoll} where
  -- In every run of the broker's thread, with requests and polls in any order and any transport
  -- behaviour, in which a subscribing id has no other subject and the counter of subscription ids
  -- does not wrap, the tables of consumers stay inverse to one another and every consumer's
  -- subscription is known to the session for its subject.
  pub Reaches-IsConsistent :
      {b : BrokerSession} → Reaches graphemes is_open delay_poll b → IsConsistent b
  Reaches-IsConsistent (start username password io now) =
      broker_session-IsConsistent username password io now
  Reaches-IsConsistent (environment {b = b} io now run) =
      same-IsConsistent b _
        (record { consumers = refl; subjects = refl; ids = refl; session = refl })
        (Reaches-IsConsistent run)
  Reaches-IsConsistent (requesting {b = b} q run acceptable) =
      on_request-IsConsistent graphemes b q acceptable (Reaches-IsConsistent run)
  Reaches-IsConsistent (polling {b = b} {b' = b'} r run polled) =
      same-IsConsistent b b' (poll-HasSameTables graphemes is_open delay_poll b b' r polled)
        (Reaches-IsConsistent run)
