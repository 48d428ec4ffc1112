-- ===== src/Relay/Thread.antt =====
-- Runs of the broker's thread of src/broker/rabbit_broker.rs on an orderly history of requests.
use grinbox.Prelude.{
  ℕ, ◌+◌, ◌<◌, ◌^◌, ◌≡◌, sym, ap, ◌∙◌, Bool, true, false, some, List, [], ◌∷◌, arith, Option-cases,
  inl, inr,
}
use grinbox.Prelude.Text.{Text}
use grinbox.Prelude.Assoc.{lookup}
use grinbox.Stomp.Session.{Transport}
use grinbox.Stomp.Session.Polling.{TimerPoll}
use grinbox.Stomp.Session.Subscriptions.{next_of}
use grinbox.Broker.Protocol.{BrokerRequest}
use grinbox.Broker.Consumers.{BrokerSession, Consumer, broker_session, on_request}
use grinbox.Broker.Polling.{BrokerPoll, poll}
use grinbox.Broker.Consistent.{IsConsistent}
use grinbox.Broker.Unsubscribing.{lookup-unsubscribe_id}
use grinbox.Broker.Subscribing.{IsAvailable, lookup-subscribe_id}
use grinbox.Broker.Runs.{Reaches, Reaches-IsConsistent, publish-HasSameTables, poll-HasSameTables}
use grinbox.Relay.History.{is_subscribed, IsOrderly}

-- There is a number for the subscription that is asked for.
abbrev pub HasRoom : BrokerSession → BrokerRequest → Type 0
HasRoom b (BrokerRequest.subscribe _ _ _) = next_of b.session + 1 < 2 ^ 32
HasRoom b _ = Unit

-- The states that the thread can come to when it has handled the requests of a history.
pub data Handles (graphemes : Text → List Text) (is_open : ℕ → Bool)
    (delay_poll : ℕ → ℕ → TimerPoll) : List BrokerRequest → BrokerSession → Type 0 where
  start :
      (username password : Text) (io : Transport) (now : ℕ)
      → Handles graphemes is_open delay_poll [] (broker_session username password io now)
  environment :
      {h : List BrokerRequest} {b : BrokerSession} (io : Transport) (now : ℕ)
      → Handles graphemes is_open delay_poll h b
      → Handles graphemes is_open delay_poll h
          (record b { session = record (b.session) { io = io; now = now } })
  requesting :
      {h : List BrokerRequest} {b : BrokerSession} (q : BrokerRequest)
      → Handles graphemes is_open delay_poll h b
      → HasRoom b q
      → Handles graphemes is_open delay_poll (q ∷ h) (on_request graphemes b q)
  polling :
      {h : List BrokerRequest} {b b' : BrokerSession} (r : BrokerPoll)
      → Handles graphemes is_open delay_poll h b
      → poll graphemes is_open delay_poll b ≡ some (r, b')
      → Handles graphemes is_open delay_poll h b'

-- Whoever has a consumer has asked for it.
abbrev pub IsAsked : List BrokerRequest → BrokerSession → Type 0
IsAsked h b =
    (id : Text) (c : Consumer) → lookup id b.consumers ≡ some c → is_subscribed id h ≡ true

nobody-IsAsked :
    (username password : Text) (io : Transport) (now : ℕ)
    → IsAsked [] (broker_session username password io now)
unfolding broker_session lookup
nobody-IsAsked username password io now id c e = cc e

module _ (graphemes : Text → List Text) where
  on_request-IsAsked :
      (h : List BrokerRequest) (b : BrokerSession) (q : BrokerRequest)
      → IsConsistent b
      → IsAsked h b
      → IsAsked (q ∷ h) (on_request graphemes b q)
  unfolding on_request
  on_request-IsAsked h b (BrokerRequest.subscribe i subject sender) inv asked id c e =
      elim (Option-cases (lookup id b.consumers)) [
        | inl missing ↦
            ground (arith, lookup-subscribe_id graphemes b i subject id sender inv, e, missing)
        | inr (d, found) ↦ ground (arith, asked id d found)
      ]
  on_request-IsAsked h b (BrokerRequest.unsubscribe i) inv asked id c e =
      ground (arith, lookup-unsubscribe_id b i id inv, e, asked id c)
  on_request-IsAsked h b (BrokerRequest.post_message subject payload reply_to seconds) inv asked id
        c e =
      asked id c (
        ap (lookup id)
          (sym (publish-HasSameTables graphemes b subject payload reply_to seconds).consumers)
        ∙ e)

  IsAsked-IsAvailable :
      (h : List BrokerRequest) (b : BrokerSession) (id subject : Text)
      → IsAsked h b
      → is_subscribed id h ≡ false
      → IsAvailable graphemes b id subject
  IsAsked-IsAvailable h b id subject asked none_open c e =
      absurd (ground (arith, asked id c e, none_open))

module _ {graphemes : Text → List Text} {is_open : ℕ → Bool} {delay_poll : ℕ → ℕ → TimerPoll} where
  pub Handles-Reaches :
      {h : List BrokerRequest} {b : BrokerSession}
      → Handles graphemes is_open delay_poll h b
      → IsOrderly h
      → Reaches graphemes is_open delay_poll b × IsAsked h b
  Handles-Reaches (start username password io now) o =
      (Reaches.start username password io now, nobody-IsAsked username password io now)
  Handles-Reaches (environment io now run) o =
      let (r, a) = Handles-Reaches run o in (Reaches.environment io now r, a)
  Handles-Reaches (requesting {h = h} {b = b} (BrokerRequest.subscribe i subject sender) run room)
        o =
      let (r, a) = Handles-Reaches run o.1 in
      (
        Reaches.requesting (BrokerRequest.subscribe i subject sender) r
            (IsAsked-IsAvailable graphemes h b i subject a o.0, room),
        on_request-IsAsked graphemes h b (BrokerRequest.subscribe i subject sender)
            (Reaches-IsConsistent r) a,
      )
  Handles-Reaches (requesting {h = h} {b = b} (BrokerRequest.unsubscribe i) run room) o =
      let (r, a) = Handles-Reaches run o in
      (
        Reaches.requesting (BrokerRequest.unsubscribe i) r tt,
        on_request-IsAsked graphemes h b (BrokerRequest.unsubscribe i) (Reaches-IsConsistent r) a,
      )
  Handles-Reaches
        (requesting {h = h} {b = b}
          (BrokerRequest.post_message subject payload reply_to seconds)
          run
          room)
        o =
      let (r, a) = Handles-Reaches run o in
      (
        Reaches.requesting (BrokerRequest.post_message subject payload reply_to seconds) r tt,
        on_request-IsAsked graphemes h b
            (BrokerRequest.post_message subject payload reply_to seconds) (Reaches-IsConsistent r)
            a,
      )
  Handles-Reaches (polling {b = b} {b' = b'} r run polled) o =
      let (reached, a) = Handles-Reaches run o in
      (
        Reaches.polling r reached polled,
        λ id c e. a id c (
            ap (lookup id)
              (sym (poll-HasSameTables graphemes is_open delay_poll b b' r polled).consumers)
            ∙ e),
      )
