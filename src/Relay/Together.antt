-- ===== src/Relay/Together.antt =====
-- Runs of the connections of src/server/mod.rs and of the thread of src/broker/rabbit_broker.rs at
-- the two ends of the channel.
use grinbox.Prelude.{
  ℕ, ◌≡◌, ◌++◌, Bool, true, some, List, [], ◌∷◌, arith, length, Option-cases, inl, inr,
}
use grinbox.Prelude.Text.{Text}
use grinbox.Prelude.Assoc.{Assoc, lookup}
use grinbox.Stomp.Session.Polling.{TimerPoll}
use grinbox.Broker.Protocol.{BrokerRequest}
use grinbox.Broker.Consumers.{BrokerSession, Consumer}
use grinbox.Broker.Consistent.{IsConsistent}
use grinbox.Broker.Runs.{Reaches-IsConsistent}
use grinbox.Server.Environment.{Environment}
use grinbox.Server.Handler.{AsyncServer}
use grinbox.Relay.History.{is_subscribed, IsOrderly}
use grinbox.Relay.Thread.{Handles, Handles-Reaches}
use grinbox.Relay.Connections.{Sends}
use grinbox.Relay.Orderly.{Sends-IsMatched, unconnected-is_subscribed}

IsOrderly-append : (later h : List BrokerRequest) → IsOrderly (later ++ h) → IsOrderly h
IsOrderly-append [] h o = o
IsOrderly-append (BrokerRequest.subscribe i a c ∷ later) h o = IsOrderly-append later h o.1
IsOrderly-append (BrokerRequest.unsubscribe i ∷ later) h o = IsOrderly-append later h o
IsOrderly-append (BrokerRequest.post_message s p r n ∷ later) h o = IsOrderly-append later h o

module _ {graphemes : Text → List Text} {is_open : ℕ → Bool} {delay_poll : ℕ → ℕ → TimerPoll}
    (env : Environment) where
  -- Whatever clients send, and however connections begin with new identifiers and end, while the
  -- threads live: as far as the broker's thread has come in the requests of the channel, with
  -- polls, transport behaviour and room for subscription ids as they come, its tables are inverse
  -- to one another and every consumer's subscription is known to the session for its subject.
  pub Sends-IsConsistent :
      {cs : Assoc AsyncServer} {b : BrokerSession} (waiting handled : List BrokerRequest)
      → Sends env cs (waiting ++ handled)
      → Handles graphemes is_open delay_poll handled b
      → IsConsistent b
  Sends-IsConsistent waiting handled sent run =
      Reaches-IsConsistent
        (Handles-Reaches run (IsOrderly-append waiting handled (Sends-IsMatched env sent).0)).0

  -- Whatever clients send, and however connections begin with new identifiers and end, while the
  -- threads live: when the broker's thread has handled all requests of the channel, with polls,
  -- transport behaviour and room for subscription ids as they come, every consumer that the broker
  -- holds belongs to a connection that is there and has exactly one subscription.
  pub Sends-connected :
      {cs : Assoc AsyncServer} {b : BrokerSession} {h : List BrokerRequest} (id : Text)
      (c : Consumer)
      → Sends env cs h
      → Handles graphemes is_open delay_poll h b
      → lookup id b.consumers ≡ some c
      → (s : AsyncServer) × (lookup id cs ≡ some s) × (length s.subscriptions ≡ 1)
  Sends-connected {cs = cs} {h = h} id c sent run held =
      let (o, matched) = Sends-IsMatched env sent in
      let asked : is_subscribed id h ≡ true = (Handles-Reaches run o).1 id c held in
      elim (Option-cases (lookup id cs)) [
        | inl missing ↦
            absurd (ground (arith, asked, unconnected-is_subscribed env sent id missing))
        | inr (s, found) ↦
            let (_, settled, flag) = matched id s found in
            (s, found, ground (arith, asked, flag, settled.bounded))
      ]
