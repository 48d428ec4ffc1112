-- ===== src/Tests/Relays.antt =====
-- A client connects and subscribes, and the broker's thread handles the request.
use grinbox.Prelude.{◌≡◌, refl, true, some, [], ◌∷◌, length}
use grinbox.Prelude.Text.{codes, text_eq}
use grinbox.Prelude.Assoc.{Assoc, lookup, insert, remove}
use grinbox.Stomp.Header.Values.{ascii_clusters}
use grinbox.Broker.Protocol.{BrokerRequest}
use grinbox.Broker.Consumers.{BrokerSession, subscribe_id}
use grinbox.Broker.Consumers as Consumers
use grinbox.Broker.Consistent.{IsConsistent}
use grinbox.Broker.Subscribing.{subscribed, lookup-subscribe_id}
use grinbox.Server.Handler.{
  AsyncServer, on_message, on_request, subscribe, add_subscription, send_broker, send_handler,
}
use grinbox.Relay.Connections.{Sends, connecting, receiving}
use grinbox.Relay.Connections as Connections
use grinbox.Relay.Thread.{Handles}
use grinbox.Relay.Thread as Thread
use grinbox.Relay.Together.{Sends-IsConsistent, Sends-connected}
use grinbox.Tests.Sessions.{punctual}
use grinbox.Tests.Brokers.{start, start-IsConsistent, start_room, quiet}
use grinbox.Tests.Servers.{env, connection}

abbrev asked : BrokerRequest
asked = BrokerRequest.subscribe (codes "i") (codes "k") 0

abbrev connections : Assoc AsyncServer
connections =
    insert (codes "i") (on_message env connection (codes "s")).1 (insert (codes "i") connection [])

sent : Sends env connections (asked ∷ [])
unfolding on_message on_request subscribe add_subscription send_broker send_handler text_eq insert
    remove lookup
sent =
    receiving (codes "i") (codes "s") connection
      (connecting (codes "i") (codes "d") 80 true 0 Connections.start tt refl) refl

abbrev one : BrokerSession
one = subscribe_id ascii_clusters start (codes "i") (codes "k") 0

handled : Handles ascii_clusters (λ _. true) punctual (asked ∷ []) one
unfolding Consumers.on_request
handled = Thread.requesting asked (Thread.start (codes "guest") (codes "guest") quiet 0) start_room

held : lookup (codes "i") one.consumers ≡ some (subscribed ascii_clusters start (codes "k") 0)
unfolding text_eq
held =
    lookup-subscribe_id ascii_clusters start (codes "i") (codes "k") (codes "i") 0
      start-IsConsistent

Sends-IsConsistent_example : IsConsistent one
Sends-IsConsistent_example = Sends-IsConsistent env [] (asked ∷ []) sent handled

Sends-connected_example :
    (s : AsyncServer) × (lookup (codes "i") connections ≡ some s) × (length s.subscriptions ≡ 1)
Sends-connected_example =
    Sends-connected env (codes "i") (subscribed ascii_clusters start (codes "k") 0) sent handled
      held
