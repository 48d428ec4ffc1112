-- ===== src/Tests/Brokers.antt =====
-- Runs of the broker's session of src/broker/rabbit_broker.rs.
use grinbox.Prelude.{
  ◌+◌, ◌<◌, ◌≤◌, ◌^◌, ◌≡◌, refl, true, some, none, [], ◌∷◌, ◌++◌, if◌then◌else◌, arith,
}
use grinbox.Prelude.Text.{Text, codes, text_eq}
use grinbox.Prelude.Text.Utf8.{valid_utf8}
use grinbox.Prelude.Assoc.{lookup}
use grinbox.Stomp.Header.{get}
use grinbox.Stomp.Header.Names.{
  StandardHeader, standard, custom, name_eq, parse_standard, standard_text,
}
use grinbox.Stomp.Header.Values.{ascii_clusters, from_str, encode_value}
use grinbox.Stomp.Builders.Connect as Connect
use grinbox.Prelude.Decimal.{to_text}
use grinbox.Stomp.Frame.{Frame, Command, complete_frame}
use grinbox.Stomp.Session.{Transport, established, accepted, pop_start, new}
use grinbox.Stomp.Session.Subscriptions.{subscriptions_of, next_of}
use grinbox.Stomp.Builders.Subscribe.{subscription_id}
use grinbox.Broker.Consumers.{
  BrokerSession, Consumer, broker_session, subscribe_id, unsubscribe_id, unsubscribe_by_subject,
  consumer_for, on_message, returned, publish, message_expiration, on_request,
}
use grinbox.Broker.Consistent.{IsConsistent, HasDestination, Holds}
use grinbox.Broker.Unsubscribing.{
  without_subject, unsubscribe_id-IsConsistent, lookup-unsubscribe_id,
}
use grinbox.Broker.Subscribing.{
  IsAvailable, subscribed, subscribe_id-IsConsistent, lookup-subscribe_id,
  broker_session-IsConsistent,
}
use grinbox.Broker.Delivery.{
  IsFor, consumer_for-HasDestination, on_message-subscribe_id, on_message-unsubscribe_by_subject,
}
use grinbox.Broker.Publishing.{IsMessageTo, message_expiration_bounds, publish-IsMessageTo}
use grinbox.Broker.Runs as Runs
use grinbox.Broker.Runs.{Reaches, Reaches-IsConsistent}
use grinbox.Broker.Protocol.{BrokerRequest}
use grinbox.Tests.Sessions.{punctual}
use grinbox.Tests.Headers.{ascii_segmentation}

abbrev pub quiet : Transport
quiet = record { connects = []; polls = []; starts = []; flushes = []; sent = [] }

abbrev pub start : BrokerSession
start = broker_session (codes "guest") (codes "guest") quiet 0

pub start-IsConsistent : IsConsistent start
start-IsConsistent = broker_session-IsConsistent (codes "guest") (codes "guest") quiet 0

start-IsAvailable : (id subject : Text) → IsAvailable ascii_clusters start id subject
unfolding broker_session lookup
start-IsAvailable id subject c e = cc

pub start_room : next_of start.session + 1 < 2 ^ 32
unfolding broker_session new Connect.build
start_room = omega arith

-- The client "i" subscribes to the subject "s" with the channel 4.
abbrev one : BrokerSession
one = subscribe_id ascii_clusters start (codes "i") (codes "s") 4

subscribe_id-IsConsistent_example : IsConsistent one
subscribe_id-IsConsistent_example =
    subscribe_id-IsConsistent ascii_clusters start (codes "i") (codes "s") 4 start-IsConsistent
      (start-IsAvailable (codes "i") (codes "s")) start_room

lookup-subscribe_id_example : lookup (codes "i") one.consumers ≡ (
    if text_eq (codes "i") (codes "i")
    then some (subscribed ascii_clusters start (codes "s") 4)
    else without_subject (codes "s") (lookup (codes "i") start.consumers))
lookup-subscribe_id_example =
    lookup-subscribe_id ascii_clusters start (codes "i") (codes "s") (codes "i") 4
      start-IsConsistent

unsubscribe_id-IsConsistent_example : IsConsistent (unsubscribe_id one (codes "i"))
unsubscribe_id-IsConsistent_example =
    unsubscribe_id-IsConsistent one (codes "i") subscribe_id-IsConsistent_example

lookup-unsubscribe_id_example : lookup (codes "i") (unsubscribe_id one (codes "i")).consumers ≡ none
unfolding text_eq
lookup-unsubscribe_id_example =
    lookup-unsubscribe_id one (codes "i") (codes "i") subscribe_id-IsConsistent_example

-- A message for that subscription.
abbrev letter : Frame
letter = record {
  command = Command.message;
  headers =
      record { name = standard StandardHeader.subscription; value = codes "stomp-rs/0" }
      ∷ record { name = custom (codes "grinbox-reply-to"); value = codes "a" }
      ∷ [];
  body = codes "hi";
}

letter-IsFor_next : IsFor letter (subscription_id (next_of start.session))
unfolding broker_session new Connect.build get name_eq subscription_id to_text
letter-IsFor_next = refl

letter_sender :
    get letter.headers (from_str ascii_clusters (codes "grinbox-reply-to")) ≡ some (codes "a")
unfolding get name_eq text_eq from_str encode_value ascii_clusters parse_standard standard_text
letter_sender = refl

abbrev subscriber : Consumer
subscriber = subscribed ascii_clusters start (codes "s") 4

one_found : lookup (codes "i") one.consumers ≡ some subscriber
unfolding text_eq
one_found = lookup-subscribe_id_example

one-Holds : Holds one (codes "s") (codes "i") subscriber
one-Holds = record {
  listed =
      (subscribe_id-IsConsistent_example.subjects.at (codes "s") (codes "i")).1
        (ground (arith, one_found));
  found = one_found;
  about = refl;
}

consumer_for-letter : consumer_for ascii_clusters one letter ≡ some subscriber
unfolding consumer_for
consumer_for-letter =
    rw (letter-IsFor_next, consumer_for)
      (rw
        ((subscribe_id-IsConsistent_example.ids.at (subscription_id (next_of start.session))
            (codes "i")).1
          (ground (arith, one_found)))
        one_found)

consumer_for-HasDestination_example :
    IsFor letter (subscription_id (next_of start.session))
    × HasDestination
        (lookup (subscription_id (next_of start.session)) (subscriptions_of one.session))
        (codes "s")
consumer_for-HasDestination_example =
    consumer_for-HasDestination ascii_clusters one letter subscriber
      subscribe_id-IsConsistent_example consumer_for-letter

on_message-subscribe_id_example :
    on_message ascii_clusters (λ _. true) one letter
    ≡ returned (record one {
      delivered =
          (4, record { subject = codes "s"; payload = codes "hi"; reply_to = codes "a" }) ∷ [];
    })
unfolding valid_utf8 broker_session
on_message-subscribe_id_example =
    on_message-subscribe_id ascii_clusters (λ _. true) start (codes "i") (codes "s") (codes "a") 4
      letter start-IsConsistent (start-IsAvailable (codes "i") (codes "s")) start_room
      letter-IsFor_next letter_sender refl

on_message-unsubscribe_by_subject_example :
    on_message ascii_clusters (λ _. true) (unsubscribe_by_subject one (codes "s")) letter
    ≡ returned (unsubscribe_by_subject one (codes "s"))
on_message-unsubscribe_by_subject_example =
    on_message-unsubscribe_by_subject ascii_clusters (λ _. true) one (codes "s") (codes "i")
      subscriber letter subscribe_id-IsConsistent_example one-Holds letter-IsFor_next

message_expiration_bounds_example :
    (1000 ≤ message_expiration (some 0)) × (message_expiration (some 0) ≤ 86400000)
message_expiration_bounds_example = message_expiration_bounds (some 0)

-- The broker's session on an established stream.
abbrev ready_session : BrokerSession
ready_session = record start { session = record (start.session) { stream = established } }

ready_accepts : (pop_start ready_session.session.io.starts).0 ≡ accepted
unfolding broker_session pop_start new Connect.build
ready_accepts = refl

publish-IsMessageTo_example :
    (f : Frame) × ((publish ascii_clusters ready_session
        (codes "s")
        (codes "hi")
        (codes "a")
        (some 5)).session.io.sent
      ≡ ready_session.session.io.sent ++ complete_frame f ∷ [])
    × IsMessageTo ascii_clusters ascii_segmentation (codes "s") (codes "hi") (codes "a") (some 5) f
publish-IsMessageTo_example =
    publish-IsMessageTo ascii_clusters ascii_segmentation ready_session (codes "s") (codes "hi")
      (codes "a") (some 5) refl ready_accepts

-- The client subscribes, and then the transport goes on.
subscribed-Reaches :
    Reaches ascii_clusters
      (λ _. true)
      punctual
      (record one { session = record (one.session) { io = quiet; now = 7 } })
unfolding on_request
subscribed-Reaches = Runs.environment quiet 7 (
    Runs.requesting (BrokerRequest.subscribe (codes "i") (codes "s") 4)
      (Runs.start (codes "guest") (codes "guest") quiet 0)
      (start-IsAvailable (codes "i") (codes "s"), start_room))

Reaches-IsConsistent_example :
    IsConsistent (record one { session = record (one.session) { io = quiet; now = 7 } })
Reaches-IsConsistent_example = Reaches-IsConsistent subscribed-Reaches
