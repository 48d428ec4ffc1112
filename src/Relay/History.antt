-- ===== src/Relay/History.antt =====
-- What the channel from src/server/mod.rs to src/broker/rabbit_broker.rs has carried, the latest
-- request first.
use grinbox.Prelude.{◌≡◌, Bool, true, false, List, [], ◌∷◌, if◌then◌else◌}
use grinbox.Prelude.Text.{Text, text_eq}
use grinbox.Broker.Protocol.{BrokerRequest}

-- The last of the id's subscriptions has not been ended by a request of the id.
abbrev pub is_subscribed : Text → List BrokerRequest → Bool
is_subscribed id [] = false
is_subscribed id (BrokerRequest.subscribe i _ _ ∷ h) =
    if text_eq i id then true else is_subscribed id h
is_subscribed id (BrokerRequest.unsubscribe i ∷ h) =
    if text_eq i id then false else is_subscribed id h
is_subscribed id (BrokerRequest.post_message _ _ _ _ ∷ h) = is_subscribed id h

-- No id subscribes twice without unsubscribing in between.
abbrev pub IsOrderly : List BrokerRequest → Type 0
IsOrderly [] = Unit
IsOrderly (BrokerRequest.subscribe i _ _ ∷ h) = (is_subscribed i h ≡ false) × IsOrderly h
IsOrderly (_ ∷ h) = IsOrderly h
