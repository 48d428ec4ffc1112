-- ===== src/Relay/Connections.antt =====
-- The connections of src/server/mod.rs, and what they have sent to the channel.
use mathlib.Core.List.{reverse}
use grinbox.Prelude.{ℕ, ◌≡◌, ◌≢◌, Bool, none, some, List, [], ◌∷◌, ◌++◌, length, drop}
use grinbox.Prelude.Text.{Text}
use grinbox.Prelude.Assoc.{Assoc, lookup, insert, remove}
use grinbox.Broker.Protocol.{BrokerRequest}
use grinbox.Server.Environment.{Environment}
use grinbox.Server.Handler.{AsyncServer, new, on_message, drop_server}

-- What stands in the channel after a connection has gone from one state to another.
abbrev pub carry : AsyncServer → AsyncServer → List BrokerRequest → List BrokerRequest
carry s s' h = reverse (drop (length s.requests) s'.requests) ++ h

-- An identifier that no request of the history has.
abbrev pub IsUnused : Text → List BrokerRequest → Type 0
IsUnused id [] = Unit
IsUnused id (BrokerRequest.subscribe i _ _ ∷ h) = (i ≢ id) × IsUnused id h
IsUnused id (BrokerRequest.unsubscribe i ∷ h) = (i ≢ id) × IsUnused id h
IsUnused id (BrokerRequest.post_message _ _ _ _ ∷ h) = IsUnused id h

-- The connections that there can be, with the history that they have sent, while both threads live:
-- each identifier is a new one, clients send what they like, and connections end.
pub data Sends (env : Environment) : Assoc AsyncServer → List BrokerRequest → Type 0 where
  start : Sends env [] []
  connecting :
      {cs : Assoc AsyncServer} {h : List BrokerRequest} (id domain : Text) (port : ℕ)
      (unsecure : Bool) (channel : ℕ)
      → Sends env cs h
      → IsUnused id h
      → lookup id cs ≡ none
      → Sends env (insert id (new id domain port unsecure channel) cs) h
  receiving :
      {cs : Assoc AsyncServer} {h : List BrokerRequest} (id msg : Text) (s : AsyncServer)
      → Sends env cs h
      → lookup id cs ≡ some s
      → Sends env (insert id (on_message env s msg).1 cs) (carry s (on_message env s msg).1 h)
  ending :
      {cs : Assoc AsyncServer} {h : List BrokerRequest} (id : Text) (s : AsyncServer)
      → Sends env cs h
      → lookup id cs ≡ some s
      → Sends env (remove id cs) (carry s (drop_server s) h)
