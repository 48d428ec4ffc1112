-- ===== src/Server/Handler.antt =====
-- src/server/mod.rs: `AsyncServer`. The requests that it sends to the broker's thread, the handlers
-- that it registers and the responses that it sends to its client are logs; whether the receivers
-- of the two channels still live is part of the state.
use grinbox.Prelude.{
  ℕ, suc, Bool, true, false, Option, none, some, List, [], ◌∷◌, ◌++◌, ◌&&◌, ◌==◌, length,
  if◌then◌else◌,
}
use grinbox.Prelude.Text.{Text, codes, text_eq}
use grinbox.Prelude.Decimal.{to_text}
use grinbox.Prelude.Assoc.{Assoc, lookup, insert, remove}
use grinbox.Types.Errors.{
  GrinboxError, unknown_error, invalid_request, invalid_signature, too_many_subscriptions, describe,
  Outcome, err, panicked,
}
use grinbox.Types.Messages.{GrinboxRequest, GrinboxResponse, error, slate}
use grinbox.Broker.Protocol.{BrokerRequest, BrokerResponse}
use grinbox.Types.Address.{GrinboxAddress}
use grinbox.Server.Environment.{
  Reaction, send_request, close_abnormal, close_normal, ignore, unreadable, ConnectEnd, Environment,
}

abbrev pub max_subscriptions : ℕ
max_subscriptions = 1

-- `get_challenge_raw`
abbrev pub challenge_raw : Text
challenge_raw = codes "7WUDtkSaKyGRUnQ22rE3QUXChV8DmA6NnunDYP4vheTpc"

-- The client's end of the connection, `inner`, is where replies go: they are results here.
pub record AsyncServer : Type 0 where
  pub id : Text
  -- the keys of the map; a `Subscription` holds nothing
  pub subscriptions : Assoc (Unit {0})
  pub grinbox_domain : Text
  pub grinbox_port : ℕ
  pub grinbox_protocol_unsecure : Bool
  -- the channel to the broker, and whether its receiver lives
  pub requests : List BrokerRequest
  pub broker_lives : Bool
  -- the channel to the response handlers, by the numbers of their receivers
  pub handlers : List ℕ
  pub handlers_live : Bool
  -- the number of the next channel that is made
  pub next_channel : ℕ

-- `AsyncServer::error`
abbrev pub error_of : GrinboxError → GrinboxResponse
error_of kind = error kind (describe kind)

-- `get_challenge`, which `on_open` sends to a new client; `on_close` and `on_error` only log
abbrev pub get_challenge : GrinboxResponse
get_challenge = GrinboxResponse.challenge challenge_raw

-- `on_open`: the connection, and what is sent to the client
unfoldable pub on_open : AsyncServer → GrinboxResponse × AsyncServer
on_open s = (get_challenge, s)

-- `unbounded_send` to the broker's thread: whether it was taken
unfoldable pub send_broker : AsyncServer → BrokerRequest → Bool × AsyncServer
send_broker s r =
    if s.broker_lives then (true, record s { requests = s.requests ++ r ∷ [] }) else (false, s)

unfoldable pub send_handler : AsyncServer → ℕ → Bool × AsyncServer
send_handler s receiver =
    if s.handlers_live
    then (true, record s { handlers = s.handlers ++ receiver ∷ [] })
    else (false, s)

-- The outcomes of a request: the response to the client, or a panic.
pub data Reply : Type 0 where
  respond : GrinboxResponse → Reply
  panic : Reply

-- `subscribe`, when the signature is good
unfoldable pub add_subscription : AsyncServer → Text → Reply × AsyncServer
add_subscription s address =
    if length s.subscriptions == max_subscriptions
    then (respond (error_of too_many_subscriptions), s)
    else (let channel = s.next_channel in
        let (asked, s1) =
          send_broker (record s { next_channel = suc channel })
            (BrokerRequest.subscribe s.id address channel) in
        if asked
        then (let (registered, s2) = send_handler s1 channel in
            if registered
            then (
              respond GrinboxResponse.ok,
              record s2 { subscriptions = insert address tt s2.subscriptions },
            )
            else (respond (error_of unknown_error), s2))
        else (respond (error_of unknown_error), s1))

-- `unsubscribe`
unfoldable pub unsubscribe : AsyncServer → Text → Reply × AsyncServer
unsubscribe s address = elim (lookup address s.subscriptions) [
  | some _ ↦
      let (asked, s1) =
        send_broker (record s { subscriptions = remove address s.subscriptions })
          (BrokerRequest.unsubscribe s.id) in
      (respond (if asked then GrinboxResponse.ok else error_of unknown_error), s1)
  | none ↦ (respond (error_of invalid_request), s)
]

-- `Drop for AsyncServer`: one request for each subscription
unfoldable pub drop_loop : AsyncServer → Assoc (Unit {0}) → AsyncServer
drop_loop s [] = s
drop_loop s (_ ∷ rest) = drop_loop (send_broker s (BrokerRequest.unsubscribe s.id)).1 rest

unfoldable pub drop_server : AsyncServer → AsyncServer
drop_server s = drop_loop s s.subscriptions

module _ (env : Environment) where
  -- `subscribe`
  unfoldable pub subscribe : AsyncServer → Text → Text → Reply × AsyncServer
  subscribe s address signature = elim (env.check_signature address challenge_raw signature) [
    | Outcome.ok _ ↦ add_subscription s address
    | err _ ↦ (respond (error_of unknown_error), s)
    | panicked ↦ (panic, s)
  ]

  -- the branches of the closure of `post_slate_federated` on a response
  unfoldable pub response_reaction : GrinboxRequest → GrinboxResponse → Reaction
  response_reaction request (GrinboxResponse.challenge _) = send_request request
  response_reaction request (error _ _) = close_abnormal
  response_reaction request GrinboxResponse.ok = close_normal
  response_reaction request (slate _ _ _ _) = ignore

  -- the closure, whose `expect` panics on a message that is no response
  unfoldable pub federated_reaction : GrinboxRequest → Text → Reaction
  federated_reaction request msg = elim (env.parse_response msg) [
    | some response ↦ response_reaction request response
    | none ↦ unreadable
  ]

  -- the URL of another relay
  unfoldable pub url_of : Bool → GrinboxAddress → Text
  url_of unsecure to =
      (if unsecure then codes "ws://" else codes "wss://") ++ (to.domain ++ b':' ∷ to_text to.port)

  -- `post_slate_federated`
  unfoldable pub post_slate_federated :
      AsyncServer → GrinboxAddress → GrinboxAddress → Text → Text → Option ℕ → Reply
  post_slate_federated s from to str signature seconds =
      let request =
        GrinboxRequest.post_slate (env.stripped from) (env.stripped to) str signature seconds in
      elim (env.connect (url_of s.grinbox_protocol_unsecure to) (federated_reaction request)) [
        | ConnectEnd.finished ↦ respond GrinboxResponse.ok
        | ConnectEnd.aborted ↦ respond (error_of unknown_error)
        | ConnectEnd.panicked ↦ panic
      ]

  -- `post_slate`, when the signature is good over `str` with the challenge `used`
  unfoldable pub forward :
      AsyncServer
      → GrinboxAddress
      → GrinboxAddress
      → Text
      → Text
      → Text
      → Option ℕ
      → Reply × AsyncServer
  forward s from to str used signature seconds =
      if (to.port == s.grinbox_port) && text_eq to.domain s.grinbox_domain
      then (let payload =
            env.print_payload (record { str = str; challenge = used; signature = signature }) in
          let (asked, s1) =
            send_broker s
              (BrokerRequest.post_message to.public_key payload (env.stripped from) seconds) in
          (respond (if asked then GrinboxResponse.ok else error_of unknown_error), s1))
      else (post_slate_federated s from to str signature seconds, s)

  -- `post_slate`, when both addresses are good: the signature may be over `str` alone, or over
  -- `str` and the challenge
  unfoldable pub post_checked :
      AsyncServer → GrinboxAddress → GrinboxAddress → Text → Text → Option ℕ → Reply × AsyncServer
  post_checked s from to str signature seconds =
      elim (env.check_signature from.public_key str signature) [
        | Outcome.ok _ ↦ forward s from to str [] signature seconds
        | err _ ↦ elim (env.check_signature from.public_key (str ++ challenge_raw) signature) [
          | Outcome.ok _ ↦ forward s from to str challenge_raw signature seconds
          | err _ ↦ (respond (error_of invalid_signature), s)
          | panicked ↦ (panic, s)
        ]
        | panicked ↦ (panic, s)
      ]

  -- `post_slate`
  unfoldable pub post_slate :
      AsyncServer → Text → Text → Text → Text → Option ℕ → Reply × AsyncServer
  post_slate s from to str signature seconds = elim (env.from_str_raw from) [
    | Outcome.ok from_address ↦ elim (env.from_str_raw to) [
      | Outcome.ok to_address ↦ post_checked s from_address to_address str signature seconds
      | err _ ↦ (respond (error_of invalid_request), s)
      | panicked ↦ (panic, s)
    ]
    | err _ ↦ (respond (error_of invalid_request), s)
    | panicked ↦ (panic, s)
  ]

  -- the dispatch in `on_message`
  unfoldable pub on_request : AsyncServer → GrinboxRequest → Reply × AsyncServer
  on_request s GrinboxRequest.challenge = (respond get_challenge, s)
  on_request s (GrinboxRequest.subscribe address signature) = subscribe s address signature
  on_request s (GrinboxRequest.post_slate from to str signature seconds) =
      post_slate s from to str signature seconds
  on_request s (GrinboxRequest.unsubscribe address) = unsubscribe s address

  -- `on_message`
  unfoldable pub on_message : AsyncServer → Text → Reply × AsyncServer
  on_message s msg = elim (env.parse_request msg) [
    | some request ↦ on_request s request
    | none ↦ (respond (error_of invalid_request), s)
  ]

  -- the loop of `AsyncServer::init` on a response of the broker: what is sent to the client
  unfoldable pub on_broker_response : BrokerResponse → Option GrinboxResponse
  on_broker_response m = elim (env.parse_payload m.payload) [
    | some p ↦ some (slate m.reply_to p.str p.signature p.challenge)
    | none ↦ none
  ]

-- `AsyncServer::new`, with the identifier that it draws
abbrev pub new : Text → Text → ℕ → Bool → ℕ → AsyncServer
new id domain port unsecure channel = record {
  id = id;
  subscriptions = [];
  grinbox_domain = domain;
  grinbox_port = port;
  grinbox_protocol_unsecure = unsecure;
  requests = [];
  broker_lives = true;
  handlers = [];
  handlers_live = true;
  next_channel = channel;
}
