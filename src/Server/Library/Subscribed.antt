-- ===== src/Server/Library/Subscribed.antt =====
-- A client of src/server/mod.rs that owns an address is subscribed to it.
use grinbox.Prelude.{◌≡◌, ◌≢◌, sym, Bool, true, Option, some, [], ◌∷◌, ◌++◌, arith, length}
use grinbox.Prelude.Text.{Text}
use grinbox.Prelude.Assoc.{insert}
use grinbox.Types.Errors.{Outcome}
use grinbox.Types.Address.{Captures, version_bytes}
use grinbox.Types.Address.RoundTrip.{key_text}
use grinbox.Types.Messages.{GrinboxRequest, GrinboxResponse}
use grinbox.Broker.Protocol.{BrokerRequest}
use grinbox.Server.Environment.{Environment}
use grinbox.Server.Handler.{
  AsyncServer, Reply, respond, challenge_raw, max_subscriptions, add_subscription, send_broker,
  send_handler, subscribe, on_request,
}
use grinbox.Server.Library.{check_signature, with_library}
use grinbox.Utils.Crypto.{
  Secp, IsSecp, key_to_base58_check, key_from_base58_check_raw, signature_to_hex, sign_challenge,
  verify_signature,
}
use grinbox.Utils.Crypto.Signatures.{
  signature_from_hex-signature_to_hex, verify_signature-sign_challenge,
}

-- What a subscription comes to: the answer, the request to the broker with the handler for its
-- responses, and the entry in the map.
abbrev pub IsSubscribed : AsyncServer → Text → Reply × AsyncServer → Type 0
IsSubscribed s address r =
    (r.0 ≡ respond GrinboxResponse.ok)
    × (r.1.requests ≡ s.requests ++ BrokerRequest.subscribe s.id address s.next_channel ∷ [])
    × (r.1.handlers ≡ s.handlers ++ s.next_channel ∷ [])
    × (r.1.subscriptions ≡ insert address tt s.subscriptions)

module _ (secp : Secp) (law : IsSecp secp) where
  -- The texts of a key and of a signature that verifies pass the test of the server.
  pub check_signature-signature_to_hex :
      (is_mainnet : Bool) (k : secp.PublicKey) (address challenge : Text) (s : secp.Signature)
      → key_to_base58_check secp k (version_bytes is_mainnet) ≡ some address
      → verify_signature secp challenge s k ≡ Outcome.ok tt
      → check_signature secp address challenge (signature_to_hex secp s) ≡ Outcome.ok tt
  unfolding check_signature
  check_signature-signature_to_hex is_mainnet k address challenge s made good =
      let (t, made', _, raw, _) = key_text secp law is_mainnet k in
      let same : t ≡ address = cc (made, made') in
      let read : key_from_base58_check_raw secp address 2
          ≡ Outcome.ok (k, version_bytes is_mainnet) =
        rw (sym same) raw in
      rw (read, signature_from_hex-signature_to_hex secp law s, good)

  -- When the signature is good, the client is subscribed.
  on_request-added :
      (env : Environment) (s : AsyncServer) (address signature : Text)
      → env.check_signature address challenge_raw signature ≡ Outcome.ok tt
      → length s.subscriptions ≢ max_subscriptions
      → s.broker_lives ≡ true
      → s.handlers_live ≡ true
      → IsSubscribed s address (on_request env s (GrinboxRequest.subscribe address signature))
  unfolding on_request subscribe add_subscription send_broker send_handler
  on_request-added env s address signature good room broker handlers =
      rw (good, subscribe) (ground (arith, room, broker, handlers))

  -- A client that signs the relay's challenge with the secret key of an address is subscribed to
  -- it: with room for a subscription and while the threads live, the answer is ok, the broker is
  -- asked for the subscription on a new channel, the channel's handler is registered and the
  -- address is entered. It relies on the documented behaviour of secp256k1zkp.
  pub on_request-IsSubscribed :
      (captures : Text → Option Captures) (env : Environment) (s : AsyncServer) (is_mainnet : Bool)
      (x : secp.SecretKey) (k : secp.PublicKey) (address : Text) (signature : secp.Signature)
      → secp.key_from_secret x ≡ some k
      → key_to_base58_check secp k (version_bytes is_mainnet) ≡ some address
      → sign_challenge secp challenge_raw x ≡ Outcome.ok signature
      → length s.subscriptions ≢ max_subscriptions
      → s.broker_lives ≡ true
      → s.handlers_live ≡ true
      → IsSubscribed s address (
          on_request
            (with_library secp captures env)
            s
            (GrinboxRequest.subscribe address (signature_to_hex secp signature)))
  on_request-IsSubscribed captures env s is_mainnet x k address signature has made signed room
        broker handlers =
      on_request-added (with_library secp captures env) s address (signature_to_hex secp signature)
        (check_signature-signature_to_hex is_mainnet k address challenge_raw signature made
          (verify_signature-sign_challenge secp law challenge_raw x k signature has signed))
        room broker handlers
