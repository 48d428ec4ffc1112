-- ===== src/Server/Authority.antt =====
-- What a request of a client makes src/server/mod.rs ask of the broker, and on what authority.
use grinbox.Prelude.{
  ℕ, ◌≡◌, refl, Bool, true, false, Option, List, [], ◌∷◌, ◌++◌, append-nil, arith, Option-cases,
  inl, inr, not, ◌&&◌, ◌==◌, length, if◌then◌else◌,
}
use grinbox.Prelude.Text.{Text, text_eq}
use grinbox.Prelude.Assoc.{lookup}
use grinbox.Types.Errors.{ErrorKind, Outcome, err, panicked}
use grinbox.Types.Messages.{GrinboxRequest}
use grinbox.Broker.Protocol.{BrokerRequest}
use grinbox.Types.Address.{GrinboxAddress}
use grinbox.Server.Environment.{Environment}
use grinbox.Server.Handler.{
  AsyncServer, challenge_raw, max_subscriptions, send_broker, send_handler, add_subscription,
  unsubscribe, subscribe, forward, post_checked, post_slate, on_request,
}

module _ (env : Environment) where
  -- The signature is the sender's, over the text and what the relay added to it.
  abbrev pub IsSigned : GrinboxAddress → Text → Text → Text → Type 0
  IsSigned from str used signature =
      env.check_signature from.public_key (str ++ used) signature ≡ Outcome.ok tt

  -- What a request allows the relay to ask of the broker, on behalf of the client with the id.
  pub data IsAuthorised (id : Text) : GrinboxRequest → List BrokerRequest → Type 0 where
    nothing : {r : GrinboxRequest} → IsAuthorised id r []
    subscribing :
        {address signature : Text} {channel : ℕ}
        → env.check_signature address challenge_raw signature ≡ Outcome.ok tt
        → IsAuthorised id
            (GrinboxRequest.subscribe address signature)
            (BrokerRequest.subscribe id address channel ∷ [])
    unsubscribing :
        {address : Text}
        → IsAuthorised id (GrinboxRequest.unsubscribe address) (BrokerRequest.unsubscribe id ∷ [])
    posting :
        {from to str signature used : Text} {seconds : Option ℕ}
        {from_address to_address : GrinboxAddress}
        → env.from_str_raw from ≡ Outcome.ok from_address
        → env.from_str_raw to ≡ Outcome.ok to_address
        → IsSigned from_address str used signature
        → IsAuthorised id (GrinboxRequest.post_slate from to str signature seconds) (
            BrokerRequest.post_message to_address.public_key
              (env.print_payload (record { str = str; challenge = used; signature = signature }))
              (env.stripped from_address)
              seconds
            ∷ [])

  -- The requests that a step has added are allowed.
  abbrev pub IsLicensed : AsyncServer → GrinboxRequest → AsyncServer → Type 0
  IsLicensed s r s' =
      (issued : List BrokerRequest) × (s'.requests ≡ s.requests ++ issued)
      × IsAuthorised s.id r issued

  may :
      {id : Text} {r : GrinboxRequest} {q : BrokerRequest} (b : Bool)
      → IsAuthorised id r (q ∷ [])
      → IsAuthorised id r (if b then q ∷ [] else [])
  may true a = a
  may false a = nothing

  unchanged : (s : AsyncServer) (r : GrinboxRequest) → IsLicensed s r s
  unchanged s r = ([], ground (arith, append-nil s.requests), nothing)

  add_subscription-IsLicensed :
      (s : AsyncServer) (address signature : Text)
      → env.check_signature address challenge_raw signature ≡ Outcome.ok tt
      → IsLicensed s (GrinboxRequest.subscribe address signature) (add_subscription s address).1
  unfolding add_subscription send_broker send_handler
  add_subscription-IsLicensed s address signature e = (
    if s.broker_lives && not (length s.subscriptions == max_subscriptions)
        then BrokerRequest.subscribe s.id address s.next_channel ∷ []
        else [],
    ground (arith, append-nil s.requests),
    may _ (subscribing e),
  )

  subscribe-IsLicensed :
      (s : AsyncServer) (address signature : Text)
      → IsLicensed s
          (GrinboxRequest.subscribe address signature)
          (subscribe env s address signature).1
  unfolding subscribe
  subscribe-IsLicensed s address signature =
      checked (env.check_signature address challenge_raw signature) refl
    where
      checked :
          (o : Outcome (Unit {0}))
          → env.check_signature address challenge_raw signature ≡ o
          → IsLicensed s
              (GrinboxRequest.subscribe address signature)
              (subscribe env s address signature).1
      checked (Outcome.ok u) e =
          rw (e, subscribe) (add_subscription-IsLicensed s address signature e)
      checked (err k) e = rw (e, subscribe) (unchanged s _)
      checked panicked e = rw (e, subscribe) (unchanged s _)

  unsubscribe-IsLicensed :
      (s : AsyncServer) (address : Text)
      → IsLicensed s (GrinboxRequest.unsubscribe address) (unsubscribe s address).1
  unfolding unsubscribe send_broker
  unsubscribe-IsLicensed s address = elim (Option-cases (lookup address s.subscriptions)) [
    | inl missing ↦ rw (missing, unsubscribe) (unchanged s _)
    | inr (u, found) ↦ (
      if s.broker_lives then BrokerRequest.unsubscribe s.id ∷ [] else [],
      ground (arith, found, append-nil s.requests),
      may _ unsubscribing,
    )
  ]

  forward-IsLicensed :
      (s : AsyncServer) (from to str used signature : Text) (seconds : Option ℕ)
      (from_address to_address : GrinboxAddress)
      → env.from_str_raw from ≡ Outcome.ok from_address
      → env.from_str_raw to ≡ Outcome.ok to_address
      → IsSigned from_address str used signature
      → IsLicensed s
          (GrinboxRequest.post_slate from to str signature seconds)
          (forward env s from_address to_address str used signature seconds).1
  unfolding forward send_broker
  forward-IsLicensed s from to str used signature seconds from_address to_address e f g = (
    if s.broker_lives
          && ((to_address.port == s.grinbox_port) && text_eq to_address.domain s.grinbox_domain)
        then BrokerRequest.post_message to_address.public_key
            (env.print_payload (record { str = str; challenge = used; signature = signature }))
            (env.stripped from_address) seconds
          ∷ []
        else [],
    ground (arith, append-nil s.requests),
    may _ (posting e f g),
  )

  post_checked-IsLicensed :
      (s : AsyncServer) (from to str signature : Text) (seconds : Option ℕ)
      (from_address to_address : GrinboxAddress)
      → env.from_str_raw from ≡ Outcome.ok from_address
      → env.from_str_raw to ≡ Outcome.ok to_address
      → IsLicensed s
          (GrinboxRequest.post_slate from to str signature seconds)
          (post_checked env s from_address to_address str signature seconds).1
  unfolding post_checked
  post_checked-IsLicensed s from to str signature seconds from_address to_address e f =
      alone (env.check_signature from_address.public_key str signature) refl
    where
      with_challenge :
          (k : ErrorKind) (o : Outcome (Unit {0}))
          → env.check_signature from_address.public_key str signature ≡ err k
          → env.check_signature from_address.public_key (str ++ challenge_raw) signature ≡ o
          → IsLicensed s
              (GrinboxRequest.post_slate from to str signature seconds)
              (post_checked env s from_address to_address str signature seconds).1
      with_challenge k (Outcome.ok u) g h =
          rw (g, post_checked)
            (rw h
              (forward-IsLicensed s from to str _ signature seconds from_address to_address e f h))
      with_challenge k (err _) g h = rw (g, post_checked) (rw h (unchanged s _))
      with_challenge k panicked g h = rw (g, post_checked) (rw h (unchanged s _))

      alone :
          (o : Outcome (Unit {0}))
          → env.check_signature from_address.public_key str signature ≡ o
          → IsLicensed s
              (GrinboxRequest.post_slate from to str signature seconds)
              (post_checked env s from_address to_address str signature seconds).1
      alone (Outcome.ok u) g =
          rw (g, post_checked)
            (forward-IsLicensed s from to str [] signature seconds from_address to_address e f
              (rw append-nil g))
      alone (err k) g = with_challenge k _ g refl
      alone panicked g = rw (g, post_checked) (unchanged s _)

  post_slate-IsLicensed :
      (s : AsyncServer) (from to str signature : Text) (seconds : Option ℕ)
      → IsLicensed s
          (GrinboxRequest.post_slate from to str signature seconds)
          (post_slate env s from to str signature seconds).1
  unfolding post_slate
  post_slate-IsLicensed s from to str signature seconds = sender (env.from_str_raw from) refl
    where
      receiver :
          (a : GrinboxAddress) (o : Outcome GrinboxAddress)
          → env.from_str_raw from ≡ Outcome.ok a
          → env.from_str_raw to ≡ o
          → IsLicensed s
              (GrinboxRequest.post_slate from to str signature seconds)
              (post_slate env s from to str signature seconds).1
      receiver a (Outcome.ok b) e f =
          rw (e, post_slate)
            (rw f (post_checked-IsLicensed s from to str signature seconds a b e f))
      receiver a (err k) e f = rw (e, post_slate) (rw f (unchanged s _))
      receiver a panicked e f = rw (e, post_slate) (rw f (unchanged s _))

      sender :
          (o : Outcome GrinboxAddress)
          → env.from_str_raw from ≡ o
          → IsLicensed s
              (GrinboxRequest.post_slate from to str signature seconds)
              (post_slate env s from to str signature seconds).1
      sender (Outcome.ok a) e = receiver a (env.from_str_raw to) e refl
      sender (err k) e = rw (e, post_slate) (unchanged s _)
      sender panicked e = rw (e, post_slate) (unchanged s _)

  -- Whatever a client asks, AsyncServer adds at most one request to the channel to the broker. It
  -- subscribes only with a signature of the relay's challenge that verifies under the subscribed
  -- key, posts only with a signature that verifies under the sender's key over the slate and the
  -- challenge text that the payload names, and unsubscribes only on request and under its own id.
  pub on_request-IsLicensed :
      (s : AsyncServer) (r : GrinboxRequest) → IsLicensed s r (on_request env s r).1
  unfolding on_request
  on_request-IsLicensed s GrinboxRequest.challenge = unchanged s _
  on_request-IsLicensed s (GrinboxRequest.subscribe address signature) =
      subscribe-IsLicensed s address signature
  on_request-IsLicensed s (GrinboxRequest.post_slate from to str signature seconds) =
      post_slate-IsLicensed s from to str signature seconds
  on_request-IsLicensed s (GrinboxRequest.unsubscribe address) = unsubscribe-IsLicensed s address
