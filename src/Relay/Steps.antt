-- ===== src/Relay/Steps.antt =====
-- What one message of a client makes a connection of src/server/mod.rs ask of the broker, against
-- its subscriptions.
use grinbox.Prelude.{
  ℕ, ◌≡◌, refl, ap, Option, [], ◌∷◌, ◌++◌, arith, length, ◌==◌, ◌&&◌, Bool-cases, Option-cases, inl,
  inr, ◌⊎◌,
}
use grinbox.Prelude.Text.{Text, text_eq}
use grinbox.Prelude.Assoc.{lookup, insert, remove}
use grinbox.Types.Errors.{ErrorKind, Outcome, err, panicked}
use grinbox.Types.Address.{GrinboxAddress}
use grinbox.Types.Messages.{GrinboxRequest}
use grinbox.Broker.Protocol.{BrokerRequest}
use grinbox.Server.Environment.{Environment}
use grinbox.Server.Handler.{
  AsyncServer, max_subscriptions, challenge_raw, send_broker, send_handler, add_subscription,
  unsubscribe, subscribe, forward, post_checked, post_slate, on_request, on_message,
}
use grinbox.Server.Subscriptions.{IsSettled, nil_of_length, remove_only}

pub data Turns (s s' : AsyncServer) : Type 0 where
  silent : s' ≡ s → Turns s s'
  posts :
      (subject payload reply_to : Text) (seconds : Option ℕ)
      → s'.requests ≡ s.requests ++ BrokerRequest.post_message subject payload reply_to seconds ∷ []
      → s'.subscriptions ≡ s.subscriptions
      → s'.id ≡ s.id
      → Turns s s'
  begins :
      (address : Text) (channel : ℕ)
      → s'.requests ≡ s.requests ++ BrokerRequest.subscribe s.id address channel ∷ []
      → length s.subscriptions ≡ 0
      → length s'.subscriptions ≡ 1
      → s'.id ≡ s.id
      → Turns s s'
  ends :
      s'.requests ≡ s.requests ++ BrokerRequest.unsubscribe s.id ∷ []
      → length s.subscriptions ≡ 1
      → length s'.subscriptions ≡ 0
      → s'.id ≡ s.id
      → Turns s s'

add_subscription-Turns :
    (s : AsyncServer) (address : Text) → IsSettled s → Turns s (add_subscription s address).1
unfolding add_subscription send_broker send_handler insert remove
add_subscription-Turns s address t =
    elim (Bool-cases (length s.subscriptions == max_subscriptions)) [
      | inl full ↦ silent (ground (arith, full))
      | inr room ↦
          let empty : s.subscriptions ≡ [] = nil_of_length s.subscriptions t.bounded room in
          begins address s.next_channel (ground (arith, room, t.broker, t.handlers))
            (ap length empty) (ground (arith, room, t.broker, t.handlers, empty))
            (ground (arith, room, t.broker, t.handlers))
    ]

unsubscribe-Turns :
    (s : AsyncServer) (address : Text) → IsSettled s → Turns s (unsubscribe s address).1
unfolding unsubscribe send_broker
unsubscribe-Turns s address t = elim (Option-cases (lookup address s.subscriptions)) [
  | inl missing ↦ silent (ground (arith, missing))
  | inr (u, found) ↦
      let (one, none_left) = remove_only address s.subscriptions u t.bounded found in
      ends (ground (arith, found, t.broker)) one
        (ground (arith, found, t.broker, ap length none_left)) (ground (arith, found, t.broker))
]

Outcome-cases :
    {A : Type 0} (o : Outcome A)
    → ((a : A) × (o ≡ Outcome.ok a)) ⊎ (((e : ErrorKind) × (o ≡ err e)) ⊎ (o ≡ panicked))
Outcome-cases (Outcome.ok a) = inl (a, refl)
Outcome-cases (err e) = inr (inl (e, refl))
Outcome-cases panicked = inr (inr refl)

module _ (env : Environment) where
  forward-Turns :
      (s : AsyncServer) (from to : GrinboxAddress) (str used signature : Text) (seconds : Option ℕ)
      → IsSettled s
      → Turns s (forward env s from to str used signature seconds).1
  unfolding forward send_broker
  forward-Turns s from to str used signature seconds t =
      elim (Bool-cases ((to.port == s.grinbox_port) && text_eq to.domain s.grinbox_domain)) [
        | inl home ↦
            posts to.public_key
              (env.print_payload (record { str = str; challenge = used; signature = signature }))
              (env.stripped from) seconds (ground (arith, home, t.broker))
              (ground (arith, home, t.broker)) (ground (arith, home, t.broker))
        | inr away ↦ silent (ground (arith, away))
      ]

  post_checked-Turns :
      (s : AsyncServer) (from to : GrinboxAddress) (str signature : Text) (seconds : Option ℕ)
      → IsSettled s
      → Turns s (post_checked env s from to str signature seconds).1
  unfolding post_checked
  post_checked-Turns s from to str signature seconds t =
      elim (Outcome-cases (env.check_signature from.public_key str signature)) [
        | inl (_, good) ↦
            rw (good, post_checked) (forward-Turns s from to str [] signature seconds t)
        | inr (inr crash) ↦ rw (crash, post_checked) (silent refl)
        | inr (inl (e, bad)) ↦
            elim (Outcome-cases
              (env.check_signature from.public_key (str ++ challenge_raw) signature)) [
                | inl (_, good) ↦
                    rw (bad, post_checked)
                      (rw good (forward-Turns s from to str challenge_raw signature seconds t))
                | inr (inl (f, worse)) ↦ rw (bad, post_checked) (rw worse (silent refl))
                | inr (inr crash) ↦ rw (bad, post_checked) (rw crash (silent refl))
              ]
      ]

  post_slate-Turns :
      (s : AsyncServer) (from to str signature : Text) (seconds : Option ℕ)
      → IsSettled s
      → Turns s (post_slate env s from to str signature seconds).1
  unfolding post_slate
  post_slate-Turns s from to str signature seconds t =
      elim (Outcome-cases (env.from_str_raw from)) [
        | inr (inl (e, bad)) ↦ rw (bad, post_slate) (silent refl)
        | inr (inr crash) ↦ rw (crash, post_slate) (silent refl)
        | inl (a, read) ↦ elim (Outcome-cases (env.from_str_raw to)) [
          | inr (inl (e, bad)) ↦ rw (read, post_slate) (rw bad (silent refl))
          | inr (inr crash) ↦ rw (read, post_slate) (rw crash (silent refl))
          | inl (b, read') ↦
              rw (read, post_slate) (rw read' (post_checked-Turns s a b str signature seconds t))
        ]
      ]

  -- One message of a client makes at most one request, and a request about subscriptions goes with
  -- the connection's own.
  pub on_message-Turns :
      (s : AsyncServer) (msg : Text) → IsSettled s → Turns s (on_message env s msg).1
  unfolding on_message on_request subscribe
  on_message-Turns s msg t = elim (Option-cases (env.parse_request msg)) [
    | inl nonsense ↦ rw (nonsense, on_message) (silent refl)
    | inr (GrinboxRequest.challenge, e) ↦ rw (e, on_message) (silent refl)
    | inr (GrinboxRequest.subscribe address signature, e) ↦
        elim (Outcome-cases (env.check_signature address challenge_raw signature)) [
          | inl (_, good) ↦
              rw (e, on_message) (rw (good, subscribe) (add_subscription-Turns s address t))
          | inr (inl (f, bad)) ↦ rw (e, on_message) (rw (bad, subscribe) (silent refl))
          | inr (inr crash) ↦ rw (e, on_message) (rw (crash, subscribe) (silent refl))
        ]
    | inr (GrinboxRequest.post_slate from to str signature seconds, e) ↦
        rw (e, on_message) (post_slate-Turns s from to str signature seconds t)
    | inr (GrinboxRequest.unsubscribe address, e) ↦
        rw (e, on_message) (unsubscribe-Turns s address t)
  ]
