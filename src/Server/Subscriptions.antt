-- ===== src/Server/Subscriptions.antt =====
-- The subscriptions of a connection to src/server/mod.rs, against what it has asked of the broker.
use grinbox.Prelude.{
  ℕ, suc, ◌+◌, ◌≤◌, ◌≡◌, refl, true, false, Option, some, List, [], ◌∷◌, ◌++◌, arith, ◌==◌, length,
}
use grinbox.Prelude.Text.{Text}
use grinbox.Prelude.Assoc.{Assoc, lookup, insert, remove}
use grinbox.Broker.Protocol.{BrokerRequest}
use grinbox.Types.Address.{GrinboxAddress}
use grinbox.Server.Environment.{Environment}
use grinbox.Server.Handler.{
  AsyncServer, max_subscriptions, send_broker, send_handler, add_subscription, unsubscribe,
  subscribe, forward, post_checked, post_slate, on_request, on_message, drop_loop, drop_server,
}

-- How many of the requests subscribe, and how many unsubscribe.
abbrev pub subscribes : List BrokerRequest → ℕ
subscribes [] = 0
subscribes (BrokerRequest.subscribe _ _ _ ∷ rs) = suc (subscribes rs)
subscribes (_ ∷ rs) = subscribes rs

abbrev pub unsubscribes : List BrokerRequest → ℕ
unsubscribes [] = 0
unsubscribes (BrokerRequest.unsubscribe _ ∷ rs) = suc (unsubscribes rs)
unsubscribes (_ ∷ rs) = unsubscribes rs

subscribes-append :
    (rs : List BrokerRequest) (r : BrokerRequest)
    → subscribes (rs ++ r ∷ []) ≡ subscribes rs + subscribes (r ∷ [])
subscribes-append [] r = omega arith
subscribes-append (BrokerRequest.subscribe _ _ _ ∷ rs) r = omega (arith, subscribes-append rs r)
subscribes-append (BrokerRequest.unsubscribe _ ∷ rs) r = omega (arith, subscribes-append rs r)
subscribes-append (BrokerRequest.post_message _ _ _ _ ∷ rs) r =
    omega (arith, subscribes-append rs r)

unsubscribes-append :
    (rs : List BrokerRequest) (r : BrokerRequest)
    → unsubscribes (rs ++ r ∷ []) ≡ unsubscribes rs + unsubscribes (r ∷ [])
unsubscribes-append [] r = omega arith
unsubscribes-append (BrokerRequest.subscribe _ _ _ ∷ rs) r = omega (arith, unsubscribes-append rs r)
unsubscribes-append (BrokerRequest.unsubscribe _ ∷ rs) r = omega (arith, unsubscribes-append rs r)
unsubscribes-append (BrokerRequest.post_message _ _ _ _ ∷ rs) r =
    omega (arith, unsubscribes-append rs r)

-- While the broker's thread and the handlers' thread live, a connection has at most one
-- subscription, and it has asked for one more subscription than it has ended exactly when it has it.
pub record IsSettled (s : AsyncServer) : Type 0 where
  pub broker : s.broker_lives ≡ true
  pub handlers : s.handlers_live ≡ true
  pub bounded : length s.subscriptions ≤ 1
  pub balanced : subscribes s.requests ≡ unsubscribes s.requests + length s.subscriptions

pub nil_of_length :
    (m : Assoc (Unit {0})) → length m ≤ 1 → (length m == max_subscriptions) ≡ false → m ≡ []
nil_of_length [] h e = refl
nil_of_length (x ∷ m) h e = absurd (ground (arith, h, e))

pub remove_only :
    (a : Text) (m : Assoc (Unit {0})) (u : Unit {0})
    → length m ≤ 1
    → lookup a m ≡ some u
    → (length m ≡ 1) × (remove a m ≡ [])
unfolding lookup remove
remove_only a [] u h e = cc
remove_only a ((k, v) ∷ []) u h e = ground (arith, e)
remove_only a (x ∷ y ∷ m) u h e = absurd (omega (arith, h))

add_subscription-IsSettled :
    (s : AsyncServer) (address : Text) → IsSettled s → IsSettled (add_subscription s address).1
unfolding add_subscription send_broker send_handler insert remove
add_subscription-IsSettled s address t = ground (
  arith,
  t.broker,
  t.handlers,
  t.bounded,
  t.balanced,
  nil_of_length s.subscriptions t.bounded,
  subscribes-append s.requests (BrokerRequest.subscribe s.id address s.next_channel),
  unsubscribes-append s.requests (BrokerRequest.subscribe s.id address s.next_channel),
)

unsubscribe-IsSettled :
    (s : AsyncServer) (address : Text) → IsSettled s → IsSettled (unsubscribe s address).1
unfolding unsubscribe send_broker
unsubscribe-IsSettled s address t = ground (
  arith,
  t.broker,
  t.handlers,
  t.bounded,
  t.balanced,
  remove_only address s.subscriptions tt t.bounded,
  subscribes-append s.requests (BrokerRequest.unsubscribe s.id),
  unsubscribes-append s.requests (BrokerRequest.unsubscribe s.id),
)

module _ (env : Environment) where
  forward-IsSettled :
      (s : AsyncServer) (from to : GrinboxAddress) (str used signature : Text) (seconds : Option ℕ)
      → IsSettled s
      → IsSettled (forward env s from to str used signature seconds).1
  unfolding forward send_broker
  forward-IsSettled s from to str used signature seconds t =
      let q =
        BrokerRequest.post_message to.public_key
          (env.print_payload (record { str = str; challenge = used; signature = signature }))
          (env.stripped from) seconds in
      ground (
        arith,
        t.broker,
        t.handlers,
        t.bounded,
        t.balanced,
        subscribes-append s.requests q,
        unsubscribes-append s.requests q,
      )

  post_slate-IsSettled :
      (s : AsyncServer) (from to str signature : Text) (seconds : Option ℕ)
      → IsSettled s
      → IsSettled (post_slate env s from to str signature seconds).1
  unfolding post_slate post_checked
  post_slate-IsSettled s from to str signature seconds t = grind (arith, t, forward-IsSettled)

  -- While the broker's and the handlers' threads live, every message of a client keeps the
  -- connection with at most one subscription, and with one more subscribe request than unsubscribe
  -- requests exactly when it has one.
  pub on_message-IsSettled :
      (s : AsyncServer) (msg : Text) → IsSettled s → IsSettled (on_message env s msg).1
  unfolding on_message on_request subscribe
  on_message-IsSettled s msg t =
      grind (arith, t, add_subscription-IsSettled, unsubscribe-IsSettled, post_slate-IsSettled)

sent_broker :
    (s : AsyncServer) (r : BrokerRequest)
    → s.broker_lives ≡ true
    → (send_broker s r).1 ≡ record s { requests = s.requests ++ r ∷ [] }
unfolding send_broker
sent_broker s r h = rw (h, send_broker) refl

drop_loop-balanced :
    (m : Assoc (Unit {0})) (s : AsyncServer)
    → s.broker_lives ≡ true
    → subscribes s.requests ≡ unsubscribes s.requests + length m
    → subscribes (drop_loop s m).requests ≡ unsubscribes (drop_loop s m).requests
unfolding drop_loop
drop_loop-balanced [] s l e = omega (arith, e)
drop_loop-balanced (x ∷ m) s l e =
    let r = BrokerRequest.unsubscribe s.id in
    rw (sent_broker s r l, subscribes, unsubscribes)
      (drop_loop-balanced m (record s { requests = s.requests ++ r ∷ [] }) l
        (omega (arith, e, subscribes-append s.requests r, unsubscribes-append s.requests r)))

-- When a connection with that balance, whose broker's and handlers' threads live, is dropped, it
-- has asked the broker for as many unsubscriptions as subscriptions.
pub drop_server-balanced :
    (s : AsyncServer)
    → IsSettled s
    → subscribes (drop_server s).requests ≡ unsubscribes (drop_server s).requests
unfolding drop_server
drop_server-balanced s t = drop_loop-balanced s.subscriptions s t.broker t.balanced
