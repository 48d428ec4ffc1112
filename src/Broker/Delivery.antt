-- ===== src/Broker/Delivery.antt =====
-- `BrokerSession::on_message` of src/broker/rabbit_broker.rs: which consumer a message reaches.
use grinbox.Prelude.{
  ℕ, ◌+◌, ◌<◌, ◌^◌, ◌≡◌, refl, sym, ap, ◌∙◌, ◌++◌, [], ◌∷◌, if◌then◌else◌, append-nil, false, Bool,
  true, none, some, List, arith, Option-cases, inl, inr,
}
use grinbox.Prelude.Text.{Text, codes, text_eq_iff}
use grinbox.Prelude.Text.Utf8.{valid_utf8}
use grinbox.Prelude.Assoc.{lookup}
use grinbox.Stomp.Header.{get}
use grinbox.Stomp.Header.Names.{StandardHeader, standard}
use grinbox.Stomp.Header.Values.{from_str}
use grinbox.Stomp.Frame.{Frame}
use grinbox.Stomp.Session.Subscriptions.{subscriptions_of, next_of}
use grinbox.Stomp.Builders.Subscribe.{subscription_id}
use grinbox.Broker.Consumers.{
  Consumer, BrokerSession, returned, deliver, consumer_for, on_message, subscribe_id, add_consumer,
  start_subscription, drop_consumer_of, drop_subscription, unsubscribe_by_subject,
}
use grinbox.Broker.Protocol.{BrokerResponse}
use grinbox.Broker.Consistent.{HasDestination, IsConsistent, Holds, unsubscribe_by_subject-IsFreed}
use grinbox.Broker.Unsubscribing.{lookup-unsubscribe_by_subject}
use grinbox.Broker.Subscribing.{
  IsAvailable, subscribed, subscribe_id-IsConsistent, lookup-subscribe_id,
}

-- The frame is a message for a subscription.
abbrev pub IsFor : Frame → Text → Type 0
IsFor frame sid = get frame.headers (standard StandardHeader.subscription) ≡ some sid

-- The subscription of a consumer whose subject is unsubscribed names no consumer any more.
unlisted :
    (b : BrokerSession) (subject i : Text) (c : Consumer)
    → IsConsistent b
    → Holds b subject i c
    → lookup c.subscription_id (unsubscribe_by_subject b subject).subscription_id_to_consumer_id
      ≡ none
unlisted b subject i c inv h =
    let b' = unsubscribe_by_subject b subject in
    let freed = unsubscribe_by_subject-IsFreed b subject inv in
    elim (Option-cases (lookup c.subscription_id b'.subscription_id_to_consumer_id)) [
      | inl missing ↦ missing
      | inr (j, listed) ↦ elim (Option-cases (lookup j b'.consumers)) [
        | inl gone ↦
            absurd (ground (arith, (freed.consistent.ids.at c.subscription_id j).0 listed, gone))
        | inr (d, found) ↦ absurd (
            ground (
              arith,
              found,
              (freed.consistent.ids.at c.subscription_id j).0 listed,
              freed.others j d found,
              (inv.ids.at c.subscription_id j).1,
              (inv.ids.at c.subscription_id i).1,
              h.found,
              h.about,
              lookup-unsubscribe_by_subject b subject i inv,
              text_eq_iff c.subject subject,
            ))
      ]
    ]

-- A channel whose receiver lives gets the response behind all others, another gets nothing.
deliver_lem :
    (lives : Bool) (b : BrokerSession) (log : List (ℕ × BrokerResponse)) (sender : ℕ)
    (response : BrokerResponse)
    → b.delivered ≡ log
    → deliver lives b sender response
      ≡ record b { delivered = log ++ (if lives then (sender, response) ∷ [] else []) }
unfolding deliver
deliver_lem true b log sender response e = rw (sym e)
deliver_lem false b log sender response e =
    ap (λ l. record b { delivered = l }) (sym (append-nil b.delivered) ∙ ap (λ l. l ++ []) e)

module _ (graphemes : Text → List Text) where
  delivered-subscribe_id :
      (b : BrokerSession) (id subject : Text) (sender : ℕ)
      → (subscribe_id graphemes b id subject sender).delivered ≡ b.delivered
  unfolding subscribe_id add_consumer start_subscription unsubscribe_by_subject drop_consumer_of
      drop_subscription
  delivered-subscribe_id b id subject sender = ground arith

  consumer_for_listed :
      (b : BrokerSession) (frame : Frame) (i sid : Text)
      → IsFor frame sid
      → lookup sid b.subscription_id_to_consumer_id ≡ some i
      → consumer_for graphemes b frame ≡ lookup i b.consumers
  unfolding consumer_for
  consumer_for_listed b frame i sid e f = rw (e, consumer_for) (rw f refl)

  consumer_for_unlisted :
      (b : BrokerSession) (frame : Frame) (sid : Text)
      → IsFor frame sid
      → lookup sid b.subscription_id_to_consumer_id ≡ none
      → consumer_for graphemes b frame ≡ none
  unfolding consumer_for
  consumer_for_unlisted b frame sid e f = rw (e, consumer_for) (rw f refl)

  -- In consistent tables, the consumer that a frame is handed to is one whose own subscription the
  -- frame names, and the session has that subscription for the consumer's subject.
  pub consumer_for-HasDestination :
      (b : BrokerSession) (frame : Frame) (c : Consumer)
      → IsConsistent b
      → consumer_for graphemes b frame ≡ some c
      → IsFor frame c.subscription_id
        × HasDestination (lookup c.subscription_id (subscriptions_of b.session)) c.subject
  unfolding consumer_for
  consumer_for-HasDestination b frame c inv e =
      elim (Option-cases (get frame.headers (standard StandardHeader.subscription))) [
        | inl missing ↦ absurd (ground (arith, missing, e))
        | inr (sid, is) ↦ elim (Option-cases (lookup sid b.subscription_id_to_consumer_id)) [
          | inl missing ↦ absurd (ground (arith, is, missing, e))
          | inr (i, listed) ↦
              let found : lookup i b.consumers ≡ some c = ground (arith, is, listed, e) in
              (ground (arith, is, found, (inv.ids.at sid i).0 listed), inv.known i c found)
        ]
      ]

  module _ (is_open : ℕ → Bool) where
    on_message_unlisted :
        (b : BrokerSession) (frame : Frame)
        → consumer_for graphemes b frame ≡ none
        → on_message graphemes is_open b frame ≡ returned b
    unfolding on_message
    on_message_unlisted b frame e = rw (e, on_message) refl

    on_message_found :
        (b : BrokerSession) (frame : Frame) (c : Consumer) (reply_to : Text)
        → consumer_for graphemes b frame ≡ some c
        → get frame.headers (from_str graphemes (codes "grinbox-reply-to")) ≡ some reply_to
        → valid_utf8 frame.body ≡ true
        → on_message graphemes is_open b frame
          ≡ returned (
              deliver
                (is_open c.sender)
                b
                c.sender
                (record { subject = c.subject; payload = frame.body; reply_to = reply_to }))
    unfolding on_message
    on_message_found b frame c reply_to e f g = rw (e, on_message) (rw f (rw g refl))

    -- From consistent tables and with less than 2^32 - 1 subscription ids given out, after
    -- `subscribe` of a subject by an id that has no other subject, a message frame with the new
    -- subscription's id, a grinbox-reply-to header and a UTF-8 body adds exactly one response to
    -- what was delivered before, for the subscriber's channel and with the subject, the body and
    -- the reply-to value, when the channel's receiver lives, and none when it does not; all else
    -- stays as `subscribe` has left it.
    pub on_message-subscribe_id :
        (b : BrokerSession) (id subject reply_to : Text) (sender : ℕ) (frame : Frame)
        → IsConsistent b
        → IsAvailable graphemes b id subject
        → next_of b.session + 1 < 2 ^ 32
        → IsFor frame (subscription_id (next_of b.session))
        → get frame.headers (from_str graphemes (codes "grinbox-reply-to")) ≡ some reply_to
        → valid_utf8 frame.body ≡ true
        → on_message graphemes is_open (subscribe_id graphemes b id subject sender) frame
          ≡ returned (record (subscribe_id graphemes b id subject sender) {
            delivered =
                b.delivered
                ++ (if is_open sender
                    then (
                      sender,
                      record { subject = subject; payload = frame.body; reply_to = reply_to },
                    )
                      ∷ []
                    else []);
          })
    on_message-subscribe_id b id subject reply_to sender frame inv available room is f g =
        let b' = subscribe_id graphemes b id subject sender in
        let sid = subscription_id (next_of b.session) in
        let consistent =
          subscribe_id-IsConsistent graphemes b id subject sender inv available room in
        let here : lookup id b'.consumers ≡ some (subscribed graphemes b subject sender) =
          ground
            (arith, lookup-subscribe_id graphemes b id subject id sender inv, text_eq_iff id id) in
        let listed = (consistent.ids.at sid id).1 (ground (arith, here)) in
        on_message_found b' frame (subscribed graphemes b subject sender) reply_to
          (ground (arith, consumer_for_listed b' frame id sid is listed, here)) f g
        ∙ ap returned (
            deliver_lem (is_open sender) b' b.delivered sender _
              (delivered-subscribe_id b id subject sender))

    -- From consistent tables, after a subject is unsubscribed a message frame for the subscription
    -- that its consumer had is delivered to nobody and changes nothing.
    pub on_message-unsubscribe_by_subject :
        (b : BrokerSession) (subject i : Text) (c : Consumer) (frame : Frame)
        → IsConsistent b
        → Holds b subject i c
        → IsFor frame c.subscription_id
        → on_message graphemes is_open (unsubscribe_by_subject b subject) frame
          ≡ returned (unsubscribe_by_subject b subject)
    on_message-unsubscribe_by_subject b subject i c frame inv h is =
        on_message_unlisted (unsubscribe_by_subject b subject) frame (
          consumer_for_unlisted (unsubscribe_by_subject b subject) frame c.subscription_id is
            (unlisted b subject i c inv h))
