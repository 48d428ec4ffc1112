-- ===== src/Broker/Subscribing.antt =====
-- `BrokerSession::subscribe` of src/broker/rabbit_broker.rs.
use grinbox.Prelude.{
  ℕ, ◌+◌, ◌<◌, ◌^◌, ◌≡◌, ◌≢◌, refl, sym, ◌∙◌, none, some, List, arith, Option-cases, inl, inr,
  if◌then◌else◌,
}
use grinbox.Prelude.Text.{Text, text_eq, text_eq_iff}
use grinbox.Prelude.Assoc.{lookup, insert, lookup-insert, lookup-insert-some}
use grinbox.Stomp.Session.{Session, Transport}
use grinbox.Stomp.Session.Subscriptions.{
  subscriptions_of, next_of, subscription_id_injective, start-id, next-start, lookup-start,
}
use grinbox.Stomp.Builders.Subscribe.{subscription_id, create}
use grinbox.Stomp.Builders.Subscribe as Subscribe
use grinbox.Broker.Tables.{IsInverse-insert}
use grinbox.Broker.Consumers.{
  Consumer, BrokerSession, unsubscribe_by_subject, start_subscription, add_consumer, subscribe_id,
  broker_session,
}
use grinbox.Broker.Consistent.{
  HasDestination, IsConsistent, IsFreed, unsubscribe_by_subject-IsFreed,
}
use grinbox.Broker.Unsubscribing.{without_subject, lookup-unsubscribe_by_subject}

-- A subscription id that the session gives out next names no consumer.
fresh_id :
    (b : BrokerSession)
    → IsConsistent b
    → lookup (subscription_id (next_of b.session)) b.subscription_id_to_consumer_id ≡ none
fresh_id b inv =
    elim (Option-cases
      (lookup (subscription_id (next_of b.session)) b.subscription_id_to_consumer_id)) [
        | inl free ↦ free
        | inr (i, taken) ↦ elim (Option-cases (lookup i b.consumers)) [
          | inl missing ↦
              absurd (ground (arith, (inv.ids.at (subscription_id (next_of b.session)) i).0 taken))
          | inr (c, found) ↦
              let (n, lt, e) = inv.issued i c found in
              absurd (
                omega (
                  arith,
                  lt,
                  subscription_id_injective n (next_of b.session) (
                      ground
                        (arith, e, (inv.ids.at (subscription_id (next_of b.session)) i).0 taken)),
                ))
        ]
      ]

module _ (graphemes : Text → List Text) where
  module _ (s : Session) (subject : Text) where
    start_subscription-id : (start_subscription graphemes s subject).0 ≡ subscription_id (next_of s)
    unfolding start_subscription Subscribe.with_header Subscribe.with_ack_mode
        Subscribe.subscription
    start_subscription-id = start-id _

    next-start_subscription :
        next_of s + 1 < 2 ^ 32 → next_of (start_subscription graphemes s subject).1 ≡ next_of s + 1
    unfolding start_subscription Subscribe.with_header Subscribe.with_ack_mode
        Subscribe.subscription
    next-start_subscription h = next-start _ ∙ omega arith

    known_new :
        HasDestination
          (lookup
            (subscription_id (next_of s))
            (subscriptions_of (start_subscription graphemes s subject).1))
          subject
    unfolding start_subscription Subscribe.with_header Subscribe.with_ack_mode
        Subscribe.subscription
    known_new = rw lookup-start (
        rw ((text_eq_iff (subscription_id (next_of s)) (subscription_id (next_of s))).1 refl)
          (unfold create in refl))

    known_old :
        (k : Text)
        → k ≢ subscription_id (next_of s)
        → lookup k (subscriptions_of (start_subscription graphemes s subject).1)
          ≡ lookup k (subscriptions_of s)
    unfolding start_subscription Subscribe.with_header Subscribe.with_ack_mode
        Subscribe.subscription
    known_old k h = rw lookup-start (ground (arith, text_eq_iff (subscription_id (next_of s)) k))

  -- The consumer that `subscribe` adds.
  abbrev pub subscribed : BrokerSession → Text → ℕ → Consumer
  subscribed b subject sender = record {
    subject = subject;
    subscription_id = subscription_id (next_of b.session);
    sender = sender;
  }

  -- Adding a consumer with an id that has none and a subject that is free, when the session has
  -- started the subscription.
  module _ (b : BrokerSession) (id subject : Text) (sender : ℕ) (sid : Text) (s : Session)
      (inv : IsConsistent b) (no_consumer : lookup id b.consumers ≡ none)
      (free : lookup subject b.subject_to_consumer_id ≡ none)
      (given : sid ≡ subscription_id (next_of b.session)) (next : next_of s ≡ next_of b.session + 1)
      (new : HasDestination (lookup sid (subscriptions_of s)) subject)
      (old : (k : Text)
        → k ≢ sid
        → lookup k (subscriptions_of s) ≡ lookup k (subscriptions_of b.session)) where
    abbrev consumer : Consumer
    consumer = record { subject = subject; subscription_id = sid; sender = sender }

    other_sid : (i : Text) (c : Consumer) → lookup i b.consumers ≡ some c → c.subscription_id ≢ sid
    other_sid i c e h =
        ground (arith, fresh_id b inv, given, (inv.ids.at sid i).1 (ground (arith, e, h)))

    known_added :
        (i : Text) (c : Consumer)
        → lookup i (insert id consumer b.consumers) ≡ some c
        → HasDestination (lookup c.subscription_id (subscriptions_of s)) c.subject
    known_added i c e = elim (lookup-insert-some id i consumer b.consumers c e) [
      | inl (same, is) ↦ rw (← is) new
      | inr (differ, found) ↦ rw (old c.subscription_id (other_sid i c found)) (inv.known i c found)
    ]

    issued_added :
        (i : Text) (c : Consumer)
        → lookup i (insert id consumer b.consumers) ≡ some c
        → (n : ℕ) × (n < next_of s) × (c.subscription_id ≡ subscription_id n)
    issued_added i c e = elim (lookup-insert-some id i consumer b.consumers c e) [
      | inl (same, is) ↦ (next_of b.session, omega (arith, next), rw (← is) given)
      | inr (differ, found) ↦
          let (n, lt, named) = inv.issued i c found in (n, omega (arith, lt, next), named)
    ]

    added-IsConsistent : IsConsistent (add_consumer graphemes b id subject sender (sid, s))
    unfolding add_consumer
    added-IsConsistent = record {
      subjects =
          IsInverse-insert _ b.subject_to_consumer_id b.consumers id consumer inv.subjects
            no_consumer free;
      ids =
          IsInverse-insert _ b.subscription_id_to_consumer_id b.consumers id consumer inv.ids
            no_consumer (rw given (fresh_id b inv));
      known = known_added;
      issued = issued_added;
    }

  -- A consumer id that has no subscription to another subject.
  abbrev pub IsAvailable : BrokerSession → Text → Text → Type 0
  IsAvailable b id subject = (c : Consumer) → lookup id b.consumers ≡ some c → c.subject ≡ subject

  no_consumer_left :
      (b b' : BrokerSession) (id subject : Text)
      → IsAvailable b id subject
      → IsFreed b b' subject
      → lookup id b'.consumers ≡ none
  no_consumer_left b b' id subject available freed = elim (Option-cases (lookup id b'.consumers)) [
    | inl missing ↦ missing
    | inr (d, found) ↦ absurd (
        ground (
          arith,
          available d (freed.others id d found),
          (freed.consistent.subjects.at subject id).1,
          freed.free,
        ))
  ]

  -- `BrokerSession::subscribe` keeps the three tables inverse to one another and every consumer's
  -- subscription known to the session for its subject, if the consumer id has no other subject and
  -- the counter of subscription ids does not wrap.
  pub subscribe_id-IsConsistent :
      (b : BrokerSession) (id subject : Text) (sender : ℕ)
      → IsConsistent b
      → IsAvailable b id subject
      → next_of b.session + 1 < 2 ^ 32
      → IsConsistent (subscribe_id graphemes b id subject sender)
  unfolding subscribe_id
  subscribe_id-IsConsistent b id subject sender inv available room =
      let b' = unsubscribe_by_subject b subject in
      let freed = unsubscribe_by_subject-IsFreed b subject inv in
      added-IsConsistent b' id subject sender _ _ freed.consistent
        (no_consumer_left b b' id subject available freed) freed.free
        (start_subscription-id b'.session subject)
        (next-start_subscription b'.session subject (omega (arith, freed.next)))
        (rw (start_subscription-id b'.session subject) (known_new b'.session subject))
        (λ k h.
          known_old b'.session subject k
            (λ e. h (e ∙ sym (start_subscription-id b'.session subject))))

  lookup-add_consumer :
      (b : BrokerSession) (id subject j : Text) (sender : ℕ) (p : Text × Session)
      → lookup j (add_consumer graphemes b id subject sender p).consumers ≡ (
          if text_eq id j
          then some (record { subject = subject; subscription_id = p.0; sender = sender })
          else lookup j b.consumers)
  unfolding add_consumer
  lookup-add_consumer b id subject j sender p = lookup-insert id j _ b.consumers

  -- From consistent tables, after `subscribe` the id's consumer has the subject, the channel and
  -- the session's next subscription id; of the other consumers the one that had the subject is gone
  -- and the rest are as before.
  pub lookup-subscribe_id :
      (b : BrokerSession) (id subject j : Text) (sender : ℕ)
      → IsConsistent b
      → lookup j (subscribe_id graphemes b id subject sender).consumers ≡ (
          if text_eq id j
          then some (subscribed b subject sender)
          else without_subject subject (lookup j b.consumers))
  unfolding subscribe_id
  lookup-subscribe_id b id subject j sender inv =
      let b' = unsubscribe_by_subject b subject in
      let p = start_subscription graphemes b'.session subject in
      ground (
        arith,
        lookup-add_consumer b' id subject j sender p,
        start_subscription-id b'.session subject,
        (unsubscribe_by_subject-IsFreed b subject inv).next,
        lookup-unsubscribe_by_subject b subject j inv,
      )

-- The broker's session starts with empty tables.
pub broker_session-IsConsistent :
    (username password : Text) (io : Transport) (now : ℕ)
    → IsConsistent (broker_session username password io now)
unfolding broker_session lookup
broker_session-IsConsistent username password io now = record {
  subjects = record { at = λ k i. ground arith };
  ids = record { at = λ k i. ground arith };
  known = λ i c e. cc;
  issued = λ i c e. cc;
}
