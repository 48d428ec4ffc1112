-- ===== src/Broker/Consistent.antt =====
-- The tables of `BrokerSession` in src/broker/rabbit_broker.rs agree with one another and with the
-- subscriptions of its session.
use grinbox.Prelude.{
  ℕ, ◌<◌, ◌≡◌, ◌≢◌, refl, ap, Option, none, some, false, arith, Option-cases, inl, inr,
}
use grinbox.Prelude.Text.{Text, text_eq, text_eq_iff}
use grinbox.Prelude.Assoc.{lookup, remove, lookup-remove, lookup-remove-some}
use grinbox.Stomp.Session.{Session, Subscription, Transport}
use grinbox.Stomp.Session as Sessions
use grinbox.Stomp.Session.Subscriptions.{
  subscriptions_of, next_of, lookup-unsubscribe, next-unsubscribe,
}
use grinbox.Stomp.Builders.Subscribe.{subscription_id}
use grinbox.Broker.Tables.{key_of, IsInverse, IsInverse-remove}
use grinbox.Broker.Consumers.{
  Consumer, BrokerSession, drop_subscription, drop_consumer_of, unsubscribe_by_subject,
  drop_subject_of, unsubscribe_id,
}

-- The session knows the subscription, for this subject.
abbrev pub HasDestination : Option Subscription → Text → Type 0
HasDestination none subject = ⊥
HasDestination (some sub) subject = sub.destination ≡ subject

-- Subjects and subscription ids name consumers one to one; every consumer's subscription is known
-- to the session; and every subscription id in use has been given out.
pub record IsConsistent (b : BrokerSession) : Type 0 where
  pub subjects : IsInverse (λ (c : Consumer). c.subject) b.subject_to_consumer_id b.consumers
  pub ids :
      IsInverse (λ (c : Consumer). c.subscription_id) b.subscription_id_to_consumer_id b.consumers
  pub known :
      (i : Text) (c : Consumer)
      → lookup i b.consumers ≡ some c
      → HasDestination (lookup c.subscription_id (subscriptions_of b.session)) c.subject
  pub issued :
      (i : Text) (c : Consumer)
      → lookup i b.consumers ≡ some c
      → (n : ℕ) × (n < next_of b.session) × (c.subscription_id ≡ subscription_id n)

-- The state when a consumer and all that names it are gone.
abbrev pub without_consumer : BrokerSession → Text → Consumer → BrokerSession
without_consumer b i c = record b {
  consumers = remove i b.consumers;
  subject_to_consumer_id = remove c.subject b.subject_to_consumer_id;
  subscription_id_to_consumer_id = remove c.subscription_id b.subscription_id_to_consumer_id;
  session = Sessions.unsubscribe b.session c.subscription_id;
}

-- Two consumers have different subscription ids.
other_id :
    (b : BrokerSession) (i j : Text) (c d : Consumer)
    → IsConsistent b
    → lookup i b.consumers ≡ some c
    → lookup j b.consumers ≡ some d
    → i ≢ j
    → text_eq c.subscription_id d.subscription_id ≡ false
other_id b i j c d inv e f h = ground (
  arith,
  inv.ids.at c.subscription_id i,
  inv.ids.at d.subscription_id j,
  text_eq_iff c.subscription_id d.subscription_id,
)

without_consumer-IsConsistent :
    (b : BrokerSession) (i : Text) (c : Consumer)
    → IsConsistent b
    → lookup i b.consumers ≡ some c
    → IsConsistent (without_consumer b i c)
without_consumer-IsConsistent b i c inv e = record {
  subjects = IsInverse-remove _ b.subject_to_consumer_id b.consumers i c inv.subjects e;
  ids = IsInverse-remove _ b.subscription_id_to_consumer_id b.consumers i c inv.ids e;
  known = λ j d f.
      let (other, g) = lookup-remove-some i j b.consumers d f in
      rw (lookup-unsubscribe, other_id b i j c d inv e g other) (inv.known j d g);
  issued = λ j d f. rw next-unsubscribe (inv.issued j d (lookup-remove-some i j b.consumers d f).1);
}

-- What is left of the tables when the consumer of an id, if there is one, is removed.
abbrev pub removed : BrokerSession → Text → Option Consumer → BrokerSession
removed b i none = b
removed b i (some c) = without_consumer b i c

pub removed-IsConsistent :
    (b : BrokerSession) (i : Text) (o : Option Consumer)
    → IsConsistent b
    → lookup i b.consumers ≡ o
    → IsConsistent (removed b i o)
removed-IsConsistent b i none inv e = inv
removed-IsConsistent b i (some c) inv e = without_consumer-IsConsistent b i c inv e

-- Unsubscribing an id removes its consumer and all that names it.
pub unsubscribe_id-eq-removed :
    (b : BrokerSession) (id : Text)
    → IsConsistent b
    → unsubscribe_id b id ≡ removed b id (lookup id b.consumers)
unfolding unsubscribe_id
unsubscribe_id-eq-removed b id inv = elim (Option-cases (lookup id b.consumers)) [
  | inl missing ↦ rw (missing, unsubscribe_id)
  | inr (c, found) ↦
      rw (found, unsubscribe_id)
        (rw ((inv.subjects.at c.subject id).1 (ap (key_of (λ (d : Consumer). d.subject)) found))
          (unfold drop_subject_of drop_subscription in refl))
]

-- The consumer that holds a subject.
pub record Holds (b : BrokerSession) (subject i : Text) (c : Consumer) : Type 0 where
  pub listed : lookup subject b.subject_to_consumer_id ≡ some i
  pub found : lookup i b.consumers ≡ some c
  pub about : c.subject ≡ subject

pub holder :
    (b : BrokerSession) (subject i : Text)
    → IsConsistent b
    → lookup subject b.subject_to_consumer_id ≡ some i
    → (c : Consumer) × Holds b subject i c
holder b subject i inv e = elim (Option-cases (lookup i b.consumers)) [
  | inl missing ↦ absurd (ground (arith, (inv.subjects.at subject i).0 e))
  | inr (c, found) ↦ (
    c,
    record { listed = e; found = found; about = ground (arith, (inv.subjects.at subject i).0 e) },
  )
]

pub unsubscribe_by_subject-eq-without :
    (b : BrokerSession) (i : Text) (c : Consumer) (subject : Text)
    → Holds b subject i c
    → unsubscribe_by_subject b subject ≡ without_consumer b i c
unfolding unsubscribe_by_subject
unsubscribe_by_subject-eq-without b i c subject h =
    rw (h.listed, unsubscribe_by_subject)
      (rw h.found (rw (← h.about) (unfold drop_consumer_of drop_subscription in refl)))

-- What unsubscribing by subject leaves.
pub record IsFreed (b b' : BrokerSession) (subject : Text) : Type 0 where
  pub consistent : IsConsistent b'
  pub free : lookup subject b'.subject_to_consumer_id ≡ none
  pub others :
      (j : Text) (d : Consumer) → lookup j b'.consumers ≡ some d → lookup j b.consumers ≡ some d
  pub kept :
      (j : Text) (d : Consumer)
      → lookup j b.consumers ≡ some d
      → d.subject ≢ subject
      → lookup j b'.consumers ≡ some d
  pub next : next_of b'.session ≡ next_of b.session

without_consumer-IsFreed :
    (b : BrokerSession) (i : Text) (c : Consumer) (subject : Text)
    → IsConsistent b
    → Holds b subject i c
    → IsFreed b (without_consumer b i c) subject
without_consumer-IsFreed b i c subject inv h = record {
  consistent = without_consumer-IsConsistent b i c inv h.found;
  free = ground (
    arith,
    lookup-remove c.subject subject b.subject_to_consumer_id,
    text_eq_iff c.subject subject,
    h.about,
  );
  others = λ j d e. (lookup-remove-some i j b.consumers d e).1;
  kept =
      λ j d e n. ground (arith, lookup-remove i j b.consumers, text_eq_iff i j, h.about, h.found);
  next = next-unsubscribe b.session c.subscription_id;
}

pub unsubscribe_by_subject-IsFreed :
    (b : BrokerSession) (subject : Text)
    → IsConsistent b
    → IsFreed b (unsubscribe_by_subject b subject) subject
unfolding unsubscribe_by_subject
unsubscribe_by_subject-IsFreed b subject inv =
    elim (Option-cases (lookup subject b.subject_to_consumer_id)) [
      | inl missing ↦
          rw (missing, unsubscribe_by_subject)
            (record {
              consistent = inv;
              free = missing;
              others = λ j d e. e;
              kept = λ j d e n. e;
              next = refl;
            })
      | inr (i, listed) ↦
          let (c, h) = holder b subject i inv listed in
          rw (unsubscribe_by_subject-eq-without b i c subject h)
            (without_consumer-IsFreed b i c subject inv h)
    ]
