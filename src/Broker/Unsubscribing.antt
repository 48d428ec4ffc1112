-- ===== src/Broker/Unsubscribing.antt =====
-- `BrokerSession::unsubscribe_by_subject` and `unsubscribe` of src/broker/rabbit_broker.rs.
use grinbox.Prelude.{◌≡◌, refl, Option, none, some, arith, Option-cases, inl, inr, if◌then◌else◌}
use grinbox.Prelude.Text.{Text, text_eq, text_eq_iff}
use grinbox.Prelude.Assoc.{lookup, lookup-remove}
use grinbox.Broker.Consumers.{Consumer, BrokerSession, unsubscribe_by_subject, unsubscribe_id}
use grinbox.Broker.Consistent.{
  IsConsistent, IsFreed, unsubscribe_by_subject-IsFreed, unsubscribe_id-eq-removed, removed,
  removed-IsConsistent,
}

-- Unsubscribing a subject keeps the tables consistent, whether or not a consumer holds the subject.
pub unsubscribe_by_subject-IsConsistent :
    (b : BrokerSession) (subject : Text)
    → IsConsistent b
    → IsConsistent (unsubscribe_by_subject b subject)
unsubscribe_by_subject-IsConsistent b subject inv =
    (unsubscribe_by_subject-IsFreed b subject inv).consistent

-- `BrokerSession::unsubscribe` keeps the tables consistent, whether or not the id has a consumer.
pub unsubscribe_id-IsConsistent :
    (b : BrokerSession) (id : Text) → IsConsistent b → IsConsistent (unsubscribe_id b id)
unsubscribe_id-IsConsistent b id inv =
    rw (unsubscribe_id-eq-removed b id inv)
      (removed-IsConsistent b id (lookup id b.consumers) inv refl)

-- A consumer that does not have the subject.
abbrev pub without_subject : Text → Option Consumer → Option Consumer
without_subject subject none = none
without_subject subject (some c) = if text_eq c.subject subject then none else some c

lookup_freed :
    (b b' : BrokerSession) (subject j : Text) (d : Consumer)
    → IsFreed b b' subject
    → lookup j b.consumers ≡ some d
    → lookup j b'.consumers ≡ (if text_eq d.subject subject then none else some d)
lookup_freed b b' subject j d freed e = elim (Option-cases (lookup j b'.consumers)) [
  | inl missing ↦ ground (arith, text_eq_iff d.subject subject, freed.kept j d e)
  | inr (d', found) ↦ ground (
    arith,
    text_eq_iff d.subject subject,
    freed.others j d' found,
    (freed.consistent.subjects.at subject j).1,
    freed.free,
  )
]

-- From consistent tables, unsubscribing a subject removes the consumer that has it and leaves every
-- other consumer as it was.
pub lookup-unsubscribe_by_subject :
    (b : BrokerSession) (subject j : Text)
    → IsConsistent b
    → lookup j (unsubscribe_by_subject b subject).consumers
      ≡ without_subject subject (lookup j b.consumers)
lookup-unsubscribe_by_subject b subject j inv =
    let freed = unsubscribe_by_subject-IsFreed b subject inv in
    elim (Option-cases (lookup j b.consumers)) [
      | inr (d, found) ↦ rw found (lookup_freed b _ subject j d freed found)
      | inl missing ↦ elim (Option-cases (lookup j (unsubscribe_by_subject b subject).consumers)) [
        | inl gone ↦ rw missing gone
        | inr (d, found) ↦ absurd (ground (arith, missing, freed.others j d found))
      ]
    ]

-- From consistent tables, unsubscribing an id removes its consumer and leaves every other consumer
-- as it was.
pub lookup-unsubscribe_id :
    (b : BrokerSession) (id j : Text)
    → IsConsistent b
    → lookup j (unsubscribe_id b id).consumers
      ≡ (if text_eq id j then none else lookup j b.consumers)
lookup-unsubscribe_id b id j inv =
    rw (unsubscribe_id-eq-removed b id inv) (lookup-removed (lookup id b.consumers) refl)
  where
    lookup-removed :
        (o : Option Consumer)
        → lookup id b.consumers ≡ o
        → lookup j (removed b id o).consumers
          ≡ (if text_eq id j then none else lookup j b.consumers)
    lookup-removed none e = ground (arith, text_eq_iff id j)
    lookup-removed (some c) e = lookup-remove id j b.consumers
