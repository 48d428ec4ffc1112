-- ===== src/Relay/Orderly.antt =====
-- What the connections of src/server/mod.rs send to the broker's thread is an orderly history.
use mathlib.Core.List.{reverse}
use grinbox.Prelude.{
  ℕ, ◌≡◌, ◌≢◌, refl, sym, ap, subst, ◌∙◌, Bool, false, not, ◌==◌, ◌≤◌, append-nil, Bool-cases, none,
  some, List, [], ◌∷◌, ◌++◌, arith, length, drop, drop-append, inl, inr, ◌⊎◌,
}
use grinbox.Prelude.Text.{Text, text_eq, text_eq_iff}
use grinbox.Prelude.Assoc.{
  Assoc, lookup, lookup-insert, lookup-remove, lookup-insert-some, lookup-remove-some,
}
use grinbox.Broker.Protocol.{BrokerRequest}
use grinbox.Server.Environment.{Environment}
use grinbox.Server.Handler.{AsyncServer, new, send_broker, on_message, drop_loop, drop_server}
use grinbox.Server.Subscriptions.{IsSettled, on_message-IsSettled}
use grinbox.Relay.Steps.{Turns, silent, posts, begins, ends, on_message-Turns}
use grinbox.Relay.History.{is_subscribed, IsOrderly}
use grinbox.Relay.Connections.{carry, IsUnused, Sends, start, connecting, receiving, ending}

carry_of :
    (s s' : AsyncServer) (rs h : List BrokerRequest)
    → s'.requests ≡ s.requests ++ rs
    → carry s s' h ≡ reverse rs ++ h
carry_of s s' rs h e =
    ap (λ l. reverse l ++ h) (ap (drop (length s.requests)) e ∙ drop-append s.requests rs)

abbrev pub has_one : AsyncServer → Bool
has_one s = not (length s.subscriptions == 0)

-- What a step of the connection `id` leaves.
abbrev IsTurned : Text → List BrokerRequest → List BrokerRequest → AsyncServer → Type 0
IsTurned id h h' s' =
    IsOrderly h'
    × (is_subscribed id h' ≡ has_one s')
    × (s'.id ≡ id)
    × ((j : Text) → id ≢ j → is_subscribed j h' ≡ is_subscribed j h)

turned :
    (id : Text) (s s' : AsyncServer) (h : List BrokerRequest)
    → s.id ≡ id
    → is_subscribed id h ≡ has_one s
    → IsOrderly h
    → Turns s s'
    → IsTurned id h (carry s s' h) s'
turned id s s' h own flag orderly (silent e) =
    rw (carry_of s s' [] h (ap (λ x. x.requests) e ∙ sym (append-nil s.requests)))
      (orderly, flag ∙ ap has_one (sym e), ap (λ x. x.id) e ∙ own, λ j ne. refl)
turned id s s' h own flag orderly (posts subject payload reply_to seconds e subs same) =
    rw (carry_of s s' (BrokerRequest.post_message subject payload reply_to seconds ∷ []) h e)
      (orderly, flag ∙ ap (λ m. not (length m == 0)) (sym subs), same ∙ own, λ j ne. refl)
turned id s s' h own flag orderly (begins address channel e before after same) =
    rw (carry_of s s' (BrokerRequest.subscribe s.id address channel ∷ []) h e) (
      (rw own (ground (arith, flag, before)), orderly),
      ground (arith, text_eq_iff s.id id, own, after),
      same ∙ own,
      λ j ne. ground (arith, text_eq_iff s.id j, own, ne),
    )
turned id s s' h own flag orderly (ends e before after same) =
    rw (carry_of s s' (BrokerRequest.unsubscribe s.id ∷ []) h e) (
      orderly,
      ground (arith, text_eq_iff s.id id, own, after),
      same ∙ own,
      λ j ne. ground (arith, text_eq_iff s.id j, own, ne),
    )

-- What a connection that ends leaves.
dropped :
    (s : AsyncServer)
    → IsSettled s
    → (((drop_server s).requests ≡ s.requests ++ []) × (length s.subscriptions ≡ 0))
      ⊎ ((drop_server s).requests ≡ s.requests ++ BrokerRequest.unsubscribe s.id ∷ [])
unfolding drop_server drop_loop send_broker
dropped s t = go s.subscriptions t.bounded
  where
    go :
        (m : Assoc (Unit {0}))
        → length m ≤ 1
        → (((drop_loop s m).requests ≡ s.requests ++ []) × (length m ≡ 0))
          ⊎ ((drop_loop s m).requests ≡ s.requests ++ BrokerRequest.unsubscribe s.id ∷ [])
    go [] l = inl (sym (append-nil s.requests), refl)
    go (x ∷ []) l = inr (ground (arith, t.broker))
    go (x ∷ y ∷ m) l = absurd (omega (arith, l))

unused-is_subscribed :
    (id : Text) (h : List BrokerRequest) → IsUnused id h → is_subscribed id h ≡ false
unused-is_subscribed id [] u = refl
unused-is_subscribed id (BrokerRequest.subscribe i a c ∷ h) u =
    ground (arith, text_eq_iff i id, u.0, unused-is_subscribed id h u.1)
unused-is_subscribed id (BrokerRequest.unsubscribe i ∷ h) u =
    ground (arith, text_eq_iff i id, u.0, unused-is_subscribed id h u.1)
unused-is_subscribed id (BrokerRequest.post_message s p r n ∷ h) u = unused-is_subscribed id h u

-- Every connection's subscription is the one that its identifier has in the history.
abbrev pub IsMatchedAt : List BrokerRequest → Text → AsyncServer → Type 0
IsMatchedAt h id s = (s.id ≡ id) × IsSettled s × (is_subscribed id h ≡ has_one s)

abbrev pub IsMatched : Assoc AsyncServer → List BrokerRequest → Type 0
IsMatched cs h = (id : Text) (s : AsyncServer) → lookup id cs ≡ some s → IsMatchedAt h id s

ended_other :
    (s : AsyncServer) (id j : Text) (h : List BrokerRequest)
    → s.id ≡ id
    → id ≢ j
    → is_subscribed j (BrokerRequest.unsubscribe s.id ∷ h) ≡ is_subscribed j h
ended_other s id j h own ne = ground (arith, text_eq_iff s.id j, own, ne)

new-IsSettled :
    (id domain : Text) (port : ℕ) (unsecure : Bool) (channel : ℕ)
    → IsSettled (new id domain port unsecure channel)
new-IsSettled id domain port unsecure channel = record {
  broker = refl;
  handlers = refl;
  bounded = omega arith;
  balanced = omega arith;
}

pub Sends-IsMatched :
    (env : Environment) {cs : Assoc AsyncServer} {h : List BrokerRequest}
    → Sends env cs h
    → IsOrderly h × IsMatched cs h
unfolding lookup
Sends-IsMatched env start = (tt, λ id s e. cc e)
Sends-IsMatched env (connecting {cs = cs} {h = h} id domain port unsecure channel run unused free) =
    let (o, matched) = Sends-IsMatched env run in
    (
      o,
      λ j s e. elim (lookup-insert-some id j (new id domain port unsecure channel) cs s e) [
        | inl (here, same) ↦ subst (IsMatchedAt h j) same (
          here,
          new-IsSettled id domain port unsecure channel,
          ap (λ i. is_subscribed i h) (sym here) ∙ unused-is_subscribed id h unused,
        )
        | inr (other, found) ↦ matched j s found
      ],
    )
Sends-IsMatched env (receiving {cs = cs} {h = h} id msg s run found) =
    let (o, matched) = Sends-IsMatched env run in
    let (own, settled, flag) = matched id s found in
    let (o', flag', own', rest) =
      turned id s (on_message env s msg).1 h own flag o (on_message-Turns env s msg settled) in
    (
      o',
      λ j s' e. elim (lookup-insert-some id j (on_message env s msg).1 cs s' e) [
        | inl (here, same) ↦ subst (IsMatchedAt (carry s (on_message env s msg).1 h) j) same (
          own' ∙ here,
          on_message-IsSettled env s msg settled,
          ap (λ i. is_subscribed i (carry s (on_message env s msg).1 h)) (sym here) ∙ flag',
        )
        | inr (other, at_j) ↦
            let (own_j, settled_j, flag_j) = matched j s' at_j in
            (own_j, settled_j, rest j other ∙ flag_j)
      ],
    )
Sends-IsMatched env (ending {cs = cs} {h = h} id s run found) =
    let (o, matched) = Sends-IsMatched env run in
    let (own, settled, flag) = matched id s found in
    elim (dropped s settled) [
      | inl (nothing, _) ↦
          rw (carry_of s (drop_server s) [] h nothing)
            (o, λ j s' e. matched j s' (lookup-remove-some id j cs s' e).1)
      | inr last ↦ rw (carry_of s (drop_server s) (BrokerRequest.unsubscribe s.id ∷ []) h last) (
        o,
        λ j s' e.
            let (ne, at_j) = lookup-remove-some id j cs s' e in
            let (own_j, settled_j, flag_j) = matched j s' at_j in
            (own_j, settled_j, ended_other s id j h own ne ∙ flag_j),
      )
    ]

ended_own :
    (s : AsyncServer) (id : Text) (h : List BrokerRequest)
    → s.id ≡ id
    → is_subscribed id (BrokerRequest.unsubscribe s.id ∷ h) ≡ false
ended_own s id h own = ground (arith, text_eq_iff s.id id, own)

-- An identifier without a connection has no subscription.
pub unconnected-is_subscribed :
    (env : Environment) {cs : Assoc AsyncServer} {h : List BrokerRequest}
    → Sends env cs h
    → (id : Text) → lookup id cs ≡ none
    → is_subscribed id h ≡ false
unconnected-is_subscribed env start id e = refl
unconnected-is_subscribed env (connecting {cs = cs} i domain port unsecure channel run unused free)
      id e =
    unconnected-is_subscribed env run id
      (ground (arith, e, lookup-insert i id (new i domain port unsecure channel) cs))
unconnected-is_subscribed env (receiving {cs = cs} {h = h} i msg s run found) id e =
    let (o, matched) = Sends-IsMatched env run in
    let (own, settled, flag) = matched i s found in
    let (_, _, _, rest) =
      turned i s (on_message env s msg).1 h own flag o (on_message-Turns env s msg settled) in
    let apart : (text_eq i id ≡ false) × (lookup id cs ≡ none) =
      ground (arith, e, lookup-insert i id (on_message env s msg).1 cs) in
    rest id (λ same. ground (arith, apart, text_eq_iff i id, same))
    ∙ unconnected-is_subscribed env run id apart.1
unconnected-is_subscribed env (ending {cs = cs} {h = h} i s run found) id e =
    let (o, matched) = Sends-IsMatched env run in
    let (own, settled, flag) = matched i s found in
    elim (Bool-cases (text_eq i id)) [
      | inl here ↦
          let same : i ≡ id = (text_eq_iff i id).0 here in
          elim (dropped s settled) [
            | inl (nothing, none_there) ↦
                rw (carry_of s (drop_server s) [] h nothing) (
                  ap (λ j. is_subscribed j h) (sym same) ∙ flag ∙ ap (λ n. not (n == 0)) none_there)
            | inr last ↦
                rw (carry_of s (drop_server s) (BrokerRequest.unsubscribe s.id ∷ []) h last)
                  (ended_own s id h (own ∙ same))
          ]
      | inr there ↦
          let before : lookup id cs ≡ none = ground (arith, e, lookup-remove i id cs, there) in
          let ne : i ≢ id = λ same. ground (arith, there, text_eq_iff i id, same) in
          elim (dropped s settled) [
            | inl (nothing, _) ↦
                rw (carry_of s (drop_server s) [] h nothing)
                  (unconnected-is_subscribed env run id before)
            | inr last ↦
                rw (carry_of s (drop_server s) (BrokerRequest.unsubscribe s.id ∷ []) h last)
                  (ended_other s i id h own ne ∙ unconnected-is_subscribed env run id before)
          ]
    ]
