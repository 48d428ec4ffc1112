-- ===== src/Stomp/Session/Ending.antt =====
-- Where the loop in `poll` of src/broker/stomp/session.rs stops, and what it has made of the answers
-- of the transport up to there.
use grinbox.Prelude.{
  ℕ, zero, suc, ◌<◌, ◌≡◌, ◌≢◌, refl, sym, ap, ◌∙◌, Option, none, some, arith, length, List, [], ◌∷◌,
  ◌++◌, map, append_assoc, append-nil, All,
}
use grinbox.Prelude.Assoc.{Assoc, lookup}
use grinbox.Stomp.Header.{get}
use grinbox.Stomp.Header.Names.{StandardHeader, standard}
use grinbox.Stomp.Frame.{Command, Frame, Transmission, complete_frame, heart_beat_line}
use grinbox.Stomp.Session.{
  Session, Subscription, SessionEvent, connected, error, message, subscriptionless, unknown,
  disconnected, recv_failed, closed_by_other_side, StreamState, established, failed, FramedPoll,
  item, end, pending, recv_error, on_disconnect,
}
use grinbox.Stomp.Session.Receive.{
  register_rx_heartbeat_timeout, register_tx_heartbeat_timeout, on_recv_data, subscription_of,
  on_message, on_connected_frame_received, on_frame, on_transmission,
}
use grinbox.Stomp.Session.Polling.{
  poll_established, on_polled, poll_by, poll_stream_rounds, poll_stream, poll_loop, pop_poll,
}
use grinbox.Stomp.Session.Rounds.{polls-on_transmission}
use grinbox.Stomp.Session.Kept.{kept-on_transmission}

-- A heart-beat, or a frame that is no RECEIPT, which alone may end a session by itself.
abbrev pub IsPlain : Transmission → Type 0
IsPlain heart_beat_line = Unit
IsPlain (complete_frame f) = f.command ≢ Command.receipt

-- The event that a frame is reported by, with the subscriptions that the session has.
abbrev message_event : Frame → Option Subscription → SessionEvent
message_event f none = subscriptionless f
message_event f (some sub) = message sub.destination sub.ack_mode f

abbrev subscribed_by : Assoc Subscription → Option (List ℕ) → Option Subscription
subscribed_by subs none = none
subscribed_by subs (some id) = lookup id subs

abbrev frame_event : Assoc Subscription → Frame → Command → SessionEvent
frame_event subs f Command.error = error f
frame_event subs f Command.connected = connected
frame_event subs f Command.message =
    message_event f (subscribed_by subs (get f.headers (standard StandardHeader.subscription)))
frame_event subs f _ = unknown f

-- One event for each frame, in their order, and none for a heart-beat.
abbrev pub events_of : Assoc Subscription → List Transmission → List SessionEvent
events_of subs [] = []
events_of subs (heart_beat_line ∷ ts) = events_of subs ts
events_of subs (complete_frame f ∷ ts) = frame_event subs f f.command ∷ events_of subs ts

-- What the answer that ends the loop makes of the stream, and the event that reports it.
abbrev pub stream_behind : FramedPoll → StreamState
stream_behind end = failed
stream_behind (recv_error e) = failed
stream_behind _ = established

abbrev pub last_events : FramedPoll → List SessionEvent
last_events end = disconnected closed_by_other_side ∷ []
last_events (recv_error e) = disconnected (recv_failed e) ∷ []
last_events _ = []

on_recv_data_lem :
    (s : Session)
    → ((on_recv_data s).events ≡ s.events)
      × ((on_recv_data s).stream ≡ s.stream)
      × ((on_recv_data s).state.subscriptions ≡ s.state.subscriptions)
unfolding on_recv_data register_rx_heartbeat_timeout
on_recv_data_lem s = ground arith

on_frame_lem :
    (c : Command) (s : Session) (f : Frame)
    → c ≢ Command.receipt
    → ((on_frame c s f).events ≡ s.events ++ frame_event s.state.subscriptions f c ∷ [])
      × ((on_frame c s f).stream ≡ s.stream)
unfolding on_frame on_message subscription_of on_connected_frame_received
    register_rx_heartbeat_timeout register_tx_heartbeat_timeout
on_frame_lem Command.error s f h = (refl, refl)
on_frame_lem Command.message s f h = ground arith
on_frame_lem Command.receipt s f h = absurd (h refl)
on_frame_lem Command.connected s f h = (refl, refl)
on_frame_lem _ s f h = (refl, refl)

on_transmission_lem :
    (s : Session) (t : Transmission)
    → IsPlain t
    → ((on_transmission s t).events ≡ s.events ++ events_of s.state.subscriptions (t ∷ []))
      × ((on_transmission s t).stream ≡ s.stream)
unfolding on_transmission
on_transmission_lem s heart_beat_line h =
    let (events, stream, _) = on_recv_data_lem s in (events ∙ sym (append-nil s.events), stream)
on_transmission_lem s (complete_frame f) h =
    let (events, stream, subs) = on_recv_data_lem s in
    let framed = on_frame_lem f.command (on_recv_data s) f h in
    (
      framed.0
          ∙ ap (λ l. l ++ frame_event (on_recv_data s).state.subscriptions f f.command ∷ []) events
          ∙ ap (λ u. s.events ++ frame_event u f f.command ∷ []) subs,
      framed.1 ∙ stream,
    )

-- The events of the first transmission stand before those of the others.
events_of-cons :
    (subs : Assoc Subscription) (t : Transmission) (ts : List Transmission)
    → events_of subs (t ∷ ts) ≡ events_of subs (t ∷ []) ++ events_of subs ts
events_of-cons subs heart_beat_line ts = refl
events_of-cons subs (complete_frame f) ts = refl

abbrev with_polls : Session → List FramedPoll → Session
with_polls s rest = record s { io = record (s.io) { polls = rest } }

poll_stream_established :
    (s : Session) (a : FramedPoll) (rest : List FramedPoll)
    → s.stream ≡ established
    → s.io.polls ≡ a ∷ rest
    → poll_stream s ≡ on_polled a (with_polls s rest)
unfolding poll_stream poll_stream_rounds poll_by poll_established pop_poll
poll_stream_established s a rest h k = simp (h, k)

-- The session behind the answer that ends the loop.
on_polled-last :
    (s : Session) (a : FramedPoll)
    → s.stream ≡ established
    → ((t : Transmission) → a ≢ item t)
    → ((on_polled a s).0 ≡ none)
      × ((on_polled a s).1.io.polls ≡ s.io.polls)
      × ((on_polled a s).1.stream ≡ stream_behind a)
      × ((on_polled a s).1.events ≡ s.events ++ last_events a)
unfolding on_polled on_disconnect
on_polled-last s (item t) h k = absurd (k t refl)
on_polled-last s end h k = (refl, refl, refl, refl)
on_polled-last s pending h k = (refl, refl, h, sym (append-nil s.events))
on_polled-last s (recv_error e) h k = (refl, refl, refl, refl)

-- The session after the loop: it has taken the transmissions and one answer more.
abbrev pub IsBehind : Session → List Transmission → FramedPoll → List FramedPoll → Session → Type 0
IsBehind s ts a rest s' =
    (s'.io.polls ≡ rest)
    × (s'.stream ≡ stream_behind a)
    × (s'.events ≡ s.events ++ (events_of s.state.subscriptions ts ++ last_events a))

poll_loop-last :
    (rounds : ℕ) (s : Session) (p : Option Transmission × Session)
    → poll_stream s ≡ p
    → p.0 ≡ none
    → poll_loop (suc rounds) s ≡ some p.1
unfolding poll_loop
poll_loop-last rounds s (none, s1) h k = ground (arith, h)
poll_loop-last rounds s (some t, s1) h k = cc k

poll_loop-item :
    (rounds : ℕ) (s s1 : Session) (t : Transmission)
    → poll_stream s ≡ (some t, s1)
    → poll_loop (suc rounds) s ≡ poll_loop rounds (on_transmission s1 t)
unfolding poll_loop
poll_loop-item rounds s s1 t h = ground (arith, h)

-- On an established stream, the loop in Session::poll ends with the first answer of the transport
-- that is no transmission, being the end of the stream, an error or not ready, whatever the
-- transport would answer to another poll: when RECEIPT frames are not among the transmissions
-- before it, as many rounds as there are of them and one more are enough, and the loop leaves all
-- further answers unread, has reported every frame by one event in order and an end or an error by
-- a disconnection, and has kept the stream only if the transport was not ready.
pub poll_loop-IsBehind :
    (rounds : ℕ) (s : Session) (ts : List Transmission) (a : FramedPoll) (rest : List FramedPoll)
    → s.stream ≡ established
    → s.io.polls ≡ map item ts ++ a ∷ rest
    → All IsPlain ts
    → ((t : Transmission) → a ≢ item t)
    → length ts < rounds
    → (s' : Session) × (poll_loop rounds s ≡ some s') × IsBehind s ts a rest s'
unfolding poll_loop on_polled
poll_loop-IsBehind zero s ts a rest h k p q l = absurd (omega arith)
poll_loop-IsBehind (suc rounds) s [] a rest h k p q l =
    let polled = poll_stream_established s a rest h k in
    let (ends, polls, stream, events) = on_polled-last (with_polls s rest) a h q in
    (
      (on_polled a (with_polls s rest)).1,
      poll_loop-last rounds s (on_polled a (with_polls s rest)) polled ends,
      (polls, stream, events),
    )
poll_loop-IsBehind (suc rounds) s (t ∷ ts) a rest h k p q l =
    let left : List FramedPoll = map item ts ++ a ∷ rest in
    let s1 : Session = on_transmission (with_polls s left) t in
    let polled = poll_stream_established s (item t) left h k in
    let (events, stream) = on_transmission_lem (with_polls s left) t p.0 in
    let subs : s1.state.subscriptions ≡ s.state.subscriptions =
      ap (λ u. u.0) (kept-on_transmission (with_polls s left) t) in
    let (s', looped, (polls, ended, shown)) =
      poll_loop-IsBehind rounds s1 ts a rest (stream ∙ h)
        (polls-on_transmission (with_polls s left) t) p.1 q (omega (arith, l)) in
    (
      s',
      poll_loop-item rounds s (with_polls s left) t polled ∙ looped,
      (
        polls,
        ended,
        shown
            ∙ ap (λ l. l ++ (events_of s1.state.subscriptions ts ++ last_events a)) events
            ∙ ap
                (λ u.
                  (s.events ++ events_of s.state.subscriptions (t ∷ []))
                  ++ (events_of u ts ++ last_events a))
                subs
            ∙ append_assoc s.events _ _
            ∙ ap (λ l. s.events ++ l)
                (sym (append_assoc (events_of s.state.subscriptions (t ∷ [])) _ _)
                  ∙ ap (λ l. l ++ last_events a) (sym (events_of-cons s.state.subscriptions t ts))),
      ),
    )
