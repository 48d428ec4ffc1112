-- ===== src/Stomp/Session/Kept.antt =====
-- `poll` of src/broker/stomp/session.rs leaves the subscriptions of the session, and the counter of
-- their ids, as they are.
use grinbox.Prelude.{
  ℕ, zero, suc, ◌≡◌, refl, ◌∙◌, Option, some, List, [], ◌∷◌, arith, length, Option-cases, inl, inr,
}
use grinbox.Prelude.Assoc.{Assoc}
use grinbox.Stomp.Frame.{Command, Frame, Transmission, complete_frame, heart_beat_line}
use grinbox.Stomp.Session.{
  Session, Subscription, StreamState, established, connecting, failed, on_disconnect, send, send_by,
  send_result, SessionEvent,
}
use grinbox.Stomp.Session.Receive.{
  register_rx_heartbeat_timeout, register_tx_heartbeat_timeout, on_recv_data, on_stream_ready,
  on_message, reply_to_heartbeat, on_connected_frame_received, handle_receipt, settle_receipt,
  on_frame, on_transmission,
}
use grinbox.Stomp.Session.Polling.{
  TimerPoll, elapsed, running, broken, PollResult, poll_established, poll_connecting, on_polled,
  on_connect_polled, poll_by, poll_stream_rounds, poll_stream, poll_loop, poll,
  poll_stream_complete, complete_by, pop_event, on_timer, after_loop,
}

-- The subscriptions, and the number of the next.
abbrev pub kept : Session → Assoc Subscription × ℕ
kept s = (s.state.subscriptions, s.state.next_subscription_id)

kept-send_by :
    (st : StreamState) (s : Session) (tx : Transmission) → kept (send_by st s tx) ≡ kept s
unfolding send_by send_result on_disconnect
kept-send_by established s tx = ground arith
kept-send_by connecting s tx = refl
kept-send_by failed s tx = refl

pub kept-send : (s : Session) (tx : Transmission) → kept (send s tx) ≡ kept s
unfolding send
kept-send s tx = kept-send_by s.stream s tx

kept-on_stream_ready : (s : Session) → kept (on_stream_ready s) ≡ kept s
unfolding on_stream_ready
kept-on_stream_ready s = kept-send _ _

kept-on_recv_data : (s : Session) → kept (on_recv_data s) ≡ kept s
unfolding on_recv_data register_rx_heartbeat_timeout
kept-on_recv_data s = ground arith

kept-on_frame : (c : Command) (s : Session) (f : Frame) → kept (on_frame c s f) ≡ kept s
unfolding on_frame on_message handle_receipt settle_receipt on_disconnect
    on_connected_frame_received register_rx_heartbeat_timeout register_tx_heartbeat_timeout
kept-on_frame Command.error s f = refl
kept-on_frame Command.message s f = ground arith
kept-on_frame Command.receipt s f = ground arith
kept-on_frame Command.connected s f = ground arith
kept-on_frame _ s f = refl

pub kept-on_transmission : (s : Session) (tx : Transmission) → kept (on_transmission s tx) ≡ kept s
unfolding on_transmission
kept-on_transmission s heart_beat_line = kept-on_recv_data s
kept-on_transmission s (complete_frame f) =
    kept-on_frame f.command (on_recv_data s) f ∙ kept-on_recv_data s

kept-poll_by :
    (st : StreamState) (again : Session → Option Transmission × Session) (s : Session)
    → ((s' : Session) → kept (again s').1 ≡ kept s')
    → kept (poll_by st again s).1 ≡ kept s
unfolding poll_by poll_established on_polled poll_connecting on_connect_polled on_disconnect
kept-poll_by established again s h = ground arith
kept-poll_by connecting again s h = grind (arith, h, kept-on_stream_ready)
kept-poll_by failed again s h = refl

kept-poll_stream_rounds : (rounds : ℕ) (s : Session) → kept (poll_stream_rounds rounds s).1 ≡ kept s
unfolding poll_stream_rounds
kept-poll_stream_rounds zero s = refl
kept-poll_stream_rounds (suc rounds) s =
    kept-poll_by s.stream (poll_stream_rounds rounds) s (kept-poll_stream_rounds rounds)

kept-poll_stream : (s : Session) → kept (poll_stream s).1 ≡ kept s
unfolding poll_stream
kept-poll_stream s = kept-poll_stream_rounds 2 s

kept-poll_loop : (rounds : ℕ) (s s' : Session) → poll_loop rounds s ≡ some s' → kept s' ≡ kept s
unfolding poll_loop
kept-poll_loop zero s s' e = cc
kept-poll_loop (suc rounds) s s' e =
    grind (arith, kept-poll_loop rounds, kept-poll_stream s, kept-on_transmission)

kept-complete_by : (st : StreamState) (s : Session) → kept (complete_by st s) ≡ kept s
unfolding complete_by send_result on_disconnect
kept-complete_by established s = ground arith
kept-complete_by connecting s = refl
kept-complete_by failed s = refl

kept-pop_event : (s : Session) (es : List SessionEvent) → kept (pop_event s es).1 ≡ kept s
unfolding pop_event
kept-pop_event s [] = refl
kept-pop_event s (e ∷ es) = refl

kept-reply : (s : Session) → kept (reply_to_heartbeat s) ≡ kept s
unfolding reply_to_heartbeat register_tx_heartbeat_timeout
kept-reply s = kept-send s heart_beat_line

kept-on_timer :
    (a : TimerPoll) (late s : Session) (continue : Session → PollResult × Session)
    → kept late ≡ kept s
    → ((s' : Session) → kept (continue s').1 ≡ kept s')
    → kept (on_timer a late s continue).1 ≡ kept s
unfolding on_timer
kept-on_timer elapsed late s continue e h = h late ∙ e
kept-on_timer running late s continue e h = h s
kept-on_timer broken late s continue e h = refl

module _ (delay_poll : ℕ → ℕ → TimerPoll) where
  kept-after_loop : (s : Session) → kept (after_loop delay_poll s).1 ≡ kept s
  unfolding after_loop on_disconnect poll_stream_complete
  kept-after_loop s = kept-on_timer _ _ s _ refl λ s1.
      kept-on_timer _ _ s1 _ (kept-reply s1)
        λ s2. kept-pop_event _ _ ∙ kept-complete_by s2.stream s2

  -- Whatever arrives, `poll` leaves the subscriptions and their counter alone.
  pub kept-poll :
      (s s' : Session) (r : PollResult) → poll delay_poll s ≡ some (r, s') → kept s' ≡ kept s
  unfolding poll
  kept-poll s s' r e = elim (Option-cases (poll_loop (suc (length s.io.polls)) s)) [
    | inl none_left ↦ cc (rw (none_left, poll) at e)
    | inr (s1, looped) ↦ ground (arith, looped, e, kept-after_loop s1, kept-poll_loop _ s s1 looped)
  ]
