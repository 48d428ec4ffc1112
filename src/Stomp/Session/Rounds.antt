-- ===== src/Stomp/Session/Rounds.antt =====
-- The rounds of the loop in `poll` of src/broker/stomp/session.rs, and the answers of the script that
-- they take.
use grinbox.Prelude.{ℕ, zero, suc, ◌≤◌, ◌<◌, ◌≡◌, ◌≢◌, refl, ◌∙◌, Option, none, some, arith, length}
use grinbox.Stomp.Frame.{Command, Frame, Transmission, complete_frame, heart_beat_line}
use grinbox.Stomp.Session.{
  Session, StreamState, established, connecting, failed, on_disconnect, send, send_by, send_result,
  send_established, start_send, flush,
}
use grinbox.Stomp.Session.Receive.{
  register_rx_heartbeat_timeout, register_tx_heartbeat_timeout, on_recv_data, on_stream_ready,
  on_message, on_connected_frame_received, handle_receipt, settle_receipt, on_frame,
  on_transmission,
}
use grinbox.Stomp.Session.Polling.{
  TimerPoll, poll_established, poll_connecting, on_polled, on_connect_polled, poll_by,
  poll_stream_rounds, poll_stream, poll_loop, poll, pop_poll,
}

polls-send_by :
    (st : StreamState) (s : Session) (tx : Transmission) → (send_by st s tx).io.polls ≡ s.io.polls
unfolding send_by send_result on_disconnect send_established start_send flush
polls-send_by established s tx = ground arith
polls-send_by connecting s tx = refl
polls-send_by failed s tx = refl

polls-on_stream_ready : (s : Session) → (on_stream_ready s).io.polls ≡ s.io.polls
unfolding on_stream_ready send
polls-on_stream_ready s = polls-send_by s.stream _ _

polls-on_recv_data : (s : Session) → (on_recv_data s).io.polls ≡ s.io.polls
unfolding on_recv_data register_rx_heartbeat_timeout
polls-on_recv_data s = ground arith

polls-on_frame : (c : Command) (s : Session) (f : Frame) → (on_frame c s f).io.polls ≡ s.io.polls
unfolding on_frame on_message handle_receipt settle_receipt on_disconnect
    on_connected_frame_received register_rx_heartbeat_timeout register_tx_heartbeat_timeout
polls-on_frame Command.error s f = refl
polls-on_frame Command.message s f = ground arith
polls-on_frame Command.receipt s f = ground arith
polls-on_frame Command.connected s f = ground arith
polls-on_frame _ s f = refl

pub polls-on_transmission :
    (s : Session) (tx : Transmission) → (on_transmission s tx).io.polls ≡ s.io.polls
unfolding on_transmission
polls-on_transmission s heart_beat_line = polls-on_recv_data s
polls-on_transmission s (complete_frame f) =
    polls-on_frame f.command (on_recv_data s) f ∙ polls-on_recv_data s

-- Answers left for the next call, and one more if this call has returned a transmission.
abbrev needed : Option Transmission × Session → ℕ
needed (some t, s) = suc (length s.io.polls)
needed (none, s) = length s.io.polls

needed-poll_established : (s : Session) → needed (poll_established s) ≤ length s.io.polls
unfolding poll_established on_polled pop_poll on_disconnect
needed-poll_established s = ground arith

needed-poll_connecting :
    (again : Session → Option Transmission × Session) (s : Session)
    → ((s' : Session) → needed (again s') ≤ length s'.io.polls)
    → needed (poll_connecting again s) ≤ length s.io.polls
unfolding poll_connecting on_connect_polled on_disconnect
needed-poll_connecting again s h = grind (arith, h, polls-on_stream_ready)

needed-poll_by :
    (st : StreamState) (again : Session → Option Transmission × Session) (s : Session)
    → ((s' : Session) → needed (again s') ≤ length s'.io.polls)
    → needed (poll_by st again s) ≤ length s.io.polls
unfolding poll_by
needed-poll_by established again s h = needed-poll_established s
needed-poll_by connecting again s h = needed-poll_connecting again s h
needed-poll_by failed again s h = omega arith

needed-poll_stream_rounds :
    (rounds : ℕ) (s : Session) → needed (poll_stream_rounds rounds s) ≤ length s.io.polls
unfolding poll_stream_rounds
needed-poll_stream_rounds zero s = omega arith
needed-poll_stream_rounds (suc rounds) s =
    needed-poll_by s.stream (poll_stream_rounds rounds) s (needed-poll_stream_rounds rounds)

needed-poll_stream : (s : Session) → needed (poll_stream s) ≤ length s.io.polls
unfolding poll_stream
needed-poll_stream s = needed-poll_stream_rounds 2 s

poll_loop-ne-none :
    (rounds : ℕ) (s : Session) → length s.io.polls < rounds → poll_loop rounds s ≢ none
unfolding poll_loop
poll_loop-ne-none zero s h = absurd (omega arith)
poll_loop-ne-none (suc rounds) s h =
    grind (arith, poll_loop-ne-none rounds, needed-poll_stream s, polls-on_transmission)

-- The rounds that `poll` gives to its loop, one more than the answers that the script holds, are
-- enough for it to come to the end of the script.
poll-ne-none : (delay_poll : ℕ → ℕ → TimerPoll) (s : Session) → poll delay_poll s ≢ none
unfolding poll
poll-ne-none delay_poll s = ground (arith, poll_loop-ne-none (suc (length s.io.polls)) s)

stream-send_by :
    (st : StreamState) (s : Session) (tx : Transmission)
    → s.stream ≢ connecting
    → (send_by st s tx).stream ≢ connecting
unfolding send_by send_result on_disconnect
stream-send_by established s tx h = ground arith
stream-send_by connecting s tx h = h
stream-send_by failed s tx h = h

stream-on_stream_ready :
    (s : Session) → s.stream ≢ connecting → (on_stream_ready s).stream ≢ connecting
unfolding on_stream_ready send
stream-on_stream_ready s h = stream-send_by s.stream _ _ h

-- On a stream that is not connecting, the call of itself is not made.
poll_by_settled :
    (st : StreamState) (f g : Session → Option Transmission × Session) (s : Session)
    → st ≢ connecting
    → poll_by st f s ≡ poll_by st g s
unfolding poll_by
poll_by_settled established f g s h = refl
poll_by_settled connecting f g s h = absurd (h refl)
poll_by_settled failed f g s h = refl

poll_connecting_settled :
    (f g : Session → Option Transmission × Session) (s : Session)
    → ((s' : Session) → s'.stream ≢ connecting → f s' ≡ g s')
    → poll_connecting f s ≡ poll_connecting g s
unfolding poll_connecting on_connect_polled
poll_connecting_settled f g s h = grind (arith, h, stream-on_stream_ready)

poll_by_again :
    (st : StreamState) (f g : Session → Option Transmission × Session) (s : Session)
    → ((s' : Session) → s'.stream ≢ connecting → f s' ≡ g s')
    → poll_by st f s ≡ poll_by st g s
unfolding poll_by
poll_by_again established f g s h = refl
poll_by_again connecting f g s h = poll_connecting_settled f g s h
poll_by_again failed f g s h = refl

-- Two calls of poll_stream are enough: a bound on more of them gives the same result.
pub poll_stream_rounds-eq-poll_stream :
    (more : ℕ) (s : Session) → poll_stream_rounds (suc (suc more)) s ≡ poll_stream s
unfolding poll_stream poll_stream_rounds
poll_stream_rounds-eq-poll_stream more s =
    poll_by_again s.stream _ _ s (λ s' h. poll_by_settled s'.stream _ _ s' h)
