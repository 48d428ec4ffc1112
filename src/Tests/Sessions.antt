-- ===== src/Tests/Sessions.antt =====
-- Runs of sessions of src/broker/stomp/session.rs.
use grinbox.Prelude.{
  ℕ, ◌≡◌, refl, List, map, ◌++◌, arith, Option, none, some, [], ◌∷◌, if◌then◌else◌, leb,
}
use grinbox.Prelude.Text.{codes}
use grinbox.Stomp.Session.{
  Session, Transport, established, item, open_stream, end, new, send, send_by, send_result,
  send_established, start_send, pop_start, flush, pop_flush, on_disconnect, disconnected,
  closed_by_other_side,
}
use grinbox.Stomp.Session.Polling.{
  TimerPoll, elapsed, running, PollResult, event, poll, poll_stream, poll_stream_rounds, poll_loop,
  poll_by, poll_connecting, on_connect_polled, pop_connect, poll_established, on_polled, pop_poll,
  after_loop, poll_heartbeat, on_timer, poll_stream_complete, complete_by, pop_event,
}
use grinbox.Stomp.Session.Receive.{on_stream_ready, connect_headers}
use grinbox.Stomp.Session.Ending.{IsBehind, poll_loop-IsBehind}
use grinbox.Stomp.Frame.{Command, Frame, Transmission, complete_frame, heart_beat_line}
use grinbox.Stomp.Session.Lifecycle.{IsTracked}
use grinbox.Stomp.Session.Runs as Runs
use grinbox.Stomp.Session.Runs.{Run, Run-IsTracked}
use grinbox.Stomp.Builders.Connect as Connect
use grinbox.Stomp.Builders.Subscribe as Subscribe

-- A timer that elapses at its instant.
abbrev pub punctual : ℕ → ℕ → TimerPoll
punctual now deadline = if leb deadline now then elapsed else running

-- A transport that connects and is closed by the broker.
abbrev closing : Transport
closing = record {
  connects = open_stream ∷ [];
  polls = end ∷ [];
  starts = [];
  flushes = [];
  sent = [];
}

abbrev pub started : Session
started = new Connect.create closing 0

-- A session on a stream that has an ERROR frame and a heart-beat, has then ended, and answers so for
-- ever.
abbrev refusal : Frame
refusal = record { command = Command.error; headers = []; body = [] }

abbrev read : List Transmission
read = complete_frame refusal ∷ heart_beat_line ∷ []

abbrev ending : Session
ending = record started {
  stream = established;
  io = record closing { polls = map item read ++ end ∷ end ∷ end ∷ [] };
}

poll_loop-IsBehind_example :
    (s' : Session) × (poll_loop 3 ending ≡ some s') × IsBehind ending read end (end ∷ end ∷ []) s'
unfolding new
poll_loop-IsBehind_example =
    poll_loop-IsBehind 3 ending read end (end ∷ end ∷ []) refl refl ((λ e. cc e), (tt, tt))
      (λ t e. cc e) (omega arith)

abbrev builder : Subscribe.SubscriptionBuilder
builder = Subscribe.subscription started (codes "q")

abbrev session_of : Option (PollResult × Session) → Session
session_of none = started
session_of (some p) = p.1

-- The session connects, finds the stream closed, and reports that.
abbrev closed : Session
closed = session_of (poll punctual started)

closed-polled : poll punctual started ≡ some (event (disconnected closed_by_other_side), closed)
unfolding poll poll_stream poll_stream_rounds poll_loop poll_by poll_connecting on_connect_polled
    pop_connect poll_established on_polled pop_poll after_loop poll_heartbeat on_timer
    poll_stream_complete complete_by pop_event new send send_by send_result send_established
    start_send pop_start flush pop_flush on_disconnect on_stream_ready connect_headers
closed-polled = refl

closed-Run : Run punctual Connect.create 1 closed
closed-Run =
    Runs.polling (event (disconnected closed_by_other_side)) (Runs.start closing 0) closed-polled
      refl

Run-IsTracked_example : IsTracked 1 closed
Run-IsTracked_example = Run-IsTracked closed-Run
