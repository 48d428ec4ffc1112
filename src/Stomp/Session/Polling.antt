-- ===== src/Stomp/Session/Polling.antt =====
-- src/broker/stomp/session.rs: `poll_stream` and the `poll` of the session. Whether a `Delay` has
-- elapsed at an instant is the timer's answer, a parameter. `none` stands for a loop that is given
-- too few rounds, which `poll` never is.
use grinbox.Prelude.{ℕ, zero, suc, Option, none, some, List, [], ◌∷◌, length}
use grinbox.Prelude.Text.{codes}
use grinbox.Stomp.Frame.{Transmission}
use grinbox.Stomp.Session.{
  IoError, HeartBeatDelay, Session, SessionEvent, StreamState, established, connecting, failed,
  FramedPoll, item, end, pending, recv_error, ConnectPoll, open_stream, still_connecting,
  connect_error, recv_failed, connect_failed, closed_by_other_side, heart_beat_timeout,
  on_disconnect, flush, send_result,
}
use grinbox.Stomp.Session.Receive.{on_stream_ready, on_transmission, reply_to_heartbeat}

-- What a `Delay` answers to `poll`.
pub data TimerPoll : Type 0 where
  elapsed running broken : TimerPoll

-- What `poll` returns: an event, `NotReady`, or an error. (It never ends the stream.)
pub data PollResult : Type 0 where
  event : SessionEvent → PollResult
  idle : PollResult
  poll_error : IoError → PollResult

unfoldable pub pop_poll : List FramedPoll → FramedPoll × List FramedPoll
pop_poll [] = (pending, [])
pop_poll (a ∷ rest) = (a, rest)

unfoldable pub pop_connect : List ConnectPoll → ConnectPoll × List ConnectPoll
pop_connect [] = (still_connecting, [])
pop_connect (a ∷ rest) = (a, rest)

-- `poll_stream` on an established stream
unfoldable pub on_polled : FramedPoll → Session → Option Transmission × Session
on_polled (item t) s = (some t, s)
on_polled end s = (none, on_disconnect s closed_by_other_side)
on_polled pending s = (none, s)
on_polled (recv_error e) s = (none, on_disconnect s (recv_failed e))

unfoldable pub poll_established : Session → Option Transmission × Session
poll_established s =
    let (answer, rest) = pop_poll s.io.polls in
    on_polled answer (record s { io = record (s.io) { polls = rest } })

-- `poll_stream` on a connecting stream, with the call of itself that follows the connection
unfoldable pub on_connect_polled :
    (Session → Option Transmission × Session)
    → ConnectPoll
    → Session
    → Option Transmission × Session
on_connect_polled again open_stream s = again (on_stream_ready (record s { stream = established }))
on_connect_polled again still_connecting s = (none, s)
on_connect_polled again (connect_error e) s = (none, on_disconnect s (connect_failed e))

unfoldable pub poll_connecting :
    (Session → Option Transmission × Session) → Session → Option Transmission × Session
poll_connecting again s =
    let (answer, rest) = pop_connect s.io.connects in
    on_connect_polled again answer (record s { io = record (s.io) { connects = rest } })

unfoldable pub poll_by :
    StreamState
    → (Session → Option Transmission × Session)
    → Session
    → Option Transmission × Session
poll_by established again s = poll_established s
poll_by connecting again s = poll_connecting again s
poll_by failed again s = (none, s)

-- `poll_stream`, with a bound on the calls of itself
unfoldable pub poll_stream_rounds : ℕ → Session → Option Transmission × Session
poll_stream_rounds zero s = (none, s)
poll_stream_rounds (suc rounds) s = poll_by s.stream (poll_stream_rounds rounds) s

-- `poll_stream`: the second call never finds a stream that is connecting
unfoldable pub poll_stream : Session → Option Transmission × Session
poll_stream s = poll_stream_rounds 2 s

-- the loop over what the stream delivers
unfoldable pub poll_loop : ℕ → Session → Option Session
poll_loop zero s = none
poll_loop (suc rounds) s =
    let (got, s1) = poll_stream s in
    elim got [ none ↦ some s1 | some t ↦ poll_loop rounds (on_transmission s1 t) ]

-- `poll_stream_complete`: an error of the flush is handled as one of `send`
unfoldable pub complete_by : StreamState → Session → Session
complete_by established s = send_result s (flush s.io)
complete_by _ s = s

unfoldable pub poll_stream_complete : Session → Session
poll_stream_complete s = complete_by s.stream s

-- the event that `poll` returns
unfoldable pub pop_event : Session → List SessionEvent → PollResult × Session
pop_event s [] = (idle, s)
pop_event s (e ∷ rest) = (event e, record s { events = rest })

-- what follows a timer's poll: its error ends `poll`
unfoldable pub on_timer :
    TimerPoll → Session → Session → (Session → PollResult × Session) → PollResult × Session
on_timer elapsed late s continue = continue late
on_timer running late s continue = continue s
on_timer broken late s continue = (poll_error (codes "timer"), s)

module _ (delay_poll : ℕ → ℕ → TimerPoll) where
  -- `poll_heartbeat`
  unfoldable pub poll_heartbeat : ℕ → Option HeartBeatDelay → TimerPoll
  poll_heartbeat now none = running
  poll_heartbeat now (some hb) = delay_poll now hb.deadline

  -- the part of `poll` behind the loop
  unfoldable pub after_loop : Session → PollResult × Session
  after_loop s =
      on_timer (poll_heartbeat s.now s.state.rx_heartbeat) (on_disconnect s heart_beat_timeout) s
        λ s1.
          on_timer (poll_heartbeat s1.now s1.state.tx_heartbeat) (reply_to_heartbeat s1) s1
            λ s2. let s3 = poll_stream_complete s2 in pop_event s3 s3.events

  -- `poll`
  unfoldable pub poll : Session → Option (PollResult × Session)
  poll s = elim (poll_loop (suc (length s.io.polls)) s) [
    | none ↦ none
    | some s1 ↦ some (after_loop s1)
  ]
