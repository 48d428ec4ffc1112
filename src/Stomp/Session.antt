-- ===== src/Stomp/Session.antt =====
-- src/broker/stomp/session.rs: the sending of frames and the public operations. What the transport answers is a script in the state, and
-- what it has accepted is a log; `now` is the instant that the clock shows during an operation.
mod State
pub use State.*
pub mod Receive
pub mod Polling
pub mod Lifecycle
pub mod Rounds
pub mod Ending
pub mod Reports
pub mod Runs
pub mod Kept
pub mod Subscriptions
use grinbox.Prelude.{
  ℕ, ◌+◌, ◌%◌, ◌^◌, ◌≡◌, Bool, true, false, Option, none, some, List, [], ◌∷◌, ◌++◌, if◌then◌else◌,
}
use grinbox.Prelude.Text.{Text}
use grinbox.Prelude.Assoc.{Assoc, remove}
use grinbox.Stomp.Header.{HeaderList, get}
use grinbox.Stomp.Header.Names.{StandardHeader, standard}
use grinbox.Stomp.Frame.{
  Frame, Transmission, complete_frame, heart_beat_line, AckMode, unsubscribe_frame,
  disconnect_frame, ack_frame, nack_frame,
}
use grinbox.Stomp.Connection.{Credentials}

-- `SessionState::new`
abbrev pub fresh_state : SessionState
fresh_state = record {
  next_transaction_id = 0;
  next_subscription_id = 0;
  next_receipt_id = 0;
  rx_heartbeat = none;
  tx_heartbeat = none;
  subscriptions = [];
  outstanding_receipts = [];
}

-- `Session::new`
unfoldable pub new : SessionConfig → Transport → ℕ → Session
new config io now = record {
  config = config;
  state = fresh_state;
  stream = connecting;
  events = [];
  io = io;
  now = now;
}

abbrev pub push_event : Session → SessionEvent → Session
push_event s e = record s { events = s.events ++ e ∷ [] }

-- `on_disconnect`
unfoldable pub on_disconnect : Session → DisconnectionReason → Session
on_disconnect s reason = record s {
  events = s.events ++ disconnected reason ∷ [];
  stream = failed;
  state = record (s.state) { tx_heartbeat = none; rx_heartbeat = none };
}

unfoldable pub pop_start : List StartSend → StartSend × List StartSend
pop_start [] = (accepted, [])
pop_start (a ∷ as_) = (a, as_)

unfoldable pub pop_flush : List (Option IoError) → Option IoError × List (Option IoError)
pop_flush [] = (none, [])
pop_flush (a ∷ as_) = (a, as_)

-- `poll_complete` of the transport, with the error that it answers
unfoldable pub flush : Transport → Option IoError × Transport
flush io = let (answer, rest) = pop_flush io.flushes in (answer, record io { flushes = rest })

-- `start_send` of the transport
unfoldable pub start_send : Transport → Transmission → StartSend × Transport
start_send io tx =
    let (answer, rest) = pop_start io.starts in
    (
      answer,
      elim answer [
        | accepted ↦ record io { starts = rest; sent = io.sent ++ tx ∷ [] }
        | _ ↦ record io { starts = rest }
      ],
    )

-- `_send` on an established stream: the error that it returns. An item that is handed back is
-- dropped.
unfoldable pub send_established : Transport → Transmission → Option IoError × Transport
send_established io tx =
    let (answer, io1) = start_send io tx in
    elim answer [ start_error e ↦ (some e, io1) | _ ↦ flush io1 ]

unfoldable pub send_result : Session → Option IoError × Transport → Session
send_result s (none, io) = record s { io = io }
send_result s (some e, io) = on_disconnect (record s { io = io }) (send_failed e)

unfoldable pub send_by : StreamState → Session → Transmission → Session
send_by established s tx = send_result s (send_established s.io tx)
send_by _ s tx = s

-- `send`, with `_send`: a frame is dropped with a warning unless the stream is established
unfoldable pub send : Session → Transmission → Session
send s tx = send_by s.stream s tx

-- `send_frame`
abbrev pub send_frame : Session → Frame → Session
send_frame s f = send s (complete_frame f)

-- `unsubscribe`
unfoldable pub unsubscribe : Session → Text → Session
unsubscribe s sub_id =
    send_frame
      (record s {
        state = record (s.state) { subscriptions = remove sub_id s.state.subscriptions };
      })
      (unsubscribe_frame sub_id)

-- `disconnect`
unfoldable pub disconnect : Session → Session
disconnect s = send_frame s disconnect_frame

-- `AckOrNack` and `acknowledge_frame`
pub data AckOrNack : Type 0 where
  ack nack : AckOrNack

unfoldable pub acknowledge_frame : Session → Frame → AckOrNack → Session
acknowledge_frame s frame which = elim (get frame.headers (standard StandardHeader.ack)) [
  | some ack_id ↦ send_frame s (elim which [ ack ↦ ack_frame ack_id | nack ↦ nack_frame ack_id ])
  | none ↦ s
]

-- The counters wrap at 2 ^ 32, as they do in the release build.
abbrev pub next_id : ℕ → ℕ
next_id n = (n + 1) % 2 ^ 32

-- `generate_transaction_id`, `generate_subscription_id`, `generate_receipt_id`
unfoldable pub generate_transaction_id : Session → ℕ × Session
generate_transaction_id s = (
  s.state.next_transaction_id,
  record s {
    state = record (s.state) { next_transaction_id = next_id s.state.next_transaction_id };
  },
)

unfoldable pub generate_subscription_id : Session → ℕ × Session
generate_subscription_id s = (
  s.state.next_subscription_id,
  record s {
    state = record (s.state) { next_subscription_id = next_id s.state.next_subscription_id };
  },
)

unfoldable pub generate_receipt_id : Session → ℕ × Session
generate_receipt_id s = (
  s.state.next_receipt_id,
  record s { state = record (s.state) { next_receipt_id = next_id s.state.next_receipt_id } },
)
