-- ===== src/Stomp/Session/Receive.antt =====
-- src/broker/stomp/session.rs: what the session does with the frames that it receives, and the
-- first frame that it sends.
use grinbox.Prelude.{ℕ, ◌+◌, Option, none, some, [], ◌∷◌, ◌++◌, ◌==◌, if◌then◌else◌}
use grinbox.Prelude.Text.{Text, codes, text_eq}
use grinbox.Prelude.Decimal.{to_text}
use grinbox.Prelude.Assoc.{lookup, remove}
use grinbox.Stomp.Header.{HeaderList, push, get, get_heart_beat}
use grinbox.Stomp.Header.Names.{StandardHeader, standard}
use grinbox.Stomp.Frame.{Command, Frame, Transmission, complete_frame, heart_beat_line, std}
use grinbox.Stomp.Connection.{Credentials, select_heartbeat, with_grace}
use grinbox.Stomp.Session.{
  HeartBeatDelay, Subscription, Session, connected, error, receipt, message, subscriptionless,
  unknown, requested, push_event, on_disconnect, send, send_frame,
}

-- `HeartBeatDelay::new`
abbrev pub delay_from : ℕ → ℕ → HeartBeatDelay
delay_from now interval = record { interval = interval; deadline = now + interval }

unfoldable pub rearm : ℕ → Option HeartBeatDelay → Option HeartBeatDelay
rearm now none = none
rearm now (some hb) = some (delay_from now hb.interval)

-- `register_tx_heartbeat_timeout`, `register_rx_heartbeat_timeout`
unfoldable pub register_tx_heartbeat_timeout : Session → Session
register_tx_heartbeat_timeout s = record s {
  state = record (s.state) { tx_heartbeat = rearm s.now s.state.tx_heartbeat };
}

unfoldable pub register_rx_heartbeat_timeout : Session → Session
register_rx_heartbeat_timeout s = record s {
  state = record (s.state) { rx_heartbeat = rearm s.now s.state.rx_heartbeat };
}

-- `on_recv_data`
unfoldable pub on_recv_data : Session → Session
on_recv_data s = elim s.state.rx_heartbeat [ some hb ↦ register_rx_heartbeat_timeout s | none ↦ s ]

-- `reply_to_heartbeat`
unfoldable pub reply_to_heartbeat : Session → Session
reply_to_heartbeat s = register_tx_heartbeat_timeout (send s heart_beat_line)

-- the headers of the first frame, which stay in the configuration
unfoldable pub connect_headers : Option Credentials → ℕ × ℕ → HeaderList → HeaderList
connect_headers none (tx, rx) hs =
    push hs (std StandardHeader.heart_beat (to_text tx ++ b',' ∷ to_text rx))
connect_headers (some c) (tx, rx) hs =
    push
      (push (push hs (std StandardHeader.login c.login)) (std StandardHeader.passcode c.passcode))
      (std StandardHeader.heart_beat (to_text tx ++ b',' ∷ to_text rx))

-- `on_stream_ready`
unfoldable pub on_stream_ready : Session → Session
on_stream_ready s =
    let headers = connect_headers s.config.credentials s.config.heartbeat s.config.headers in
    send_frame (record s { config = record (s.config) { headers = headers } })
      (record { command = Command.connect; headers = headers; body = [] })

-- `on_message`
unfoldable pub subscription_of : Session → Frame → Option Subscription
subscription_of s frame = elim (get frame.headers (standard StandardHeader.subscription)) [
  | some sub_id ↦ lookup sub_id s.state.subscriptions
  | none ↦ none
]

unfoldable pub on_message : Session → Frame → Session
on_message s frame = elim (subscription_of s frame) [
  | some sub ↦ push_event s (message sub.destination sub.ack_mode frame)
  | none ↦ push_event s (subscriptionless frame)
]

-- a delay for an agreed interval, unless that is 0
unfoldable pub delay_unless_zero : ℕ → ℕ → ℕ → Option HeartBeatDelay
delay_unless_zero now agreed interval = if agreed == 0 then none else some (delay_from now interval)

unfoldable pub server_heart_beat : Option (ℕ × ℕ) → ℕ × ℕ
server_heart_beat none = (0, 0)
server_heart_beat (some p) = p

-- `on_connected_frame_received`
unfoldable pub on_connected_frame_received : Session → Frame → Session
on_connected_frame_received s frame =
    let (client_tx_ms, client_rx_ms) = s.config.heartbeat in
    let (server_tx_ms, server_rx_ms) = server_heart_beat (get_heart_beat frame.headers) in
    let (tx, rx) = select_heartbeat client_tx_ms client_rx_ms server_tx_ms server_rx_ms in
    let armed = record s {
      state = record (s.state) {
        rx_heartbeat = delay_unless_zero s.now rx (with_grace rx);
        tx_heartbeat = delay_unless_zero s.now tx tx;
      };
    } in
    push_event (register_rx_heartbeat_timeout (register_tx_heartbeat_timeout armed)) connected

unfoldable pub settle_receipt : Session → Text → Frame → Session
settle_receipt s id frame = elim (lookup id s.state.outstanding_receipts) [
  | some original ↦
      push_event
        (record s {
          state = record (s.state) {
            outstanding_receipts = remove id s.state.outstanding_receipts;
          };
        })
        (receipt id original frame)
  | none ↦ s
]

-- `handle_receipt`
unfoldable pub handle_receipt : Session → Frame → Session
handle_receipt s frame = elim (get frame.headers (standard StandardHeader.receipt_id)) [
  | some id ↦
      settle_receipt (if text_eq id (codes "msg/disconnect") then on_disconnect s requested else s)
        id frame
  | none ↦ s
]

-- the dispatch on a frame's command in `poll`
unfoldable pub on_frame : Command → Session → Frame → Session
on_frame Command.error s frame = push_event s (error frame)
on_frame Command.receipt s frame = handle_receipt s frame
on_frame Command.connected s frame = on_connected_frame_received s frame
on_frame Command.message s frame = on_message s frame
on_frame _ s frame = push_event s (unknown frame)

-- one round of the loop in `poll`
unfoldable pub on_transmission : Session → Transmission → Session
on_transmission s heart_beat_line = on_recv_data s
on_transmission s (complete_frame frame) = on_frame frame.command (on_recv_data s) frame
