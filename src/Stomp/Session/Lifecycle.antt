-- ===== src/Stomp/Session/Lifecycle.antt =====
-- The life of a session of src/broker/stomp/session.rs: it reports its end once, and a session that
-- has ended has no timers.
use grinbox.Prelude.{
  ℕ, suc, ◌+◌, ◌≡◌, ◌≢◌, refl, Option, none, some, List, [], ◌∷◌, ◌++◌, arith, Option-cases, inl,
  inr, ◌∙◌, Bool, true, false, if◌then◌else◌,
}
use grinbox.Prelude.Text.{Text, codes, text_eq}
use grinbox.Prelude.Assoc.{lookup}
use grinbox.Stomp.Header.{get}
use grinbox.Stomp.Header.Names.{StandardHeader, standard}
use grinbox.Stomp.Frame.{Command, Frame, Transmission, complete_frame, heart_beat_line}
use grinbox.Stomp.Session.{
  Session, SessionEvent, disconnected, connected, message, receipt, requested, subscriptionless,
  DisconnectionReason, StreamState, established, connecting, failed, Transport, IoError, push_event,
  on_disconnect, send, send_by, send_result, send_established,
}
use grinbox.Stomp.Session.Receive.{
  rearm, register_rx_heartbeat_timeout, register_tx_heartbeat_timeout, on_recv_data,
  reply_to_heartbeat, subscription_of, on_stream_ready, on_message, on_connected_frame_received,
  handle_receipt, settle_receipt, on_frame, on_transmission,
}

-- How many of the events report a disconnection.
abbrev pub disconnects : List SessionEvent → ℕ
disconnects [] = 0
disconnects (disconnected r ∷ es) = suc (disconnects es)
disconnects (_ ∷ es) = disconnects es

pub disconnects-append :
    (es fs : List SessionEvent) → disconnects (es ++ fs) ≡ disconnects es + disconnects fs
disconnects-append [] fs = omega arith
disconnects-append (disconnected r ∷ es) fs = omega (arith, disconnects-append es fs)
disconnects-append (_ ∷ es) fs = disconnects-append es fs

abbrev pub ended : StreamState → ℕ
ended failed = 1
ended _ = 0

-- `seen` disconnections have been returned to the caller. A session that has ended has reported
-- it once, or has the report in its queue, and has no timers.
pub record IsTracked (seen : ℕ) (s : Session) : Type 0 where
  pub counted : seen + disconnects s.events ≡ ended s.stream
  pub quiet : s.stream ≡ failed → (s.state.rx_heartbeat ≡ none) × (s.state.tx_heartbeat ≡ none)

pub stream-on_recv_data : (s : Session) → (on_recv_data s).stream ≡ s.stream
unfolding on_recv_data register_rx_heartbeat_timeout
stream-on_recv_data s = ground arith

module _ (seen : ℕ) where
  pub on_disconnect-IsTracked :
      (s : Session) (r : DisconnectionReason)
      → s.stream ≢ failed
      → IsTracked seen s
      → IsTracked seen (on_disconnect s r)
  unfolding on_disconnect
  on_disconnect-IsTracked s r live t =
      ground (arith, disconnects-append s.events (disconnected r ∷ []), t.counted)

  pub send_result-IsTracked :
      (s : Session) (p : Option IoError × Transport)
      → s.stream ≢ failed
      → IsTracked seen s
      → IsTracked seen (send_result s p)
  unfolding send_result
  send_result-IsTracked s (none, io) live t = ground arith
  send_result-IsTracked s (some e, io) live t =
      on_disconnect-IsTracked (record s { io = io }) _ live
        (record { counted = t.counted; quiet = t.quiet })

  send_by-IsTracked :
      (st : StreamState) (s : Session) (tx : Transmission)
      → s.stream ≡ st
      → IsTracked seen s
      → IsTracked seen (send_by st s tx)
  unfolding send_by
  send_by-IsTracked established s tx e t =
      send_result-IsTracked s (send_established s.io tx) (λ h. cc) t
  send_by-IsTracked connecting s tx e t = t
  send_by-IsTracked failed s tx e t = t

  pub send-IsTracked :
      (s : Session) (tx : Transmission) → IsTracked seen s → IsTracked seen (send s tx)
  unfolding send
  send-IsTracked s tx t = send_by-IsTracked s.stream s tx refl t

  rx-IsTracked : (s : Session) → IsTracked seen s → IsTracked seen (register_rx_heartbeat_timeout s)
  unfolding register_rx_heartbeat_timeout rearm
  rx-IsTracked s t = ground arith

  tx-IsTracked : (s : Session) → IsTracked seen s → IsTracked seen (register_tx_heartbeat_timeout s)
  unfolding register_tx_heartbeat_timeout rearm
  tx-IsTracked s t = ground arith

  pub reply_to_heartbeat-IsTracked :
      (s : Session) → IsTracked seen s → IsTracked seen (reply_to_heartbeat s)
  unfolding reply_to_heartbeat
  reply_to_heartbeat-IsTracked s t = tx-IsTracked _ (send-IsTracked s heart_beat_line t)

  pub on_stream_ready-IsTracked :
      (s : Session) → IsTracked seen s → IsTracked seen (on_stream_ready s)
  unfolding on_stream_ready
  on_stream_ready-IsTracked s t =
      send-IsTracked _ _ (record { counted = t.counted; quiet = t.quiet })

  push_event-IsTracked :
      (s : Session) (e : SessionEvent)
      → disconnects (e ∷ []) ≡ 0
      → IsTracked seen s
      → IsTracked seen (push_event s e)
  push_event-IsTracked s e h t = record {
    counted = omega (arith, disconnects-append s.events (e ∷ []), t.counted);
    quiet = t.quiet;
  }

  -- A round of the loop: the stream is established when a transmission has arrived.
  on_message-IsTracked :
      (s : Session) (f : Frame) → IsTracked seen s → IsTracked seen (on_message s f)
  unfolding on_message
  on_message-IsTracked s f t = elim (Option-cases (subscription_of s f)) [
    | inl missing ↦ rw (missing, on_message) (push_event-IsTracked s (subscriptionless f) refl t)
    | inr (sub, found) ↦
        rw (found, on_message)
          (push_event-IsTracked s (message sub.destination sub.ack_mode f) refl t)
  ]

  on_connected-IsTracked :
      (s : Session) (f : Frame)
      → s.stream ≡ established
      → IsTracked seen s
      → IsTracked seen (on_connected_frame_received s f)
  unfolding on_connected_frame_received register_rx_heartbeat_timeout register_tx_heartbeat_timeout
  on_connected-IsTracked s f live t = record {
    counted = omega (arith, disconnects-append s.events (connected ∷ []), t.counted);
    quiet = λ h. cc;
  }

  settle_receipt-IsTracked :
      (s : Session) (id : Text) (f : Frame)
      → IsTracked seen s
      → IsTracked seen (settle_receipt s id f)
  unfolding settle_receipt
  settle_receipt-IsTracked s id f t = elim (Option-cases (lookup id s.state.outstanding_receipts)) [
    | inl missing ↦ rw (missing, settle_receipt) t
    | inr (original, found) ↦
        rw (found, settle_receipt)
          (push_event-IsTracked _ (receipt id original f) refl
            (record { counted = t.counted; quiet = t.quiet }))
  ]

  ended_if-IsTracked :
      (b : Bool) (s : Session)
      → s.stream ≡ established
      → IsTracked seen s
      → IsTracked seen (if b then on_disconnect s requested else s)
  ended_if-IsTracked true s live t = on_disconnect-IsTracked s requested (λ h. cc) t
  ended_if-IsTracked false s live t = t

  handle_receipt-IsTracked :
      (s : Session) (f : Frame)
      → s.stream ≡ established
      → IsTracked seen s
      → IsTracked seen (handle_receipt s f)
  unfolding handle_receipt
  handle_receipt-IsTracked s f live t =
      elim (Option-cases (get f.headers (standard StandardHeader.receipt_id))) [
        | inl missing ↦ rw (missing, handle_receipt) t
        | inr (id, found) ↦
            rw (found, handle_receipt)
              (settle_receipt-IsTracked _ id f
                (ended_if-IsTracked (text_eq id (codes "msg/disconnect")) s live t))
      ]

  on_recv_data-IsTracked : (s : Session) → IsTracked seen s → IsTracked seen (on_recv_data s)
  unfolding on_recv_data
  on_recv_data-IsTracked s t = ground (arith, rx-IsTracked s t)

  on_frame-IsTracked :
      (c : Command) (s : Session) (f : Frame)
      → s.stream ≡ established
      → IsTracked seen s
      → IsTracked seen (on_frame c s f)
  unfolding on_frame
  on_frame-IsTracked Command.error s f live t = push_event-IsTracked s (SessionEvent.error f) refl t
  on_frame-IsTracked Command.receipt s f live t = handle_receipt-IsTracked s f live t
  on_frame-IsTracked Command.connected s f live t = on_connected-IsTracked s f live t
  on_frame-IsTracked Command.message s f live t = on_message-IsTracked s f t
  on_frame-IsTracked _ s f live t = push_event-IsTracked s (SessionEvent.unknown f) refl t

  pub on_transmission-IsTracked :
      (s : Session) (tx : Transmission)
      → s.stream ≡ established
      → IsTracked seen s
      → IsTracked seen (on_transmission s tx)
  unfolding on_transmission
  on_transmission-IsTracked s heart_beat_line live t = on_recv_data-IsTracked s t
  on_transmission-IsTracked s (complete_frame f) live t =
      on_frame-IsTracked f.command (on_recv_data s) f (stream-on_recv_data s ∙ live)
        (on_recv_data-IsTracked s t)
