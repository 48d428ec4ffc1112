-- ===== src/Stomp/Session/Reports.antt =====
-- What `poll` of src/broker/stomp/session.rs reports of the end of the session.
use grinbox.Prelude.{
  ℕ, zero, suc, ◌≡◌, ◌≢◌, refl, ap, Option, some, List, [], ◌∷◌, arith, length, Option-cases, subst,
  inl, inr,
}
use grinbox.Stomp.Frame.{Transmission}
use grinbox.Stomp.Session.{
  Session, SessionEvent, disconnected, StreamState, established, connecting, failed, Transport,
  FramedPoll, ConnectPoll, heart_beat_timeout, flush,
}
use grinbox.Stomp.Session.Receive.{on_transmission}
use grinbox.Stomp.Session.Polling.{
  TimerPoll, elapsed, running, broken, PollResult, event, poll_established, poll_connecting,
  on_polled, on_connect_polled, poll_by, poll_stream_rounds, poll_stream, poll_loop,
  poll_stream_complete, complete_by, pop_event, poll_heartbeat, on_timer, after_loop, poll,
}
use grinbox.Stomp.Session.Lifecycle.{
  disconnects, IsTracked, send_result-IsTracked, on_disconnect-IsTracked, on_stream_ready-IsTracked,
  on_transmission-IsTracked, reply_to_heartbeat-IsTracked,
}

module _ (seen : ℕ) where
  -- What `poll_stream` returns: a transmission comes from an established stream.
  record IsDelivered (r : Option Transmission × Session) : Type 0 where
    tracked : IsTracked seen r.1
    live : (t : Transmission) → r.0 ≡ some t → r.1.stream ≡ established

  IsTracked-io :
      {s : Session} (io : Transport) → IsTracked seen s → IsTracked seen (record s { io = io })
  IsTracked-io io t = record { counted = t.counted; quiet = t.quiet }

  on_polled-IsDelivered :
      (a : FramedPoll) (s : Session)
      → s.stream ≡ established
      → IsTracked seen s
      → IsDelivered (on_polled a s)
  unfolding on_polled
  on_polled-IsDelivered (FramedPoll.item u) s e t = record { tracked = t; live = λ v p. e }
  on_polled-IsDelivered FramedPoll.end s e t = record {
    tracked = on_disconnect-IsTracked seen s _ (λ h. cc) t;
    live = λ v p. cc;
  }
  on_polled-IsDelivered FramedPoll.pending s e t = record { tracked = t; live = λ v p. cc }
  on_polled-IsDelivered (FramedPoll.recv_error x) s e t = record {
    tracked = on_disconnect-IsTracked seen s _ (λ h. cc) t;
    live = λ v p. cc;
  }

  on_connect_polled-IsDelivered :
      (again : Session → Option Transmission × Session) (a : ConnectPoll) (s : Session)
      → ((s' : Session) → IsTracked seen s' → IsDelivered (again s'))
      → s.stream ≡ connecting
      → IsTracked seen s
      → IsDelivered (on_connect_polled again a s)
  unfolding on_connect_polled
  on_connect_polled-IsDelivered again ConnectPoll.open_stream s h e t = h _ (
      on_stream_ready-IsTracked seen _
        (record { counted = ground (arith, t.counted); quiet = λ q. cc }))
  on_connect_polled-IsDelivered again ConnectPoll.still_connecting s h e t = record {
    tracked = t;
    live = λ v p. cc;
  }
  on_connect_polled-IsDelivered again (ConnectPoll.connect_error x) s h e t = record {
    tracked = on_disconnect-IsTracked seen s _ (λ q. cc) t;
    live = λ v p. cc;
  }

  poll_established-IsDelivered :
      (s : Session) → s.stream ≡ established → IsTracked seen s → IsDelivered (poll_established s)
  unfolding poll_established
  poll_established-IsDelivered s e t = on_polled-IsDelivered _ _ e (IsTracked-io _ t)

  poll_connecting-IsDelivered :
      (again : Session → Option Transmission × Session) (s : Session)
      → ((s' : Session) → IsTracked seen s' → IsDelivered (again s'))
      → s.stream ≡ connecting
      → IsTracked seen s
      → IsDelivered (poll_connecting again s)
  unfolding poll_connecting
  poll_connecting-IsDelivered again s h e t =
      on_connect_polled-IsDelivered again _ _ h e (IsTracked-io _ t)

  poll_by-IsDelivered :
      (st : StreamState) (again : Session → Option Transmission × Session) (s : Session)
      → ((s' : Session) → IsTracked seen s' → IsDelivered (again s'))
      → s.stream ≡ st
      → IsTracked seen s
      → IsDelivered (poll_by st again s)
  unfolding poll_by
  poll_by-IsDelivered established again s h e t = poll_established-IsDelivered s e t
  poll_by-IsDelivered connecting again s h e t = poll_connecting-IsDelivered again s h e t
  poll_by-IsDelivered failed again s h e t = record { tracked = t; live = λ u p. cc }

  poll_stream_rounds-IsDelivered :
      (rounds : ℕ) (s : Session) → IsTracked seen s → IsDelivered (poll_stream_rounds rounds s)
  unfolding poll_stream_rounds
  poll_stream_rounds-IsDelivered zero s t = record { tracked = t; live = λ u p. cc }
  poll_stream_rounds-IsDelivered (suc rounds) s t =
      poll_by-IsDelivered s.stream (poll_stream_rounds rounds) s
        (poll_stream_rounds-IsDelivered rounds) refl t

  poll_stream-IsDelivered : (s : Session) → IsTracked seen s → IsDelivered (poll_stream s)
  unfolding poll_stream
  poll_stream-IsDelivered s t = poll_stream_rounds-IsDelivered 2 s t

  poll_loop-IsTracked :
      (rounds : ℕ) (s s' : Session)
      → IsTracked seen s
      → poll_loop rounds s ≡ some s'
      → IsTracked seen s'
  unfolding poll_loop
  poll_loop-IsTracked zero s s' t e = cc
  poll_loop-IsTracked (suc rounds) s s' t e =
      let d = poll_stream-IsDelivered s t in
      elim (Option-cases (poll_stream s).0) [
        | inl done ↦ subst (IsTracked seen) (ground arith) d.tracked
        | inr (tx, got) ↦
            poll_loop-IsTracked rounds (on_transmission (poll_stream s).1 tx) s'
              (on_transmission-IsTracked seen (poll_stream s).1 tx (d.live tx got) d.tracked)
              (ground arith)
      ]

  complete_by-IsTracked :
      (st : StreamState) (s : Session)
      → s.stream ≡ st
      → IsTracked seen s
      → IsTracked seen (complete_by st s)
  unfolding complete_by
  complete_by-IsTracked established s e t = send_result-IsTracked seen s (flush s.io) (λ q. cc) t
  complete_by-IsTracked connecting s e t = t
  complete_by-IsTracked failed s e t = t

  -- How many disconnections have been returned when `poll` has returned this.
  abbrev pub after : PollResult → ℕ
  after (event (disconnected r)) = suc seen
  after _ = seen

  abbrev pub IsReported : PollResult × Session → Type 0
  IsReported (r, s) = IsTracked (after r) s

  pop_event-IsReported :
      (s : Session) (es : List SessionEvent)
      → s.events ≡ es
      → IsTracked seen s
      → IsReported (pop_event s es)
  unfolding pop_event
  pop_event-IsReported s [] e t = t
  pop_event-IsReported s (disconnected r ∷ es) e t = record {
    counted = omega (arith, t.counted, ap disconnects e);
    quiet = t.quiet;
  }
  pop_event-IsReported s (_ ∷ es) e t = record {
    counted = omega (arith, t.counted, ap disconnects e);
    quiet = t.quiet;
  }

  finish-IsReported :
      (s : Session)
      → IsTracked seen s
      → IsReported (let s' = poll_stream_complete s in pop_event s' s'.events)
  unfolding poll_stream_complete
  finish-IsReported s t = pop_event-IsReported _ _ refl (complete_by-IsTracked s.stream s refl t)

  on_timer-IsReported :
      (a : TimerPoll) (late s : Session) (continue : Session → PollResult × Session)
      → (a ≡ elapsed → IsTracked seen late)
      → IsTracked seen s
      → ((s' : Session) → IsTracked seen s' → IsReported (continue s'))
      → IsReported (on_timer a late s continue)
  unfolding on_timer
  on_timer-IsReported elapsed late s continue l t c = c late (l refl)
  on_timer-IsReported running late s continue l t c = c s t
  on_timer-IsReported broken late s continue l t c = t

  -- a timer can only have elapsed on a session that has not ended
  live_of_elapsed :
      (delay_poll : ℕ → ℕ → TimerPoll) (s : Session)
      → IsTracked seen s
      → poll_heartbeat delay_poll s.now s.state.rx_heartbeat ≡ elapsed
      → s.stream ≢ failed
  unfolding poll_heartbeat
  live_of_elapsed delay_poll s t e h = ground (arith, t.quiet h)

  after_loop-IsReported :
      (delay_poll : ℕ → ℕ → TimerPoll) (s : Session)
      → IsTracked seen s
      → IsReported (after_loop delay_poll s)
  unfolding after_loop
  after_loop-IsReported delay_poll s t =
      on_timer-IsReported _ _ s _
        (λ e.
          on_disconnect-IsTracked seen s heart_beat_timeout (live_of_elapsed delay_poll s t e) t)
        t
        λ s1 t1.
          on_timer-IsReported _ _ s1 _ (λ _. reply_to_heartbeat-IsTracked seen s1 t1) t1
            finish-IsReported

  -- A `poll` counts the disconnections that it returns.
  pub poll-IsReported :
      (delay_poll : ℕ → ℕ → TimerPoll) (s : Session) (r : PollResult × Session)
      → IsTracked seen s
      → poll delay_poll s ≡ some r
      → IsReported r
  unfolding poll
  poll-IsReported delay_poll s r t e = elim (Option-cases (poll_loop (suc (length s.io.polls)) s)) [
    | inl none_left ↦ cc (rw (none_left, poll) at e)
    | inr (s1, looped) ↦
        subst IsReported (ground arith)
          (after_loop-IsReported delay_poll s1 (poll_loop-IsTracked _ s s1 t looped))
  ]
