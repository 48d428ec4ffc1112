-- ===== src/Stomp/Session/Runs.antt =====
-- Every run of a session of src/broker/stomp/session.rs: its owner polls it and calls its
-- operations in any order, and the transport and the clock go on as they like in between.
use grinbox.Prelude.{ℕ, ◌≡◌, Option, none, some, arith}
use grinbox.Prelude.Text.{Text}
use grinbox.Stomp.Frame.{Frame, Transmission}
use grinbox.Stomp.Session.{
  Session, SessionConfig, Transport, new, generate_receipt_id, generate_subscription_id,
  generate_transaction_id, send, unsubscribe,
}
use grinbox.Stomp.Session.Polling.{TimerPoll, PollResult, poll}
use grinbox.Stomp.Builders.Message
use grinbox.Stomp.Builders.Subscribe
use grinbox.Stomp.Builders.Transaction
use grinbox.Stomp.Session.Lifecycle.{IsTracked, send-IsTracked}
use grinbox.Stomp.Session.Reports.{after, poll-IsReported}

-- The steps of a run, with the number of disconnections that `poll` has returned.
pub data Run (delay_poll : ℕ → ℕ → TimerPoll) (config : SessionConfig) : ℕ → Session → Type 0 where
  start : (io : Transport) (now : ℕ) → Run delay_poll config 0 (new config io now)
  environment :
      {seen : ℕ} {s : Session} (io : Transport) (now : ℕ)
      → Run delay_poll config seen s
      → Run delay_poll config seen (record s { io = io; now = now })
  sending :
      {seen : ℕ} {s : Session} (tx : Transmission)
      → Run delay_poll config seen s
      → Run delay_poll config seen (send s tx)
  unsubscribing :
      {seen : ℕ} {s : Session} (id : Text)
      → Run delay_poll config seen s
      → Run delay_poll config seen (unsubscribe s id)
  messaging :
      {seen : ℕ} (b : Message.MessageBuilder)
      → Run delay_poll config seen b.session
      → Run delay_poll config seen (Message.send b)
  subscribing :
      {seen : ℕ} (b : Subscribe.SubscriptionBuilder)
      → Run delay_poll config seen b.session
      → Run delay_poll config seen (Subscribe.start b).1
  numbering :
      {seen : ℕ} {s : Session}
      → Run delay_poll config seen s
      → Run delay_poll config seen (generate_receipt_id s).1
  beginning :
      {seen : ℕ} {s : Session}
      → Run delay_poll config seen s
      → Run delay_poll config seen (Transaction.begin_transaction s).session
  polling :
      {seen seen' : ℕ} {s s' : Session} (r : PollResult)
      → Run delay_poll config seen s
      → poll delay_poll s ≡ some (r, s')
      → seen' ≡ after seen r
      → Run delay_poll config seen' s'

-- Bookkeeping in the state that leaves the stream, the queue and the timers alone.
module _ (seen : ℕ) where
  await_receipt-IsTracked :
      (o : Option Text) (f : Frame) (s : Session)
      → IsTracked seen s
      → IsTracked seen (Message.await_receipt o f s)
  unfolding Message.await_receipt
  await_receipt-IsTracked none f s t = t
  await_receipt-IsTracked (some id) f s t = record { counted = t.counted; quiet = t.quiet }

  message-IsTracked :
      (b : Message.MessageBuilder) → IsTracked seen b.session → IsTracked seen (Message.send b)
  unfolding Message.send
  message-IsTracked b t =
      send-IsTracked seen _ _ (await_receipt-IsTracked b.receipt_request b.frame b.session t)

  subscribe-IsTracked :
      (b : Subscribe.SubscriptionBuilder)
      → IsTracked seen b.session
      → IsTracked seen (Subscribe.start b).1
  unfolding Subscribe.start Subscribe.register generate_subscription_id
  subscribe-IsTracked b t =
      let sent =
        send-IsTracked seen (generate_subscription_id b.session).1 _
          (record { counted = t.counted; quiet = t.quiet }) in
      await_receipt-IsTracked b.receipt_request _ _
        (record { counted = sent.counted; quiet = sent.quiet })

module _ {delay_poll : ℕ → ℕ → TimerPoll} {config : SessionConfig} where
  -- In every run of a session, with any interleaving of polls, sends, subscriptions and transport
  -- behaviour, the disconnections that poll has returned and those still queued are one if the
  -- session has ended and none if it has not, and an ended session has no heart-beat timers.
  pub Run-IsTracked : {seen : ℕ} {s : Session} → Run delay_poll config seen s → IsTracked seen s
  unfolding new unsubscribe generate_receipt_id Transaction.begin_transaction Transaction.begin
      Transaction.create generate_transaction_id
  Run-IsTracked (start io now) = record { counted = omega arith; quiet = λ q. cc }
  Run-IsTracked (environment io now r) =
      let t = Run-IsTracked r in record { counted = t.counted; quiet = t.quiet }
  Run-IsTracked (sending tx r) = send-IsTracked _ _ tx (Run-IsTracked r)
  Run-IsTracked (unsubscribing id r) =
      let t = Run-IsTracked r in
      send-IsTracked _ _ _ (record { counted = t.counted; quiet = t.quiet })
  Run-IsTracked (messaging b r) = message-IsTracked _ b (Run-IsTracked r)
  Run-IsTracked (subscribing b r) = subscribe-IsTracked _ b (Run-IsTracked r)
  Run-IsTracked (numbering r) =
      let t = Run-IsTracked r in record { counted = t.counted; quiet = t.quiet }
  Run-IsTracked (beginning r) =
      let t = Run-IsTracked r in
      send-IsTracked _ _ _ (record { counted = t.counted; quiet = t.quiet })
  Run-IsTracked (polling {seen = seen} {s = s} result r polled counted) =
      rw counted (poll-IsReported seen delay_poll s (result, _) (Run-IsTracked r) polled)
