-- ===== src/Broker/Polling.antt =====
-- src/broker/rabbit_broker.rs: `poll` of `BrokerSession`. `none` stands for a loop of the session
-- that is given too few rounds, which never is.
use grinbox.Prelude.{ℕ, Bool, Option, none, some, List}
use grinbox.Prelude.Text.{Text}
use grinbox.Stomp.Session.{SessionEvent, message, disconnected, IoError}
use grinbox.Stomp.Session.Polling.{TimerPoll, PollResult, event, idle, poll_error}
use grinbox.Stomp.Session.Polling as Sessions
use grinbox.Broker.Consumers.{BrokerSession, Handled, returned, panicked, on_message}

-- What `poll` returns: the future is finished, it is waiting (`NotReady`), or it has failed with an
-- error. A panic is `broken`.
pub data BrokerPoll : Type 0 where
  finished waiting broken : BrokerPoll
  failed : IoError → BrokerPoll

abbrev pub of_handled : BrokerSession → Handled → BrokerPoll × BrokerSession
of_handled b (returned b') = (waiting, b')
of_handled b panicked = (broken, b)

module _ (graphemes : Text → List Text) (is_open : ℕ → Bool) where
  -- the dispatch on the session's event
  unfoldable pub on_event : BrokerSession → SessionEvent → BrokerPoll × BrokerSession
  on_event b (message destination ack_mode frame) =
      of_handled b (on_message graphemes is_open b frame)
  on_event b (disconnected reason) = (finished, b)
  on_event b _ = (waiting, b)

  unfoldable pub on_polled : BrokerSession → PollResult → BrokerPoll × BrokerSession
  on_polled b (event e) = on_event b e
  on_polled b idle = (waiting, b)
  on_polled b (poll_error e) = (failed e, b)

  -- `poll`
  unfoldable pub poll : (ℕ → ℕ → TimerPoll) → BrokerSession → Option (BrokerPoll × BrokerSession)
  poll delay_poll b = elim (Sessions.poll delay_poll b.session) [
    | none ↦ none
    | some (result, s) ↦ some (on_polled (record b { session = s }) result)
  ]
