-- ===== src/Server/Refusals.antt =====
-- The errors that src/server/mod.rs answers.
use grinbox.Prelude.{ℕ, ◌≡◌, ◌≢◌, Option, arith}
use grinbox.Prelude.Text.{Text}
use grinbox.Types.Errors.{GrinboxError, unknown_error}
use grinbox.Types.Address.{GrinboxAddress}
use grinbox.Server.Environment.{Environment}
use grinbox.Server.Handler.{
  AsyncServer, Reply, respond, error_of, send_broker, send_handler, add_subscription, unsubscribe,
  subscribe, forward, post_checked, post_slate, on_request, on_message,
}

-- An error other than the unknown one: nothing of the request was carried out.
abbrev pub IsRefused : AsyncServer → Reply × AsyncServer → Type 0
IsRefused s (reply, s') =
    (kind : GrinboxError) → kind ≢ unknown_error → reply ≡ respond (error_of kind) → s' ≡ s

add_subscription-IsRefused :
    (s : AsyncServer) (address : Text) → IsRefused s (add_subscription s address)
unfolding add_subscription send_broker send_handler
add_subscription-IsRefused s address kind h e = grind arith

unsubscribe-IsRefused : (s : AsyncServer) (address : Text) → IsRefused s (unsubscribe s address)
unfolding unsubscribe send_broker
unsubscribe-IsRefused s address kind h e = grind arith

module _ (env : Environment) where
  forward-IsRefused :
      (s : AsyncServer) (from to : GrinboxAddress) (str used signature : Text) (seconds : Option ℕ)
      → IsRefused s (forward env s from to str used signature seconds)
  unfolding forward send_broker
  forward-IsRefused s from to str used signature seconds kind h e = grind arith

  post_slate-IsRefused :
      (s : AsyncServer) (from to str signature : Text) (seconds : Option ℕ)
      → IsRefused s (post_slate env s from to str signature seconds)
  unfolding post_slate post_checked
  post_slate-IsRefused s from to str signature seconds kind h e = grind (arith, forward-IsRefused)

  -- When the answer to a client's message is an error other than the unknown one, the connection,
  -- its requests to the broker and its handlers are as they were before the message.
  pub on_message-refused :
      (s : AsyncServer) (msg : Text) (kind : GrinboxError)
      → kind ≢ unknown_error
      → (on_message env s msg).0 ≡ respond (error_of kind)
      → (on_message env s msg).1 ≡ s
  unfolding on_message on_request subscribe
  on_message-refused s msg kind h e =
      grind (arith, add_subscription-IsRefused, unsubscribe-IsRefused, post_slate-IsRefused)
