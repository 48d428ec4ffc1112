-- ===== src/Server/Environment.antt =====
-- What src/server/mod.rs uses of other code: the addresses of grinboxlib behind their operations,
-- and the packages for JSON and for websocket clients.
use grinbox.Prelude.{◌≡◌, Option, some}
use grinbox.Prelude.Text.{Text}
use grinbox.Types.Errors.{Outcome}
use grinbox.Types.Address.{GrinboxAddress}
use grinbox.Types.Messages.{GrinboxRequest, GrinboxResponse, SignedPayload}

-- What the closure that `post_slate_federated` hands to `connect` does on a message. It panics when
-- the message cannot be read, and when the sending of a request fails.
pub data Reaction : Type 0 where
  send_request : GrinboxRequest → Reaction
  close_abnormal close_normal ignore unreadable : Reaction

-- How `ws::connect`, which runs the closure on its own thread, comes to an end: with `Ok`, with
-- `Err`, or in a panic of the closure.
pub data ConnectEnd : Type 0 where
  finished aborted panicked : ConnectEnd

pub record Environment : Type 0 where
  -- `GrinboxAddress::from_str_raw` and `stripped`
  pub from_str_raw : Text → Outcome GrinboxAddress
  pub stripped : GrinboxAddress → Text
  -- `AsyncServer::verify_signature` calls, on the texts of a key, a challenge and a signature,
  -- `from_base58_check_raw`, `from_hex` and `verify_signature` of grinboxlib/src/utils/crypto.rs
  pub check_signature : Text → Text → Text → Outcome (Unit {0})
  -- `serde_json`
  pub parse_request : Text → Option GrinboxRequest
  pub parse_response : Text → Option GrinboxResponse
  pub print_payload : SignedPayload → Text
  pub parse_payload : Text → Option SignedPayload
  -- `ws::connect` to a URL with the closure's reactions to the texts of the messages
  pub connect : Text → (Text → Reaction) → ConnectEnd

-- The documented behaviour on which statements rely: what was printed is parsed again.
pub record IsFaithful (env : Environment) : Type 0 where
  pub parse-print : (p : SignedPayload) → env.parse_payload (env.print_payload p) ≡ some p
