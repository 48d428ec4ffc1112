-- ===== src/Stomp/Builders/Message.antt =====
-- src/broker/stomp/message_builder.rs with its options in option_setter.rs, and `Session::message`.
use grinbox.Prelude.{ℕ, ◌++◌, List, Option, none, some, not, Bool}
use grinbox.Prelude.Text.{Text, codes, text_eq}
use grinbox.Prelude.Decimal.{to_text}
use grinbox.Prelude.Assoc.{insert}
use grinbox.Stomp.Header.{Header, push, retain}
use grinbox.Stomp.Header.Names.{StandardHeader, name_text}
use grinbox.Stomp.Frame.{Frame, std}
use grinbox.Stomp.Frame as Frames
use grinbox.Stomp.Session.{Session, send_frame, generate_receipt_id}

-- A header whose key is not that of a `SuppressedHeader`.
unfoldable pub differs : Text → Header → Bool
differs key h = not (text_eq (name_text h.name) key)

-- `MessageBuilder`; a `ReceiptRequest` is its id
pub record MessageBuilder : Type 0 where
  pub session : Session
  pub frame : Frame
  pub receipt_request : Option Text

-- `MessageBuilder::new`
abbrev pub create : Session → Frame → MessageBuilder
create session frame = record { session = session; frame = frame; receipt_request = none }

-- `Session::message`
unfoldable pub message : Session → Text → List ℕ → MessageBuilder
message s destination body = create s (Frames.send_frame destination body)

abbrev add_header : Frame → Header → Frame
add_header f h = record f { headers = push f.headers h }

-- `set_option` of a `Header`, a `SuppressedHeader` and `GenerateReceipt`
unfoldable pub with_header : MessageBuilder → Header → MessageBuilder
with_header b h = record b { frame = add_header b.frame h }

unfoldable pub without_header : MessageBuilder → Text → MessageBuilder
without_header b key = record b {
  frame = record (b.frame) { headers = retain (differs key) b.frame.headers };
}

unfoldable pub with_receipt : MessageBuilder → MessageBuilder
with_receipt b =
    let (next_id, session) = generate_receipt_id b.session in
    let receipt_id = codes "message/" ++ to_text next_id in
    record {
      session = session;
      receipt_request = some receipt_id;
      frame = add_header b.frame (std StandardHeader.receipt receipt_id);
    }

-- a receipt that the session waits for, if one was requested
unfoldable pub await_receipt : Option Text → Frame → Session → Session
await_receipt none frame s = s
await_receipt (some id) frame s = record s {
  state = record (s.state) { outstanding_receipts = insert id frame s.state.outstanding_receipts };
}

-- `MessageBuilder::send`
unfoldable pub send : MessageBuilder → Session
send b = send_frame (await_receipt b.receipt_request b.frame b.session) b.frame
