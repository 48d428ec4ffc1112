-- ===== src/Stomp/Frame.antt =====
-- src/broker/stomp/frame.rs and the acknowledgement modes of src/broker/stomp/subscription.rs.
pub mod Size
use grinbox.Prelude.{ℕ, ◌+◌, ◌++◌, List, [], ◌∷◌, length, if◌then◌else◌}
use grinbox.Prelude.Text.{Text, codes}
use grinbox.Prelude.Text.Utf8.{valid_utf8}
use grinbox.Prelude.Decimal.{to_text}
use grinbox.Stomp.Header.{Header, HeaderList, get_raw}
use grinbox.Stomp.Header.Names.{StandardHeader, HeaderName, standard}

pub data Command : Type 0 where
  send subscribe unsubscribe begin commit abort ack nack disconnect : Command
  connect stomp connected message receipt error : Command

-- `Command::as_str`
unfoldable pub command_text : Command → Text
command_text send = codes "SEND"
command_text subscribe = codes "SUBSCRIBE"
command_text unsubscribe = codes "UNSUBSCRIBE"
command_text begin = codes "BEGIN"
command_text commit = codes "COMMIT"
command_text abort = codes "ABORT"
command_text ack = codes "ACK"
command_text nack = codes "NACK"
command_text disconnect = codes "DISCONNECT"
command_text connect = codes "CONNECT"
command_text stomp = codes "STOMP"
command_text connected = codes "CONNECTED"
command_text message = codes "MESSAGE"
command_text receipt = codes "RECEIPT"
command_text error = codes "ERROR"

-- `AckMode` with `as_str`
pub data AckMode : Type 0 where
  auto client client_individual : AckMode

unfoldable pub ack_mode_text : AckMode → Text
ack_mode_text auto = codes "auto"
ack_mode_text client = codes "client"
ack_mode_text client_individual = codes "client-individual"

pub record Frame : Type 0 where
  pub command : Command
  pub headers : HeaderList
  pub body : List ℕ

pub data Transmission : Type 0 where
  heart_beat_line : Transmission
  complete_frame : Frame → Transmission

-- The loop over the headers in `Frame::write`.
unfoldable pub write_headers : HeaderList → List ℕ
write_headers [] = []
write_headers (h ∷ hs) = get_raw h ++ 10 ∷ write_headers hs

-- `Frame::write`: the bytes that are appended to the buffer
unfoldable pub write_frame : Frame → List ℕ
unfolding write_headers
write_frame f = command_text f.command ++ 10 ∷ (write_headers f.headers ++ 10 ∷ (f.body ++ 0 ∷ []))

-- `Display` of `Frame`, which shows a body that is no UTF-8 as a note
unfoldable pub show_frame : Frame → Text
unfolding write_headers
show_frame f =
    command_text f.command
    ++ 10
      ∷ (write_headers f.headers
          ++ 10 ∷ (if valid_utf8 f.body then f.body else codes "<Binary content>"))

-- `Transmission::write`
unfoldable pub write : Transmission → List ℕ
write heart_beat_line = 10 ∷ []
write (complete_frame f) = write_frame f

-- the fold in `Frame::count_bytes`
count_headers : ℕ → HeaderList → ℕ
count_headers n [] = n
count_headers n (h ∷ hs) = count_headers (n + length (get_raw h) + 1) hs

-- `Frame::count_bytes`
unfoldable pub count_bytes : Frame → ℕ
unfolding count_headers
count_bytes f = length (command_text f.command) + 1 + count_headers 0 f.headers + 1 + length f.body

-- `Header::new` with a standard name
abbrev pub std : StandardHeader → Text → Header
std k v = record { name = standard k; value = v }

-- `Frame::empty`
abbrev pub empty : Command → HeaderList → Frame
empty command headers = record { command = command; headers = headers; body = [] }

-- The constructors of frames.
unfoldable pub connect_frame : ℕ → ℕ → Frame
connect_frame tx rx = empty connect (
    std StandardHeader.accept_version (codes "1.2")
    ∷ std StandardHeader.heart_beat (to_text tx ++ b',' ∷ to_text rx)
    ∷ std StandardHeader.content_length (codes "0")
    ∷ [])

unfoldable pub disconnect_frame : Frame
disconnect_frame = empty disconnect (std StandardHeader.receipt (codes "msg/disconnect") ∷ [])

unfoldable pub subscribe_frame : Text → Text → AckMode → Frame
unfolding ack_mode_text
subscribe_frame subscription_id dest mode = empty subscribe (
    std StandardHeader.destination dest
    ∷ std StandardHeader.id subscription_id
    ∷ std StandardHeader.ack (ack_mode_text mode)
    ∷ [])

unfoldable pub unsubscribe_frame : Text → Frame
unsubscribe_frame subscription_id = empty unsubscribe (std StandardHeader.id subscription_id ∷ [])

unfoldable pub ack_frame : Text → Frame
ack_frame ack_id = empty ack (std StandardHeader.id ack_id ∷ [])

unfoldable pub nack_frame : Text → Frame
nack_frame message_id = empty nack (std StandardHeader.id message_id ∷ [])

unfoldable pub send_frame : Text → List ℕ → Frame
send_frame dest body = record {
  command = send;
  headers =
      std StandardHeader.destination dest
      ∷ std StandardHeader.content_length (to_text (length body))
      ∷ [];
  body = body;
}

unfoldable pub begin_frame : Text → Frame
begin_frame transaction_id = empty begin (std StandardHeader.transaction transaction_id ∷ [])

unfoldable pub abort_frame : Text → Frame
abort_frame transaction_id = empty abort (std StandardHeader.transaction transaction_id ∷ [])

unfoldable pub commit_frame : Text → Frame
commit_frame transaction_id = empty commit (std StandardHeader.transaction transaction_id ∷ [])
