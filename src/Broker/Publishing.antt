-- ===== src/Broker/Publishing.antt =====
-- `BrokerSession::publish` of src/broker/rabbit_broker.rs: the frame that is sent.
use grinbox.Prelude.{ℕ, ◌≤◌, ◌≡◌, refl, Option, none, some, List, [], ◌∷◌, ◌++◌, arith, length}
use grinbox.Prelude.Text.{Text, codes, text_eq}
use grinbox.Prelude.Decimal.{to_text}
use grinbox.Stomp.Header.{get}
use grinbox.Stomp.Header.Names.{
  StandardHeader, standard, custom, name_eq, parse_standard, standard_text,
}
use grinbox.Stomp.Header.Values.{IsSegmentation, IsPlain, from_str, encode_value_plain}
use grinbox.Stomp.Frame.{Frame, Command, Transmission, complete_frame, send_frame}
use grinbox.Stomp.Session.{
  Session, StreamState, established, StartSend, accepted, IoError, Transport, pop_start, start_send,
  flush, send_established, send_result, send_by, on_disconnect,
}
use grinbox.Stomp.Session as Sessions
use grinbox.Stomp.Builders.Message as Message
use grinbox.Broker.Consumers.{BrokerSession, message_expiration, outgoing, publish}

-- Whatever a client asks for, the expiration of a message lies between 1000 and 86400000 ms.
pub message_expiration_bounds :
    (seconds : Option ℕ)
    → (1000 ≤ message_expiration seconds) × (message_expiration seconds ≤ 86400000)
unfolding message_expiration
message_expiration_bounds none = omega arith
message_expiration_bounds (some n) = ground arith

-- An established stream that takes what it is given has taken the frame, even if it then fails.
sent_established :
    (s : Session) (tx : Transmission)
    → s.stream ≡ established
    → (pop_start s.io.starts).0 ≡ accepted
    → (Sessions.send s tx).io.sent ≡ s.io.sent ++ tx ∷ []
unfolding Sessions.send send_by send_result send_established start_send flush on_disconnect
sent_established s tx e f = ground (arith, e, f)

module _ (graphemes : Text → List Text) (seg : IsSegmentation graphemes) where
  custom_name : (s : Text) → IsPlain s → parse_standard s ≡ none → from_str graphemes s ≡ custom s
  unfolding from_str
  custom_name s plain e = ground (arith, encode_value_plain graphemes seg s plain, e)

  x_expires_name : from_str graphemes (codes "x-expires") ≡ custom (codes "x-expires")
  unfolding parse_standard standard_text text_eq
  x_expires_name = custom_name (codes "x-expires") (ground arith) refl

  expiration_name : from_str graphemes (codes "expiration") ≡ custom (codes "expiration")
  unfolding parse_standard standard_text text_eq
  expiration_name = custom_name (codes "expiration") (ground arith) refl

  reply_to_name : from_str graphemes (codes "grinbox-reply-to") ≡ custom (codes "grinbox-reply-to")
  unfolding parse_standard standard_text text_eq
  reply_to_name = custom_name (codes "grinbox-reply-to") (ground arith) refl

  -- What a frame says of a message to a subject.
  pub record IsMessageTo (subject payload reply_to : Text) (seconds : Option ℕ) (f : Frame)
      : Type 0 where
    pub command : f.command ≡ Command.send
    pub destination :
        get f.headers (standard StandardHeader.destination) ≡ some (codes "/queue/" ++ subject)
    pub content_length :
        get f.headers (standard StandardHeader.content_length) ≡ some (to_text (length payload))
    pub expiration :
        get f.headers (from_str graphemes (codes "expiration"))
        ≡ some (to_text (message_expiration seconds))
    pub sender : get f.headers (from_str graphemes (codes "grinbox-reply-to")) ≡ some reply_to
    pub body : f.body ≡ payload

  outgoing-IsMessageTo :
      (s : Session) (subject payload reply_to : Text) (seconds : Option ℕ)
      → IsMessageTo subject payload reply_to seconds
          (outgoing graphemes s subject payload reply_to seconds).frame
  unfolding outgoing Message.with_header Message.message send_frame get name_eq text_eq
  outgoing-IsMessageTo s subject payload reply_to seconds = record {
    command = refl;
    destination = refl;
    content_length = refl;
    expiration = ground (arith, x_expires_name, expiration_name);
    sender = ground (arith, x_expires_name, expiration_name, reply_to_name);
    body = refl;
  }

  -- On an established stream that takes what it is given, `publish` sends exactly one frame: a SEND
  -- to /queue/ and the subject with the payload as its body, its length as content-length, the
  -- expiration of the message and the sender in their headers. It relies on the segmentation of
  -- ASCII texts.
  pub publish-IsMessageTo :
      (b : BrokerSession) (subject payload reply_to : Text) (seconds : Option ℕ)
      → b.session.stream ≡ established
      → (pop_start b.session.io.starts).0 ≡ accepted
      → (f : Frame) × ((publish graphemes b subject payload reply_to seconds).session.io.sent
          ≡ b.session.io.sent ++ complete_frame f ∷ [])
        × IsMessageTo subject payload reply_to seconds f
  unfolding publish Message.send outgoing Message.with_header Message.message Message.await_receipt
  publish-IsMessageTo b subject payload reply_to seconds e f = (
    (outgoing graphemes b.session subject payload reply_to seconds).frame,
    sent_established b.session _ e f,
    outgoing-IsMessageTo b.session subject payload reply_to seconds,
  )
