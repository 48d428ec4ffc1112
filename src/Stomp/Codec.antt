-- ===== src/Stomp/Codec.antt =====
-- src/broker/stomp/codec.rs: the decoder of the bytes that the broker sends, and the encoder.
-- A byte buffer is the list of its bytes; `usize` has 64 bits. The decoder never returns
-- `out_of_fuel`, the outcome of a header loop that is given too few rounds.
pub mod Outcomes
pub mod Append
pub mod Progress
pub mod Malformed
pub mod RoundTrip
pub mod Stream
use grinbox.Prelude.{
  ℕ, zero, suc, ◌+◌, ◌-◌, ◌^◌, ◌≡◌, Bool, Option, none, some, List, [], ◌∷◌, ◌++◌, ◌==◌, leb,
  length, take, drop, if◌then◌else◌,
}
use grinbox.Prelude.Text.{Text, codes, text_eq, splitn2, split}
use grinbox.Prelude.Text.Utf8.{valid_utf8}
use grinbox.Prelude.Decimal.{parse_uint}
use grinbox.Stomp.Header.{Header, HeaderList, push, get}
use grinbox.Stomp.Header.Names.{StandardHeader, standard}
use grinbox.Stomp.Header.Values.{from_str, decode_value}
use grinbox.Stomp.Frame.{
  Command, connected, message, receipt, error, Frame, Transmission, heart_beat_line, complete_frame,
  write,
}
use Outcomes.{
  Poll, ParseError, utf8, content_length, unknown_command, invalid, ready, not_ready, failed,
  panicked, out_of_fuel, ◌>>=◌,
}

-- the carriage return at the end of a line is dropped
unfoldable pub strip_cr : Text → Text
strip_cr [] = []
strip_cr (b ∷ []) = if b == 13 then [] else b ∷ []
strip_cr (a ∷ b ∷ s) = a ∷ strip_cr (b ∷ s)

-- `get_line`: the line and the bytes behind it
unfoldable pub get_line : Text → Poll (Text × Text)
get_line src =
    let (line, rest) = splitn2 10 src in
    elim rest [ none ↦ not_ready | some remain ↦ ready (strip_cr line, remain) ]

-- `parse_command`; the `unwrap` of an unknown command that is no UTF-8 panics
unfoldable pub parse_command : Text → Poll Command
parse_command src =
    if text_eq src (codes "CONNECTED")
    then ready connected
    else if text_eq src (codes "MESSAGE")
    then ready message
    else if text_eq src (codes "RECEIPT")
    then ready receipt
    else if text_eq src (codes "ERROR")
    then ready error
    else if valid_utf8 src
    then failed (unknown_command src)
    else panicked

-- the body of a frame and the bytes behind its NUL
unfoldable pub read_body : HeaderList → Text → Poll (Text × Text)
read_body headers src = elim (get headers (standard StandardHeader.content_length)) [
  | some value ↦ elim (parse_uint (2 ^ 64) value) [
    | none ↦ failed content_length
    | some len ↦ if leb (length src) len then not_ready else elim (drop len src) [
      | [] ↦ panicked
      | b ∷ rest ↦ if b == 0 then ready (take len src, rest) else failed invalid
    ]
  ]
  | none ↦
      let (body, rest) = splitn2 0 src in
      elim rest [ none ↦ not_ready | some remain ↦ ready (body, remain) ]
]

module _ (graphemes : Text → List Text) where
  -- `parse_header`
  unfoldable pub parse_header : Text → Poll Header
  parse_header src =
      if valid_utf8 src
      then (let (key, more) = split b':' src in
          elim more [
            | [] ↦ not_ready
            | value ∷ _ ↦
                ready (record { name = from_str graphemes key; value = decode_value value })
          ])
      else failed utf8

  -- the loop over the header lines
  unfoldable pub read_headers : ℕ → HeaderList → Text → Poll (HeaderList × Text)
  read_headers zero headers src = out_of_fuel
  read_headers (suc rounds) headers src = do
    (line, src1) ← get_line src
    let more = parse_header line >>= λ header. read_headers rounds (push headers header) src1
    elim line [ [] ↦ ready (headers, src1) | _ ∷ _ ↦ more ]

  -- `parse_transmission`: the transmission and how many bytes it takes
  unfoldable pub parse_transmission : Text → Poll (Transmission × ℕ)
  parse_transmission src0 = do
    (line, src) ← get_line src0
    let frame = do
      command ← parse_command line
      (headers, src1) ← read_headers (suc (length src)) [] src
      (body, src2) ← read_body headers src1
      ready (
        complete_frame (record { command = command; headers = headers; body = body }),
        length src0 - length src2,
      )
    elim line [ [] ↦ ready (heart_beat_line, length src0 - length src) | _ ∷ _ ↦ frame ]

  -- `Decoder::decode`: its result, with `none` for `Ok(None)`, and the buffer that it leaves
  unfoldable pub decode : Text → Poll (Option Transmission) × Text
  decode src = elim (parse_transmission src) [
    | ready (t, len) ↦ (ready (some t), drop len src)
    | not_ready ↦ (ready none, src)
    | failed e ↦ (failed e, src)
    | panicked ↦ (panicked, src)
    | out_of_fuel ↦ (out_of_fuel, src)
  ]

-- `Encoder::encode`: the bytes that it appends
unfoldable pub encode : Transmission → Text → Text
encode item buffer = buffer ++ write item
