-- ===== src/Tests/Codec.antt =====
-- Runs of the decoder of src/broker/stomp/codec.rs on short frames.
use grinbox.Prelude.{◌≡◌, ◌≢◌, refl, [], ◌∷◌, ◌++◌, map, none, some, length, arith, if◌then◌else◌}
use grinbox.Prelude.Text.{Text, codes, text_eq, replace2, splitn2}
use grinbox.Prelude.Text.Utf8.{valid_utf8}
use grinbox.Stomp.Header.{Header, get, get_raw}
use grinbox.Stomp.Header.Names.{
  StandardHeader, standard, standard_text, name_text, name_eq, parse_standard,
}
use grinbox.Stomp.Header.Values.{ascii_clusters, encode_value, decode_value, from_str}
use grinbox.Stomp.Frame.{Command, Frame, complete_frame, command_text, write_headers, write_frame}
use grinbox.Stomp.Codec.Outcomes.{ready, not_ready, failed, panicked, out_of_fuel, unknown_command}
use grinbox.Stomp.Codec.{
  parse_transmission, decode, get_line, strip_cr, parse_command, read_headers, read_body,
}
use grinbox.Stomp.Codec.RoundTrip.{
  IsSent, IsReceived, IsSendable, decode_header, parse_transmission-write_frame,
}
use grinbox.Stomp.Codec.Progress.{parse_transmission-ne-out_of_fuel}
use grinbox.Stomp.Codec.Malformed.{
  IsBare, IsUnknown, parse_transmission_bare, parse_transmission_unknown,
}
use grinbox.Stomp.Codec.Stream.{Decodes, stop, next, Decodes-append}

abbrev id_header : Header
id_header = record { name = standard StandardHeader.id; value = codes "7" }

abbrev greeting : Frame
greeting = record { command = Command.message; headers = id_header ∷ []; body = codes "hi" }

id_header-IsSendable : IsSendable ascii_clusters id_header
unfolding name_text valid_utf8 from_str ascii_clusters parse_standard encode_value text_eq
id_header-IsSendable = record {
  name_field = (ground arith, refl);
  value_field = (ground arith, refl);
  name_stable = refl;
}

greeting-IsSent : IsSent ascii_clusters greeting
unfolding get name_eq
greeting-IsSent = record { command = tt; headers = (id_header-IsSendable, tt); body = ground arith }

parse_transmission-write_frame_example :
    parse_transmission ascii_clusters (write_frame greeting ++ codes "MES")
    ≡ ready (
      complete_frame (record greeting { headers = map decode_header greeting.headers }),
      length (write_frame greeting),
    )
parse_transmission-write_frame_example =
    parse_transmission-write_frame ascii_clusters greeting (codes "MES") greeting-IsSent

greeting_read :
    parse_transmission ascii_clusters (write_frame greeting)
    ≡ ready (complete_frame greeting, length (write_frame greeting))
unfolding decode_value replace2 write_frame command_text get_raw name_text
greeting_read = parse_transmission-write_frame ascii_clusters greeting [] greeting-IsSent

greeting_decided : parse_transmission ascii_clusters (write_frame greeting) ≢ not_ready
greeting_decided e = cc greeting_read

-- Two frames that are cut in the middle: the first chunk holds one frame and the start of the next.
abbrev chunk : Text
chunk = write_frame greeting ++ codes "MES"

abbrev rest_of_chunk : Text
rest_of_chunk = codes "SAGE" ++ 10 ∷ 10 ∷ 0 ∷ []

parse_transmission-ne-out_of_fuel_example :
    parse_transmission ascii_clusters (write_frame greeting) ≢ out_of_fuel
parse_transmission-ne-out_of_fuel_example =
    parse_transmission-ne-out_of_fuel ascii_clusters (write_frame greeting)

abbrev bare_line : Text
bare_line = codes "id"

bare_line-IsBare : IsBare bare_line
unfolding valid_utf8
bare_line-IsBare = record {
  nonempty = λ e. cc;
  utf8 = refl;
  no_lf = ground arith;
  no_cr = ground arith;
  no_colon = ground arith;
}

parse_transmission_bare_example :
    parse_transmission ascii_clusters (
      command_text Command.message
      ++ 10 ∷ (write_headers (id_header ∷ []) ++ (bare_line ++ 10 ∷ 10 ∷ 0 ∷ [])))
    ≡ not_ready
parse_transmission_bare_example =
    parse_transmission_bare ascii_clusters Command.message (id_header ∷ []) bare_line (10 ∷ 0 ∷ [])
      tt (id_header-IsSendable, tt) bare_line-IsBare

-- A command of one byte that is no UTF-8.
abbrev bad_command : Text
bad_command = 255 ∷ []

bad_command-IsUnknown : IsUnknown bad_command
unfolding command_text
bad_command-IsUnknown = record {
  nonempty = λ e. cc;
  no_lf = ground arith;
  no_cr = ground arith;
  unknown = λ c r e. absurd (known c r e);
}
  where
    known : (c : Command) → IsReceived c → bad_command ≡ command_text c → ⊥
    known Command.connected r e = ground arith
    known Command.message r e = ground arith
    known Command.receipt r e = ground arith
    known Command.error r e = ground arith
    known _ r e = r

parse_transmission_unknown_example :
    parse_transmission ascii_clusters (bad_command ++ 10 ∷ [])
    ≡ (if valid_utf8 bad_command then failed (unknown_command bad_command) else panicked)
parse_transmission_unknown_example =
    parse_transmission_unknown ascii_clusters bad_command [] bad_command-IsUnknown

abbrev empty_message : Frame
empty_message = record { command = Command.message; headers = []; body = [] }

first_decoded : decode ascii_clusters chunk ≡ (ready (some (complete_frame greeting)), codes "MES")
unfolding decode write_frame write_headers command_text get_raw name_text standard_text decode_value
    replace2
first_decoded = rw (parse_transmission-write_frame_example, decode) refl

start_undecided : decode ascii_clusters (codes "MES") ≡ (ready none, codes "MES")
unfolding decode parse_transmission get_line splitn2
start_undecided = refl

second_decoded :
    decode ascii_clusters (codes "MES" ++ rest_of_chunk)
    ≡ (ready (some (complete_frame empty_message)), [])
unfolding decode parse_transmission get_line splitn2 strip_cr parse_command text_eq read_headers
    read_body get
second_decoded = refl

nothing_undecided : decode ascii_clusters [] ≡ (ready none, [])
unfolding decode parse_transmission get_line splitn2
nothing_undecided = refl

-- The first chunk gives a frame and leaves the start of the next, which the second completes.
first_chunk-Decodes : Decodes ascii_clusters chunk (complete_frame greeting ∷ []) (codes "MES")
first_chunk-Decodes = next first_decoded (stop start_undecided)

second_chunk-Decodes :
    Decodes ascii_clusters (codes "MES" ++ rest_of_chunk) (complete_frame empty_message ∷ []) []
second_chunk-Decodes = next second_decoded (stop nothing_undecided)

Decodes-append_example :
    Decodes ascii_clusters
      (chunk ++ rest_of_chunk)
      ((complete_frame greeting ∷ []) ++ (complete_frame empty_message ∷ []))
      []
Decodes-append_example =
    Decodes-append ascii_clusters rest_of_chunk first_chunk-Decodes second_chunk-Decodes
