-- ===== src/Stomp/Codec/Malformed.antt =====
-- Lines that the decoder of src/broker/stomp/codec.rs does not read as a header or a command.
use grinbox.Prelude.{
  ℕ, zero, suc, ◌<◌, ◌≡◌, ◌≢◌, List, [], ◌∷◌, ◌++◌, true, arith, length, length-append,
  append_assoc, All, if◌then◌else◌,
}
use grinbox.Prelude.Text.{Text, text_eq_iff, codes, split-Lacks, split_found, Lacks}
use grinbox.Prelude.Text.Utf8.{valid_utf8}
use grinbox.Stomp.Header.{HeaderList, push, get_raw}
use grinbox.Stomp.Header.Values.{from_str, decode_value}
use grinbox.Stomp.Frame.{Command, command_text, connected, message, receipt, error, write_headers}
use grinbox.Stomp.Codec.Outcomes.{ready, not_ready, failed, panicked, unknown_command}
use grinbox.Stomp.Codec.{parse_command, parse_header, read_headers, parse_transmission}
use grinbox.Stomp.Codec.RoundTrip.{
  IsReceived, IsSendable, decode_header, get_line_found, command_text_line,
  parse_command-command_text, get_line-get_raw, get_raw-ne-nil, parse_header-get_raw,
  length-write_headers,
}

-- A line that holds no colon.
pub record IsBare (line : Text) : Type 0 where
  pub nonempty : line ≢ []
  pub utf8 : valid_utf8 line ≡ true
  pub no_lf : Lacks 10 line
  pub no_cr : Lacks 13 line
  pub no_colon : Lacks b':' line

-- A text that is no command that the decoder knows.
pub record IsUnknown (line : Text) : Type 0 where
  pub nonempty : line ≢ []
  pub no_lf : Lacks 10 line
  pub no_cr : Lacks 13 line
  pub unknown : (c : Command) → IsReceived c → line ≢ command_text c

parse_command_unknown :
    (line : Text)
    → IsUnknown line
    → parse_command line ≡ (if valid_utf8 line then failed (unknown_command line) else panicked)
unfolding parse_command command_text
parse_command_unknown line u = ground (
  arith,
  text_eq_iff line (codes "CONNECTED"),
  text_eq_iff line (codes "MESSAGE"),
  text_eq_iff line (codes "RECEIPT"),
  text_eq_iff line (codes "ERROR"),
  u.unknown connected tt,
  u.unknown message tt,
  u.unknown receipt tt,
  u.unknown error tt,
)

module _ (graphemes : Text → List Text) where
  parse_header_bare : (line : Text) → IsBare line → parse_header graphemes line ≡ not_ready
  unfolding parse_header
  parse_header_bare line b = ground (arith, b.utf8, split-Lacks b':' line b.no_colon)

  read_headers_bare :
      (rounds : ℕ) (acc hs : HeaderList) (line more : Text)
      → length hs < rounds
      → All (IsSendable graphemes) hs
      → IsBare line
      → read_headers graphemes rounds acc (write_headers hs ++ (line ++ 10 ∷ more)) ≡ not_ready
  unfolding read_headers write_headers
  read_headers_bare zero acc hs line more h k b = absurd (omega arith)
  read_headers_bare (suc rounds) acc [] line more h k b =
      ground (arith, get_line_found line more b.no_lf b.no_cr, b.nonempty, parse_header_bare line b)
  read_headers_bare (suc rounds) acc (x ∷ hs) line more h (s, k) b = ground (
    arith,
    append_assoc (get_raw x) (10 ∷ write_headers hs) (line ++ 10 ∷ more),
    get_line-get_raw graphemes x (write_headers hs ++ (line ++ 10 ∷ more)) s,
    get_raw-ne-nil graphemes x,
    parse_header-get_raw graphemes x s,
    read_headers_bare rounds (push acc (decode_header x)) hs line more (omega arith) k b,
  )

  -- A known command, headers as in a frame that is read back, and then a non-empty UTF-8 header
  -- line without colon and CR make the decoder ask for more bytes, whatever stands behind the line.
  pub parse_transmission_bare :
      (c : Command) (hs : HeaderList) (line more : Text)
      → IsReceived c
      → All (IsSendable graphemes) hs
      → IsBare line
      → parse_transmission graphemes
          (command_text c ++ 10 ∷ (write_headers hs ++ (line ++ 10 ∷ more)))
        ≡ not_ready
  unfolding parse_transmission
  parse_transmission_bare c hs line more r k b =
      let rest = write_headers hs ++ (line ++ 10 ∷ more) in
      let (no_lf, no_cr, nonempty) = command_text_line c r in
      ground (
        arith,
        get_line_found (command_text c) rest no_lf no_cr,
        nonempty,
        parse_command-command_text c r,
        read_headers_bare (suc (length rest)) [] hs line more
            (omega (
              arith,
              length-append (write_headers hs) (line ++ 10 ∷ more),
              length-write_headers graphemes hs,
            ))
            k b,
      )

  -- A first line that is neither empty nor a known command and has no CR is an error if it is
  -- UTF-8, and a panic if it is not.
  pub parse_transmission_unknown :
      (line more : Text)
      → IsUnknown line
      → parse_transmission graphemes (line ++ 10 ∷ more)
        ≡ (if valid_utf8 line then failed (unknown_command line) else panicked)
  unfolding parse_transmission
  parse_transmission_unknown line more u =
      ground
        (arith, get_line_found line more u.no_lf u.no_cr, u.nonempty, parse_command_unknown line u)

  -- Of a UTF-8 header line with a second colon, the decoder keeps the value up to that colon and
  -- drops the rest.
  pub parse_header_truncated :
      (key value rest : Text)
      → Lacks b':' key
      → Lacks b':' value
      → valid_utf8 (key ++ b':' ∷ (value ++ b':' ∷ rest)) ≡ true
      → parse_header graphemes (key ++ b':' ∷ (value ++ b':' ∷ rest))
        ≡ ready (record { name = from_str graphemes key; value = decode_value value })
  unfolding parse_header
  parse_header_truncated key value rest h k u =
      ground
        (arith, u, split_found b':' key (value ++ b':' ∷ rest) h, split_found b':' value rest k)
