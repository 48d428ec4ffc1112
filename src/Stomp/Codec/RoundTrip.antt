-- ===== src/Stomp/Codec/RoundTrip.antt =====
-- Decoding what `Frame::write` of src/broker/stomp/frame.rs has written.
use grinbox.Prelude.{
  ℕ, zero, suc, ◌^◌, ◌≤◌, ◌<◌, ◌≡◌, ◌≢◌, refl, ap, Option, none, some, List, [], ◌∷◌, ◌++◌, map,
  true, arith, length, length-append, take-append, drop-append, append_assoc, append-nil, All,
  All-append,
}
use grinbox.Prelude.Text.{Text, text_eq, split, splitn2_found, split_found, split-Lacks, Lacks}
use grinbox.Prelude.Text.Utf8.{valid_utf8, valid_utf8-append}
use grinbox.Prelude.Decimal.{parse_uint}
use grinbox.Stomp.Header.{Header, HeaderList, push, get, get_raw}
use grinbox.Stomp.Header.Names.{StandardHeader, standard, name_text}
use grinbox.Stomp.Header.Values.{from_str, decode_value}
use grinbox.Stomp.Frame.{
  Command, connected, message, receipt, error, command_text, Frame, complete_frame, write_headers,
  write_frame,
}
use grinbox.Stomp.Codec.Outcomes.{ready}
use grinbox.Stomp.Codec.{
  strip_cr, get_line, parse_command, parse_header, read_headers, read_body, parse_transmission,
}

-- A byte that neither ends a line nor a header's name.
abbrev pub IsFieldByte : ℕ → Type 0
IsFieldByte b = (b ≢ 10) × (b ≢ 13) × (b ≢ b':')

abbrev pub IsField : Text → Type 0
IsField s = All IsFieldByte s × (valid_utf8 s ≡ true)

pub IsField-Lacks :
    (c : ℕ) (s : Text) → ((b : ℕ) → IsFieldByte b → b ≢ c) → All IsFieldByte s → Lacks c s
IsField-Lacks c [] h k = tt
IsField-Lacks c (b ∷ s) h k = (h b k.0, IsField-Lacks c s h k.1)

strip_cr-Lacks : (s : Text) → Lacks 13 s → strip_cr s ≡ s
unfolding strip_cr
strip_cr-Lacks [] h = refl
strip_cr-Lacks (b ∷ []) h = ground arith
strip_cr-Lacks (a ∷ b ∷ s) h = ap (λ (t : Text). a ∷ t) (strip_cr-Lacks (b ∷ s) h.1)

pub get_line_found : (s t : Text) → Lacks 10 s → Lacks 13 s → get_line (s ++ 10 ∷ t) ≡ ready (s, t)
unfolding get_line
get_line_found s t h k = ground (arith, splitn2_found 10 s t h, strip_cr-Lacks s k)

-- The command is one that the decoder knows.
abbrev pub IsReceived : Command → Type 0
IsReceived connected = Unit
IsReceived message = Unit
IsReceived receipt = Unit
IsReceived error = Unit
IsReceived _ = ⊥

pub parse_command-command_text :
    (c : Command) → IsReceived c → parse_command (command_text c) ≡ ready c
unfolding parse_command command_text text_eq
parse_command-command_text connected h = refl
parse_command-command_text message h = refl
parse_command-command_text receipt h = refl
parse_command-command_text error h = refl
parse_command-command_text _ h = absurd h

pub command_text_line :
    (c : Command)
    → IsReceived c
    → Lacks 10 (command_text c) × Lacks 13 (command_text c) × (command_text c ≢ [])
unfolding command_text
command_text_line connected h = ground arith
command_text_line message h = ground arith
command_text_line receipt h = ground arith
command_text_line error h = ground arith
command_text_line _ h = absurd h

-- How a body is delimited: by the length that the headers give, or else by its NUL.
abbrev pub FitsLength : Option Text → List ℕ → Type 0
FitsLength none body = Lacks 0 body
FitsLength (some value) body = parse_uint (2 ^ 64) value ≡ some (length body)

read_body_found :
    (headers : HeaderList) (body more : List ℕ)
    → FitsLength (get headers (standard StandardHeader.content_length)) body
    → read_body headers (body ++ 0 ∷ more) ≡ ready (body, more)
unfolding read_body
read_body_found headers body more h = grind (
  arith,
  splitn2_found 0 body more,
  take-append body (0 ∷ more),
  drop-append body (0 ∷ more),
  length-append body (0 ∷ more),
)

-- What the decoder makes of a header: its value with every `\c` replaced.
abbrev pub decode_header : Header → Header
decode_header h = record h { value = decode_value h.value }

module _ (graphemes : Text → List Text) where
  -- A header that takes one line, and whose name is what its text is read as.
  pub record IsSendable (h : Header) : Type 0 where
    pub name_field : IsField (name_text h.name)
    pub value_field : IsField h.value
    pub name_stable : from_str graphemes (name_text h.name) ≡ h.name

  raw_bytes :
      (h : Header)
      → IsSendable h
      → (c : ℕ) → ((b : ℕ) → IsFieldByte b → b ≢ c)
      → b':' ≢ c
      → Lacks c (get_raw h)
  unfolding get_raw
  raw_bytes h s c k colon =
      All-append (λ b. b ≢ c) (name_text h.name) (b':' ∷ h.value)
        (IsField-Lacks c (name_text h.name) k s.name_field.0)
        (colon, IsField-Lacks c h.value k s.value_field.0)

  pub get_line-get_raw :
      (h : Header) (t : Text) → IsSendable h → get_line (get_raw h ++ 10 ∷ t) ≡ ready (get_raw h, t)
  get_line-get_raw h t s =
      get_line_found (get_raw h) t (raw_bytes h s 10 (λ b f. f.0) (omega arith))
        (raw_bytes h s 13 (λ b f. f.1) (omega arith))

  pub get_raw-ne-nil : (h : Header) → get_raw h ≢ []
  unfolding get_raw
  get_raw-ne-nil h e = nonempty (name_text h.name) e
    where
      nonempty : (s : Text) → s ++ b':' ∷ h.value ≢ []
      nonempty [] p = cc
      nonempty (b ∷ s) p = cc

  valid_utf8-get_raw : (h : Header) → IsSendable h → valid_utf8 (get_raw h) ≡ true
  unfolding get_raw
  valid_utf8-get_raw h s =
      valid_utf8-append (name_text h.name) (b':' ∷ h.value) s.name_field.1
        (valid_utf8-append (b':' ∷ []) h.value (unfold valid_utf8 in refl) s.value_field.1)

  split-get_raw :
      (h : Header) → IsSendable h → split b':' (get_raw h) ≡ (name_text h.name, h.value ∷ [])
  unfolding get_raw
  split-get_raw h s = ground (
    arith,
    split_found b':' (name_text h.name) h.value
        (IsField-Lacks b':' (name_text h.name) (λ b f. f.2) s.name_field.0),
    split-Lacks b':' h.value (IsField-Lacks b':' h.value (λ b f. f.2) s.value_field.0),
  )

  pub parse_header-get_raw :
      (h : Header) → IsSendable h → parse_header graphemes (get_raw h) ≡ ready (decode_header h)
  unfolding parse_header
  parse_header-get_raw h s =
      ground (arith, valid_utf8-get_raw h s, split-get_raw h s, s.name_stable)

  read_headers-write_headers :
      (rounds : ℕ) (acc hs : HeaderList) (t : Text)
      → length hs < rounds
      → All IsSendable hs
      → read_headers graphemes rounds acc (write_headers hs ++ 10 ∷ t)
        ≡ ready (acc ++ map decode_header hs, t)
  unfolding read_headers write_headers
  read_headers-write_headers zero acc hs t h k = absurd (omega arith)
  read_headers-write_headers (suc rounds) acc [] t h k = rw (get_line_found [] t tt tt, append-nil)
  read_headers-write_headers (suc rounds) acc (x ∷ hs) t h (s, k) = ground (
    arith,
    append_assoc (get_raw x) (10 ∷ write_headers hs) (10 ∷ t),
    get_line-get_raw x (write_headers hs ++ 10 ∷ t) s,
    get_raw-ne-nil x,
    parse_header-get_raw x s,
    append_assoc acc (decode_header x ∷ []) (map decode_header hs),
    read_headers-write_headers rounds (push acc (decode_header x)) hs t (omega arith) k,
  )

  pub length-write_headers : (hs : HeaderList) → length hs ≤ length (write_headers hs)
  unfolding write_headers
  length-write_headers [] = omega arith
  length-write_headers (h ∷ hs) =
      omega (arith, length-append (get_raw h) (10 ∷ write_headers hs), length-write_headers hs)

  write_frame-append :
      (f : Frame) (more : List ℕ)
      → write_frame f ++ more
        ≡ command_text f.command ++ 10 ∷ (write_headers f.headers ++ 10 ∷ (f.body ++ 0 ∷ more))
  unfolding write_frame
  write_frame-append f more = simp append_assoc

  -- A frame that the broker may send: a command that the decoder knows, headers of one line each,
  -- and a body that its content length, or its lack of NUL, delimits.
  pub record IsSent (f : Frame) : Type 0 where
    pub command : IsReceived f.command
    pub headers : All IsSendable f.headers
    pub body :
        FitsLength
          (get (map decode_header f.headers) (standard StandardHeader.content_length))
          f.body

  -- A frame with a command that the decoder knows, headers whose names and values are UTF-8 without
  -- LF, CR or colon and whose names are read as themselves, and a body that its content-length
  -- header delimits, or its lack of NUL if there is none, is read back from the bytes that
  -- Frame::write appends, whatever stands behind them: the frame with every \c in its header values
  -- replaced by a colon, and exactly the bytes written.
  pub parse_transmission-write_frame :
      (f : Frame) (more : List ℕ)
      → IsSent f
      → parse_transmission graphemes (write_frame f ++ more)
        ≡ ready (
          complete_frame (record f { headers = map decode_header f.headers }),
          length (write_frame f),
        )
  unfolding parse_transmission
  parse_transmission-write_frame f more s =
      let rest = write_headers f.headers ++ 10 ∷ (f.body ++ 0 ∷ more) in
      let (no_lf, no_cr, nonempty) = command_text_line f.command s.command in
      ground (
        arith,
        write_frame-append f more,
        length-append (write_frame f) more,
        get_line_found (command_text f.command) rest no_lf no_cr,
        nonempty,
        parse_command-command_text f.command s.command,
        length-append (write_headers f.headers) (10 ∷ (f.body ++ 0 ∷ more)),
        length-write_headers f.headers,
        read_headers-write_headers (suc (length rest)) [] f.headers (f.body ++ 0 ∷ more)
            (omega (
              arith,
              length-append (write_headers f.headers) (10 ∷ (f.body ++ 0 ∷ more)),
              length-write_headers f.headers,
            ))
            s.headers,
        read_body_found (map decode_header f.headers) f.body more s.body,
      )
