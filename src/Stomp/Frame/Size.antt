-- ===== src/Stomp/Frame/Size.antt =====
-- How many bytes a frame takes on the wire: `Frame::count_bytes` of src/broker/stomp/frame.rs.
use grinbox.Prelude.{ℕ, ◌+◌, ◌++◌, ◌≡◌, [], ◌∷◌, length, length-append, arith}
use grinbox.Stomp.Header.{HeaderList, get_raw}
use grinbox.Stomp.Frame.{
  Frame, command_text, write_headers, write_frame, count_headers, count_bytes,
}

length-write_headers :
    (n : ℕ) (hs : HeaderList) → n + length (write_headers hs) ≡ count_headers n hs
unfolding write_headers count_headers
length-write_headers n [] = omega arith
length-write_headers n (h ∷ hs) = omega (
  arith,
  length-append (get_raw h) (10 ∷ write_headers hs),
  length-write_headers (n + length (get_raw h) + 1) hs,
)

-- Frame::write appends exactly count_bytes bytes and the final NUL.
pub length-write_frame : (f : Frame) → length (write_frame f) ≡ count_bytes f + 1
unfolding write_frame count_bytes
length-write_frame f = omega (
  arith,
  length-append (command_text f.command)
      (10 ∷ (write_headers f.headers ++ 10 ∷ (f.body ++ 0 ∷ []))),
  length-append (write_headers f.headers) (10 ∷ (f.body ++ 0 ∷ [])),
  length-append f.body (0 ∷ []),
  length-write_headers 0 f.headers,
)
