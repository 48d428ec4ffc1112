-- ===== src/Stomp/Codec/Stream.antt =====
-- Repeated calls of the decoder of src/broker/stomp/codec.rs on a buffer that grows.
use grinbox.Prelude.{ℕ, ◌≡◌, refl, none, some, List, [], ◌∷◌, ◌++◌, arith, drop-append_le}
use grinbox.Prelude.Text.{Text}
use grinbox.Stomp.Frame.{Transmission}
use grinbox.Stomp.Codec.Outcomes.{Poll, ready}
use grinbox.Stomp.Codec.{parse_transmission, decode}
use grinbox.Stomp.Codec.Append.{parse_transmission-append}
use grinbox.Stomp.Codec.Progress.{parse_transmission_bounds}

module _ (graphemes : Text → List Text) where
  -- The decoder, called until it asks for more bytes, returns these transmissions in turn and
  -- leaves this buffer.
  pub data Decodes : Text → List Transmission → Text → Type 0 where
    stop :
        {buffer : Text} → decode graphemes buffer ≡ (ready none, buffer) → Decodes buffer [] buffer
    next :
        {buffer buffer' rest : Text} {t : Transmission} {ts : List Transmission}
        → decode graphemes buffer ≡ (ready (some t), buffer')
        → Decodes buffer' ts rest
        → Decodes buffer (t ∷ ts) rest

  decode-append :
      (src more rest : Text) (t : Transmission)
      → decode graphemes src ≡ (ready (some t), rest)
      → decode graphemes (src ++ more) ≡ (ready (some t), rest ++ more)
  unfolding decode
  decode-append src more rest t h = from_outcome (parse_transmission graphemes src) refl
    where
      from_outcome :
          (p : Poll (Transmission × ℕ))
          → parse_transmission graphemes src ≡ p
          → decode graphemes (src ++ more) ≡ (ready (some t), rest ++ more)
      from_outcome (ready (u, n)) e = ground (
        arith,
        parse_transmission-append graphemes src more,
        parse_transmission_bounds graphemes src u n e,
        drop-append_le n src more,
      )
      from_outcome _ e = ground arith

  -- If decoding a first chunk returns some transmissions and leaves a rest, and decoding that rest
  -- followed by a second chunk returns further ones, then decoding both chunks at once returns all
  -- of them and leaves the same bytes.
  pub Decodes-append :
      (b : Text) {a r rest : Text} {ts us : List Transmission}
      → Decodes a ts r
      → Decodes (r ++ b) us rest
      → Decodes (a ++ b) (ts ++ us) rest
  Decodes-append b (stop e) d = d
  Decodes-append b (next {buffer = buffer} {buffer' = buffer'} {t = t} e ds) d =
      next (decode-append buffer b buffer' t e) (Decodes-append b ds d)
