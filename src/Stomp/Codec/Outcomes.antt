-- ===== src/Stomp/Codec/Outcomes.antt =====
-- `Poll<T, ParseError>` of src/broker/stomp/codec.rs, with the panics of the decoder and the
-- exhaustion of a loop's rounds as outcomes of their own.
use grinbox.Prelude.Text.{Text}

pub data ParseError : Type 0 where
  utf8 content_length invalid : ParseError
  unknown_command : Text → ParseError

pub data Poll {ℓ} (A : Type ℓ) : Type ℓ where
  ready : A → Poll A
  not_ready : Poll A
  failed : ParseError → Poll A
  panicked : Poll A
  out_of_fuel : Poll A

infixl 5 ◌>>=◌
abbrev pub ◌>>=◌ {ℓ κ} : {A : Type ℓ} {B : Type κ} → Poll A → (A → Poll B) → Poll B
ready a >>= f = f a
not_ready >>= f = not_ready
failed e >>= f = failed e
panicked >>= f = panicked
out_of_fuel >>= f = out_of_fuel
