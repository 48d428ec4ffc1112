-- ===== src/Stomp/Codec/Append.antt =====
-- Once the decoder has come to an outcome, bytes that arrive later do not change it.
use grinbox.Prelude.{
  ℕ, zero, suc, ◌≤◌, ◌≡◌, ◌≢◌, refl, List, ◌++◌, arith, length-append, length-drop, take-append_le,
  drop-append_le,
}
use grinbox.Prelude.Text.{Text, splitn2-append}
use grinbox.Stomp.Header.{HeaderList}
use grinbox.Stomp.Codec.Outcomes.{Poll, ready, not_ready, failed, panicked, out_of_fuel}
use grinbox.Stomp.Codec.{get_line, read_headers, read_body, parse_transmission}
use grinbox.Stomp.Codec.Progress.{read_headers-ne-out_of_fuel}

-- More bytes behind what a part of the decoder leaves.
abbrev extend {ℓ} : {A : Type ℓ} → Text → Poll (A × Text) → Poll (A × Text)
extend more (ready (a, rest)) = ready (a, rest ++ more)
extend more not_ready = not_ready
extend more (failed e) = failed e
extend more panicked = panicked
extend more out_of_fuel = out_of_fuel

get_line-append :
    (src more : Text)
    → get_line src ≢ not_ready
    → get_line (src ++ more) ≡ extend more (get_line src)
unfolding get_line
get_line-append src more h = grind (arith, splitn2-append 10 src more)

read_body-append :
    (headers : HeaderList) (src more : Text)
    → read_body headers src ≢ not_ready
    → read_body headers (src ++ more) ≡ extend more (read_body headers src)
unfolding read_body
read_body-append headers src more h = grind (
  arith,
  splitn2-append 0 src more,
  take-append_le,
  drop-append_le,
  length-append src more,
  length-drop,
)

module _ (graphemes : Text → List Text) where
  read_headers-append :
      (rounds rounds' : ℕ) (headers : HeaderList) (src more : Text)
      → rounds ≤ rounds'
      → read_headers graphemes rounds headers src ≢ not_ready
      → read_headers graphemes rounds headers src ≢ out_of_fuel
      → read_headers graphemes rounds' headers (src ++ more)
        ≡ extend more (read_headers graphemes rounds headers src)
  unfolding read_headers
  read_headers-append zero rounds' headers src more k h f = absurd (f refl)
  read_headers-append (suc rounds) zero headers src more k h f = absurd (omega arith)
  read_headers-append (suc rounds) (suc rounds') headers src more k h f =
      grind (arith, get_line-append src more, read_headers-append rounds rounds')

  -- An outcome of the decoder other than "not ready" stays the same whatever bytes arrive behind
  -- those it was reached on.
  pub parse_transmission-append :
      (src more : Text)
      → parse_transmission graphemes src ≢ not_ready
      → parse_transmission graphemes (src ++ more) ≡ parse_transmission graphemes src
  unfolding parse_transmission
  parse_transmission-append src more h = grind (
    arith,
    get_line-append src more,
    read_headers-append,
    read_headers-ne-out_of_fuel,
    read_body-append,
    length-append,
  )
