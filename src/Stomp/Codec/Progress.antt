-- ===== src/Stomp/Codec/Progress.antt =====
-- How many bytes the decoder takes, and that its header loop is given enough rounds.
use grinbox.Prelude.{ℕ, zero, suc, ◌≤◌, ◌<◌, ◌≡◌, ◌≢◌, List, arith, length, length-drop}
use grinbox.Prelude.Text.{Text, splitn2_rest}
use grinbox.Stomp.Header.{HeaderList}
use grinbox.Stomp.Frame.{Transmission}
use grinbox.Stomp.Codec.Outcomes.{Poll, ready, out_of_fuel}
use grinbox.Stomp.Codec.{
  get_line, parse_command, parse_header, read_headers, read_body, parse_transmission,
}

-- One more than the number of bytes that a part of the decoder leaves, and 0 if it fails.
abbrev left {ℓ} : {A : Type ℓ} → Poll (A × Text) → ℕ
left (ready (a, rest)) = suc (length rest)
left _ = 0

-- a line takes at least its line feed
left-get_line : (src : Text) → left (get_line src) ≤ length src
unfolding get_line
left-get_line src = grind (arith, splitn2_rest 10 src)

get_line-ne-out_of_fuel : (src : Text) → get_line src ≢ out_of_fuel
unfolding get_line
get_line-ne-out_of_fuel src = ground arith

parse_command-ne-out_of_fuel : (src : Text) → parse_command src ≢ out_of_fuel
unfolding parse_command
parse_command-ne-out_of_fuel src = ground arith

read_body-ne-out_of_fuel : (headers : HeaderList) (src : Text) → read_body headers src ≢ out_of_fuel
unfolding read_body
read_body-ne-out_of_fuel headers src = ground arith

left-read_body : (headers : HeaderList) (src : Text) → left (read_body headers src) ≤ length src
unfolding read_body
left-read_body headers src = grind (arith, splitn2_rest 0 src, length-drop)

module _ (graphemes : Text → List Text) where
  parse_header-ne-out_of_fuel : (src : Text) → parse_header graphemes src ≢ out_of_fuel
  unfolding parse_header
  parse_header-ne-out_of_fuel src = ground arith

  pub read_headers-ne-out_of_fuel :
      (rounds : ℕ) (headers : HeaderList) (src : Text)
      → length src < rounds
      → read_headers graphemes rounds headers src ≢ out_of_fuel
  unfolding read_headers
  read_headers-ne-out_of_fuel zero headers src h = absurd (omega arith)
  read_headers-ne-out_of_fuel (suc rounds) headers src h = grind (
    arith,
    read_headers-ne-out_of_fuel rounds,
    left-get_line src,
    get_line-ne-out_of_fuel src,
    parse_header-ne-out_of_fuel,
  )

  left-read_headers :
      (rounds : ℕ) (headers : HeaderList) (src : Text)
      → left (read_headers graphemes rounds headers src) ≤ length src
  unfolding read_headers
  left-read_headers zero headers src = omega arith
  left-read_headers (suc rounds) headers src =
      grind (arith, left-read_headers rounds, left-get_line)

  -- The rounds given to the decoder's header loop are enough: it always comes to an outcome of its
  -- own.
  pub parse_transmission-ne-out_of_fuel :
      (src : Text) → parse_transmission graphemes src ≢ out_of_fuel
  unfolding parse_transmission
  parse_transmission-ne-out_of_fuel src = grind (
    arith, get_line-ne-out_of_fuel, parse_command-ne-out_of_fuel, read_headers-ne-out_of_fuel,
    read_body-ne-out_of_fuel,
  )

  -- A transmission that the decoder returns takes at least one byte, and no more than there are.
  pub parse_transmission_bounds :
      (src : Text) (t : Transmission) (n : ℕ)
      → parse_transmission graphemes src ≡ ready (t, n)
      → (0 < n) × (n ≤ length src)
  unfolding parse_transmission
  parse_transmission_bounds src t n h =
      grind (arith, left-get_line, left-read_headers, left-read_body)
