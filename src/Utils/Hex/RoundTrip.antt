-- ===== src/Utils/Hex/RoundTrip.antt =====
-- `from_hex` of grinboxlib/src/utils/mod.rs undoes `to_hex`.
use mathlib.Core.List.{reverse, reverse-cons, reverse-reverse}
use grinbox.Prelude.{
  ℕ, ◌*◌, ◌/◌, ◌%◌, ◌≤◌, ◌<◌, ◌≡◌, ◌≢◌, refl, true, some, List, [], ◌∷◌, map, arith, length, All,
  All-append,
}
use grinbox.Prelude.Text.{Text}
use grinbox.Types.Errors.{Outcome}
use grinbox.Utils.Hex.{
  hex_digit, to_hex, trim_start, trim_reversed, trim, is_boundary, pairs, split_n, hex_value,
  parse_pair, parse_pairs, parse_slices, from_even, from_hex,
}

abbrev IsInk : ℕ → Type 0
IsInk c = (33 ≤ c) × (c < 127)

trim_start_ink : (s : Text) → All IsInk s → trim_start s ≡ s
unfolding trim_start
trim_start_ink [] h = refl
trim_start_ink (a ∷ []) h = ground arith
trim_start_ink (a ∷ b ∷ []) h = ground arith
trim_start_ink (a ∷ b ∷ c ∷ s) h = ground arith

trim_reversed_ink : (s : Text) → All IsInk s → trim_reversed s ≡ s
unfolding trim_reversed
trim_reversed_ink [] h = refl
trim_reversed_ink (a ∷ []) h = ground arith
trim_reversed_ink (a ∷ b ∷ []) h = ground arith
trim_reversed_ink (a ∷ b ∷ c ∷ s) h = ground arith

All-reverse : (s : Text) → All IsInk s → All IsInk (reverse s)
All-reverse [] h = tt
All-reverse (b ∷ s) h =
    rw reverse-cons (All-append IsInk (reverse s) (b ∷ []) (All-reverse s h.1) (h.0, tt))

trim_ink : (s : Text) → All IsInk s → trim s ≡ s
unfolding trim
trim_ink s h =
    rw (trim_start_ink s h)
      (rw (trim_reversed_ink (reverse s) (All-reverse s h)) (reverse-reverse s))

hex_digit-IsInk :
    (n : ℕ)
    → n < 16
    → IsInk (hex_digit n)
      × (hex_value (hex_digit n) ≡ some n)
      × (hex_digit n ≢ b'+')
      × (hex_digit n ≢ b'x')
unfolding hex_digit hex_value
hex_digit-IsInk n h = ground arith

abbrev pub IsByte : ℕ → Type 0
IsByte b = b < 256

to_hex-IsInk : (bs : List ℕ) → All IsByte bs → All IsInk (to_hex bs)
unfolding to_hex
to_hex-IsInk [] h = tt
to_hex-IsInk (b ∷ bs) h = (
  (hex_digit-IsInk (b / 16) (omega (arith, h.0))).0,
  ((hex_digit-IsInk (b % 16) (omega arith)).0, to_hex-IsInk bs h.1),
)

is_boundary-to_hex : (bs : List ℕ) → All IsByte bs → is_boundary (to_hex bs) ≡ true
unfolding is_boundary to_hex
is_boundary-to_hex [] h = refl
is_boundary-to_hex (b ∷ bs) h = ground (arith, hex_digit-IsInk (b / 16) (omega (arith, h.0)))

parse_pair-hex_digit :
    (b : ℕ) → IsByte b → parse_pair (hex_digit (b / 16)) (hex_digit (b % 16)) ≡ some b
unfolding parse_pair
parse_pair-hex_digit b h =
    ground
      (arith, hex_digit-IsInk (b / 16) (omega (arith, h)), hex_digit-IsInk (b % 16) (omega arith))

abbrev digits : ℕ → ℕ × ℕ
digits b = (hex_digit (b / 16), hex_digit (b % 16))

pairs-to_hex : (bs : List ℕ) → All IsByte bs → pairs (to_hex bs) ≡ some (map digits bs)
unfolding pairs to_hex
pairs-to_hex [] h = refl
pairs-to_hex (b ∷ bs) h = ground (arith, pairs-to_hex bs h.1, is_boundary-to_hex bs h.1)

parse_pairs-digits : (bs : List ℕ) → All IsByte bs → parse_pairs (map digits bs) ≡ some bs
unfolding parse_pairs
parse_pairs-digits [] h = refl
parse_pairs-digits (b ∷ bs) h =
    ground (arith, parse_pair-hex_digit b h.0, parse_pairs-digits bs h.1)

length-to_hex : (bs : List ℕ) → length (to_hex bs) ≡ 2 * length bs
unfolding to_hex
length-to_hex [] = omega arith
length-to_hex (b ∷ bs) = omega (arith, length-to_hex bs)

-- the slices of the trimmed digits
parse_slices-to_hex :
    (b : ℕ) (bs : List ℕ)
    → All IsByte (b ∷ bs)
    → parse_slices (split_n (trim (to_hex (b ∷ bs)))) ≡ Outcome.ok (b ∷ bs)
unfolding parse_slices split_n
parse_slices-to_hex b bs h =
    rw (trim_ink (to_hex (b ∷ bs)) (to_hex-IsInk (b ∷ bs) h))
      (unfold to_hex in ground (arith, pairs-to_hex (b ∷ bs) h, parse_pairs-digits (b ∷ bs) h))

-- from_hex reads back what to_hex has made of one or more bytes, with and without the prefix 0x.
pub from_hex-to_hex :
    (b : ℕ) (bs : List ℕ)
    → All IsByte (b ∷ bs)
    → (from_hex (to_hex (b ∷ bs)) ≡ Outcome.ok (b ∷ bs))
      × (from_hex (b'0' ∷ b'x' ∷ to_hex (b ∷ bs)) ≡ Outcome.ok (b ∷ bs))
unfolding from_hex from_even to_hex
from_hex-to_hex b bs h = (
  ground (
    arith,
    length-to_hex (b ∷ bs),
    is_boundary-to_hex bs h.1,
    hex_digit-IsInk (b % 16) (omega arith),
    parse_slices-to_hex b bs h,
  ),
  ground (arith, length-to_hex (b ∷ bs), is_boundary-to_hex (b ∷ bs) h, parse_slices-to_hex b bs h),
)
