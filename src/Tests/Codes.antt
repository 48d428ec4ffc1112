-- ===== src/Tests/Codes.antt =====
-- Runs of grinboxlib/src/utils/mod.rs.
use grinbox.Prelude.{◌≡◌, refl, [], ◌∷◌, arith}
use grinbox.Prelude.Text.{codes}
use grinbox.Types.Errors.{Outcome, panicked, err, number_parsing_error}
use grinbox.Utils.Hex.{
  to_hex, from_hex, from_even, is_boundary, trim, trim_start, trim_reversed, parse_slices, split_n,
  pairs, parse_pairs, parse_pair, hex_value,
}
use grinbox.Utils.Hex.RoundTrip.{from_hex-to_hex}

from_hex-to_hex_example :
    (from_hex (to_hex (1 ∷ 171 ∷ [])) ≡ Outcome.ok (1 ∷ 171 ∷ []))
    × (from_hex (b'0' ∷ b'x' ∷ to_hex (1 ∷ 171 ∷ [])) ≡ Outcome.ok (1 ∷ 171 ∷ []))
from_hex-to_hex_example = from_hex-to_hex 1 (171 ∷ []) (ground arith)

-- A plus sign is read as part of a number.
from_hex_plus : from_hex (codes "+f") ≡ Outcome.ok (15 ∷ [])
unfolding from_hex from_even is_boundary trim trim_start trim_reversed parse_slices split_n pairs
    parse_pairs parse_pair hex_value
from_hex_plus = refl

-- The empty text and a lone prefix panic.
from_hex_empty : from_hex [] ≡ panicked
unfolding from_hex from_even
from_hex_empty = refl

from_hex_prefix : from_hex (codes "0x") ≡ panicked
unfolding from_hex from_even is_boundary trim trim_start trim_reversed parse_slices split_n
from_hex_prefix = refl

from_hex_blank : from_hex (codes " a") ≡ panicked
unfolding from_hex from_even is_boundary trim trim_start trim_reversed parse_slices split_n pairs
from_hex_blank = refl

from_hex_odd : from_hex (codes "abc") ≡ err number_parsing_error
unfolding from_hex
from_hex_odd = refl
