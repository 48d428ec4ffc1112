-- ===== src/Utils/Hex.antt =====
-- `to_hex`, `from_hex` and `split_n` of grinboxlib/src/utils/mod.rs, with `str::trim` and
-- `u8::from_str_radix` of the standard library. Slices that are out of range or cut a character
-- panic.
pub mod RoundTrip
use mathlib.Core.List.{reverse}
use grinbox.Prelude.{
  ℕ, ◌+◌, ◌-◌, ◌*◌, ◌/◌, ◌%◌, Bool, true, false, not, Option, none, some, List, [], ◌∷◌, ◌&&◌, ◌||◌,
  ◌==◌, ltb, leb, length, if◌then◌else◌,
}
use grinbox.Prelude.Text.{Text}
use grinbox.Types.Errors.{ErrorKind, number_parsing_error, Outcome, panicked, or_err, err}

-- the lower-case digit of a number below 16
unfoldable pub hex_digit : ℕ → ℕ
hex_digit n = if ltb n 10 then 48 + n else 87 + n

-- `to_hex`
unfoldable pub to_hex : List ℕ → Text
unfolding hex_digit
to_hex [] = []
to_hex (b ∷ bs) = hex_digit (b / 16) ∷ hex_digit (b % 16) ∷ to_hex bs

-- the characters with `White_Space`, in their one, two or three bytes
abbrev is_space : ℕ → Bool
is_space a = (leb 9 a && leb a 13) || (a == 32)

abbrev is_space2 : ℕ → ℕ → Bool
is_space2 a b = (a == 194) && ((b == 133) || (b == 160))

abbrev is_space3 : ℕ → ℕ → ℕ → Bool
is_space3 a b c =
    ((a == 225) && ((b == 154) && (c == 128)))
    || (((a == 226)
          && ((b == 128)
              && ((leb 128 c && leb c 138) || ((c == 168) || ((c == 169) || (c == 175))))))
        || (((a == 226) && ((b == 129) && (c == 159)))
            || ((a == 227) && ((b == 128) && (c == 128)))))

-- the text behind the white space at its start
unfoldable pub trim_start : Text → Text
trim_start [] = []
trim_start (a ∷ []) = if is_space a then [] else a ∷ []
trim_start (a ∷ b ∷ []) =
    let one = trim_start (b ∷ []) in
    if is_space a then one else if is_space2 a b then [] else a ∷ b ∷ []
trim_start (a ∷ b ∷ c ∷ s) =
    let one = trim_start (b ∷ c ∷ s) in
    let two = trim_start (c ∷ s) in
    let three = trim_start s in
    if is_space a
    then one
    else if is_space2 a b
    then two
    else if is_space3 a b c
    then three
    else a ∷ b ∷ c ∷ s

-- the same for a text whose bytes are reversed
unfoldable pub trim_reversed : Text → Text
trim_reversed [] = []
trim_reversed (a ∷ []) = if is_space a then [] else a ∷ []
trim_reversed (a ∷ b ∷ []) =
    let one = trim_reversed (b ∷ []) in
    if is_space a then one else if is_space2 b a then [] else a ∷ b ∷ []
trim_reversed (a ∷ b ∷ c ∷ s) =
    let one = trim_reversed (b ∷ c ∷ s) in
    let two = trim_reversed (c ∷ s) in
    let three = trim_reversed s in
    if is_space a
    then one
    else if is_space2 b a
    then two
    else if is_space3 c b a
    then three
    else a ∷ b ∷ c ∷ s

-- `str::trim`
unfoldable pub trim : Text → Text
trim s = reverse (trim_reversed (reverse (trim_start s)))

-- a character starts here, or the text ends
unfoldable pub is_boundary : Text → Bool
is_boundary [] = true
is_boundary (b ∷ s) = not (leb 128 b && ltb b 192)

-- the slices of two bytes
unfoldable pub pairs : Text → Option (List (ℕ × ℕ))
pairs [] = some []
pairs (a ∷ []) = none
pairs (a ∷ b ∷ s) =
    let rest = pairs s in
    if is_boundary s then elim rest [ none ↦ none | some ps ↦ some ((a, b) ∷ ps) ] else none

-- `split_n` for 2; of an empty text it takes slices as well, which are out of range
unfoldable pub split_n : Text → Option (List (ℕ × ℕ))
split_n [] = none
split_n (a ∷ s) = pairs (a ∷ s)

unfoldable pub hex_value : ℕ → Option ℕ
hex_value c =
    if leb 48 c && leb c 57
    then some (c - 48)
    else if leb 97 c && leb c 102
    then some (c - 87)
    else if leb 65 c && leb c 70
    then some (c - 55)
    else none

-- `u8::from_str_radix(b, 16)` of two bytes; a leading plus sign is allowed
unfoldable pub parse_pair : ℕ → ℕ → Option ℕ
parse_pair a b = if a == b'+' then hex_value b else elim (hex_value a) [
  | none ↦ none
  | some x ↦ elim (hex_value b) [ none ↦ none | some y ↦ some (16 * x + y) ]
]

unfoldable pub parse_pairs : List (ℕ × ℕ) → Option (List ℕ)
parse_pairs [] = some []
parse_pairs ((a, b) ∷ ps) =
    let rest = parse_pairs ps in
    elim (parse_pair a b) [
      | none ↦ none
      | some n ↦ elim rest [ none ↦ none | some ns ↦ some (n ∷ ns) ]
    ]

unfoldable pub parse_slices : Option (List (ℕ × ℕ)) → Outcome (List ℕ)
parse_slices none = panicked
parse_slices (some ps) = or_err number_parsing_error (parse_pairs ps)

-- `from_hex` of a text of even length
unfoldable pub from_even : Text → Outcome (List ℕ)
from_even [] = panicked
from_even (a ∷ []) = panicked
from_even (a ∷ b ∷ s) =
    if is_boundary s
    then parse_slices (split_n (trim (if (a == 48) && (b == b'x') then s else a ∷ b ∷ s)))
    else panicked

-- `from_hex`
unfoldable pub from_hex : Text → Outcome (List ℕ)
from_hex s = if length s % 2 == 1 then err number_parsing_error else from_even s
