-- ===== src/Tests/Base58s.antt =====
-- Runs of grinboxlib/src/utils/base58.rs.
use grinbox.Prelude.{ℕ, ◌≡◌, refl, some, List, [], ◌∷◌, ◌++◌, arith, map, replicate}
use grinbox.Prelude.Text.{Text, codes, text_eq}
use grinbox.Types.Errors.{Outcome, err, panicked, invalid_base58_character}
use grinbox.Utils.Base58.{
  alphabet, letter, digits_map, count_leading, add_byte, add_bytes, buffer_size, digits_text,
  to_base58, add_digit, add_digits, bytes_of, strip_zeros, from_base58, double_sha256,
  to_base58_check, split_version, check_payload, from_base58_check,
}
use grinbox.Utils.Base58.Value.{horner, AreBelow}
use grinbox.Utils.Base58.Leading.{StartsOff}
use grinbox.Utils.Base58.Encode.{to_base58-digits}
use grinbox.Utils.Base58.Decode.{from_base58-to_base58}
use grinbox.Utils.Base58.Check.{
  IsDigest, IsChecked, from_base58_check-to_base58_check, from_base58_check-IsChecked,
}
use grinbox.Utils.Base58.Refusals.{among-All, from_base58-IsForeign, from_base58_ones}

to_base58_run : to_base58 (0 ∷ 1 ∷ 255 ∷ []) ≡ some (codes "19p")
unfolding to_base58 count_leading buffer_size add_bytes add_byte digits_text alphabet
to_base58_run = refl

from_base58_run : from_base58 (codes "19p") ≡ Outcome.ok (0 ∷ 1 ∷ 255 ∷ [])
unfolding from_base58 count_leading add_digits add_digit digits_map bytes_of strip_zeros
from_base58_run = refl

from_base58-to_base58_example :
    (t : Text) × (to_base58 (0 ∷ 1 ∷ 255 ∷ []) ≡ some t)
    × (from_base58 t ≡ Outcome.ok (0 ∷ 1 ∷ 255 ∷ []))
from_base58-to_base58_example =
    from_base58-to_base58 (0 ∷ 1 ∷ 255 ∷ []) (ground arith) (omega arith)

to_base58-digits_example :
    (ds : List ℕ) × (to_base58 (0 ∷ 1 ∷ [])
      ≡ some (replicate (count_leading 0 (0 ∷ 1 ∷ [])) b'1' ++ map letter ds))
    × (AreBelow 58 ds × StartsOff 0 ds × (horner 58 0 ds ≡ horner 256 0 (0 ∷ 1 ∷ [])))
to_base58-digits_example = to_base58-digits (0 ∷ 1 ∷ []) (ground arith)

abbrev digest : List ℕ → List ℕ
digest m = replicate 32 5

digest-IsDigest : IsDigest digest
digest-IsDigest = λ m. (refl, ground arith)

from_base58_check-to_base58_check_example :
    (t : Text) × (to_base58_check digest (7 ∷ 8 ∷ []) (1 ∷ 11 ∷ []) ≡ some t)
    × (from_base58_check digest t 2 ≡ Outcome.ok (1 ∷ 11 ∷ [], 7 ∷ 8 ∷ []))
from_base58_check-to_base58_check_example =
    from_base58_check-to_base58_check digest digest-IsDigest (7 ∷ 8 ∷ []) (1 ∷ 11 ∷ [])
      (ground arith) (omega arith) (omega arith)

-- the text of the version 1, the byte 7 and their checksum
checked_text : from_base58_check digest (codes "Wg7Evj6") 1 ≡ Outcome.ok (1 ∷ [], 7 ∷ [])
unfolding from_base58_check from_base58 count_leading add_digits add_digit digits_map bytes_of
    strip_zeros check_payload double_sha256 text_eq split_version
checked_text = refl

from_base58_check-IsChecked_example :
    (payload : List ℕ) × (from_base58 (codes "Wg7Evj6") ≡ Outcome.ok payload)
    × IsChecked digest 1 payload (1 ∷ []) (7 ∷ [])
from_base58_check-IsChecked_example =
    from_base58_check-IsChecked digest (codes "Wg7Evj6") 1 (1 ∷ []) (7 ∷ []) checked_text

from_base58-IsForeign_example :
    from_base58 (codes "1" ++ (codes "2" ++ codes "0z")) ≡ err (invalid_base58_character b'0' 2)
unfolding alphabet digits_map
from_base58-IsForeign_example =
    from_base58-IsForeign 1 b'0' (1 ∷ []) (codes "z") (ground arith) (ground arith) (omega arith)
      (among-All b'0' alphabet refl)

from_base58_ones_example : from_base58 (replicate 133 b'1') ≡ panicked
from_base58_ones_example = from_base58_ones 133 (omega arith)

-- A version that is longer than the payload panics.
long_version : check_payload digest 3 (9 ∷ 5 ∷ 5 ∷ 5 ∷ 5 ∷ []) ≡ panicked
unfolding check_payload double_sha256 text_eq split_version
long_version = refl
