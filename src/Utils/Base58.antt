-- ===== src/Utils/Base58.antt =====
-- grinboxlib/src/utils/base58.rs. The digits of a buffer are the most significant first, as in the
-- source. SHA-256 is another package's, and a parameter.
pub mod Value
pub mod Leading
pub mod AddByte
pub mod Encode
pub mod Decode
pub mod Check
pub mod Length
pub mod Refusals
use Prim.Native.String.{String}
use grinbox.Prelude.{
  ℕ, zero, suc, ◌+◌, ◌-◌, ◌*◌, ◌/◌, ◌%◌, ◌^◌, Bool, true, false, not, Option, none, some, List, [],
  ◌∷◌, ◌++◌, map, ◌&&◌, ◌||◌, ◌==◌, ltb, leb, length, take, drop, get_or, set, replicate,
  if◌then◌else◌,
}
use grinbox.Prelude.Text.{Text, codes, text_eq}
use grinbox.Types.Errors.{
  ErrorKind, invalid_base58_character, invalid_base58_length, invalid_base58_checksum, Outcome, ok,
  err, panicked, ◌>>=◌,
}

-- `ALPHABET`
unfoldable pub alphabet : List ℕ
alphabet = codes "123456789ABCDEFGHJKLMNPQRSTUVWXYZabcdefghijkmnopqrstuvwxyz"

-- The `i8` of -1, which stands for a byte that is no digit.
abbrev pub no_digit : ℕ
no_digit = 255

-- `B58_DIGITS_MAP`
unfoldable pub digits_map : List ℕ
digits_map =
    replicate 49 no_digit
    ++ (0 ∷ 1 ∷ 2 ∷ 3 ∷ 4 ∷ 5 ∷ 6 ∷ 7 ∷ 8 ∷ [])
    ++ replicate 7 no_digit
    ++ (9 ∷ 10 ∷ 11 ∷ 12 ∷ 13 ∷ 14 ∷ 15 ∷ 16 ∷ no_digit ∷ 17 ∷ 18 ∷ 19 ∷ 20 ∷ 21 ∷ no_digit ∷ 22
        ∷ 23 ∷ 24 ∷ 25 ∷ 26 ∷ 27 ∷ 28 ∷ 29 ∷ 30 ∷ 31 ∷ 32 ∷ [])
    ++ replicate 6 no_digit
    ++ (33 ∷ 34 ∷ 35 ∷ 36 ∷ 37 ∷ 38 ∷ 39 ∷ 40 ∷ 41 ∷ 42 ∷ 43 ∷ no_digit ∷ 44 ∷ 45 ∷ 46 ∷ 47 ∷ 48
        ∷ 49 ∷ 50 ∷ 51 ∷ 52 ∷ 53 ∷ 54 ∷ 55 ∷ 56 ∷ 57 ∷ [])
    ++ replicate 5 no_digit

-- `iter().take_while(|x| **x == c).count()`
unfoldable pub count_leading : ℕ → List ℕ → ℕ
count_leading c [] = 0
count_leading c (b ∷ bs) = let more = suc (count_leading c bs) in if b == c then more else 0

-- The inner loop of `to_base58`, from the index `j` down: the buffer, and the index where it stops.
-- The index stays at 0 when it has come there. `none` is a loop that is given too few rounds.
unfoldable pub add_byte : ℕ → List ℕ → ℕ → ℕ → ℕ → Option (List ℕ × ℕ)
add_byte zero buffer j high carry = none
add_byte (suc rounds) buffer j high carry =
    let total = (carry + 256 * get_or buffer j 0) % 2 ^ 32 in
    let rest = add_byte rounds (set buffer j (total % 58)) (j - 1) high (total / 58) in
    if ltb high j || not (carry == 0) then rest else some (buffer, j)

-- the outer loop, over the bytes behind the leading zeros
unfoldable pub add_bytes : List ℕ → List ℕ → ℕ → Option (List ℕ)
add_bytes [] buffer high = some buffer
add_bytes (b ∷ bs) buffer high =
    elim (add_byte (suc (length buffer)) buffer (length buffer - 1) high b) [
      | none ↦ none
      | some (buffer', j) ↦ add_bytes bs buffer' j
    ]

-- the size of the buffer for so many bytes
unfoldable pub buffer_size : ℕ → ℕ
buffer_size n = n * 138 / 100 + 1

abbrev pub letter : ℕ → ℕ
letter d = get_or alphabet d 0

-- the text of the digits behind the leading zeros of the buffer
unfoldable pub digits_text : List ℕ → Text
digits_text buffer = map letter (drop (count_leading 0 buffer) buffer)

-- `to_base58`
unfoldable pub to_base58 : List ℕ → Option Text
to_base58 bytes =
    let zcount = count_leading 0 bytes in
    let size = buffer_size (length bytes - zcount) in
    elim (add_bytes (drop zcount bytes) (replicate size 0) (size - 1)) [
      | none ↦ none
      | some buffer ↦ some (replicate zcount b'1' ++ digits_text buffer)
    ]

-- The inner loop of `from_base58`, which takes the words from the last to the first: the carry out
-- of the first, and the new words.
unfoldable pub add_digit : ℕ → List ℕ → ℕ × List ℕ
add_digit c [] = (c, [])
add_digit c (w ∷ ws) =
    let (carry, rest) = add_digit c ws in
    let t = (w * 58 + carry) % 2 ^ 64 in (t / 2 ^ 32 % 64, t % 2 ^ 32 ∷ rest)

-- The loop over the bytes of the text from the index `i`. The mask of the second test on the length
-- is 0, since 132 is a multiple of 4, so that test never holds.
unfoldable pub add_digits : ℕ → Text → List ℕ → Outcome (List ℕ)
add_digits i [] out = ok out
add_digits i (b ∷ s) out =
    let (carry, out') = add_digit (get_or digits_map b 0) out in
    let rest = add_digits (suc i) s out' in
    if leb 128 b
    then err (invalid_base58_character b i)
    else if get_or digits_map b 0 == no_digit
    then err (invalid_base58_character b i)
    else if carry == 0
    then rest
    else err invalid_base58_length

-- the four bytes of each word
unfoldable pub bytes_of : List ℕ → List ℕ
bytes_of [] = []
bytes_of (w ∷ ws) = w / 2 ^ 24 % 256 ∷ w / 2 ^ 16 % 256 ∷ w / 2 ^ 8 % 256 ∷ w % 256 ∷ bytes_of ws

-- the bytes behind the leading zeros of the array but as many as there were ones; more ones than
-- zeros are a slice that is out of range
unfoldable pub strip_zeros : ℕ → List ℕ → Outcome (List ℕ)
strip_zeros zcount bin =
    if leb zcount (count_leading 0 bin)
    then ok (drop (count_leading 0 bin - zcount) bin)
    else panicked

-- `from_base58`
unfoldable pub from_base58 : Text → Outcome (List ℕ)
from_base58 s =
    let zcount = count_leading b'1' s in
    add_digits zcount (drop zcount s) (replicate 33 0) >>= λ out. strip_zeros zcount (bytes_of out)

-- the slices of the payload at the length of the version
unfoldable pub split_version : ℕ → List ℕ → Outcome (List ℕ × List ℕ)
split_version version_bytes payload =
    if leb version_bytes (length payload)
    then ok (take version_bytes payload, drop version_bytes payload)
    else panicked

module _ (sha256 : List ℕ → List ℕ) where
  -- `double_sha256`
  unfoldable pub double_sha256 : List ℕ → List ℕ
  double_sha256 payload = sha256 (sha256 payload)

  -- `to_base58_check`
  unfoldable pub to_base58_check : List ℕ → List ℕ → Option Text
  to_base58_check bytes version =
      let payload = version ++ bytes in to_base58 (payload ++ take 4 (double_sha256 payload))

  unfoldable pub check_payload : ℕ → List ℕ → Outcome (List ℕ × List ℕ)
  check_payload version_bytes payload =
      let body = take (length payload - 4) payload in
      if ltb (length payload) 5
      then err invalid_base58_checksum
      else if text_eq (take 4 (double_sha256 body)) (drop (length payload - 4) payload)
      then split_version version_bytes body
      else err invalid_base58_checksum

  -- `from_base58_check`
  unfoldable pub from_base58_check : Text → ℕ → Outcome (List ℕ × List ℕ)
  from_base58_check s version_bytes = from_base58 s >>= check_payload version_bytes
