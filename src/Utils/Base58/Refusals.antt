-- ===== src/Utils/Base58/Refusals.antt =====
-- What `from_base58` of grinboxlib/src/utils/base58.rs refuses, and where it panics.
use grinbox.Prelude.{
  ℕ, suc, ◌+◌, ◌≤◌, ◌<◌, ◌≡◌, ◌≢◌, ◌⊎◌, inl, inr, refl, sym, ap, ◌∙◌, List, [], ◌∷◌, ◌++◌, arith,
  map, leb→le, Bool, true, false, ◌||◌, ◌==◌, All, Bool-cases, ltb, length, get_or, replicate,
  append-nil,
}
use grinbox.Prelude.Text.{Text}
use grinbox.Types.Errors.{invalid_base58_character, Outcome, err, panicked}
use grinbox.Utils.Base58.{
  alphabet, letter, digits_map, no_digit, count_leading, add_digit, add_digits, bytes_of,
  strip_zeros, from_base58,
}
use grinbox.Utils.Base58.Value.{horner, span, AreBelow, horner-replicate, horner-lt, span_grows}
use grinbox.Utils.Base58.Leading.{
  StartsOff, count_leading-append, AreBelow-replicate, map-letter-StartsOff, all_below,
  all_below_at,
}
use grinbox.Utils.Base58.Decode.{word, add_digits-letters, drop-leading}

-- A byte that is no letter of the alphabet.
abbrev pub IsForeign : ℕ → Type 0
IsForeign b = All (λ c. c ≢ b) alphabet

-- What the code tests: the byte is no ASCII, or the map has no digit for it.
abbrev IsRejected : ℕ → Type 0
IsRejected b = (128 ≤ b) ⊎ (get_or digits_map b 0 ≡ no_digit)

abbrev pub among : ℕ → Text → Bool
among b [] = false
among b (c ∷ cs) = (c == b) || among b cs

pub among-All : (b : ℕ) (cs : Text) → among b cs ≡ false → All (λ c. c ≢ b) cs
among-All b [] h = tt
among-All b (c ∷ cs) h = (ground (arith, h), among-All b cs (ground (arith, h)))

All-among : (b : ℕ) (cs : Text) → All (λ c. c ≢ b) cs → among b cs ≡ false
All-among b [] h = refl
All-among b (c ∷ cs) h = ground (arith, h.0, All-among b cs h.1)

abbrev is_covered : ℕ → Bool
is_covered b = among b alphabet || (get_or digits_map b 0 == no_digit)

covered : all_below 128 is_covered ≡ true
unfolding alphabet digits_map
covered = refl

-- The map of the digits has none but for the letters of the alphabet.
IsForeign-IsRejected : (b : ℕ) → IsForeign b → IsRejected b
IsForeign-IsRejected b f = elim (Bool-cases (ltb b 128)) [
  | inl low ↦
      inr (ground (arith, all_below_at 128 is_covered covered b, low, All-among b alphabet f))
  | inr high ↦ inl (ground (arith, high))
]

add_digits-append :
    (i : ℕ) (s t : Text) (out out' : List ℕ)
    → add_digits i s out ≡ Outcome.ok out'
    → add_digits i (s ++ t) out ≡ add_digits (i + length s) t out'
unfolding add_digits
add_digits-append i [] t out out' h = ground (arith, h)
add_digits-append i (b ∷ s) t out out' h =
    ground (arith, h, add_digits-append (suc i) s t (add_digit (get_or digits_map b 0) out).1 out')

add_digits-IsRejected :
    (i b : ℕ) (s : Text) (out : List ℕ)
    → IsRejected b
    → add_digits i (b ∷ s) out ≡ err (invalid_base58_character b i)
unfolding add_digits
add_digits-IsRejected i b s out h = ground (arith, h)

IsRejected-ne-one : (b : ℕ) → IsRejected b → b ≢ b'1'
unfolding digits_map
IsRejected-ne-one b (inl high) e = absurd (omega (arith, high, e))
IsRejected-ne-one b (inr none_there) e =
    absurd (omega (arith, none_there, ap (λ c. get_or digits_map c 0) e, one))
  where
    one : get_or digits_map b'1' 0 ≡ 0
    one = refl

starts :
    (ds rest : List ℕ) (b : ℕ)
    → AreBelow 58 ds
    → StartsOff 0 ds
    → IsRejected b
    → StartsOff b'1' (map letter ds ++ b ∷ rest)
starts [] rest b h k f = IsRejected-ne-one b f
starts (d ∷ ds) rest b h k f = map-letter-StartsOff (d ∷ ds) h k

-- Behind ones and at most 180 further letters, the first of them not a one, from_base58 refuses a
-- byte that is no letter of the alphabet, with the byte and its position, whatever stands behind
-- it.
pub from_base58-IsForeign :
    (z b : ℕ) (ds : List ℕ) (rest : Text)
    → AreBelow 58 ds
    → StartsOff 0 ds
    → length ds ≤ 180
    → IsForeign b
    → from_base58 (replicate z b'1' ++ (map letter ds ++ b ∷ rest))
      ≡ err (invalid_base58_character b (z + length ds))
unfolding from_base58
from_base58-IsForeign z b ds rest h k l f =
    let rejected : IsRejected b = IsForeign-IsRejected b f in
    let zeros : horner word 0 (replicate 33 0) ≡ 0 = horner-replicate word 33 in
    let fit : horner 58 (horner word 0 (replicate 33 0)) ds < span word 1 33 = omega (
      arith,
      ap (λ x. horner 58 x ds) zeros,
      horner-lt 58 1 0 ds (omega arith) h,
      span_grows 57 (length ds) 180 l,
      room,
    ) in
    let (out, read, _, _, _) =
      add_digits-letters z ds (replicate 33 0) h (AreBelow-replicate word 33 (omega arith)) fit in
    rw (
      count_leading-append b'1' z (map letter ds ++ b ∷ rest) (starts ds rest b h k rejected),
      drop-leading z b'1' (map letter ds ++ b ∷ rest),
      add_digits-append z (map letter ds) (b ∷ rest) (replicate 33 0) out read,
      add_digits-IsRejected (z + length (map letter ds)) b rest out rejected,
      length-map-letter ds,
    )
  where
    room : span 58 1 180 ≤ span word 1 33
    room = leb→le (span 58 1 180) (span word 1 33) refl

    length-map-letter : (xs : List ℕ) → length (map letter xs) ≡ length xs
    length-map-letter [] = refl
    length-map-letter (x ∷ xs) = ap suc (length-map-letter xs)

-- from_base58 panics on a text of more than 132 ones.
pub from_base58_ones : (n : ℕ) → 132 < n → from_base58 (replicate n b'1') ≡ panicked
unfolding from_base58 add_digits bytes_of strip_zeros count_leading
from_base58_ones n h =
    ap from_base58 (sym (append-nil {A = ℕ} (replicate n b'1')))
    ∙ (let e : from_base58 (replicate n b'1' ++ []) ≡ panicked =
          rw (count_leading-append b'1' n [] tt, drop-leading n b'1' [], from_base58)
            (ground (arith, h)) in
        e)
