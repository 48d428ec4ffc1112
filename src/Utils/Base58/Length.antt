-- ===== src/Utils/Base58/Length.antt =====
-- How long the texts with a checksum are that addresses hold: two bytes of a version, of which the
-- first is 1, 33 bytes of a key and four of the checksum make 52 letters.
use grinbox.Prelude.{
  ℕ, suc, ◌+◌, ◌*◌, ◌≤◌, ◌<◌, ◌≡◌, refl, ap, some, List, [], ◌∷◌, ◌++◌, arith, All, map, leb→le,
  ltb, length, length-append, All-append, Bool-cases, inl, inr,
}
use grinbox.Prelude.Text.{Text}
use grinbox.Utils.Base58.{letter, count_leading, to_base58, to_base58_check}
use grinbox.Utils.Base58.Value.{horner, span, AreBelow, le-horner, horner-lt, span_grows}
use grinbox.Utils.Base58.Leading.{StartsOff}
use grinbox.Utils.Base58.Encode.{to_base58-digits}
use grinbox.Utils.Base58.Check.{IsDigest, checksum, checksum_lem}

abbrev pub IsLetter : ℕ → Type 0
IsLetter c = (d : ℕ) × (d < 58) × (letter d ≡ c)

-- 52 letters of the alphabet
abbrev pub IsKeyText : Text → Type 0
IsKeyText t = (length t ≡ 52) × All IsLetter t

length-digits :
    (ds : List ℕ)
    → AreBelow 58 ds
    → StartsOff 0 ds
    → span 58 1 51 ≤ horner 58 0 ds
    → horner 58 0 ds < span 58 1 52
    → length ds ≡ 52
length-digits [] h s lo hi = absurd (omega (arith, lo, leb→le 1 (span 58 1 51) refl))
length-digits (d ∷ ds) h s lo hi =
    let a : 52 ≤ suc (length ds) = elim (Bool-cases (ltb (length ds) 51)) [
      | inl short ↦ absurd (
          omega (
            arith,
            lo,
            horner-lt 58 1 0 (d ∷ ds) (omega arith) h,
            span_grows 57 (suc (length ds)) 51 (ground (arith, short)),
          ))
      | inr long ↦ ground (arith, long)
    ] in
    let b : length ds ≤ 51 = elim (Bool-cases (ltb 51 (length ds))) [
      | inl long ↦ absurd (
          omega (
            arith,
            hi,
            le-horner 58 1 (58 * 0 + d) ds (ground (arith, s)),
            span_grows 57 52 (length ds) (ground (arith, long)),
          ))
      | inr short ↦ ground (arith, short)
    ] in
    omega (arith, a, b)

letters :
    (ds : List ℕ)
    → AreBelow 58 ds
    → (length (map letter ds) ≡ length ds) × All IsLetter (map letter ds)
letters [] h = (refl, tt)
letters (d ∷ ds) h = (ap suc (letters ds h.1).0, ((d, h.0, refl), (letters ds h.1).1))

to_base58-IsKeyText :
    (b : ℕ) (rest : List ℕ)
    → b ≤ 120
    → AreBelow 256 rest
    → length rest ≡ 37
    → (t : Text) → to_base58 (1 ∷ b ∷ rest) ≡ some t
    → IsKeyText t
unfolding count_leading
to_base58-IsKeyText b rest hb h l t e =
    let (ds, made, (below, start, num)) =
      to_base58-digits (1 ∷ b ∷ rest) (omega arith, (omega (arith, hb), h)) in
    let n : length ds ≡ 52 =
      length-digits ds below start
        (omega (
          arith,
          num,
          ap (span 256 256) l,
          lower,
          le-horner 256 256 (256 * 1 + b) rest (omega arith),
        ))
        (omega (
          arith,
          num,
          ap (span 256 377) l,
          upper,
          horner-lt 256 377 (256 * 1 + b) rest (omega (arith, hb)) h,
        )) in
    let eq : t ≡ map letter ds = cc (made, e) in
    rw eq (omega (arith, (letters ds below).0, n), (letters ds below).1)
  where
    lower : span 58 1 51 ≤ span 256 256 37
    lower = leb→le (span 58 1 51) (span 256 256 37) refl

    upper : span 256 377 37 ≤ span 58 1 52
    upper = leb→le (span 256 377 37) (span 58 1 52) refl

-- to_base58_check makes 52 letters of 33 bytes and a version of an address.
pub to_base58_check-IsKeyText :
    (sha256 : List ℕ → List ℕ)
    → IsDigest sha256
    → (b : ℕ) (bytes : List ℕ) (t : Text) → b ≤ 120
    → AreBelow 256 bytes
    → length bytes ≡ 33
    → to_base58_check sha256 bytes (1 ∷ b ∷ []) ≡ some t
    → IsKeyText t
unfolding to_base58_check
to_base58_check-IsKeyText sha256 digest b bytes t hb h l e =
    let p : List ℕ = 1 ∷ b ∷ bytes in
    let (four, bound) = checksum_lem sha256 digest p in
    to_base58-IsKeyText b (bytes ++ checksum sha256 p) hb
      (All-append (λ d. d < 256) bytes (checksum sha256 p) h bound)
      (omega (arith, length-append bytes (checksum sha256 p), l, four)) t e
