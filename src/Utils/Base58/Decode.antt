-- ===== src/Utils/Base58/Decode.antt =====
-- `from_base58` of grinboxlib/src/utils/base58.rs undoes `to_base58`.
use grinbox.Prelude.{
  ℕ, zero, suc, ◌+◌, ◌-◌, ◌*◌, ◌/◌, ◌%◌, ◌^◌, ◌≤◌, ◌<◌, ◌≡◌, refl, sym, ap, ◌∙◌, some, List, [],
  ◌∷◌, ◌++◌, arith, All-append, map, ltb, Bool-cases, inl, inr, length, length-append, drop,
  replicate,
}
use grinbox.Prelude.Text.{Text}
use grinbox.Types.Errors.{Outcome}
use grinbox.Utils.Base58.{
  add_digit, add_digits, bytes_of, strip_zeros, letter, count_leading, from_base58, to_base58,
}
use grinbox.Utils.Base58.Value.{
  horner, span, AreBelow, horner-append, horner-replicate, le-horner, horner-lt, horner-ge,
  span_grows, horner256_injective,
}
use grinbox.Utils.Base58.Leading.{
  StartsOff, behind, leading_split, behind-StartsOff, count_leading-append, drop-replicate,
  horner-behind, length-replicate, AreBelow-replicate, AreBelow-drop, digits_map-letter,
  map-letter-StartsOff,
}
use grinbox.Utils.Base58.Encode.{to_base58-digits}

abbrev pub word : ℕ
word = 2 ^ 32

-- The inner loop multiplies by 58 and adds the digit.
add_digit_lem :
    (c : ℕ) (ws : List ℕ)
    → c < 58
    → AreBelow word ws
    → ((add_digit c ws).0 < 58)
      × AreBelow word (add_digit c ws).1
      × (length (add_digit c ws).1 ≡ length ws)
      × ((v : ℕ)
          → horner word (58 * v + (add_digit c ws).0) (add_digit c ws).1
            ≡ 58 * horner word v ws + c)
unfolding add_digit
add_digit_lem c [] hc hw = (hc, tt, refl, λ v. refl)
add_digit_lem c (w ∷ ws) hc hw =
    let (low, words, l, rest) = add_digit_lem c ws hc hw.1 in
    let t : ℕ = w * 58 + (add_digit c ws).0 in
    let e : t % 2 ^ 64 ≡ t = omega (arith, low, hw.0) in
    let f : t / 2 ^ 32 % 64 ≡ t / 2 ^ 32 = omega (arith, low, hw.0) in
    rw (e, f)
      (
        omega (arith, low, hw.0),
        (omega arith, words),
        ap suc l,
        λ v.
            ap (λ x. horner word x (add_digit c ws).1)
              (let g : word * (58 * v + t / 2 ^ 32) + t % 2 ^ 32
                    ≡ 58 * (word * v + w) + (add_digit c ws).0 =
                  omega arith in
                g)
            ∙ rest (word * v + w),
      )

bytes_of-AreBelow : (ws : List ℕ) → AreBelow 256 (bytes_of ws)
unfolding bytes_of
bytes_of-AreBelow [] = tt
bytes_of-AreBelow (w ∷ ws) =
    (omega arith, (omega arith, (omega arith, (omega arith, bytes_of-AreBelow ws))))

length-bytes_of : (ws : List ℕ) → length (bytes_of ws) ≡ 4 * length ws
unfolding bytes_of
length-bytes_of [] = omega arith
length-bytes_of (w ∷ ws) = omega (arith, length-bytes_of ws)

horner-bytes_of :
    (v : ℕ) (ws : List ℕ) → AreBelow word ws → horner 256 v (bytes_of ws) ≡ horner word v ws
unfolding bytes_of
horner-bytes_of v [] h = refl
horner-bytes_of v (w ∷ ws) h =
    ap (λ x. horner 256 x (bytes_of ws))
      (let g : 256
                * (256 * (256 * (256 * v + w / 2 ^ 24 % 256) + w / 2 ^ 16 % 256) + w / 2 ^ 8 % 256)
              + w % 256
            ≡ word * v + w =
          omega (arith, h.0) in
        g)
    ∙ horner-bytes_of (word * v + w) ws h.1

-- The carry out of the words is zero as long as the number fits.
carry_zero :
    (d : ℕ) (out ds : List ℕ)
    → d < 58
    → AreBelow word out
    → horner 58 (58 * horner word 0 out + d) ds < span word 1 (length out)
    → (add_digit d out).0 ≡ 0
carry_zero d out ds hd hw fit =
    let (low, words, l, num) = add_digit_lem d out hd hw in
    elim (Bool-cases (ltb 0 (add_digit d out).0)) [
      | inl more ↦ absurd (
          omega (
            arith,
            fit,
            le-horner word 1 (58 * 0 + (add_digit d out).0) (add_digit d out).1 (ground arith),
            ap (span word 1) l,
            num 0,
            horner-ge 57 (58 * horner word 0 out + d) ds,
          ))
      | inr none_left ↦ ground arith
    ]

add_digits_cons :
    (i d : ℕ) (s : Text) (out : List ℕ)
    → d < 58
    → (add_digit d out).0 ≡ 0
    → add_digits i (letter d ∷ s) out ≡ add_digits (suc i) s (add_digit d out).1
unfolding add_digits
add_digits_cons i d s out h z = ground (arith, digits_map-letter d h, z)

pub add_digits-letters :
    (i : ℕ) (ds out : List ℕ)
    → AreBelow 58 ds
    → AreBelow word out
    → horner 58 (horner word 0 out) ds < span word 1 (length out)
    → (out' : List ℕ) × (add_digits i (map letter ds) out ≡ Outcome.ok out')
      × AreBelow word out'
      × (length out' ≡ length out)
      × (horner word 0 out' ≡ horner 58 (horner word 0 out) ds)
unfolding add_digits
add_digits-letters i [] out hd hw fit = (out, refl, hw, refl, refl)
add_digits-letters i (d ∷ ds) out hd hw fit =
    let z : (add_digit d out).0 ≡ 0 = carry_zero d out ds hd.0 hw fit in
    let (low, words, l, num) = add_digit_lem d out hd.0 hw in
    let n : horner word 0 (add_digit d out).1 ≡ 58 * horner word 0 out + d =
      ap (λ x. horner word x (add_digit d out).1)
        (let e : 0 ≡ 58 * 0 + (add_digit d out).0 = omega (arith, z) in e)
      ∙ num 0 in
    let (out', e, words', l', num') =
      add_digits-letters (suc i) ds (add_digit d out).1 hd.1 words
        (omega (arith, fit, ap (λ x. horner 58 x ds) n, ap (span word 1) l)) in
    (
      out',
      add_digits_cons i d (map letter ds) out hd.0 z ∙ e,
      words',
      l' ∙ l,
      num' ∙ ap (λ x. horner 58 x ds) n,
    )

strip_zeros_lem :
    (z n : ℕ) (bs : List ℕ)
    → StartsOff 0 bs
    → strip_zeros z (replicate (n + z) 0 ++ bs) ≡ Outcome.ok (replicate z 0 ++ bs)
unfolding strip_zeros
strip_zeros_lem z n bs h =
    rw
      (
        count_leading-append 0 (n + z) bs h,
        let e : n + z - z ≡ n = omega arith in e,
        drop-replicate n z 0 bs,
        strip_zeros,
      )
      (ground arith)

-- Bytes with the same number are the same, but for zeros at the front.
bytes_of_number :
    (z n : ℕ) (bs out : List ℕ)
    → AreBelow word out
    → AreBelow 256 bs
    → n + z + length bs ≡ 4 * length out
    → horner word 0 out ≡ horner 256 0 bs
    → bytes_of out ≡ replicate (n + z) 0 ++ bs
bytes_of_number z n bs out hw hb l e =
    (horner256_injective 0 0 (bytes_of out) (replicate (n + z) 0 ++ bs)
      (omega (
        arith,
        length-bytes_of out,
        length-append (replicate (n + z) 0) bs,
        length-replicate (n + z) 0,
      ))
      (bytes_of-AreBelow out)
      (All-append (λ d. d < 256) (replicate (n + z) 0) bs
        (AreBelow-replicate 256 (n + z) (omega arith)) hb)
      (horner-bytes_of 0 out hw
        ∙ e
        ∙ sym (
            horner-append 256 0 (replicate (n + z) 0) bs
            ∙ ap (λ v. horner 256 v bs) (horner-replicate 256 (n + z))))).1

-- Up to 132 bytes fit into the words.
fits : (bs : List ℕ) → AreBelow 256 bs → length bs ≤ 132 → horner 256 0 bs < span word 1 33
fits bs h l =
    omega (arith, horner-lt 256 1 0 bs (omega arith) h, span_grows 255 (length bs) 132 l, whole)
  where
    whole : span 256 1 132 ≡ span word 1 33
    whole = refl

pub drop-leading : (n x : ℕ) (xs : List ℕ) → drop n (replicate n x ++ xs) ≡ xs
drop-leading zero x xs = refl
drop-leading (suc n) x xs = drop-leading n x xs

from_base58_of :
    (z : ℕ) (s : Text) (out : List ℕ)
    → StartsOff b'1' s
    → add_digits z s (replicate 33 0) ≡ Outcome.ok out
    → from_base58 (replicate z b'1' ++ s) ≡ strip_zeros z (bytes_of out)
unfolding from_base58
from_base58_of z s out h e =
    rw (count_leading-append b'1' z s h, drop-leading z b'1' s, e, from_base58)

-- For up to 132 bytes, to_base58 returns a text, and from_base58 reads the bytes back from it,
-- leading zeros included.
pub from_base58-to_base58 :
    (bs : List ℕ)
    → AreBelow 256 bs
    → length bs ≤ 132
    → (t : Text) × (to_base58 bs ≡ some t) × (from_base58 t ≡ Outcome.ok bs)
from_base58-to_base58 bs h l =
    let z : ℕ = count_leading 0 bs in
    let (ds, made, (below, start, num)) = to_base58-digits bs h in
    let zeros : horner word 0 (replicate 33 0) ≡ 0 = horner-replicate word 33 in
    let n : horner 58 (horner word 0 (replicate 33 0)) ds ≡ horner 256 0 bs =
      ap (λ x. horner 58 x ds) zeros ∙ num in
    let (out, e, words, len, value) =
      add_digits-letters z ds (replicate 33 0) below (AreBelow-replicate word 33 (omega arith))
        (omega (arith, n, fits bs h l)) in
    let all : length bs ≡ z + length (behind 0 bs) = omega (
      arith,
      ap length (sym (leading_split 0 bs)),
      length-append (replicate z 0) (behind 0 bs),
      length-replicate z 0,
    ) in
    (
      replicate z b'1' ++ map letter ds,
      made,
      from_base58_of z (map letter ds) out (map-letter-StartsOff ds below start) e
          ∙ ap (strip_zeros z) (
              bytes_of_number z (132 - length bs) (behind 0 bs) out words (AreBelow-drop 256 z bs h)
                (omega (arith, l, all, len)) (value ∙ n ∙ sym (horner-behind 256 bs)))
          ∙ strip_zeros_lem z (132 - length bs) (behind 0 bs) (behind-StartsOff 0 bs)
          ∙ ap (λ x. Outcome.ok x) (leading_split 0 bs),
    )
