-- ===== src/Utils/Base58/Encode.antt =====
-- `to_base58` of grinboxlib/src/utils/base58.rs returns, with the digits of the number.
use mathlib.Core.List.{reverse, reverse-cons}
use grinbox.Prelude.{
  ℕ, zero, suc, ◌+◌, ◌-◌, ◌*◌, ◌/◌, ◌%◌, ◌≤◌, ◌<◌, ◌≡◌, refl, sym, ap, ◌∙◌, true, Option, some,
  List, [], ◌∷◌, ◌++◌, arith, map, leb, leb→le, length, length-drop, replicate, append-nil,
}
use grinbox.Utils.Base58.{
  add_byte, add_bytes, buffer_size, count_leading, digits_text, letter, to_base58,
}
use grinbox.Utils.Base58.Value.{
  horner, span, AreBelow, span-add, horner-lt, span-mul, horner-ge, mul_le,
}
use grinbox.Utils.Base58.Leading.{
  StartsOff, behind, behind-StartsOff, horner-behind, length-replicate, AreBelow-replicate,
  AreBelow-drop, AreBelow-reverse, all_below, all_below_at,
}
use grinbox.Utils.Base58.AddByte.{
  mul_add, value, IsClear, value-mul_add, length-mul_add, mul_add-AreBelow, value_reverse,
  length-reverse, carry_out_zero, carry_out, add_byte-mul_add,
}

-- As long as the number of the next round fits, the first digit is zero.
top-IsClear : (ds : List ℕ) → 256 * value 0 ds < span 58 1 (length ds) → IsClear 0 ds
top-IsClear [] h = tt
top-IsClear (d ∷ []) h = (λ _. omega (arith, h), tt)
top-IsClear (d ∷ e ∷ ds) h = (
  λ le. absurd (omega (arith, le)),
  top-IsClear (e ∷ ds) (omega (arith, h, span-mul 58 58 1 (suc (length ds)))),
)

abbrev Digits : Option (List ℕ) → ℕ → ℕ → Type 0
Digits r size n =
    (ds : List ℕ) × (r ≡ some (reverse ds))
    × ((length ds ≡ size) × AreBelow 58 ds × (value 0 ds ≡ n))

is_clear :
    (high : ℕ) (ds : List ℕ)
    → (0 < high → IsClear high ds)
    → 256 * value 0 ds < span 58 1 (length ds)
    → IsClear high ds
is_clear zero ds h k = top-IsClear ds k
is_clear (suc high) ds h k = h (omega arith)

add_bytes_cons :
    (b : ℕ) (bs : List ℕ) (high n : ℕ) (buffer buffer' : List ℕ) (j : ℕ)
    → length buffer ≡ suc n
    → add_byte (suc (suc n)) buffer n high b ≡ some (buffer', j)
    → add_bytes (b ∷ bs) buffer high ≡ add_bytes bs buffer' j
unfolding add_bytes
add_bytes_cons b bs high n buffer buffer' j l e =
    rw (l, let eq : suc n - 1 ≡ n = omega arith in eq, e, add_bytes)

add_bytes-Digits :
    (bs : List ℕ) (high d : ℕ) (ds : List ℕ)
    → AreBelow 256 bs
    → AreBelow 58 (d ∷ ds)
    → (0 < high → IsClear high (d ∷ ds))
    → horner 256 (value 0 (d ∷ ds)) bs < span 58 1 (suc (length ds))
    → Digits
        (add_bytes bs (reverse (d ∷ ds)) high)
        (suc (length ds))
        (horner 256 (value 0 (d ∷ ds)) bs)
unfolding add_bytes
add_bytes-Digits [] high d ds hb hd clear fit = (d ∷ ds, refl, (refl, hd, refl))
add_bytes-Digits (b ∷ bs) high d ds hb hd clear fit =
    let now : 256 * value 0 (d ∷ ds) + b < span 58 1 (length (d ∷ ds)) =
      omega (arith, fit, horner-ge 255 (256 * value 0 (d ∷ ds) + b) bs) in
    let out : carry_out (d ∷ ds) b ≡ 0 = carry_out_zero (d ∷ ds) b now in
    let (j, eq, (clear', below)) =
      add_byte-mul_add (suc (suc (length ds))) high b d ds [] (omega arith) hb.0 hd
        (is_clear high (d ∷ ds) clear (omega (arith, now))) out in
    let same : length (mul_add ds ((b + 256 * d) / 58)) ≡ length ds =
      length-mul_add ds ((b + 256 * d) / 58) in
    let v : value 0 (mul_add (d ∷ ds) b) ≡ 256 * value 0 (d ∷ ds) + b =
      ap (λ t. value t (mul_add (d ∷ ds) b)) (sym out) ∙ value-mul_add (d ∷ ds) b in
    let step : add_bytes (b ∷ bs) (reverse (d ∷ ds)) high
        ≡ add_bytes bs (reverse (mul_add (d ∷ ds) b)) j =
      add_bytes_cons b bs high (length ds) (reverse (d ∷ ds)) (reverse (mul_add (d ∷ ds) b)) j
        (length-reverse (d ∷ ds))
        (ap (λ l. add_byte (suc (suc (length ds))) l (length ds) high b) (reverse-cons d ds)
          ∙ eq
          ∙ ap (λ l. some (l, j)) (append-nil (reverse (mul_add (d ∷ ds) b)))) in
    let (rs, e, (l, a, w)) =
      add_bytes-Digits bs j ((b + 256 * d) % 58) (mul_add ds ((b + 256 * d) / 58)) hb.1
        (mul_add-AreBelow (d ∷ ds) b) clear'
        (omega (arith, fit, ap (λ t. horner 256 t bs) v, ap (λ n. span 58 1 (suc n)) same)) in
    (rs, step ∙ e, (l ∙ ap suc same, a, w ∙ ap (λ t. horner 256 t bs) v))

capacities : all_below 100 (λ r. leb (span 256 1 r) (span 58 1 (suc (r * 138 / 100)))) ≡ true
capacities = refl

small_capacity : (r : ℕ) → r < 100 → span 256 1 r ≤ span 58 1 (suc (r * 138 / 100))
small_capacity r h =
    leb→le (span 256 1 r) (span 58 1 (suc (r * 138 / 100)))
      (all_below_at 100 (λ r. leb (span 256 1 r) (span 58 1 (suc (r * 138 / 100)))) capacities r h)

span_from_one : (b m n : ℕ) → span b m n ≡ m * span b 1 n
span_from_one b m n = ap (λ x. span b x n) (let e : m ≡ m * 1 = omega arith in e) ∙ span-mul b m 1 n

span_le : (m k n p : ℕ) → m ≤ k → span 256 1 n ≤ span 58 1 p → span 256 m n ≤ span 58 k p
span_le m k n p h e = grind (
  arith,
  span_from_one 256 m n,
  span_from_one 58 k p,
  mul_le m (span 256 1 n) (span 58 1 p) e,
  mul_le (span 58 1 p) m k h,
)

-- 138 digits hold 100 bytes.
hundreds : (q m k : ℕ) → m ≤ k → span 256 m (100 * q) ≤ span 58 k (138 * q)
hundreds zero m k h = h
hundreds (suc q) m k h =
    rw
      (
        let e : 100 * suc q ≡ 100 + 100 * q = omega arith in e,
        let e : 138 * suc q ≡ 138 + 138 * q = omega arith in e,
        span-add 256 m 100 (100 * q),
        span-add 58 k 138 (138 * q),
      )
      (hundreds q (span 256 m 100) (span 58 k 138)
        (span_le m k 100 138 h (leb→le (span 256 1 100) (span 58 1 138) refl)))

-- The buffer is long enough.
capacity : (n : ℕ) → span 256 1 n ≤ span 58 1 (suc (n * 138 / 100))
capacity n =
    let e : n ≡ n % 100 + 100 * (n / 100) = omega arith in
    let f : suc (n * 138 / 100) ≡ suc (n % 100 * 138 / 100) + 138 * (n / 100) = omega arith in
    omega (
      arith,
      ap (span 256 1) e ∙ span-add 256 1 (n % 100) (100 * (n / 100)),
      ap (span 58 1) f ∙ span-add 58 1 (suc (n % 100 * 138 / 100)) (138 * (n / 100)),
      hundreds (n / 100) (span 256 1 (n % 100)) (span 58 1 (suc (n % 100 * 138 / 100)))
          (small_capacity (n % 100) (omega arith)),
    )

replicate_snoc : (n x : ℕ) → replicate n x ++ x ∷ [] ≡ x ∷ replicate n x
replicate_snoc zero x = refl
replicate_snoc (suc n) x = ap (λ l. x ∷ l) (replicate_snoc n x)

reverse-replicate : (n x : ℕ) → reverse (replicate n x) ≡ replicate n x
reverse-replicate zero x = refl
reverse-replicate (suc n) x =
    reverse-cons x (replicate n x)
    ∙ ap (λ l. l ++ x ∷ []) (reverse-replicate n x)
    ∙ replicate_snoc n x

value-replicate : (n : ℕ) → value 0 (replicate n 0) ≡ 0
value-replicate zero = refl
value-replicate (suc n) = omega (arith, value-replicate n)

replicate-IsClear : (high n : ℕ) → IsClear high (replicate n 0)
replicate-IsClear high zero = tt
replicate-IsClear high (suc n) = (λ _. refl, replicate-IsClear high n)

to_base58_of :
    (bs buffer : List ℕ) (m : ℕ)
    → (length bs - count_leading 0 bs) * 138 / 100 ≡ m
    → add_bytes (behind 0 bs) (replicate (suc m) 0) m ≡ some buffer
    → to_base58 bs ≡ some (replicate (count_leading 0 bs) b'1' ++ map letter (behind 0 buffer))
unfolding to_base58 buffer_size digits_text
to_base58_of bs buffer m h e = rw (
  let f : (length bs - count_leading 0 bs) * 138 / 100 + 1 ≡ suc m = omega (arith, h) in f,
  let f : suc m - 1 ≡ m = omega arith in f,
  e,
  to_base58,
)

-- the buffer that the loops leave
buffer-Digits :
    (bs : List ℕ)
    → AreBelow 256 bs
    → (m : ℕ) → m ≡ length bs * 138 / 100
    → Digits (add_bytes bs (replicate (suc m) 0) m) (suc m) (horner 256 0 bs)
buffer-Digits bs h m e =
    let l : length {A = ℕ} (replicate m 0) ≡ m = length-replicate m 0 in
    let v : value 0 (replicate (suc m) 0) ≡ 0 = value-replicate (suc m) in
    let zeros : AreBelow 58 (replicate (suc m) 0) = AreBelow-replicate 58 (suc m) (omega arith) in
    let (ds, f, (len, below, num)) =
      add_bytes-Digits bs m 0 (replicate m 0) h zeros (λ _. replicate-IsClear m (suc m))
        (omega (
          arith,
          ap (λ x. horner 256 x bs) v,
          ap (λ x. span 58 1 (suc x)) l,
          horner-lt 256 1 0 bs (omega arith) h,
          capacity (length bs),
          ap (λ x. span 58 1 (suc x)) e,
        )) in
    (
      ds,
      ap (λ b. add_bytes bs b m) (sym (reverse-replicate (suc m) 0)) ∙ f,
      (len ∙ ap suc l, below, num ∙ ap (λ x. horner 256 x bs) v),
    )

-- For any number of bytes the loops of to_base58 end, and its text is a 1 for each leading zero and
-- the letters of the number's digits to the base 58, of which the first is not zero.
pub to_base58-digits :
    (bs : List ℕ)
    → AreBelow 256 bs
    → (ds : List ℕ) × (to_base58 bs ≡ some (replicate (count_leading 0 bs) b'1' ++ map letter ds))
      × (AreBelow 58 ds × StartsOff 0 ds × (horner 58 0 ds ≡ horner 256 0 bs))
to_base58-digits bs h =
    let m : ℕ = length (behind 0 bs) * 138 / 100 in
    let (ds, f, (len, below, num)) =
      buffer-Digits (behind 0 bs) (AreBelow-drop 256 (count_leading 0 bs) bs h) m refl in
    (
      behind 0 (reverse ds),
      to_base58_of bs (reverse ds) m
          (ap (λ n. n * 138 / 100) (sym (length-drop (count_leading 0 bs) bs))) f,
      (
        AreBelow-drop 58 (count_leading 0 (reverse ds)) (reverse ds) (AreBelow-reverse 58 ds below),
        behind-StartsOff 0 (reverse ds),
        horner-behind 58 (reverse ds) ∙ value_reverse 0 ds ∙ num ∙ horner-behind 256 bs,
      ),
    )
