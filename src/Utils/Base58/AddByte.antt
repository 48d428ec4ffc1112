-- ===== src/Utils/Base58/AddByte.antt =====
-- The inner loop of `to_base58` of grinboxlib/src/utils/base58.rs. The digits are taken in the order
-- in which it comes to them, from the last of the buffer to the first.
use mathlib.Core.List.{reverse, reverse-cons}
use grinbox.Prelude.{
  ℕ, zero, suc, ◌+◌, ◌-◌, ◌*◌, ◌/◌, ◌%◌, ◌^◌, ◌≤◌, ◌<◌, ◌≡◌, refl, sym, ap, subst, ◌∙◌, Bool, true,
  false, not, ◌||◌, ◌==◌, if◌then◌else◌, Option, some, List, [], ◌∷◌, ◌++◌, arith, append_assoc,
  ltb, length, length-append, get_or, set, Bool-cases, inl, inr,
}
use grinbox.Utils.Base58.{add_byte}
use grinbox.Utils.Base58.Value.{horner, span, AreBelow, horner-append, le-horner}

-- The digits from the last of the buffer to the first, after 256 times them and a carry.
abbrev pub mul_add : List ℕ → ℕ → List ℕ
mul_add [] c = []
mul_add (d ∷ ds) c = (c + 256 * d) % 58 ∷ mul_add ds ((c + 256 * d) / 58)

-- the carry out of the first
abbrev pub carry_out : List ℕ → ℕ → ℕ
carry_out [] c = c
carry_out (d ∷ ds) c = carry_out ds ((c + 256 * d) / 58)

-- the number of the digits behind those of `t`
abbrev pub value : ℕ → List ℕ → ℕ
value t [] = t
value t (d ∷ ds) = d + 58 * value t ds

pub value-mul_add :
    (ds : List ℕ) (c : ℕ) → value (carry_out ds c) (mul_add ds c) ≡ 256 * value 0 ds + c
value-mul_add [] c = omega arith
value-mul_add (d ∷ ds) c = omega (arith, value-mul_add ds ((c + 256 * d) / 58))

pub length-mul_add : (ds : List ℕ) (c : ℕ) → length (mul_add ds c) ≡ length ds
length-mul_add [] c = refl
length-mul_add (d ∷ ds) c = ap suc (length-mul_add ds ((c + 256 * d) / 58))

pub mul_add-AreBelow : (ds : List ℕ) (c : ℕ) → AreBelow 58 (mul_add ds c)
mul_add-AreBelow [] c = tt
mul_add-AreBelow (d ∷ ds) c = (omega arith, mul_add-AreBelow ds ((c + 256 * d) / 58))

pub value_reverse : (t : ℕ) (ds : List ℕ) → horner 58 t (reverse ds) ≡ value t ds
value_reverse t [] = refl
value_reverse t (d ∷ ds) = rw (reverse-cons, horner-append, value_reverse t ds) (omega arith)

pub length-reverse : (ds : List ℕ) → length (reverse ds) ≡ length ds
length-reverse [] = refl
length-reverse (d ∷ ds) = rw (reverse-cons, length-append, length-reverse ds) (omega arith)

-- A carry out makes the number too large for so many digits.
pub carry_out_zero :
    (ds : List ℕ) (c : ℕ) → 256 * value 0 ds + c < span 58 1 (length ds) → carry_out ds c ≡ 0
carry_out_zero ds c h = elim (Bool-cases (ltb 0 (carry_out ds c))) [
  | inl more ↦ absurd (
      omega (
        arith,
        le-horner 58 1 (carry_out ds c) (reverse (mul_add ds c)) (ground arith),
        value_reverse (carry_out ds c) (mul_add ds c),
        value-mul_add ds c,
        ap (span 58 1) (length-reverse (mul_add ds c) ∙ length-mul_add ds c),
      ))
  | inr none_left ↦ ground arith
]

get_or_at : (front post : List ℕ) (d n : ℕ) → length front ≡ n → get_or (front ++ d ∷ post) n 0 ≡ d
get_or_at [] post d zero h = refl
get_or_at [] post d (suc n) h = absurd (omega (arith, h))
get_or_at (x ∷ front) post d zero h = absurd (omega (arith, h))
get_or_at (x ∷ front) post d (suc n) h = get_or_at front post d n (omega (arith, h))

set_at :
    (front post : List ℕ) (d e n : ℕ)
    → length front ≡ n
    → set (front ++ d ∷ post) n e ≡ front ++ e ∷ post
set_at [] post d e zero h = refl
set_at [] post d e (suc n) h = absurd (omega (arith, h))
set_at (x ∷ front) post d e zero h = absurd (omega (arith, h))
set_at (x ∷ front) post d e (suc n) h = ap (λ l. x ∷ l) (set_at front post d e n (omega (arith, h)))

-- The digits at the indices up to `high` are zero.
abbrev pub IsClear : ℕ → List ℕ → Type 0
IsClear high [] = Unit
IsClear high (d ∷ ds) = (length ds ≤ high → d ≡ 0) × IsClear high ds

mul_add-IsClear :
    (high : ℕ) (ds : List ℕ) → length ds ≤ suc high → IsClear high ds → mul_add ds 0 ≡ ds
mul_add-IsClear high [] h k = refl
mul_add-IsClear high (d ∷ ds) h k = rw (let e : d ≡ 0 = k.0 (omega (arith, h)) in e) (
    rw (let e : (0 + 256 * 0) / 58 ≡ 0 = omega arith in e)
      (ap (λ l. 0 ∷ l) (mul_add-IsClear high ds (omega (arith, h)) k.1)))

IsClear-less : (high j : ℕ) (ds : List ℕ) → j ≤ high → IsClear high ds → IsClear j ds
IsClear-less high j [] h k = tt
IsClear-less high j (d ∷ ds) h k = (λ l. k.0 (omega (arith, l)), IsClear-less high j ds h k.1)

-- One round of the inner loop; the number of 32 bits does not wrap around.
add_byte_round :
    (rounds high c d : ℕ) (ds post : List ℕ)
    → c < 256
    → d < 58
    → add_byte (suc rounds) (reverse ds ++ d ∷ post) (length ds) high c ≡ (
        if ltb high (length ds) || not (c == 0)
        then add_byte rounds
            (reverse ds ++ (c + 256 * d) % 58 ∷ post)
            (length ds - 1)
            high
            ((c + 256 * d) / 58)
        else some (reverse ds ++ d ∷ post, length ds))
unfolding add_byte
add_byte_round rounds high c d ds post hc hd = rw (
  get_or_at (reverse ds) post d (length ds) (length-reverse ds),
  let e : (c + 256 * d) % 2 ^ 32 ≡ c + 256 * d = omega arith in e,
  set_at (reverse ds) post d ((c + 256 * d) % 58) (length ds) (length-reverse ds),
)

-- What a call of the inner loop returns: the buffer with the digits `ds` replaced, and an index up
-- to which they are zero, if it is not 0.
abbrev pub Added : Option (List ℕ × ℕ) → List ℕ → List ℕ → Type 0
Added r ds post =
    (j : ℕ) × (r ≡ some (reverse ds ++ post, j)) × ((0 < j → IsClear j ds) × (suc j ≤ length ds))

reverse_cons_append : (d : ℕ) (ds post : List ℕ) → reverse (d ∷ ds) ++ post ≡ reverse ds ++ d ∷ post
reverse_cons_append d ds post = rw (reverse-cons, append_assoc)

Added-stop :
    (high c d : ℕ) (ds post : List ℕ)
    → length ds ≤ high
    → c ≡ 0
    → IsClear high (d ∷ ds)
    → Added (some (reverse ds ++ d ∷ post, length ds)) (mul_add (d ∷ ds) c) post
Added-stop high c d ds post h z clear =
    let kept : mul_add (d ∷ ds) c ≡ d ∷ ds =
      rw z (mul_add-IsClear high (d ∷ ds) (omega (arith, h)) clear) in
    subst (λ l. Added (some (reverse ds ++ d ∷ post, length ds)) l post) (sym kept)
      (
        length ds,
        ap (λ l. some (l, length ds)) (sym (reverse_cons_append d ds post)),
        (λ _. IsClear-less high (length ds) (d ∷ ds) h clear, omega arith),
      )

Added-last :
    (rounds high e c : ℕ) (post : List ℕ)
    → e < 58
    → c ≡ 0
    → Added (add_byte (suc rounds) (e ∷ post) 0 high c) (e ∷ []) post
Added-last rounds high e c post h z =
    rw
      (
        z,
        let eq : add_byte (suc rounds) (e ∷ post) 0 high 0 ≡ some (e ∷ post, 0) =
              ground (arith, add_byte_round rounds high 0 e [] post (omega arith) h) in
            eq,
      )
      (0, refl, (λ lt. absurd (omega (arith, lt)), omega arith))

-- One more digit, which stands behind the others in the buffer.
Added-cons :
    (r : Option (List ℕ × ℕ)) (e : ℕ) (ds post : List ℕ)
    → Added r ds (e ∷ post)
    → Added r (e ∷ ds) post
Added-cons r e ds post (j, eq, (clear, below)) = (
  j,
  eq ∙ ap (λ l. some (l, j)) (sym (reverse_cons_append e ds post)),
  (λ lt. (λ le. absurd (omega (arith, below, le)), clear lt), omega (arith, below)),
)

Added-if :
    (test : Bool) (x y : Option (List ℕ × ℕ)) (ds post : List ℕ)
    → (test ≡ true → Added x ds post)
    → (test ≡ false → Added y ds post)
    → Added (if test then x else y) ds post
Added-if true x y ds post h k = h refl
Added-if false x y ds post h k = k refl

pub add_byte-mul_add :
    (rounds high c d : ℕ) (ds post : List ℕ)
    → suc (suc (length ds)) ≤ rounds
    → c < 256
    → AreBelow 58 (d ∷ ds)
    → IsClear high (d ∷ ds)
    → carry_out (d ∷ ds) c ≡ 0
    → Added (add_byte rounds (reverse ds ++ d ∷ post) (length ds) high c) (mul_add (d ∷ ds) c) post
add_byte-mul_add zero high c d ds post hr hc hb hz ho = absurd (omega (arith, hr))
add_byte-mul_add (suc zero) high c d ds post hr hc hb hz ho = absurd (omega (arith, hr))
add_byte-mul_add (suc (suc rounds)) high c d [] post hr hc hb hz ho =
    rw (add_byte_round (suc rounds) high c d [] post hc hb.0) (
      Added-if (ltb high 0 || not (c == 0)) _ _ (mul_add (d ∷ []) c) post
        (λ _.
          Added-last rounds high ((c + 256 * d) % 58) ((c + 256 * d) / 58) post (omega arith) ho)
        (λ stop. Added-stop high c d [] post (omega arith) (ground (arith, stop)) hz))
add_byte-mul_add (suc (suc rounds)) high c d (e ∷ ds) post hr hc hb hz ho =
    rw (add_byte_round (suc rounds) high c d (e ∷ ds) post hc hb.0) (
      Added-if (ltb high (suc (length ds)) || not (c == 0)) _ _ (mul_add (d ∷ e ∷ ds) c) post
        (λ _. Added-cons _ ((c + 256 * d) % 58) (mul_add (e ∷ ds) ((c + 256 * d) / 58)) post (
          rw
            (
              reverse_cons_append e ds ((c + 256 * d) % 58 ∷ post),
              let eq : suc (length ds) - 1 ≡ length ds = omega arith in eq,
            )
            (add_byte-mul_add (suc rounds) high ((c + 256 * d) / 58) e ds
              ((c + 256 * d) % 58 ∷ post) (omega (arith, hr)) (omega (arith, hb.0, hc)) hb.1 hz.1
              ho)))
        (λ stop.
          Added-stop high c d (e ∷ ds) post (ground (arith, stop)) (ground (arith, stop)) hz))
