-- ===== src/Prelude/Decimal.antt =====
-- `{}` of an unsigned integer, and `parse::<u32>()`, `parse::<usize>()` of the standard library.
use Prim.Native.Nat.{ℕ, zero, suc, ◌+◌, ◌-◌, ◌*◌, ◌/◌, ◌%◌, ◌<◌}
use mathlib.Core.Path.{◌≡◌, refl, ◌∙◌, ap}
use mathlib.Core.Bool.{Bool, true, ◌&&◌}
use mathlib.Core.Option.{Option, none, some}
use mathlib.Core.List.{[], ◌∷◌, ◌++◌}
use native.Mathlib.Omega.{arith}
use mathlib.Core.Logic.{◌≢◌, inl, inr}
use grinbox.Prelude.Tests.{Bool-cases, ◌==◌, ltb, leb, if◌then◌else◌}
use grinbox.Prelude.Lists.{All, All-append}
use grinbox.Prelude.Text.{Text}

-- The recursive call is made under the test only.
digits_of : ℕ → ℕ → Text
digits_of zero n = []
digits_of (suc f) n =
    let front = digits_of f (n / 10) in
    if ltb n 10 then (48 + n) ∷ [] else front ++ (48 + n % 10) ∷ []

-- `format!("{}", n)`
unfoldable pub to_text : ℕ → Text
unfolding digits_of
to_text n = digits_of (suc n) n

abbrev pub is_digit : ℕ → Bool
is_digit c = leb 48 c && leb c 57

-- The loop of the parser: `checked_mul` and `checked_add` fail from the limit on.
parse_digits : ℕ → ℕ → Text → Option ℕ
parse_digits limit acc [] = some acc
parse_digits limit acc (c ∷ s) =
    let v = acc * 10 + (c - 48) in
    let rest = parse_digits limit v s in if is_digit c && ltb v limit then rest else none

-- `parse` into an unsigned type whose values are below `limit`; a leading plus sign is allowed.
unfoldable pub parse_uint : ℕ → Text → Option ℕ
unfolding parse_digits
parse_uint limit [] = none
parse_uint limit (c ∷ []) = parse_digits limit 0 (c ∷ [])
parse_uint limit (c ∷ d ∷ s) = parse_digits limit 0 (if c == b'+' then d ∷ s else c ∷ d ∷ s)

parse_digits-append :
    (limit acc v : ℕ) (s t : Text)
    → parse_digits limit acc s ≡ some v
    → parse_digits limit acc (s ++ t) ≡ parse_digits limit v t
unfolding parse_digits
parse_digits-append limit acc v [] t h = ground arith
parse_digits-append limit acc v (c ∷ s) t h =
    ground (arith, parse_digits-append limit (acc * 10 + (c - 48)) v s t)

parse_digits-digits_of :
    (limit f n : ℕ) → n < f → n < limit → parse_digits limit 0 (digits_of f n) ≡ some n
unfolding digits_of parse_digits
parse_digits-digits_of limit zero n h k = absurd (omega arith)
parse_digits-digits_of limit (suc f) n h k = ground (
  arith,
  parse_digits-digits_of limit f (n / 10),
  parse_digits-append limit 0 (n / 10) (digits_of f (n / 10)) ((48 + n % 10) ∷ []),
)

abbrev pub IsDigits : Text → Type 0
IsDigits = All (λ c. is_digit c ≡ true)

digits_of-IsDigits : (f n : ℕ) → IsDigits (digits_of f n)
unfolding digits_of
digits_of-IsDigits zero n = tt
digits_of-IsDigits (suc f) n = elim (Bool-cases (ltb n 10)) [
  | inl small ↦ rw small (ground arith, tt)
  | inr big ↦ rw big (
      All-append (λ c. is_digit c ≡ true) (digits_of f (n / 10)) ((48 + n % 10) ∷ [])
        (digits_of-IsDigits f (n / 10)) (ground arith, tt))
]

pub to_text-IsDigits : (n : ℕ) → IsDigits (to_text n)
unfolding to_text
to_text-IsDigits n = digits_of-IsDigits (suc n) n

digits_of-ne-nil : (f n : ℕ) → digits_of (suc f) n ≢ []
unfolding digits_of
digits_of-ne-nil f n h = elim (Bool-cases (ltb n 10)) [
  | inl small ↦ cc (rw small at h)
  | inr big ↦ append-ne-nil _ (digits_of f (n / 10)) (rw big at h)
]
  where
    append-ne-nil : (x : ℕ) (s : Text) → s ++ x ∷ [] ≢ []
    append-ne-nil x [] e = cc
    append-ne-nil x (y ∷ s) e = cc

parse_uint_of_IsDigits :
    (limit : ℕ) (s : Text) → s ≢ [] → IsDigits s → parse_uint limit s ≡ parse_digits limit 0 s
unfolding parse_uint
parse_uint_of_IsDigits limit [] h d = absurd (h refl)
parse_uint_of_IsDigits limit (c ∷ []) h d = refl
parse_uint_of_IsDigits limit (c ∷ e ∷ s) h d = ground arith

-- Printing and parsing back gives the number, if the type holds it.
pub parse_uint-to_text : (limit n : ℕ) → n < limit → parse_uint limit (to_text n) ≡ some n
unfolding to_text
parse_uint-to_text limit n h =
    parse_uint_of_IsDigits limit (digits_of (suc n) n) (digits_of-ne-nil n n)
      (digits_of-IsDigits (suc n) n)
    ∙ parse_digits-digits_of limit (suc n) n (omega arith) h

-- Different numbers have different decimal texts.
pub to_text_injective : (m n : ℕ) → to_text m ≡ to_text n → m ≡ n
to_text_injective m n e = cc (
  parse_uint-to_text (suc (m + n)) m (omega arith),
  parse_uint-to_text (suc (m + n)) n (omega arith),
  ap (parse_uint (suc (m + n))) e,
)
