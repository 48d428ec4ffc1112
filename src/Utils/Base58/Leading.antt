-- ===== src/Utils/Base58/Leading.antt =====
-- The leading elements that `to_base58` and `from_base58` count, and the alphabet.
use mathlib.Core.List.{reverse, reverse-cons}
use grinbox.Prelude.{
  ℕ, zero, suc, ◌+◌, ◌<◌, ◌≡◌, ◌≢◌, refl, sym, ap, ◌∙◌, Bool, true, ◌&&◌, ◌||◌, not, List, [], ◌∷◌,
  ◌++◌, arith, ◌==◌, ltb, length, drop, get_or, replicate, All-append, map, Bool-cases, inl, inr,
}
use grinbox.Utils.Base58.{alphabet, letter, digits_map, count_leading}
use grinbox.Utils.Base58.Value.{horner, AreBelow, horner-append, horner-replicate}

-- The first element, if there is one, is not `c`.
abbrev pub StartsOff : ℕ → List ℕ → Type 0
StartsOff c [] = Unit
StartsOff c (b ∷ bs) = b ≢ c

abbrev pub behind : ℕ → List ℕ → List ℕ
behind c xs = drop (count_leading c xs) xs

pub length-replicate : (n x : ℕ) → length (replicate n x) ≡ n
length-replicate zero x = refl
length-replicate (suc n) x = omega (arith, length-replicate n x)

pub AreBelow-replicate : (b n : ℕ) → 0 < b → AreBelow b (replicate n 0)
AreBelow-replicate b zero h = tt
AreBelow-replicate b (suc n) h = (h, AreBelow-replicate b n h)

pub leading_split : (c : ℕ) (xs : List ℕ) → replicate (count_leading c xs) c ++ behind c xs ≡ xs
unfolding count_leading
leading_split c [] = refl
leading_split c (b ∷ xs) = ground (arith, leading_split c xs)

pub behind-StartsOff : (c : ℕ) (xs : List ℕ) → StartsOff c (behind c xs)
unfolding count_leading
behind-StartsOff c [] = tt
behind-StartsOff c (b ∷ xs) = ground (arith, behind-StartsOff c xs)

pub count_leading-append :
    (c n : ℕ) (xs : List ℕ) → StartsOff c xs → count_leading c (replicate n c ++ xs) ≡ n
unfolding count_leading
count_leading-append c zero [] h = refl
count_leading-append c zero (x ∷ xs) h = ground arith
count_leading-append c (suc n) xs h = ground (arith, count_leading-append c n xs h)

pub drop-replicate :
    (k n x : ℕ) (xs : List ℕ) → drop k (replicate (k + n) x ++ xs) ≡ replicate n x ++ xs
drop-replicate zero n x xs = rw (let e : 0 + n ≡ n = omega arith in e)
drop-replicate (suc k) n x xs =
    rw (let e : suc k + n ≡ suc (k + n) = omega arith in e) (drop-replicate k n x xs)

pub AreBelow-drop : (b n : ℕ) (xs : List ℕ) → AreBelow b xs → AreBelow b (drop n xs)
AreBelow-drop b zero xs h = h
AreBelow-drop b (suc n) [] h = tt
AreBelow-drop b (suc n) (x ∷ xs) h = AreBelow-drop b n xs h.1

pub AreBelow-reverse : (b : ℕ) (xs : List ℕ) → AreBelow b xs → AreBelow b (reverse xs)
AreBelow-reverse b [] h = tt
AreBelow-reverse b (x ∷ xs) h =
    rw reverse-cons
      (All-append (λ d. d < b) (reverse xs) (x ∷ []) (AreBelow-reverse b xs h.1) (h.0, tt))

-- Zeros that lead do not count.
pub horner-behind : (b : ℕ) (xs : List ℕ) → horner b 0 (behind 0 xs) ≡ horner b 0 xs
horner-behind b xs = sym (
    ap (horner b 0) (sym (leading_split 0 xs))
    ∙ horner-append b 0 (replicate (count_leading 0 xs) 0) (behind 0 xs)
    ∙ ap (λ v. horner b v (behind 0 xs)) (horner-replicate b (count_leading 0 xs)))

abbrev pub all_below : ℕ → (ℕ → Bool) → Bool
all_below zero p = true
all_below (suc n) p = p n && all_below n p

pub all_below_at : (n : ℕ) (p : ℕ → Bool) → all_below n p ≡ true → (i : ℕ) → i < n → p i ≡ true
all_below_at zero p h i k = absurd (omega arith)
all_below_at (suc n) p h i k = elim (Bool-cases (i == n)) [
  | inl last ↦ grind (arith, h)
  | inr before ↦ all_below_at n p (ground (arith, h)) i (ground arith)
]

abbrev good_letter : ℕ → Bool
good_letter d =
    (get_or digits_map (letter d) 0 == d)
    && (ltb (letter d) 128 && ((d == 0) || not (letter d == b'1')))

good_letters : all_below 58 good_letter ≡ true
unfolding alphabet digits_map
good_letters = refl

-- The map of the digits undoes the alphabet, whose first letter is that of zero.
pub digits_map-letter :
    (d : ℕ)
    → d < 58
    → (get_or digits_map (letter d) 0 ≡ d) × (letter d < 128) × (d ≢ 0 → letter d ≢ b'1')
digits_map-letter d h = ground (arith, all_below_at 58 good_letter good_letters d h)

pub map-letter-StartsOff :
    (ds : List ℕ) → AreBelow 58 ds → StartsOff 0 ds → StartsOff b'1' (map letter ds)
map-letter-StartsOff [] h k = tt
map-letter-StartsOff (d ∷ ds) h k = (digits_map-letter d h.0).2 k
