-- ===== src/Utils/Base58/Value.antt =====
-- The numbers that digits stand for, the most significant digit first.
use grinbox.Prelude.{
  ℕ, zero, suc, ◌+◌, ◌-◌, ◌*◌, ◌≤◌, ◌<◌, ◌≡◌, refl, ap, List, [], ◌∷◌, ◌++◌, arith, length,
  replicate, All,
}

-- The number of digits that stand behind those of `v`.
abbrev pub horner : ℕ → ℕ → List ℕ → ℕ
horner b v [] = v
horner b v (d ∷ ds) = horner b (b * v + d) ds

-- `m` times the power of the base.
abbrev pub span : ℕ → ℕ → ℕ → ℕ
span b m zero = m
span b m (suc n) = span b (b * m) n

abbrev pub AreBelow : ℕ → List ℕ → Type 0
AreBelow b = All (λ d. d < b)

pub horner-append : (b v : ℕ) (xs ys : List ℕ) → horner b v (xs ++ ys) ≡ horner b (horner b v xs) ys
horner-append b v [] ys = refl
horner-append b v (x ∷ xs) ys = horner-append b (b * v + x) xs ys

pub horner-replicate : (b n : ℕ) → horner b 0 (replicate n 0) ≡ 0
horner-replicate b zero = refl
horner-replicate b (suc n) = grind (arith, horner-replicate b n)

pub span-add : (b m j n : ℕ) → span b m (j + n) ≡ span b (span b m j) n
span-add b m zero n = rw (let e : 0 + n ≡ n = omega arith in e)
span-add b m (suc j) n =
    rw (let e : suc j + n ≡ suc (j + n) = omega arith in e) (span-add b (b * m) j n)

pub mul_le : (b m n : ℕ) → m ≤ n → b * m ≤ b * n
mul_le zero m n h = omega arith
mul_le (suc b) m n h = grind (arith, mul_le b m n h)

pub le-horner : (b m v : ℕ) (ds : List ℕ) → m ≤ v → span b m (length ds) ≤ horner b v ds
le-horner b m v [] h = h
le-horner b m v (d ∷ ds) h = le-horner b (b * m) (b * v + d) ds (grind (arith, mul_le b m v h))

pub horner-lt :
    (b m v : ℕ) (ds : List ℕ) → v < m → AreBelow b ds → horner b v ds < span b m (length ds)
horner-lt b m v [] h k = h
horner-lt b m v (d ∷ ds) h k =
    horner-lt b (b * m) (b * v + d) ds (grind (arith, k.0, mul_le b (suc v) m (omega (arith, h))))
      k.1

pub span_mono : (b m k n : ℕ) → m ≤ k → span b m n ≤ span b k n
span_mono b m k zero h = h
span_mono b m k (suc n) h = span_mono b (b * m) (b * k) n (mul_le b m k h)

pub span-mul : (b c m n : ℕ) → span b (c * m) n ≡ c * span b m n
span-mul b c m zero = refl
span-mul b c m (suc n) =
    rw (let e : b * (c * m) ≡ c * (b * m) = grind arith in e) (span-mul b c (b * m) n)

le-span : (b m n : ℕ) → m ≤ span (suc b) m n
le-span b m zero = omega arith
le-span b m (suc n) = grind (arith, le-span b (suc b * m) n)

-- The powers of a base grow.
pub span_grows : (b j n : ℕ) → j ≤ n → span (suc b) 1 j ≤ span (suc b) 1 n
span_grows b j n h = omega (
  arith,
  ap (span (suc b) 1) (let e : n ≡ (n - j) + j = omega (arith, h) in e),
  span-add (suc b) 1 (n - j) j,
  span_mono (suc b) 1 (span (suc b) 1 (n - j)) j (le-span b 1 (n - j)),
)

-- The number is not below that of the digits before.
pub horner-ge : (b v : ℕ) (ds : List ℕ) → v ≤ horner (suc b) v ds
horner-ge b v [] = omega arith
horner-ge b v (d ∷ ds) = grind (arith, horner-ge b (suc b * v + d) ds)

pub horner256_injective :
    (v w : ℕ) (xs ys : List ℕ)
    → length xs ≡ length ys
    → AreBelow 256 xs
    → AreBelow 256 ys
    → horner 256 v xs ≡ horner 256 w ys
    → (v ≡ w) × (xs ≡ ys)
horner256_injective v w [] [] l hx hy e = (e, refl)
horner256_injective v w [] (y ∷ ys) l hx hy e = absurd (omega (arith, l))
horner256_injective v w (x ∷ xs) [] l hx hy e = absurd (omega (arith, l))
horner256_injective v w (x ∷ xs) (y ∷ ys) l hx hy e = grind (
  arith,
  horner256_injective (256 * v + x) (256 * w + y) xs ys (omega (arith, l)) hx.1 hy.1 e,
  hx.0,
  hy.0,
)
