-- ===== src/Prelude/Text.antt =====
-- Rust's `String`, `&str` and `&[u8]` as the list of their bytes; `str::from_utf8`, comparison,
-- `splitn(2, …)` and `str::replace` of the standard library.
pub mod Utf8
use Prim.Native.Char.{code}
use Prim.Native.String.{String}
use Prim.Native.Nat.{ℕ, zero, suc, ◌+◌, ◌≤◌, ◌<◌}
use mathlib.Core.Path.{◌≡◌, refl, ap}
use mathlib.Core.Logic.{◌≢◌, ◌↔◌, ◌⊎◌, inl, inr}
use mathlib.Core.Bool.{Bool, true, false, ◌&&◌, ◌||◌}
use mathlib.Core.Option.{Option, none, some}
use mathlib.Core.List.{List, [], ◌∷◌, ◌++◌}
use native.Mathlib.Omega.{arith}
use grinbox.Prelude.Tests.{◌==◌, leb, if◌then◌else◌}
use grinbox.Prelude.Lists.{All, length}

-- The bytes of a text.
abbrev pub Text : Type 0
Text = List ℕ

-- The bytes of an ASCII literal.
abbrev pub codes : String → Text
codes String.[] = []
codes (String.◌∷◌ c s) = code c ∷ codes s

unfoldable pub text_eq : Text → Text → Bool
text_eq [] [] = true
text_eq (a ∷ s) (b ∷ t) = (a == b) && text_eq s t
text_eq _ _ = false

pub text_eq_iff : (s t : Text) → (text_eq s t ≡ true) ↔ (s ≡ t)
unfolding text_eq
text_eq_iff [] [] = ground arith
text_eq_iff [] (b ∷ t) = ground arith
text_eq_iff (a ∷ s) [] = ground arith
text_eq_iff (a ∷ s) (b ∷ t) = ground (arith, text_eq_iff s t)

-- `src.splitn(2, |b| b == c)`: the part before the first `c`, and the rest after it, if there is
-- one.
unfoldable pub splitn2 : ℕ → Text → Text × Option Text
splitn2 c [] = ([], none)
splitn2 c (b ∷ s) =
    let (first, rest) = splitn2 c s in if b == c then ([], some s) else (b ∷ first, rest)

abbrev pub Lacks : ℕ → Text → Type 0
Lacks c = All (λ b. b ≢ c)

pub splitn2_found : (c : ℕ) (s t : Text) → Lacks c s → splitn2 c (s ++ c ∷ t) ≡ (s, some t)
unfolding splitn2
splitn2_found c [] t h = ground arith
splitn2_found c (b ∷ s) t h = ground (arith, splitn2_found c s t h.1)

pub splitn2-Lacks : (c : ℕ) (s : Text) → Lacks c s → splitn2 c s ≡ (s, none)
unfolding splitn2
splitn2-Lacks c [] h = refl
splitn2-Lacks c (b ∷ s) h = ground (arith, splitn2-Lacks c s h.1)

-- `s.split(c)`: the first part, which is always there, and the parts after it.
unfoldable pub split : ℕ → Text → Text × List Text
split c [] = ([], [])
split c (b ∷ s) =
    let (first, more) = split c s in if b == c then ([], first ∷ more) else (b ∷ first, more)

pub split_found :
    (c : ℕ) (s t : Text) → Lacks c s → split c (s ++ c ∷ t) ≡ (s, (split c t).0 ∷ (split c t).1)
unfolding split
split_found c [] t h = ground arith
split_found c (b ∷ s) t h = ground (arith, split_found c s t h.1)

pub split-Lacks : (c : ℕ) (s : Text) → Lacks c s → split c s ≡ (s, [])
unfolding split
split-Lacks c [] h = refl
split-Lacks c (b ∷ s) h = ground (arith, split-Lacks c s h.1)

-- `s.replace(p, r)` for a pattern of the two bytes `a`, `b` and a replacement of one byte.
unfoldable pub replace2 : ℕ → ℕ → ℕ → Text → Text
replace2 a b r [] = []
replace2 a b r (x ∷ []) = x ∷ []
replace2 a b r (x ∷ y ∷ s) =
    let hit = r ∷ replace2 a b r s in
    let miss = x ∷ replace2 a b r (y ∷ s) in if (x == a) && (y == b) then hit else miss

-- The rest is shorter than the text by the first part and the separator.
pub splitn2_rest :
    (c : ℕ) (s r : Text)
    → (splitn2 c s).1 ≡ some r
    → length s ≡ length (splitn2 c s).0 + 1 + length r
unfolding splitn2
splitn2_rest c [] r h = cc
splitn2_rest c (b ∷ s) r h = ground (arith, splitn2_rest c s r)

-- More bytes behind a text in which the separator was found change only the rest.
pub splitn2-append :
    (c : ℕ) (s t r : Text)
    → (splitn2 c s).1 ≡ some r
    → splitn2 c (s ++ t) ≡ ((splitn2 c s).0, some (r ++ t))
unfolding splitn2
splitn2-append c [] t r h = cc
splitn2-append c (b ∷ s) t r h = ground (arith, splitn2-append c s t r)
