-- ===== src/Types/Address/Grammar.antt =====
-- What the documentation of the package regex says of `GRINBOX_ADDRESS_REGEX` of
-- grinboxlib/src/types/grinbox_address.rs: which texts it matches, with which groups.
use grinbox.Prelude.{
  ℕ, ◌≡◌, ◌≢◌, ◌⊎◌, Bool, true, Option, none, some, [], ◌∷◌, ◌++◌, ◌&&◌, ◌||◌, ◌==◌, leb, All,
}
use grinbox.Prelude.Text.{Text}
use grinbox.Prelude.Decimal.{is_digit, IsDigits}
use grinbox.Utils.Base58.Length.{IsKeyText}
use grinbox.Types.Address.{Captures, scheme}

-- `[a-zA-Z0-9\.]`
abbrev pub is_domain_char : ℕ → Bool
is_domain_char c =
    (leb 97 c && leb c 122) || ((leb 65 c && leb c 90) || (is_digit c || (c == b'.')))

abbrev pub IsDomainText : Text → Type 0
IsDomainText d = (d ≢ []) × All (λ c. is_domain_char c ≡ true) d

-- The parts behind the key, and which groups there can be: a port stands behind a domain only.
abbrev pub suffix : Option Text → Option Text → Text
suffix none _ = []
suffix (some d) none = b'@' ∷ d
suffix (some d) (some p) = b'@' ∷ d ++ b':' ∷ p

abbrev pub IsSuffix : Option Text → Option Text → Type 0
IsSuffix none none = Unit
IsSuffix none (some _) = ⊥
IsSuffix (some d) none = IsDomainText d
IsSuffix (some d) (some p) = IsDomainText d × IsDigits p

abbrev pub Matches : Text → Captures → Type 0
Matches s c =
    IsKeyText c.public_key
    × IsSuffix c.domain c.port
    × ((s ≡ c.public_key ++ suffix c.domain c.port)
        ⊎ (s ≡ scheme ++ (c.public_key ++ suffix c.domain c.port)))

-- A text that is of this form is matched, with its parts as the groups.
pub record IsMatcher (captures : Text → Option Captures) : Type 0 where
  pub captures_some : (s : Text) (c : Captures) → Matches s c → captures s ≡ some c
