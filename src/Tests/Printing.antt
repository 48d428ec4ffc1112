-- ===== src/Tests/Printing.antt =====
-- Texts as parts of a longer text, for the environments of the runs.
use grinbox.Prelude.{zero, suc, ◌≡◌, refl, Option, none, some, [], ◌∷◌, ◌++◌, arith}
use grinbox.Prelude.Text.{Text}

-- A text with a one before each of its bytes and a zero behind it, and back.
abbrev pub print : Text → Text
print [] = 0 ∷ []
print (b ∷ s) = 1 ∷ b ∷ print s

abbrev pub parse : Text → Option (Text × Text)
parse (zero ∷ rest) = some ([], rest)
parse (suc n ∷ b ∷ rest) = elim (parse rest) [ none ↦ none | some p ↦ some (b ∷ p.0, p.1) ]
parse _ = none

pub parse-print : (s t : Text) → parse (print s ++ t) ≡ some (s, t)
parse-print [] t = refl
parse-print (b ∷ s) t = ground (arith, parse-print s t)
