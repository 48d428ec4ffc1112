-- ===== src/Stomp/Header/Values.antt =====
-- `Header::encode_value`, `Header::decode_value` and `HeaderName::from_str` of
-- src/broker/stomp/header.rs. The segmentation of a text into grapheme clusters is the function
-- `UnicodeSegmentation::graphemes(_, true)` of another package, a parameter here.
use grinbox.Prelude.{
  ℕ, ◌<◌, ◌≡◌, ◌≢◌, refl, List, [], ◌∷◌, ◌++◌, none, some, arith, ◌==◌, ◌&&◌, if◌then◌else◌, All,
  All-append, ◌⊎◌, false, inl, inr, Option-cases,
}
use grinbox.Prelude.Text.{Text, text_eq, replace2, Lacks}
use grinbox.Stomp.Header.Names.{
  HeaderName, standard, custom, parse_standard, name_text, standard_text_of_parse,
}

encode_grapheme : Text → Text
encode_grapheme g =
    if text_eq g (92 ∷ [])
    then 92 ∷ 92 ∷ []
    else if text_eq g (13 ∷ [])
    then 92 ∷ b'r' ∷ []
    else if text_eq g (10 ∷ [])
    then 92 ∷ b'n' ∷ []
    else if text_eq g (b':' ∷ [])
    then 92 ∷ b'c' ∷ []
    else g

-- the loop of `encode_value`
encode_graphemes : List Text → Text
unfolding encode_grapheme
encode_graphemes [] = []
encode_graphemes (g ∷ gs) = encode_grapheme g ++ encode_graphemes gs

-- `Header::decode_value`
unfoldable pub decode_value : Text → Text
decode_value value = replace2 92 b'c' b':' value

-- What the segmentation rules say of ASCII texts: every byte is a cluster, but for CR LF.
unfoldable pub ascii_clusters : Text → List Text
ascii_clusters [] = []
ascii_clusters (b ∷ []) = (b ∷ []) ∷ []
ascii_clusters (a ∷ b ∷ s) =
    let joined = (a ∷ b ∷ []) ∷ ascii_clusters s in
    let parted = (a ∷ []) ∷ ascii_clusters (b ∷ s) in
    if (a == 13) && (b == 10) then joined else parted

abbrev pub IsAscii : Text → Type 0
IsAscii = All (λ b. b < 128)

-- The documented behaviour of the segmentation on which statements rely.
pub record IsSegmentation (graphemes : Text → List Text) : Type 0 where
  pub ascii : (s : Text) → IsAscii s → graphemes s ≡ ascii_clusters s

module _ (graphemes : Text → List Text) where
  -- `Header::encode_value`
  unfoldable pub encode_value : Text → Text
  unfolding encode_graphemes
  encode_value value = encode_graphemes (graphemes value)

  -- `HeaderName::from_str`
  unfoldable pub from_str : Text → HeaderName
  from_str src =
      let encoded = encode_value src in
      elim (parse_standard encoded) [ some h ↦ standard h | none ↦ custom encoded ]

abbrev pub IsPlainByte : ℕ → Type 0
IsPlainByte b = (b < 128) × (b ≢ 92) × (b ≢ 13) × (b ≢ 10) × (b ≢ b':')

abbrev pub IsPlain : Text → Type 0
IsPlain = All IsPlainByte

encode_grapheme_plain : (b : ℕ) → IsPlainByte b → encode_grapheme (b ∷ []) ≡ b ∷ []
unfolding encode_grapheme text_eq
encode_grapheme_plain b h = ground arith

IsPlain-IsAscii : (s : Text) → IsPlain s → IsAscii s
IsPlain-IsAscii [] h = tt
IsPlain-IsAscii (b ∷ s) h = (h.0.0, IsPlain-IsAscii s h.1)

encode_plain : (s : Text) → IsPlain s → encode_graphemes (ascii_clusters s) ≡ s
unfolding encode_graphemes ascii_clusters
encode_plain [] h = refl
encode_plain (b ∷ []) h = rw (encode_grapheme_plain b h.0)
encode_plain (a ∷ b ∷ s) h = ground (arith, encode_grapheme_plain a h.0, encode_plain (b ∷ s) h.1)

-- A name of plain ASCII bytes is left as it is.
pub encode_value_plain :
    (graphemes : Text → List Text) (seg : IsSegmentation graphemes) (s : Text)
    → IsPlain s
    → encode_value graphemes s ≡ s
unfolding encode_value
encode_value_plain graphemes seg s h = rw (seg.ascii s (IsPlain-IsAscii s h)) (encode_plain s h)

-- A text with no backslash is not changed by decoding.
pub decode_value_plain : (s : Text) → Lacks 92 s → decode_value s ≡ s
unfolding decode_value replace2
decode_value_plain [] h = refl
decode_value_plain (x ∷ []) h = refl
decode_value_plain (x ∷ y ∷ s) h = ground (arith, decode_value_plain (y ∷ s) h.1)

pub name_text-from_str :
    (graphemes : Text → List Text) (s : Text)
    → name_text (from_str graphemes s) ≡ encode_value graphemes s
unfolding name_text from_str
name_text-from_str graphemes s = elim (Option-cases (parse_standard (encode_value graphemes s))) [
  | inl missing ↦ rw (missing, name_text)
  | inr (h, found) ↦ rw (found, name_text) (standard_text_of_parse _ h found)
]

-- A text without the bytes that end a header's name or its line.
abbrev IsSafeByte : ℕ → Type 0
IsSafeByte b = (b ≢ 10) × (b ≢ 13) × (b ≢ b':')

abbrev pub IsSafe : Text → Type 0
IsSafe = All IsSafeByte

-- No line feed stands directly behind a carriage return.
abbrev pub NoCrlf : Text → Type 0
NoCrlf [] = Unit
NoCrlf (b ∷ []) = Unit
NoCrlf (a ∷ b ∷ s) = ((a ≢ 13) ⊎ (b ≢ 10)) × NoCrlf (b ∷ s)

encode_grapheme-IsSafe : (b : ℕ) → IsSafe (encode_grapheme (b ∷ []))
unfolding encode_grapheme text_eq
encode_grapheme-IsSafe b = ground arith

encode_clusters-IsSafe : (s : Text) → NoCrlf s → IsSafe (encode_graphemes (ascii_clusters s))
unfolding encode_graphemes ascii_clusters
encode_clusters-IsSafe [] h = tt
encode_clusters-IsSafe (b ∷ []) h =
    All-append IsSafeByte (encode_grapheme (b ∷ [])) [] (encode_grapheme-IsSafe b) tt
encode_clusters-IsSafe (a ∷ b ∷ s) h = rw (parted a b h.0) (
    All-append IsSafeByte (encode_grapheme (a ∷ [])) _ (encode_grapheme-IsSafe a)
      (encode_clusters-IsSafe (b ∷ s) h.1))
  where
    parted : (x y : ℕ) → (x ≢ 13) ⊎ (y ≢ 10) → ((x == 13) && (y == 10)) ≡ false
    parted x y e = ground arith

-- The encoding of an ASCII text in which no LF follows a CR has no LF, no CR and no colon. It
-- relies on the segmentation of ASCII texts.
pub encode_value-IsSafe :
    (graphemes : Text → List Text) (s : Text)
    → IsSegmentation graphemes
    → IsAscii s
    → NoCrlf s
    → IsSafe (encode_value graphemes s)
unfolding encode_value
encode_value-IsSafe graphemes s seg ascii h = rw (seg.ascii s ascii) (encode_clusters-IsSafe s h)
