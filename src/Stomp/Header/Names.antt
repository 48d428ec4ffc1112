-- ===== src/Stomp/Header/Names.antt =====
-- The table `standard_headers!` of src/broker/stomp/header.rs, and header names.
use grinbox.Prelude.{
  ℕ, ◌≡◌, refl, sym, ◌↔◌, Bool, true, false, Option, none, some, List, [], ◌∷◌, arith, ◌==◌,
  if◌then◌else◌,
}
use grinbox.Prelude.Text.{Text, codes, text_eq, text_eq_iff}

pub data StandardHeader : Type 0 where
  content_type accept_version ack content_length destination heart_beat host id login message_id :
      StandardHeader
  passcode receipt receipt_id server session subscription transaction version : StandardHeader

-- `StandardHeader::as_str`
unfoldable pub standard_text : StandardHeader → Text
standard_text content_type = codes "content-type"
standard_text accept_version = codes "accept-version"
standard_text ack = codes "ack"
standard_text content_length = codes "content-length"
standard_text destination = codes "destination"
standard_text heart_beat = codes "heart-beat"
standard_text host = codes "host"
standard_text id = codes "id"
standard_text login = codes "login"
standard_text message_id = codes "message-id"
standard_text passcode = codes "passcode"
standard_text receipt = codes "receipt"
standard_text receipt_id = codes "receipt-id"
standard_text server = codes "server"
standard_text session = codes "session"
standard_text subscription = codes "subscription"
standard_text transaction = codes "transaction"
standard_text version = codes "version"

-- The rows of the table, in the order in which `from_str` tries them.
abbrev pub standard_headers : List StandardHeader
standard_headers =
    content_type ∷ accept_version ∷ ack ∷ content_length ∷ destination ∷ heart_beat ∷ host ∷ id
    ∷ login ∷ message_id ∷ passcode ∷ receipt ∷ receipt_id ∷ server ∷ session ∷ subscription
    ∷ transaction ∷ version ∷ []

first_named : Text → List StandardHeader → Option StandardHeader
unfolding standard_text
first_named s [] = none
first_named s (h ∷ hs) = if text_eq s (standard_text h) then some h else first_named s hs

-- `StandardHeader::from_str`
unfoldable pub parse_standard : Text → Option StandardHeader
unfolding first_named
parse_standard s = first_named s standard_headers

-- What the derived `PartialEq` compares.
discriminant : StandardHeader → ℕ
discriminant content_type = 0
discriminant accept_version = 1
discriminant ack = 2
discriminant content_length = 3
discriminant destination = 4
discriminant heart_beat = 5
discriminant host = 6
discriminant id = 7
discriminant login = 8
discriminant message_id = 9
discriminant passcode = 10
discriminant receipt = 11
discriminant receipt_id = 12
discriminant server = 13
discriminant session = 14
discriminant subscription = 15
discriminant transaction = 16
discriminant version = 17

-- `HeaderName`, whose only field is the representation `Repr<Custom>`.
pub data HeaderName : Type 0 where
  standard : StandardHeader → HeaderName
  custom : Text → HeaderName

-- `HeaderName::as_str`
unfoldable pub name_text : HeaderName → Text
unfolding standard_text
name_text (standard h) = standard_text h
name_text (custom s) = s

-- the derived `PartialEq`
unfoldable pub name_eq : HeaderName → HeaderName → Bool
unfolding discriminant
name_eq (standard h) (standard k) = discriminant h == discriminant k
name_eq (custom s) (custom t) = text_eq s t
name_eq _ _ = false

of_discriminant : ℕ → List StandardHeader → Option StandardHeader
unfolding discriminant
of_discriminant n [] = none
of_discriminant n (h ∷ hs) = if discriminant h == n then some h else of_discriminant n hs

of_discriminant-discriminant :
    (h : StandardHeader) → of_discriminant (discriminant h) standard_headers ≡ some h
unfolding of_discriminant
of_discriminant-discriminant content_type = refl
of_discriminant-discriminant _ = refl

discriminant_injective : (h k : StandardHeader) → discriminant h ≡ discriminant k → h ≡ k
discriminant_injective h k e = cc (of_discriminant-discriminant h, of_discriminant-discriminant k)

-- Two header names are equal exactly when the derived test on their representations says so.
pub name_eq_iff : (a b : HeaderName) → (name_eq a b ≡ true) ↔ (a ≡ b)
unfolding name_eq
name_eq_iff (standard h) (standard k) = ground (arith, discriminant_injective h k)
name_eq_iff (custom s) (custom t) = ground (arith, text_eq_iff s t)
name_eq_iff (standard h) (custom t) = ground arith
name_eq_iff (custom s) (standard k) = ground arith

parse_standard-standard_text : (h : StandardHeader) → parse_standard (standard_text h) ≡ some h
unfolding parse_standard text_eq
parse_standard-standard_text content_type = refl
parse_standard-standard_text _ = refl

pub standard_text_of_parse :
    (s : Text) (h : StandardHeader) → parse_standard s ≡ some h → standard_text h ≡ s
unfolding parse_standard
standard_text_of_parse s h e = first_named_text standard_headers e
  where
    first_named_text : (hs : List StandardHeader) → first_named s hs ≡ some h → standard_text h ≡ s
    first_named_text [] p = cc
    first_named_text (k ∷ hs) p =
        ground (arith, first_named_text hs, text_eq_iff s (standard_text k))

-- A text is found as a row of the table of standard headers exactly when it is the row's text.
pub parse_standard_iff :
    (s : Text) (h : StandardHeader) → (parse_standard s ≡ some h) ↔ (s ≡ standard_text h)
parse_standard_iff s h =
    (λ e. sym (standard_text_of_parse s h e), λ e. rw e (parse_standard-standard_text h))
