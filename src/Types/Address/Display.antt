-- ===== src/Types/Address/Display.antt =====
-- What the address expression captures of the texts that grinboxlib/src/types/grinbox_address.rs shows.
use grinbox.Prelude.{
  ℕ, ◌^◌, ◌<◌, ◌≡◌, ◌⊎◌, inl, inr, refl, sym, ap, ◌∙◌, Bool, true, false, not, Option, none, some,
  List, [], ◌∷◌, ◌++◌, drop, ◌==◌, ◌||◌, if◌then◌else◌, append-nil,
}
use grinbox.Prelude.Text.{Text, text_eq}
use grinbox.Prelude.Decimal.{to_text, parse_uint-to_text, to_text-IsDigits, IsDigits}
use grinbox.Types.Errors.{Outcome}
use grinbox.Utils.Base58.Length.{IsKeyText}
use grinbox.Types.Address.{
  GrinboxAddress, Captures, scheme, default_domain, default_port, show, show_suffix, stripped,
  unwrap_or, parse_port,
}
use grinbox.Types.Address.Grammar.{IsDomainText, IsSuffix, suffix, Matches}

-- The groups that are captured of the text of an address, by whether its domain and its port are
-- the default ones.
abbrev pub domain_group : Bool → Bool → Text → Option Text
domain_group plain usual d = if not plain || not usual then some d else none

abbrev pub port_group {ℓ} : {A : Type ℓ} → Bool → A → Option A
port_group usual p = if not usual then some p else none

abbrev pub groups : GrinboxAddress → Captures
groups a = record {
  public_key = a.public_key;
  domain = domain_group (text_eq a.domain default_domain) (a.port == default_port) a.domain;
  port = port_group (a.port == default_port) (to_text a.port);
}

pub suffix_of :
    (plain usual : Bool) (d t : Text)
    → (if not plain || not usual then b'@' ∷ d ++ (if usual then [] else b':' ∷ t) else [])
      ≡ suffix (domain_group plain usual d) (port_group usual t)
suffix_of true true d t = refl
suffix_of true false d t = refl
suffix_of false true d t = ap (λ l. b'@' ∷ l) (append-nil d)
suffix_of false false d t = refl

pub show-suffix :
    (a : GrinboxAddress)
    → show a ≡ scheme ++ (a.public_key ++ suffix (groups a).domain (groups a).port)
unfolding show show_suffix
show-suffix a =
    ap (λ l. scheme ++ (a.public_key ++ l))
      (suffix_of (text_eq a.domain default_domain) (a.port == default_port) a.domain
        (to_text a.port))

pub groups-IsSuffix :
    (plain usual : Bool) (d t : Text)
    → IsDomainText d
    → IsDigits t
    → IsSuffix (domain_group plain usual d) (port_group usual t)
groups-IsSuffix true true d t hd ht = tt
groups-IsSuffix true false d t hd ht = (hd, ht)
groups-IsSuffix false true d t hd ht = hd
groups-IsSuffix false false d t hd ht = (hd, ht)

pub parse_port-group :
    (usual : Bool) (n : ℕ)
    → n < 2 ^ 16
    → parse_port (port_group usual (to_text n)) ≡ Outcome.ok (port_group usual n)
unfolding parse_port
parse_port-group true n h = refl
parse_port-group false n h = rw (parse_uint-to_text (2 ^ 16) n h, parse_port)

pub domain_lem :
    (plain usual : Bool) (d : Text)
    → (plain ≡ true → d ≡ default_domain)
    → unwrap_or (domain_group plain usual d) default_domain ≡ d
unfolding unwrap_or
domain_lem true true d h = sym (h refl)
domain_lem true false d h = refl
domain_lem false true d h = refl
domain_lem false false d h = refl

pub port_lem :
    (usual : Bool) (n : ℕ)
    → (usual ≡ true → n ≡ default_port)
    → unwrap_or (port_group usual n) default_port ≡ n
unfolding unwrap_or
port_lem true n h = sym (h refl)
port_lem false n h = refl

-- An address with a key and a version.
abbrev pub address_of : Text → Text → ℕ → Option (List ℕ) → GrinboxAddress
address_of t d n version = record { public_key = t; domain = d; port = n; version = version }

-- What the two texts of an address are.
unfoldable pub IsTextOf : Text → GrinboxAddress → Type 0
IsTextOf s a = (s ≡ show a) ⊎ (s ≡ stripped a)

pub IsTextOf-Matches :
    (s : Text) (a : GrinboxAddress)
    → IsTextOf s a
    → IsKeyText a.public_key
    → IsDomainText a.domain
    → Matches s (groups a)
unfolding IsTextOf stripped
IsTextOf-Matches s a h k d = (
  k,
  groups-IsSuffix (text_eq a.domain default_domain) (a.port == default_port) a.domain
      (to_text a.port) d (to_text-IsDigits a.port),
  elim h [
    | inl shown ↦ inr (shown ∙ show-suffix a)
    | inr short ↦ inl (short ∙ ap (drop 10) (show-suffix a))
  ],
)
