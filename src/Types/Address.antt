-- ===== src/Types/Address.antt =====
-- grinboxlib/src/types/grinbox_address.rs. The package regex is a parameter: what the groups of the
-- one expression capture of a text. `is_mainnet` of grin_core is a parameter, too. `none` stands for
-- a `to_base58` that is given too few rounds.
pub mod Grammar
pub mod Display
pub mod RoundTrip
pub mod Equality
use grinbox.Prelude.{
  ℕ, ◌≡◌, ◌-◌, ◌^◌, Bool, true, false, not, Option, none, some, List, [], ◌∷◌, ◌++◌, ◌&&◌, ◌||◌,
  ◌==◌, leb, length, drop, if◌then◌else◌, All,
}
use grinbox.Prelude.Text.{Text, codes, text_eq}
use grinbox.Prelude.Decimal.{to_text, is_digit, parse_uint}
use grinbox.Types.Errors.{
  ErrorKind, grinbox_address_parsing_error, Outcome, ok, err, panicked, ◌>>=◌,
}
use grinbox.Utils.Base58.{alphabet}
use grinbox.Utils.Crypto.{
  Secp, key_from_base58_check, key_from_base58_check_raw, key_to_base58_check,
}

abbrev pub version_mainnet : List ℕ
version_mainnet = 1 ∷ 11 ∷ []

abbrev pub version_testnet : List ℕ
version_testnet = 1 ∷ 120 ∷ []

abbrev pub default_domain : Text
default_domain = codes "grinbox.io"

abbrev pub default_port : ℕ
default_port = 443

-- `version_bytes`
unfoldable pub version_bytes : Bool → List ℕ
version_bytes is_mainnet = if is_mainnet then version_mainnet else version_testnet

-- `GrinboxAddress`; its field `version_bytes` is `version` here.
pub record GrinboxAddress : Type 0 where
  pub public_key : Text
  pub domain : Text
  pub port : ℕ
  pub version : Option (List ℕ)

abbrev pub option_eq {ℓ} : {A : Type ℓ} → (A → A → Bool) → Option A → Option A → Bool
option_eq eq none none = true
option_eq eq (some a) (some b) = eq a b
option_eq eq _ _ = false

-- the derived `PartialEq`
unfoldable pub address_eq : GrinboxAddress → GrinboxAddress → Bool
address_eq a b =
    text_eq a.public_key b.public_key
    && (text_eq a.domain b.domain && ((a.port == b.port) && option_eq text_eq a.version b.version))

-- The groups of `GRINBOX_ADDRESS_REGEX`; the first is always there when the expression matches.
pub record Captures : Type 0 where
  pub public_key : Text
  pub domain : Option Text
  pub port : Option Text

abbrev pub scheme : Text
scheme = codes "grinbox://"

-- `Display`
unfoldable pub show_suffix : GrinboxAddress → Text
show_suffix a =
    if not (text_eq a.domain default_domain) || not (a.port == default_port)
    then b'@' ∷ a.domain ++ (if a.port == default_port then [] else b':' ∷ to_text a.port)
    else []

unfoldable pub show : GrinboxAddress → Text
show a = scheme ++ (a.public_key ++ show_suffix a)

-- `stripped`
unfoldable pub stripped : GrinboxAddress → Text
stripped a = drop 10 (show a)

unfoldable pub unwrap_or {ℓ} : {A : Type ℓ} → Option A → A → A
unwrap_or none d = d
unwrap_or (some a) d = a

-- the `map` over the group of the port, whose `unwrap` panics
unfoldable pub parse_port : Option Text → Outcome (Option ℕ)
parse_port none = ok none
parse_port (some s) = elim (parse_uint (2 ^ 16) s) [ none ↦ panicked | some n ↦ ok (some n) ]

-- a `to_base58` that does not return has no outcome of its own
abbrev finished {ℓ} : {A : Type ℓ} → Option A → Outcome A
finished none = panicked
finished (some a) = ok a

module _ (secp : Secp) where
  -- `new`
  unfoldable pub new_address :
      Bool → secp.PublicKey → Option Text → Option ℕ → Option GrinboxAddress
  new_address is_mainnet k domain port =
      elim (key_to_base58_check secp k (version_bytes is_mainnet)) [
        | none ↦ none
        | some text ↦ some (record {
          public_key = text;
          domain = unwrap_or domain default_domain;
          port = unwrap_or port default_port;
          version = none;
        })
      ]

  -- `new_raw`
  unfoldable pub new_raw : secp.PublicKey → Option Text → Option ℕ → List ℕ → Option GrinboxAddress
  new_raw k domain port version = elim (key_to_base58_check secp k version) [
    | none ↦ none
    | some text ↦ some (record {
      public_key = text;
      domain = unwrap_or domain default_domain;
      port = unwrap_or port default_port;
      version = some version;
    })
  ]

  -- `public_key`
  unfoldable pub public_key_of : Bool → GrinboxAddress → Outcome secp.PublicKey
  public_key_of is_mainnet a = key_from_base58_check secp a.public_key (version_bytes is_mainnet)

  module _ (captures : Text → Option Captures) where
    -- `from_str`
    unfoldable pub from_str : Bool → Text → Outcome GrinboxAddress
    from_str is_mainnet s = elim (captures s) [
      | none ↦ err (grinbox_address_parsing_error s)
      | some c ↦ parse_port c.port >>= λ port.
          key_from_base58_check secp c.public_key (version_bytes is_mainnet) >>= λ k.
          finished (new_address is_mainnet k c.domain port)
    ]

    -- `from_str_raw`
    unfoldable pub from_str_raw : Text → Outcome GrinboxAddress
    from_str_raw s = elim (captures s) [
      | none ↦ err (grinbox_address_parsing_error s)
      | some c ↦ parse_port c.port >>= λ port.
          key_from_base58_check_raw secp c.public_key 2 >>= λ p.
          finished (new_raw p.0 c.domain port p.1)
    ]
