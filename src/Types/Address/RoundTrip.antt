-- ===== src/Types/Address/RoundTrip.antt =====
-- The texts of addresses of grinboxlib/src/types/grinbox_address.rs are read back.
use grinbox.Prelude.{
  ℕ, ◌^◌, ◌≤◌, ◌<◌, ◌≡◌, inl, inr, refl, subst, Bool, true, false, Option, none, some, List, [],
  ◌∷◌, arith, ◌==◌, ==_iff,
}
use grinbox.Prelude.Text.{Text, text_eq, text_eq_iff}
use grinbox.Types.Errors.{Outcome}
use grinbox.Utils.Crypto.{
  Secp, IsSecp, key_to_base58_check, key_from_base58_check, key_from_base58_check_raw,
  serialize_public_key,
}
use grinbox.Utils.Crypto.Keys.{key_from_base58_check-key_to_base58_check}
use grinbox.Utils.Base58.Length.{IsKeyText, to_base58_check-IsKeyText}
use grinbox.Types.Address.{
  GrinboxAddress, Captures, default_domain, default_port, version_bytes, show, show_suffix,
  stripped, unwrap_or, new_address, new_raw, public_key_of, from_str, from_str_raw,
}
use grinbox.Types.Address.Grammar.{IsDomainText, Matches, IsMatcher}
use grinbox.Types.Address.Display.{
  domain_group, port_group, groups, parse_port-group, domain_lem, port_lem, address_of, IsTextOf,
  IsTextOf-Matches,
}

version_bytes_lem :
    (is_mainnet : Bool) → (b : ℕ) × (version_bytes is_mainnet ≡ 1 ∷ b ∷ []) × (b ≤ 120)
unfolding version_bytes
version_bytes_lem true = (11, refl, omega arith)
version_bytes_lem false = (120, refl, omega arith)

module _ (secp : Secp) (law : IsSecp secp) where
  -- The text of a key in an address.
  pub key_text :
      (is_mainnet : Bool) (k : secp.PublicKey)
      → (t : Text) × (key_to_base58_check secp k (version_bytes is_mainnet) ≡ some t)
        × (key_from_base58_check secp t (version_bytes is_mainnet) ≡ Outcome.ok k)
        × (key_from_base58_check_raw secp t 2 ≡ Outcome.ok (k, version_bytes is_mainnet))
        × IsKeyText t
  unfolding key_to_base58_check serialize_public_key
  key_text is_mainnet k =
      let (b, e, small) = version_bytes_lem is_mainnet in
      let (t, made, read, raw) =
        key_from_base58_check-key_to_base58_check secp law k (1 ∷ b ∷ [])
          (omega arith, (omega (arith, small), tt)) (omega arith) in
      rw e (
        t,
        made,
        read,
        raw,
        to_base58_check-IsKeyText secp.sha256 (λ m. (law.sha256_length m, law.sha256_bytes m)) b
            (secp.serialize_key k) t small (law.key_bytes k) (law.key_length k) made,
      )

  pub new_address_of :
      (is_mainnet : Bool) (k : secp.PublicKey) (t : Text) (d : Option Text) (n : Option ℕ)
      → key_to_base58_check secp k (version_bytes is_mainnet) ≡ some t
      → new_address secp is_mainnet k d n
        ≡ some (address_of t (unwrap_or d default_domain) (unwrap_or n default_port) none)
  unfolding new_address
  new_address_of is_mainnet k t d n made = rw (made, new_address)

  new_raw_of :
      (version : List ℕ) (k : secp.PublicKey) (t : Text) (d : Option Text) (n : Option ℕ)
      → key_to_base58_check secp k version ≡ some t
      → new_raw secp k d n version
        ≡ some (address_of t (unwrap_or d default_domain) (unwrap_or n default_port) (some version))
  unfolding new_raw
  new_raw_of version k t d n made = rw (made, new_raw)

  module _ (captures : Text → Option Captures) (matcher : IsMatcher captures) where
    from_str_text :
        (is_mainnet : Bool) (k : secp.PublicKey) (t d s : Text) (n : ℕ)
        → key_to_base58_check secp k (version_bytes is_mainnet) ≡ some t
        → key_from_base58_check secp t (version_bytes is_mainnet) ≡ Outcome.ok k
        → n < 2 ^ 16
        → Matches s (groups (address_of t d n none))
        → from_str secp captures is_mainnet s ≡ Outcome.ok (address_of t d n none)
    unfolding from_str
    from_str_text is_mainnet k t d s n made read h m = rw (
      matcher.captures_some s (groups (address_of t d n none)) m,
      parse_port-group (n == default_port) n h,
      read,
      new_address_of is_mainnet k t (domain_group (text_eq d default_domain) (n == default_port) d)
          (port_group (n == default_port) n) made,
      domain_lem (text_eq d default_domain) (n == default_port) d (text_eq_iff d default_domain).0,
      port_lem (n == default_port) n (==_iff n default_port).0,
      from_str,
    )

    from_str_raw_text :
        (version : List ℕ) (k : secp.PublicKey) (t d s : Text) (n : ℕ)
        → key_to_base58_check secp k version ≡ some t
        → key_from_base58_check_raw secp t 2 ≡ Outcome.ok (k, version)
        → n < 2 ^ 16
        → Matches s (groups (address_of t d n (some version)))
        → from_str_raw secp captures s ≡ Outcome.ok (address_of t d n (some version))
    unfolding from_str_raw
    from_str_raw_text version k t d s n made read h m = rw (
      matcher.captures_some s (groups (address_of t d n (some version))) m,
      parse_port-group (n == default_port) n h,
      read,
      new_raw_of version k t (domain_group (text_eq d default_domain) (n == default_port) d)
          (port_group (n == default_port) n) made,
      domain_lem (text_eq d default_domain) (n == default_port) d (text_eq_iff d default_domain).0,
      port_lem (n == default_port) n (==_iff n default_port).0,
      from_str_raw,
    )

    -- GrinboxAddress::new makes an address of every key, domain that the address expression allows
    -- and port of 16 bits, each of the two possibly missing, and from_str reads that address back
    -- from its text and from its stripped text; its public_key is the key. It relies on the
    -- documented behaviour of secp256k1zkp and regex.
    pub from_str-show :
        (is_mainnet : Bool) (k : secp.PublicKey) (domain : Option Text) (port : Option ℕ)
        → IsDomainText (unwrap_or domain default_domain)
        → unwrap_or port default_port < 2 ^ 16
        → (a : GrinboxAddress) × (new_address secp is_mainnet k domain port ≡ some a)
          × (from_str secp captures is_mainnet (show a) ≡ Outcome.ok a)
          × (from_str secp captures is_mainnet (stripped a) ≡ Outcome.ok a)
          × (public_key_of secp is_mainnet a ≡ Outcome.ok k)
    unfolding public_key_of IsTextOf
    from_str-show is_mainnet k domain port hd hp =
        let (t, made, read, _, is_key) = key_text is_mainnet k in
        let a : GrinboxAddress =
          address_of t (unwrap_or domain default_domain) (unwrap_or port default_port) none in
        (
          a,
          new_address_of is_mainnet k t domain port made,
          from_str_text is_mainnet k t a.domain (show a) a.port made read hp
              (IsTextOf-Matches (show a) a (inl refl) is_key hd),
          from_str_text is_mainnet k t a.domain (stripped a) a.port made read hp
              (IsTextOf-Matches (stripped a) a (inr refl) is_key hd),
          read,
        )

    -- The address that from_str_raw makes of the stripped text of one without a version.
    pub record IsRawOf (is_mainnet : Bool) (k : secp.PublicKey) (a raw : GrinboxAddress)
        : Type 0 where
      pub parsed : from_str_raw secp captures (stripped a) ≡ Outcome.ok raw
      pub key : key_to_base58_check secp k (version_bytes is_mainnet) ≡ some raw.public_key
      pub same_key : raw.public_key ≡ a.public_key
      pub same_domain : raw.domain ≡ a.domain
      pub same_port : raw.port ≡ a.port
      pub same_text : stripped raw ≡ stripped a

    pub raw_of :
        (is_mainnet : Bool) (k : secp.PublicKey) (domain : Option Text) (port : Option ℕ)
        (a : GrinboxAddress)
        → IsDomainText (unwrap_or domain default_domain)
        → unwrap_or port default_port < 2 ^ 16
        → new_address secp is_mainnet k domain port ≡ some a
        → (raw : GrinboxAddress) × IsRawOf is_mainnet k a raw
    unfolding IsTextOf stripped show show_suffix
    raw_of is_mainnet k domain port a hd hp made =
        let (t, e, _, read, is_key) = key_text is_mainnet k in
        let v : List ℕ = version_bytes is_mainnet in
        let d : Text = unwrap_or domain default_domain in
        let n : ℕ = unwrap_or port default_port in
        let raw : GrinboxAddress = address_of t d n (some v) in
        let same : address_of t d n none ≡ a =
          cc (new_address_of is_mainnet k t domain port e, made) in
        (
          raw,
          subst (λ b. IsRawOf is_mainnet k b raw) same
              (record {
                parsed =
                    from_str_raw_text v k t d (stripped raw) n e read hp
                      (IsTextOf-Matches (stripped raw) raw (inr refl) is_key hd);
                key = e;
                same_key = refl;
                same_domain = refl;
                same_port = refl;
                same_text = refl;
              }),
        )
