-- ===== src/Types/Address/Equality.antt =====
-- The derived `PartialEq` of the addresses of grinboxlib/src/types/grinbox_address.rs.
use grinbox.Prelude.{ℕ, ◌≡◌, refl, true, Option, some, none, List, arith}
use grinbox.Prelude.Text.{text_eq, text_eq_iff}
use grinbox.Types.Address.{GrinboxAddress, address_eq, option_eq}

option_eq_refl : (v : Option (List ℕ)) → option_eq text_eq v v ≡ true
option_eq_refl none = refl
option_eq_refl (some t) = (text_eq_iff t t).1 refl

pub address_eq_refl : (a : GrinboxAddress) → address_eq a a ≡ true
unfolding address_eq
address_eq_refl a =
    rw
      (
        (text_eq_iff a.public_key a.public_key).1 refl,
        (text_eq_iff a.domain a.domain).1 refl,
        option_eq_refl a.version,
      )
      (ground arith)

option_eq_sound : (v w : Option (List ℕ)) → option_eq text_eq v w ≡ true → v ≡ w
option_eq_sound none none h = refl
option_eq_sound none (some t) h = cc h
option_eq_sound (some t) none h = cc h
option_eq_sound (some t) (some u) h = cc ((text_eq_iff t u).0 h)

-- Addresses that the source takes for equal are equal.
pub address_eq_sound : (a b : GrinboxAddress) → address_eq a b ≡ true → a ≡ b
unfolding address_eq
address_eq_sound a b h =
    let key : a.public_key ≡ b.public_key =
      ground (arith, h, text_eq_iff a.public_key b.public_key) in
    let domain : a.domain ≡ b.domain = ground (arith, h, text_eq_iff a.domain b.domain) in
    let port : a.port ≡ b.port = ground (arith, h) in
    let version : a.version ≡ b.version = ground (arith, h, option_eq_sound a.version b.version) in
    λ i. record { public_key = key i; domain = domain i; port = port i; version = version i }
