-- ===== src/Utils/Crypto/Keys.antt =====
-- The texts of public keys of grinboxlib/src/utils/crypto.rs.
use grinbox.Prelude.{
  ℕ, ◌+◌, ◌≤◌, ◌<◌, ◌≡◌, refl, some, List, [], ◌∷◌, ◌++◌, arith, All, All-append, length,
  length-append,
}
use grinbox.Prelude.Text.{Text, text_eq_iff}
use grinbox.Types.Errors.{Outcome}
use grinbox.Utils.Hex.{to_hex, from_hex}
use grinbox.Utils.Hex.RoundTrip.{IsByte, from_hex-to_hex}
use grinbox.Utils.Base58.Value.{AreBelow}
use grinbox.Utils.Base58.Check.{IsDigest, from_base58_check-to_base58_check}
use grinbox.Utils.Crypto.{
  Secp, IsSecp, serialize_public_key, key_from_hex, key_to_hex, key_from_base58_check,
  key_from_base58_check_raw, key_to_base58_check,
}

pub from_hex-to_hex_some :
    (bs : List ℕ) → All IsByte bs → 0 < length bs → from_hex (to_hex bs) ≡ Outcome.ok bs
from_hex-to_hex_some [] h l = absurd (omega (arith, l))
from_hex-to_hex_some (b ∷ bs) h l = (from_hex-to_hex b bs h).0

module _ (secp : Secp) (law : IsSecp secp) where
  digest : IsDigest secp.sha256
  digest m = (law.sha256_length m, law.sha256_bytes m)

  -- a public key is read back from its hexadecimal text
  key_from_hex-key_to_hex :
      (k : secp.PublicKey) → key_from_hex secp (key_to_hex secp k) ≡ Outcome.ok k
  unfolding key_from_hex key_to_hex serialize_public_key
  key_from_hex-key_to_hex k = rw (
    from_hex-to_hex_some (secp.serialize_key k) (law.key_bytes k) (omega (arith, law.key_length k)),
    law.key_round k,
  )

  -- a public key, and its version, is read back from the text with a checksum
  pub key_from_base58_check-key_to_base58_check :
      (k : secp.PublicKey) (version : List ℕ)
      → AreBelow 256 version
      → length version ≤ 95
      → (t : Text) × (key_to_base58_check secp k version ≡ some t)
        × (key_from_base58_check secp t version ≡ Outcome.ok k)
        × (key_from_base58_check_raw secp t (length version) ≡ Outcome.ok (k, version))
  unfolding key_to_base58_check key_from_base58_check key_from_base58_check_raw serialize_public_key
  key_from_base58_check-key_to_base58_check k version h l =
      let key : List ℕ = secp.serialize_key k in
      let n : length (version ++ key) ≡ length version + 33 =
        omega (arith, length-append version key, law.key_length k) in
      let (t, made, read) =
        from_base58_check-to_base58_check secp.sha256 digest key version
          (All-append (λ d. d < 256) version key h (law.key_bytes k)) (omega (arith, n))
          (omega (arith, n, l)) in
      (
        t,
        made,
        rw (read, (text_eq_iff version version).1 refl, law.key_round k),
        rw (read, law.key_round k),
      )
