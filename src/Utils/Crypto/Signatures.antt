-- ===== src/Utils/Crypto/Signatures.antt =====
-- Signatures over challenges of grinboxlib/src/utils/crypto.rs, and their texts.
use grinbox.Prelude.{ℕ, ◌≡◌, some, List}
use grinbox.Prelude.Text.{Text}
use grinbox.Types.Errors.{secp_error, Outcome, or_err, >>=-ok, or_err-some}
use grinbox.Utils.Crypto.{
  Secp, IsSecp, signature_from_hex, signature_to_hex, sign_challenge, verify_signature,
}
use grinbox.Utils.Crypto.Keys.{from_hex-to_hex_some}

module _ (secp : Secp) (law : IsSecp secp) where
  -- A signature is read back from its hexadecimal text.
  pub signature_from_hex-signature_to_hex :
      (s : secp.Signature) → signature_from_hex secp (signature_to_hex secp s) ≡ Outcome.ok s
  unfolding signature_from_hex signature_to_hex
  signature_from_hex-signature_to_hex s = rw (
    from_hex-to_hex_some (secp.serialize_der s) (law.der_bytes s) (law.der_length s),
    law.der_round s,
  )

  -- What sign_challenge signs, verify_signature accepts with the public key of the signer.
  pub verify_signature-sign_challenge :
      (challenge : Text) (x : secp.SecretKey) (k : secp.PublicKey) (s : secp.Signature)
      → secp.key_from_secret x ≡ some k
      → sign_challenge secp challenge x ≡ Outcome.ok s
      → verify_signature secp challenge s k ≡ Outcome.ok tt
  unfolding sign_challenge verify_signature
  verify_signature-sign_challenge challenge x k s e h =
      let digest : List ℕ = secp.sha256 challenge in
      let (m, taken, signed) =
        >>=-ok (secp.message_from_slice digest) (λ m. or_err secp_error (secp.sign m x)) s h in
      rw (taken, law.verify_sign m x k s e (or_err-some secp_error (secp.sign m x) s signed))
