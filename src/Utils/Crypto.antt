-- ===== src/Utils/Crypto.antt =====
-- grinboxlib/src/utils/crypto.rs: the texts of keys, signatures and commitments, and signatures
-- over challenges. The packages secp256k1zkp and sha2 are a parameter.
pub mod Keys
pub mod Signatures
use grinbox.Prelude.{ℕ, ◌<◌, ◌≡◌, Bool, true, Option, some, List, length, if◌then◌else◌, All}
use grinbox.Prelude.Text.{Text, text_eq}
use grinbox.Types.Errors.{
  ErrorKind, invalid_base58_key, invalid_base58_version, secp_error, Outcome, ok, err, or_err,
  ◌>>=◌,
}
use grinbox.Utils.Hex.{to_hex, from_hex}
use grinbox.Utils.Hex.RoundTrip.{IsByte}
use grinbox.Utils.Base58.{to_base58, to_base58_check, from_base58, from_base58_check}

-- What the packages offer; `none` and `false` stand for their errors.
pub record Secp : Type 1 where
  pub PublicKey : Type 0
  pub SecretKey : Type 0
  pub Signature : Type 0
  pub Commitment : Type 0
  pub Message : Type 0
  -- `PublicKey::from_slice`, `serialize_vec` (compressed), `from_secret_key`, `mul_assign`
  pub key_from_slice : List ℕ → Option PublicKey
  pub serialize_key : PublicKey → List ℕ
  pub key_from_secret : SecretKey → Option PublicKey
  pub mul_assign : PublicKey → SecretKey → Option PublicKey
  -- `Signature::from_der`, `serialize_der`
  pub signature_from_der : List ℕ → Option Signature
  pub serialize_der : Signature → List ℕ
  -- `SecretKey::from_slice`, and the bytes of a secret key
  pub secret_from_slice : List ℕ → Option SecretKey
  pub secret_bytes : SecretKey → List ℕ
  -- `Commitment::from_vec`, and the bytes of a commitment
  pub commitment_from_vec : List ℕ → Commitment
  pub commitment_bytes : Commitment → List ℕ
  -- `Message::from_slice`, which the code calls with `?`
  pub message_from_slice : List ℕ → Outcome Message
  -- `Secp256k1::sign` and `verify`
  pub sign : Message → SecretKey → Option Signature
  pub verify : Message → Signature → PublicKey → Bool
  -- `Sha256`
  pub sha256 : List ℕ → List ℕ

-- Their documented behaviour on which statements rely.
pub record IsSecp (secp : Secp) : Type 0 where
  pub key_round : (k : secp.PublicKey) → secp.key_from_slice (secp.serialize_key k) ≡ some k
  pub key_length : (k : secp.PublicKey) → length (secp.serialize_key k) ≡ 33
  pub key_bytes : (k : secp.PublicKey) → All IsByte (secp.serialize_key k)
  pub der_round : (s : secp.Signature) → secp.signature_from_der (secp.serialize_der s) ≡ some s
  pub der_length : (s : secp.Signature) → 0 < length (secp.serialize_der s)
  pub der_bytes : (s : secp.Signature) → All IsByte (secp.serialize_der s)
  pub sha256_length : (m : List ℕ) → length (secp.sha256 m) ≡ 32
  pub sha256_bytes : (m : List ℕ) → All IsByte (secp.sha256 m)
  -- a message of 32 bytes is taken
  pub message_ok :
      (b : List ℕ) → length b ≡ 32 → (m : secp.Message) × (secp.message_from_slice b ≡ Outcome.ok m)
  -- what was signed with a key is verified with the public key that belongs to it
  pub verify_sign :
      (m : secp.Message) (x : secp.SecretKey) (k : secp.PublicKey) (s : secp.Signature)
      → secp.key_from_secret x ≡ some k
      → secp.sign m x ≡ some s
      → secp.verify m s k ≡ true
  -- the product of a public and a secret key is the same for both parties
  pub common_secret :
      (x y : secp.SecretKey) (k l : secp.PublicKey)
      → secp.key_from_secret x ≡ some k
      → secp.key_from_secret y ≡ some l
      → secp.mul_assign k y ≡ secp.mul_assign l x

module _ (secp : Secp) where
  -- `serialize_public_key`
  unfoldable pub serialize_public_key : secp.PublicKey → List ℕ
  serialize_public_key k = secp.serialize_key k

  -- `Hex<PublicKey>`
  unfoldable pub key_from_hex : Text → Outcome secp.PublicKey
  key_from_hex s = from_hex s >>= λ hex. or_err invalid_base58_key (secp.key_from_slice hex)

  unfoldable pub key_to_hex : secp.PublicKey → Text
  key_to_hex k = to_hex (serialize_public_key k)

  -- `Base58<PublicKey>`
  unfoldable pub key_from_base58 : Text → Outcome secp.PublicKey
  key_from_base58 s =
      from_base58 s >>= λ bytes. or_err invalid_base58_key (secp.key_from_slice bytes)

  unfoldable pub key_to_base58 : secp.PublicKey → Option Text
  key_to_base58 k = to_base58 (serialize_public_key k)

  unfoldable pub key_from_base58_check_raw : Text → ℕ → Outcome (secp.PublicKey × List ℕ)
  key_from_base58_check_raw s version_bytes = from_base58_check secp.sha256 s version_bytes >>= λ p.
      or_err invalid_base58_key (secp.key_from_slice p.1) >>= λ k. ok (k, p.0)

  unfoldable pub key_from_base58_check : Text → List ℕ → Outcome secp.PublicKey
  key_from_base58_check s version_expect =
      from_base58_check secp.sha256 s (length version_expect) >>= λ p.
      if text_eq p.0 version_expect
      then or_err invalid_base58_key (secp.key_from_slice p.1)
      else err invalid_base58_version

  unfoldable pub key_to_base58_check : secp.PublicKey → List ℕ → Option Text
  key_to_base58_check k version = to_base58_check secp.sha256 (serialize_public_key k) version

  -- `Hex<Signature>`
  unfoldable pub signature_from_hex : Text → Outcome secp.Signature
  signature_from_hex s = from_hex s >>= λ hex. or_err secp_error (secp.signature_from_der hex)

  unfoldable pub signature_to_hex : secp.Signature → Text
  signature_to_hex s = to_hex (secp.serialize_der s)

  -- `Hex<SecretKey>`
  unfoldable pub secret_from_hex : Text → Outcome secp.SecretKey
  secret_from_hex s = from_hex s >>= λ hex. or_err secp_error (secp.secret_from_slice hex)

  unfoldable pub secret_to_hex : secp.SecretKey → Text
  secret_to_hex x = to_hex (secp.secret_bytes x)

  -- `Hex<Commitment>`
  unfoldable pub commitment_from_hex : Text → Outcome secp.Commitment
  commitment_from_hex s = from_hex s >>= λ hex. ok (secp.commitment_from_vec hex)

  unfoldable pub commitment_to_hex : secp.Commitment → Text
  commitment_to_hex c = to_hex (secp.commitment_bytes c)

  -- `public_key_from_secret_key`
  unfoldable pub public_key_from_secret_key : secp.SecretKey → Outcome secp.PublicKey
  public_key_from_secret_key x = or_err secp_error (secp.key_from_secret x)

  -- `sign_challenge`
  unfoldable pub sign_challenge : Text → secp.SecretKey → Outcome secp.Signature
  sign_challenge challenge x =
      secp.message_from_slice (secp.sha256 challenge) >>= λ m. or_err secp_error (secp.sign m x)

  -- `verify_signature`
  unfoldable pub verify_signature : Text → secp.Signature → secp.PublicKey → Outcome (Unit {0})
  verify_signature challenge s k = secp.message_from_slice (secp.sha256 challenge) >>= λ m.
      if secp.verify m s k then ok tt else err secp_error
