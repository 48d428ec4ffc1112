-- ===== src/Types/Message.antt =====
-- grinboxlib/src/types/grinbox_message.rs: messages that are sealed with a key that both parties
-- derive. The package ring and the random salt and nonce are parameters.
pub mod RoundTrip
use grinbox.Prelude.{
  ℕ, ◌+◌, ◌≡◌, ◌<◌, Option, some, List, ◌++◌, leb, length, take, drop, replicate, if◌then◌else◌,
  All,
}
use grinbox.Prelude.Text.{Text}
use grinbox.Prelude.Text.Utf8.{valid_utf8}
use grinbox.Types.Errors.{
  ErrorKind, encryption, decryption, Outcome, ok, err, panicked, map_err, or_err, ◌>>=◌,
}
use grinbox.Types.Address.{GrinboxAddress}
use grinbox.Utils.Hex.{to_hex, from_hex}
use grinbox.Utils.Hex.RoundTrip.{IsByte}
use grinbox.Utils.Crypto.{Secp}

-- What the package offers; `none` stands for its errors.
pub record Ring : Type 1 where
  pub SealingKey : Type 0
  pub OpeningKey : Type 0
  -- `CHACHA20_POLY1305.tag_len()`
  pub tag_len : ℕ
  -- `pbkdf2::derive` with SHA-512 and 100 rounds: from a salt and a secret, a key of 32 bytes
  pub derive : List ℕ → List ℕ → List ℕ
  pub sealing_key : List ℕ → Option SealingKey
  pub opening_key : List ℕ → Option OpeningKey
  -- key, nonce, and the buffer with room for the tag at its end: the new buffer
  pub seal_in_place : SealingKey → List ℕ → List ℕ → Option (List ℕ)
  -- key, nonce, and the buffer: the part of the buffer with the text
  pub open_in_place : OpeningKey → List ℕ → List ℕ → Option (List ℕ)

-- Its documented behaviour on which statements rely.
pub record IsRing (ring : Ring) : Type 0 where
  pub tag : 0 < ring.tag_len
  pub derive_length : (salt secret : List ℕ) → length (ring.derive salt secret) ≡ 32
  pub opening_key_some :
      (key : List ℕ) → length key ≡ 32 → (k : ring.OpeningKey) × (ring.opening_key key ≡ some k)
  -- the sealed buffer is as long as the one before, and of bytes
  pub sealed_length :
      (k : ring.SealingKey) (nonce buffer c : List ℕ)
      → ring.seal_in_place k nonce buffer ≡ some c
      → length c ≡ length buffer
  pub sealed_bytes :
      (k : ring.SealingKey) (nonce buffer c : List ℕ)
      → ring.seal_in_place k nonce buffer ≡ some c
      → All IsByte c
  -- what was sealed is opened with the same key and nonce
  pub open_seal :
      (key nonce m c : List ℕ) (k : ring.SealingKey) (l : ring.OpeningKey)
      → ring.sealing_key key ≡ some k
      → ring.opening_key key ≡ some l
      → ring.seal_in_place k nonce (m ++ replicate ring.tag_len 0) ≡ some c
      → ring.open_in_place l nonce c ≡ some m

-- `GrinboxMessage`
pub record GrinboxMessage : Type 0 where
  pub destination : Option GrinboxAddress
  pub encrypted_message : Text
  pub salt : Text
  pub nonce : Text

-- the slice `[1..33]`
unfoldable pub middle : List ℕ → Outcome (List ℕ)
middle bytes = if leb 33 (length bytes) then ok (take 32 (drop 1 bytes)) else panicked

module _ (secp : Secp) (ring : Ring) where
  -- the secret that both parties compute, and the key that is derived from it
  unfoldable pub derive_key :
      ErrorKind → List ℕ → secp.PublicKey → secp.SecretKey → Outcome (List ℕ)
  derive_key e salt k x = or_err e (secp.mul_assign k x) >>= λ common_secret.
      middle (secp.serialize_key common_secret) >>= λ slice. ok (ring.derive salt slice)

  -- `new`, with the salt and the nonce that it draws
  unfoldable pub new_message :
      List ℕ
      → List ℕ
      → Text
      → GrinboxAddress
      → secp.PublicKey
      → secp.SecretKey
      → Outcome GrinboxMessage
  new_message salt nonce message destination receiver x =
      derive_key encryption salt receiver x >>= λ key.
      or_err encryption (ring.sealing_key key) >>= λ sealing_key.
      or_err encryption (ring.seal_in_place sealing_key nonce (message ++ replicate ring.tag_len 0))
      >>= λ enc_bytes. ok (record {
        destination = some destination;
        encrypted_message = to_hex enc_bytes;
        salt = to_hex salt;
        nonce = to_hex nonce;
      })

  -- `key`
  unfoldable pub key : GrinboxMessage → secp.PublicKey → secp.SecretKey → Outcome (List ℕ)
  key m sender x =
      map_err decryption (from_hex m.salt) >>= λ salt. derive_key decryption salt sender x

-- `String::from_utf8`
unfoldable pub from_utf8 : List ℕ → Outcome Text
from_utf8 bytes = if valid_utf8 bytes then ok bytes else err decryption

module _ (ring : Ring) where
  -- `decrypt_with_key`
  unfoldable pub decrypt_with_key : GrinboxMessage → List ℕ → Outcome Text
  decrypt_with_key m key =
      map_err decryption (from_hex m.encrypted_message) >>= λ encrypted_message.
      map_err decryption (from_hex m.nonce) >>= λ nonce.
      or_err decryption (ring.opening_key key) >>= λ opening_key.
      or_err decryption (ring.open_in_place opening_key nonce encrypted_message) >>= λ decrypted.
      from_utf8 decrypted
