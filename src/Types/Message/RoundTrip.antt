-- ===== src/Types/Message/RoundTrip.antt =====
-- A message that grinboxlib/src/types/grinbox_message.rs seals is opened by the receiver.
use grinbox.Prelude.{
  ℕ, ◌≡◌, ◌<◌, ◌++◌, refl, sym, ◌∙◌, true, some, List, arith, length, All, replicate, length-append,
}
use grinbox.Prelude.Text.{Text}
use grinbox.Prelude.Text.Utf8.{valid_utf8}
use grinbox.Types.Errors.{ErrorKind, encryption, decryption, Outcome, or_err, >>=-ok, or_err-some}
use grinbox.Types.Address.{GrinboxAddress}
use grinbox.Types.Message.{
  Ring, IsRing, GrinboxMessage, middle, derive_key, new_message, key, from_utf8, decrypt_with_key,
}
use grinbox.Utils.Hex.{to_hex}
use grinbox.Utils.Hex.RoundTrip.{IsByte}
use grinbox.Utils.Crypto.{Secp, IsSecp}
use grinbox.Utils.Base58.Leading.{length-replicate}
use grinbox.Utils.Crypto.Keys.{from_hex-to_hex_some}

module _ (secp : Secp) (ring : Ring) where
  -- The key depends on the product of the two keys only.
  derive_key_same :
      (e f : ErrorKind) (salt key' : List ℕ) (k l : secp.PublicKey) (x y : secp.SecretKey)
      → secp.mul_assign k x ≡ secp.mul_assign l y
      → derive_key secp ring e salt k x ≡ Outcome.ok key'
      → derive_key secp ring f salt l y ≡ Outcome.ok key'
  unfolding derive_key
  derive_key_same e f salt key' k l x y same h =
      let (p, made, rest) = >>=-ok (or_err e (secp.mul_assign k x)) _ key' h in
      let product : secp.mul_assign l y ≡ some p =
        sym same ∙ or_err-some e (secp.mul_assign k x) p made in
      rw product rest

  length-derive_key :
      IsRing ring
      → (e : ErrorKind) (salt key' : List ℕ) (k : secp.PublicKey) (x : secp.SecretKey)
      → derive_key secp ring e salt k x ≡ Outcome.ok key'
      → length key' ≡ 32
  unfolding derive_key
  length-derive_key law e salt key' k x h =
      let (p, _, rest) = >>=-ok (or_err e (secp.mul_assign k x)) _ key' h in
      let (slice, _, last) = >>=-ok (middle (secp.serialize_key p)) _ key' rest in
      let same : ring.derive salt slice ≡ key' = cc last in
      rw (sym same) (law.derive_length salt slice)

  -- What new_message returns.
  abbrev pub IsSealed : List ℕ → List ℕ → Text → GrinboxAddress → List ℕ → GrinboxMessage → Type 0
  IsSealed salt nonce message destination key' m =
      (k : ring.SealingKey) × (c : List ℕ) × (ring.sealing_key key' ≡ some k)
      × (ring.seal_in_place k nonce (message ++ replicate ring.tag_len 0) ≡ some c)
      × (m ≡ record {
        destination = some destination;
        encrypted_message = to_hex c;
        salt = to_hex salt;
        nonce = to_hex nonce;
      })

  new_message-IsSealed :
      (salt nonce : List ℕ) (message : Text) (destination : GrinboxAddress)
      (receiver : secp.PublicKey) (x : secp.SecretKey) (m : GrinboxMessage)
      → new_message secp ring salt nonce message destination receiver x ≡ Outcome.ok m
      → (key' : List ℕ) × (derive_key secp ring encryption salt receiver x ≡ Outcome.ok key')
        × IsSealed salt nonce message destination key' m
  unfolding new_message
  new_message-IsSealed salt nonce message destination receiver x m h =
      let (key', derived, h1) = >>=-ok (derive_key secp ring encryption salt receiver x) _ m h in
      let (k, made, h2) = >>=-ok (or_err encryption (ring.sealing_key key')) _ m h1 in
      let (c, sealed, h3) =
        >>=-ok
          (or_err encryption (ring.seal_in_place k nonce (message ++ replicate ring.tag_len 0))) _ m
          h2 in
      (
        key',
        derived,
        (
          k,
          c,
          or_err-some encryption (ring.sealing_key key') k made,
          or_err-some encryption _ c sealed,
          cc h3,
        ),
      )

  -- From a message that GrinboxMessage::new has sealed for the receiver's public key with the
  -- sender's secret key, a salt and a nonce that are not empty, the receiver's secret key and the
  -- sender's public key give a key under which decrypt_with_key returns the text, if that is UTF-8;
  -- the message keeps its destination. It relies on the documented behaviour of secp256k1zkp and
  -- ring.
  pub decrypt_with_key-new_message :
      IsSecp secp
      → IsRing ring
      → (salt nonce : List ℕ) (message : Text) (destination : GrinboxAddress) (k l : secp.PublicKey)
        (x y : secp.SecretKey) (m : GrinboxMessage)
      → All IsByte salt
      → 0 < length salt
      → All IsByte nonce
      → 0 < length nonce
      → valid_utf8 message ≡ true
      → secp.key_from_secret x ≡ some k
      → secp.key_from_secret y ≡ some l
      → new_message secp ring salt nonce message destination l x ≡ Outcome.ok m
      → (key' : List ℕ) × (key secp ring m k y ≡ Outcome.ok key')
        × (decrypt_with_key ring m key' ≡ Outcome.ok message)
        × (m.destination ≡ some destination)
  unfolding key decrypt_with_key from_utf8
  decrypt_with_key-new_message law rlaw salt nonce message destination k l x y m hs ls hn ln utf hx
        hy h =
      let (key', derived, (sk, c, made, sealed, eq)) =
        new_message-IsSealed salt nonce message destination l x m h in
      let (ok', opening) =
        rlaw.opening_key_some key' (length-derive_key rlaw encryption salt key' l x derived) in
      let bytes : All IsByte c = rlaw.sealed_bytes sk nonce _ c sealed in
      let long : 0 < length c = omega (
        arith,
        rlaw.sealed_length sk nonce (message ++ replicate ring.tag_len 0) c sealed,
        length-append message (replicate ring.tag_len 0),
        length-replicate ring.tag_len 0,
        rlaw.tag,
      ) in
      rw eq (
        key',
        rw (from_hex-to_hex_some salt hs ls) (
            derive_key_same encryption decryption salt key' l k x y
              (sym (law.common_secret x y k l hx hy)) derived),
        rw (
          from_hex-to_hex_some c bytes long,
          from_hex-to_hex_some nonce hn ln,
          opening,
          rlaw.open_seal key' nonce message c sk ok' made opening sealed,
          utf,
        ),
        refl,
      )
