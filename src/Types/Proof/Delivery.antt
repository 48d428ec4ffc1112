-- ===== src/Types/Proof/Delivery.antt =====
-- The way of a slate from the sender to the receiver through grinboxlib/src/types: sealed in a
-- message, signed, and taken out of the response of the relay.
use grinbox.Prelude.{
  ℕ, ◌≡◌, ◌<◌, ◌^◌, ◌++◌, refl, sym, Bool, true, Option, some, List, length, All, inr,
}
use grinbox.Prelude.Text.{Text}
use grinbox.Prelude.Text.Utf8.{valid_utf8}
use grinbox.Types.Errors.{Outcome}
use grinbox.Types.Address.{
  GrinboxAddress, Captures, default_domain, default_port, unwrap_or, from_str, public_key_of,
  new_address, stripped,
}
use grinbox.Types.Address.Grammar.{IsDomainText, IsMatcher}
use grinbox.Types.Address.RoundTrip.{from_str-show}
use grinbox.Types.Message.{Ring, IsRing, GrinboxMessage, new_message}
use grinbox.Types.Message.RoundTrip.{decrypt_with_key-new_message}
use grinbox.Types.Proof.{
  accepted, Json, TxProof, new_proof, may_be_for, verify_extract, from_response,
}
use grinbox.Types.Proof.Acceptance.{IsProven-verify_extract}
use grinbox.Utils.Hex.RoundTrip.{IsByte}
use grinbox.Utils.Crypto.{Secp, IsSecp, signature_to_hex, sign_challenge, verify_signature}
use grinbox.Utils.Crypto.Signatures.{
  signature_from_hex-signature_to_hex, verify_signature-sign_challenge,
}

-- What the code relies on in serde_json: a message is read back from its text.
pub record IsJson {Slate : Type 0} (json : Json Slate) : Type 0 where
  pub parse-print : (m : GrinboxMessage) → json.parse_message (json.print_message m) ≡ some m

module _ (secp : Secp) (law : IsSecp secp) (ring : Ring) (ring_law : IsRing ring) {Slate : Type 0}
    (json : Json Slate) (json_law : IsJson json) (captures : Text → Option Captures)
    (matcher : IsMatcher captures) where
  -- The sender: its keys, its address, and the message that it has sealed and signed.
  pub record IsSent (is_mainnet : Bool) (x : secp.SecretKey) (k l : secp.PublicKey)
      (text challenge : Text) (destination address : GrinboxAddress) (m : GrinboxMessage)
      (s : secp.Signature) : Type 0 where
    pub domain : Option Text
    pub port : Option ℕ
    pub domain_text : IsDomainText (unwrap_or domain default_domain)
    pub port_small : unwrap_or port default_port < 2 ^ 16
    pub has_address : new_address secp is_mainnet k domain port ≡ some address
    pub has_key : secp.key_from_secret x ≡ some k
    pub salt : List ℕ
    pub nonce : List ℕ
    pub salt_bytes : All IsByte salt × (0 < length salt)
    pub nonce_bytes : All IsByte nonce × (0 < length nonce)
    pub utf8 : valid_utf8 text ≡ true
    pub sealed : new_message secp ring salt nonce text destination l x ≡ Outcome.ok m
    pub signed : sign_challenge secp (json.print_message m ++ challenge) x ≡ Outcome.ok s

  -- from_response returns the slate when the signature is good.
  pub from_response-verified :
      (is_mainnet : Bool) (x y : secp.SecretKey) (k l : secp.PublicKey) (text challenge used : Text)
      (destination address : GrinboxAddress) (m : GrinboxMessage) (s : secp.Signature)
      (slate : Slate)
      → IsSent is_mainnet x k l text challenge destination address m s
      → verify_signature secp (json.print_message m ++ used) s k ≡ Outcome.ok tt
      → secp.key_from_secret y ≡ some l
      → json.parse_slate text ≡ some slate
      → (proof : TxProof secp) × (from_response secp ring json is_mainnet captures
            (stripped address)
            (json.print_message m)
            used
            (signature_to_hex secp s)
            y
            (some destination)
          ≡ accepted (slate, proof))
  unfolding from_response may_be_for
  from_response-verified is_mainnet x y k l text challenge used destination address m s slate sent
        verified hy parsed =
      let (a, made, _, read, has_key) =
        from_str-show secp law captures matcher is_mainnet k sent.domain sent.port sent.domain_text
          sent.port_small in
      let same : a ≡ address = cc (made, sent.has_address) in
      let from : from_str secp captures is_mainnet (stripped address) ≡ Outcome.ok address =
        rw (sym same) read in
      let key_of : public_key_of secp is_mainnet address ≡ Outcome.ok k = rw (sym same) has_key in
      let (key', derived, opened, for_it) =
        decrypt_with_key-new_message secp ring law ring_law sent.salt sent.nonce text destination k
          l x y m sent.salt_bytes.0 sent.salt_bytes.1 sent.nonce_bytes.0 sent.nonce_bytes.1
          sent.utf8 sent.has_key hy sent.sealed in
      let proof : TxProof secp = new_proof secp address (json.print_message m) used s key' in
      let checked : verify_extract secp ring json is_mainnet proof (some destination)
          ≡ accepted (some destination, slate) =
        IsProven-verify_extract secp ring json is_mainnet proof (some destination)
          (some destination) slate
          (
            k,
            m,
            text,
            key_of,
            verified,
            json_law.parse-print m,
            for_it,
            inr (inr refl),
            opened,
            parsed,
          ) in
      (
        proof,
        rw (
          from,
          signature_from_hex-signature_to_hex secp law s,
          key_of,
          json_law.parse-print m,
          derived,
          checked,
          from_response,
        ),
      )

  -- from_response returns the slate.
  pub from_response-IsSent :
      (is_mainnet : Bool) (x y : secp.SecretKey) (k l : secp.PublicKey) (text challenge : Text)
      (destination address : GrinboxAddress) (m : GrinboxMessage) (s : secp.Signature)
      (slate : Slate)
      → IsSent is_mainnet x k l text challenge destination address m s
      → secp.key_from_secret y ≡ some l
      → json.parse_slate text ≡ some slate
      → (proof : TxProof secp) × (from_response secp ring json is_mainnet captures
            (stripped address)
            (json.print_message m)
            challenge
            (signature_to_hex secp s)
            y
            (some destination)
          ≡ accepted (slate, proof))
  from_response-IsSent is_mainnet x y k l text challenge destination address m s slate sent hy
        parsed =
      from_response-verified is_mainnet x y k l text challenge challenge destination address m s
        slate sent
        (verify_signature-sign_challenge secp law (json.print_message m ++ challenge) x k s
          sent.has_key sent.signed)
        hy parsed
