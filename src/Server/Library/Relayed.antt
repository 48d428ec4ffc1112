-- ===== src/Server/Library/Relayed.antt =====
-- A slate's whole way: it is sealed and signed by the sender (grinboxlib/src/types), posted to the
-- relay and handed out again (src/server/mod.rs), and checked and opened by the receiver.
use grinbox.Prelude.{
  ℕ, ◌≡◌, ◌<◌, ◌^◌, refl, sym, ap, ◌∙◌, Bool, true, Option, some, [], ◌∷◌, ◌++◌, append-nil, subst,
  Bool-cases, inl, inr, ◌⊎◌,
}
use grinbox.Prelude.Text.{Text}
use grinbox.Types.Errors.{
  ErrorKind, secp_error, invalid_signature, grinbox_protocol_error, Outcome, err, map_err,
}
use grinbox.Types.Address.{
  GrinboxAddress, Captures, version_bytes, default_domain, default_port, unwrap_or, new_address,
  stripped,
}
use grinbox.Types.Address.Grammar.{IsDomainText, IsMatcher}
use grinbox.Types.Address.RoundTrip.{key_text, raw_of}
use grinbox.Types.Message.{Ring, IsRing, GrinboxMessage}
use grinbox.Types.Messages.{GrinboxResponse}
use grinbox.Types.Proof.{accepted, Json, TxProof, from_response}
use grinbox.Types.Proof.Delivery.{IsJson, IsSent, from_response-verified}
use grinbox.Broker.Protocol.{BrokerRequest}
use grinbox.Server.Environment.{Environment, IsFaithful}
use grinbox.Server.Handler.{AsyncServer, challenge_raw, post_slate}
use grinbox.Server.Posting.{
  IsHome, IsAccepted, alone, with_challenge, IsPosted, received, post_slate-IsPosted,
}
use grinbox.Server.Library.{check_signature, with_library}
use grinbox.Server.Library.Subscribed.{check_signature-signature_to_hex}
use grinbox.Utils.Crypto.{
  Secp, IsSecp, key_to_base58_check, key_from_base58_check_raw, signature_to_hex, verify_signature,
}
use grinbox.Utils.Crypto.Signatures.{
  signature_from_hex-signature_to_hex, verify_signature-sign_challenge,
}

module _ (secp : Secp) (law : IsSecp secp) where
  verify_signature-cases :
      (text : Text) (s : secp.Signature) (k : secp.PublicKey)
      → (verify_signature secp text s k ≡ Outcome.ok tt)
        ⊎ (verify_signature secp text s k ≡ err secp_error)
  unfolding verify_signature
  verify_signature-cases text s k =
      let (m, taken) = law.message_ok (secp.sha256 text) (law.sha256_length text) in
      elim (Bool-cases (secp.verify m s k)) [
        | inl good ↦ inl (rw (taken, good))
        | inr bad ↦ inr (rw (taken, bad))
      ]

  -- The test of the server on the texts of a key and of a signature.
  check_signature_lem :
      (is_mainnet : Bool) (k : secp.PublicKey) (address text : Text) (s : secp.Signature)
      → key_to_base58_check secp k (version_bytes is_mainnet) ≡ some address
      → check_signature secp address text (signature_to_hex secp s)
        ≡ map_err (grinbox_protocol_error invalid_signature) (verify_signature secp text s k)
  unfolding check_signature
  check_signature_lem is_mainnet k address text s made =
      let (t, made', _, raw, _) = key_text secp law is_mainnet k in
      let same : t ≡ address = cc (made, made') in
      let read : key_from_base58_check_raw secp address 2
          ≡ Outcome.ok (k, version_bytes is_mainnet) =
        rw (sym same) raw in
      rw (read, signature_from_hex-signature_to_hex secp law s)

  verified_of_map_err :
      (e : ErrorKind) (r : Outcome (Unit {0})) → map_err e r ≡ Outcome.ok tt → r ≡ Outcome.ok tt
  verified_of_map_err e (Outcome.ok tt) h = refl
  verified_of_map_err e (err _) h = cc h
  verified_of_map_err e Outcome.panicked h = cc h

  module _ (captures : Text → Option Captures) (env : Environment) where
    -- A signature over the text and the challenge is accepted: over the text alone it is good or an
    -- error, never a panic.
    signed-IsAccepted :
        (is_mainnet : Bool) (k : secp.PublicKey) (from : GrinboxAddress) (text : Text)
        (s : secp.Signature)
        → key_to_base58_check secp k (version_bytes is_mainnet) ≡ some from.public_key
        → verify_signature secp (text ++ challenge_raw) s k ≡ Outcome.ok tt
        → IsAccepted (with_library secp captures env) from text (signature_to_hex secp s)
    signed-IsAccepted is_mainnet k from text s made good = elim (verify_signature-cases text s k) [
      | inl over_text ↦ alone (
          check_signature_lem is_mainnet k from.public_key (text ++ []) s made
          ∙ ap (map_err (grinbox_protocol_error invalid_signature))
              (ap (λ t. verify_signature secp t s k) (append-nil text) ∙ over_text))
      | inr bad ↦
          with_challenge {k = grinbox_protocol_error invalid_signature}
            (check_signature_lem is_mainnet k from.public_key text s made
              ∙ ap (map_err (grinbox_protocol_error invalid_signature)) bad)
            (check_signature-signature_to_hex secp law is_mainnet k from.public_key
              (text ++ challenge_raw) s made good)
    ]

    with_library-IsFaithful : IsFaithful env → IsFaithful (with_library secp captures env)
    with_library-IsFaithful faithful = record { parse-print = faithful.parse-print }

module _ (secp : Secp) (law : IsSecp secp) (ring : Ring) (ring_law : IsRing ring) {Slate : Type 0}
    (json : Json Slate) (json_law : IsJson json) (captures : Text → Option Captures)
    (matcher : IsMatcher captures) (env : Environment) (faithful : IsFaithful env) where
  abbrev relay : Environment
  relay = with_library secp captures env

  -- What becomes of a slate that is posted: the request to the broker, the response that the
  -- receiver's handler makes of the message for it, and the slate that the receiver takes out.
  pub record IsRelayed (s s' : AsyncServer) (is_mainnet : Bool) (y : secp.SecretKey)
      (from to : GrinboxAddress) (str signature : Text) (seconds : Option ℕ) (slate : Slate)
      : Type 0 where
    pub payload : Text
    pub used : Text
    pub proof : TxProof secp
    pub logged :
        s'.requests
        ≡ s.requests
          ++ BrokerRequest.post_message to.public_key payload (stripped from) seconds ∷ []
    pub response :
        received relay (BrokerRequest.post_message to.public_key payload (stripped from) seconds)
        ≡ some (GrinboxResponse.slate (stripped from) str signature used)
    pub taken_out :
        from_response secp ring json is_mainnet captures
          (stripped from)
          str
          used
          signature
          y
          (some to)
        ≡ accepted (slate, proof)

  -- A slate that a client has sealed for the address of another and signed with the relay's
  -- challenge reaches it. If both addresses are those of the parties' keys for the same network,
  -- with domains that the address expression allows and ports of 16 bits, the salt and the nonce of
  -- the message are not empty, its text is UTF-8 and parses as a slate, the receiver's address
  -- names this relay, and the broker's thread lives, then post_slate asks the broker to post one
  -- message to the receiver's key with the sender's stripped address. The handler that is given
  -- such a message makes the response with the slate and the signature out of it, and from that
  -- response from_response with the receiver's secret key takes out the sender's slate. It relies
  -- on the documented behaviour of secp256k1zkp, ring, regex and serde_json.
  pub post_slate-IsRelayed :
      (st : AsyncServer) (seconds : Option ℕ) (is_mainnet : Bool) (x y : secp.SecretKey)
      (k l : secp.PublicKey) (text : Text) (from to : GrinboxAddress) (domain : Option Text)
      (port : Option ℕ) (m : GrinboxMessage) (s : secp.Signature) (slate : Slate)
      → st.broker_lives ≡ true
      → IsHome st to
      → IsDomainText (unwrap_or domain default_domain)
      → unwrap_or port default_port < 2 ^ 16
      → new_address secp is_mainnet l domain port ≡ some to
      → IsSent secp law ring ring_law json json_law captures matcher is_mainnet x k l text
          challenge_raw to from m s
      → secp.key_from_secret y ≡ some l
      → json.parse_slate text ≡ some slate
      → IsRelayed st
          (post_slate relay st
            (stripped from)
            (stripped to)
            (json.print_message m)
            (signature_to_hex secp s)
            seconds).1
          is_mainnet
          y
          from
          to
          (json.print_message m)
          (signature_to_hex secp s)
          seconds
          slate
  post_slate-IsRelayed st seconds is_mainnet x y k l text from to domain port m s slate lives home
        hd hp made sent hy parsed =
      let (raw_from, rf) =
        raw_of secp law captures matcher is_mainnet k sent.domain sent.port from sent.domain_text
          sent.port_small sent.has_address in
      let (raw_to, rt) = raw_of secp law captures matcher is_mainnet l domain port to hd hp made in
      let str : Text = json.print_message m in
      let p : IsPosted relay st
          (post_slate relay st (stripped from) (stripped to) str (signature_to_hex secp s)
            seconds).1
          raw_from raw_to str (signature_to_hex secp s) seconds =
        post_slate-IsPosted relay st (stripped from) (stripped to) str (signature_to_hex secp s)
          seconds raw_from raw_to (with_library-IsFaithful secp law captures env faithful) lives
          rf.parsed rt.parsed (rw (rt.same_port, rt.same_domain) home)
          (signed-IsAccepted secp law captures env is_mainnet k raw_from str s rf.key (
            verify_signature-sign_challenge secp law (str ++ challenge_raw) x k s sent.has_key
              sent.signed)) in
      let s' : AsyncServer =
        (post_slate relay st (stripped from) (stripped to) str (signature_to_hex secp s)
          seconds).1 in
      let hex : Text = signature_to_hex secp s in
      let used : Text = p.slate.used in
      let request : Text → Text → BrokerRequest =
        λ subject reply_to. BrokerRequest.post_message subject p.payload reply_to seconds in
      let good : verify_signature secp (str ++ p.slate.used) s k ≡ Outcome.ok tt =
        verified_of_map_err secp law (grinbox_protocol_error invalid_signature) _ (
          sym (
            check_signature_lem secp law is_mainnet k raw_from.public_key (str ++ p.slate.used) s
              rf.key)
          ∙ p.slate.signed) in
      let (proof, taken) =
        from_response-verified secp law ring ring_law json json_law captures matcher is_mainnet x y
          k l text challenge_raw p.slate.used to from m s slate sent good hy parsed in
      let texts : (raw_to.public_key, stripped raw_from) ≡ (to.public_key, stripped from) =
        rw (rt.same_key, rf.same_text) in
      let moved : (s'.requests ≡ st.requests ++ request to.public_key (stripped from) ∷ [])
          × (received relay (request to.public_key (stripped from))
              ≡ some (GrinboxResponse.slate (stripped from) str hex used)) =
        subst
          (λ (q : Text × Text).
            (s'.requests ≡ st.requests ++ request q.0 q.1 ∷ [])
            × (received relay (request q.0 q.1) ≡ some (GrinboxResponse.slate q.1 str hex used)))
          texts (p.logged, p.slate.response) in
      record {
        payload = p.payload;
        used = p.slate.used;
        proof = proof;
        logged = moved.0;
        response = moved.1;
        taken_out = taken;
      }
