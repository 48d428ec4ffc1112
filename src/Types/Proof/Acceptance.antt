-- ===== src/Types/Proof/Acceptance.antt =====
-- Which proofs `verify_extract` of grinboxlib/src/types/tx_proof.rs accepts, and that a receiver
-- gets the slate of a message that was sealed for it.
use grinbox.Prelude.{
  ◌≡◌, ◌++◌, ◌↔◌, refl, sym, ap, subst, ◌∙◌, Bool, true, Option, some, none, ◌⊎◌, Bool-cases, inl,
  inr,
}
use grinbox.Prelude.Text.{Text}
use grinbox.Types.Errors.{Outcome}
use grinbox.Types.Address.{GrinboxAddress, Captures, from_str, public_key_of}
use grinbox.Types.Address.Equality.{address_eq_refl, address_eq_sound}
use grinbox.Types.Message.{Ring, GrinboxMessage, key, decrypt_with_key}
use grinbox.Types.Proof.{
  ProofOutcome, accepted, refused, panicked, ProofError, parse_address, parse_signature,
  parse_public_key, parse_grinbox_message, decryption_key, decrypt_message, parse_slate, or_refuse,
  some_or_refuse, ◌>>>◌, Json, TxProof, new_proof, may_be_for, extract, verify_extract,
  from_response,
}
use grinbox.Utils.Crypto.{Secp, signature_from_hex, verify_signature}

-- Chains that accept have succeeded in their first step.
or_refuse-accepted :
    {A B : Type 0} (e : ProofError) (r : Outcome A) (f : A → ProofOutcome B) (b : B)
    → or_refuse e r f ≡ accepted b
    → (a : A) × (r ≡ Outcome.ok a) × (f a ≡ accepted b)
or_refuse-accepted e (Outcome.ok a) f b h = (a, refl, h)
or_refuse-accepted e (Outcome.err _) f b h = cc h
or_refuse-accepted e Outcome.panicked f b h = cc h

some_or_refuse-accepted :
    {A B : Type 0} (e : ProofError) (r : Option A) (f : A → ProofOutcome B) (b : B)
    → some_or_refuse e r f ≡ accepted b
    → (a : A) × (r ≡ some a) × (f a ≡ accepted b)
some_or_refuse-accepted e (some a) f b h = (a, refl, h)
some_or_refuse-accepted e none f b h = cc h

>>>-accepted :
    {A B : Type 0} (r : ProofOutcome A) (f : A → ProofOutcome B) (b : B)
    → (r >>> f) ≡ accepted b
    → (a : A) × (r ≡ accepted a) × (f a ≡ accepted b)
>>>-accepted (accepted a) f b h = (a, refl, h)
>>>-accepted (refused _) f b h = cc h
>>>-accepted panicked f b h = cc h

accepted_injective : {A : Type 0} (a b : A) → accepted a ≡ accepted b → a ≡ b
accepted_injective a b h = cc h

-- The receiver knows no address, or the sender names none, or they name the same.
abbrev pub IsExpected : Option GrinboxAddress → Option GrinboxAddress → Type 0
IsExpected destination expected =
    (destination ≡ none) ⊎ (expected ≡ none) ⊎ (destination ≡ expected)

may_be_for-IsExpected :
    (destination expected : Option GrinboxAddress)
    → may_be_for destination expected ≡ true
    → IsExpected destination expected
unfolding may_be_for
may_be_for-IsExpected none expected h = inl refl
may_be_for-IsExpected (some a) none h = inr (inl refl)
may_be_for-IsExpected (some a) (some b) h = inr (inr (ap some (address_eq_sound a b h)))

IsExpected-may_be_for :
    (destination expected : Option GrinboxAddress)
    → IsExpected destination expected
    → may_be_for destination expected ≡ true
unfolding may_be_for
IsExpected-may_be_for none expected h = refl
IsExpected-may_be_for (some a) none h = refl
IsExpected-may_be_for (some a) (some b) (inl h) = cc h
IsExpected-may_be_for (some a) (some b) (inr (inl h)) = cc h
IsExpected-may_be_for (some a) (some b) (inr (inr h)) =
    let same : a ≡ b = cc h in rw same (address_eq_refl b)

module _ (secp : Secp) (ring : Ring) {Slate : Type 0} (json : Json Slate) (is_mainnet : Bool) where
  -- What an accepted proof shows: the key of its address has signed the message and the challenge,
  -- and the message is for the destination, and holds the slate under the key of the proof.
  abbrev pub IsProven :
      TxProof secp → Option GrinboxAddress → Option GrinboxAddress → Slate → Type 0
  IsProven proof expected destination slate =
      (k : secp.PublicKey) × (m : GrinboxMessage) × (text : Text) × (public_key_of secp is_mainnet
          proof.address
        ≡ Outcome.ok k)
      × (verify_signature secp (proof.message ++ proof.challenge) proof.signature k ≡ Outcome.ok tt)
      × (json.parse_message proof.message ≡ some m)
      × (m.destination ≡ destination)
      × IsExpected destination expected
      × (decrypt_with_key ring m proof.key ≡ Outcome.ok text)
      × (json.parse_slate text ≡ some slate)

  extract-accepted :
      (proof : TxProof secp) (expected destination : Option GrinboxAddress) (m : GrinboxMessage)
      (slate : Slate)
      → extract secp ring json is_mainnet proof expected m ≡ accepted (destination, slate)
      → (text : Text) × (m.destination ≡ destination)
        × (may_be_for m.destination expected ≡ true)
        × (decrypt_with_key ring m proof.key ≡ Outcome.ok text)
        × (json.parse_slate text ≡ some slate)
  unfolding extract
  extract-accepted proof expected destination m slate h =
      elim (Bool-cases (may_be_for m.destination expected)) [
        | inl for_it ↦
            let rest : or_refuse decrypt_message (decrypt_with_key ring m proof.key) (λ decrypted.
              some_or_refuse parse_slate (json.parse_slate decrypted)
                (λ s. accepted (m.destination, s)))
                ≡ accepted (destination, slate) =
              rw for_it at h in
            let (text, opened, more) =
              or_refuse-accepted decrypt_message (decrypt_with_key ring m proof.key) _
                (destination, slate) rest in
            let (s, parsed, last) =
              some_or_refuse-accepted parse_slate (json.parse_slate text) _ (destination, slate)
                more in
            (text, cc last, for_it, opened, cc (last, parsed))
        | inr other ↦ cc (rw other at h)
      ]

  -- verify_extract accepts only proofs that show all of this.
  verify_extract-IsProven :
      (proof : TxProof secp) (expected destination : Option GrinboxAddress) (slate : Slate)
      → verify_extract secp ring json is_mainnet proof expected ≡ accepted (destination, slate)
      → IsProven proof expected destination slate
  unfolding verify_extract
  verify_extract-IsProven proof expected destination slate h =
      let (k, has_key, h1) =
        or_refuse-accepted parse_public_key (public_key_of secp is_mainnet proof.address) _
          (destination, slate) h in
      let (_, signed, h2) =
        or_refuse-accepted ProofError.verify_signature
          (verify_signature secp (proof.message ++ proof.challenge) proof.signature k) _
          (destination, slate) h1 in
      let (m, parsed, h3) =
        some_or_refuse-accepted parse_grinbox_message (json.parse_message proof.message) _
          (destination, slate) h2 in
      let (text, eq, for_it, opened, is_slate) =
        extract-accepted proof expected destination m slate h3 in
      (
        k,
        m,
        text,
        has_key,
        signed,
        parsed,
        eq,
        may_be_for-IsExpected destination expected (rw (sym eq) for_it),
        opened,
        is_slate,
      )

  -- The converse: a proof that shows all of this is accepted.
  pub IsProven-verify_extract :
      (proof : TxProof secp) (expected destination : Option GrinboxAddress) (slate : Slate)
      → IsProven proof expected destination slate
      → verify_extract secp ring json is_mainnet proof expected ≡ accepted (destination, slate)
  unfolding verify_extract extract decrypt_with_key
  IsProven-verify_extract proof expected destination slate
        (k, m, text, has_key, signed, parsed, eq, for_it, opened, is_slate) =
      rw (
        has_key,
        signed,
        parsed,
        eq,
        IsExpected-may_be_for destination expected for_it,
        opened,
        is_slate,
        extract,
      )

  -- verify_extract accepts a proof with a destination and a slate exactly when the address of the
  -- proof has a public key for the network, that key verifies the signature over the message
  -- followed by the challenge, the message parses, its destination is the one returned, there is no
  -- destination or no expected address or the two are equal, and the text of the message under the
  -- key of the proof is that slate.
  pub verify_extract_iff :
      (proof : TxProof secp) (expected destination : Option GrinboxAddress) (slate : Slate)
      → (verify_extract secp ring json is_mainnet proof expected ≡ accepted (destination, slate))
        ↔ IsProven proof expected destination slate
  verify_extract_iff proof expected destination slate = (
    verify_extract-IsProven proof expected destination slate,
    IsProven-verify_extract proof expected destination slate,
  )

  module _ (captures : Text → Option Captures) where
    -- A proof that from_response returns is of the given message and challenge and of the address
    -- that the sender's text parses to, and verify_extract with the same expected destination
    -- accepts it again with the same slate.
    pub verify_extract-from_response :
        (from message challenge signature : Text) (x : secp.SecretKey)
        (expected : Option GrinboxAddress) (slate : Slate) (proof : TxProof secp)
        → from_response secp ring json is_mainnet captures from message challenge signature x
            expected
          ≡ accepted (slate, proof)
        → (proof.message ≡ message)
          × (proof.challenge ≡ challenge)
          × (from_str secp captures is_mainnet from ≡ Outcome.ok proof.address)
          × ((destination : Option GrinboxAddress) × (verify_extract secp ring json is_mainnet proof
                  expected
                ≡ accepted (destination, slate)))
    unfolding from_response
    verify_extract-from_response from message challenge signature x expected slate proof h =
        let (a, address, h1) =
          or_refuse-accepted parse_address (from_str secp captures is_mainnet from) _ (slate, proof)
            h in
        let (s, _, h2) =
          or_refuse-accepted parse_signature (signature_from_hex secp signature) _ (slate, proof)
            h1 in
        let (k, _, h3) =
          or_refuse-accepted parse_public_key (public_key_of secp is_mainnet a) _ (slate, proof)
            h2 in
        let (m, _, h4) =
          some_or_refuse-accepted parse_grinbox_message (json.parse_message message) _
            (slate, proof) h3 in
        let (key', _, h5) =
          or_refuse-accepted decryption_key (key secp ring m k x) _ (slate, proof) h4 in
        let made : TxProof secp = new_proof secp a message challenge s key' in
        let (r, extracted, last) =
          >>>-accepted (verify_extract secp ring json is_mainnet made expected) _ (slate, proof)
            h5 in
        let pair : (r.1, made) ≡ (slate, proof) =
          accepted_injective (r.1, made) (slate, proof) last in
        subst
          (λ p.
            (p.message ≡ message)
            × (p.challenge ≡ challenge)
            × (from_str secp captures is_mainnet from ≡ Outcome.ok p.address)
            × ((destination : Option GrinboxAddress) × (verify_extract secp ring json is_mainnet p
                    expected
                  ≡ accepted (destination, slate))))
          (ap (λ q. q.1) pair)
          (refl, refl, address, (r.0, extracted ∙ ap (λ q. accepted (r.0, q.0)) pair))
