-- ===== src/Types/Proof.antt =====
-- grinboxlib/src/types/tx_proof.rs: proofs of a transaction, made from a slate that was received.
-- The packages serde_json and, for the slate, grin_wallet are parameters.
pub mod Acceptance
pub mod Delivery
use grinbox.Prelude.{
  ℕ, ◌≡◌, Bool, true, false, not, Option, none, some, List, [], ◌++◌, if◌then◌else◌,
}
use grinbox.Prelude.Text.{Text}
use grinbox.Types.Errors.{Outcome}
use grinbox.Types.Address.{GrinboxAddress, Captures, address_eq, from_str, public_key_of}
use grinbox.Types.Message.{Ring, GrinboxMessage, key, decrypt_with_key}
use grinbox.Utils.Crypto.{Secp, signature_from_hex}

-- `ErrorKind` of this file
pub data ProofError : Type 0 where
  parse_address parse_public_key parse_signature verify_signature : ProofError
  parse_grinbox_message verify_destination decryption_key decrypt_message parse_slate : ProofError

-- `Result<T, ErrorKind>`, or a panic
pub data ProofOutcome {ℓ} (A : Type ℓ) : Type ℓ where
  accepted : A → ProofOutcome A
  refused : ProofError → ProofOutcome A
  panicked : ProofOutcome A

-- `map_err(|_| e)?`, and the same for an error that is not of the library
abbrev pub or_refuse {ℓ κ} :
    {A : Type ℓ} {B : Type κ} → ProofError → Outcome A → (A → ProofOutcome B) → ProofOutcome B
or_refuse e (Outcome.ok a) f = f a
or_refuse e (Outcome.err _) f = refused e
or_refuse e Outcome.panicked f = panicked

abbrev pub some_or_refuse {ℓ κ} :
    {A : Type ℓ} {B : Type κ} → ProofError → Option A → (A → ProofOutcome B) → ProofOutcome B
some_or_refuse e (some a) f = f a
some_or_refuse e none f = refused e

infixl 5 ◌>>>◌
abbrev pub ◌>>>◌ {ℓ κ} :
    {A : Type ℓ} {B : Type κ} → ProofOutcome A → (A → ProofOutcome B) → ProofOutcome B
accepted a >>> f = f a
refused e >>> f = refused e
panicked >>> f = panicked

-- What the code uses of serde_json.
pub record Json (Slate : Type 0) : Type 0 where
  pub parse_message : Text → Option GrinboxMessage
  pub print_message : GrinboxMessage → Text
  pub parse_slate : Text → Option Slate

-- `TxProof`
pub record TxProof (secp : Secp) : Type 0 where
  pub address : GrinboxAddress
  pub message : Text
  pub challenge : Text
  pub signature : secp.Signature
  pub key : List ℕ
  pub amount : ℕ
  pub fee : ℕ
  pub inputs : List secp.Commitment
  pub outputs : List secp.Commitment

-- the proof that `from_response` builds
abbrev pub new_proof :
    (secp : Secp) → GrinboxAddress → Text → Text → secp.Signature → List ℕ → TxProof secp
new_proof secp address message challenge signature key = record {
  address = address;
  message = message;
  challenge = challenge;
  signature = signature;
  key = key;
  amount = 0;
  fee = 0;
  inputs = [];
  outputs = [];
}

-- the test on the destination, which holds where one of the two is missing
unfoldable pub may_be_for : Option GrinboxAddress → Option GrinboxAddress → Bool
may_be_for (some destination) (some expected) = address_eq destination expected
may_be_for _ _ = true

module _ (secp : Secp) (ring : Ring) {Slate : Type 0} (json : Json Slate) (is_mainnet : Bool) where
  -- the steps of `verify_extract` behind the test of the signature
  unfoldable pub extract :
      TxProof secp
      → Option GrinboxAddress
      → GrinboxMessage
      → ProofOutcome (Option GrinboxAddress × Slate)
  extract proof expected m =
      if may_be_for m.destination expected
      then or_refuse decrypt_message (decrypt_with_key ring m proof.key) (λ decrypted.
        some_or_refuse parse_slate (json.parse_slate decrypted)
          (λ slate. accepted (m.destination, slate)))
      else refused verify_destination

  -- `verify_extract`
  unfoldable pub verify_extract :
      TxProof secp → Option GrinboxAddress → ProofOutcome (Option GrinboxAddress × Slate)
  verify_extract proof expected =
      or_refuse parse_public_key (public_key_of secp is_mainnet proof.address) (λ public_key.
        or_refuse ProofError.verify_signature
          (grinbox.Utils.Crypto.verify_signature secp (proof.message ++ proof.challenge)
            proof.signature public_key)
          (λ _.
            some_or_refuse parse_grinbox_message (json.parse_message proof.message)
              (λ m. extract proof expected m)))

  module _ (captures : Text → Option Captures) where
    -- `from_response`
    unfoldable pub from_response :
        Text
        → Text
        → Text
        → Text
        → secp.SecretKey
        → Option GrinboxAddress
        → ProofOutcome (Slate × TxProof secp)
    from_response from message challenge signature secret_key expected =
        or_refuse parse_address (from_str secp captures is_mainnet from) (λ address.
          or_refuse parse_signature (signature_from_hex secp signature) (λ signature'.
            or_refuse parse_public_key (public_key_of secp is_mainnet address) (λ public_key.
              some_or_refuse parse_grinbox_message (json.parse_message message) (λ m.
                or_refuse decryption_key (key secp ring m public_key secret_key) (λ key'.
                  let proof : TxProof secp =
                    new_proof secp address message challenge signature' key' in
                  verify_extract proof expected >>> λ r. accepted (r.1, proof))))))
