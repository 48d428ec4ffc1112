-- ===== src/Types/Errors.antt =====
-- grinboxlib/src/error: the kinds of errors, and results; `GrinboxError` of
-- grinboxlib/src/types/grinbox_response.rs. A panic is an outcome of its own.
use grinbox.Prelude.{ℕ, ◌≡◌, refl, Option, none, some}
use grinbox.Prelude.Text.{Text, codes}

pub data GrinboxError : Type 0 where
  unknown_error invalid_request invalid_signature invalid_challenge too_many_subscriptions :
      GrinboxError

-- `Display` of `GrinboxError`
unfoldable pub describe : GrinboxError → Text
describe unknown_error = codes "unknown error!"
describe invalid_request = codes "invalid request!"
describe invalid_signature = codes "invalid signature!"
describe invalid_challenge = codes "invalid challenge!"
describe too_many_subscriptions = codes "too many subscriptions!"

-- `ErrorKind`
pub data ErrorKind : Type 0 where
  generic_error : Text → ErrorKind
  secp_error invalid_base58_length invalid_base58_checksum invalid_base58_version : ErrorKind
  invalid_base58_key number_parsing_error encryption decryption verify_proof : ErrorKind
  invalid_base58_character : ℕ → ℕ → ErrorKind
  grinbox_address_parsing_error : Text → ErrorKind
  grinbox_websocket_abnormal_termination : ErrorKind
  grinbox_protocol_error : GrinboxError → ErrorKind

-- `Result<T>`, or a panic
pub data Outcome {ℓ} (A : Type ℓ) : Type ℓ where
  ok : A → Outcome A
  err : ErrorKind → Outcome A
  panicked : Outcome A

infixl 5 ◌>>=◌
abbrev pub ◌>>=◌ {ℓ κ} : {A : Type ℓ} {B : Type κ} → Outcome A → (A → Outcome B) → Outcome B
ok a >>= f = f a
err e >>= f = err e
panicked >>= f = panicked

-- `map_err(|_| e)`
abbrev pub map_err {ℓ} : {A : Type ℓ} → ErrorKind → Outcome A → Outcome A
map_err e (ok a) = ok a
map_err e (err _) = err e
map_err e panicked = panicked

-- `Option`s of other packages' `Result`s, whose errors are mapped to `e`
abbrev pub or_err {ℓ} : {A : Type ℓ} → ErrorKind → Option A → Outcome A
or_err e (some a) = ok a
or_err e none = err e

-- A chain that succeeds has succeeded in its first step.
pub >>=-ok :
    {A B : Type 0} (r : Outcome A) (f : A → Outcome B) (b : B)
    → (r >>= f) ≡ ok b
    → (a : A) × (r ≡ ok a) × (f a ≡ ok b)
>>=-ok (ok a) f b h = (a, refl, h)
>>=-ok (err _) f b h = cc h
>>=-ok panicked f b h = cc h

pub or_err-some :
    {A : Type 0} (e : ErrorKind) (r : Option A) (a : A) → or_err e r ≡ ok a → r ≡ some a
or_err-some e (some b) a h = cc h
or_err-some e none a h = cc h
