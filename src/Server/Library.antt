-- ===== src/Server/Library.antt =====
-- src/server/mod.rs with the addresses and the signatures of grinboxlib in place of the fields of
-- Environment that stand for them.
pub mod Subscribed
pub mod Relayed
pub mod Panics
use grinbox.Prelude.{ℕ, Option}
use grinbox.Prelude.Text.{Text}
use grinbox.Types.Errors.{
  GrinboxError, invalid_signature, ErrorKind, grinbox_protocol_error, Outcome, map_err, ◌>>=◌,
}
use grinbox.Types.Address.{Captures, from_str_raw, stripped}
use grinbox.Utils.Crypto.{Secp, key_from_base58_check_raw, signature_from_hex, verify_signature}
use grinbox.Server.Environment.{Environment}

-- `AsyncServer::verify_signature`
unfoldable pub check_signature : Secp → Text → Text → Text → Outcome (Unit {0})
check_signature secp public_key challenge signature =
    key_from_base58_check_raw secp public_key 2 >>= λ p. signature_from_hex secp signature >>= λ s.
    map_err (grinbox_protocol_error invalid_signature) (verify_signature secp challenge s p.0)

-- the other packages' part of an environment, with that of grinboxlib
abbrev pub with_library : Secp → (Text → Option Captures) → Environment → Environment
with_library secp captures env = record env {
  from_str_raw = from_str_raw secp captures;
  stripped = stripped;
  check_signature = check_signature secp;
}
