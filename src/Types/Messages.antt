-- ===== src/Types/Messages.antt =====
-- grinboxlib/src/types/grinbox_request.rs and grinbox_response.rs: what clients and relay exchange;
-- `SignedPayload` of src/server/mod.rs.
use grinbox.Prelude.{ℕ, Option}
use grinbox.Prelude.Text.{Text}
use grinbox.Types.Errors.{GrinboxError}

pub data GrinboxRequest : Type 0 where
  challenge : GrinboxRequest
  -- address, signature
  subscribe : Text → Text → GrinboxRequest
  -- from, to, str, signature, message expiration in seconds
  post_slate : Text → Text → Text → Text → Option ℕ → GrinboxRequest
  -- address
  unsubscribe : Text → GrinboxRequest

pub data GrinboxResponse : Type 0 where
  ok : GrinboxResponse
  -- kind, description
  error : GrinboxError → Text → GrinboxResponse
  -- str
  challenge : Text → GrinboxResponse
  -- from, str, signature, challenge
  slate : Text → Text → Text → Text → GrinboxResponse

pub record SignedPayload : Type 0 where
  pub str : Text
  pub challenge : Text
  pub signature : Text
