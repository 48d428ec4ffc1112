-- ===== src/Stomp/Builders/Connect.antt =====
-- src/broker/stomp/session_builder.rs with its options in option_setter.rs.
use grinbox.Prelude.{ℕ, [], ◌∷◌, none, some}
use grinbox.Prelude.Text.{Text, codes}
use grinbox.Stomp.Header.{Header, push, retain}
use grinbox.Stomp.Header.Names.{StandardHeader}
use grinbox.Stomp.Frame.{std}
use grinbox.Stomp.Connection.{Credentials}
use grinbox.Stomp.Session.{Session, SessionConfig, Transport, new}
use grinbox.Stomp.Builders.Message.{differs}

-- `SessionBuilder` is its `SessionConfig`; `SessionBuilder::new`
unfoldable pub create : SessionConfig
create = record {
  credentials = none;
  heartbeat = (0, 0);
  headers =
      std StandardHeader.accept_version (codes "1.2")
      ∷ std StandardHeader.content_length (codes "0")
      ∷ [];
}

-- `set_option` of a `Header`, a `HeartBeat`, `Credentials` and a `SuppressedHeader`
unfoldable pub with_header : SessionConfig → Header → SessionConfig
with_header c h = record c { headers = push c.headers h }

unfoldable pub with_heartbeat : SessionConfig → ℕ × ℕ → SessionConfig
with_heartbeat c hb = record c { heartbeat = hb }

unfoldable pub with_credentials : SessionConfig → Credentials → SessionConfig
with_credentials c cred = record c { credentials = some cred }

unfoldable pub without_header : SessionConfig → Text → SessionConfig
without_header c key = record c { headers = retain (differs key) c.headers }

-- `SessionBuilder::build`
unfoldable pub build : SessionConfig → Transport → ℕ → Session
build c io now = new c io now
