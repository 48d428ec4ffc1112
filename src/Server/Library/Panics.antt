-- ===== src/Server/Library/Panics.antt =====
-- How a request of any client ends the thread of src/server/mod.rs, through the `unwrap` on the
-- port in grinboxlib/src/types/grinbox_address.rs.
use grinbox.Prelude.{ℕ, ◌≡◌, ◌^◌, Option, some, none}
use grinbox.Prelude.Text.{Text}
use grinbox.Prelude.Decimal.{parse_uint}
use grinbox.Types.Errors.{panicked}
use grinbox.Types.Address.{Captures, parse_port, from_str_raw}
use grinbox.Types.Address.Grammar.{Matches, IsMatcher}
use grinbox.Types.Messages.{GrinboxRequest}
use grinbox.Server.Environment.{Environment}
use grinbox.Server.Handler.{AsyncServer, panic, post_slate, on_request}
use grinbox.Server.Library.{with_library}
use grinbox.Utils.Crypto.{Secp}

module _ (secp : Secp) (captures : Text → Option Captures) (matcher : IsMatcher captures) where
  parse_port_panics : (p : Text) → parse_uint (2 ^ 16) p ≡ none → parse_port (some p) ≡ panicked
  unfolding parse_port
  parse_port_panics p bad = rw (bad, parse_port)

  from_str_raw_panics :
      (s p : Text) (c : Captures)
      → Matches s c
      → c.port ≡ some p
      → parse_uint (2 ^ 16) p ≡ none
      → from_str_raw secp captures s ≡ panicked
  unfolding from_str_raw
  from_str_raw_panics s p c m has bad =
      rw (matcher.captures_some s c m, has, parse_port_panics p bad, from_str_raw)

  -- A request to post from an address whose port parses as no u16, being empty or too large,
  -- panics, whatever the signature. It relies on the documented behaviour of regex.
  pub on_request_panics :
      (env : Environment) (st : AsyncServer) (from to str signature p : Text) (seconds : Option ℕ)
      (c : Captures)
      → Matches from c
      → c.port ≡ some p
      → parse_uint (2 ^ 16) p ≡ none
      → on_request
          (with_library secp captures env)
          st
          (GrinboxRequest.post_slate from to str signature seconds)
        ≡ (panic, st)
  unfolding on_request post_slate
  on_request_panics env st from to str signature p seconds c m has bad =
      rw (from_str_raw_panics from p c m has bad, post_slate)
