-- ===== src/Tests/Servers.antt =====
-- Runs of a connection of src/server/mod.rs with an environment of small functions: an address is
-- its key, every signature that is the key is good, and a payload is its three texts between zeros.
use grinbox.Prelude.{◌≡◌, refl, true, Option, none, some, [], ◌++◌, if◌then◌else◌, arith}
use grinbox.Prelude.Text.{Text, codes, text_eq}
use grinbox.Types.Errors.{Outcome, err, invalid_request, secp_error}
use grinbox.Types.Messages.{GrinboxRequest, GrinboxResponse, SignedPayload}
use grinbox.Types.Address.{GrinboxAddress}
use grinbox.Server.Environment.{Environment, IsFaithful, finished}
use grinbox.Server.Handler.{AsyncServer, new, respond, error_of, on_request, on_message, post_slate}
use grinbox.Server.Authority.{IsLicensed, on_request-IsLicensed}
use grinbox.Server.Subscriptions.{IsSettled, on_message-IsSettled}
use grinbox.Tests.Printing.{print, parse, parse-print}
use grinbox.Server.Refusals.{on_message-refused}
use grinbox.Server.Posting.{IsAccepted, alone, IsPosted, post_slate-IsPosted}

abbrev here : GrinboxAddress
here = record { public_key = codes "k"; domain = codes "d"; port = 80; version = none }

abbrev print_payload : SignedPayload → Text
print_payload p = print p.str ++ (print p.challenge ++ (print p.signature ++ []))

abbrev of_parsed :
    Option (Text × Text) → Option (Text × Text) → Option (Text × Text) → Option SignedPayload
of_parsed (some a) (some b) (some c) = some (record { str = a.0; challenge = b.0; signature = c.0 })
of_parsed _ _ _ = none

abbrev rest_of : Option (Text × Text) → Text
rest_of none = []
rest_of (some p) = p.1

abbrev parse_payload : Text → Option SignedPayload
parse_payload s =
    let a = parse s in let b = parse (rest_of a) in let c = parse (rest_of b) in of_parsed a b c

-- The only request that is understood is "s", which subscribes to the key "k".
abbrev pub env : Environment
env = record {
  from_str_raw = λ _. Outcome.ok here;
  stripped = λ a. a.public_key;
  check_signature =
      λ key text signature. if text_eq key signature then Outcome.ok tt else err secp_error;
  parse_request = λ s.
      if text_eq s (codes "s")
      then some (GrinboxRequest.subscribe (codes "k") (codes "k"))
      else none;
  print_payload = print_payload;
  parse_payload = parse_payload;
  parse_response = λ s. if text_eq s (codes "ok") then some GrinboxResponse.ok else none;
  connect = λ _ _. finished;
}

pub env-IsFaithful : IsFaithful env
env-IsFaithful = record {
  parse-print = λ p. ground (
    arith,
    parse-print p.str (print p.challenge ++ (print p.signature ++ [])),
    parse-print p.challenge (print p.signature ++ []),
    parse-print p.signature [],
  );
}

abbrev pub connection : AsyncServer
connection = new (codes "i") (codes "d") 80 true 0

connection-IsSettled : IsSettled connection
connection-IsSettled = record {
  broker = refl;
  handlers = refl;
  bounded = omega arith;
  balanced = omega arith;
}

on_request-IsLicensed_example :
    IsLicensed env connection
      (GrinboxRequest.subscribe (codes "k") (codes "k"))
      (on_request env connection (GrinboxRequest.subscribe (codes "k") (codes "k"))).1
on_request-IsLicensed_example =
    on_request-IsLicensed env connection (GrinboxRequest.subscribe (codes "k") (codes "k"))

on_message-IsSettled_example : IsSettled (on_message env connection (codes "s")).1
on_message-IsSettled_example = on_message-IsSettled env connection (codes "s") connection-IsSettled

nonsense_refused : (on_message env connection (codes "x")).0 ≡ respond (error_of invalid_request)
unfolding on_message text_eq
nonsense_refused = refl

on_message-refused_example : (on_message env connection (codes "x")).1 ≡ connection
on_message-refused_example =
    on_message-refused env connection (codes "x") invalid_request (λ e. cc) nonsense_refused

slate_signed : IsAccepted env here (codes "slate") (codes "k")
unfolding text_eq
slate_signed = alone refl

post_slate-IsPosted_example :
    IsPosted env connection
      (post_slate env connection
        (codes "k@d:80")
        (codes "k@d:80")
        (codes "slate")
        (codes "k")
        none).1
      here
      here
      (codes "slate")
      (codes "k")
      none
unfolding text_eq
post_slate-IsPosted_example =
    post_slate-IsPosted env connection (codes "k@d:80") (codes "k@d:80") (codes "slate") (codes "k")
      none here here env-IsFaithful refl refl refl refl slate_signed
