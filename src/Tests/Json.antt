-- ===== src/Tests/Json.antt =====
-- Texts of messages that are read back, for the runs of grinboxlib/src/types; a slate is its text.
use grinbox.Prelude.{ℕ, ◌≡◌, refl, Option, none, some, List, [], ◌∷◌, ◌++◌}
use grinbox.Prelude.Text.{Text}
use grinbox.Types.Address.{GrinboxAddress}
use grinbox.Types.Message.{GrinboxMessage}
use grinbox.Types.Proof.{Json}
use grinbox.Types.Proof.Delivery.{IsJson}
use grinbox.Tests.Printing.{print, parse, parse-print}

abbrev after : {A : Type 0} → Option (Text × Text) → (Text → Text → Option A) → Option A
after none f = none
after (some p) f = f p.0 p.1

abbrev print_version : Option (List ℕ) → Text
print_version none = []
print_version (some v) = 1 ∷ print v ++ []

abbrev parse_version : Text → Option (Option (List ℕ))
parse_version [] = some none
parse_version (b ∷ s) = after (parse s) (λ v _. some (some v))

abbrev print_destination : Option GrinboxAddress → Text
print_destination none = []
print_destination (some a) =
    1 ∷ print a.public_key ++ (print a.domain ++ (a.port ∷ print_version a.version))

abbrev with_version : Text → Text → ℕ → Option (Option (List ℕ)) → Option (Option GrinboxAddress)
with_version k d n none = none
with_version k d n (some v) =
    some (some (record { public_key = k; domain = d; port = n; version = v }))

abbrev parse_port : Text → Text → Text → Option (Option GrinboxAddress)
parse_port k d [] = none
parse_port k d (n ∷ s) = with_version k d n (parse_version s)

abbrev parse_destination : Text → Option (Option GrinboxAddress)
parse_destination [] = some none
parse_destination (b ∷ s) = after (parse s) (λ k r. after (parse r) (λ d r'. parse_port k d r'))

abbrev with_destination :
    Text → Text → Text → Option (Option GrinboxAddress) → Option GrinboxMessage
with_destination e s n none = none
with_destination e s n (some d) =
    some (record { destination = d; encrypted_message = e; salt = s; nonce = n })

abbrev print_message : GrinboxMessage → Text
print_message m =
    print m.encrypted_message
    ++ (print m.salt ++ (print m.nonce ++ print_destination m.destination))

abbrev parse_message : Text → Option GrinboxMessage
parse_message t = after (parse t) (λ e r.
    after (parse r)
      (λ s r'. after (parse r') (λ n r''. with_destination e s n (parse_destination r''))))

parse_version-print : (v : Option (List ℕ)) → parse_version (print_version v) ≡ some v
parse_version-print none = refl
parse_version-print (some v) = rw (parse-print v [])

parse_destination-print :
    (d : Option GrinboxAddress) → parse_destination (print_destination d) ≡ some d
parse_destination-print none = refl
parse_destination-print (some a) = rw (
  parse-print a.public_key (print a.domain ++ (a.port ∷ print_version a.version)),
  parse-print a.domain (a.port ∷ print_version a.version),
  parse_version-print a.version,
)

abbrev pub json : Json Text
json = record {
  parse_message = parse_message;
  print_message = print_message;
  parse_slate = λ t. some t;
}

pub json-IsJson : IsJson json
json-IsJson = record {
  parse-print = λ m. rw (
    parse-print m.encrypted_message
        (print m.salt ++ (print m.nonce ++ print_destination m.destination)),
    parse-print m.salt (print m.nonce ++ print_destination m.destination),
    parse-print m.nonce (print_destination m.destination),
    parse_destination-print m.destination,
  );
}
