-- ===== src/Tests/Proofs.antt =====
-- Runs of grinboxlib/src/types, and of src/server/mod.rs with them.
use grinbox.Prelude.{
  ℕ, ◌^◌, ◌≡◌, ◌↔◌, ◌++◌, refl, Bool, true, false, Option, none, some, List, arith, replicate, inl,
}
use grinbox.Prelude.Text.{Text, codes, text_eq}
use grinbox.Prelude.Text.Utf8.{valid_utf8, valid_utf8_ascii}
use grinbox.Prelude.Decimal.{parse_uint}
use grinbox.Types.Errors.{Outcome}
use grinbox.Types.Address.{
  GrinboxAddress, default_domain, show, stripped, unwrap_or, new_address, public_key_of, from_str,
}
use grinbox.Types.Address.Grammar.{IsDomainText}
use grinbox.Types.Address.Display.{address_of}
use grinbox.Types.Address.RoundTrip.{key_text, new_address_of, from_str-show}
use grinbox.Types.Message.{GrinboxMessage, new_message, key, decrypt_with_key, derive_key, middle}
use grinbox.Types.Message.RoundTrip.{decrypt_with_key-new_message}
use grinbox.Types.Messages.{GrinboxRequest}
use grinbox.Types.Proof.{accepted, TxProof, verify_extract, from_response}
use grinbox.Types.Proof.Acceptance.{IsProven, verify_extract_iff, verify_extract-from_response}
use grinbox.Types.Proof.Delivery.{IsSent, from_response-IsSent}
use grinbox.Utils.Crypto.{signature_to_hex, sign_challenge}
use grinbox.Server.Handler.{AsyncServer, new, panic, post_slate, on_request, challenge_raw}
use grinbox.Server.Library.{with_library}
use grinbox.Server.Library.Subscribed.{IsSubscribed, on_request-IsSubscribed}
use grinbox.Server.Library.Relayed.{IsRelayed, post_slate-IsRelayed}
use grinbox.Server.Library.Panics.{on_request_panics}
use grinbox.Tests.Servers.{env, env-IsFaithful}
use grinbox.Tests.Json.{json, json-IsJson}
use grinbox.Utils.Hex.{to_hex}
use grinbox.Tests.Library.{secp, secp-IsSecp, ring, ring-IsRing, captures, captures-IsMatcher}

-- The addresses of the two keys, at the default domain and port.
abbrev text_of : Bool → Text
text_of k = (key_text secp secp-IsSecp false k).0

abbrev address : Bool → GrinboxAddress
address k = address_of (text_of k) default_domain 443 none

address_made : (k : Bool) → new_address secp false k none none ≡ some (address k)
unfolding unwrap_or
address_made k =
    new_address_of secp secp-IsSecp false k (text_of k) none none
      (key_text secp secp-IsSecp false k).1

default_text : IsDomainText default_domain
default_text = (λ e. cc e, ground arith)

from_str-show_example :
    (a : GrinboxAddress) × (new_address secp false true (some (codes "a.b")) (some 80) ≡ some a)
    × (from_str secp captures false (show a) ≡ Outcome.ok a)
    × (from_str secp captures false (stripped a) ≡ Outcome.ok a)
    × (public_key_of secp false a ≡ Outcome.ok true)
unfolding unwrap_or
from_str-show_example =
    from_str-show secp secp-IsSecp captures captures-IsMatcher false true (some (codes "a.b"))
      (some 80) (λ e. cc e, ground arith) (omega arith)

signed : sign_challenge secp (codes "c") true ≡ Outcome.ok true
unfolding sign_challenge
signed = refl

-- A message from the key true to the key false.
abbrev text : Text
text = codes "slate"

abbrev message : GrinboxMessage
message = record {
  destination = some (address false);
  encrypted_message = to_hex (text ++ replicate 16 0);
  salt = to_hex (replicate 8 1);
  nonce = to_hex (replicate 12 2);
}

sealed :
    new_message secp ring (replicate 8 1) (replicate 12 2) text (address false) false true
    ≡ Outcome.ok message
unfolding new_message derive_key middle
sealed = refl

utf8 : valid_utf8 text ≡ true
utf8 = valid_utf8_ascii text (ground arith)

decrypt_with_key-new_message_example :
    (key' : List ℕ) × (key secp ring message true false ≡ Outcome.ok key')
    × (decrypt_with_key ring message key' ≡ Outcome.ok text)
    × (message.destination ≡ some (address false))
decrypt_with_key-new_message_example =
    decrypt_with_key-new_message secp ring secp-IsSecp ring-IsRing (replicate 8 1) (replicate 12 2)
      text (address false) true false true false message (ground arith) (omega arith) (ground arith)
      (omega arith) utf8 refl refl sealed

signed_message :
    sign_challenge secp (json.print_message message ++ challenge_raw) true ≡ Outcome.ok true
unfolding sign_challenge
signed_message = refl

sent :
    IsSent secp secp-IsSecp ring ring-IsRing json json-IsJson captures captures-IsMatcher false true
      true false text challenge_raw
      (address false)
      (address true)
      message
      true
unfolding unwrap_or
sent = record {
  domain = none;
  port = none;
  domain_text = default_text;
  port_small = omega arith;
  has_address = address_made true;
  has_key = refl;
  salt = replicate 8 1;
  nonce = replicate 12 2;
  salt_bytes = (ground arith, omega arith);
  nonce_bytes = (ground arith, omega arith);
  utf8 = utf8;
  sealed = sealed;
  signed = signed_message;
}

delivered :
    (proof : TxProof secp) × (from_response secp ring json false captures
        (stripped (address true))
        (json.print_message message)
        challenge_raw
        (signature_to_hex secp true)
        false
        (some (address false))
      ≡ accepted (text, proof))
delivered =
    from_response-IsSent secp secp-IsSecp ring ring-IsRing json json-IsJson captures
      captures-IsMatcher false true false true false text challenge_raw (address false)
      (address true) message true text sent refl refl

abbrev proof : TxProof secp
proof = delivered.0

verify_extract-from_response_example :
    (proof.message ≡ json.print_message message)
    × (proof.challenge ≡ challenge_raw)
    × (from_str secp captures false (stripped (address true)) ≡ Outcome.ok proof.address)
    × ((destination : Option GrinboxAddress) × (verify_extract secp ring json false proof
            (some (address false))
          ≡ accepted (destination, text)))
verify_extract-from_response_example =
    verify_extract-from_response secp ring json false captures (stripped (address true))
      (json.print_message message) challenge_raw (signature_to_hex secp true) false
      (some (address false)) text proof delivered.1

verify_extract_iff_example :
    (verify_extract secp ring json false proof (some (address false))
      ≡ accepted (some (address false), text))
    ↔ IsProven secp ring json false proof (some (address false)) (some (address false)) text
verify_extract_iff_example =
    verify_extract_iff secp ring json false proof (some (address false)) (some (address false)) text

abbrev connection : AsyncServer
connection = new (codes "i") default_domain 443 true 0

post_slate-IsRelayed_example :
    IsRelayed secp secp-IsSecp ring ring-IsRing json json-IsJson captures captures-IsMatcher env
      env-IsFaithful connection
      (post_slate
        (with_library secp captures env)
        connection
        (stripped (address true))
        (stripped (address false))
        (json.print_message message)
        (signature_to_hex secp true)
        none).1
      false
      false
      (address true)
      (address false)
      (json.print_message message)
      (signature_to_hex secp true)
      none
      text
unfolding unwrap_or text_eq
post_slate-IsRelayed_example =
    post_slate-IsRelayed secp secp-IsSecp ring ring-IsRing json json-IsJson captures
      captures-IsMatcher env env-IsFaithful connection none false true false true false text
      (address true) (address false) none none message true text refl refl default_text
      (omega arith) (address_made false) sent refl refl

signed_raw : sign_challenge secp challenge_raw true ≡ Outcome.ok true
unfolding sign_challenge
signed_raw = refl

on_request-IsSubscribed_example : IsSubscribed connection (text_of true) (
    on_request
      (with_library secp captures env)
      connection
      (GrinboxRequest.subscribe (text_of true) (signature_to_hex secp true)))
on_request-IsSubscribed_example =
    on_request-IsSubscribed secp secp-IsSecp captures env connection false true true (text_of true)
      true refl (key_text secp secp-IsSecp false true).1 signed_raw (λ e. cc e) refl refl

-- an address with a port that no u16 holds
abbrev far : Text
far = text_of true ++ codes "@a:99999"

too_large : parse_uint (2 ^ 16) (codes "99999") ≡ none
unfolding parse_uint
too_large = refl

on_request_panics_example :
    on_request
      (with_library secp captures env)
      connection
      (GrinboxRequest.post_slate far far (codes "slate") (codes "00") none)
    ≡ (panic, connection)
on_request_panics_example =
    on_request_panics secp captures captures-IsMatcher env connection far far (codes "slate")
      (codes "00") (codes "99999") none
      (record { public_key = text_of true; domain = some (codes "a"); port = some (codes "99999") })
      (
        (key_text secp secp-IsSecp false true).4,
        (((λ e. cc e), ground arith), ground arith),
        inl refl,
      )
      refl too_large
