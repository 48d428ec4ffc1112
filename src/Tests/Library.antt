-- ===== src/Tests/Library.antt =====
-- Packages of small functions for the runs of grinboxlib: a key is a Boolean, a signature is the
-- key, and sealing keeps the text.
use grinbox.Prelude.{
  ℕ, zero, suc, ◌-◌, ◌≡◌, ◌≢◌, ◌<◌, ◌⊎◌, inl, inr, refl, sym, ap, subst, ◌∙◌, Bool, true, false,
  ◌&&◌, Option, none, some, List, [], ◌∷◌, ◌++◌, arith, ◌==◌, ltb, length, length-append, take,
  drop, take-append, drop-append, get_or, replicate, all, All, if◌then◌else◌,
}
use grinbox.Prelude.Text.{Text, Lacks, splitn2, splitn2_found, splitn2-Lacks}
use grinbox.Types.Errors.{Outcome}
use grinbox.Types.Address.{Captures, scheme}
use grinbox.Types.Address.Grammar.{is_domain_char, suffix, IsSuffix, IsMatcher}
use grinbox.Types.Message.{Ring, IsRing}
use grinbox.Utils.Base58.{digits_map}
use grinbox.Utils.Base58.Leading.{digits_map-letter}
use grinbox.Utils.Base58.Length.{IsLetter, IsKeyText}
use grinbox.Utils.Hex.RoundTrip.{IsByte}
use grinbox.Utils.Crypto.{Secp, IsSecp}

abbrev same : Bool → Bool → Bool
same true b = b
same false true = false
same false false = true

abbrev key_of : List ℕ → Option Bool
key_of [] = none
key_of (b ∷ _) = if b == 2 then some true else if b == 3 then some false else none

abbrev pub secp : Secp
secp = record {
  PublicKey = Bool;
  SecretKey = Bool;
  Signature = Bool;
  Commitment = List ℕ;
  Message = List ℕ;
  key_from_slice = key_of;
  serialize_key = λ k. (if k then 2 else 3) ∷ replicate 32 7;
  key_from_secret = λ x. some x;
  mul_assign = λ k x. some (k && x);
  signature_from_der = key_of;
  serialize_der = λ s. (if s then 2 else 3) ∷ [];
  secret_from_slice = key_of;
  secret_bytes = λ x. (if x then 2 else 3) ∷ replicate 31 7;
  commitment_from_vec = λ bytes. bytes;
  commitment_bytes = λ c. c;
  message_from_slice = λ b. Outcome.ok b;
  sign = λ m x. some x;
  verify = λ m s k. same s k;
  sha256 = λ m. replicate 32 5;
}

key_of_byte : (k : Bool) (rest : List ℕ) → key_of ((if k then 2 else 3) ∷ rest) ≡ some k
key_of_byte true rest = refl
key_of_byte false rest = refl

serialized-IsByte : (k : Bool) → All IsByte ((if k then 2 else 3) ∷ replicate 32 7)
serialized-IsByte true = ground arith
serialized-IsByte false = ground arith

short-IsByte : (k : Bool) → All IsByte ((if k then 2 else 3) ∷ [])
short-IsByte true = ground arith
short-IsByte false = ground arith

same_refl : (x k s : Bool) → some x ≡ some k → some x ≡ some s → same s k ≡ true
same_refl true true true e f = refl
same_refl false false false e f = refl
same_refl x k s e f = ground (arith, e, f)

product : (x y k l : Bool) → some x ≡ some k → some y ≡ some l → some (k && y) ≡ some (l && x)
product true true k l e f = ground (arith, e, f)
product true false k l e f = ground (arith, e, f)
product false true k l e f = ground (arith, e, f)
product false false k l e f = ground (arith, e, f)

pub secp-IsSecp : IsSecp secp
secp-IsSecp = record {
  key_round = λ k. key_of_byte k (replicate 32 7);
  key_length = λ k. refl;
  key_bytes = serialized-IsByte;
  der_round = λ s. key_of_byte s [];
  der_length = λ s. omega arith;
  der_bytes = short-IsByte;
  sha256_length = λ m. refl;
  sha256_bytes = λ m. ground arith;
  message_ok = λ b l. (b, refl);
  verify_sign = λ m x k s. same_refl x k s;
  common_secret = λ x y k l. product x y k l;
}

abbrev below : ℕ → Bool
below b = ltb b 256

abbrev pub ring : Ring
ring = record {
  SealingKey = List ℕ;
  OpeningKey = List ℕ;
  tag_len = 16;
  derive = λ salt secret. replicate 32 9;
  sealing_key = λ k. some k;
  opening_key = λ k. some k;
  seal_in_place = λ k nonce buffer. if all below buffer then some buffer else none;
  open_in_place = λ k nonce c. some (take (length c - 16) c);
}

sealed_lem :
    (buffer c : List ℕ)
    → (if all below buffer then some buffer else none) ≡ some c
    → (buffer ≡ c) × (all below buffer ≡ true)
sealed_lem buffer c h = ground (arith, h)

all-All : (bs : List ℕ) → all below bs ≡ true → All IsByte bs
all-All [] h = tt
all-All (b ∷ bs) h = ground (arith, h, all-All bs)

take_off : (m : List ℕ) → take (length (m ++ replicate 16 0) - 16) (m ++ replicate 16 0) ≡ m
take_off m =
    let l : length (m ++ replicate 16 0) - 16 ≡ length m =
      omega (arith, length-append m (replicate 16 0)) in
    rw l (take-append m (replicate 16 0))

pub ring-IsRing : IsRing ring
ring-IsRing = record {
  tag = omega arith;
  derive_length = λ salt secret. refl;
  opening_key_some = λ key l. (key, refl);
  sealed_length = λ k nonce buffer c h. ap length (sym (sealed_lem buffer c h).0);
  sealed_bytes = λ k nonce buffer c h.
      subst (All IsByte) (sealed_lem buffer c h).0 (all-All buffer (sealed_lem buffer c h).1);
  open_seal = λ key nonce m c k l e f h. ap some (
      ap (λ b. take (length b - 16) b) (sym (sealed_lem (m ++ replicate 16 0) c h).0) ∙ take_off m);
}

-- The regular expression, without a test of what the parts consist of.
abbrev split_groups : Text → Text → Captures
split_groups key [] = record { public_key = key; domain = none; port = none }
split_groups key (_ ∷ d) =
    let (domain, port) = splitn2 b':' d in
    record { public_key = key; domain = some domain; port = port }

abbrev without_scheme : Text → Text
without_scheme s = if get_or s 7 0 == b':' then drop 10 s else s

abbrev pub captures : Text → Option Captures
captures s = some (split_groups (take 52 (without_scheme s)) (drop 52 (without_scheme s)))

IsLetter-at :
    (n : ℕ) (xs ys : List ℕ) → n < length xs → All IsLetter xs → IsLetter (get_or (xs ++ ys) n 0)
IsLetter-at n [] ys l h = absurd (omega (arith, l))
IsLetter-at zero (x ∷ xs) ys l h = h.0
IsLetter-at (suc n) (x ∷ xs) ys l h = IsLetter-at n xs ys (omega (arith, l)) h.1

letter-ne-colon : (c : ℕ) → IsLetter c → c ≢ b':'
unfolding digits_map
letter-ne-colon c (d, small, eq) e = absurd (
    omega
      (arith, small, (digits_map-letter d small).0, ap (λ x. get_or digits_map x 0) (eq ∙ e), gap))
  where
    gap : get_or digits_map b':' 0 ≡ 255
    gap = refl

domain-Lacks : (d : Text) → All (λ c. is_domain_char c ≡ true) d → Lacks b':' d
domain-Lacks [] h = tt
domain-Lacks (c ∷ d) h = (ground (arith, h.0), domain-Lacks d h.1)

split_groups-suffix :
    (key : Text) (domain port : Option Text)
    → IsSuffix domain port
    → split_groups key (suffix domain port)
      ≡ record { public_key = key; domain = domain; port = port }
split_groups-suffix key none none h = refl
split_groups-suffix key none (some p) h = absurd h
split_groups-suffix key (some d) none h = rw (splitn2-Lacks b':' d (domain-Lacks d h.1))
split_groups-suffix key (some d) (some p) h = rw (splitn2_found b':' d p (domain-Lacks d h.0.1))

split_key :
    (key rest : Text)
    → length key ≡ 52
    → (take 52 (key ++ rest) ≡ key) × (drop 52 (key ++ rest) ≡ rest)
split_key key rest l = rw (sym l) (take-append key rest, drop-append key rest)

without_scheme_lem :
    (s : Text) (key rest : Text)
    → IsKeyText key
    → ((s ≡ key ++ rest) ⊎ (s ≡ scheme ++ (key ++ rest)))
    → without_scheme s ≡ key ++ rest
without_scheme_lem s key rest k (inl plain) = rw plain (
    ground (
      arith,
      letter-ne-colon (get_or (key ++ rest) 7 0) (IsLetter-at 7 key rest (omega (arith, k.0)) k.1),
    ))
without_scheme_lem s key rest k (inr full) = rw full refl

pub captures-IsMatcher : IsMatcher captures
captures-IsMatcher = record {
  captures_some = λ s c m.
      let rest : Text = suffix c.domain c.port in
      let e : without_scheme s ≡ c.public_key ++ rest =
        without_scheme_lem s c.public_key rest m.0 m.2 in
      let p = split_key c.public_key rest m.0.0 in
      ap some (
        ap (λ r. split_groups (take 52 r) (drop 52 r)) e
        ∙ ap (λ k. split_groups k (drop 52 (c.public_key ++ rest))) p.0
        ∙ ap (split_groups c.public_key) p.1
        ∙ split_groups-suffix c.public_key c.domain c.port m.1);
}
