-- ===== src/Utils/Base58/Check.antt =====
-- The checksum of `to_base58_check` and `from_base58_check` of grinboxlib/src/utils/base58.rs.
use grinbox.Prelude.{
  ℕ, zero, suc, ◌-◌, ◌≤◌, ◌<◌, ◌≡◌, refl, sym, ap, ◌∙◌, some, List, [], ◌∷◌, ◌++◌, arith,
  All-append, length, length-append, take, drop, take-append, drop-append,
}
use grinbox.Prelude.Text.{Text, text_eq_iff}
use grinbox.Types.Errors.{Outcome, err, panicked, ◌>>=◌}
use grinbox.Utils.Base58.{
  from_base58, double_sha256, to_base58_check, split_version, check_payload, from_base58_check,
}
use grinbox.Utils.Base58.Value.{AreBelow}
use grinbox.Utils.Base58.Decode.{from_base58-to_base58}

-- The documented output of SHA-256: 32 bytes.
abbrev pub IsDigest : (List ℕ → List ℕ) → Type 0
IsDigest sha256 = (m : List ℕ) → (length (sha256 m) ≡ 32) × AreBelow 256 (sha256 m)

length-take_four : (xs : List ℕ) → 4 ≤ length xs → length (take 4 xs) ≡ 4
length-take_four [] h = absurd (omega (arith, h))
length-take_four (a ∷ []) h = absurd (omega (arith, h))
length-take_four (a ∷ b ∷ []) h = absurd (omega (arith, h))
length-take_four (a ∷ b ∷ c ∷ []) h = absurd (omega (arith, h))
length-take_four (a ∷ b ∷ c ∷ d ∷ xs) h = refl

AreBelow-take : (b n : ℕ) (xs : List ℕ) → AreBelow b xs → AreBelow b (take n xs)
AreBelow-take b zero xs h = tt
AreBelow-take b (suc n) [] h = tt
AreBelow-take b (suc n) (x ∷ xs) h = (h.0, AreBelow-take b n xs h.1)

pub take-drop : (n : ℕ) (xs : List ℕ) → take n xs ++ drop n xs ≡ xs
take-drop zero xs = refl
take-drop (suc n) [] = refl
take-drop (suc n) (x ∷ xs) = ap (λ l. x ∷ l) (take-drop n xs)

length-take : (n : ℕ) (xs : List ℕ) → n ≤ length xs → length (take n xs) ≡ n
length-take zero xs h = refl
length-take (suc n) [] h = absurd (omega (arith, h))
length-take (suc n) (x ∷ xs) h = ap suc (length-take n xs (omega (arith, h)))

module _ (sha256 : List ℕ → List ℕ) where
  abbrev pub checksum : List ℕ → List ℕ
  checksum p = take 4 (double_sha256 sha256 p)

  pub checksum_lem :
      IsDigest sha256 → (p : List ℕ) → (length (checksum p) ≡ 4) × AreBelow 256 (checksum p)
  unfolding double_sha256
  checksum_lem digest p =
      let (l, b) = digest (sha256 p) in
      (
        length-take_four (sha256 (sha256 p)) (omega (arith, l)),
        AreBelow-take 256 4 (sha256 (sha256 p)) b,
      )

  split_version-append :
      (version bytes : List ℕ)
      → split_version (length version) (version ++ bytes) ≡ Outcome.ok (version, bytes)
  unfolding split_version
  split_version-append version bytes =
      rw (take-append version bytes, drop-append version bytes, split_version)
        (ground (arith, length-append version bytes))

  check_payload-append :
      (n : ℕ) (p sum : List ℕ)
      → length sum ≡ 4
      → 0 < length p
      → checksum p ≡ sum
      → check_payload sha256 n (p ++ sum) ≡ split_version n p
  unfolding check_payload
  check_payload-append n p sum l h e =
      let k : length (p ++ sum) - 4 ≡ length p = omega (arith, length-append p sum, l) in
      rw (k, take-append p sum, drop-append p sum, e, (text_eq_iff sum sum).1 refl, check_payload)
        (ground (arith, length-append p sum, l, h))

  -- What is accepted consists of the version, the bytes and the checksum of both.
  abbrev pub IsChecked : ℕ → List ℕ → List ℕ → List ℕ → Type 0
  IsChecked n payload version bytes =
      (length version ≡ n) × (payload ≡ (version ++ bytes) ++ checksum (version ++ bytes))

  split_version-ok :
      (n : ℕ) (p version bytes : List ℕ)
      → split_version n p ≡ Outcome.ok (version, bytes)
      → (length version ≡ n) × (version ++ bytes ≡ p)
  unfolding split_version
  split_version-ok n p version bytes h = ground (arith, h, length-take n p, take-drop n p)

  check_payload-ok :
      (n : ℕ) (payload version bytes : List ℕ)
      → check_payload sha256 n payload ≡ Outcome.ok (version, bytes)
      → IsChecked n payload version bytes
  unfolding check_payload
  check_payload-ok n payload version bytes h =
      let body : List ℕ = take (length payload - 4) payload in
      let same : (split_version n body ≡ Outcome.ok (version, bytes))
          × (checksum body ≡ drop (length payload - 4) payload) =
        ground (arith, h, text_eq_iff (checksum body) (drop (length payload - 4) payload)) in
      let (l, e) = split_version-ok n body version bytes same.0 in
      (
        l,
        sym (
            ap (λ b. b ++ checksum b) e
            ∙ ap (λ c. body ++ c) same.1
            ∙ take-drop (length payload - 4) payload),
      )

  -- For a version and bytes of together 1 to 128 bytes, to_base58_check returns a text, and
  -- from_base58_check with the length of the version reads the version and the bytes back from it.
  -- It relies on SHA-256 giving 32 bytes.
  pub from_base58_check-to_base58_check :
      IsDigest sha256
      → (bytes version : List ℕ) → AreBelow 256 (version ++ bytes)
      → 0 < length (version ++ bytes)
      → length (version ++ bytes) ≤ 128
      → (t : Text) × (to_base58_check sha256 bytes version ≡ some t)
        × (from_base58_check sha256 t (length version) ≡ Outcome.ok (version, bytes))
  unfolding to_base58_check from_base58_check
  from_base58_check-to_base58_check digest bytes version h some_bytes few =
      let p : List ℕ = version ++ bytes in
      let (l, b) = checksum_lem digest p in
      let (t, made, read) =
        from_base58-to_base58 (p ++ checksum p) (All-append (λ d. d < 256) p (checksum p) h b)
          (omega (arith, length-append p (checksum p), l, few)) in
      (
        t,
        made,
        ap (λ r. r >>= check_payload sha256 (length version)) read
            ∙ check_payload-append (length version) p (checksum p) l some_bytes refl
            ∙ split_version-append version bytes,
      )

  -- from_base58_check returns a version and bytes only for a text whose payload is both of them and
  -- the first four bytes of their double SHA-256, with a version as long as was asked for.
  pub from_base58_check-IsChecked :
      (s : Text) (n : ℕ) (version bytes : List ℕ)
      → from_base58_check sha256 s n ≡ Outcome.ok (version, bytes)
      → (payload : List ℕ) × (from_base58 s ≡ Outcome.ok payload)
        × IsChecked n payload version bytes
  unfolding from_base58_check
  from_base58_check-IsChecked s n version bytes h = go (from_base58 s) refl h
    where
      go :
          (r : Outcome (List ℕ))
          → from_base58 s ≡ r
          → (r >>= check_payload sha256 n) ≡ Outcome.ok (version, bytes)
          → (payload : List ℕ) × (from_base58 s ≡ Outcome.ok payload)
            × IsChecked n payload version bytes
      go (Outcome.ok payload) e k = (payload, e, check_payload-ok n payload version bytes k)
      go (err _) e k = cc
      go panicked e k = cc
