-- ===== src/Prelude/Text/Utf8.antt =====
-- `str::from_utf8` of the standard library: the table of well-formed byte sequences, as a machine
-- that reads one byte at a time.
use Prim.Native.Nat.{ℕ, ◌<◌}
use mathlib.Core.Path.{◌≡◌, refl}
use mathlib.Core.Bool.{Bool, true, false, ◌&&◌}
use mathlib.Core.List.{List, [], ◌∷◌, ◌++◌}
use native.Mathlib.Omega.{arith}
use grinbox.Prelude.Tests.{◌==◌, ltb, leb, if◌then◌else◌}
use grinbox.Prelude.Lists.{All}

-- What the machine still waits for: continuation bytes, the first of them in a narrower range
-- after the leading bytes E0, ED, F0 and F4.
pub data Utf8State : Type 0 where
  start tail1 tail2 tail3 after_e0 after_ed after_f0 after_f4 malformed : Utf8State

between : ℕ → ℕ → ℕ → Bool
between lo hi b = leb lo b && leb b hi

utf8_lead : ℕ → Utf8State
unfolding between
utf8_lead b =
    if ltb b 0x80
    then start
    else if between 0xc2 0xdf b
    then tail1
    else if b == 0xe0
    then after_e0
    else if b == 0xed
    then after_ed
    else if between 0xe1 0xef b
    then tail2
    else if b == 0xf0
    then after_f0
    else if between 0xf1 0xf3 b
    then tail3
    else if b == 0xf4
    then after_f4
    else malformed

utf8_step : Utf8State → ℕ → Utf8State
unfolding utf8_lead
utf8_step start b = utf8_lead b
utf8_step tail1 b = if between 0x80 0xbf b then start else malformed
utf8_step tail2 b = if between 0x80 0xbf b then tail1 else malformed
utf8_step tail3 b = if between 0x80 0xbf b then tail2 else malformed
utf8_step after_e0 b = if between 0xa0 0xbf b then tail1 else malformed
utf8_step after_ed b = if between 0x80 0x9f b then tail1 else malformed
utf8_step after_f0 b = if between 0x90 0xbf b then tail2 else malformed
utf8_step after_f4 b = if between 0x80 0x8f b then tail2 else malformed
utf8_step malformed b = malformed

utf8_run : Utf8State → List ℕ → Utf8State
unfolding utf8_step
utf8_run st [] = st
utf8_run st (b ∷ s) = utf8_run (utf8_step st b) s

abbrev is_start : Utf8State → Bool
is_start start = true
is_start _ = false

unfoldable pub valid_utf8 : List ℕ → Bool
unfolding utf8_run
valid_utf8 s = is_start (utf8_run start s)

utf8_run-append :
    (st : Utf8State) (s t : List ℕ) → utf8_run st (s ++ t) ≡ utf8_run (utf8_run st s) t
unfolding utf8_run
utf8_run-append st [] t = refl
utf8_run-append st (b ∷ s) t = utf8_run-append (utf8_step st b) s t

eq_start_of_is_start : (st : Utf8State) → is_start st ≡ true → st ≡ start
eq_start_of_is_start start h = refl
eq_start_of_is_start _ h = cc

pub valid_utf8-append :
    (s t : List ℕ) → valid_utf8 s ≡ true → valid_utf8 t ≡ true → valid_utf8 (s ++ t) ≡ true
unfolding valid_utf8
valid_utf8-append s t h k = rw (utf8_run-append, eq_start_of_is_start _ h) k

utf8_run_ascii : (s : List ℕ) → All (λ b. b < 128) s → utf8_run start s ≡ start
unfolding utf8_run
utf8_run_ascii [] h = refl
utf8_run_ascii (b ∷ s) h =
    rw (let e : utf8_step start b ≡ start = lead_ascii b h.0 in e) (utf8_run_ascii s h.1)
  where
    lead_ascii : (c : ℕ) → c < 128 → utf8_lead c ≡ start
    lead_ascii c lt = ground arith

pub valid_utf8_ascii : (s : List ℕ) → All (λ b. b < 128) s → valid_utf8 s ≡ true
unfolding valid_utf8
valid_utf8_ascii s h = rw (utf8_run_ascii s h)
