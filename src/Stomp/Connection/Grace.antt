-- ===== src/Stomp/Connection/Grace.antt =====
-- The interval after which a silent broker is given up.
use grinbox.Prelude.{ℕ, ◌+◌, ◌-◌, ◌*◌, ◌^◌, ◌≤◌, ◌<◌, ◌≡◌, min, arith}
use grinbox.Stomp.Connection.{round_half_even, f32_of_u32, with_grace}

round_half_even_error :
    (half n : ℕ)
    → 0 < half
    → (n ≤ round_half_even half n + half) × (round_half_even half n ≤ n + half)
unfolding round_half_even
round_half_even_error half n h = grind arith

f32_of_u32_error : (n : ℕ) → (n ≤ f32_of_u32 n + 128) × (f32_of_u32 n ≤ n + 128)
unfolding f32_of_u32
f32_of_u32_error n = ground (
  arith,
  round_half_even_error 1 n (omega arith),
  round_half_even_error 2 n (omega arith),
  round_half_even_error 4 n (omega arith),
  round_half_even_error 8 n (omega arith),
  round_half_even_error 16 n (omega arith),
  round_half_even_error 32 n (omega arith),
  round_half_even_error 64 n (omega arith),
  round_half_even_error 128 n (omega arith),
)

-- For intervals of up to 2^24 ms, the grace interval computed through f32 is exactly twice as long.
pub with_grace_exact : (ms : ℕ) → ms ≤ 2 ^ 24 → with_grace ms ≡ 2 * ms
unfolding with_grace f32_of_u32 round_half_even
with_grace_exact ms small = ground arith

-- For every interval, the grace interval is off by at most 256 ms from twice as long, or from the
-- largest u32, and it is a u32.
pub with_grace_bounds :
    (ms : ℕ)
    → (min (2 * ms) (2 ^ 32 - 1) ≤ with_grace ms + 256)
      × (with_grace ms ≤ 2 * ms + 256)
      × (with_grace ms < 2 ^ 32)
unfolding with_grace
with_grace_bounds ms =
    (omega (arith, f32_of_u32_error ms), omega (arith, f32_of_u32_error ms), omega arith)
