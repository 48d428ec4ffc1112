-- ===== src/Stomp/Connection.antt =====
-- src/broker/stomp/connection.rs, and the conversion of an interval with the grace factor in
-- src/broker/stomp/session.rs.
pub mod Grace
pub mod Negotiation
use grinbox.Prelude.{ℕ, ◌+◌, ◌-◌, ◌*◌, ◌/◌, ◌%◌, ◌^◌, min, max, ◌||◌, ◌==◌, ltb, if◌then◌else◌}
use grinbox.Prelude.Text.{Text}

-- `OwnedCredentials`, and `Credentials`, from which it is copied
pub record Credentials : Type 0 where
  pub login : Text
  pub passcode : Text

unfoldable pub heartbeat : ℕ → ℕ → ℕ
heartbeat client_ms server_ms =
    if (client_ms == 0) || (server_ms == 0) then 0 else max client_ms server_ms

unfoldable pub select_heartbeat : ℕ → ℕ → ℕ → ℕ → ℕ × ℕ
unfolding heartbeat
select_heartbeat client_tx_ms client_rx_ms server_tx_ms server_rx_ms =
    (heartbeat client_tx_ms server_tx_ms, heartbeat client_rx_ms server_rx_ms)

-- `n` rounded to a multiple of `2 * half`, ties to the even multiple.
round_half_even : ℕ → ℕ → ℕ
round_half_even half n =
    let q = n / (2 * half) in
    let r = n % (2 * half) in
    if ltb r half
    then q * (2 * half)
    else if ltb half r
    then (q + 1) * (2 * half)
    else (q + q % 2) * (2 * half)

-- `n as f32` for a `u32`: the nearest number of 24 significant bits, which is whole.
pub f32_of_u32 : ℕ → ℕ
f32_of_u32 n =
    if ltb n (2 ^ 24)
    then n
    else if ltb n (2 ^ 25)
    then round_half_even 1 n
    else if ltb n (2 ^ 26)
    then round_half_even 2 n
    else if ltb n (2 ^ 27)
    then round_half_even 4 n
    else if ltb n (2 ^ 28)
    then round_half_even 8 n
    else if ltb n (2 ^ 29)
    then round_half_even 16 n
    else if ltb n (2 ^ 30)
    then round_half_even 32 n
    else if ltb n (2 ^ 31)
    then round_half_even 64 n
    else round_half_even 128 n

-- `(ms as f32 * GRACE_PERIOD_MULTIPLIER) as u32`: doubling is exact, and the cast saturates.
pub with_grace : ℕ → ℕ
with_grace ms = min (2 * f32_of_u32 ms) (2 ^ 32 - 1)
