-- ===== src/Stomp/Connection/Negotiation.antt =====
-- The heart-beat negotiation of src/broker/stomp/connection.rs against that of STOMP 1.2, in which
-- what one side can send is matched with what the other side wants to receive.
use grinbox.Prelude.{ℕ, ◌<◌, ◌≡◌, max, arith, if◌then◌else◌, ◌||◌, ◌==◌}
use grinbox.Stomp.Connection.{heartbeat, select_heartbeat}

-- The interval at which a side that can send every `tx` ms serves one that wants every `rx` ms.
abbrev pub agreed : ℕ → ℕ → ℕ
agreed tx rx = if (tx == 0) || (rx == 0) then 0 else max tx rx

-- The client's intervals for sending and for receiving.
abbrev pub negotiated : ℕ → ℕ → ℕ → ℕ → ℕ × ℕ
negotiated client_tx client_rx server_tx server_rx =
    (agreed client_tx server_rx, agreed server_tx client_rx)

-- With a client that sends and receives and a server that cannot send but wants to receive,
-- select_heartbeat agrees on receiving and not on sending, where STOMP 1.2 asks for sending and not
-- for receiving.
pub select_heartbeat_swapped :
    (client_tx client_rx server_rx : ℕ)
    → 0 < client_tx
    → 0 < client_rx
    → 0 < server_rx
    → (select_heartbeat client_tx client_rx 0 server_rx ≡ (0, max client_rx server_rx))
      × (negotiated client_tx client_rx 0 server_rx ≡ (max client_tx server_rx, 0))
unfolding select_heartbeat heartbeat
select_heartbeat_swapped client_tx client_rx server_rx a b c = grind arith
