-- ===== src/Transport/Window/Unreliable.antt =====
-- The order of the numbers of the unreliable channel, modulo 2^16.
use extraction_server.Prelude.{ℕ, ◌^◌, ◌≤◌, ◌<◌, ◌≡◌, true, false, arith}
use extraction_server.Prelude.Words.{add16, sub16}
use extraction_server.Transport.Window.{URecv, update_u_recv_state}

-- Once a session has a highest number, a number from 1 to 2^15 - 1 ahead of it, across the wrap
-- too, is taken and becomes the highest.
pub update_u_recv_state_ahead :
    (u : URecv) (k : ℕ)
    → u.has_recv ≡ true
    → u.highest < 2 ^ 16
    → 1 ≤ k
    → k < 2 ^ 15
    → update_u_recv_state u (add16 u.highest k) ≡ (true, record u { highest = add16 u.highest k })
unfolding update_u_recv_state
update_u_recv_state_ahead u k h b lo hi = ground arith

-- Once a session has a highest number, that number itself, and any up to 2^15 behind it, is refused
-- and leaves the state as it was.
pub update_u_recv_state_behind :
    (u : URecv) (k : ℕ)
    → u.has_recv ≡ true
    → u.highest < 2 ^ 16
    → k ≤ 2 ^ 15
    → update_u_recv_state u (sub16 u.highest k) ≡ (false, u)
unfolding update_u_recv_state
update_u_recv_state_behind u k h b hi = ground arith
