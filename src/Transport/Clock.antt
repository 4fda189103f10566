-- ===== src/Transport/Clock.antt =====
-- The clocks of a session: `UpdateRtt` and `SetLastRecvTimestamp`.
use extraction_server.Prelude.{
  ℕ, ◌/◌, ◌^◌, ◌≤◌, ◌<◌, ◌≡◌, ltb, ◌==◌, if◌then◌else◌, not, ◌&&◌, arith,
}
use extraction_server.Prelude.Words.{add32, sub32, mul32, not_after32}

-- `_rttMs`, `_lastEchoTs` and `_lastRecvTimestamp`
pub record Clock : Type 0 where
  pub rtt_ms : ℕ
  pub last_echo_ts : ℕ
  pub last_recv_timestamp : ℕ

-- The state of a new session.
abbrev pub fresh_clock : Clock
fresh_clock = record { rtt_ms = 100; last_echo_ts = 0; last_recv_timestamp = 0 }

-- The moving average with weight 1/8, and its floor of 20 ms.
smooth : ℕ → ℕ → ℕ
smooth old rtt = let next = add32 (mul32 old 7) rtt / 8 in if ltb next 20 then 20 else next

-- `UpdateRtt`: an echo that is not later than the last one is dropped.
unfoldable pub update_rtt : Clock → ℕ → ℕ → Clock
unfolding smooth
update_rtt c echo now =
    if echo == 0
    then c
    else if not (c.last_echo_ts == 0) && not_after32 echo c.last_echo_ts
    then c
    else record c { last_echo_ts = echo; rtt_ms = smooth c.rtt_ms (sub32 now echo) }

-- `SetLastRecvTimestamp`
unfoldable pub set_last_recv_timestamp : Clock → ℕ → Clock
set_last_recv_timestamp c ts =
    if not (c.last_recv_timestamp == 0) && not_after32 ts c.last_recv_timestamp
    then c
    else record c { last_recv_timestamp = ts }

-- If the round trip kept so far and the new sample both lie below a bound under 2^29, from 20 up,
-- then so does the new round trip, and it is at least 20 where the old one was: the average neither
-- overflows nor leaves the range of its samples.
pub update_rtt_bounds :
    (c : Clock) (echo now bound : ℕ)
    → 20 ≤ bound
    → bound < 2 ^ 29
    → sub32 now echo ≤ bound
    → 20 ≤ c.rtt_ms
    → c.rtt_ms ≤ bound
    → (20 ≤ (update_rtt c echo now).rtt_ms) × ((update_rtt c echo now).rtt_ms ≤ bound)
unfolding update_rtt
update_rtt_bounds c echo now bound lo hi sample old_lo old_hi = ground arith

-- Once an echo is known, an echo of the same time or of up to 2^31 ms before changes nothing.
pub update_rtt_stale :
    (c : Clock) (k now : ℕ)
    → 0 < c.last_echo_ts
    → c.last_echo_ts < 2 ^ 32
    → k ≤ 2 ^ 31
    → update_rtt c (sub32 c.last_echo_ts k) now ≡ c
unfolding update_rtt
update_rtt_stale c k now lo hi h = ground arith

-- Once an echo is known, one from 1 to 2^31 - 1 ms later, if it is not 0, becomes the last echo.
pub update_rtt_fresh :
    (c : Clock) (k now : ℕ)
    → 0 < c.last_echo_ts
    → c.last_echo_ts < 2 ^ 32
    → 1 ≤ k
    → k < 2 ^ 31
    → 0 < add32 c.last_echo_ts k
    → (update_rtt c (add32 c.last_echo_ts k) now).last_echo_ts ≡ add32 c.last_echo_ts k
unfolding update_rtt
update_rtt_fresh c k now lo hi h1 h2 h3 = ground arith
