-- ===== src/Transport/Window.antt =====
-- The receive state of both channels: `UpdateRRecvState` and `UpdateURecvState`.
pub mod Exact
pub mod Delivery
pub mod Unreliable
use extraction_server.Prelude.{
  ℕ, ◌-◌, ltb, leb, ◌==◌, if◌then◌else◌, Bool, true, false, List, [], ◌∷◌,
}
use extraction_server.Prelude.Words.{Bits, zero_bits, test_bit, set_bit, shl, not_after16}

-- `_rRecvHighestSeq`, `_rRecvBitfield` and `_hasRRecv`; bit i of the bit field stands for the
-- sequence number `highest - 1 - i`.
pub record RecvWindow : Type 0 where
  pub highest : ℕ
  pub bitfield : Bits
  pub has_recv : Bool

-- The state of a new session.
abbrev pub fresh_window : RecvWindow
fresh_window = record { highest = 0; bitfield = zero_bits; has_recv = false }

-- A number above the highest: `diff < 32` shifts the history and marks the old highest.
slide : RecvWindow → ℕ → RecvWindow
slide w seq =
    let diff = seq - w.highest in
    if leb 32 diff
    then record w { highest = seq; bitfield = zero_bits }
    else record w { highest = seq; bitfield = set_bit (shl w.bitfield diff) (diff - 1) }

-- A number below the highest: taken once, if it is at most 32 behind.
fill : RecvWindow → ℕ → Bool × RecvWindow
fill w seq =
    let diff = w.highest - seq in
    if ltb 32 diff
    then (false, w)
    else if test_bit w.bitfield (diff - 1)
    then (false, w)
    else (true, record w { bitfield = set_bit w.bitfield (diff - 1) })

-- `UpdateRRecvState`: whether the packet is new, and the state after it. Every subtraction of the
-- source stands under a test that keeps it from wrapping.
unfoldable pub update_r_recv_state : RecvWindow → ℕ → Bool × RecvWindow
unfolding slide fill
update_r_recv_state w seq =
    if w.has_recv
    then (if ltb w.highest seq
        then (true, slide w seq)
        else if seq == w.highest
        then (false, w)
        else fill w seq)
    else (true, record { highest = seq; bitfield = zero_bits; has_recv = true })

-- What a session does with the numbers that arrive: those it takes, the latest first.
abbrev pub receive : RecvWindow × List ℕ → ℕ → RecvWindow × List ℕ
receive (w, taken) seq =
    let (new, w') = update_r_recv_state w seq in (w', if new then seq ∷ taken else taken)

unfoldable pub receive_all : RecvWindow × List ℕ → List ℕ → RecvWindow × List ℕ
receive_all s [] = s
receive_all s (seq ∷ seqs) = receive_all (receive s seq) seqs

-- `_uRecvHighestSeq` and `_hasURecv`
pub record URecv : Type 0 where
  pub highest : ℕ
  pub has_recv : Bool

-- `UpdateURecvState`: only a number that is later, modulo 2^16, is taken.
unfoldable pub update_u_recv_state : URecv → ℕ → Bool × URecv
update_u_recv_state u seq =
    if u.has_recv
    then (if not_after16 seq u.highest then (false, u) else (true, record u { highest = seq }))
    else (true, record { highest = seq; has_recv = true })
