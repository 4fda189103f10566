-- ===== src/Transport/Pending/Resend.antt =====
-- Registration, retransmission and the clearing of a leaving session's packets.
use extraction_server.Prelude.{
  ℕ, ◌^◌, ◌≤◌, ◌<◌, ◌≡◌, refl, ◌==◌, if◌then◌else◌, false, Bool-cases, not, ◌&&◌, none, some, List,
  [], ◌∷◌, arith, lookup, lookup-emplace,
}
use extraction_server.Transport.Pending.{
  PendingMap, PendingPacket, Address, packet_class, capacity, make_pending, register_reliable,
  retransmit_timeout, is_candidate, get_retransmit_candidates, resend, clear_pending_except,
  is_reliable_pending,
}

packet_fits : (size : ℕ) → size ≤ capacity (packet_class size) size
unfolding capacity packet_class
packet_fits size = ground arith

-- The packets and their numbers, without the stamps.
abbrev pub unstamped : PendingMap → PendingMap
unstamped [] = []
unstamped ((seq, x) ∷ p) = (seq, record x { sent_at_ms = 0 }) ∷ unstamped p

-- The copy of `RegisterReliable` fits the buffer of the class that the size chooses; the packet
-- then waits under its number, unless that number already waits, and no other entry changes.
pub register_reliable_lem :
    (seq size now : ℕ) (buf : List ℕ) (dest : Address) (p : PendingMap)
    → (size ≤ capacity (packet_class size) size)
      × ((s : ℕ)
          → lookup s (register_reliable seq buf size dest now p) ≡ (
              if s == seq && not (is_reliable_pending seq p)
              then some (make_pending seq buf size dest now)
              else lookup s p))
unfolding register_reliable is_reliable_pending
register_reliable_lem seq size now buf dest p = (
  packet_fits size,
  λ s. ground (arith, lookup-emplace seq s (make_pending seq buf size dest now) p),
)

-- The retransmission timeout lies between 50 and 1000 ms, whatever the round trip.
pub retransmit_timeout_bounds :
    (rtt : ℕ) → (50 ≤ retransmit_timeout rtt) × (retransmit_timeout rtt ≤ 1000)
unfolding retransmit_timeout
retransmit_timeout_bounds rtt = omega arith

candidate_after_resend :
    (rtt now : ℕ) (x : PendingPacket)
    → now < 2 ^ 32
    → is_candidate rtt now (if is_candidate rtt now x then record x { sent_at_ms = now } else x)
      ≡ false
unfolding is_candidate
candidate_after_resend rtt now x h = ground (arith, retransmit_timeout_bounds rtt)

-- One round of resending sends every packet whose timeout has passed and stamps it, so that at the
-- same time nothing is a candidate any more; it neither adds, drops nor reorders a packet, and
-- changes nothing but the stamp.
pub resend_round :
    (rtt now : ℕ) (p : PendingMap)
    → now < 2 ^ 32
    → (get_retransmit_candidates rtt now (resend rtt now p) ≡ [])
      × (unstamped (resend rtt now p) ≡ unstamped p)
unfolding get_retransmit_candidates resend
resend_round rtt now [] h = (refl, refl)
resend_round rtt now ((seq, x) ∷ p) h = (
  ground (arith, candidate_after_resend rtt now x h, (resend_round rtt now p h).0),
  ground (arith, Bool-cases (is_candidate rtt now x), (resend_round rtt now p h).1),
)

-- `ClearPendingReliableExcept` keeps the packet of the given number, if that is not 0, and no other.
pub lookup-clear_pending_except :
    (keep s : ℕ) (p : PendingMap)
    → lookup s (clear_pending_except keep p)
      ≡ (if s == keep && not (keep == 0) then lookup s p else none)
unfolding clear_pending_except lookup
lookup-clear_pending_except keep s [] = ground arith
lookup-clear_pending_except keep s ((j, x) ∷ p) =
    ground (arith, lookup-clear_pending_except keep s p)
