-- ===== src/Transport/Pending.antt =====
-- The reliable packets that wait for an ack: `RegisterReliable`, `ProcessIncomingAck`,
-- `GetRetransmitCandidates`, `ClearPendingReliableExcept` and the resend of `CheckRetransmits`.
-- `ReleaseThis` returns a packet's memory; here a released packet is one that is no longer in the map.
pub mod Ack
pub mod Loss
pub mod Resend
use extraction_server.Prelude.{
  ℕ, ◌+◌, ◌*◌, ◌/◌, leb, ltb, ◌==◌, if◌then◌else◌, Bool, true, false, not, ◌&&◌, Option, none, some,
  List, [], ◌∷◌, min, max, keep_if, map, lookup, erase, emplace,
}
use extraction_server.Prelude.Words.{Bits, all_clear, add32, sub32, mul32}

-- The subclasses of `PendingPacket`, by their buffer.
pub data PacketClass : Type 0 where
  packet256 packet512 packet1024 unlimited : PacketClass

-- `sockaddr_in`: the address and the port.
pub record Address : Type 0 where
  pub ip : ℕ
  pub port : ℕ

pub record PendingPacket : Type 0 where
  pub class : PacketClass
  pub seq_num : ℕ
  pub alloc_size : ℕ
  pub dest_addr : Address
  pub sent_at_ms : ℕ
  pub bytes : List ℕ

-- `_pendingReliable`
abbrev pub PendingMap : Type 0
PendingMap = List (ℕ × PendingPacket)

unfoldable pub packet_class : ℕ → PacketClass
packet_class size =
    if leb size 256
    then packet256
    else if leb size 512
    then packet512
    else if leb size 1024
    then packet1024
    else unlimited

-- The bytes that a packet of a class made for `size` can hold.
unfoldable pub capacity : PacketClass → ℕ → ℕ
capacity packet256 size = 256
capacity packet512 size = 512
capacity packet1024 size = 1024
capacity unlimited size = size

-- The packet that `RegisterReliable` fills in.
unfoldable pub make_pending : ℕ → List ℕ → ℕ → Address → ℕ → PendingPacket
make_pending seq buf size dest now = record {
  class = packet_class size;
  seq_num = seq;
  alloc_size = size;
  dest_addr = dest;
  sent_at_ms = now;
  bytes = buf;
}

-- `RegisterReliable`; the log line at 34 packets in flight is left out.
unfoldable pub register_reliable : ℕ → List ℕ → ℕ → Address → ℕ → PendingMap → PendingMap
register_reliable seq buf size dest now p = emplace seq (make_pending seq buf size dest now) p

abbrev pub is_empty : PendingMap → Bool
is_empty [] = true
is_empty (x ∷ p) = false

-- The loop of `ProcessIncomingAck` from round `i` on, over the bits that are left; it ends early
-- when no bit is left, and when no packet is.
unfoldable pub ack_bits : ℕ → ℕ → Bits → PendingMap → PendingMap
ack_bits ack i [] p = p
ack_bits ack i (b ∷ bits) p =
    let released = (if b then erase (sub32 ack (i + 1)) p else p) in
    let rest = ack_bits ack (i + 1) bits released in
    if all_clear (b ∷ bits) then p else if b && is_empty released then released else rest

-- `ProcessIncomingAck`
unfoldable pub process_incoming_ack : ℕ → Bits → PendingMap → PendingMap
process_incoming_ack ack bits p =
    let released = erase ack p in
    if is_empty released
    then released
    else if all_clear bits
    then released
    else ack_bits ack 0 bits released

-- The retransmission timeout of `GetRetransmitCandidates`: one and a half times the round trip,
-- between 50 and 1000 ms.
unfoldable pub retransmit_timeout : ℕ → ℕ
retransmit_timeout rtt_ms = min (max (mul32 rtt_ms 3 / 2) 50) 1000

unfoldable pub is_candidate : ℕ → ℕ → PendingPacket → Bool
unfolding retransmit_timeout
is_candidate rtt_ms now pending = leb (retransmit_timeout rtt_ms) (sub32 now pending.sent_at_ms)

-- `GetRetransmitCandidates`
unfoldable pub get_retransmit_candidates : ℕ → ℕ → PendingMap → PendingMap
get_retransmit_candidates rtt_ms now = keep_if (λ e. is_candidate rtt_ms now e.1)

-- The loop of `CheckRetransmits` over one session: each candidate goes out again and is stamped
-- with the time. `IORing` always finds a buffer here.
unfoldable pub resend : ℕ → ℕ → PendingMap → PendingMap
resend rtt_ms now [] = []
resend rtt_ms now ((seq, pending) ∷ p) =
    (seq, if is_candidate rtt_ms now pending then record pending { sent_at_ms = now } else pending)
    ∷ resend rtt_ms now p

-- `ClearPendingReliableExcept`
unfoldable pub clear_pending_except : ℕ → PendingMap → PendingMap
clear_pending_except keep = keep_if (λ e. e.0 == keep && not (keep == 0))

-- `IsReliablePending`
unfoldable pub is_reliable_pending : ℕ → PendingMap → Bool
is_reliable_pending seq p = elim (lookup seq p) [ none ↦ false | some x ↦ true ]
