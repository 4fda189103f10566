-- ===== src/Transport/Entry.antt =====
-- How packets enter and leave the process: `HandleClientPacket` and `MakeD2CPacketImpl` of
-- src/DedicateProcess/ClientPacketHandler.h. The hash (XXH64 of the packet and the key) is a
-- parameter, and so is the payload, which protobuf makes and reads.
pub mod Safe
pub mod Sign
use extraction_server.Prelude.{
  ℕ, ◌+◌, ◌/◌, ◌%◌, ◌^◌, ltb, leb, ◌==◌, if◌then◌else◌, Bool, true, false, not, Option, none, some,
  List, [], ◌∷◌, ◌++◌, length, get_or, set, replicate, zero, suc,
}
use extraction_server.Prelude.Words.{Bits, add32, add16}
use extraction_server.Transport.Window.{RecvWindow, URecv, update_r_recv_state, update_u_recv_state}
use extraction_server.Transport.Pending.{
  Address, PendingMap, register_reliable, process_incoming_ack,
}
use extraction_server.Transport.Clock.{Clock, update_rtt, set_last_recv_timestamp}
use extraction_server.Transport.Packet.{
  UdpHeader, header_size, flag_has_ack, flag_reliable, encode, decode, number_of, bits_of,
}
use extraction_server.Transport.Requests.{pkt_id_max}

-- The fields of `PlayerSession` that the reliable layer reads and writes.
pub record Endpoint : Type 0 where
  pub session_id : ℕ
  pub security_key : ℕ
  pub client_addr : Address
  pub send_r_seq : ℕ
  pub send_u_seq : ℕ
  pub window : RecvWindow
  pub u_recv : URecv
  pub pending : PendingMap
  pub clock : Clock

-- `_players`, with `none` for nullptr
abbrev pub Players : Type 0
Players = List (Option Endpoint)

-- `GetPlayerSession`: the id is an `int16_t` there, so that one from 2^15 on is negative, and out of
-- range as a `size_t`.
unfoldable pub get_player_session : ℕ → Players → Option Endpoint
get_player_session id ps = if leb (2 ^ 15) id then none else get_or ps id none

abbrev pub drop : ℕ → List ℕ → List ℕ
drop zero bs = bs
drop (suc n) [] = []
drop (suc n) (b ∷ bs) = drop n bs

-- The packet as it is hashed: with 0 in the place of the signature.
abbrev pub unsigned : List ℕ → List ℕ
unsigned bs = replicate 8 0 ++ drop 8 bs

-- What becomes of a packet: it is dropped, or its payload goes to the handler of its id.
pub data Verdict : Type 0 where
  dropped : Verdict
  dispatched : ℕ → List ℕ → Verdict

-- `flags & FLAG_RELIABLE`
abbrev pub has_reliable : ℕ → Bool
has_reliable flags = (flags / flag_reliable) % 2 == 1

-- The test of the sequence number, by its channel.
unfoldable pub take_seq : UdpHeader → Endpoint → Bool × Endpoint
take_seq h e =
    if has_reliable h.flags
    then (let (new, w) = update_r_recv_state e.window h.r_seq_num in (new, record e { window = w }))
    else (let (new, u) = update_u_recv_state e.u_recv h.u_seq_num in (new, record e { u_recv = u }))

-- What follows once the packet is taken: acks, the clock of the client, and the round trip.
unfoldable pub take_header : ℕ → UdpHeader → Endpoint → Endpoint
take_header now_ms h e =
    let seen =
      (if h.timestamp == 0 then e.clock else set_last_recv_timestamp e.clock h.timestamp) in
    record e {
      pending = process_incoming_ack h.ack_r_seq_num (bits_of 32 h.ack_bitfield) e.pending;
      clock = if h.timestamp_echo == 0 then seen else update_rtt seen h.timestamp_echo now_ms;
    }

-- `HandleClientPacket` for a session that was found.
unfoldable pub handle_for :
    (List ℕ → ℕ → ℕ) → ℕ → List ℕ → UdpHeader → List ℕ → Endpoint → Verdict × Endpoint
unfolding take_seq take_header
handle_for hash now_ms bs h payload e =
    if not (hash (unsigned bs) e.security_key == h.signature)
    then (dropped, e)
    else let (new, e') = take_seq h e in
      if not new then (dropped, e') else (dispatched h.packet_id payload, take_header now_ms h e')

handle_found :
    (List ℕ → ℕ → ℕ)
    → ℕ
    → List ℕ
    → UdpHeader
    → List ℕ
    → Option Endpoint
    → Players
    → Verdict × Players
unfolding handle_for
handle_found hash now_ms bs h payload none ps = (dropped, ps)
handle_found hash now_ms bs h payload (some e) ps =
    let (v, e') = handle_for hash now_ms bs h payload e in (v, set ps h.session_id (some e'))

-- `HandleClientPacket`, up to the call of the handler.
unfoldable pub handle_client_packet : (List ℕ → ℕ → ℕ) → ℕ → List ℕ → Players → Verdict × Players
unfolding handle_found get_player_session
handle_client_packet hash now_ms bs ps =
    if ltb (length bs) header_size
    then (dropped, ps)
    else let (h, payload) = decode bs in
      if leb pkt_id_max h.packet_id
      then (dropped, ps)
      else handle_found hash now_ms bs h payload (get_player_session h.session_id ps) ps

-- The header of `MakeD2CPacketImpl`, before the signature.
unfoldable pub make_header : ℕ → Bool → ℕ → Endpoint → UdpHeader
make_header packet_id reliable now_ms e = record {
  signature = 0;
  packet_id = packet_id;
  session_id = e.session_id % 2 ^ 16;
  r_seq_num = if reliable then add32 e.send_r_seq 1 else 0;
  u_seq_num = if reliable then 0 else add16 e.send_u_seq 1;
  flags = (if reliable then flag_reliable else 0) + flag_has_ack;
  ack_r_seq_num = e.window.highest;
  ack_bitfield = number_of e.window.bitfield;
  timestamp = now_ms;
  timestamp_echo = e.clock.last_recv_timestamp;
}

-- `MakeD2CPacketImpl`: the packet, and the session after it. `OpenSendBuffer` always finds a buffer
-- here.
unfoldable pub make_d2c_packet :
    (List ℕ → ℕ → ℕ) → ℕ → Bool → List ℕ → ℕ → Endpoint → List ℕ × Endpoint
unfolding make_header
make_d2c_packet hash packet_id reliable payload now_ms e =
    let h = make_header packet_id reliable now_ms e in
    let signature = hash (encode h ++ payload) e.security_key in
    let packet = encode (record h { signature = signature }) ++ payload in
    (
      packet,
      if reliable
          then record e {
            send_r_seq = h.r_seq_num;
            pending =
                register_reliable h.r_seq_num packet (length packet) e.client_addr now_ms e.pending;
          }
          else record e { send_u_seq = h.u_seq_num },
    )
