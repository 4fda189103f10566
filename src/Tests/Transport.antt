-- ===== src/Tests/Transport.antt =====
-- The reliable layer at concrete inputs.
use extraction_server.Prelude.{
  ℕ, zero, suc, ◌+◌, ◌%◌, ◌^◌, ◌<◌, ◌≤◌, some, length, get_or, Bool, ap, ◌≡◌, refl, true, false,
  none, List, [], ◌∷◌, if◌then◌else◌, arith, lookup,
}
use extraction_server.Prelude.Words.{zero_bits, set_bit, shl}
use extraction_server.Transport.Window.{
  RecvWindow, fresh_window, update_r_recv_state, receive_all, URecv,
}
use extraction_server.Transport.Window.Exact.{first-IsExact}
use extraction_server.Transport.Window.Delivery.{
  NoJumps, Distinct, receive_all-Distinct, new_taken, replay_after_jump,
}
use extraction_server.Transport.Pending.{PendingMap, Address, make_pending, process_incoming_ack}
use extraction_server.Transport.Pending.Ack.{named, lookup-process_incoming_ack}
use extraction_server.Transport.Pending.Loss.{ack_releases, ack_keeps}
use extraction_server.Transport.Packet.{
  header_size, encode, write_le, read_le, number_of, decode, bits_of,
}
use extraction_server.Transport.Requests.{
  Request, reply_heart_beat, request_id, reply_id, handler_at, pkt_id_max,
}
use extraction_server.Transport.Requests.Table.{handler_at_lem}
use extraction_server.Transport.Entry.{
  Endpoint, Players, get_player_session, Verdict, dropped, dispatched, unsigned, has_reliable,
  handle_client_packet, make_d2c_packet,
}
use extraction_server.Transport.Entry.Safe.{IsGenuine, dropped_unchanged, dispatched-IsGenuine}
use extraction_server.Transport.Entry.Sign.{IsReady, make_d2c_packet-decode}
use extraction_server.Transport.Clock.{Clock}

-- A repeat, a gap and a late packet.
abbrev arrivals : List ℕ
arrivals = 5 ∷ 5 ∷ 8 ∷ 6 ∷ []

arrivals-NoJumps : NoJumps (fresh_window, []) arrivals
unfolding update_r_recv_state
arrivals-NoJumps =
    (λ h. ground arith, (λ h. ground arith, (λ h. ground arith, (λ h. ground arith, tt))))

receive_all-Distinct_example : Distinct (receive_all (fresh_window, []) arrivals).1
receive_all-Distinct_example = receive_all-Distinct arrivals arrivals-NoJumps

new_taken_example : (update_r_recv_state (receive_all (fresh_window, []) arrivals).0 7).0 ≡ true
unfolding receive_all update_r_recv_state shl
new_taken_example =
    new_taken arrivals 7 arrivals-NoJumps refl (λ h. ground arith) refl (omega arith)

replay_after_jump_example :
    (update_r_recv_state (update_r_recv_state (update_r_recv_state fresh_window 5).1 37).1 5).0
    ≡ true
unfolding update_r_recv_state
replay_after_jump_example = replay_after_jump (update_r_recv_state fresh_window 5).1 refl

abbrev last_heard : URecv
last_heard = record { has_recv = true; highest = 65535 }

abbrev home : Address
home = record { ip = 2130706433; port = 7777 }

abbrev waiting : PendingMap
waiting =
    (7, make_pending 7 (1 ∷ []) 1 home 100)
    ∷ (6, make_pending 6 (2 ∷ []) 1 home 1000)
    ∷ (3, make_pending 3 (9 ∷ []) 1 home 1000)
    ∷ []

lookup-process_incoming_ack_example :
    lookup 6 (process_incoming_ack 7 (set_bit zero_bits 0) waiting)
    ≡ (if named 7 (set_bit zero_bits 0) 6 then none else lookup 6 waiting)
lookup-process_incoming_ack_example = lookup-process_incoming_ack 7 (set_bit zero_bits 0) waiting 6

-- The receiver has taken packet 7 alone.
abbrev seven : RecvWindow
seven = record { has_recv = true; highest = 7; bitfield = zero_bits }

ack_releases_example : lookup 7 (process_incoming_ack 7 zero_bits waiting) ≡ none
unfolding update_r_recv_state
ack_releases_example =
    ack_releases (first-IsExact fresh_window 7 refl).1 (omega arith) waiting 7 refl (omega arith)

ack_keeps_example : lookup 6 (process_incoming_ack 7 zero_bits waiting) ≡ lookup 6 waiting
unfolding update_r_recv_state
ack_keeps_example = ack_keeps (first-IsExact fresh_window 7 refl).1 (omega arith) waiting 6 refl

abbrev clock : Clock
clock = record { rtt_ms = 100; last_echo_ts = 5000; last_recv_timestamp = 0 }

-- A hash that adds up the bytes and the key.
abbrev weak_hash : List ℕ → ℕ → ℕ
weak_hash [] key = key % 2 ^ 64
weak_hash (b ∷ bs) key = (b + weak_hash bs key) % 2 ^ 64

weak_hash64 : (bs : List ℕ) (key : ℕ) → weak_hash bs key < 2 ^ 64
weak_hash64 [] key = omega arith
weak_hash64 (b ∷ bs) key = omega arith

abbrev endpoint : Endpoint
endpoint = record {
  session_id = 1;
  security_key = 77;
  client_addr = home;
  send_r_seq = 4;
  send_u_seq = 9;
  window = seven;
  u_recv = last_heard;
  pending = [];
  clock = clock;
}

-- Only the second session exists.
abbrev players : Players
players = none ∷ some endpoint ∷ []

endpoint-IsReady : IsReady endpoint
endpoint-IsReady = record { width = refl; highest32 = omega arith; timestamp32 = omega arith }

make_d2c_packet-decode_example :
    let (bs, e') = make_d2c_packet weak_hash 2 true (1 ∷ 2 ∷ []) 5000 endpoint in
    ((decode bs).1 ≡ (1 ∷ 2 ∷ []))
    × (header_size ≤ length bs)
    × (weak_hash (unsigned bs) 77 ≡ (decode bs).0.signature)
    × ((decode bs).0.packet_id ≡ 2)
    × ((decode bs).0.session_id ≡ 1)
    × ((decode bs).0.r_seq_num ≡ 5)
    × ((decode bs).0.u_seq_num ≡ 0)
    × ((decode bs).0.timestamp ≡ 5000)
    × ((decode bs).0.timestamp_echo ≡ 0)
    × (has_reliable (decode bs).0.flags ≡ true)
    × ((decode bs).0.ack_r_seq_num ≡ 7)
    × (bits_of 32 (decode bs).0.ack_bitfield ≡ zero_bits)
    × (e'.send_r_seq ≡ 5)
    × (e'.send_u_seq ≡ 9)
make_d2c_packet-decode_example =
    make_d2c_packet-decode weak_hash 2 true (1 ∷ 2 ∷ []) 5000 endpoint (omega arith) (omega arith)
      weak_hash64 endpoint-IsReady

-- A heartbeat of the second session with the right signature.
abbrev heartbeat : List ℕ
heartbeat = (make_d2c_packet weak_hash 2 true [] 5000 endpoint).0

dropped_unchanged_example : (handle_client_packet weak_hash 6000 (1 ∷ 2 ∷ []) players).1 ≡ players
unfolding handle_client_packet
dropped_unchanged_example = dropped_unchanged weak_hash 6000 (1 ∷ 2 ∷ []) players refl

abbrev is_dropped : Verdict → Bool
is_dropped dropped = true
is_dropped (dispatched id payload) = false

heartbeat_dispatched : is_dropped (handle_client_packet weak_hash 6000 heartbeat players).0 ≡ false
unfolding handle_client_packet make_d2c_packet encode write_le decode read_le number_of
    update_r_recv_state
heartbeat_dispatched = refl

heartbeat_session : (decode heartbeat).0.session_id ≡ 1
unfolding decode read_le make_d2c_packet encode write_le
heartbeat_session = refl

players_width :
    (i : ℕ) (e : Endpoint) → get_player_session i players ≡ some e → length e.window.bitfield ≡ 32
unfolding get_player_session
players_width zero e h = cc
players_width (suc zero) e h =
    let there : some endpoint ≡ some e = h in let same : endpoint ≡ e = cc in rw (← same) refl
players_width (suc (suc i)) e h = ground (arith, h)

dispatched-IsGenuine_example :
    IsGenuine weak_hash heartbeat players
    × (get_or (handle_client_packet weak_hash 6000 heartbeat players).1 0 none
        ≡ get_or players 0 none)
    × ((handle_client_packet weak_hash 6010 heartbeat
          (handle_client_packet weak_hash 6000 heartbeat players).1).0
        ≡ dropped)
dispatched-IsGenuine_example =
    dispatched-IsGenuine weak_hash 6000 6010 heartbeat players 0 players_width
      (λ e. ground (arith, heartbeat_dispatched, ap is_dropped e))
      (λ e. omega (arith, e, heartbeat_session))

handler_at_lem_example :
    (handler_at (request_id Request.heart_beat) ≡ some Request.heart_beat)
    × (2 ≡ request_id Request.heart_beat)
    × (request_id Request.heart_beat < pkt_id_max)
    × (handler_at (reply_id reply_heart_beat) ≡ none)
unfolding handler_at
handler_at_lem_example =
    handler_at_lem 2 Request.heart_beat Request.heart_beat reply_heart_beat refl
