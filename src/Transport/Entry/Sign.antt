-- ===== src/Transport/Entry/Sign.antt =====
-- A packet that `MakeD2CPacketImpl` makes passes the tests of the receiving side.
use extraction_server.Prelude.{
  ℕ, ◌+◌, ◌%◌, ◌≤◌, ◌<◌, ◌^◌, ◌≡◌, refl, ap, if◌then◌else◌, Bool, true, false, List, ◌++◌, length,
  length-append, arith,
}
use extraction_server.Prelude.Words.{add16, add32}
use extraction_server.Transport.Packet.{UdpHeader, header_size, write_le, encode, decode, bits_of}
use extraction_server.Transport.Packet.Bytes.{
  IsSized, decode-encode, number_of-bound, bits_of-number_of,
}
use extraction_server.Transport.Entry.{
  Endpoint, unsigned, make_header, make_d2c_packet, has_reliable,
}

-- The session's numbers fit their types, and its bit field has 32 bits.
pub record IsReady (e : Endpoint) : Type 0 where
  pub width : length e.window.bitfield ≡ 32
  pub highest32 : e.window.highest < 2 ^ 32
  pub timestamp32 : e.clock.last_recv_timestamp < 2 ^ 32

make_header-IsSized :
    (packet_id : ℕ) (reliable : Bool) (now_ms signature : ℕ) (e : Endpoint)
    → packet_id < 2 ^ 16
    → now_ms < 2 ^ 32
    → signature < 2 ^ 64
    → IsReady e
    → IsSized (record (make_header packet_id reliable now_ms e) { signature = signature })
unfolding make_header
make_header-IsSized packet_id true now_ms signature e p n s r = record {
  signature64 = s;
  packet_id16 = p;
  session_id16 = omega arith;
  r_seq32 = omega arith;
  u_seq16 = omega arith;
  flags8 = omega arith;
  ack32 = r.highest32;
  bits32 = number_of-bound e.window.bitfield r.width;
  timestamp32 = n;
  echo32 = r.timestamp32;
}
make_header-IsSized packet_id false now_ms signature e p n s r = record {
  signature64 = s;
  packet_id16 = p;
  session_id16 = omega arith;
  r_seq32 = omega arith;
  u_seq16 = omega arith;
  flags8 = omega arith;
  ack32 = r.highest32;
  bits32 = number_of-bound e.window.bitfield r.width;
  timestamp32 = n;
  echo32 = r.timestamp32;
}

-- The hash does not depend on what stands in the place of the signature.
unsigned-encode :
    (h : UdpHeader) (payload : List ℕ)
    → unsigned (encode h ++ payload) ≡ encode (record h { signature = 0 }) ++ payload
unfolding encode write_le
unsigned-encode h payload = refl

length-encode : (h : UdpHeader) → length (encode h) ≡ header_size
unfolding encode write_le
length-encode h = refl

-- Any packet that the server makes for a session, whatever its id, channel and payload, is read back
-- by the receiving side field by field: the payload, the packet id, the session id in 16 bits, the next
-- number of its channel and 0 for the other one, the channel, the two timestamps, and as its acks
-- exactly the receive window of the session. It is long enough and verifies under the same key. The
-- session goes on counting from the number that the packet took, in that channel alone. The id and the
-- time fit their fields, the hash has 64 bits, and the session's numbers fit their types.
pub make_d2c_packet-decode :
    (hash : List ℕ → ℕ → ℕ) (packet_id : ℕ) (reliable : Bool) (payload : List ℕ) (now_ms : ℕ)
    (e : Endpoint)
    → packet_id < 2 ^ 16
    → now_ms < 2 ^ 32
    → ((bs : List ℕ) (key : ℕ) → hash bs key < 2 ^ 64)
    → IsReady e
    → let (bs, e') = make_d2c_packet hash packet_id reliable payload now_ms e in
      ((decode bs).1 ≡ payload)
      × (header_size ≤ length bs)
      × (hash (unsigned bs) e.security_key ≡ (decode bs).0.signature)
      × ((decode bs).0.packet_id ≡ packet_id)
      × ((decode bs).0.session_id ≡ e.session_id % 2 ^ 16)
      × ((decode bs).0.r_seq_num ≡ (if reliable then add32 e.send_r_seq 1 else 0))
      × ((decode bs).0.u_seq_num ≡ (if reliable then 0 else add16 e.send_u_seq 1))
      × ((decode bs).0.timestamp ≡ now_ms)
      × ((decode bs).0.timestamp_echo ≡ e.clock.last_recv_timestamp)
      × (has_reliable (decode bs).0.flags ≡ reliable)
      × ((decode bs).0.ack_r_seq_num ≡ e.window.highest)
      × (bits_of 32 (decode bs).0.ack_bitfield ≡ e.window.bitfield)
      × (e'.send_r_seq ≡ (if reliable then add32 e.send_r_seq 1 else e.send_r_seq))
      × (e'.send_u_seq ≡ (if reliable then e.send_u_seq else add16 e.send_u_seq 1))
unfolding make_d2c_packet make_header
make_d2c_packet-decode hash packet_id reliable payload now_ms e p n small r =
    let h = make_header packet_id reliable now_ms e in
    let signature = hash (encode h ++ payload) e.security_key in
    let h' = record h { signature = signature } in
    let back =
      decode-encode h' payload
        (make_header-IsSized packet_id reliable now_ms signature e p n (small _ _) r) in
    rw back (
      (
        refl,
        omega (arith, length-append (encode h') payload, length-encode h'),
        ap (λ bs. hash bs e.security_key) (unsigned-encode h' payload),
        refl,
        refl,
        refl,
        refl,
        refl,
        refl,
        flags_kept reliable,
        refl,
        rw r.width at (bits_of-number_of e.window.bitfield),
        next_r reliable,
        next_u reliable,
      ))
  where
    flags_kept : (b : Bool) → has_reliable ((if b then 2 else 0) + 1) ≡ b
    flags_kept true = refl
    flags_kept false = refl

    next_r :
        (b : Bool)
        → (make_d2c_packet hash packet_id b payload now_ms e).1.send_r_seq
          ≡ (if b then add32 e.send_r_seq 1 else e.send_r_seq)
    next_r true = refl
    next_r false = refl

    next_u :
        (b : Bool)
        → (make_d2c_packet hash packet_id b payload now_ms e).1.send_u_seq
          ≡ (if b then e.send_u_seq else add16 e.send_u_seq 1)
    next_u true = refl
    next_u false = refl
