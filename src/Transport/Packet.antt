-- ===== src/Transport/Packet.antt =====
-- `UDPHeader` of src/DedicateProcess/ClientPacketHandler.h as bytes: packed, without padding, every
-- field little-endian.
pub mod Bytes
use extraction_server.Prelude.{
  ℕ, ◌+◌, ◌*◌, ◌/◌, ◌%◌, ◌==◌, Bool, true, false, if◌then◌else◌, List, [], ◌∷◌, ◌++◌, zero, suc,
}
use extraction_server.Prelude.Words.{Bits}

pub record UdpHeader : Type 0 where
  pub signature : ℕ
  pub packet_id : ℕ
  pub session_id : ℕ
  pub r_seq_num : ℕ
  pub u_seq_num : ℕ
  pub flags : ℕ
  pub ack_r_seq_num : ℕ
  pub ack_bitfield : ℕ
  pub timestamp : ℕ
  pub timestamp_echo : ℕ

-- `sizeof(UDPHeader)`
abbrev pub header_size : ℕ
header_size = 35

abbrev pub flag_has_ack : ℕ
flag_has_ack = 1

abbrev pub flag_reliable : ℕ
flag_reliable = 2

-- The lowest bytes of a number, the lowest first.
unfoldable pub write_le : ℕ → ℕ → List ℕ
write_le zero x = []
write_le (suc n) x = x % 256 ∷ write_le n (x / 256)

add_byte : ℕ → ℕ × List ℕ → ℕ × List ℕ
add_byte b (x, rest) = (b + 256 * x, rest)

-- A number of so many bytes, and the bytes after it. Where bytes are missing they count as 0.
unfoldable pub read_le : ℕ → List ℕ → ℕ × List ℕ
unfolding add_byte
read_le zero bs = (0, bs)
read_le (suc n) [] = (0, [])
read_le (suc n) (b ∷ bs) = add_byte b (read_le n bs)

-- The header in memory.
unfoldable pub encode : UdpHeader → List ℕ
encode h =
    write_le 8 h.signature
    ++ (write_le 2 h.packet_id
        ++ (write_le 2 h.session_id
            ++ (write_le 4 h.r_seq_num
                ++ (write_le 2 h.u_seq_num
                    ++ (write_le 1 h.flags
                        ++ (write_le 4 h.ack_r_seq_num
                            ++ (write_le 4 h.ack_bitfield
                                ++ (write_le 4 h.timestamp ++ write_le 4 h.timestamp_echo))))))))

-- The header that the first bytes of a buffer are read as, and the payload after it.
unfoldable pub decode : List ℕ → UdpHeader × List ℕ
decode bs =
    let (signature, bs1) = read_le 8 bs in
    let (packet_id, bs2) = read_le 2 bs1 in
    let (session_id, bs3) = read_le 2 bs2 in
    let (r_seq_num, bs4) = read_le 4 bs3 in
    let (u_seq_num, bs5) = read_le 2 bs4 in
    let (flags, bs6) = read_le 1 bs5 in
    let (ack_r_seq_num, bs7) = read_le 4 bs6 in
    let (ack_bitfield, bs8) = read_le 4 bs7 in
    let (timestamp, bs9) = read_le 4 bs8 in
    let (timestamp_echo, bs10) = read_le 4 bs9 in
    (
      record {
        signature = signature;
        packet_id = packet_id;
        session_id = session_id;
        r_seq_num = r_seq_num;
        u_seq_num = u_seq_num;
        flags = flags;
        ack_r_seq_num = ack_r_seq_num;
        ack_bitfield = ack_bitfield;
        timestamp = timestamp;
        timestamp_echo = timestamp_echo;
      },
      bs10,
    )

-- A bit field as a number, and its bits.
unfoldable pub number_of : Bits → ℕ
number_of [] = 0
number_of (b ∷ bs) = (if b then 1 else 0) + 2 * number_of bs

unfoldable pub bits_of : ℕ → ℕ → Bits
bits_of zero x = []
bits_of (suc n) x = (x % 2 == 1) ∷ bits_of n (x / 2)
