-- ===== src/Transport/Packet/Bytes.antt =====
-- A header that is written is read back.
use extraction_server.Prelude.{
  ℕ, ◌+◌, ◌*◌, ◌/◌, ◌%◌, ◌^◌, ◌<◌, ◌≡◌, refl, ◌==◌, Bool, true, false, if◌then◌else◌, List, [], ◌∷◌,
  ◌++◌, zero, suc, arith, length,
}
use mathlib.Core.List.{append_assoc}
use extraction_server.Prelude.Words.{Bits}
use extraction_server.Transport.Packet.{
  UdpHeader, write_le, read_le, add_byte, encode, decode, number_of, bits_of,
}

-- 256 ^ n, by recursion.
abbrev width : ℕ → ℕ
width zero = 1
width (suc n) = 256 * width n

read_le-write_le :
    (n x : ℕ) (rest : List ℕ) → x < width n → read_le n (write_le n x ++ rest) ≡ (x, rest)
unfolding read_le write_le add_byte
read_le-write_le zero x rest h = ground arith
read_le-write_le (suc n) x rest h =
    rw (read_le-write_le n (x / 256) rest (omega (arith, h))) (ground arith)

-- The fields are within the widths of their types.
pub record IsSized (h : UdpHeader) : Type 0 where
  pub signature64 : h.signature < 2 ^ 64
  pub packet_id16 : h.packet_id < 2 ^ 16
  pub session_id16 : h.session_id < 2 ^ 16
  pub r_seq32 : h.r_seq_num < 2 ^ 32
  pub u_seq16 : h.u_seq_num < 2 ^ 16
  pub flags8 : h.flags < 2 ^ 8
  pub ack32 : h.ack_r_seq_num < 2 ^ 32
  pub bits32 : h.ack_bitfield < 2 ^ 32
  pub timestamp32 : h.timestamp < 2 ^ 32
  pub echo32 : h.timestamp_echo < 2 ^ 32

-- A header whose fields fit their types, written before any payload, is read back field by field,
-- and the payload with it.
pub decode-encode :
    (h : UdpHeader) (payload : List ℕ) → IsSized h → decode (encode h ++ payload) ≡ (h, payload)
unfolding decode encode
decode-encode h payload s = simp append_assoc (
    rw
      (
        read_le-write_le 8 h.signature _ s.signature64,
        read_le-write_le 2 h.packet_id _ s.packet_id16,
        read_le-write_le 2 h.session_id _ s.session_id16,
        read_le-write_le 4 h.r_seq_num _ s.r_seq32,
        read_le-write_le 2 h.u_seq_num _ s.u_seq16,
        read_le-write_le 1 h.flags _ s.flags8,
        read_le-write_le 4 h.ack_r_seq_num _ s.ack32,
        read_le-write_le 4 h.ack_bitfield _ s.bits32,
        read_le-write_le 4 h.timestamp _ s.timestamp32,
        read_le-write_le 4 h.timestamp_echo _ s.echo32,
      )
      refl)

-- 2 ^ n, by recursion.
abbrev power : ℕ → ℕ
power zero = 1
power (suc n) = 2 * power n

number_of-below : (bs : Bits) → number_of bs < power (length bs)
unfolding number_of
number_of-below [] = omega arith
number_of-below (true ∷ bs) = omega (arith, number_of-below bs)
number_of-below (false ∷ bs) = omega (arith, number_of-below bs)

pub number_of-bound : (bs : Bits) → length bs ≡ 32 → number_of bs < 2 ^ 32
number_of-bound bs h = rw h at (number_of-below bs)

step_bits : (b : Bool) (n : ℕ) → (((if b then 1 else 0) + 2 * n) % 2 == 1) ≡ b
step_bits true n = ground arith
step_bits false n = ground arith

half_bits : (b : Bool) (n : ℕ) → ((if b then 1 else 0) + 2 * n) / 2 ≡ n
half_bits true n = omega arith
half_bits false n = omega arith

pub bits_of-number_of : (bs : Bits) → bits_of (length bs) (number_of bs) ≡ bs
unfolding bits_of number_of
bits_of-number_of [] = refl
bits_of-number_of (b ∷ bs) =
    rw (step_bits b (number_of bs), half_bits b (number_of bs), bits_of-number_of bs) refl
