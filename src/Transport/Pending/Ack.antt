-- ===== src/Transport/Pending/Ack.antt =====
-- What an ack names, and what `ProcessIncomingAck` releases.
use extraction_server.Prelude.{
  ℕ, ◌+◌, ◌≡◌, refl, ◌==◌, if◌then◌else◌, Bool, true, false, ◌||◌, ◌&&◌, none, [], ◌∷◌, arith,
  lookup, erase, lookup-erase,
}
use extraction_server.Prelude.Words.{Bits, all_clear, sub32}
use extraction_server.Transport.Pending.{PendingMap, is_empty, ack_bits, process_incoming_ack}

-- The numbers that the bits of an ack name, from bit `i` on.
abbrev pub named_by_bits : ℕ → ℕ → Bits → ℕ → Bool
named_by_bits ack i [] s = false
named_by_bits ack i (b ∷ bits) s = (b && s == sub32 ack (i + 1)) || named_by_bits ack (i + 1) bits s

-- The numbers that an ack names: its own and those of its bits.
abbrev pub named : ℕ → Bits → ℕ → Bool
named ack bits s = s == ack || named_by_bits ack 0 bits s

lookup-is_empty : (s : ℕ) (p : PendingMap) → is_empty p ≡ true → lookup s p ≡ none
unfolding lookup
lookup-is_empty s [] h = refl
lookup-is_empty s (x ∷ p) h = ground arith

all_clear-named :
    (ack i : ℕ) (bits : Bits) (s : ℕ) → all_clear bits ≡ true → named_by_bits ack i bits s ≡ false
all_clear-named ack i [] s h = refl
all_clear-named ack i (true ∷ bits) s h = ground arith
all_clear-named ack i (false ∷ bits) s h = all_clear-named ack (i + 1) bits s h

lookup-ack_bits :
    (ack i : ℕ) (bits : Bits) (p : PendingMap) (s : ℕ)
    → lookup s (ack_bits ack i bits p) ≡ (if named_by_bits ack i bits s then none else lookup s p)
unfolding ack_bits
lookup-ack_bits ack i [] p s = refl
lookup-ack_bits ack i (true ∷ bits) p s = ground (
  arith,
  lookup-erase (sub32 ack (i + 1)) s p,
  lookup-is_empty s (erase (sub32 ack (i + 1)) p),
  lookup-ack_bits ack (i + 1) bits (erase (sub32 ack (i + 1)) p) s,
)
lookup-ack_bits ack i (false ∷ bits) p s =
    ground (arith, all_clear-named ack (i + 1) bits s, lookup-ack_bits ack (i + 1) bits p s)

-- After `ProcessIncomingAck` a packet waits if and only if it waited before and the ack does not
-- name it: neither early exit of the loop loses or keeps a packet.
pub lookup-process_incoming_ack :
    (ack : ℕ) (bits : Bits) (p : PendingMap) (s : ℕ)
    → lookup s (process_incoming_ack ack bits p) ≡ (if named ack bits s then none else lookup s p)
unfolding process_incoming_ack
lookup-process_incoming_ack ack bits p s = ground (
  arith,
  lookup-erase ack s p,
  lookup-is_empty s (erase ack p),
  all_clear-named ack 0 bits s,
  lookup-ack_bits ack 0 bits (erase ack p) s,
)
