-- ===== src/Transport/Pending/Loss.antt =====
-- The ack that the receive window makes, at the sender.
use native.Mathlib.Decide.{dec_lt}
use extraction_server.Prelude.{
  ℕ, zero, suc, ◌+◌, ◌-◌, ◌^◌, ◌≤◌, ◌<◌, ◌≡◌, sym, ap, ◌∙◌, ◌==◌, true, false, Bool-cases, ◌&&◌,
  inl, inr, none, List, [], ◌∷◌, arith, length, ==_refl, lookup,
}
use extraction_server.Prelude.Words.{Bits, sub32, test_bit}
use extraction_server.Transport.Window.{RecvWindow}
use extraction_server.Transport.Window.Exact.{contains, IsExact}
use extraction_server.Transport.Pending.{PendingMap, process_incoming_ack}
use extraction_server.Transport.Pending.Ack.{named, named_by_bits, lookup-process_incoming_ack}

-- A number that the bits from `i` on name is the one of a bit that is set.
named_by_bits_sound :
    (ack i : ℕ) (bits : Bits) (s : ℕ)
    → named_by_bits ack i bits s ≡ true
    → (k : ℕ) × (k < length bits) × (test_bit bits k ≡ true) × (s ≡ sub32 ack (i + k + 1))
named_by_bits_sound ack i [] s h = absurd (ground arith)
named_by_bits_sound ack i (b ∷ bits) s h = elim (Bool-cases (b && s == sub32 ack (i + 1))) [
  | inl here ↦ (0, omega arith, ground arith, ground arith)
  | inr there ↦
      let (k, lt, set, eq) = named_by_bits_sound ack (i + 1) bits s (ground arith) in
      (suc k, omega arith, set, eq ∙ ap (sub32 ack) (omega arith))
]

named_by_bits_complete :
    (ack i : ℕ) (bits : Bits) (k : ℕ)
    → test_bit bits k ≡ true
    → named_by_bits ack i bits (sub32 ack (i + k + 1)) ≡ true
named_by_bits_complete ack i [] k h = absurd (ground arith)
named_by_bits_complete ack i (b ∷ bits) zero h =
    let e : i + 0 + 1 ≡ i + 1 = omega arith in rw e (ground (arith, ==_refl (sub32 ack (i + 1))))
named_by_bits_complete ack i (b ∷ bits) (suc k) h =
    let e : i + suc k + 1 ≡ i + 1 + k + 1 = omega arith in
    rw e (ground (arith, named_by_bits_complete ack (i + 1) bits k h))

module _ {w : RecvWindow} {taken : List ℕ} (e : IsExact w taken) (small : w.highest < 2 ^ 32) where
  bit-contains :
      (k s : ℕ)
      → k < 32
      → test_bit w.bitfield k ≡ true
      → s ≡ sub32 w.highest (k + 1)
      → contains s taken ≡ true
  bit-contains k s lt set eq = elim (dec_lt k w.highest) [
    | yes inside ↦
        let at : w.highest - s - 1 ≡ k = omega arith in
        sym (e.behind s (omega arith) (omega arith)) ∙ ap (test_bit w.bitfield) at ∙ set
    | no beyond ↦ absurd (ground (arith, e.unused k lt (omega arith)))
  ]

  named-contains : (s : ℕ) → named w.highest w.bitfield s ≡ true → contains s taken ≡ true
  named-contains s h = elim (Bool-cases (s == w.highest)) [
    | inl top ↦ let eq : s ≡ w.highest = ground arith in ap (λ x. contains x taken) eq ∙ e.top
    | inr other ↦
        let (k, lt, set, eq) = named_by_bits_sound w.highest 0 w.bitfield s (ground arith) in
        bit-contains k s (omega (arith, e.width)) set (eq ∙ ap (sub32 w.highest) (omega arith))
  ]

  contains-named :
      (s : ℕ) → contains s taken ≡ true → w.highest ≤ s + 32 → named w.highest w.bitfield s ≡ true
  contains-named s h near = elim (dec_lt w.highest s) [
    | yes past ↦ absurd (ground (arith, e.above s past))
    | no here ↦ elim (dec_lt s w.highest) [
      | no top ↦ let eq : s ≡ w.highest = omega arith in ground arith
      | yes behind ↦
          let k = w.highest - s - 1 in
          let eq : sub32 w.highest (0 + k + 1) ≡ s = omega arith in
          let hit = named_by_bits_complete w.highest 0 w.bitfield k (e.behind s behind near ∙ h) in
          ground (arith, ap (named_by_bits w.highest 0 w.bitfield) eq)
    ]
  ]

  -- Let a receiver's window be exact for the numbers that it took, and its highest number a uint32.
  -- The ack that it sends releases at the sender each of those that is at most 32 behind the highest.
  pub ack_releases :
      (p : PendingMap) (s : ℕ)
      → contains s taken ≡ true
      → w.highest ≤ s + 32
      → lookup s (process_incoming_ack w.highest w.bitfield p) ≡ none
  ack_releases p s h near =
      ground (arith, lookup-process_incoming_ack w.highest w.bitfield p s, contains-named s h near)

  -- Let a receiver's window be exact for the numbers that it took, and its highest number a uint32.
  -- After the ack that it sends, a packet that it did not take goes on waiting at the sender,
  -- unchanged.
  pub ack_keeps :
      (p : PendingMap) (s : ℕ)
      → contains s taken ≡ false
      → lookup s (process_incoming_ack w.highest w.bitfield p) ≡ lookup s p
  ack_keeps p s h = elim (Bool-cases (named w.highest w.bitfield s)) [
    | inl hit ↦ ground (arith, named-contains s hit)
    | inr miss ↦ ground (arith, lookup-process_incoming_ack w.highest w.bitfield p s)
  ]
