-- ===== src/Transport/Window/Exact.antt =====
-- The bit field as the set of numbers taken.
use native.Mathlib.Decide.{dec_lt, ℕ_discrete}
use extraction_server.Prelude.{
  ap, ◌∙◌, sym, ◌⊎◌, inl, inr, Bool-cases, ℕ, ◌+◌, ◌-◌, ◌≤◌, ◌<◌, ◌≡◌, ◌≢◌, refl, ltb, leb, ◌==◌,
  if◌then◌else◌, Bool, true, false, ◌||◌, List, [], ◌∷◌, arith, length, length-set, get_or-set_self,
  get_or-set_ne,
}
use extraction_server.Prelude.Words.{
  Bits, zero_bits, test_bit, set_bit, shl, length-shl, test_bit-shl, test_bit-zero_bits,
}
use extraction_server.Transport.Window.{RecvWindow, slide, update_r_recv_state}

abbrev pub contains : ℕ → List ℕ → Bool
contains s [] = false
contains s (x ∷ xs) = s == x || contains s xs

test_bit-set_bit :
    (bits : Bits) (i j : ℕ)
    → length bits ≡ 32
    → i < 32
    → test_bit (set_bit bits i) j ≡ (if j == i then true else test_bit bits j)
test_bit-set_bit bits i j len h =
    ground (arith, get_or-set_self bits i true false, get_or-set_ne bits i j true false)

-- The window says of the last 33 numbers exactly which of them were taken.
pub record IsExact (w : RecvWindow) (taken : List ℕ) : Type 0 where
  pub started : w.has_recv ≡ true
  pub width : length w.bitfield ≡ 32
  pub top : contains w.highest taken ≡ true
  pub above : (s : ℕ) → w.highest < s → contains s taken ≡ false
  pub behind :
      (s : ℕ)
      → s < w.highest
      → w.highest ≤ s + 32
      → test_bit w.bitfield (w.highest - s - 1) ≡ contains s taken
  pub unused : (i : ℕ) → i < 32 → w.highest ≤ i → test_bit w.bitfield i ≡ false

-- `highest + 32` is the one number after which the window forgets the old highest.
abbrev pub NotJump : RecvWindow → ℕ → Type 0
NotJump w seq = (w.has_recv ≡ true → seq ≢ w.highest + 32)

-- The first packet.
pub first-IsExact :
    (w : RecvWindow) (seq : ℕ)
    → w.has_recv ≡ false
    → ((update_r_recv_state w seq).0 ≡ true) × IsExact (update_r_recv_state w seq).1 (seq ∷ [])
unfolding update_r_recv_state
first-IsExact w seq h = rw h (
  refl,
  record {
    started = refl;
    width = refl;
    top = ground arith;
    above = λ s p. ground arith;
    behind = λ s p q. ground (arith, test_bit-zero_bits (seq - s - 1));
    unused = λ i p q. test_bit-zero_bits i;
  },
)

-- What `UpdateRRecvState` answers, and the state that it leaves, on every branch.
pub record Updated (w : RecvWindow) (taken : List ℕ) (seq : ℕ) (r : Bool × RecvWindow)
    : Type 0 where
  pub once : contains seq taken ≡ true → r.0 ≡ false
  pub fresh : contains seq taken ≡ false → w.highest ≤ seq + 32 → r.0 ≡ true
  pub exact : IsExact r.1 (if r.0 then seq ∷ taken else taken)

-- The branches of `UpdateRRecvState`.
module _ (w : RecvWindow) (seq : ℕ) (started : w.has_recv ≡ true) where
  update_up : w.highest < seq → update_r_recv_state w seq ≡ (true, slide w seq)
  unfolding update_r_recv_state
  update_up h = ground arith

  update_same : seq ≡ w.highest → update_r_recv_state w seq ≡ (false, w)
  unfolding update_r_recv_state
  update_same h = ground arith

  update_old : seq + 32 < w.highest → update_r_recv_state w seq ≡ (false, w)
  unfolding update_r_recv_state
  update_old h = ground arith

  update_seen :
      seq < w.highest
      → w.highest ≤ seq + 32
      → test_bit w.bitfield (w.highest - seq - 1) ≡ true
      → update_r_recv_state w seq ≡ (false, w)
  unfolding update_r_recv_state
  update_seen h k b = ground arith

  update_unseen :
      seq < w.highest
      → w.highest ≤ seq + 32
      → test_bit w.bitfield (w.highest - seq - 1) ≡ false
      → update_r_recv_state w seq
        ≡ (true, record w { bitfield = set_bit w.bitfield (w.highest - seq - 1) })
  unfolding update_r_recv_state
  update_unseen h k b = ground arith

module _ {w : RecvWindow} {taken : List ℕ} (e : IsExact w taken) (seq : ℕ) where
  -- A jump of 33 or more: all that the new window covers lies above the old one.
  far-IsExact :
      w.highest + 32 < seq
      → IsExact (record w { highest = seq; bitfield = zero_bits }) (seq ∷ taken)
  far-IsExact h = record {
    started = e.started;
    width = refl;
    top = ground arith;
    above = λ s p. ground (arith, e.above s (omega arith));
    behind = λ s p q. ground (arith, e.above s (omega arith), test_bit-zero_bits (seq - s - 1));
    unused = λ i p q. test_bit-zero_bits i;
  }

  near_bit :
      w.highest < seq
      → seq < w.highest + 32
      → (i : ℕ) → i < 32
      → test_bit (set_bit (shl w.bitfield (seq - w.highest)) (seq - w.highest - 1)) i ≡ (
          if i == seq - w.highest - 1
          then true
          else if ltb i (seq - w.highest)
          then false
          else test_bit w.bitfield (i - (seq - w.highest)))
  near_bit h k i p = ground (
    arith,
    test_bit-set_bit (shl w.bitfield (seq - w.highest)) (seq - w.highest - 1) i
        (length-shl w.bitfield (seq - w.highest)) (omega arith),
    test_bit-shl w.bitfield (seq - w.highest) i p,
  )

  near_behind :
      w.highest < seq
      → seq < w.highest + 32
      → (s : ℕ) → s < seq
      → seq ≤ s + 32
      → test_bit (set_bit (shl w.bitfield (seq - w.highest)) (seq - w.highest - 1)) (seq - s - 1)
        ≡ contains s (seq ∷ taken)
  near_behind h k s p q = elim (dec_lt w.highest s) [
    | yes a ↦ ground (arith, near_bit h k (seq - s - 1) (omega arith), e.above s a)
    | no a ↦ elim (ℕ_discrete s w.highest) [
      | yes b ↦
          ground
            (arith, near_bit h k (seq - s - 1) (omega arith), e.top, ap (λ x. contains x taken) b)
      | no b ↦
          let shift : seq - s - 1 - (seq - w.highest) ≡ w.highest - s - 1 = omega arith in
          ground (
            arith,
            near_bit h k (seq - s - 1) (omega arith),
            ap (test_bit w.bitfield) shift,
            e.behind s (omega arith) (omega arith),
          )
    ]
  ]

  near-IsExact :
      w.highest < seq
      → seq < w.highest + 32
      → IsExact
          (record w {
            highest = seq;
            bitfield = set_bit (shl w.bitfield (seq - w.highest)) (seq - w.highest - 1);
          })
          (seq ∷ taken)
  near-IsExact h k = record {
    started = e.started;
    width =
        length-set (shl w.bitfield (seq - w.highest)) (seq - w.highest - 1) true
        ∙ length-shl w.bitfield (seq - w.highest);
    top = ground arith;
    above = λ s p. ground (arith, e.above s (omega arith));
    behind = near_behind h k;
    unused = λ i p q.
        ground
          (arith, near_bit h k i p, e.unused (i - (seq - w.highest)) (omega arith) (omega arith));
  }

  slide-IsExact : w.highest < seq → seq ≢ w.highest + 32 → IsExact (slide w seq) (seq ∷ taken)
  unfolding slide
  slide-IsExact h j = elim (dec_lt seq (w.highest + 32)) [
    | yes k ↦ let t : leb 32 (seq - w.highest) ≡ false = ground arith in rw t (near-IsExact h k)
    | no k ↦
        let t : leb 32 (seq - w.highest) ≡ true = ground arith in rw t (far-IsExact (omega arith))
  ]

  filled-IsExact :
      seq < w.highest
      → w.highest ≤ seq + 32
      → IsExact (record w { bitfield = set_bit w.bitfield (w.highest - seq - 1) }) (seq ∷ taken)
  filled-IsExact h k = record {
    started = e.started;
    width = length-set w.bitfield (w.highest - seq - 1) true ∙ e.width;
    top = ground (arith, e.top);
    above = λ s p. ground (arith, e.above s p);
    behind = λ s p q. ground (
      arith,
      test_bit-set_bit w.bitfield (w.highest - seq - 1) (w.highest - s - 1) e.width (omega arith),
      e.behind s p q,
    );
    unused = λ i p q. ground (
      arith,
      test_bit-set_bit w.bitfield (w.highest - seq - 1) i e.width (omega arith),
      e.unused i p q,
    );
  }

  refused-Updated :
      contains seq taken ≡ true ⊎ (seq + 32 < w.highest) → Updated w taken seq (false, w)
  refused-Updated c = record { once = λ _. refl; fresh = λ h k. ground arith; exact = e }

  taken-Updated :
      (w' : RecvWindow)
      → contains seq taken ≡ false
      → IsExact w' (seq ∷ taken)
      → Updated w taken seq (true, w')
  taken-Updated w' c x = record { once = λ h. ground arith; fresh = λ _ _. refl; exact = x }

  behind-Updated :
      seq < w.highest → w.highest ≤ seq + 32 → Updated w taken seq (update_r_recv_state w seq)
  behind-Updated h k = elim (Bool-cases (test_bit w.bitfield (w.highest - seq - 1))) [
    | inl b ↦
        rw (update_seen w seq e.started h k b) (refused-Updated (inl (sym (e.behind seq h k) ∙ b)))
    | inr b ↦
        rw (update_unseen w seq e.started h k b)
          (taken-Updated _ (sym (e.behind seq h k) ∙ b) (filled-IsExact h k))
  ]

  pub update_r_recv_state-Updated :
      seq ≢ w.highest + 32 → Updated w taken seq (update_r_recv_state w seq)
  update_r_recv_state-Updated j = elim (dec_lt w.highest seq) [
    | yes a ↦ rw (update_up w seq e.started a) (taken-Updated _ (e.above seq a) (slide-IsExact a j))
    | no a ↦ elim (ℕ_discrete seq w.highest) [
      | yes b ↦
          rw (update_same w seq e.started b)
            (refused-Updated (inl (ap (λ x. contains x taken) b ∙ e.top)))
      | no b ↦ elim (dec_lt (seq + 32) w.highest) [
        | yes c ↦ rw (update_old w seq e.started c) (refused-Updated (inr c))
        | no c ↦ behind-Updated (omega arith) (omega arith)
      ]
    ]
  ]
