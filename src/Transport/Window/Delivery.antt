-- ===== src/Transport/Window/Delivery.antt =====
-- Delivery over a whole session, and the arrival that is exactly 32 above the highest number.
use extraction_server.Prelude.{
  ℕ, ◌+◌, ◌≤◌, ◌≡◌, ◌≢◌, refl, ◌⊎◌, inl, inr, if◌then◌else◌, Bool, true, false, Bool-cases, List,
  [], ◌∷◌, arith,
}
use extraction_server.Prelude.Words.{test_bit-zero_bits}
use extraction_server.Transport.Window.{
  RecvWindow, fresh_window, update_r_recv_state, receive, receive_all,
}
use extraction_server.Transport.Window.Exact.{
  contains, IsExact, NotJump, Updated, first-IsExact, update_r_recv_state-Updated,
}

-- No arrival is exactly 32 above the highest number before it.
abbrev pub NoJumps : RecvWindow × List ℕ → List ℕ → Type 0
NoJumps s [] = Unit {0}
NoJumps s (seq ∷ seqs) = NotJump s.0 seq × NoJumps (receive s seq) seqs

abbrev pub Distinct : List ℕ → Type 0
Distinct [] = Unit {0}
Distinct (x ∷ xs) = (contains x xs ≡ false) × Distinct xs

-- A session that has taken nothing, or one whose window is exact.
abbrev pub Tracks : RecvWindow × List ℕ → Type 0
Tracks s = (s.0.has_recv ≡ false) × (s.1 ≡ []) ⊎ IsExact s.0 s.1

Updated-receive :
    (w : RecvWindow) (taken : List ℕ) (seq : ℕ) (r : Bool × RecvWindow)
    → Updated w taken seq r
    → Distinct taken
    → Distinct (if r.0 then seq ∷ taken else taken)
Updated-receive w taken seq (true, w') u d = ground (arith, u.once, Bool-cases (contains seq taken))
Updated-receive w taken seq (false, w') u d = d

receive-Tracks :
    (w : RecvWindow) (taken : List ℕ) (seq : ℕ)
    → NotJump w seq
    → Tracks (w, taken)
    → Distinct taken
    → Tracks (receive (w, taken) seq) × Distinct (receive (w, taken) seq).1
receive-Tracks w taken seq j (inl (idle, none_yet)) d =
    let (new, x) = first-IsExact w seq idle in rw (new, none_yet) (inr x, (refl, tt))
receive-Tracks w taken seq j (inr e) d =
    let u = update_r_recv_state-Updated e seq (j e.started) in
    (inr u.exact, Updated-receive w taken seq (update_r_recv_state w seq) u d)

receive_all-Tracks :
    (s : RecvWindow × List ℕ) (seqs : List ℕ)
    → NoJumps s seqs
    → Tracks s
    → Distinct s.1
    → Tracks (receive_all s seqs) × Distinct (receive_all s seqs).1
unfolding receive_all
receive_all-Tracks s [] j t d = (t, d)
receive_all-Tracks s (seq ∷ seqs) j t d =
    let (t', d') = receive-Tracks s.0 s.1 seq j.0 t d in
    receive_all-Tracks (receive s seq) seqs j.1 t' d'

-- Whatever arrives at a new session, in any order and with any repetition: if no arrival is exactly
-- 32 above the highest number before it, then the reliable packets taken are pairwise distinct.
pub receive_all-Distinct :
    (seqs : List ℕ)
    → NoJumps (fresh_window, []) seqs
    → Distinct (receive_all (fresh_window, []) seqs).1
receive_all-Distinct seqs j = (receive_all-Tracks (fresh_window, []) seqs j (inl (refl, refl)) tt).1

next_of :
    {s : RecvWindow × List ℕ}
    → Tracks s
    → (seq : ℕ) → s.0.has_recv ≡ true
    → seq ≢ s.0.highest + 32
    → (contains seq s.1 ≡ true → (update_r_recv_state s.0 seq).0 ≡ false)
      × (contains seq s.1 ≡ false → s.0.highest ≤ seq + 32 → (update_r_recv_state s.0 seq).0 ≡ true)
next_of (inl idle) seq h n = ground (arith, idle.0)
next_of (inr e) seq h n = let u = update_r_recv_state-Updated e seq n in (u.once, u.fresh)

-- If no arrival so far was exactly 32 above the highest number before it, and the next is not
-- either, then a packet that was taken before is refused.
pub taken_refused :
    (seqs : List ℕ) (seq : ℕ)
    → NoJumps (fresh_window, []) seqs
    → (receive_all (fresh_window, []) seqs).0.has_recv ≡ true
    → seq ≢ (receive_all (fresh_window, []) seqs).0.highest + 32
    → contains seq (receive_all (fresh_window, []) seqs).1 ≡ true
    → (update_r_recv_state (receive_all (fresh_window, []) seqs).0 seq).0 ≡ false
taken_refused seqs seq j h n =
    (next_of (receive_all-Tracks (fresh_window, []) seqs j (inl (refl, refl)) tt).0 seq h n).0

-- If no arrival so far was exactly 32 above the highest number before it, and the next is not
-- either, then a packet that is new and at most 32 behind the highest number is taken.
pub new_taken :
    (seqs : List ℕ) (seq : ℕ)
    → NoJumps (fresh_window, []) seqs
    → (receive_all (fresh_window, []) seqs).0.has_recv ≡ true
    → seq ≢ (receive_all (fresh_window, []) seqs).0.highest + 32
    → contains seq (receive_all (fresh_window, []) seqs).1 ≡ false
    → (receive_all (fresh_window, []) seqs).0.highest ≤ seq + 32
    → (update_r_recv_state (receive_all (fresh_window, []) seqs).0 seq).0 ≡ true
new_taken seqs seq j h n =
    (next_of (receive_all-Tracks (fresh_window, []) seqs j (inl (refl, refl)) tt).0 seq h n).1

-- The jump of 32. Once a packet 32 above the highest number has arrived, the window has forgotten
-- the old highest, and the packet of that number is taken a second time.
pub replay_after_jump :
    (w : RecvWindow)
    → w.has_recv ≡ true
    → let jumped = (update_r_recv_state w (w.highest + 32)).1 in
      (update_r_recv_state jumped w.highest).0 ≡ true
unfolding update_r_recv_state
replay_after_jump w h = ground (arith, test_bit-zero_bits 31)
