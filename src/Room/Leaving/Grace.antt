-- ===== src/Room/Leaving/Grace.antt =====
-- Single sessions in a pass of `ProcessLeaves` of src/DedicateProcess/GameRoom.cpp: how long a session
-- that was marked stays.
use extraction_server.Prelude.{
  ℕ, ◌+◌, ◌^◌, ◌≤◌, ◌<◌, ◌≡◌, ◌≢◌, refl, ap, ◌∙◌, true, false, ◌⊎◌, inl, inr, some, [], ◌∷◌, arith,
  lookup, Bool-cases, ◌==◌, Bool,
}
use extraction_server.Prelude.Lookups.{keys}
use extraction_server.Prelude.Members.{is_member}
use extraction_server.Session.Leave.{
  Leave, pending, detached, finalized, dead, disconnected, mark_leaving, process_leave,
  detach_leave, finalize_leave, death_grace_ms,
}
use extraction_server.Session.Leave.Notice.{
  Event, channel_open, loading_complete, set_notify, mark, process, step,
}
use extraction_server.Session.Leave.Order.{process_leave_finalizes}
use extraction_server.Room.{Seat, Sessions, GameRoom}
use extraction_server.Room.Detach.Sight.{view}
use extraction_server.Room.Leaving.{Clocks, mark_leaves, process_leaves}
use extraction_server.Room.Leaving.Lives.{Allowed}
use extraction_server.Room.Leaving.Refine.{mark_leaves-Life}
use extraction_server.Room.Leaving.Keys.{keys-mark_leaves, check_all_left-sessions}
use extraction_server.Room.Leaving.Rules.{Life-Has, loop_rule}

view-member : (k : ℕ) (s : Seat) (ss : Sessions) → view k ss ≡ some s → is_member k (keys ss) ≡ true
unfolding keys lookup
view-member k s [] h = cc
view-member k s ((j, p) ∷ ss) h = elim (Bool-cases (k == j)) [
  | inl e ↦ rw e refl
  | inr e ↦ rw e (view-member k s ss (rw (flip k j e) at h))
]
  where
    flip : (a b : ℕ) → (a == b) ≡ false → (b == a) ≡ false
    flip a b e = ground (arith, e)

-- A session that no mark of a pass changes any more, marked at this time.
abbrev Firm : ℕ → Leave → Type 0
Firm at l =
    ((l.leave_state ≡ detached)
      ⊎ ((l.leave_state ≡ finalized)
          ⊎ ((l.leave_state ≡ pending) × (l.leave_reason ≢ disconnected))))
    × (l.leave_marked_at ≡ at)

abbrev Ended : Leave → Type 0
Ended l = l.leave_state ≡ finalized

step-Firm :
    (c : Clocks) (k at : ℕ) (e : Event) (l : Leave)
    → Allowed c k e
    → Firm at l
    → Firm at (step l e).1
unfolding step mark_leaving process_leave detach_leave finalize_leave
step-Firm c k at channel_open l ok h = elim ok [ ]
step-Firm c k at loading_complete l ok h = elim ok [ ]
step-Firm c k at (set_notify n) l ok h = elim ok [ ]
step-Firm c k at (mark reason n now) l ok h = ground arith
step-Firm c k at (process w now) l ok h = ground arith

keep-Ended : (now : ℕ) (b : Bool) (l : Leave) → Ended l → Ended (process_leave b now l).1
unfolding process_leave
keep-Ended now b l h = ground arith

Firm-Ended :
    (at now : ℕ) (b : Bool) (l : Leave)
    → at + death_grace_ms ≤ now
    → now < at + 2 ^ 32
    → Firm at l
    → Ended (process_leave b now l).1
Firm-Ended at now b l late soon (inl d, m) =
    process_leave_finalizes l b now (inr d) (omega (arith, m)) (omega (arith, m, soon))
Firm-Ended at now b l late soon (inr (inl f), m) = keep-Ended now b l f
Firm-Ended at now b l late soon (inr (inr p), m) =
    process_leave_finalizes l b now (inl p.0) (omega (arith, m)) (omega (arith, m, soon))

-- A session that was marked does not hang: a pass of `ProcessLeaves` whose clock is past the longest
-- grace (5000 ms after the mark), and less than 2^32 ms after the mark, finalizes a session that it
-- finds DETACHED, or PENDING as RECALLED or DEAD, acked or not.
pub process_leaves-finalizes :
    (c : Clocks) (r : GameRoom) (k : ℕ) (s : Seat)
    → view k r.sessions ≡ some s
    → (s.leave.leave_state ≡ detached)
      ⊎ ((s.leave.leave_state ≡ pending) × (s.leave.leave_reason ≢ disconnected))
    → s.leave.leave_marked_at + death_grace_ms ≤ c.now
    → c.now < s.leave.leave_marked_at + 2 ^ 32
    → (t : Seat) × (view k (process_leaves c r).sessions ≡ some t)
      × (t.leave.leave_state ≡ finalized)
unfolding process_leaves
process_leaves-finalizes c r k s e state late soon =
    let at = s.leave.leave_marked_at in
    let r1 = mark_leaves c r in
    let firm : Firm at s.leave = (firmly state, refl) in
    let h = Life-Has c k (Firm at) (step-Firm c k at) s r r1 (mark_leaves-Life c k r s e) firm in
    let (t, seen, f) =
      loop_rule c.now k (Firm at) Ended (λ b l. Firm-Ended at c.now b l late soon)
        (keep-Ended c.now) (keys r1.sessions) r1
        (rw (keys-mark_leaves c r) (view-member k s r.sessions e)) h in
    (t, ap (view k) (check_all_left-sessions _) ∙ seen, f)
  where
    firmly :
        (s.leave.leave_state ≡ detached)
          ⊎ ((s.leave.leave_state ≡ pending) × (s.leave.leave_reason ≢ disconnected))
        → (s.leave.leave_state ≡ detached)
          ⊎ ((s.leave.leave_state ≡ finalized)
              ⊎ ((s.leave.leave_state ≡ pending) × (s.leave.leave_reason ≢ disconnected)))
    firmly (inl d) = inl d
    firmly (inr p) = inr (inr p)

-- A session marked DEAD at this time.
abbrev Hasty : ℕ → Leave → Type 0
Hasty at l =
    ((l.leave_state ≡ pending) ⊎ ((l.leave_state ≡ detached) ⊎ (l.leave_state ≡ finalized)))
    × (l.leave_reason ≡ dead)
    × (l.leave_marked_at ≡ at)
