-- ===== src/Session/Leave/Order.antt =====
-- The order of the leave states, and when a session that leaves comes to its end.
use extraction_server.Prelude.{ℕ, ◌+◌, ◌^◌, ◌≤◌, ◌<◌, ◌≡◌, Bool, ◌⊎◌, arith}
use extraction_server.Session.Leave.{
  LeaveReason, recalled, dead, disconnected, LeaveState, pending, detached, finalized, Leave,
  mark_leaving, process_leave, is_finalize_ready, detach_leave, finalize_leave, death_grace_ms,
}
use extraction_server.Session.Leave.Notice.{
  IsValid, Event, step, channel_open, loading_complete, mark, set_notify, process,
}

abbrev pub rank : LeaveState → ℕ
rank LeaveState.none = 0
rank pending = 1
rank detached = 2
rank finalized = 3

-- The order of the reasons: a disconnect gives way to a recall or a death, which are final.
abbrev pub weight : LeaveReason → ℕ
weight LeaveReason.none = 0
weight disconnected = 1
weight recalled = 2
weight dead = 2

-- Of a valid session: no call takes a session back in none → PENDING → DETACHED → FINALIZED. A reason of death or
-- recall that is once set in a leaving session is never replaced, a disconnect only by one of
-- those and only before the session is detached.
pub step_order :
    (l : Leave) (e : Event)
    → IsValid l
    → let l' = (step l e).1 in
      (rank l.leave_state ≤ rank l'.leave_state)
      × ((l.leave_state ≡ LeaveState.none)
          ⊎ (l'.leave_reason ≡ l.leave_reason)
          ⊎ ((weight l.leave_reason < weight l'.leave_reason) × (l.leave_state ≡ pending)))
unfolding step mark_leaving process_leave detach_leave finalize_leave
step_order l channel_open v = ground arith
step_order l loading_complete v = ground arith
step_order l (mark reason notify now) v = ground arith
step_order l (set_notify seq) v = ground arith
step_order l (process notice_pending now) v = ground arith

-- A marked session does not hang: once the clock, less than 2^32 ms after the mark, is past the
-- longest grace (5000 ms), one turn of the leave loop of
-- `ProcessLeaves` finalizes it, acked or not.
pub process_leave_finalizes :
    (l : Leave) (notice_pending : Bool) (now : ℕ)
    → (l.leave_state ≡ pending) ⊎ (l.leave_state ≡ detached)
    → l.leave_marked_at + death_grace_ms ≤ now
    → now < l.leave_marked_at + 2 ^ 32
    → (process_leave notice_pending now l).1.leave_state ≡ finalized
unfolding process_leave detach_leave finalize_leave is_finalize_ready
process_leave_finalizes l notice_pending now s lo hi = ground arith

-- A dead player's session is not finalized before its grace of 5000 ms is over, acked or not: until
-- then a turn of the leave loop of `ProcessLeaves` leaves it detached, so that its player can watch.
pub process_leave_grace :
    (l : Leave) (notice_pending : Bool) (now : ℕ)
    → (l.leave_state ≡ pending) ⊎ (l.leave_state ≡ detached)
    → l.leave_reason ≡ dead
    → l.leave_marked_at ≤ now
    → now < l.leave_marked_at + death_grace_ms
    → (process_leave notice_pending now l).1.leave_state ≡ detached
unfolding process_leave detach_leave finalize_leave is_finalize_ready
process_leave_grace l notice_pending now s r lo hi = ground arith

-- A turn of the leave loop whose time is even one millisecond before the mark of a dead player's
-- session finalizes it at once: the elapsed time wraps around.
pub process_leave_no_grace :
    (l : Leave) (notice_pending : Bool) (now : ℕ)
    → (l.leave_state ≡ pending) ⊎ (l.leave_state ≡ detached)
    → l.leave_reason ≡ dead
    → now < l.leave_marked_at
    → l.leave_marked_at ≤ now + 2 ^ 31
    → (process_leave notice_pending now l).1.leave_state ≡ finalized
unfolding process_leave detach_leave finalize_leave is_finalize_ready
process_leave_no_grace l notice_pending now s r early near = ground arith
