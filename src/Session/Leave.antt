-- ===== src/Session/Leave.antt =====
-- The leave states of a session: `MarkLeaving`, `FinalizeLeave`, `NotifyLeftOnce` of
-- src/DedicateProcess/PlayerSession.cpp, and what `DetachPlayer` and `ProcessLeaves` of
-- GameRoom.cpp do to the session itself. Times are milliseconds of the steady clock.
pub mod Order
pub mod Notice
use extraction_server.Prelude.{
  ℕ, ◌-◌, ◌+◌, ◌%◌, ◌^◌, leb, ◌==◌, if◌then◌else◌, Bool, true, false, not, ◌&&◌, ◌||◌, List, [],
  ◌∷◌, ◌++◌,
}

pub data SessionState : Type 0 where
  init connected inplay spectating left : SessionState

pub data LeaveReason : Type 0 where
  none recalled dead disconnected : LeaveReason

pub data LeaveState : Type 0 where
  none pending detached finalized : LeaveState

-- The fields of `PlayerSession` that leaving reads and writes.
pub record Leave : Type 0 where
  pub session_state : SessionState
  pub leave_state : LeaveState
  pub leave_reason : LeaveReason
  pub leave_marked_at : ℕ
  pub leave_notify_r_seq : ℕ
  pub left_notified : Bool

-- The state of a new session.
abbrev pub fresh_leave : Leave
fresh_leave = record {
  session_state = init;
  leave_state = LeaveState.none;
  leave_reason = LeaveReason.none;
  leave_marked_at = 0;
  leave_notify_r_seq = 0;
  left_notified = false;
}

-- `IsActiveState`: may the client act?
abbrev pub is_active_state : SessionState → Bool
is_active_state connected = true
is_active_state inplay = true
is_active_state _ = false

-- `IsInplay`
abbrev pub is_inplay : SessionState → Bool
is_inplay inplay = true
is_inplay _ = false

-- `CanReceiveBroadcast`
abbrev pub can_receive_broadcast : SessionState → Bool
can_receive_broadcast inplay = true
can_receive_broadcast spectating = true
can_receive_broadcast _ = false

abbrev pub is_disconnected : LeaveReason → Bool
is_disconnected disconnected = true
is_disconnected _ = false

abbrev pub is_dead : LeaveReason → Bool
is_dead dead = true
is_dead _ = false

abbrev pub is_recalled : LeaveReason → Bool
is_recalled recalled = true
is_recalled _ = false

abbrev pub is_pending : LeaveState → Bool
is_pending pending = true
is_pending _ = false

abbrev pub is_detached : LeaveState → Bool
is_detached detached = true
is_detached _ = false

abbrev pub is_finalized : LeaveState → Bool
is_finalized finalized = true
is_finalized _ = false

-- `IsLeaving`
abbrev pub is_leaving : LeaveState → Bool
is_leaving LeaveState.none = false
is_leaving _ = true

-- The session state after a mark: a dead player may still watch, a recalled one is gone, and a
-- disconnected one is changed only when it is detached.
state_on_mark : LeaveReason → SessionState → SessionState
state_on_mark dead s = spectating
state_on_mark disconnected s = s
state_on_mark recalled s = left
state_on_mark LeaveReason.none s = left

-- The writes of `MarkLeaving` once its guards are passed.
write_mark : LeaveReason → ℕ → ℕ → Leave → Leave
unfolding state_on_mark
write_mark reason notify now l = record l {
  leave_state = pending;
  leave_reason = reason;
  leave_marked_at = now;
  leave_notify_r_seq = if notify == 0 then l.leave_notify_r_seq else notify;
  session_state = state_on_mark reason l.session_state;
}

-- `MarkLeaving` past its first guard, by the leave state.
mark_in : LeaveState → LeaveReason → ℕ → ℕ → Leave → Leave
unfolding write_mark
mark_in detached reason notify now l = l
mark_in finalized reason notify now l = l
mark_in pending reason notify now l =
    if not (is_disconnected l.leave_reason)
    then l
    else if is_disconnected reason
    then l
    else write_mark reason notify now l
mark_in LeaveState.none reason notify now l = write_mark reason notify now l

-- `MarkLeaving`
unfoldable pub mark_leaving : LeaveReason → ℕ → ℕ → Leave → Leave
unfolding mark_in
mark_leaving LeaveReason.none notify now l = l
mark_leaving dead notify now l = mark_in l.leave_state dead notify now l
mark_leaving recalled notify now l = mark_in l.leave_state recalled notify now l
mark_leaving disconnected notify now l = mark_in l.leave_state disconnected notify now l

-- `NotifyLeftOnce`: whether the notice goes to the main process, and the new state.
unfoldable pub notify_left_once : Leave → Bool × Leave
notify_left_once l =
    if l.left_notified then (false, l) else (true, record l { left_notified = true })

-- `FinalizeLeave`; the pending packets are cleared by the caller's state.
unfoldable pub finalize_leave : Leave → Bool × Leave
unfolding notify_left_once
finalize_leave l = notify_left_once (record l { leave_state = finalized; session_state = left })

-- What `DetachPlayer` does to the leave state of its session.
unfoldable pub detach_leave : Leave → Bool × Leave
unfolding notify_left_once
detach_leave l = notify_left_once (record l {
  session_state = if is_dead l.leave_reason then spectating else left;
  leave_state = detached;
})

abbrev pub death_grace_ms : ℕ
death_grace_ms = 5000

abbrev pub leave_finalize_timeout_ms : ℕ
leave_finalize_timeout_ms = 3000

-- `ElapsedMs`: a difference of clock readings, cut to 32 bits. It wraps around where the second
-- reading is the earlier one.
unfoldable pub elapsed_ms : ℕ → ℕ → ℕ
elapsed_ms from to = (to % 2 ^ 32 + 2 ^ 32 - from % 2 ^ 32) % 2 ^ 32

-- `IsFinalizeReady`; the flag says whether the leave notice still waits for its ack.
unfoldable pub is_finalize_ready : Leave → Bool → ℕ → Bool
unfolding elapsed_ms
is_finalize_ready l notice_pending now =
    if is_dead l.leave_reason
    then leb death_grace_ms (elapsed_ms l.leave_marked_at now)
    else if l.leave_notify_r_seq == 0
    then true
    else if not notice_pending
    then true
    else leb leave_finalize_timeout_ms (elapsed_ms l.leave_marked_at now)

-- The body of the leave loop of `ProcessLeaves` for one session, on its leave state: the notices
-- that it sends to the main process, and the new state.
unfoldable pub process_leave : Bool → ℕ → Leave → List LeaveReason × Leave
process_leave notice_pending now l =
    let (sent, l1) = (if is_pending l.leave_state then detach_leave l else (false, l)) in
    let (again, l2) =
      (if is_detached l1.leave_state && is_finalize_ready l1 notice_pending now
        then finalize_leave l1
        else (false, l1)) in
    ((if sent then l.leave_reason ∷ [] else []) ++ (if again then l1.leave_reason ∷ [] else []), l2)
