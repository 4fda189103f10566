-- ===== src/Session/Leave/Notice.antt =====
-- The calls that a session meets in its life, in any order, and the notice that goes to the main
-- process (the one that writes the inventory and lifts the active-match lock).
use extraction_server.Prelude.{
  ℕ, ◌≡◌, refl, ap₂, ◌∙◌, ◌≢◌, if◌then◌else◌, Bool, true, false, ◌⊎◌, List, [], ◌∷◌, ◌++◌, arith,
}
use extraction_server.Session.Leave.{
  SessionState, init, connected, inplay, spectating, left, LeaveReason, recalled, dead, LeaveState,
  pending, detached, finalized, Leave, fresh_leave, is_leaving, is_active_state, mark_leaving,
  process_leave, detach_leave, finalize_leave,
}

-- `Handle_C2D_ChannelOpen` and `Handle_C2D_NotifyLoadingComplete`, `MarkLeaving`,
-- `SetLeaveNotifyRSeq` and a pass of `ProcessLeaves`.
pub data Event : Type 0 where
  channel_open loading_complete : Event
  mark : LeaveReason → ℕ → ℕ → Event
  set_notify : ℕ → Event
  process : Bool → ℕ → Event

-- `Handle_C2D_ChannelOpen`, on the session state
unfoldable pub open_channel : SessionState → SessionState
open_channel init = connected
open_channel s = s

-- `Handle_C2D_NotifyLoadingComplete`, on the session state
unfoldable pub complete_loading : SessionState → SessionState
complete_loading connected = inplay
complete_loading s = s

unfoldable pub step : Leave → Event → List LeaveReason × Leave
unfolding open_channel complete_loading
step l channel_open = ([], record l { session_state = open_channel l.session_state })
step l loading_complete = ([], record l { session_state = complete_loading l.session_state })
step l (mark reason notify now) = ([], mark_leaving reason notify now l)
step l (set_notify seq) = ([], record l { leave_notify_r_seq = seq })
step l (process notice_pending now) = process_leave notice_pending now l

-- The notices of a whole life, in order, and the state at its end.
unfoldable pub run : Leave → List Event → List LeaveReason × Leave
run l [] = ([], l)
run l (e ∷ es) = let (sent, l') = step l e in let (later, l'') = run l' es in (sent ++ later, l'')

-- What holds of a session between two calls.
pub record IsValid (l : Leave) : Type 0 where
  pub has_reason : is_leaving l.leave_state ≡ true → l.leave_reason ≢ LeaveReason.none
  pub notified : (l.left_notified ≡ true) → (l.leave_state ≡ detached) ⊎ (l.leave_state ≡ finalized)
  pub detached_notified : (l.leave_state ≡ detached) → l.left_notified ≡ true
  pub finalized_notified : (l.leave_state ≡ finalized) → l.left_notified ≡ true
  pub dead_inactive :
      l.leave_reason ≡ dead
      → is_leaving l.leave_state ≡ true
      → (l.session_state ≡ spectating) ⊎ (l.session_state ≡ left)
  pub recalled_inactive :
      l.leave_reason ≡ recalled → is_leaving l.leave_state ≡ true → l.session_state ≡ left
  pub gone_inactive :
      (l.leave_state ≡ detached) ⊎ (l.leave_state ≡ finalized)
      → (l.session_state ≡ spectating) ⊎ (l.session_state ≡ left)

-- A step of a valid session keeps it valid.
pub step-IsValid : (l : Leave) (e : Event) → IsValid l → IsValid (step l e).1
unfolding step mark_leaving process_leave detach_leave finalize_leave
step-IsValid l channel_open v = ground arith
step-IsValid l loading_complete v = ground arith
step-IsValid l (mark reason notify now) v = ground arith
step-IsValid l (set_notify seq) v = ground arith
step-IsValid l (process notice_pending now) v = ground arith

-- The notice that separates two states of one session.
abbrev pub notice_between : Leave → Leave → List LeaveReason
notice_between l l' =
    if l.left_notified then [] else if l'.left_notified then l'.leave_reason ∷ [] else []

-- A session that was reported keeps being so, with its reason.
pub record Advances (l l' : Leave) : Type 0 where
  pub stays_notified : l.left_notified ≡ true → l'.left_notified ≡ true
  pub keeps_reason : l.left_notified ≡ true → l'.leave_reason ≡ l.leave_reason

step-Advances : (l : Leave) (e : Event) → IsValid l → Advances l (step l e).1
unfolding step mark_leaving process_leave detach_leave finalize_leave
step-Advances l channel_open v = ground arith
step-Advances l loading_complete v = ground arith
step-Advances l (mark reason notify now) v = ground arith
step-Advances l (set_notify seq) v = ground arith
step-Advances l (process notice_pending now) v = ground arith

step-notice_between :
    (l : Leave) (e : Event) → IsValid l → (step l e).0 ≡ notice_between l (step l e).1
unfolding step mark_leaving process_leave detach_leave finalize_leave
step-notice_between l channel_open v = ground arith
step-notice_between l loading_complete v = ground arith
step-notice_between l (mark reason notify now) v = ground arith
step-notice_between l (set_notify seq) v = ground arith
step-notice_between l (process notice_pending now) v = ground arith

notice_chain :
    (l l' l'' : Leave)
    → Advances l l'
    → Advances l' l''
    → (Advances l l'') × (notice_between l l' ++ notice_between l' l'' ≡ notice_between l l'')
notice_chain l l' l'' a b = ground arith

run_lem :
    (l : Leave) (es : List Event)
    → IsValid l
    → IsValid (run l es).1
      × Advances l (run l es).1
      × ((run l es).0 ≡ notice_between l (run l es).1)
unfolding run
run_lem l [] v = (v, record { stays_notified = λ h. h; keeps_reason = λ h. refl }, ground arith)
run_lem l (e ∷ es) v =
    let (v', a', n') = run_lem (step l e).1 es (step-IsValid l e v) in
    let (a, n) = notice_chain l (step l e).1 (run (step l e).1 es).1 (step-Advances l e v) a' in
    (v', a, ap₂ ◌++◌ (step-notice_between l e v) n' ∙ n)

pub fresh-IsValid : IsValid fresh_leave
fresh-IsValid = ground arith

-- Over any life of a session, whatever calls it meets and in whatever order, the main process is
-- told exactly once, with the final reason, if the session is detached or finalized at the end, and
-- otherwise it is not told at all.
pub notices_of_life :
    (es : List Event)
    → let (notices, l) = run fresh_leave es in
      (notices ≡ (elim l.leave_state [
        | LeaveState.none ↦ []
        | pending ↦ []
        | detached ↦ l.leave_reason ∷ []
        | finalized ↦ l.leave_reason ∷ []
      ]))
notices_of_life es = let (v, a, n) = run_lem fresh_leave es fresh-IsValid in ground arith

-- A dead or recalled player never acts again: over any life of a session, one that is leaving for
-- either reason, or that is detached or finalized for any reason, is not in an active state.
pub leaving_inactive :
    (es : List Event)
    → ((run fresh_leave es).1.leave_reason ≡ dead)
      ⊎ ((run fresh_leave es).1.leave_reason ≡ recalled)
      ⊎ ((run fresh_leave es).1.leave_state ≡ detached)
      ⊎ ((run fresh_leave es).1.leave_state ≡ finalized)
    → is_leaving (run fresh_leave es).1.leave_state ≡ true
    → is_active_state (run fresh_leave es).1.session_state ≡ false
leaving_inactive es h k = let (v, a, n) = run_lem fresh_leave es fresh-IsValid in ground arith
