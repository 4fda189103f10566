-- ===== src/Room/Leaving.antt =====
-- `ProcessLeaves` of src/DedicateProcess/GameRoom.cpp and its parts: the end of the room's lifetime,
-- the dead players, the silent clients, the leave loop and `CheckAllLeft`.
pub mod Stages
pub mod Turns
pub mod Lives
pub mod Refine
pub mod Keys
pub mod Rules
pub mod Reserve
pub mod End
pub mod Grace
pub mod Calls
use extraction_server.Prelude.{
  ℕ, ◌+◌, ◌-◌, leb, ltb, ◌==◌, if◌then◌else◌, Bool, true, false, not, ◌&&◌, ◌||◌, Option, none,
  some, List, [], ◌∷◌, ◌++◌, lookup, adjust, keep_if,
}
use extraction_server.Prelude.Lookups.{map_values, keys}
use extraction_server.Prelude.Words.{sub32}
use extraction_server.Objects.Combat.{CombatObject}
use extraction_server.Session.Leave.{
  Leave, dead, disconnected, is_inplay, is_leaving, is_pending, is_detached, is_finalized,
  mark_leaving, finalize_leave, is_finalize_ready, elapsed_ms,
}
use extraction_server.Room.{
  Seat, PlayerSession, Sessions, GameRoom, Channel, find_session_by_object_id,
}
use extraction_server.Room.Detach.{detach_player, report}

abbrev pub room_lifetime_ms : ℕ
room_lifetime_ms = 600000

abbrev pub disconnect_timeout_ms : ℕ
disconnect_timeout_ms = 6000

-- The clock readings of one pass: the one at its start, the one that `MarkLeaving` takes for each
-- session, and `NowMs` of `DetectDisconnectedSessions`.
pub record Clocks : Type 0 where
  pub now : ℕ
  pub marked : ℕ → ℕ
  pub now_ms : ℕ

-- A session whose leave state is written.
abbrev pub with_leave : (Leave → Leave) → PlayerSession → PlayerSession
with_leave f s = record s { seat = record s.seat { leave = f s.seat.leave } }

-- The loop body of `AllKill`
unfoldable pub kill : Clocks → ℕ → PlayerSession → PlayerSession
kill c k s = with_leave (mark_leaving dead 0 (c.marked k)) s

-- `AllKill`
unfoldable pub all_kill : Clocks → Sessions → Sessions
unfolding kill
all_kill c ss = map_values (kill c) ss

-- The first step of `ProcessLeaves`
unfoldable pub expire : Clocks → GameRoom → GameRoom
unfolding all_kill
expire c r =
    if not r.lifetime_expired && leb room_lifetime_ms (elapsed_ms r.created_at c.now)
    then record r { lifetime_expired = true; sessions = all_kill c r.sessions }
    else r

-- The first loop: the objects whose death waits.
unfoldable pub dead_object_ids : List (ℕ × CombatObject) → List ℕ
dead_object_ids [] = []
dead_object_ids ((id, o) ∷ os) =
    let rest = dead_object_ids os in if o.death_pending then id ∷ rest else rest

mark_owner : Clocks → Option ℕ → Sessions → Sessions
unfolding kill
mark_owner c none ss = ss
mark_owner c (some k) ss = adjust k (kill c k) ss

-- The second loop
unfoldable pub mark_dead : Clocks → List ℕ → Sessions → Sessions
unfolding mark_owner
mark_dead c [] ss = ss
mark_dead c (id ∷ ids) ss = mark_dead c ids (mark_owner c (find_session_by_object_id id ss) ss)

-- Is the client silent for too long? An echo of 0 is none.
unfoldable pub is_silent : ℕ → Seat → Bool
is_silent now_ms s =
    (is_inplay s.leave.session_state && not (is_leaving s.leave.leave_state))
    && (not (s.last_echo_ts == 0) && leb disconnect_timeout_ms (sub32 now_ms s.last_echo_ts))

-- The loop body of `DetectDisconnectedSessions`
unfoldable pub detect : Clocks → ℕ → PlayerSession → PlayerSession
unfolding is_silent
detect c k s =
    if is_silent c.now_ms s.seat then with_leave (mark_leaving disconnected 0 (c.marked k)) s else s

-- `DetectDisconnectedSessions`
unfoldable pub detect_disconnected_sessions : Clocks → Sessions → Sessions
unfolding detect
detect_disconnected_sessions c ss = map_values (detect c) ss

-- `ClearPendingReliableExcept`, on the numbers
unfoldable pub clear_pending_reliable_except : ℕ → Channel → Channel
clear_pending_reliable_except keep c = record c {
  pending = keep_if (λ seq. seq == keep && not (keep == 0)) c.pending;
}

-- The body of the loop that clears the queues before any session is detached.
unfoldable pub clear_queue : ℕ → PlayerSession → PlayerSession
unfolding clear_pending_reliable_except
clear_queue k s =
    if is_pending s.seat.leave.leave_state
    then record s {
      channel = clear_pending_reliable_except s.seat.leave.leave_notify_r_seq s.channel;
    }
    else s

-- `IsReliablePending`, on the numbers
unfoldable pub is_waiting : ℕ → List ℕ → Bool
is_waiting seq [] = false
is_waiting seq (x ∷ xs) = x == seq || is_waiting seq xs

-- `FinalizeLeave` of the session of an id
unfoldable pub finalize_session : ℕ → PlayerSession → GameRoom → GameRoom
unfolding clear_pending_reliable_except
finalize_session k s r =
    let (sent, l) = finalize_leave s.seat.leave in
    report sent k s.seat (record r {
      sessions =
          adjust k
            (λ t. record t {
              seat = record t.seat { leave = l };
              channel = clear_pending_reliable_except 0 t.channel;
            })
            r.sessions;
    })

pub finalize_found : ℕ → ℕ → Option PlayerSession → GameRoom → GameRoom
unfolding finalize_session is_waiting
finalize_found now k none r = r
finalize_found now k (some s) r =
    if is_detached s.seat.leave.leave_state
      && is_finalize_ready s.seat.leave
          (is_waiting s.seat.leave.leave_notify_r_seq s.channel.pending) now
    then finalize_session k s r
    else r

-- The second test of the leave loop.
unfoldable pub finalize_if_ready : ℕ → ℕ → GameRoom → GameRoom
unfolding finalize_found
finalize_if_ready now k r = finalize_found now k (lookup k r.sessions) r

pub detach_found : ℕ → Option PlayerSession → GameRoom → GameRoom
detach_found k none r = r
detach_found k (some s) r =
    if is_pending s.seat.leave.leave_state then detach_player k s.seat r else r

-- The first test of the leave loop.
unfoldable pub detach_if_pending : ℕ → GameRoom → GameRoom
unfolding detach_found
detach_if_pending k r = detach_found k (lookup k r.sessions) r

-- The leave loop, over the ids of the sessions.
unfoldable pub leave_loop : ℕ → List ℕ → GameRoom → GameRoom
unfolding detach_if_pending finalize_if_ready
leave_loop now [] r = r
leave_loop now (k ∷ ks) r = leave_loop now ks (finalize_if_ready now k (detach_if_pending k r))

-- Are all sessions FINALIZED?
unfoldable pub all_left : Sessions → Bool
all_left [] = true
all_left ((k, s) ∷ ss) = is_finalized s.seat.leave.leave_state && all_left ss

-- `CheckAllLeft`; `ReserveRoomDestroy` is counted.
unfoldable pub check_all_left : GameRoom → GameRoom
unfolding all_left
check_all_left r =
    if r.all_left_reported
    then r
    else if not (all_left r.sessions)
    then r
    else record r { all_left_reported = true; destroy_reserved = r.destroy_reserved + 1 }

-- The marks of a pass after that of the lifetime, and the queues that they clear.
unfoldable pub mark_others : Clocks → GameRoom → GameRoom
unfolding dead_object_ids mark_dead detect_disconnected_sessions clear_queue
mark_others c r =
    let marked = mark_dead c (dead_object_ids r.player_objects) r.sessions in
    record r { sessions = map_values clear_queue (detect_disconnected_sessions c marked) }

-- All marks of a pass.
unfoldable pub mark_leaves : Clocks → GameRoom → GameRoom
unfolding expire mark_others
mark_leaves c r = mark_others c (expire c r)

-- `ProcessLeaves`
unfoldable pub process_leaves : Clocks → GameRoom → GameRoom
unfolding mark_leaves leave_loop check_all_left
process_leaves c r =
    let r1 = mark_leaves c r in check_all_left (leave_loop c.now (keys r1.sessions) r1)

-- `GetRemainingLifetimeMs`
unfoldable pub get_remaining_lifetime_ms : ℕ → GameRoom → ℕ
get_remaining_lifetime_ms now r =
    let elapsed = elapsed_ms r.created_at now in
    if leb room_lifetime_ms elapsed then 0 else room_lifetime_ms - elapsed
