-- ===== src/Room/Leaving/Refine.antt =====
-- The room as its sessions see it: whatever a pass of `ProcessLeaves` does, each session lives through
-- some of the calls of Session/Leave/Notice, and the main process is told what those calls tell it.
use extraction_server.Prelude.{
  ℕ, ◌≡◌, refl, ap, ◌∙◌, ◌==◌, ==_iff, if◌then◌else◌, ◌&&◌, not, Option, none, some, List, [], ◌∷◌,
  ◌++◌, arith, lookup, Bool-cases, inl, inr, leb, All,
}
use extraction_server.Prelude.Lookups.{
  map_option, map_values, keys, lookup-map_values, lookup-adjust,
}
use extraction_server.Session.Leave.{LeaveReason, dead, disconnected, mark_leaving, elapsed_ms}
use extraction_server.Session.Leave.Notice.{Event, run}
use extraction_server.Room.{Seat, PlayerSession, Sessions, GameRoom, find_session_by_object_id}
use extraction_server.Room.Detach.Sight.{view}
use extraction_server.Room.Leaving.{
  Clocks, kill, all_kill, expire, dead_object_ids, mark_owner, mark_dead, detect, is_silent,
  detect_disconnected_sessions, clear_queue, leave_loop, check_all_left, mark_leaves, mark_others,
  process_leaves, room_lifetime_ms,
}
use extraction_server.Room.Leaving.Stages.{reasons_of}
use extraction_server.Room.Leaving.Lives.{
  Allowed, Life, Life-trans, Life-still, Life-mark, leave_loop-Life,
}

-- A write of the leave state, as `view` sees it.
abbrev pub marked : LeaveReason → ℕ → Seat → Seat
marked reason now s = record s { leave = mark_leaving reason 0 now s.leave }

map_option-kill :
    (c : Clocks) (k : ℕ) (o : Option PlayerSession)
    → map_option (λ (p : PlayerSession). p.seat) (map_option (kill c k) o)
      ≡ map_option (marked dead (c.marked k)) (map_option (λ (p : PlayerSession). p.seat) o)
unfolding kill
map_option-kill c k none = refl
map_option-kill c k (some p) = refl

pub view-all_kill :
    (c : Clocks) (k : ℕ) (ss : Sessions)
    → view k (all_kill c ss) ≡ map_option (marked dead (c.marked k)) (view k ss)
unfolding all_kill
view-all_kill c k ss =
    ap (map_option (λ (p : PlayerSession). p.seat)) (lookup-map_values (kill c) k ss)
    ∙ map_option-kill c k (lookup k ss)

expire-Life :
    (c : Clocks) (k : ℕ) (r : GameRoom) (s : Seat)
    → view k r.sessions ≡ some s
    → Life c k s r (expire c r)
unfolding expire
expire-Life c k r s h =
    elim (Bool-cases
      (not r.lifetime_expired && leb room_lifetime_ms (elapsed_ms r.created_at c.now))) [
        | inr e ↦ rw e (Life-still c k s s r r refl h refl)
        | inl e ↦ rw e (
            Life-mark c k s r _ dead (inl refl)
              (view-all_kill c k r.sessions ∙ ap (map_option (marked dead (c.marked k))) h) refl)
      ]

-- A room with other sessions.
abbrev with_sessions : Sessions → GameRoom → GameRoom
with_sessions ss r = record r { sessions = ss }

mark_owner-Life :
    (c : Clocks) (k : ℕ) (o : Option ℕ) (r : GameRoom) (s : Seat)
    → view k r.sessions ≡ some s
    → Life c k s r (with_sessions (mark_owner c o r.sessions) r)
unfolding mark_owner
mark_owner-Life c k none r s h = Life-still c k s s r r refl h refl
mark_owner-Life c k (some j) r s h =
    let seen =
      ap (map_option (λ (p : PlayerSession). p.seat)) (lookup-adjust (kill c j) j k r.sessions) in
    elim (Bool-cases (k == j)) [
      | inl e ↦
          Life-mark c k s r _ dead (inl refl)
            (seen
              ∙ rw (e, ← ((==_iff k j).0 e)) (map_option-kill c k (lookup k r.sessions))
              ∙ ap (map_option (marked dead (c.marked k))) h)
            refl
      | inr e ↦ Life-still c k s s r _ refl (seen ∙ rw e h) refl
    ]

mark_dead-Life :
    (c : Clocks) (k : ℕ) (ids : List ℕ) (r : GameRoom) (s : Seat)
    → view k r.sessions ≡ some s
    → Life c k s r (with_sessions (mark_dead c ids r.sessions) r)
unfolding mark_dead
mark_dead-Life c k [] r s h = Life-still c k s s r r refl h refl
mark_dead-Life c k (id ∷ ids) r s h =
    let o = find_session_by_object_id id r.sessions in
    let r1 = with_sessions (mark_owner c o r.sessions) r in
    let a = mark_owner-Life c k o r s h in
    Life-trans c k s r r1 _ a (mark_dead-Life c k ids r1 a.stage.seat a.stage.seen)

map_option-detect :
    (c : Clocks) (k : ℕ) (o : Option PlayerSession) (s : Seat)
    → map_option (λ (p : PlayerSession). p.seat) o ≡ some s
    → map_option (λ (p : PlayerSession). p.seat) (map_option (detect c k) o)
      ≡ some (if is_silent c.now_ms s then marked disconnected (c.marked k) s else s)
unfolding detect
map_option-detect c k none s h = cc
map_option-detect c k (some p) s h = ground arith

view-detect :
    (c : Clocks) (k : ℕ) (ss : Sessions) (s : Seat)
    → view k ss ≡ some s
    → view k (detect_disconnected_sessions c ss)
      ≡ some (if is_silent c.now_ms s then marked disconnected (c.marked k) s else s)
unfolding detect_disconnected_sessions
view-detect c k ss s h =
    ap (map_option (λ (p : PlayerSession). p.seat)) (lookup-map_values (detect c) k ss)
    ∙ map_option-detect c k (lookup k ss) s h

detect-Life :
    (c : Clocks) (k : ℕ) (r : GameRoom) (s : Seat)
    → view k r.sessions ≡ some s
    → Life c k s r (with_sessions (detect_disconnected_sessions c r.sessions) r)
detect-Life c k r s h =
    let seen = view-detect c k r.sessions s h in
    elim (Bool-cases (is_silent c.now_ms s)) [
      | inl e ↦ Life-mark c k s r _ disconnected (inr refl) (seen ∙ rw e refl) refl
      | inr e ↦ Life-still c k s s r _ refl (seen ∙ rw e refl) refl
    ]

map_option-clear :
    (k : ℕ) (o : Option PlayerSession)
    → map_option (λ (p : PlayerSession). p.seat) (map_option (clear_queue k) o)
      ≡ map_option (λ (p : PlayerSession). p.seat) o
unfolding clear_queue
map_option-clear k none = refl
map_option-clear k (some p) = ground arith

clear_queue-Life :
    (c : Clocks) (k : ℕ) (r : GameRoom) (s : Seat)
    → view k r.sessions ≡ some s
    → Life c k s r (with_sessions (map_values clear_queue r.sessions) r)
clear_queue-Life c k r s h =
    Life-still c k s s r _ refl
      (ap (map_option (λ (p : PlayerSession). p.seat)) (lookup-map_values clear_queue k r.sessions)
        ∙ map_option-clear k (lookup k r.sessions)
        ∙ h)
      refl

pub mark_others-Life :
    (c : Clocks) (k : ℕ) (r : GameRoom) (s : Seat)
    → view k r.sessions ≡ some s
    → Life c k s r (mark_others c r)
unfolding mark_others
mark_others-Life c k r s h =
    let ids = dead_object_ids r.player_objects in
    let r2 = with_sessions (mark_dead c ids r.sessions) r in
    let a2 = mark_dead-Life c k ids r s h in
    let r3 = with_sessions (detect_disconnected_sessions c r2.sessions) r2 in
    let a3 = Life-trans c k s r r2 r3 a2 (detect-Life c k r2 a2.stage.seat a2.stage.seen) in
    Life-trans c k s r r3 _ a3 (clear_queue-Life c k r3 a3.stage.seat a3.stage.seen)

pub mark_leaves-Life :
    (c : Clocks) (k : ℕ) (r : GameRoom) (s : Seat)
    → view k r.sessions ≡ some s
    → Life c k s r (mark_leaves c r)
unfolding mark_leaves
mark_leaves-Life c k r s h =
    let a = expire-Life c k r s h in
    Life-trans c k s r (expire c r) _ a
      (mark_others-Life c k (expire c r) a.stage.seat a.stage.seen)

check_all_left-Life :
    (c : Clocks) (k : ℕ) (r : GameRoom) (s : Seat)
    → view k r.sessions ≡ some s
    → Life c k s r (check_all_left r)
unfolding check_all_left
check_all_left-Life c k r s h = ground (arith, Life-still c k s s r (check_all_left r) refl)

-- A pass of `ProcessLeaves` over a room is, for each of its sessions, some run of the calls of a
-- session's life, all of them marks of death or of a lost connection and turns of the leave loop, at
-- the times of the pass: the leave state at the end is that of the run, and the reasons that the main
-- process is told of the session are those of the run, in order.
pub process_leaves_refines :
    (c : Clocks) (k : ℕ) (r : GameRoom) (s : Seat)
    → view k r.sessions ≡ some s
    → (es : List Event) × All (Allowed c k) es
      × (t : Seat) × (view k (process_leaves c r).sessions ≡ some t)
      × (t.leave ≡ (run s.leave es).1)
      × (reasons_of k (process_leaves c r).left_reports
          ≡ reasons_of k r.left_reports ++ (run s.leave es).0)
unfolding process_leaves
process_leaves_refines c k r s h =
    let r1 = mark_leaves c r in
    let a1 = mark_leaves-Life c k r s h in
    let r2 = leave_loop c.now (keys r1.sessions) r1 in
    let a2 =
      Life-trans c k s r r1 r2 a1
        (leave_loop-Life c k (keys r1.sessions) r1 a1.stage.seat a1.stage.seen) in
    let a3 = Life-trans c k s r r2 _ a2 (check_all_left-Life c k r2 a2.stage.seat a2.stage.seen) in
    (a3.events, a3.allowed, a3.stage.seat, a3.stage.seen, a3.stage.leave_is, a3.stage.tells)
