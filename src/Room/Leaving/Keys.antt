-- ===== src/Room/Leaving/Keys.antt =====
-- A pass adds no session to the room and takes none out.
use extraction_server.Prelude.{
  ℕ, ◌≡◌, refl, sym, ap, ◌∙◌, ◌==◌, ==_iff, ==_refl, true, false, Option, none, some, List, [], ◌∷◌,
  arith, lookup, Bool-cases, Option-cases, inl, inr,
}
use extraction_server.Prelude.Lookups.{keys, keys-map_values, keys-adjust}
use extraction_server.Prelude.Members.{is_member, AreDistinct}
use extraction_server.Session.Leave.{is_finalized, finalize_leave}
use extraction_server.Room.{Seat, PlayerSession, Sessions, GameRoom, find_session_by_object_id}
use extraction_server.Room.Detach.Sight.{view}
use extraction_server.Room.Detach.Effect.{detach_player_lem, report-sessions}
use extraction_server.Room.Leaving.{
  Clocks, kill, all_kill, expire, dead_object_ids, mark_owner, mark_dead, detect,
  detect_disconnected_sessions, clear_queue, leave_loop, check_all_left, mark_leaves, mark_others,
  process_leaves, finalize_session, finalize_found, detach_found, finalize_if_ready,
  detach_if_pending, all_left,
}

keys-detach_found :
    (k : ℕ) (r : GameRoom) (p : PlayerSession)
    → view k r.sessions ≡ some p.seat
    → keys (detach_found k (some p) r).sessions ≡ keys r.sessions
unfolding detach_found
keys-detach_found k r p h = ground (arith, (detach_player_lem k p.seat r h).key_list)

keys-detach_if_pending :
    (k : ℕ) (r : GameRoom) → keys (detach_if_pending k r).sessions ≡ keys r.sessions
unfolding detach_if_pending
keys-detach_if_pending k r = elim (Option-cases (lookup k r.sessions)) [
  | inl e ↦ rw (e, detach_found) refl
  | inr (p, e) ↦ rw e (keys-detach_found k r p (rw e refl))
]

keys-finalize_session :
    (k : ℕ) (p : PlayerSession) (r : GameRoom)
    → keys (finalize_session k p r).sessions ≡ keys r.sessions
unfolding finalize_session
keys-finalize_session k p r =
    ap keys (report-sessions (finalize_leave p.seat.leave).0 k p.seat _)
    ∙ keys-adjust _ k r.sessions

keys-finalize_found :
    (now k : ℕ) (o : Option PlayerSession) (r : GameRoom)
    → keys (finalize_found now k o r).sessions ≡ keys r.sessions
unfolding finalize_found
keys-finalize_found now k none r = refl
keys-finalize_found now k (some p) r = ground (arith, keys-finalize_session k p r)

keys-leave_loop :
    (now : ℕ) (ks : List ℕ) (r : GameRoom) → keys (leave_loop now ks r).sessions ≡ keys r.sessions
unfolding leave_loop finalize_if_ready
keys-leave_loop now [] r = refl
keys-leave_loop now (k ∷ ks) r =
    keys-leave_loop now ks _
    ∙ keys-finalize_found now k _ (detach_if_pending k r)
    ∙ keys-detach_if_pending k r

keys-mark_owner : (c : Clocks) (o : Option ℕ) (ss : Sessions) → keys (mark_owner c o ss) ≡ keys ss
unfolding mark_owner
keys-mark_owner c none ss = refl
keys-mark_owner c (some k) ss = keys-adjust (kill c k) k ss

keys-mark_dead : (c : Clocks) (ids : List ℕ) (ss : Sessions) → keys (mark_dead c ids ss) ≡ keys ss
unfolding mark_dead
keys-mark_dead c [] ss = refl
keys-mark_dead c (id ∷ ids) ss =
    keys-mark_dead c ids _ ∙ keys-mark_owner c (find_session_by_object_id id ss) ss

keys-expire : (c : Clocks) (r : GameRoom) → keys (expire c r).sessions ≡ keys r.sessions
unfolding expire all_kill
keys-expire c r = ground (arith, keys-map_values (kill c) r.sessions)

pub keys-mark_leaves :
    (c : Clocks) (r : GameRoom) → keys (mark_leaves c r).sessions ≡ keys r.sessions
unfolding mark_leaves mark_others detect_disconnected_sessions
keys-mark_leaves c r =
    keys-map_values clear_queue _
    ∙ keys-map_values (detect c) _
    ∙ keys-mark_dead c (dead_object_ids (expire c r).player_objects) _
    ∙ keys-expire c r

pub check_all_left-sessions : (r : GameRoom) → (check_all_left r).sessions ≡ r.sessions
unfolding check_all_left
check_all_left-sessions r = ground arith

pub keys-process_leaves :
    (c : Clocks) (r : GameRoom) → keys (process_leaves c r).sessions ≡ keys r.sessions
unfolding process_leaves
keys-process_leaves c r =
    let r1 = mark_leaves c r in
    ap keys (check_all_left-sessions (leave_loop c.now (keys r1.sessions) r1))
    ∙ keys-leave_loop c.now (keys r1.sessions) r1
    ∙ keys-mark_leaves c r

pub keys-leave_loop_all :
    (c : Clocks) (r : GameRoom)
    → let r1 = mark_leaves c r in
      keys (leave_loop c.now (keys r1.sessions) r1).sessions ≡ keys r.sessions
keys-leave_loop_all c r =
    let r1 = mark_leaves c r in keys-leave_loop c.now (keys r1.sessions) r1 ∙ keys-mark_leaves c r

view-skip :
    (j k : ℕ) (s : PlayerSession) (ss : Sessions)
    → is_member k (keys ss) ≡ false
    → is_member j (keys ss) ≡ true
    → view j ((k, s) ∷ ss) ≡ view j ss
unfolding lookup
view-skip j k s ss a b = elim (Bool-cases (k == j)) [
  | inr e ↦ rw e refl
  | inl e ↦ absurd (clash ((==_iff k j).0 e))
]
  where
    clash : k ≡ j → ⊥
    clash e = let a' = rw e at a in cc

view-head :
    (k : ℕ) (s : PlayerSession) (ss : Sessions) (t : Seat)
    → view k ((k, s) ∷ ss) ≡ some t
    → s.seat ≡ t
unfolding lookup
view-head k s ss t e =
    let h : view k ((k, s) ∷ ss) ≡ some s.seat = rw (==_refl k) refl in
    let g : some s.seat ≡ some t = sym h ∙ e in cc

-- `CheckAllLeft` sees every session FINALIZED if each one is, looked up by its id.
pub all_left_lem :
    (ss : Sessions)
    → AreDistinct (keys ss)
    → ((j : ℕ)
        → is_member j (keys ss) ≡ true
        → (t : Seat) × (view j ss ≡ some t) × (is_finalized t.leave.leave_state ≡ true))
    → all_left ss ≡ true
unfolding all_left keys
all_left_lem [] d h = refl
all_left_lem ((k, s) ∷ ss) (new, d) h =
    let (t, e, f) = h k (rw (==_refl k) refl) in
    let own : is_finalized s.seat.leave.leave_state ≡ true = rw (view-head k s ss t e) f in
    let rest = all_left_lem ss d (λ j m.
      let (u, p, q) = h j (ground (arith, m)) in (u, sym (view-skip j k s ss new m) ∙ p, q)) in
    rw (own, rest) refl
