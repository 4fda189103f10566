-- ===== src/Room/Leaving/Reserve.antt =====
-- The destruction of a room is reserved once: `CheckAllLeft` of src/DedicateProcess/GameRoom.cpp.
use extraction_server.Prelude.{
  ℕ, ◌+◌, ◌≡◌, refl, ap, ◌∙◌, if◌then◌else◌, Option, none, some, List, [], ◌∷◌, lookup, arith,
}
use extraction_server.Session.Leave.{is_pending, finalize_leave}
use extraction_server.Room.{PlayerSession, GameRoom}
use extraction_server.Room.Detach.{detach_player}
use extraction_server.Room.Detach.Flags.{flags, flags-if, flags-report, flags-detach_player}
use extraction_server.Room.Leaving.{
  Clocks, expire, mark_leaves, mark_others, finalize_session, finalize_found, finalize_if_ready,
  detach_found, detach_if_pending, leave_loop, check_all_left, process_leaves,
}
use extraction_server.Prelude.Lookups.{keys}

flags-detach_found :
    (k : ℕ) (o : Option PlayerSession) (r : GameRoom) → flags (detach_found k o r) ≡ flags r
unfolding detach_found
flags-detach_found k none r = refl
flags-detach_found k (some s) r =
    flags-if (is_pending s.seat.leave.leave_state) (detach_player k s.seat r) r r
      (flags-detach_player k s.seat r) refl

flags-finalize_session :
    (k : ℕ) (s : PlayerSession) (r : GameRoom) → flags (finalize_session k s r) ≡ flags r
unfolding finalize_session
flags-finalize_session k s r = flags-report (finalize_leave s.seat.leave).0 k s.seat _

flags-finalize_found :
    (now k : ℕ) (o : Option PlayerSession) (r : GameRoom)
    → flags (finalize_found now k o r) ≡ flags r
unfolding finalize_found
flags-finalize_found now k none r = refl
flags-finalize_found now k (some s) r =
    flags-if _ (finalize_session k s r) r r (flags-finalize_session k s r) refl

flags-leave_loop : (now : ℕ) (ks : List ℕ) (r : GameRoom) → flags (leave_loop now ks r) ≡ flags r
unfolding leave_loop detach_if_pending finalize_if_ready
flags-leave_loop now [] r = refl
flags-leave_loop now (k ∷ ks) r =
    flags-leave_loop now ks _
    ∙ flags-finalize_found now k _ _
    ∙ flags-detach_found k (lookup k r.sessions) r

flags-mark_leaves : (c : Clocks) (r : GameRoom) → flags (mark_leaves c r) ≡ flags r
unfolding mark_leaves mark_others expire
flags-mark_leaves c r = flags-if _ _ r r refl refl

-- The destruction was reserved so often, and once more if the end of the room was reported.
abbrev pub Reserved : ℕ → GameRoom → Type 0
Reserved n r = r.destroy_reserved ≡ (if r.all_left_reported then n + 1 else n)

check_all_left-Reserved : (n : ℕ) (r : GameRoom) → Reserved n r → Reserved n (check_all_left r)
unfolding check_all_left
check_all_left-Reserved n r h = ground (arith, h)

again : (n : ℕ) (r r' : GameRoom) → flags r' ≡ flags r → Reserved n r → Reserved n r'
again n r r' e h = rw (ap (λ p. p.1) e, ap (λ p. p.0) e) h

-- A pass keeps this.
pub process_leaves-Reserved :
    (n : ℕ) (c : Clocks) (r : GameRoom) → Reserved n r → Reserved n (process_leaves c r)
unfolding process_leaves
process_leaves-Reserved n c r h =
    let r1 = mark_leaves c r in
    let r2 = leave_loop c.now (keys r1.sessions) r1 in
    check_all_left-Reserved n r2
      (again n r r2 (flags-leave_loop c.now (keys r1.sessions) r1 ∙ flags-mark_leaves c r) h)
