-- ===== src/Room/Leaving/End.antt =====
-- How a room ends: its lifetime runs out, every session is marked, detached and finalized, and the room
-- asks to be destroyed.
use extraction_server.Prelude.{
  ℕ, ◌+◌, ◌^◌, ◌≤◌, ◌<◌, ◌≡◌, refl, ap, ◌∙◌, ◌==◌, Bool, true, false, leb, ◌⊎◌, inl, inr, some,
  List, [], ◌∷◌, arith, lookup, Bool-cases,
}
use extraction_server.Prelude.Lookups.{map_option, keys}
use extraction_server.Session.Leave.{
  Leave, detached, finalized, dead, is_leaving, mark_leaving, process_leave, detach_leave,
  finalize_leave, elapsed_ms, death_grace_ms,
}
use extraction_server.Session.Leave.Notice.{
  Event, channel_open, loading_complete, set_notify, mark, process, step, run,
}
use extraction_server.Session.Leave.Order.{process_leave_finalizes}
use extraction_server.Room.{Seat, Sessions, GameRoom}
use extraction_server.Room.Detach.Sight.{view}
use extraction_server.Room.Leaving.{
  Clocks, room_lifetime_ms, expire, leave_loop, mark_leaves, check_all_left, process_leaves,
  all_left,
}
use extraction_server.Room.Leaving.Lives.{Allowed}
use extraction_server.Room.Leaving.Refine.{
  mark_others-Life, mark_leaves-Life, view-all_kill, marked,
}
use extraction_server.Prelude.Members.{is_member, AreDistinct}
use extraction_server.Room.Leaving.Keys.{
  all_left_lem, keys-process_leaves, keys-leave_loop_all, keys-mark_leaves, check_all_left-sessions,
}
use extraction_server.Room.Leaving.Reserve.{process_leaves-Reserved}
use extraction_server.Room.Leaving.Calls.{
  Call, apply_calls, calls-Course, keys-apply_calls, apply_calls-Reserved,
}
use extraction_server.Room.Leaving.Rules.{Has, Life-Has, loop_rule}

-- A session that leaves, marked within these bounds.
abbrev Leaving : ℕ → ℕ → Leave → Type 0
Leaving lo hi l =
    (is_leaving l.leave_state ≡ true) × (lo ≤ l.leave_marked_at) × (l.leave_marked_at ≤ hi)

-- The same, and detached.
abbrev Gone : ℕ → ℕ → Leave → Type 0
Gone lo hi l =
    ((l.leave_state ≡ detached) ⊎ (l.leave_state ≡ finalized))
    × (lo ≤ l.leave_marked_at)
    × (l.leave_marked_at ≤ hi)

-- A session that may leave in this pass: its mark, if it has one, is within the bounds.
abbrev pub Timely : ℕ → ℕ → Leave → Type 0
Timely lo hi l =
    is_leaving l.leave_state ≡ true → (lo ≤ l.leave_marked_at) × (l.leave_marked_at ≤ hi)

abbrev Ended : Leave → Type 0
Ended l = l.leave_state ≡ finalized

kill-Leaving :
    (lo hi now : ℕ) (l : Leave)
    → Timely lo hi l
    → lo ≤ now
    → now ≤ hi
    → Leaving lo hi (mark_leaving dead 0 now l)
unfolding mark_leaving
kill-Leaving lo hi now l t a b = ground (arith, t)

step-Leaving :
    (c : Clocks) (k lo hi : ℕ)
    → lo ≤ c.marked k
    → c.marked k ≤ hi
    → (e : Event) (l : Leave) → Allowed c k e
    → Leaving lo hi l
    → Leaving lo hi (step l e).1
unfolding step mark_leaving process_leave detach_leave finalize_leave
step-Leaving c k lo hi a b channel_open l ok h = elim ok [ ]
step-Leaving c k lo hi a b loading_complete l ok h = elim ok [ ]
step-Leaving c k lo hi a b (set_notify n) l ok h = elim ok [ ]
step-Leaving c k lo hi a b (mark reason n now) l ok h = ground arith
step-Leaving c k lo hi a b (process w now) l ok h = ground arith

step-Gone :
    (c : Clocks) (k lo hi : ℕ) (e : Event) (l : Leave)
    → Allowed c k e
    → Gone lo hi l
    → Gone lo hi (step l e).1
unfolding step mark_leaving process_leave detach_leave finalize_leave
step-Gone c k lo hi channel_open l ok h = elim ok [ ]
step-Gone c k lo hi loading_complete l ok h = elim ok [ ]
step-Gone c k lo hi (set_notify n) l ok h = elim ok [ ]
step-Gone c k lo hi (mark reason n now) l ok h = ground arith
step-Gone c k lo hi (process w now) l ok h = ground arith

process_leave-Gone :
    (lo hi now : ℕ) (b : Bool) (l : Leave) → Leaving lo hi l → Gone lo hi (process_leave b now l).1
unfolding process_leave detach_leave finalize_leave
process_leave-Gone lo hi now b l h = ground arith

keep-Gone :
    (lo hi now : ℕ) (b : Bool) (l : Leave) → Gone lo hi l → Gone lo hi (process_leave b now l).1
unfolding process_leave detach_leave finalize_leave
keep-Gone lo hi now b l h = ground arith

keep-Ended : (now : ℕ) (b : Bool) (l : Leave) → Ended l → Ended (process_leave b now l).1
unfolding process_leave
keep-Ended now b l h = ground arith

Gone-Ended :
    (lo hi now : ℕ) (b : Bool) (l : Leave)
    → hi + death_grace_ms ≤ now
    → now < lo + 2 ^ 32
    → Gone lo hi l
    → Ended (process_leave b now l).1
Gone-Ended lo hi now b l late soon (inl d, x, y) =
    process_leave_finalizes l b now (inr d) (omega arith) (omega (arith, x, soon))
Gone-Ended lo hi now b l late soon (inr f, x, y) = keep-Ended now b l f

-- When the lifetime is over, the first step marks the session.
expire-Leaving :
    (lo hi : ℕ) (c : Clocks) (r : GameRoom) (k : ℕ)
    → r.lifetime_expired ≡ false
    → room_lifetime_ms ≤ elapsed_ms r.created_at c.now
    → Has (Timely lo hi) k r
    → lo ≤ c.marked k
    → c.marked k ≤ hi
    → Has (Leaving lo hi) k (expire c r)
unfolding expire
expire-Leaving lo hi c r k fresh old (s, e, t) a b =
    let over : leb room_lifetime_ms (elapsed_ms r.created_at c.now) ≡ true = ground (arith, old) in
    rw (fresh, over)
      ((
        marked dead (c.marked k) s,
        view-all_kill c k r.sessions ∙ ap (map_option (marked dead (c.marked k))) e,
        kill-Leaving lo hi (c.marked k) s.leave t a b,
      ))

check-Has : (R : Leave → Type 0) (k : ℕ) (r : GameRoom) → Has R k r → Has R k (check_all_left r)
check-Has R k r (t, e, x) = (t, ap (view k) (check_all_left-sessions r) ∙ e, x)

-- The pass in which the lifetime runs out detaches the session.
expire_pass :
    (lo hi : ℕ) (c : Clocks) (r : GameRoom) (k : ℕ)
    → r.lifetime_expired ≡ false
    → room_lifetime_ms ≤ elapsed_ms r.created_at c.now
    → is_member k (keys r.sessions) ≡ true
    → Has (Timely lo hi) k r
    → lo ≤ c.marked k
    → c.marked k ≤ hi
    → Has (Gone lo hi) k (process_leaves c r)
unfolding process_leaves mark_leaves
expire_pass lo hi c r k fresh old m h a b =
    let (s, e, t) = expire-Leaving lo hi c r k fresh old h a b in
    let r1 = mark_leaves c r in
    let marked =
      Life-Has c k (Leaving lo hi) (step-Leaving c k lo hi a b) s (expire c r) r1
        (mark_others-Life c k (expire c r) s e) t in
    check-Has (Gone lo hi) k _ (
      loop_rule c.now k (Leaving lo hi) (Gone lo hi) (process_leave-Gone lo hi c.now)
        (keep-Gone lo hi c.now) (keys r1.sessions) r1 (rw (keys-mark_leaves c r) m) marked)

-- A later pass finalizes it.
last_loop :
    (lo hi : ℕ) (c : Clocks) (r : GameRoom) (k : ℕ)
    → hi + death_grace_ms ≤ c.now
    → c.now < lo + 2 ^ 32
    → is_member k (keys r.sessions) ≡ true
    → Has (Gone lo hi) k r
    → Has Ended k (leave_loop c.now (keys (mark_leaves c r).sessions) (mark_leaves c r))
last_loop lo hi c r k late soon m (s, e, g) =
    let r1 = mark_leaves c r in
    let h = Life-Has c k (Gone lo hi) (step-Gone c k lo hi) s r r1 (mark_leaves-Life c k r s e) g in
    loop_rule c.now k (Gone lo hi) Ended (λ b l. Gone-Ended lo hi c.now b l late soon)
      (keep-Ended c.now) (keys r1.sessions) r1 (rw (keys-mark_leaves c r) m) h

check_all_left_done :
    (r : GameRoom) → all_left r.sessions ≡ true → (check_all_left r).all_left_reported ≡ true
unfolding check_all_left
check_all_left_done r h = ground arith

any-Gone : (lo hi : ℕ) (e : Event) (l : Leave) → Gone lo hi l → Gone lo hi (step l e).1
unfolding step mark_leaving process_leave detach_leave finalize_leave
any-Gone lo hi channel_open l h = h
any-Gone lo hi loading_complete l h = h
any-Gone lo hi (set_notify n) l h = ground arith
any-Gone lo hi (mark reason n now) l h = ground arith
any-Gone lo hi (process w now) l h = ground arith

run-Gone : (lo hi : ℕ) (es : List Event) (l : Leave) → Gone lo hi l → Gone lo hi (run l es).1
unfolding run
run-Gone lo hi [] l h = h
run-Gone lo hi (e ∷ es) l h = run-Gone lo hi es (step l e).1 (any-Gone lo hi e l h)

-- No call brings a session back.
calls-Gone :
    (lo hi : ℕ) (cs : List Call) (k : ℕ) (r : GameRoom)
    → Has (Gone lo hi) k r
    → Has (Gone lo hi) k (apply_calls cs r)
calls-Gone lo hi cs k r (s, e, g) =
    let a = calls-Course cs k s r e in
    (a.stage.seat, a.stage.seen, rw a.stage.leave_is (run-Gone lo hi a.events s.leave g))

member-view :
    (k : ℕ) (ss : Sessions) → is_member k (keys ss) ≡ true → (t : Seat) × (view k ss ≡ some t)
unfolding keys lookup
member-view k [] m = cc
member-view k ((j, s) ∷ ss) m = elim (Bool-cases (j == k)) [
  | inl e ↦ (s.seat, rw e refl)
  | inr e ↦ let (t, h) = member-view k ss (ground (arith, m, e)) in (t, rw e h)
]

-- A room comes to its end: once its lifetime of ten minutes is over, a pass, and a later one 5000 ms
-- after the last mark, finalize every session and reserve the destruction of the room, in all exactly
-- once, also where a player never connected or no packet was ever acked, and whatever the players,
-- their handlers and further passes do in between. The marks of the first pass, and those of sessions
-- that were leaving before it, lie between two times, the last pass less than 2^32 ms after the
-- earlier one; the room's end was not reported before.
pub room_ends :
    (lo hi : ℕ) (c d : Clocks) (cs : List Call) (r : GameRoom)
    → AreDistinct (keys r.sessions)
    → r.lifetime_expired ≡ false
    → r.all_left_reported ≡ false
    → room_lifetime_ms ≤ elapsed_ms r.created_at c.now
    → ((k : ℕ) (s : Seat) → view k r.sessions ≡ some s → Timely lo hi s.leave)
    → ((k : ℕ) → (lo ≤ c.marked k) × (c.marked k ≤ hi))
    → hi + death_grace_ms ≤ d.now
    → d.now < lo + 2 ^ 32
    → let end = process_leaves d (apply_calls cs (process_leaves c r)) in
      (all_left end.sessions ≡ true)
      × (end.all_left_reported ≡ true)
      × (end.destroy_reserved ≡ r.destroy_reserved + 1)
unfolding process_leaves
room_ends lo hi c d cs r distinct fresh quiet old timely bounds late soon =
    let r1 = apply_calls cs (process_leaves c r) in
    let r2 = leave_loop d.now (keys (mark_leaves d r1).sessions) (mark_leaves d r1) in
    let before : keys r1.sessions ≡ keys r.sessions =
      keys-apply_calls cs (process_leaves c r) ∙ keys-process_leaves c r in
    let same : keys r2.sessions ≡ keys r.sessions = keys-leave_loop_all d r1 ∙ before in
    let each : (j : ℕ) → is_member j (keys r2.sessions) ≡ true → Has Ended j r2 = λ j m2.
      let m : is_member j (keys r.sessions) ≡ true = rw (← same) m2 in
      let (s, e) = member-view j r.sessions m in
      last_loop lo hi d r1 j late soon (rw before m) (
        calls-Gone lo hi cs j (process_leaves c r)
          (expire_pass lo hi c r j fresh old m (s, e, timely j s e) (bounds j).0 (bounds j).1)) in
    let done =
      all_left_lem r2.sessions (rw same distinct)
        (λ j m. let (t, e, f) = each j m in (t, e, rw f refl)) in
    let n = r.destroy_reserved in
    let reported = check_all_left_done r2 done in
    let counted = process_leaves-Reserved n d r1 (
      apply_calls-Reserved n cs (process_leaves c r)
        (process_leaves-Reserved n c r (rw quiet refl))) in
    (rw (check_all_left-sessions r2) done, reported, counted ∙ rw reported refl)
