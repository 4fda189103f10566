-- ===== src/Room/Leaving/Lives.antt =====
-- The calls that a session lives through in a pass of `ProcessLeaves`, and the leave loop as such a
-- life.
use extraction_server.Prelude.{
  ℕ, ◌≡◌, refl, sym, ap, ◌∙◌, ◌==◌, ==_iff, some, List, [], ◌∷◌, ◌++◌, Bool-cases, inl, inr, All,
  All-append, ◌⊎◌,
}
use mathlib.Core.List.{append_assoc, append-nil}
use extraction_server.Session.Leave.{
  Leave, LeaveReason, dead, disconnected, mark_leaving, process_leave,
}
use extraction_server.Session.Leave.Notice.{Event, mark, process, step, run}
use extraction_server.Room.{Seat, GameRoom}
use extraction_server.Room.Detach.Sight.{view}
use extraction_server.Room.Leaving.{Clocks, leave_loop}
use extraction_server.Room.Leaving.Stages.{reasons_of, Stage}
use extraction_server.Room.Leaving.Turns.{Stage-trans, turn, turn-own, turn-Apart}

-- The calls that a pass with these clock readings makes on the session of an id: marks of death and
-- of a lost connection, without a notice to wait for, and turns of the leave loop.
abbrev pub Allowed : Clocks → ℕ → Event → Type 0
Allowed c k (mark reason notify now) =
    ((reason ≡ dead) ⊎ (reason ≡ disconnected)) × (notify ≡ 0) × (now ≡ c.marked k)
Allowed c k (process b now) = now ≡ c.now
Allowed c k _ = ⊥

-- The session lives through these calls from one room to the next.
pub record Life (c : Clocks) (k : ℕ) (s : Seat) (r r' : GameRoom) : Type 0 where
  pub events : List Event
  pub allowed : All (Allowed c k) events
  pub stage : Stage k r r' (run s.leave events).1 (run s.leave events).0

run-append :
    (l : Leave) (es fs : List Event)
    → ((run l (es ++ fs)).1 ≡ (run (run l es).1 fs).1)
      × ((run l (es ++ fs)).0 ≡ (run l es).0 ++ (run (run l es).1 fs).0)
unfolding run
run-append l [] fs = (refl, refl)
run-append l (e ∷ es) fs =
    let (a, b) = run-append (step l e).1 es fs in
    (
      a,
      ap (λ xs. (step l e).0 ++ xs) b
          ∙ sym (
              append_assoc (step l e).0 (run (step l e).1 es).0 (run (run (step l e).1 es).1 fs).0),
    )

pub Stage-append :
    (k : ℕ) (r r' r'' : GameRoom) (l l' : Leave) (es fs : List Event)
    → l' ≡ (run l es).1
    → Stage k r r' (run l es).1 (run l es).0
    → Stage k r' r'' (run l' fs).1 (run l' fs).0
    → Stage k r r'' (run l (es ++ fs)).1 (run l (es ++ fs)).0
Stage-append k r r' r'' l l' es fs e a b =
    let (p, q) = run-append l es fs in
    rw (p, q) (Stage-trans k r r' r'' (run l es).1 _ (run l es).0 _ a (rw e at b))

pub Life-trans :
    (c : Clocks) (k : ℕ) (s : Seat) (r r' r'' : GameRoom) (a : Life c k s r r')
    → Life c k a.stage.seat r' r''
    → Life c k s r r''
Life-trans c k s r r' r'' a b = record {
  events = a.events ++ b.events;
  allowed = All-append (Allowed c k) a.events b.events a.allowed b.allowed;
  stage =
      Stage-append k r r' r'' s.leave a.stage.seat.leave a.events b.events a.stage.leave_is a.stage
        b.stage;
}

pub Life-still :
    (c : Clocks) (k : ℕ) (s t : Seat) (r r' : GameRoom)
    → t.leave ≡ s.leave
    → view k r'.sessions ≡ some t
    → reasons_of k r'.left_reports ≡ reasons_of k r.left_reports
    → Life c k s r r'
unfolding run
Life-still c k s t r r' e h g = record {
  events = [];
  allowed = tt;
  stage = record {
    seat = t;
    seen = h;
    leave_is = e;
    tells = g ∙ sym (append-nil (reasons_of k r.left_reports));
  };
}

pub Life-mark :
    (c : Clocks) (k : ℕ) (s : Seat) (r r' : GameRoom) (reason : LeaveReason)
    → (reason ≡ dead) ⊎ (reason ≡ disconnected)
    → view k r'.sessions ≡ some (record s { leave = mark_leaving reason 0 (c.marked k) s.leave })
    → r'.left_reports ≡ r.left_reports
    → Life c k s r r'
unfolding run step
Life-mark c k s r r' reason d h g = record {
  events = mark reason 0 (c.marked k) ∷ [];
  allowed = ((d, refl, refl), tt);
  stage = record {
    seat = record s { leave = mark_leaving reason 0 (c.marked k) s.leave };
    seen = h;
    leave_is = refl;
    tells = ap (reasons_of k) g ∙ sym (append-nil (reasons_of k r.left_reports));
  };
}

turn-Life :
    (c : Clocks) (k : ℕ) (r : GameRoom) (s : Seat)
    → view k r.sessions ≡ some s
    → Life c k s r (turn c.now k r)
unfolding run step
turn-Life c k r s h =
    let (b, st) = turn-own c.now k r s h in
    record {
      events = process b c.now ∷ [];
      allowed = (refl, tt);
      stage = rw (append-nil (process_leave b c.now s.leave).0) st;
    }

turn_at-Life :
    (c : Clocks) (k j : ℕ) (r : GameRoom) (s : Seat)
    → k ≡ j
    → view k r.sessions ≡ some s
    → Life c k s r (turn c.now j r)
turn_at-Life c k j r s e h = rw (← e) (turn-Life c k r s h)

pub leave_loop-Life :
    (c : Clocks) (k : ℕ) (ks : List ℕ) (r : GameRoom) (s : Seat)
    → view k r.sessions ≡ some s
    → Life c k s r (leave_loop c.now ks r)
unfolding leave_loop
leave_loop-Life c k [] r s h = Life-still c k s s r r refl h refl
leave_loop-Life c k (j ∷ js) r s h = elim (Bool-cases (k == j)) [
  | inl e ↦
      let a = turn_at-Life c k j r s ((==_iff k j).0 e) h in
      Life-trans c k s r (turn c.now j r) _ a
        (leave_loop-Life c k js (turn c.now j r) a.stage.seat a.stage.seen)
  | inr e ↦
      let p = turn-Apart c.now k j r e in
      let a = Life-still c k s s r (turn c.now j r) refl (p.seat_kept ∙ h) p.told_kept in
      Life-trans c k s r (turn c.now j r) _ a
        (leave_loop-Life c k js (turn c.now j r) a.stage.seat a.stage.seen)
]
