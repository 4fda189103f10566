-- ===== src/Room/Leaving/Rules.antt =====
-- Rules for what a pass of `ProcessLeaves` does to the leave state of a session.
use extraction_server.Prelude.{
  ℕ, ◌≡◌, ◌∙◌, ◌==◌, ==_iff, Bool, true, inl, inr, some, List, [], ◌∷◌, arith, Bool-cases, All,
}
use extraction_server.Session.Leave.{Leave, process_leave}
use extraction_server.Session.Leave.Notice.{Event, step, run}
use extraction_server.Room.{Seat, GameRoom}
use extraction_server.Room.Detach.Sight.{view}
use extraction_server.Room.Leaving.{Clocks, leave_loop}
use extraction_server.Room.Leaving.Turns.{turn, turn-own, turn-Apart}
use extraction_server.Room.Leaving.Lives.{Allowed, Life}
use extraction_server.Prelude.Members.{is_member}

-- What every call of a pass keeps, a pass keeps.
run_rule :
    (c : Clocks) (k : ℕ) (R : Leave → Type 0)
    → ((e : Event) (l : Leave) → Allowed c k e → R l → R (step l e).1)
    → (es : List Event) (l : Leave) → All (Allowed c k) es
    → R l
    → R (run l es).1
unfolding run
run_rule c k R keep [] l a r = r
run_rule c k R keep (e ∷ es) l a r = run_rule c k R keep es (step l e).1 a.1 (keep e l a.0 r)

-- A session of the room whose leave state is so.
abbrev pub Has : (Leave → Type 0) → ℕ → GameRoom → Type 0
Has R k r = (t : Seat) × (view k r.sessions ≡ some t) × R t.leave

pub Life-Has :
    (c : Clocks) (k : ℕ) (R : Leave → Type 0)
    → ((e : Event) (l : Leave) → Allowed c k e → R l → R (step l e).1)
    → (s : Seat) (r r' : GameRoom) → Life c k s r r'
    → R s.leave
    → Has R k r'
Life-Has c k R keep s r r' a x = (
  a.stage.seat,
  a.stage.seen,
  rw a.stage.leave_is (run_rule c k R keep a.events s.leave a.allowed x),
)

-- If a turn takes a session from P to Q, and keeps Q, then the loop does, where the session is in it.
pub loop_keeps :
    (now k : ℕ) (Q : Leave → Type 0)
    → ((b : Bool) (l : Leave) → Q l → Q (process_leave b now l).1)
    → (ks : List ℕ) (r : GameRoom) → Has Q k r
    → Has Q k (leave_loop now ks r)
unfolding leave_loop
loop_keeps now k Q keep [] r h = h
loop_keeps now k Q keep (j ∷ js) r (s, e, q) = elim (Bool-cases (k == j)) [
  | inr ne ↦
      loop_keeps now k Q keep js (turn now j r) (s, (turn-Apart now k j r ne).seat_kept ∙ e, q)
  | inl same ↦ loop_keeps now k Q keep js (turn now j r) (own ((==_iff k j).0 same))
]
  where
    own : k ≡ j → Has Q k (turn now j r)
    own eq = rw (← eq) (
        let (b, st) = turn-own now k r s e in (st.seat, st.seen, rw st.leave_is (keep b s.leave q)))

pub loop_rule :
    (now k : ℕ) (P Q : Leave → Type 0)
    → ((b : Bool) (l : Leave) → P l → Q (process_leave b now l).1)
    → ((b : Bool) (l : Leave) → Q l → Q (process_leave b now l).1)
    → (ks : List ℕ) (r : GameRoom) → is_member k ks ≡ true
    → Has P k r
    → Has Q k (leave_loop now ks r)
unfolding leave_loop
loop_rule now k P Q go keep [] r m h = cc
loop_rule now k P Q go keep (j ∷ js) r m (s, e, p) = elim (Bool-cases (k == j)) [
  | inr ne ↦
      loop_rule now k P Q go keep js (turn now j r) (ground (arith, m, ne))
        (s, (turn-Apart now k j r ne).seat_kept ∙ e, p)
  | inl same ↦ loop_keeps now k Q keep js (turn now j r) (own ((==_iff k j).0 same))
]
  where
    own : k ≡ j → Has Q k (turn now j r)
    own eq =
        rw (← eq) (
          let (b, st) = turn-own now k r s e in (st.seat, st.seen, rw st.leave_is (go b s.leave p)))
