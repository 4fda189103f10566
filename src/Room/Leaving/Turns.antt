-- ===== src/Room/Leaving/Turns.antt =====
-- One turn of the leave loop: the session whose turn it is goes through `process_leave`, and the
-- others are left alone.
use extraction_server.Prelude.{
  ℕ, ◌≡◌, refl, sym, ap, ◌∙◌, ◌==◌, if◌then◌else◌, Bool, true, false, ◌&&◌, some, List, [], ◌∷◌,
  ◌++◌, arith, lookup, adjust, Bool-cases, Option-cases, inl, inr,
}
use mathlib.Core.List.{append_assoc}
use extraction_server.Prelude.Lookups.{map_option, lookup-adjust}
use extraction_server.Session.Leave.{
  Leave, LeaveReason, is_pending, is_detached, detach_leave, finalize_leave, process_leave,
  is_finalize_ready,
}
use extraction_server.Room.{Seat, PlayerSession, LeftReport, GameRoom}
use extraction_server.Room.Detach.{report_of}
use extraction_server.Room.Detach.Sight.{view}
use extraction_server.Room.Detach.Effect.{detach_player_lem, report-sessions, report-reports}
use extraction_server.Room.Leaving.{
  is_waiting, finalize_session, finalize_if_ready, detach_if_pending, detach_found, finalize_found,
  clear_pending_reliable_except,
}
use extraction_server.Room.Leaving.Stages.{
  reasons_of, Stage, reasons_of-other, view-lookup, detached_if, told_if, finalized_if, told_last,
  detach_found-Stage, finalize_found-Stage,
}

pub Stage-trans :
    (k : ℕ) (r r' r'' : GameRoom) (l l' : Leave) (t t' : List LeaveReason)
    → Stage k r r' l t
    → Stage k r' r'' l' t'
    → Stage k r r'' l' (t ++ t')
Stage-trans k r r' r'' l l' t t' a b = record {
  seat = b.seat;
  seen = b.seen;
  leave_is = b.leave_is;
  tells = b.tells ∙ ap (λ xs. xs ++ t') a.tells ∙ append_assoc (reasons_of k r.left_reports) t t';
}

-- The turn of one session.
abbrev pub turn : ℕ → ℕ → GameRoom → GameRoom
turn now k r = finalize_if_ready now k (detach_if_pending k r)

detach_if_pending-Stage :
    (k : ℕ) (r : GameRoom) (s : Seat)
    → view k r.sessions ≡ some s
    → Stage k r (detach_if_pending k r) (detached_if s.leave) (told_if s.leave)
unfolding detach_if_pending
detach_if_pending-Stage k r s h =
    let (p, e, f) = view-lookup k r.sessions s h in
    rw (e, sym f) (detach_found-Stage k r p (h ∙ ap some (sym f)))

finalize_if_ready-Stage :
    (now k : ℕ) (r : GameRoom) (s : Seat)
    → view k r.sessions ≡ some s
    → (b : Bool) × Stage k r
        (finalize_if_ready now k r)
        (finalized_if now b s.leave)
        (told_last now b s.leave)
unfolding finalize_if_ready
finalize_if_ready-Stage now k r s h =
    let (p, e, f) = view-lookup k r.sessions s h in rw (e, sym f) (finalize_found-Stage now k r p e)

process_leave_lem :
    (now : ℕ) (b : Bool) (l : Leave)
    → (process_leave b now l).1 ≡ finalized_if now b (detached_if l)
unfolding process_leave detach_leave finalize_leave
process_leave_lem now b l = ground arith

process_leave_told :
    (now : ℕ) (b : Bool) (l : Leave)
    → (process_leave b now l).0 ≡ told_if l ++ told_last now b (detached_if l)
unfolding process_leave detach_leave finalize_leave
process_leave_told now b l = ground arith

pub turn-own :
    (now k : ℕ) (r : GameRoom) (s : Seat)
    → view k r.sessions ≡ some s
    → (b : Bool) × Stage k r
        (turn now k r)
        (process_leave b now s.leave).1
        (process_leave b now s.leave).0
turn-own now k r s h =
    let a = detach_if_pending-Stage k r s h in
    let (b, c) = finalize_if_ready-Stage now k (detach_if_pending k r) a.seat a.seen in
    let l = detached_if s.leave in
    (
      b,
      rw (process_leave_lem now b s.leave, process_leave_told now b s.leave)
          (Stage-trans k r (detach_if_pending k r) (turn now k r) l (finalized_if now b l)
            (told_if s.leave) (told_last now b l) a (rw a.leave_is at c)),
    )

-- What a call leaves alone of another session.
pub record Apart (j : ℕ) (r r' : GameRoom) : Type 0 where
  pub seat_kept : view j r'.sessions ≡ view j r.sessions
  pub told_kept : reasons_of j r'.left_reports ≡ reasons_of j r.left_reports

Apart-refl : (j : ℕ) (r : GameRoom) → Apart j r r
Apart-refl j r = record { seat_kept = refl; told_kept = refl }

told-other :
    (j k : ℕ) (b : Bool) (s : Seat) (rs : List LeftReport)
    → (j == k) ≡ false
    → reasons_of j (if b then rs ++ report_of k s ∷ [] else rs) ≡ reasons_of j rs
told-other j k true s rs h = reasons_of-other j k s rs h
told-other j k false s rs h = refl

detach_found-Apart :
    (j k : ℕ) (r : GameRoom) (p : PlayerSession)
    → view k r.sessions ≡ some p.seat
    → (j == k) ≡ false
    → Apart j r (detach_found k (some p) r)
unfolding detach_found
detach_found-Apart j k r p h ne = elim (Bool-cases (is_pending p.seat.leave.leave_state)) [
  | inr e ↦ rw e (Apart-refl j r)
  | inl e ↦ rw e (
      let d = detach_player_lem k p.seat r h in
      record {
        seat_kept = d.others j ne;
        told_kept = ap (reasons_of j) d.reports ∙ told-other j k _ p.seat r.left_reports ne;
      })
]

finalize_session-Apart :
    (j k : ℕ) (r : GameRoom) (p : PlayerSession)
    → (j == k) ≡ false
    → Apart j r (finalize_session k p r)
unfolding finalize_session
finalize_session-Apart j k r p ne =
    let l = (finalize_leave p.seat.leave).1 in
    let sent = (finalize_leave p.seat.leave).0 in
    let f : PlayerSession → PlayerSession = λ t. record t {
      seat = record t.seat { leave = l };
      channel = clear_pending_reliable_except 0 t.channel;
    } in
    let last : GameRoom = record r { sessions = adjust k f r.sessions } in
    record {
      seat_kept =
          ap (view j) (report-sessions sent k p.seat last)
          ∙ ap (map_option (λ (q : PlayerSession). q.seat)) (lookup-adjust f k j r.sessions)
          ∙ rw ne refl;
      told_kept =
          ap (reasons_of j) (report-reports sent k p.seat last)
          ∙ told-other j k sent p.seat r.left_reports ne;
    }

finalize_found-Apart :
    (now j k : ℕ) (r : GameRoom) (p : PlayerSession)
    → (j == k) ≡ false
    → Apart j r (finalize_found now k (some p) r)
unfolding finalize_found
finalize_found-Apart now j k r p ne =
    let b = is_waiting p.seat.leave.leave_notify_r_seq p.channel.pending in
    elim (Bool-cases
      (is_detached p.seat.leave.leave_state && is_finalize_ready p.seat.leave b now)) [
        | inl e ↦ rw e (finalize_session-Apart j k r p ne)
        | inr e ↦ rw e (Apart-refl j r)
      ]

detach_if_pending-Apart :
    (j k : ℕ) (r : GameRoom) → (j == k) ≡ false → Apart j r (detach_if_pending k r)
unfolding detach_if_pending
detach_if_pending-Apart j k r ne = elim (Option-cases (lookup k r.sessions)) [
  | inl e ↦ rw (e, detach_found) (Apart-refl j r)
  | inr (p, e) ↦ rw e (detach_found-Apart j k r p (rw e refl) ne)
]

finalize_if_ready-Apart :
    (now j k : ℕ) (r : GameRoom) → (j == k) ≡ false → Apart j r (finalize_if_ready now k r)
unfolding finalize_if_ready
finalize_if_ready-Apart now j k r ne = elim (Option-cases (lookup k r.sessions)) [
  | inl e ↦ rw (e, finalize_found) (Apart-refl j r)
  | inr (p, e) ↦ rw e (finalize_found-Apart now j k r p ne)
]

pub turn-Apart : (now j k : ℕ) (r : GameRoom) → (j == k) ≡ false → Apart j r (turn now k r)
turn-Apart now j k r ne =
    let a = detach_if_pending-Apart j k r ne in
    let b = finalize_if_ready-Apart now j k (detach_if_pending k r) ne in
    record { seat_kept = b.seat_kept ∙ a.seat_kept; told_kept = b.told_kept ∙ a.told_kept }
