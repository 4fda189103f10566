-- ===== src/Room/Leaving/Stages.antt =====
-- The two tests of the leave loop, as the session sees them that is tested.
use extraction_server.Prelude.{
  ℕ, ◌≡◌, refl, sym, ap, ◌∙◌, ◌==◌, ==_refl, if◌then◌else◌, Bool, true, false, ◌&&◌, Option, none,
  some, List, [], ◌∷◌, ◌++◌, arith, lookup, adjust, Bool-cases, inl, inr,
}
use mathlib.Core.List.{append-nil}
use extraction_server.Prelude.Lookups.{map_option, lookup-adjust}
use extraction_server.Session.Leave.{
  Leave, LeaveReason, is_pending, is_detached, detach_leave, finalize_leave, is_finalize_ready,
}
use extraction_server.Room.{Seat, PlayerSession, Sessions, LeftReport, GameRoom}
use extraction_server.Room.Detach.{report_of}
use extraction_server.Room.Detach.Sight.{view, strip}
use extraction_server.Room.Detach.Effect.{detach_player_lem, report-sessions, report-reports}
use extraction_server.Room.Leaving.{
  is_waiting, finalize_session, clear_pending_reliable_except, detach_found, finalize_found,
}

-- The reasons that the main process was told of a session, in order.
unfoldable pub reasons_of : ℕ → List LeftReport → List LeaveReason
reasons_of k [] = []
reasons_of k (x ∷ xs) =
    let rest = reasons_of k xs in if x.session_id == k then x.reason ∷ rest else rest

-- From one room to the next, the leave state of the session becomes this, and these reasons are told.
pub record Stage (k : ℕ) (r r' : GameRoom) (l : Leave) (told : List LeaveReason) : Type 0 where
  pub seat : Seat
  pub seen : view k r'.sessions ≡ some seat
  pub leave_is : seat.leave ≡ l
  pub tells : reasons_of k r'.left_reports ≡ reasons_of k r.left_reports ++ told

pub reasons_of-append :
    (k : ℕ) (xs ys : List LeftReport) → reasons_of k (xs ++ ys) ≡ reasons_of k xs ++ reasons_of k ys
unfolding reasons_of
reasons_of-append k [] ys = refl
reasons_of-append k (x ∷ xs) ys = ground (arith, reasons_of-append k xs ys)

reasons_of-own :
    (k : ℕ) (s : Seat) (xs : List LeftReport)
    → reasons_of k (xs ++ report_of k s ∷ []) ≡ reasons_of k xs ++ s.leave.leave_reason ∷ []
unfolding reasons_of report_of
reasons_of-own k s xs =
    reasons_of-append k xs (report_of k s ∷ []) ∙ ap (◌++◌ (reasons_of k xs)) (rw (==_refl k) refl)

pub reasons_of-other :
    (j k : ℕ) (s : Seat) (xs : List LeftReport)
    → (j == k) ≡ false
    → reasons_of j (xs ++ report_of k s ∷ []) ≡ reasons_of j xs
unfolding reasons_of report_of
reasons_of-other j k s xs h =
    reasons_of-append j xs (report_of k s ∷ []) ∙ ground (arith, append-nil (reasons_of j xs))

pub view-lookup :
    (k : ℕ) (ss : Sessions) (s : Seat)
    → view k ss ≡ some s
    → (p : PlayerSession) × (lookup k ss ≡ some p) × (p.seat ≡ s)
view-lookup k ss s h = go (lookup k ss) refl h
  where
    go :
        (o : Option PlayerSession)
        → lookup k ss ≡ o
        → map_option (λ (p : PlayerSession). p.seat) o ≡ some s
        → (p : PlayerSession) × (lookup k ss ≡ some p) × (p.seat ≡ s)
    go none e h = cc
    go (some p) e h = (p, e, cc)

-- The first test of the leave loop, on the leave state.
abbrev pub detached_if : Leave → Leave
detached_if l = if is_pending l.leave_state then (detach_leave l).1 else l

abbrev pub told_if : Leave → List LeaveReason
told_if l =
    if is_pending l.leave_state
    then (if (detach_leave l).0 then l.leave_reason ∷ [] else [])
    else []

strip-leave : (b : Bool) (s : Seat) → (strip b s).leave ≡ s.leave
strip-leave true s = refl
strip-leave false s = refl

pub told-own :
    (k : ℕ) (b : Bool) (s : Seat) (rs : List LeftReport)
    → reasons_of k (if b then rs ++ report_of k s ∷ [] else rs)
      ≡ reasons_of k rs ++ (if b then s.leave.leave_reason ∷ [] else [])
told-own k true s rs = reasons_of-own k s rs
told-own k false s rs = sym (append-nil (reasons_of k rs))

pub detach_found-Stage :
    (k : ℕ) (r : GameRoom) (p : PlayerSession)
    → view k r.sessions ≡ some p.seat
    → Stage k r (detach_found k (some p) r) (detached_if p.seat.leave) (told_if p.seat.leave)
unfolding detach_found
detach_found-Stage k r p h = elim (Bool-cases (is_pending p.seat.leave.leave_state)) [
  | inl e ↦ rw e (
      let d = detach_player_lem k p.seat r h in
      record {
        seat = _;
        seen = d.own;
        leave_is = strip-leave _ _;
        tells = ap (reasons_of k) d.reports ∙ told-own k _ p.seat r.left_reports;
      })
  | inr e ↦ rw e (record {
    seat = p.seat;
    seen = h;
    leave_is = refl;
    tells = sym (append-nil (reasons_of k r.left_reports));
  })
]

-- The second test, on the leave state.
abbrev pub finalized_if : ℕ → Bool → Leave → Leave
finalized_if now b l =
    if is_detached l.leave_state && is_finalize_ready l b now then (finalize_leave l).1 else l

abbrev pub told_last : ℕ → Bool → Leave → List LeaveReason
told_last now b l =
    if is_detached l.leave_state && is_finalize_ready l b now
    then (if (finalize_leave l).0 then l.leave_reason ∷ [] else [])
    else []

finalize_session-Stage :
    (k : ℕ) (r : GameRoom) (p : PlayerSession)
    → lookup k r.sessions ≡ some p
    → Stage k r
        (finalize_session k p r)
        (finalize_leave p.seat.leave).1
        (if (finalize_leave p.seat.leave).0 then p.seat.leave.leave_reason ∷ [] else [])
unfolding finalize_session
finalize_session-Stage k r p h =
    let l = (finalize_leave p.seat.leave).1 in
    let sent = (finalize_leave p.seat.leave).0 in
    let f : PlayerSession → PlayerSession = λ t. record t {
      seat = record t.seat { leave = l };
      channel = clear_pending_reliable_except 0 t.channel;
    } in
    let last : GameRoom = record r { sessions = adjust k f r.sessions } in
    record {
      seat = record p.seat { leave = l };
      seen =
          ap (view k) (report-sessions sent k p.seat last)
          ∙ ap (map_option (λ (q : PlayerSession). q.seat)) (lookup-adjust f k k r.sessions)
          ∙ rw (==_refl k, h) refl;
      leave_is = refl;
      tells =
          ap (reasons_of k) (report-reports sent k p.seat last)
          ∙ told-own k sent p.seat r.left_reports;
    }

pub finalize_found-Stage :
    (now k : ℕ) (r : GameRoom) (p : PlayerSession)
    → lookup k r.sessions ≡ some p
    → (b : Bool) × Stage k r
        (finalize_found now k (some p) r)
        (finalized_if now b p.seat.leave)
        (told_last now b p.seat.leave)
unfolding finalize_found
finalize_found-Stage now k r p h =
    let b = is_waiting p.seat.leave.leave_notify_r_seq p.channel.pending in
    (
      b,
      elim (Bool-cases
          (is_detached p.seat.leave.leave_state && is_finalize_ready p.seat.leave b now)) [
            | inl e ↦ rw e (finalize_session-Stage k r p h)
            | inr e ↦ rw e (record {
              seat = p.seat;
              seen = rw h refl;
              leave_is = refl;
              tells = sym (append-nil (reasons_of k r.left_reports));
            })
          ],
    )
