-- ===== src/Room/Leaving/Calls.antt =====
-- All calls that reach the leave state of a session in a room, those of the handlers and the passes of
-- `ProcessLeaves`, in any order.
use extraction_server.Prelude.{
  ℕ, ◌≡◌, refl, sym, ap, ◌∙◌, ◌==◌, Option, none, some, List, [], ◌∷◌, ◌++◌, lookup, adjust,
  Bool-cases, inl, inr,
}
use mathlib.Core.List.{append-nil}
use extraction_server.Prelude.Lookups.{map_option, lookup-adjust, keys, keys-adjust}
use extraction_server.Session.Leave.{
  Leave, LeaveState, LeaveReason, recalled, pending, detached, finalized, mark_leaving, fresh_leave,
}
use extraction_server.Session.Leave.Notice.{
  Event, channel_open, loading_complete, mark, set_notify, open_channel, complete_loading, step,
  run, notices_of_life,
}
use extraction_server.Objects.Combat.{CombatObject}
use extraction_server.Room.{Seat, PlayerSession, Channel, Objects, GameRoom}
use extraction_server.Room.Detach.{update_seat}
use extraction_server.Room.Detach.Sight.{view}
use extraction_server.Room.Leaving.{Clocks, process_leaves}
use extraction_server.Room.Leaving.Keys.{keys-process_leaves}
use extraction_server.Room.Leaving.Reserve.{Reserved, process_leaves-Reserved}
use extraction_server.Room.Leaving.Stages.{reasons_of, Stage}
use extraction_server.Room.Leaving.Lives.{Stage-append}
use extraction_server.Room.Leaving.Refine.{process_leaves_refines}

-- `Handle_C2D_ChannelOpen`, `Handle_C2D_NotifyLoadingComplete`, the success of `RecallTick` and
-- `SetLeaveNotifyRSeq` (of a hit that kills) for the session of an id, a pass over the room, and what every other handler and update may do: it may write
-- the session of an id beyond its leave state, and the channel of that session, in any way
-- (`serves`), and the objects of the room in any way (`acts`). These are all callers of
-- `MarkLeaving`, and all writers of the leave state.
pub data Call : Type 0 where
  opened : ℕ → Call
  loaded : ℕ → Call
  recall : ℕ → ℕ → ℕ → Call
  notified : ℕ → ℕ → Call
  pass : Clocks → Call
  serves : ℕ → (Seat → Seat) → (Channel → Channel) → Call
  acts : List (ℕ × CombatObject) → Objects → Objects → ℕ → ℕ → Call

-- A write of the leave state of a session.
abbrev update_leave : ℕ → (Leave → Leave) → GameRoom → GameRoom
update_leave k f r = update_seat k (λ s. record s { leave = f s.leave }) r

-- A write of a session beyond its leave state.
abbrev serve : (Seat → Seat) → (Channel → Channel) → PlayerSession → PlayerSession
serve f g p = record { seat = record (f p.seat) { leave = p.seat.leave }; channel = g p.channel }

unfoldable pub apply_call : Call → GameRoom → GameRoom
unfolding open_channel complete_loading mark_leaving process_leaves
apply_call (opened k) r =
    update_leave k (λ l. record l { session_state = open_channel l.session_state }) r
apply_call (loaded k) r =
    update_leave k (λ l. record l { session_state = complete_loading l.session_state }) r
apply_call (recall k now seq) r = update_leave k (mark_leaving recalled seq now) r
apply_call (notified k seq) r = update_leave k (λ l. record l { leave_notify_r_seq = seq }) r
apply_call (pass c) r = process_leaves c r
apply_call (serves k f g) r = record r { sessions = adjust k (serve f g) r.sessions }
apply_call (acts players dynamic static nxt regen) r = record r {
  player_objects = players;
  dynamic_objects = dynamic;
  static_objects = static;
  nxt_object_id = nxt;
  last_regen_ms = regen;
}

unfoldable pub apply_calls : List Call → GameRoom → GameRoom
unfolding apply_call
apply_calls [] r = r
apply_calls (c ∷ cs) r = apply_calls cs (apply_call c r)

-- What a session lives through.
pub record Course (k : ℕ) (l : Leave) (r r' : GameRoom) : Type 0 where
  pub events : List Event
  pub stage : Stage k r r' (run l events).1 (run l events).0

Course-still : (k : ℕ) (s : Seat) (r : GameRoom) → view k r.sessions ≡ some s → Course k s.leave r r
unfolding run
Course-still k s r h = record {
  events = [];
  stage = record {
    seat = s;
    seen = h;
    leave_is = refl;
    tells = sym (append-nil (reasons_of k r.left_reports));
  };
}

-- A write by a handler is one call of the session, if it is that session's.
update-Course :
    (j k : ℕ) (e : Event) (s : Seat) (r : GameRoom)
    → ((l : Leave) → (step l e).0 ≡ [])
    → view k r.sessions ≡ some s
    → Course k s.leave r (update_leave j (λ l. (step l e).1) r)
unfolding run
update-Course j k e s r quiet h =
    let f : PlayerSession → PlayerSession =
      λ p. record p { seat = record p.seat { leave = (step p.seat.leave e).1 } } in
    let seen = ap (map_option (λ (p : PlayerSession). p.seat)) (lookup-adjust f j k r.sessions) in
    elim (Bool-cases (k == j)) [
      | inl same ↦ record {
        events = e ∷ [];
        stage = record {
          seat = record s { leave = (step s.leave e).1 };
          seen = seen ∙ rw same (changed (lookup k r.sessions) h);
          leave_is = refl;
          tells = rw (quiet s.leave) (sym (append-nil (reasons_of k r.left_reports)));
        };
      }
      | inr other ↦ record {
        events = [];
        stage = record {
          seat = s;
          seen = seen ∙ rw other h;
          leave_is = refl;
          tells = sym (append-nil (reasons_of k r.left_reports));
        };
      }
    ]
  where
    changed :
        (o : Option PlayerSession)
        → map_option (λ (p : PlayerSession). p.seat) o ≡ some s
        → map_option
            (λ (p : PlayerSession). p.seat)
            (map_option
              (λ (p : PlayerSession). record p {
                seat = record p.seat { leave = (step p.seat.leave e).1 };
              })
              o)
          ≡ some (record s { leave = (step s.leave e).1 })
    changed none g = cc
    changed (some p) g = cc

-- A write beyond the leave state is none.
serve-Course :
    (j k : ℕ) (f : Seat → Seat) (g : Channel → Channel) (s : Seat) (r : GameRoom)
    → view k r.sessions ≡ some s
    → Course k s.leave r (record r { sessions = adjust j (serve f g) r.sessions })
unfolding run
serve-Course j k f g s r h =
    let seen =
      ap (map_option (λ (p : PlayerSession). p.seat)) (lookup-adjust (serve f g) j k r.sessions) in
    elim (Bool-cases (k == j)) [
      | inl same ↦ record {
        events = [];
        stage = record {
          seat = record (f s) { leave = s.leave };
          seen = seen ∙ rw same (served (lookup k r.sessions) h);
          leave_is = refl;
          tells = sym (append-nil (reasons_of k r.left_reports));
        };
      }
      | inr other ↦ record {
        events = [];
        stage = record {
          seat = s;
          seen = seen ∙ rw other h;
          leave_is = refl;
          tells = sym (append-nil (reasons_of k r.left_reports));
        };
      }
    ]
  where
    served :
        (o : Option PlayerSession)
        → map_option (λ (p : PlayerSession). p.seat) o ≡ some s
        → map_option (λ (p : PlayerSession). p.seat) (map_option (serve f g) o)
          ≡ some (record (f s) { leave = s.leave })
    served none e = cc
    served (some p) e = cc

call-Course :
    (c : Call) (k : ℕ) (s : Seat) (r : GameRoom)
    → view k r.sessions ≡ some s
    → Course k s.leave r (apply_call c r)
unfolding apply_call step run
call-Course (opened j) k s r h = update-Course j k channel_open s r (λ l. refl) h
call-Course (loaded j) k s r h = update-Course j k loading_complete s r (λ l. refl) h
call-Course (recall j now seq) k s r h = update-Course j k (mark recalled seq now) s r (λ l. refl) h
call-Course (notified j seq) k s r h = update-Course j k (set_notify seq) s r (λ l. refl) h
call-Course (pass c) k s r h =
    let (es, ok, t, seen, is, tells) = process_leaves_refines c k r s h in
    record { events = es; stage = record { seat = t; seen = seen; leave_is = is; tells = tells } }
call-Course (serves j f g) k s r h = serve-Course j k f g s r h
call-Course (acts ps ds ss n m) k s r h = record {
  events = [];
  stage = record {
    seat = s;
    seen = h;
    leave_is = refl;
    tells = sym (append-nil (reasons_of k r.left_reports));
  };
}

pub calls-Course :
    (cs : List Call) (k : ℕ) (s : Seat) (r : GameRoom)
    → view k r.sessions ≡ some s
    → Course k s.leave r (apply_calls cs r)
unfolding apply_calls
calls-Course [] k s r h = Course-still k s r h
calls-Course (c ∷ cs) k s r h =
    let a = call-Course c k s r h in
    let b = calls-Course cs k a.stage.seat (apply_call c r) a.stage.seen in
    record {
      events = a.events ++ b.events;
      stage =
          Stage-append k r (apply_call c r) _ s.leave a.stage.seat.leave a.events b.events
            a.stage.leave_is a.stage b.stage;
    }

keys-apply_call : (c : Call) (r : GameRoom) → keys (apply_call c r).sessions ≡ keys r.sessions
unfolding apply_call
keys-apply_call (opened k) r = keys-adjust _ k r.sessions
keys-apply_call (loaded k) r = keys-adjust _ k r.sessions
keys-apply_call (recall k now seq) r = keys-adjust _ k r.sessions
keys-apply_call (notified k seq) r = keys-adjust _ k r.sessions
keys-apply_call (pass c) r = keys-process_leaves c r
keys-apply_call (serves k f g) r = keys-adjust (serve f g) k r.sessions
keys-apply_call (acts ps ds ss n m) r = refl

pub keys-apply_calls :
    (cs : List Call) (r : GameRoom) → keys (apply_calls cs r).sessions ≡ keys r.sessions
unfolding apply_calls
keys-apply_calls [] r = refl
keys-apply_calls (c ∷ cs) r = keys-apply_calls cs (apply_call c r) ∙ keys-apply_call c r

apply_call-Reserved : (n : ℕ) (c : Call) (r : GameRoom) → Reserved n r → Reserved n (apply_call c r)
unfolding apply_call
apply_call-Reserved n (opened k) r h = h
apply_call-Reserved n (loaded k) r h = h
apply_call-Reserved n (recall k now seq) r h = h
apply_call-Reserved n (notified k seq) r h = h
apply_call-Reserved n (pass c) r h = process_leaves-Reserved n c r h
apply_call-Reserved n (serves k f g) r h = h
apply_call-Reserved n (acts ps ds ss i m) r h = h

pub apply_calls-Reserved :
    (n : ℕ) (cs : List Call) (r : GameRoom) → Reserved n r → Reserved n (apply_calls cs r)
unfolding apply_calls
apply_calls-Reserved n [] r h = h
apply_calls-Reserved n (c ∷ cs) r h =
    apply_calls-Reserved n cs (apply_call c r) (apply_call-Reserved n c r h)

-- What the main process was told of a session in the end.
abbrev pub final_notice : Leave → List LeaveReason
final_notice l = elim l.leave_state [
  | LeaveState.none ↦ []
  | pending ↦ []
  | detached ↦ l.leave_reason ∷ []
  | finalized ↦ l.leave_reason ∷ []
]

ending :
    (t l : Leave) (es : List Event)
    → l ≡ fresh_leave
    → t ≡ (run l es).1
    → (run l es).0 ≡ final_notice t
ending t l es f e =
    ap (λ x. (run x es).0) f
    ∙ notices_of_life es
    ∙ sym (ap final_notice (e ∙ ap (λ x. (run x es).1) f))

-- Whatever calls a room meets, in any order: the passes, everything else that touches the leave
-- state of a session, and any other writes of its sessions, beyond the leave state, and of its objects. Of a
-- session that enters it fresh and unreported, the main process is told exactly once, with the final
-- reason, if the session is detached or finalized at the end, and is not told at all otherwise.
pub told_once :
    (cs : List Call) (k : ℕ) (s : Seat) (r : GameRoom)
    → view k r.sessions ≡ some s
    → s.leave ≡ fresh_leave
    → reasons_of k r.left_reports ≡ []
    → (t : Seat) × (view k (apply_calls cs r).sessions ≡ some t)
      × (reasons_of k (apply_calls cs r).left_reports ≡ final_notice t.leave)
told_once cs k s r h fresh none_told =
    let a = calls-Course cs k s r h in
    (
      a.stage.seat,
      a.stage.seen,
      a.stage.tells
          ∙ rw none_told (ending a.stage.seat.leave s.leave a.events fresh a.stage.leave_is),
    )
