-- ===== src/Room/Detach/Effect.antt =====
-- The whole effect of `DetachPlayer` on the sessions, the players' objects and the reports.
use extraction_server.Prelude.{
  ℕ, ◌≡◌, refl, ap, ◌∙◌, ◌==◌, if◌then◌else◌, Bool, true, false, ◌&&◌, Option, none, some, [], ◌∷◌,
  ◌++◌, lookup,
}
use extraction_server.Prelude.Lookups.{map_option, keys}
use extraction_server.Session.Leave.{detach_leave}
use extraction_server.Session.Recall.{end_recall}
use extraction_server.Room.{Seat, GameRoom, find_player_object}
use extraction_server.Room.Detach.{
  update_seat, release_container, release_npc_authority, remove_object, end_detach, detach_player,
  state_on_detach, report, report_of, loses_items,
}
use extraction_server.Room.Detach.Sight.{
  view, Acts, Quiet-trans, Quiet-Acts, Acts-trans, update_seat-Acts, vacate_container-Quiet,
  release_npc_authority-Quiet, remove_object-Acts, strip, has_body, is_found,
}

-- The seat of a session at the end of `DetachPlayer`; the flag says that its items are lost.
abbrev pub detached_seat : Bool → Seat → Seat
detached_seat lost s = strip lost (record s {
  leave = (detach_leave s.leave).1;
  object_id = none;
  interacting_container = none;
  recall = end_recall s.recall;
})

abbrev pub begin_detach : Seat → Seat
begin_detach t = record t {
  recall = end_recall t.recall;
  leave = record t.leave { session_state = state_on_detach t.leave.leave_reason };
}

abbrev pub let_go : Seat → Seat
let_go t = record t { interacting_container = none }

abbrev sign_off : Seat → Seat → Seat
sign_off s t = record t { object_id = none; leave = (detach_leave s.leave).1 }

strip-sign_off :
    (b : Bool) (s : Seat) → sign_off s (strip b (let_go (begin_detach s))) ≡ detached_seat b s
strip-sign_off true s = refl
strip-sign_off false s = refl

-- The seats on the way: what `DetachPlayer` does before the object is removed.
pub released-Acts :
    (k : ℕ) (s : Seat) (r : GameRoom)
    → Acts k
        (λ t. let_go (begin_detach t))
        r
        (release_npc_authority s.object_id (release_container k s (update_seat k begin_detach r)))
      × ((release_npc_authority s.object_id
            (release_container k s (update_seat k begin_detach r))).player_objects
          ≡ r.player_objects)
unfolding release_container
released-Acts k s r =
    let begun = update_seat k begin_detach r in
    let gone = update_seat k let_go begun in
    let q =
      Quiet-trans gone _ _ (vacate_container-Quiet s.interacting_container s.object_id gone)
        (release_npc_authority-Quiet s.object_id _) in
    (
      Acts-trans k (λ t. let_go (begin_detach t)) (λ t. t) r gone _
          (Acts-trans k begin_detach let_go r begun gone (update_seat-Acts k begin_detach r)
            (update_seat-Acts k let_go begun))
          (Quiet-Acts k gone _ q),
      q.bodies,
    )

has_body-same :
    (o : Option ℕ) (r r' : GameRoom)
    → r'.player_objects ≡ r.player_objects
    → has_body o r' ≡ has_body o r
unfolding find_player_object
has_body-same none r r' h = refl
has_body-same (some id) r r' h = ap (λ bs. is_found (lookup id bs)) h

-- What a detach of the session with these fields does.
pub record Detached (k : ℕ) (s : Seat) (r r' : GameRoom) : Type 0 where
  pub own :
      view k r'.sessions
      ≡ some (detached_seat (has_body s.object_id r && loses_items s.leave.leave_reason) s)
  pub others : (j : ℕ) → (j == k) ≡ false → view j r'.sessions ≡ view j r.sessions
  pub reports :
      r'.left_reports
      ≡ (if (detach_leave s.leave).0 then r.left_reports ++ report_of k s ∷ [] else r.left_reports)
  pub key_list : keys r'.sessions ≡ keys r.sessions

pub report-sessions :
    (b : Bool) (k : ℕ) (s : Seat) (r : GameRoom) → (report b k s r).sessions ≡ r.sessions
report-sessions true k s r = refl
report-sessions false k s r = refl

pub report-reports :
    (b : Bool) (k : ℕ) (s : Seat) (r : GameRoom)
    → (report b k s r).left_reports
      ≡ (if b then r.left_reports ++ report_of k s ∷ [] else r.left_reports)
report-reports true k s r = refl
report-reports false k s r = refl

-- A session that is detached ends with no object and no container, in the state DETACHED, and with
-- nothing in its inventory if its body was in the room and it died or was disconnected; no other
-- session changes, and the main process gets one report, unless it had it.
pub detach_player_lem :
    (k : ℕ) (s : Seat) (r : GameRoom)
    → view k r.sessions ≡ some s
    → Detached k s r (detach_player k s r)
unfolding detach_player end_detach
detach_player_lem k s r h =
    let begun = update_seat k begin_detach r in
    let (a, same) = released-Acts k s r in
    let free = release_npc_authority s.object_id (release_container k s begun) in
    let lost = has_body s.object_id free && loses_items s.leave.leave_reason in
    let gone = remove_object k s s.object_id free in
    let last = update_seat k (sign_off s) gone in
    let b = Acts-trans k _ (strip lost) r free gone a (remove_object-Acts k s s.object_id free) in
    let c = Acts-trans k _ (sign_off s) r gone last b (update_seat-Acts k (sign_off s) gone) in
    let sent = (detach_leave s.leave).0 in
    record {
      own =
          ap (view k) (report-sessions sent k s last)
          ∙ c.own
          ∙ ap (map_option (λ t. sign_off s (strip lost (let_go (begin_detach t))))) h
          ∙ ap some (strip-sign_off lost s)
          ∙ ap (λ b. some (detached_seat (b && loses_items s.leave.leave_reason) s))
              (has_body-same s.object_id r free same);
      others = λ j ne. ap (view j) (report-sessions sent k s last) ∙ c.others j ne;
      reports =
          report-reports sent k s last
          ∙ ap (λ rs. if sent then rs ++ report_of k s ∷ [] else rs) c.reports;
      key_list = ap keys (report-sessions sent k s last) ∙ c.key_list;
    }
