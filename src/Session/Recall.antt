-- ===== src/Session/Recall.antt =====
-- Recall, the way out of a match: `BeginRecall`, `AddRecallPass`, `EndRecall` of
-- src/DedicateProcess/PlayerSession.h, and `RecallTick`, `CancelRecall` and the start of a recall by
-- `Handle_C2D_RequestRecall` of ClientPacketHandler.cpp.
pub mod Passes
use extraction_server.Prelude.{
  ℕ, ltb, ◌==◌, if◌then◌else◌, Bool, true, false, not, ◌||◌, Option, none, some, List, [], ◌∷◌,
}
use extraction_server.Prelude.Words.{add32}
use extraction_server.Session.Leave.{
  Leave, LeaveReason, recalled, is_active_state, is_inplay, is_leaving, mark_leaving,
}

pub record Recall : Type 0 where
  pub is_recalling : Bool
  pub recall_generation : ℕ
  pub recall_pass_count : ℕ
  pub recall_spot_index : ℕ

abbrev pub recall_required_pass_count : ℕ
recall_required_pass_count = 5

-- `BeginRecall`
unfoldable pub begin_recall : ℕ → Recall → Bool × Recall
begin_recall spot r = if r.is_recalling then (false, r) else (
  true,
  record {
    is_recalling = true;
    recall_generation = add32 r.recall_generation 1;
    recall_pass_count = 0;
    recall_spot_index = spot;
  },
)

-- `EndRecall`
unfoldable pub end_recall : Recall → Recall
end_recall r = record r { is_recalling = false; recall_generation = add32 r.recall_generation 1 }

-- `AddRecallPass`
unfoldable pub add_recall_pass : Recall → ℕ × Recall
add_recall_pass r = let n = add32 r.recall_pass_count 1 in (n, record r { recall_pass_count = n })

-- `RecallResultReason`
pub data RecallResult : Type 0 where
  success session_lost server_internal player_dead out_of_zone : RecallResult

-- What a tick does: nothing, a cancel (and whether the client is told), one more tick, the recall.
pub data Outcome : Type 0 where
  ignored : Outcome
  cancelled : RecallResult → Bool → Outcome
  scheduled : Outcome
  succeeded : Outcome

-- The player's object as the tick finds it: alive, and inside the recall zone of the session.
pub record PlayerView : Type 0 where
  pub is_alive : Bool
  pub in_recall_zone : Bool

-- What a tick reads besides the recall: whether the session still has the uid of the timer, its
-- leave state, its object if the room has it, the time, and the number under which the result
-- would go out.
pub record TickInput : Type 0 where
  pub same_uid : Bool
  pub leave : Leave
  pub player : Option PlayerView
  pub now : ℕ
  pub notify_r_seq : ℕ

-- `CancelRecall`
cancel_recall : RecallResult → TickInput → Recall → Outcome × Recall × Leave
unfolding end_recall
cancel_recall reason i r =
    (cancelled reason (is_active_state i.leave.session_state), end_recall r, i.leave)

-- The end of `RecallTick`, once every check is passed.
count_pass : TickInput → Recall → Outcome × Recall × Leave
unfolding add_recall_pass end_recall
count_pass i r =
    let (n, r') = add_recall_pass r in
    if ltb n recall_required_pass_count
    then (scheduled, r', i.leave)
    else (succeeded, end_recall r', mark_leaving recalled i.notify_r_seq i.now i.leave)

tick_player : Option PlayerView → TickInput → Recall → Outcome × Recall × Leave
unfolding cancel_recall count_pass
tick_player none i r = cancel_recall server_internal i r
tick_player (some p) i r =
    if not p.is_alive
    then cancel_recall player_dead i r
    else if not p.in_recall_zone
    then cancel_recall out_of_zone i r
    else count_pass i r

-- `RecallTick` of a timer that was set for a generation.
unfoldable pub recall_tick : ℕ → TickInput → Recall → Outcome × Recall × Leave
unfolding tick_player
recall_tick generation i r =
    if not r.is_recalling || not (r.recall_generation == generation)
    then (ignored, r, i.leave)
    else if not i.same_uid
    then (ignored, r, i.leave)
    else if not (is_inplay i.leave.session_state)
    then cancel_recall session_lost i r
    else if is_leaving i.leave.leave_state
    then cancel_recall session_lost i r
    else tick_player i.player i r

-- `Handle_C2D_RequestRecall` of a session that has a room and an object there, and that stands in the
-- zone of the spot or not: the result that is sent to the client, if one is, and the recall.
unfoldable pub request_recall : Leave → Bool → ℕ → Recall → Option Bool × Recall
unfolding begin_recall
request_recall l in_zone spot r =
    if not (is_active_state l.session_state) || is_leaving l.leave_state
    then (none, r)
    else if r.is_recalling
    then (none, r)
    else if not in_zone
    then (some false, r)
    else (some true, (begin_recall spot r).1)

-- The timers of one recall: each tick that asks for another is followed by it.
run_after : Outcome → (Recall → Outcome) → Recall → Outcome
run_after scheduled next r = next r
run_after o next r = o

unfoldable pub run_ticks : ℕ → List TickInput → Recall → Outcome
unfolding run_after
run_ticks generation [] r = scheduled
run_ticks generation (i ∷ is) r =
    let (o, r', l) = recall_tick generation i r in run_after o (run_ticks generation is) r'
