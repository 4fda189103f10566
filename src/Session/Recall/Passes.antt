-- ===== src/Session/Recall/Passes.antt =====
-- The passes of a recall, and the timers of one that is over.
use extraction_server.Prelude.{
  ℕ, zero, suc, ◌+◌, ◌^◌, ◌<◌, ◌≡◌, ◌≢◌, ◌⊎◌, refl, Bool, true, false, Bool-cases, inl, inr, not,
  ◌&&◌, Option, none, some, List, [], ◌∷◌, arith,
}
use extraction_server.Session.Leave.{Leave, recalled, is_inplay, is_leaving, mark_leaving}
use extraction_server.Session.Recall.{
  Recall, TickInput, PlayerView, Outcome, scheduled, succeeded, ignored, recall_tick, run_ticks,
  request_recall, begin_recall, end_recall,
}

-- The player lives and stands in the zone.
abbrev pub player_passes : Option PlayerView → Bool
player_passes none = false
player_passes (some p) = p.is_alive && p.in_recall_zone

-- The five conditions of a tick: the same player, in play, not leaving, alive, in the zone.
abbrev pub tick_passes : TickInput → Bool
tick_passes i =
    i.same_uid
    && (is_inplay i.leave.session_state
        && (not (is_leaving i.leave.leave_state) && player_passes i.player))

-- The first n ticks exist and pass.
abbrev pub first_pass : ℕ → List TickInput → Bool
first_pass zero is = true
first_pass (suc n) [] = false
first_pass (suc n) (i ∷ is) = tick_passes i && first_pass n is

abbrev pub is_succeeded : Outcome → Bool
is_succeeded succeeded = true
is_succeeded _ = false

abbrev pub is_scheduled : Outcome → Bool
is_scheduled scheduled = true
is_scheduled _ = false

module _ (g : ℕ) (i : TickInput) (r : Recall) (on : r.is_recalling ≡ true)
    (gen : r.recall_generation ≡ g) where
  tick_fails :
      tick_passes i ≡ false
      → (is_succeeded (recall_tick g i r).0 ≡ false) × (is_scheduled (recall_tick g i r).0 ≡ false)
  unfolding recall_tick
  tick_fails h = ground arith

  tick_counts :
      tick_passes i ≡ true
      → r.recall_pass_count < 4
      → recall_tick g i r
        ≡ (scheduled, record r { recall_pass_count = r.recall_pass_count + 1 }, i.leave)
  unfolding recall_tick
  tick_counts h few = ground arith

  tick_succeeds : tick_passes i ≡ true → r.recall_pass_count ≡ 4 → (recall_tick g i r).0 ≡ succeeded
  unfolding recall_tick
  tick_succeeds h last = ground arith

run_ticks_from :
    (g n : ℕ) (is : List TickInput) (r : Recall)
    → r.is_recalling ≡ true
    → r.recall_generation ≡ g
    → r.recall_pass_count + suc n ≡ 5
    → is_succeeded (run_ticks g is r) ≡ first_pass (suc n) is
unfolding run_ticks
run_ticks_from g n [] r on gen c = refl
run_ticks_from g zero (i ∷ is) r on gen c = elim (Bool-cases (tick_passes i)) [
  | inr bad ↦ ground (arith, tick_fails g i r on gen bad)
  | inl good ↦ ground (arith, tick_succeeds g i r on gen good (omega arith))
]
run_ticks_from g (suc n) (i ∷ is) r on gen c = elim (Bool-cases (tick_passes i)) [
  | inr bad ↦ ground (arith, tick_fails g i r on gen bad)
  | inl good ↦
      let rest =
        run_ticks_from g n is (record r { recall_pass_count = r.recall_pass_count + 1 }) on gen
          (omega arith) in
      rw (tick_counts g i r on gen good (omega arith), good) rest
]

-- A recall that has just begun succeeds if and only if each of its first five ticks finds the same
-- player in play, not leaving, alive and inside the recall zone.
pub recall_needs_five :
    (spot : ℕ) (r : Recall) (is : List TickInput)
    → r.is_recalling ≡ false
    → let begun = (begin_recall spot r).1 in
      is_succeeded (run_ticks begun.recall_generation is begun) ≡ first_pass 5 is
unfolding begin_recall
recall_needs_five spot r is off = rw (off, begin_recall) (run_ticks_from _ 4 is _ refl refl refl)

-- A timer of a recall that has ended does nothing, neither before nor after the next recall begins:
-- it leaves the recall and the leave state as they are, and sets no further timer.
pub stale_tick :
    (spot : ℕ) (r : Recall) (i : TickInput)
    → r.recall_generation < 2 ^ 32
    → let ended = end_recall r in
      let next = (begin_recall spot ended).1 in
      (recall_tick r.recall_generation i ended ≡ (ignored, ended, i.leave))
      × (recall_tick r.recall_generation i next ≡ (ignored, next, i.leave))
unfolding recall_tick begin_recall end_recall
stale_tick spot r i small = ground arith

-- A request that is answered with yes begins a recall under a generation of its own, so that the
-- timers of an earlier one are stale; any other request leaves the recall as it is.
pub request_recall_result :
    (l : Leave) (in_zone : Bool) (spot : ℕ) (r : Recall)
    → let (answer, r') = request_recall l in_zone spot r in
      ((answer ≡ some true)
        × (r.is_recalling ≡ false)
        × (r'.is_recalling ≡ true)
        × (r'.recall_pass_count ≡ 0)
        × (r'.recall_generation ≢ r.recall_generation))
      ⊎ (((answer ≡ none) ⊎ (answer ≡ some false)) × (r' ≡ r))
unfolding request_recall begin_recall
request_recall_result l in_zone spot r = ground arith

-- What a successful tick does: the session is marked as recalled, with the number of the result as
-- the one to wait for, and the recall is over.
pub succeeded_marks :
    (g : ℕ) (i : TickInput) (r : Recall)
    → (recall_tick g i r).0 ≡ succeeded
    → (recall_tick g i r).2 ≡ mark_leaving recalled i.notify_r_seq i.now i.leave
unfolding recall_tick
succeeded_marks g i r h = ground arith
