-- ===== src/Tests/Session.antt =====
-- Leaving and recall at concrete inputs.
use extraction_server.Prelude.{◌≡◌, refl, inl, true, false, some, List, [], ◌∷◌}
use extraction_server.Session.Leave.{
  inplay, spectating, dead, pending, Leave, fresh_leave, is_active_state, mark_leaving,
  process_leave, detach_leave, is_finalize_ready, finalize_leave,
}
use extraction_server.Session.Leave.Notice.{
  Event, channel_open, loading_complete, mark, process, run, step, notices_of_life,
  leaving_inactive,
}
use extraction_server.Session.Recall.{Recall, TickInput, begin_recall, run_ticks}
use extraction_server.Session.Recall.Passes.{is_succeeded, recall_needs_five}

-- A player joins, plays and dies; the grace passes.
abbrev life : List Event
life =
    channel_open ∷ loading_complete ∷ mark dead 9 1000 ∷ process true 1100 ∷ process false 7000 ∷ []

notices_of_life_example : (run fresh_leave life).0 ≡ (dead ∷ [])
unfolding run step mark_leaving process_leave detach_leave is_finalize_ready finalize_leave
notices_of_life_example = notices_of_life life

leaving_inactive_example : is_active_state (run fresh_leave life).1.session_state ≡ false
unfolding run step mark_leaving process_leave detach_leave is_finalize_ready finalize_leave
leaving_inactive_example = leaving_inactive life (inl refl) refl

abbrev dying : Leave
dying = record {
  session_state = spectating;
  leave_state = pending;
  leave_reason = dead;
  leave_marked_at = 1000;
  leave_notify_r_seq = 9;
  left_notified = false;
}

abbrev playing : Leave
playing = record fresh_leave { session_state = inplay }

abbrev in_zone : TickInput
in_zone = record {
  same_uid = true;
  leave = playing;
  player = some (record { is_alive = true; in_recall_zone = true });
  now = 5000;
  notify_r_seq = 12;
}

abbrev idle : Recall
idle = record {
  is_recalling = false;
  recall_generation = 3;
  recall_pass_count = 0;
  recall_spot_index = 0;
}

recall_needs_five_example :
    is_succeeded (
      run_ticks
        (begin_recall 2 idle).1.recall_generation
        (in_zone ∷ in_zone ∷ in_zone ∷ in_zone ∷ in_zone ∷ [])
        (begin_recall 2 idle).1)
    ≡ true
recall_needs_five_example =
    recall_needs_five 2 idle (in_zone ∷ in_zone ∷ in_zone ∷ in_zone ∷ in_zone ∷ []) refl
