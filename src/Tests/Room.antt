-- ===== src/Tests/Room.antt =====
-- Rooms at concrete inputs.
use extraction_server.Prelude.{
  ℕ, inl, ◌+◌, ◌≡◌, refl, true, false, some, none, List, [], ◌∷◌, ◌++◌, All, arith, lookup,
}
use extraction_server.Prelude.Int.{pos}
use extraction_server.Prelude.Lookups.{keys}
use extraction_server.Session.Leave.{fresh_leave, detached, finalized, elapsed_ms, dead}
use extraction_server.Session.Leave.Notice.{Event, run}
use extraction_server.Objects.Combat.{CombatObject, new_combat_object}
use extraction_server.Objects.Npc.{new_npc}
use extraction_server.Inventory.Slots.{total}
use extraction_server.Inventory.Player.Reload.{holdings}
use extraction_server.Inventory.Box.{Box}
use extraction_server.Room.{Seat, container, hostile_npc, scenery, GameRoom, Channel}
use extraction_server.Room.Detach.{detach_player}
use extraction_server.Room.Detach.Sight.{view}
use extraction_server.Room.Detach.World.{Free, detach_player-gone}
use extraction_server.Room.Detach.Loot.{detach_player-loot}
use extraction_server.Room.Leaving.{Clocks, process_leaves, all_left}
use extraction_server.Room.Leaving.Stages.{reasons_of}
use extraction_server.Room.Leaving.Lives.{Allowed}
use extraction_server.Room.Leaving.Refine.{process_leaves_refines}
use extraction_server.Room.Leaving.Calls.{
  Call, opened, loaded, recall, notified, pass, serves, acts, apply_calls, final_notice, told_once,
}
use extraction_server.Room.Leaving.Grace.{process_leaves-finalizes}
use extraction_server.Room.Leaving.End.{Timely, room_ends}
use extraction_server.Room.Packets.{fill_static_objects, fill_dynamic_objects, joined, AreFramed}
use extraction_server.Room.Packets.Whole.{fill_objects-joined}
use extraction_server.Room.Packets.Limit.{Fits, fill_objects-limit}
use extraction_server.Room.Update.{
  regen_player_shields, Regenerates, regen_player_shields-Regenerates,
}
use extraction_server.Tests.Inventory.{kit, kit-IsValid}

abbrev seat : ℕ → Seat
seat id = record {
  leave = fresh_leave;
  object_id = some id;
  interacting_container = none;
  last_echo_ts = 0;
  recall = record {
    is_recalling = false;
    recall_generation = 0;
    recall_pass_count = 0;
    recall_spot_index = 0;
  };
  inventory = kit;
}

abbrev quiet : Channel
quiet = record { sent = []; send_r_seq = 0; pending = [] }

abbrev body : CombatObject
body = new_combat_object 20000

-- Two players, the second one hit to death, and an NPC that the second one drives.
abbrev arena : GameRoom
arena = record {
  created_at = 0;
  lifetime_expired = false;
  all_left_reported = false;
  last_regen_ms = 400;
  nxt_object_id = 9;
  sessions =
      (0, record { seat = seat 5; channel = quiet })
      ∷ (1, record { seat = seat 6; channel = quiet })
      ∷ [];
  static_objects = (1, scenery) ∷ [];
  dynamic_objects =
      (2, hostile_npc (record (new_npc (pos 0) (pos 100) (pos 10)) { target_id = pos 6 }) body)
      ∷ [];
  player_objects =
      (5, body)
      ∷ (6, record body { current_hp = 0; death_pending = true; last_attacker_id = 5 })
      ∷ [];
  left_reports = [];
  destroy_reserved = 0;
}

abbrev at : ℕ → Clocks
at t = record { now = t; marked = λ k. t; now_ms = t }

process_leaves_refines_example :
    (es : List Event) × All (Allowed (at 5000) 1) es
    × (t : Seat) × (view 1 (process_leaves (at 5000) arena).sessions ≡ some t)
    × (t.leave ≡ (run fresh_leave es).1)
    × (reasons_of 1 (process_leaves (at 5000) arena).left_reports
        ≡ reasons_of 1 arena.left_reports ++ (run fresh_leave es).0)
unfolding lookup
process_leaves_refines_example = process_leaves_refines (at 5000) 1 arena (seat 6) refl

-- The first player joins and is recalled, while the second one dies.
abbrev evening : List Call
evening =
    opened 0
    ∷ loaded 0
    ∷ serves 0 (λ s. record s { last_echo_ts = 4000 }) (λ c. c)
    ∷ pass (at 5000)
    ∷ acts ((5, body) ∷ []) [] [] 10 400
    ∷ notified 1 8
    ∷ recall 0 6000 3
    ∷ pass (at 6100)
    ∷ pass (at 12000)
    ∷ []

told_once_example :
    (t : Seat) × (view 0 (apply_calls evening arena).sessions ≡ some t)
    × (reasons_of 0 (apply_calls evening arena).left_reports ≡ final_notice t.leave)
unfolding lookup reasons_of
told_once_example = told_once evening 0 (seat 5) arena refl refl refl

arena-Timely : (k : ℕ) (s : Seat) → view k arena.sessions ≡ some s → Timely 600000 600000 s.leave
unfolding lookup
arena-Timely k s seen left = ground (arith, seen, left)

-- What the players still try once the lifetime is over, and one more pass.
abbrev late_calls : List Call
late_calls = recall 0 601000 3 ∷ pass (at 602000) ∷ loaded 1 ∷ []

room_ends_example :
    let end =
      process_leaves (at 606000) (apply_calls late_calls (process_leaves (at 600000) arena)) in
    (all_left end.sessions ≡ true) × (end.all_left_reported ≡ true) × (end.destroy_reserved ≡ 0 + 1)
unfolding keys elapsed_ms
room_ends_example =
    room_ends 600000 600000 (at 600000) (at 606000) late_calls arena (refl, (refl, tt)) refl refl
      (omega arith) arena-Timely (λ k. (omega arith, omega arith)) (omega arith) (omega arith)

abbrev fallen : Seat
fallen = record (seat 6) { leave = record fresh_leave { leave_reason = dead } }

-- Detached at 1000, and dead.
abbrev leaver : Seat
leaver = record (seat 6) {
  leave = record fresh_leave {
    leave_state = detached;
    leave_reason = dead;
    leave_marked_at = 1000;
  };
}

abbrev grave : GameRoom
grave = record arena { sessions = (1, record { seat = leaver; channel = quiet }) ∷ [] }

process_leaves-finalizes_example :
    (t : Seat) × (view 1 (process_leaves (at 6500) grave).sessions ≡ some t)
    × (t.leave.leave_state ≡ finalized)
unfolding lookup
process_leaves-finalizes_example =
    process_leaves-finalizes (at 6500) grave 1 leaver refl (inl refl) (omega arith) (omega arith)

-- Every mark is made one millisecond after the start of the pass.
abbrev slow : Clocks
slow = record { now = 600000; marked = λ k. 600001; now_ms = 600001 }

detach_player-loot_example :
    (box : Box) × (lookup 9 (detach_player 1 fallen arena).dynamic_objects ≡ some (container box))
    × (total 6 box.slots ≡ holdings 6 kit)
unfolding lookup
detach_player-loot_example =
    detach_player-loot 1 6 6 fallen
      (record body { current_hp = 0; death_pending = true; last_attacker_id = 5 }) arena refl refl
      refl refl kit-IsValid (omega arith)

detach_player-gone_example :
    (lookup 6 (detach_player 1 fallen arena).player_objects ≡ none)
    × All (Free 6) (detach_player 1 fallen arena).dynamic_objects
detach_player-gone_example = detach_player-gone 1 6 fallen arena refl

-- Objects of 500 bytes, so that one fills a packet.
abbrev crowd : GameRoom
crowd = record arena { dynamic_objects = (2, scenery) ∷ (3, scenery) ∷ (4, scenery) ∷ [] }

fill_objects-joined_example :
    (joined (fill_static_objects (λ o. 500) crowd) ≡ crowd.static_objects)
    × AreFramed 0 (fill_static_objects (λ o. 500) crowd)
    × (joined (fill_dynamic_objects (λ o. 500) crowd) ≡ crowd.dynamic_objects)
    × AreFramed 0 (fill_dynamic_objects (λ o. 500) crowd)
fill_objects-joined_example = fill_objects-joined (λ o. 500) crowd

fill_objects-limit_example :
    All (Fits (λ o. 500)) (fill_static_objects (λ o. 500) crowd)
    × All (Fits (λ o. 500)) (fill_dynamic_objects (λ o. 500) crowd)
fill_objects-limit_example =
    fill_objects-limit (λ o. 500) crowd (omega arith, tt)
      (omega arith, (omega arith, (omega arith, tt)))

abbrev worn : CombatObject
worn = record body { max_shield = 10000; current_shield = 3000; shield_regen_per_sec = 800 }

regen_player_shields-Regenerates_example :
    (c : CombatObject) × (lookup 7
        (regen_player_shields 90400
          (record arena { player_objects = (7, worn) ∷ [] })).player_objects
      ≡ some c)
    × Regenerates worn c
unfolding lookup new_combat_object
regen_player_shields-Regenerates_example =
    regen_player_shields-Regenerates 90400 7 worn (record arena { player_objects = (7, worn) ∷ [] })
      refl (omega arith) (omega arith)
