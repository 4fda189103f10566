-- ===== src/Room/Detach.antt =====
-- `DetachPlayer` of src/DedicateProcess/GameRoom.cpp and what it calls: the player's container and
-- NPCs are released, a dead player's inventory becomes a loot container, the object is removed, and
-- the main process is told.
pub mod Sight
pub mod Effect
pub mod World
pub mod Loot
pub mod Flags
use extraction_server.Prelude.{
  ℕ, ◌==◌, if◌then◌else◌, Bool, true, false, not, ◌&&◌, ◌||◌, Option, none, some, List, [], ◌∷◌,
  ◌++◌, map, lookup, erase, emplace, adjust,
}
use extraction_server.Prelude.Words.{add32}
use extraction_server.Prelude.Int.{ℤ, pos}
use extraction_server.Objects.Combat.{CombatObject}
use extraction_server.Objects.Npc.{Npc, is_authority, release_authority}
use extraction_server.Inventory.Slots.{Slot, clear}
use extraction_server.Inventory.Player.{PlayerInventory, update_first_empty}
use extraction_server.Inventory.Player.Gear.{clear_inventory}
use extraction_server.Inventory.Report.{serialize_inventory_for_ipc}
use extraction_server.Inventory.Box.{Box, player_loot}
use extraction_server.Session.Leave.{
  Leave, LeaveReason, SessionState, spectating, left, is_dead, is_disconnected, is_recalled,
  detach_leave,
}
use extraction_server.Session.Recall.{end_recall}
use extraction_server.Room.{
  Notice, player_killed, despawn_player, spawn_object, npc_authority, Seat, PlayerSession, Sessions,
  GameObject, container, hostile_npc, scenery, Objects, LeftReport, GameRoom, broadcast,
  find_nonplayer_object, find_player_object,
}

-- A write to the session of an id.
abbrev pub update_seat : ℕ → (Seat → Seat) → GameRoom → GameRoom
update_seat k f r = record r { sessions = adjust k (λ s. record s { seat = f s.seat }) r.sessions }

-- Is this the id in the option?
abbrev pub holds : Option ℕ → Option ℕ → Bool
holds (some a) (some b) = a == b
holds _ _ = false

-- The write to a container that its player leaves, if it is still that player's.
vacate : Option ℕ → GameObject → GameObject
vacate player (container b) =
    if holds b.interacting_player player
    then container (record b { interacting_player = none })
    else container b
vacate player o = o

-- The second half of `ReleaseInteractingContainer`: the container side, for the id that the session
-- had.
pub vacate_container : Option ℕ → Option ℕ → GameRoom → GameRoom
unfolding vacate lookup adjust
vacate_container none player r = r
vacate_container (some c) player r = elim (lookup c r.static_objects) [
  | some o ↦ record r { static_objects = adjust c (vacate player) r.static_objects }
  | none ↦ record r { dynamic_objects = adjust c (vacate player) r.dynamic_objects }
]

-- `ReleaseInteractingContainer`, for the session of an id and its fields.
unfoldable pub release_container : ℕ → Seat → GameRoom → GameRoom
unfolding vacate_container
release_container k s r =
    vacate_container s.interacting_container s.object_id
      (update_seat k (λ t. record t { interacting_container = none }) r)

-- One round of `ReleaseNpcAuthority`: the new object, and the notice if the NPC was the player's.
release_npc : ℕ → ℕ → GameObject → Option Notice × GameObject
release_npc player id (hostile_npc n body) =
    if not (is_authority (pos player) n)
    then (none, hostile_npc n body)
    else let (released, n') = release_authority n in
      (if released then some (npc_authority id n') else none, hostile_npc n' body)
release_npc player id o = (none, o)

-- `NotifyNpcAuthority`, if there is a notice.
notify : Option Notice → GameRoom → GameRoom
notify none r = r
notify (some n) r = broadcast n none r

-- The loop of `ReleaseNpcAuthority` over the dynamic objects; the first list holds those already
-- done.
release_npcs : ℕ → Objects → Objects → GameRoom → GameRoom
unfolding release_npc notify
release_npcs player done [] r = record r { dynamic_objects = done }
release_npcs player done ((id, o) ∷ todo) r =
    let (notice, o') = release_npc player id o in
    release_npcs player (done ++ (id, o') ∷ []) todo (notify notice r)

-- `ReleaseNpcAuthority`
unfoldable pub release_npc_authority : Option ℕ → GameRoom → GameRoom
unfolding release_npcs
release_npc_authority none r = r
release_npc_authority (some player) r = release_npcs player [] r.dynamic_objects r

-- `SpawnDynamicObject`: an id that is there already keeps its object, and nothing is sent.
unfoldable pub spawn_dynamic_object : ℕ → GameObject → GameRoom → GameRoom
unfolding lookup emplace
spawn_dynamic_object id o r = elim (lookup id r.dynamic_objects) [
  | some old ↦ r
  | none ↦
      broadcast (spawn_object id) none
        (record r { dynamic_objects = emplace id o r.dynamic_objects })
]

-- `SpawnPlayerLootContainer`, with `GetNewObjectId`
unfoldable pub spawn_player_loot_container : PlayerInventory → GameRoom → GameRoom
unfolding spawn_dynamic_object
spawn_player_loot_container v r =
    spawn_dynamic_object r.nxt_object_id (container (player_loot v))
      (record r { nxt_object_id = add32 r.nxt_object_id 1 })

-- The branch of `DetachPlayer` for a dead player, before the inventory is cleared.
leave_loot : ℕ → CombatObject → PlayerInventory → GameRoom → GameRoom
unfolding spawn_player_loot_container
leave_loot id body v r =
    broadcast (player_killed id body.last_attacker_id) none (spawn_player_loot_container v r)

-- Does the player lose what it carries?
abbrev pub loses_items : LeaveReason → Bool
loses_items reason = is_dead reason || is_disconnected reason

-- The part of `DetachPlayer` for a session whose player object is in the room.
unfoldable pub remove_player : ℕ → Seat → ℕ → CombatObject → GameRoom → GameRoom
unfolding leave_loot clear_inventory erase
remove_player k s id body r =
    let reason = s.leave.leave_reason in
    let looted = (if is_dead reason then leave_loot id body s.inventory r else r) in
    let stripped =
      (if loses_items reason
        then update_seat k (λ t. record t { inventory = clear_inventory t.inventory }) looted
        else looted) in
    broadcast (despawn_player id reason) (some k)
      (record stripped { player_objects = erase id stripped.player_objects })

remove_found : ℕ → Seat → ℕ → Option CombatObject → GameRoom → GameRoom
unfolding remove_player
remove_found k s id none r = r
remove_found k s id (some body) r = remove_player k s id body r

-- The same, if there is one.
pub remove_object : ℕ → Seat → Option ℕ → GameRoom → GameRoom
unfolding remove_found
remove_object k s none r = r
remove_object k s (some id) r = remove_found k s id (find_player_object id r) r

-- What `NotifyPlayerLeftToMain` puts in the report.
unfoldable pub report_of : ℕ → Seat → LeftReport
unfolding serialize_inventory_for_ipc
report_of k s = record {
  session_id = k;
  reason = s.leave.leave_reason;
  inventory =
      if is_recalled s.leave.leave_reason
      then some (serialize_inventory_for_ipc s.inventory)
      else none;
}

-- The report goes out if the flag says so; the state of the session is the new one.
abbrev pub report : Bool → ℕ → Seat → GameRoom → GameRoom
report sent k s r =
    if sent then record r { left_reports = r.left_reports ++ report_of k s ∷ [] } else r

-- The end of `DetachPlayer`: the object id is dropped, the session DETACHED, and the main process
-- told once.
unfoldable pub end_detach : ℕ → Seat → GameRoom → GameRoom
unfolding report_of
end_detach k s r =
    let (sent, l) = detach_leave s.leave in
    report sent k s (update_seat k (λ t. record t { object_id = none; leave = l }) r)

-- The session state that `DetachPlayer` sets first.
abbrev pub state_on_detach : LeaveReason → SessionState
state_on_detach reason = if is_dead reason then spectating else left

-- `DetachPlayer`, for the session of an id and its fields before the call.
unfoldable pub detach_player : ℕ → Seat → GameRoom → GameRoom
unfolding release_container release_npc_authority remove_object end_detach
detach_player k s r =
    let begun =
      update_seat k
        (λ t. record t {
          recall = end_recall t.recall;
          leave = record t.leave { session_state = state_on_detach t.leave.leave_reason };
        })
        r in
    let released = release_npc_authority s.object_id (release_container k s begun) in
    end_detach k s (remove_object k s s.object_id released)
