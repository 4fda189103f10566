-- ===== src/Room/Detach/Loot.antt =====
-- The loot that a dead player leaves in the room.
use extraction_server.Prelude.{
  ℕ, ◌<◌, ◌≡◌, refl, ap, ◌∙◌, ==_refl, if◌then◌else◌, Option, none, some, [], ◌∷◌, ◌++◌, arith,
  lookup, lookup-emplace, Option-cases, inl, inr,
}
use extraction_server.Prelude.Lookups.{lookup-adjust}
use extraction_server.Objects.Combat.{CombatObject}
use extraction_server.Inventory.Slots.{total}
use extraction_server.Inventory.Player.{PlayerInventory}
use extraction_server.Inventory.Player.Invariant.{IsValid}
use extraction_server.Inventory.Player.Reload.{holdings}
use extraction_server.Inventory.Box.{Box, player_loot}
use extraction_server.Inventory.Box.Loot.{player_loot-total}
use extraction_server.Session.Leave.{dead, is_dead}
use extraction_server.Room.{
  Notice, Seat, GameObject, container, Objects, GameRoom, broadcast, find_player_object,
}
use extraction_server.Room.Detach.{
  update_seat, vacate, vacate_container, release_container, release_npc, notify, release_npcs,
  release_npc_authority, spawn_dynamic_object, spawn_player_loot_container, leave_loot,
  remove_player, remove_found, remove_object, detach_player, loses_items,
}
use extraction_server.Room.Detach.Effect.{begin_detach, let_go, released-Acts}
use extraction_server.Room.Detach.World.{end_detach-objects, strip-dynamic}

-- The room has given out no id from this one on: the next id is new.
abbrev pub IsNew : ℕ → Objects → Type 0
IsNew id m = lookup id m ≡ none

vacate_container-IsNew :
    (id : ℕ) (c player : Option ℕ) (r : GameRoom)
    → IsNew id r.dynamic_objects
    → IsNew id (vacate_container c player r).dynamic_objects
      × ((vacate_container c player r).nxt_object_id ≡ r.nxt_object_id)
unfolding vacate_container
vacate_container-IsNew id none player r h = (h, refl)
vacate_container-IsNew id (some c) player r h = elim (Option-cases (lookup c r.static_objects)) [
  | inr (o, e) ↦ rw (e, vacate_container) (h, refl)
  | inl e ↦
      rw (e, vacate_container)
        ((lookup-adjust (vacate player) c id r.dynamic_objects ∙ ground (arith, h), refl))
]

append-new :
    (id : ℕ) (xs ys : Objects)
    → lookup id (xs ++ ys) ≡ (elim (lookup id xs) [ none ↦ lookup id ys | some o ↦ some o ])
unfolding lookup
append-new id [] ys = refl
append-new id ((k, o) ∷ xs) ys = ground (arith, append-new id xs ys)

tail-IsNew :
    (id k : ℕ) (o o' : GameObject) (done todo : Objects)
    → IsNew id done
    → IsNew id ((k, o) ∷ todo)
    → IsNew id (done ++ (k, o') ∷ []) × IsNew id todo
unfolding lookup
tail-IsNew id k o o' done todo h g = ground (arith, append-new id done ((k, o') ∷ []))

notify-kept : (n : Option Notice) (r : GameRoom) → (notify n r).nxt_object_id ≡ r.nxt_object_id
unfolding notify broadcast
notify-kept none r = refl
notify-kept (some n) r = refl

release_npcs-IsNew :
    (id player : ℕ) (done todo : Objects) (r : GameRoom)
    → IsNew id done
    → IsNew id todo
    → IsNew id (release_npcs player done todo r).dynamic_objects
      × ((release_npcs player done todo r).nxt_object_id ≡ r.nxt_object_id)
unfolding release_npcs
release_npcs-IsNew id player done [] r h g = (h, refl)
release_npcs-IsNew id player done ((k, o) ∷ todo) r h g =
    let (notice, o') = release_npc player k o in
    let (h', g') = tail-IsNew id k o o' done todo h g in
    let (a, b) = release_npcs-IsNew id player (done ++ (k, o') ∷ []) todo (notify notice r) h' g' in
    (a, b ∙ notify-kept notice r)

release_npc_authority-IsNew :
    (id : ℕ) (player : Option ℕ) (r : GameRoom)
    → IsNew id r.dynamic_objects
    → IsNew id (release_npc_authority player r).dynamic_objects
      × ((release_npc_authority player r).nxt_object_id ≡ r.nxt_object_id)
unfolding release_npc_authority lookup
release_npc_authority-IsNew id none r h = (h, refl)
release_npc_authority-IsNew id (some p) r h = release_npcs-IsNew id p [] r.dynamic_objects r refl h

-- The room in which the object is taken out.
abbrev released : ℕ → Seat → GameRoom → GameRoom
released k s r =
    release_npc_authority s.object_id (release_container k s (update_seat k begin_detach r))

released-IsNew :
    (k : ℕ) (s : Seat) (r : GameRoom)
    → IsNew r.nxt_object_id r.dynamic_objects
    → IsNew r.nxt_object_id (released k s r).dynamic_objects
      × ((released k s r).nxt_object_id ≡ r.nxt_object_id)
unfolding release_container
released-IsNew k s r h =
    let (a, b) =
      vacate_container-IsNew r.nxt_object_id s.interacting_container s.object_id
        (update_seat k let_go (update_seat k begin_detach r)) h in
    let (x, y) = release_npc_authority-IsNew r.nxt_object_id s.object_id _ a in (x, y ∙ b)

spawn-there :
    (id : ℕ) (o : GameObject) (r : GameRoom)
    → IsNew id r.dynamic_objects
    → lookup id (spawn_dynamic_object id o r).dynamic_objects ≡ some o
unfolding spawn_dynamic_object broadcast
spawn-there id o r h =
    rw (h, spawn_dynamic_object, lookup-emplace id id o r.dynamic_objects, ==_refl id, h) refl

loot-there :
    (id : ℕ) (body : CombatObject) (v : PlayerInventory) (r : GameRoom)
    → IsNew r.nxt_object_id r.dynamic_objects
    → lookup r.nxt_object_id (leave_loot id body v r).dynamic_objects
      ≡ some (container (player_loot v))
unfolding leave_loot spawn_player_loot_container broadcast
loot-there id body v r h = spawn-there r.nxt_object_id (container (player_loot v)) _ h

remove_player-there :
    (k : ℕ) (s : Seat) (id : ℕ) (body : CombatObject) (r : GameRoom)
    → s.leave.leave_reason ≡ dead
    → IsNew r.nxt_object_id r.dynamic_objects
    → lookup r.nxt_object_id (remove_player k s id body r).dynamic_objects
      ≡ some (container (player_loot s.inventory))
unfolding remove_player broadcast
remove_player-there k s id body r d h =
    let looted : GameRoom =
      (if is_dead s.leave.leave_reason then leave_loot id body s.inventory r else r) in
    ap (lookup r.nxt_object_id) (strip-dynamic (loses_items s.leave.leave_reason) k _ looted)
    ∙ rw d (loot-there id body s.inventory r h)

remove_object-there :
    (k : ℕ) (s : Seat) (id : ℕ) (body : CombatObject) (r : GameRoom)
    → find_player_object id r ≡ some body
    → s.leave.leave_reason ≡ dead
    → IsNew r.nxt_object_id r.dynamic_objects
    → lookup r.nxt_object_id (remove_object k s (some id) r).dynamic_objects
      ≡ some (container (player_loot s.inventory))
unfolding remove_object remove_found
remove_object-there k s id body r f d h = rw f (remove_player-there k s id body r d h)

-- A player that dies with a valid inventory and its body in the room leaves a container, under the next
-- object id if no dynamic object has it yet, that holds as much of every item as the player had, in the slots, the hands and the
-- magazines together.
pub detach_player-loot :
    (k id b : ℕ) (s : Seat) (body : CombatObject) (r : GameRoom)
    → s.leave.leave_reason ≡ dead
    → s.object_id ≡ some id
    → lookup id r.player_objects ≡ some body
    → lookup r.nxt_object_id r.dynamic_objects ≡ none
    → IsValid s.inventory
    → 0 < b
    → (box : Box) × (lookup r.nxt_object_id (detach_player k s r).dynamic_objects
        ≡ some (container box))
      × (total b box.slots ≡ holdings b s.inventory)
unfolding detach_player find_player_object
detach_player-loot k id b s body r d h f new v pos =
    let free = released k s r in
    let (kept_new, next) = released-IsNew k s r new in
    let there : find_player_object id free ≡ some body =
      ap (lookup id) (released-Acts k s r).1 ∙ f in
    (
      player_loot s.inventory,
      ap (lookup r.nxt_object_id) (end_detach-objects k s (remove_object k s s.object_id free)).0
          ∙ ap (λ o. lookup r.nxt_object_id (remove_object k s o free).dynamic_objects) h
          ∙ (rw next at (remove_object-there k s id body free there d (rw next kept_new))),
      player_loot-total s.inventory b v pos,
    )
