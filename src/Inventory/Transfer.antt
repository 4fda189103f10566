-- ===== src/Inventory/Transfer.antt =====
-- `Handle_C2D_RequestInteractContainerObject` of src/DedicateProcess/ClientPacketHandler.cpp: a player
-- moves, swaps or merges the contents of two slots, each one of the own inventory or of the container
-- that is open. The log lines are left out, and the response is the values that it carries.
pub mod Conserve
pub mod Handler
use extraction_server.Prelude.{
  ℕ, ◌+◌, ◌-◌, leb, ltb, ◌==◌, if◌then◌else◌, Bool, true, false, not, ◌&&◌, ◌||◌, Option, none,
  some, List, set, get_or, length,
}
use extraction_server.Prelude.Words.{add32}
use extraction_server.Prelude.Int.{ℤ, pos, leb_ℤ, ltb_ℤ, pos_part}
use extraction_server.Inventory.Blueprints.{get_type, is_weapon, is_armor}
use extraction_server.Inventory.Slots.{Slot, no_slot, is_empty, clear, put}
use extraction_server.Inventory.Denials.{
  Deny, version_mismatch, slot_empty, slot_not_empty, slot_already_empty, invalid_quantity,
  blueprint_mismatch, item_type_mismatch, server_internal, container_not_open, out_of_range, Result,
  ok, err, ◌>>=◌, ◌>>◌, ensure, require,
}
use extraction_server.Inventory.Player.{PlayerInventory, update_first_empty}
use extraction_server.Inventory.Box.{Box}

-- `PLAYER_OBJECT_ID_SENTINEL`: the player's own inventory
abbrev pub player_sentinel : ℕ
player_sentinel = 0xffff_ffff

-- `C2DRequestInteractContainerObject`
pub record Request : Type 0 where
  pub interact_type : ℕ
  pub start_object_id : ℕ
  pub start_version : ℕ
  pub start_slot_idx : ℕ
  pub quantity : ℤ
  pub end_object_id : ℕ
  pub end_version : ℕ
  pub end_slot_idx : ℕ

-- What the handler reads of the session and of its room: the id of the open container, whether there
-- is a room, the room's object under that id (and whether it is a container), whether the player has
-- an object, and the answer of `IsPlayerNearContainer`.
pub record View : Type 0 where
  pub active : Bool
  pub interacting_container : Option ℕ
  pub in_room : Bool
  pub object : Option (Option Box)
  pub has_player_object : Bool
  pub near : Bool

abbrev pub both_mine : Request → Bool
both_mine q = q.start_object_id == player_sentinel && q.end_object_id == player_sentinel

-- The open container and its id, if one side of the request is not the player's.
unfoldable pub find_container : View → Request → Result (Option (ℕ × Box))
find_container w q = if both_mine q then ok none else (do
  id ← require w.interacting_container container_not_open
  ensure w.in_room server_internal
  object ← require w.object server_internal
  box ← require object server_internal
  ensure w.has_player_object server_internal
  ensure w.near out_of_range
  ok (some (id, box)))

-- A slot of the player's or of the container.
pub data Place : Type 0 where
  mine : ℕ → Place
  theirs : ℕ → Place

-- One side of a request: the version that the client saw must be the present one, and a slot that is
-- out of range is none.
resolve_theirs : Option (ℕ × Box) → ℕ → ℕ → ℕ → Result (Option Place)
resolve_theirs none object seen i = err container_not_open
resolve_theirs (some (id, box)) object seen i = do
  ensure (object == id) container_not_open
  ensure (seen == box.version) version_mismatch
  ok (if ltb i (length box.slots) then some (theirs i) else none)

unfoldable pub resolve : Option (ℕ × Box) → PlayerInventory → ℕ → ℕ → ℕ → Result (Option Place)
unfolding resolve_theirs
resolve opened v object seen i =
    if object == player_sentinel
    then (do
      ensure (seen == v.version) version_mismatch
      ok (if ltb i 25 then some (mine i) else none))
    else resolve_theirs opened object seen i

pub same_place : Place → Place → Bool
same_place (mine i) (mine j) = i == j
same_place (theirs i) (theirs j) = i == j
same_place (mine i) (theirs j) = false
same_place (theirs i) (mine j) = false

-- `quantity > 0` of a stack, at most what it holds
allowed_quantity : ℤ → Slot → Bool
allowed_quantity q s = not (leb_ℤ q (pos 0) || ltb_ℤ (pos s.quantity) q)

-- What is left of a stack from which `n` are taken.
taken_from : Slot → ℕ → Slot
taken_from s n =
    let left = record s { quantity = s.quantity - n } in
    if left.quantity == 0 then clear left else left

-- [get] a part of a stack to an empty slot
get : ℤ → Slot → Slot → Result (Slot × Slot)
unfolding allowed_quantity taken_from
get q start end = do
  ensure (is_empty end) slot_not_empty
  ensure (allowed_quantity q start) invalid_quantity
  ok (taken_from start (pos_part q), record end { item = start.item; quantity = pos_part q })

-- [swap] two slots that both hold something
swap : Slot → Slot → Result (Slot × Slot)
swap start end = do
  ensure (not (is_empty end)) slot_already_empty
  ok (put end start, put start end)

-- [merge] a part of a stack to a stack of the same kind
merge : ℤ → Slot → Slot → Result (Slot × Slot)
unfolding allowed_quantity taken_from
merge q start end = do
  ensure (not (is_empty end)) slot_already_empty
  ensure (start.item.blueprint_id == end.item.blueprint_id) blueprint_mismatch
  ensure (let t = get_type start.item.blueprint_id in not (is_weapon t || is_armor t))
      item_type_mismatch
  ensure (allowed_quantity q start) invalid_quantity
  ok (taken_from start (pos_part q), record end { quantity = end.quantity + pos_part q })

-- The switch over the type of the request, on the two slots.
unfoldable pub interact : ℕ → ℤ → Slot → Slot → Result (Slot × Slot)
unfolding get swap merge
interact kind q start end =
    if kind == 0
    then get q start end
    else if kind == 1
    then swap start end
    else if kind == 2
    then merge q start end
    else err server_internal

-- What the operation works on: the inventory, and the slots of the container.
abbrev pub Store : Type 0
Store = PlayerInventory × Option (ℕ × Box)

read_box : Option (ℕ × Box) → ℕ → Slot
read_box none i = no_slot
read_box (some (id, c)) i = get_or c.slots i no_slot

write_box : Option (ℕ × Box) → ℕ → Slot → Option (ℕ × Box)
write_box none i s = none
write_box (some (id, c)) i s = some (id, record c { slots = set c.slots i s })

unfoldable pub read : Place → Store → Slot
unfolding read_box
read (mine i) (v, c) = get_or v.slots i no_slot
read (theirs i) (v, c) = read_box c i

unfoldable pub write : Place → Slot → Store → Store
unfolding write_box
write (mine i) s (v, c) = (record v { slots = set v.slots i s }, c)
write (theirs i) s (v, c) = (v, write_box c i s)

bump_box : Option (ℕ × Box) → Option (ℕ × Box)
bump_box none = none
bump_box (some (id, c)) = some (id, record c { version = add32 c.version 1 })

-- The versions after a success.
pub finish : Bool → Bool → Store → Store
unfolding bump_box update_first_empty
finish start_mine end_mine (v, c) = (
  if start_mine || end_mine
      then record (update_first_empty v) { version = add32 v.version 1 }
      else v,
  if not start_mine || not end_mine then bump_box c else c,
)

-- The moves of an accepted request, between two places.
unfoldable pub transfer : Request → Place → Place → Store → Result Store
unfolding same_place interact finish read write
transfer q from to t = do
  ensure (not (same_place from to)) server_internal
  ensure (not (is_empty (read from t))) slot_empty
  slots ← interact q.interact_type q.quantity (read from t) (read to t)
  ok (
      finish (q.start_object_id == player_sentinel) (q.end_object_id == player_sentinel)
        (write to slots.1 (write from slots.0 t)))

-- The handler of an active session: the reason that is sent, or the new state.
unfoldable pub respond : View → Request → PlayerInventory → Result Store
unfolding find_container resolve transfer
respond w q v = do
  ensure (leb q.interact_type 2) server_internal
  opened ← find_container w q
  start ← resolve opened v q.start_object_id q.start_version q.start_slot_idx
  end ← resolve opened v q.end_object_id q.end_version q.end_slot_idx
  from ← require start server_internal
  to ← require end server_internal
  transfer q from to (v, opened)

-- `Handle_C2D_RequestInteractContainerObject`: the request of an inactive session gets no answer.
unfoldable pub handle : View → Request → PlayerInventory → Option (Result Store)
unfolding respond
handle w q v = if w.active then some (respond w q v) else none
