-- ===== src/Handlers/Equip.antt =====
-- `Handle_C2D_RequestEquipItem` of src/DedicateProcess/ClientPacketHandler.cpp: a player equips what
-- is in a slot, or takes off what is worn, from or to the own inventory or the container that is open.
-- A refused operation of the inventory has written nothing, so that a refusal is its reason alone; the
-- notice of a changed weapon and the fields of the response are left out.
pub mod Valid
use extraction_server.Prelude.{
  ℕ, leb, ltb, ◌==◌, if◌then◌else◌, Bool, true, false, Option, none, some, set, get_or, length,
}
use extraction_server.Prelude.Words.{add32}
use extraction_server.Objects.Combat.{CombatObject}
use extraction_server.Inventory.Slots.{Slot, no_slot}
use extraction_server.Inventory.Denials.{
  Deny, version_mismatch, server_internal, container_not_open, out_of_range, Result, ok, err, ◌>>=◌,
  ◌>>◌, ensure, require,
}
use extraction_server.Inventory.Player.{PlayerInventory, SlotRef, own, outside}
use extraction_server.Inventory.Player.Gear.{
  Outcome, Answer, refused, done, equip_weapon, unequip_weapon, equip_armor, unequip_armor,
}
use extraction_server.Inventory.Box.{Box}
use extraction_server.Inventory.Transfer.{View, player_sentinel}
use extraction_server.Handlers.Weapons.{WeaponsInHand, set_weapons, set_armor}

-- `C2DRequestEquipItem`
pub record EquipRequest : Type 0 where
  pub action_type : ℕ
  pub equipment_slot_type : ℕ
  pub object_id : ℕ
  pub object_version : ℕ
  pub object_slot_idx : ℕ
  pub my_version : ℕ

-- The slot of a request: the container and the index there if it is not the player's, the reference
-- for the inventory, and the contents outside.
pub record Source : Type 0 where
  pub box : Option (ℕ × Box)
  pub ref : SlotRef
  pub out : Slot

pub find_own : EquipRequest → PlayerInventory → Result Source
find_own q v = do
  ensure (q.object_version == v.version) version_mismatch
  ensure (ltb q.object_slot_idx 25) server_internal
  ok (record { box = none; ref = own q.object_slot_idx; out = no_slot })

pub find_outside : View → EquipRequest → PlayerInventory → Result Source
find_outside w q v = do
  id ← require w.interacting_container container_not_open
  ensure (q.object_id == id) container_not_open
  ensure w.in_room server_internal
  object ← require w.object server_internal
  box ← require object server_internal
  ensure w.has_player_object server_internal
  ensure w.near out_of_range
  ensure (q.object_version == box.version) version_mismatch
  ensure (ltb q.object_slot_idx (length box.slots)) server_internal
  ensure (q.my_version == v.version) version_mismatch
  ok (record {
    box = some (id, box);
    ref = outside;
    out = get_or box.slots q.object_slot_idx no_slot;
  })

unfoldable pub find_source : View → EquipRequest → PlayerInventory → Result Source
unfolding find_own find_outside
find_source w q v = if q.object_id == player_sentinel then find_own q v else find_outside w q v

-- The four operations, by the action and the equipment slot (0 primary, 1 secondary, 2 armour).
unfoldable pub operate : EquipRequest → SlotRef → PlayerInventory → Slot → Outcome
operate q ref v out =
    let primary = q.equipment_slot_type == 0 in
    if q.action_type == 0
    then (if leb q.equipment_slot_type 1
        then equip_weapon ref primary v out
        else equip_armor ref v out)
    else if leb q.equipment_slot_type 1
    then unequip_weapon ref primary v out
    else unequip_armor ref v out

-- The player's object: the weapons in hand, and the armour.
abbrev pub Body : Type 0
Body = Option (WeaponsInHand × CombatObject)

dress : ℕ → PlayerInventory → Body → Body
dress kind v none = none
dress kind v (some (h, c)) =
    if kind == 2
    then some (h, set_armor v.armor.item.blueprint_id c)
    else some
        (set_weapons v.primary_weapon.item.blueprint_id v.secondary_weapon.item.blueprint_id h, c)

pub record Equipped : Type 0 where
  pub inventory : PlayerInventory
  pub box : Option (ℕ × Box)
  pub body : Body
  pub unloaded : Option ℕ

pub put_back : ℕ → Slot → Option (ℕ × Box) → Option (ℕ × Box)
put_back i s none = none
put_back i s (some (id, c)) =
    some (id, record c { slots = set c.slots i s; version = add32 c.version 1 })

pub conclude : EquipRequest → Source → Body → Answer → PlayerInventory → Slot → Result Equipped
unfolding dress put_back
conclude q s body (refused d) v out = err d
conclude q s body (done at) v out = ok (record {
  inventory = v;
  box = put_back q.object_slot_idx out s.box;
  body = dress q.equipment_slot_type v body;
  unloaded = at;
})

-- The handler of an active session
unfoldable pub equip_item : View → EquipRequest → PlayerInventory → Body → Result Equipped
unfolding find_source operate conclude
equip_item w q v body = do
  ensure (leb q.action_type 1) server_internal
  ensure (leb q.equipment_slot_type 2) server_internal
  s ← find_source w q v
  let r = operate q s.ref v s.out
  conclude q s body r.0 r.1 r.2
