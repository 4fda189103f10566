-- ===== src/Inventory/Player/Gear.antt =====
-- Equipping and taking off, and emptying a whole inventory: `EquipWeaponFromSlot`,
-- `UnequipWeaponToSlot`, `EquipArmorFromSlot`, `UnequipArmorToSlot` and `Clear` of
-- src/DedicateProcess/PlayerInventory.cpp.
pub mod Moves
pub mod Equip
pub mod Armor
pub mod Unequip
use extraction_server.Prelude.{
  ℕ, if◌then◌else◌, Bool, true, false, not, ◌&&◌, Option, none, some, List, map,
}
use extraction_server.Prelude.Words.{add32}
use extraction_server.Inventory.Blueprints.{get_type, is_weapon, is_armor}
use extraction_server.Inventory.Denials.{
  Deny, slot_empty, item_type_mismatch, bare_handed, magazine_unload_failed,
}
use extraction_server.Inventory.Slots.{Slot, is_empty, clear, put}
use extraction_server.Inventory.Player.{
  PlayerInventory, update_first_empty, weapon_of, with_weapon, unload_magazine, SlotRef, read,
  write,
}

-- The end of an operation: refused, or done (with the slot that took the unloaded rounds), and the
-- state in either case.
pub data Answer : Type 0 where
  refused : Deny → Answer
  done : Option ℕ → Answer

abbrev pub Outcome : Type 0
Outcome = Answer × PlayerInventory × Slot

-- `UpdateFirstEmptySlotIndex(); ++_inventoryVersion;`
unfoldable pub touch : PlayerInventory → PlayerInventory
unfolding update_first_empty
touch v = record (update_first_empty v) { version = add32 v.version 1 }

-- Moves the contents of a slot into an empty equipment slot, or swaps the two: the equipment slot
-- and the other slot afterwards. Both directions write the same two pairs of fields.
unfoldable pub trade : Slot → Slot → Slot × Slot
trade gear s = if is_empty gear then (put s gear, clear s) else (put s gear, put gear s)

-- `EquipWeaponFromSlot`
unfoldable pub equip_weapon : SlotRef → Bool → PlayerInventory → Slot → Outcome
unfolding unload_magazine trade touch
equip_weapon src primary v out =
    if is_empty (read src v out)
    then (refused slot_empty, v, out)
    else if not (is_weapon (get_type (read src v out).item.blueprint_id))
    then (refused item_type_mismatch, v, out)
    else let (unloaded, at, v1) = unload_magazine primary v in
      if not unloaded
      then (refused magazine_unload_failed, v1, out)
      else let (gear, s) = trade (weapon_of primary v1) (read src v1 out) in
        let (v2, out2) = write src s (with_weapon primary gear v1) out in (done at, touch v2, out2)

-- The end of `UnequipWeaponToSlot`, past its checks: the weapon moves first, then the rounds.
unfoldable pub unequip_move : SlotRef → Bool → PlayerInventory → Slot → Outcome
unfolding unload_magazine trade update_first_empty
unequip_move dst primary v out =
    let (s, gear) = trade (read dst v out) (weapon_of primary v) in
    let (v1, out1) = write dst s (with_weapon primary gear v) out in
    let (unloaded, at, v2) = unload_magazine primary (update_first_empty v1) in
    if not unloaded
    then (refused magazine_unload_failed, v2, out1)
    else (done at, record v2 { version = add32 v2.version 1 }, out1)

-- `UnequipWeaponToSlot`
unfoldable pub unequip_weapon : SlotRef → Bool → PlayerInventory → Slot → Outcome
unfolding unequip_move
unequip_weapon dst primary v out =
    if is_empty (weapon_of primary v)
    then (refused slot_empty, v, out)
    else if is_empty (read dst v out)
    then (if is_empty (weapon_of (not primary) v)
        then (refused bare_handed, v, out)
        else unequip_move dst primary v out)
    else if not (is_weapon (get_type (read dst v out).item.blueprint_id))
    then (refused item_type_mismatch, v, out)
    else unequip_move dst primary v out

-- `EquipArmorFromSlot`
unfoldable pub equip_armor : SlotRef → PlayerInventory → Slot → Outcome
unfolding trade touch
equip_armor src v out =
    if is_empty (read src v out)
    then (refused slot_empty, v, out)
    else if not (is_armor (get_type (read src v out).item.blueprint_id))
    then (refused item_type_mismatch, v, out)
    else let (gear, s) = trade v.armor (read src v out) in
      let (v1, out1) = write src s (record v { armor = gear }) out in (done none, touch v1, out1)

-- `UnequipArmorToSlot`
unfoldable pub unequip_armor : SlotRef → PlayerInventory → Slot → Outcome
unfolding trade touch
unequip_armor dst v out =
    if is_empty v.armor
    then (refused slot_empty, v, out)
    else if not (is_empty (read dst v out))
        && not (is_armor (get_type (read dst v out).item.blueprint_id))
    then (refused item_type_mismatch, v, out)
    else let (s, gear) = trade (read dst v out) v.armor in
      let (v1, out1) = write dst s (record v { armor = gear }) out in (done none, touch v1, out1)

-- `Clear`
unfoldable pub clear_inventory : PlayerInventory → PlayerInventory
unfolding touch
clear_inventory v = touch (record v {
  primary_weapon = clear v.primary_weapon;
  secondary_weapon = clear v.secondary_weapon;
  armor = clear v.armor;
  primary_magazine = clear v.primary_magazine;
  secondary_magazine = clear v.secondary_magazine;
  slots = map clear v.slots;
})
