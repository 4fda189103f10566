-- ===== src/Tests/Inventory.antt =====
-- Inventories and transfers at concrete inputs.
use extraction_server.Prelude.{
  ℕ, ◌+◌, ◌≡◌, refl, ◌≢◌, ◌⊎◌, true, false, Option, some, none, [], ◌∷◌, arith, replicate,
}
use extraction_server.Prelude.Int.{pos}
use extraction_server.Inventory.Blueprints.{get_type}
use extraction_server.Inventory.Slots.{Slot, no_slot, first_where, AllClean}
use extraction_server.Inventory.Denials.{Deny, ok, magazine_unload_failed}
use extraction_server.Inventory.Player.{PlayerInventory, reload_magazine, outside}
use extraction_server.Inventory.Player.Invariant.{IsValid}
use extraction_server.Inventory.Player.Reload.{holdings, reload_magazine-conserves}
use extraction_server.Inventory.Player.Gear.{equip_weapon, equip_armor, refused}
use extraction_server.Inventory.Player.Gear.Moves.{EquipFacts}
use extraction_server.Inventory.Player.Gear.Equip.{equip_weapon_lem}
use extraction_server.Inventory.Report.{
  serialize_inventory_for_ipc, entry_at, shown, reported, serialize_inventory_for_ipc_lem,
}
use extraction_server.Inventory.Box.{Box}
use extraction_server.Inventory.Transfer.{
  Request, View, Store, handle, find_container, player_sentinel,
}
use extraction_server.Handlers.Equip.{EquipRequest, Equipped, equip_item}
use extraction_server.Handlers.Equip.Valid.{equip_item-IsValid}
use extraction_server.Inventory.Transfer.Conserve.{store_total, BoxClean}
use extraction_server.Inventory.Transfer.Handler.{handle-conserves}

abbrev rifle : Slot
rifle = record {
  item = record { instance_uid = 11; blueprint_id = 1 };
  slot_index = pos 0;
  quantity = 1;
}

abbrev rounds : Slot
rounds = record {
  item = record { instance_uid = 12; blueprint_id = 6 };
  slot_index = pos 0;
  quantity = 50;
}

abbrev vest : Slot
vest = record {
  item = record { instance_uid = 13; blueprint_id = 4 };
  slot_index = pos 3;
  quantity = 1;
}

-- A player with a rifle, an empty magazine, and rounds in the first slot.
abbrev pub kit : PlayerInventory
kit = record {
  primary_weapon = rifle;
  secondary_weapon = no_slot;
  armor = no_slot;
  primary_magazine = no_slot;
  secondary_magazine = no_slot;
  slots = rounds ∷ replicate 24 no_slot;
  version = 0;
  first_empty = some 1;
}

pub kit-IsValid : IsValid kit
unfolding first_where
kit-IsValid = ground arith

reload_magazine-conserves_example :
    IsValid (reload_magazine true kit).1
    × (holdings 6 (reload_magazine true kit).1 ≡ holdings 6 kit)
reload_magazine-conserves_example = reload_magazine-conserves true kit 6 kit-IsValid (omega arith)

equip_weapon_lem_example :
    ((d : Deny) × (equip_weapon outside false kit rifle ≡ (refused d, kit, rifle))
      × (d ≢ magazine_unload_failed))
    ⊎ EquipFacts false kit rifle (equip_weapon outside false kit rifle)
equip_weapon_lem_example = equip_weapon_lem outside false kit rifle tt kit-IsValid (ground arith)

abbrev crate : Box
crate = record {
  slots = vest ∷ no_slot ∷ [];
  next_loot_slot = 0;
  volume = 2;
  version = 4;
  interacting_player = some 3;
}

abbrev view : View
view = record {
  active = true;
  interacting_container = some 40;
  in_room = true;
  object = some (some crate);
  has_player_object = true;
  near = true;
}

-- The vest goes into the second slot of the player.
abbrev take_vest : Request
take_vest = record {
  interact_type = 0;
  start_object_id = 40;
  start_version = 4;
  start_slot_idx = 0;
  quantity = pos 1;
  end_object_id = player_sentinel;
  end_version = 0;
  end_slot_idx = 1;
}

abbrev after : Store
after = (
  record kit {
    slots = rounds ∷ record no_slot { item = vest.item; quantity = 1 } ∷ replicate 23 no_slot;
    version = 1;
    first_empty = some 2;
  },
  some (
    40,
    record crate { slots = record no_slot { slot_index = pos 3 } ∷ no_slot ∷ []; version = 5 },
  ),
)

vest_taken : handle view take_vest kit ≡ some (ok after)
unfolding handle first_where
vest_taken = refl

crate_clean : (box : Box) → some (some crate) ≡ some (some box) → AllClean box.slots
crate_clean box h = ground arith

handle-conserves_example :
    IsValid after.0
    × BoxClean after.1
    × ((opened : Option (ℕ × Box)) × (find_container view take_vest ≡ ok opened)
        × (store_total 4 after ≡ store_total 4 (kit, opened)))
handle-conserves_example =
    handle-conserves view take_vest kit after 4 kit-IsValid crate_clean (omega arith) vest_taken

-- The vest of the crate is put on at once.
abbrev wear_vest : EquipRequest
wear_vest = record {
  action_type = 0;
  equipment_slot_type = 2;
  object_id = 40;
  object_version = 4;
  object_slot_idx = 0;
  my_version = 0;
}

abbrev worn : Equipped
worn = record {
  inventory = record kit { armor = record no_slot { item = vest.item; quantity = 1 }; version = 1 };
  box = some (
    40,
    record crate { slots = record no_slot { slot_index = pos 3 } ∷ no_slot ∷ []; version = 5 },
  );
  body = none;
  unloaded = none;
}

vest_worn : equip_item view wear_vest kit none ≡ ok worn
unfolding equip_item equip_armor first_where get_type
vest_worn = refl

equip_item-IsValid_example : IsValid worn.inventory × BoxClean worn.box
equip_item-IsValid_example =
    equip_item-IsValid view wear_vest kit none worn kit-IsValid crate_clean vest_worn

serialize_inventory_for_ipc_lem_example :
    let r = serialize_inventory_for_ipc kit in
    (entry_at 0 r.inventory_slots ≡ shown 0 rounds)
    × (entry_at 0 r.equipment_slots ≡ shown 0 rifle)
    × (entry_at 1 r.equipment_slots ≡ none)
    × (entry_at 2 r.equipment_slots ≡ none)
    × (reported 6 r.inventory_slots + reported 6 r.equipment_slots + 0 + 0 ≡ holdings 6 kit)
serialize_inventory_for_ipc_lem_example = serialize_inventory_for_ipc_lem kit 6 0
