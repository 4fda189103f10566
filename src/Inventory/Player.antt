-- ===== src/Inventory/Player.antt =====
-- src/DedicateProcess/PlayerInventory.cpp: the 25 slots of a player, the two weapons with their
-- magazines, and the armour. A `Slot&` argument may be one of the inventory's own slots or one of a
-- container; `SlotRef` keeps the two apart, and the container's slot is threaded along.
pub mod Gear
pub mod Loading
pub mod Invariant
pub mod Reload
pub mod Unload
use extraction_server.Prelude.{
  ℕ, ◌+◌, ◌-◌, ltb, ◌==◌, if◌then◌else◌, min, Bool, true, false, not, ◌||◌, Option, none, some,
  List, [], ◌∷◌, map, length, get_or, set, replicate, zero, suc,
}
use extraction_server.Prelude.Words.{add32}
use extraction_server.Prelude.Int.{ℤ, pos, negsuc, eqb_ℤ}
use extraction_server.Inventory.Blueprints.{WeaponSpec, get_weapon_spec}
use extraction_server.Inventory.Slots.{Slot, no_slot, is_empty, clear, put, first_where}

abbrev pub inventory_slot_count : ℕ
inventory_slot_count = 25

pub record PlayerInventory : Type 0 where
  pub primary_weapon : Slot
  pub secondary_weapon : Slot
  pub armor : Slot
  pub primary_magazine : Slot
  pub secondary_magazine : Slot
  pub slots : List Slot
  pub version : ℕ
  pub first_empty : Option ℕ

-- The constructor before it loads the magazines: entries with an index of the 25 slots, then the
-- equipment entries 0, 1 and 2.
abbrev numbered : ℕ → ℕ → List Slot
numbered i zero = []
numbered i (suc n) = record no_slot { slot_index = pos i } ∷ numbered (i + 1) n

place_slot : ℤ → Slot → List Slot → List Slot
place_slot (pos i) s ss = set ss i s
place_slot (negsuc i) s ss = ss

place_slots : List Slot → List Slot → List Slot
unfolding place_slot
place_slots [] ss = ss
place_slots (s ∷ given) ss = place_slots given (place_slot s.slot_index s ss)

place_gear : List Slot → PlayerInventory → PlayerInventory
place_gear [] v = v
place_gear (s ∷ given) v = place_gear given (
    if eqb_ℤ s.slot_index (pos 0)
    then record v { primary_weapon = s }
    else if eqb_ℤ s.slot_index (pos 1)
    then record v { secondary_weapon = s }
    else if eqb_ℤ s.slot_index (pos 2)
    then record v { armor = s }
    else v)

-- `UpdateFirstEmptySlotIndex`; `none` is -1
unfoldable pub update_first_empty : PlayerInventory → PlayerInventory
update_first_empty v = record v { first_empty = first_where is_empty v.slots }

-- One round of the loop of `LoadMagazineFromInventory`: the magazine, the rounds still missing, the
-- slot, and whether something moved. Past the end of the loop, with none missing, rounds do nothing.
pub record LoadStep : Type 0 where
  pub magazine : Slot
  pub remaining : ℕ
  pub slot : Slot
  pub moved : Bool

unfoldable pub load_step : ℕ → ℕ → Slot → Slot → LoadStep
load_step ammo remaining magazine s =
    if remaining == 0 || (is_empty s || not (s.item.blueprint_id == ammo))
    then record { magazine = magazine; remaining = remaining; slot = s; moved = false }
    else let take = min s.quantity remaining in
      let left = record s { quantity = s.quantity - take } in
      record {
        magazine =
            if is_empty magazine
            then record magazine { item = s.item; quantity = take }
            else record magazine { quantity = magazine.quantity + take };
        remaining = remaining - take;
        slot = if left.quantity == 0 then clear left else left;
        moved = true;
      }

pub record Loaded : Type 0 where
  pub magazine : Slot
  pub slots : List Slot
  pub changed : Bool

unfoldable pub load_loop : ℕ → ℕ → Slot → List Slot → Loaded
unfolding load_step
load_loop ammo remaining magazine [] = record { magazine = magazine; slots = []; changed = false }
load_loop ammo remaining magazine (s ∷ ss) =
    let round = load_step ammo remaining magazine s in
    let rest = load_loop ammo round.remaining round.magazine ss in
    record {
      magazine = rest.magazine;
      slots = round.slot ∷ rest.slots;
      changed = round.moved || rest.changed;
    }

load_for : Option WeaponSpec → Slot → List Slot → Loaded
unfolding load_loop
load_for none magazine ss = record { magazine = magazine; slots = ss; changed = false }
load_for (some spec) magazine ss =
    if ltb magazine.quantity spec.max_ammo
    then load_loop spec.ammo_type (spec.max_ammo - magazine.quantity) magazine ss
    else record { magazine = magazine; slots = ss; changed = false }

-- What `LoadMagazineFromInventory` moves.
unfoldable pub load : Slot → Slot → List Slot → Loaded
unfolding load_for
load weapon magazine ss =
    if is_empty weapon
    then record { magazine = magazine; slots = ss; changed = false }
    else load_for (get_weapon_spec weapon.item.blueprint_id) magazine ss

abbrev pub weapon_of : Bool → PlayerInventory → Slot
weapon_of primary v = if primary then v.primary_weapon else v.secondary_weapon

abbrev pub magazine_of : Bool → PlayerInventory → Slot
magazine_of primary v = if primary then v.primary_magazine else v.secondary_magazine

abbrev pub with_weapon : Bool → Slot → PlayerInventory → PlayerInventory
with_weapon primary s v =
    if primary then record v { primary_weapon = s } else record v { secondary_weapon = s }

abbrev pub with_magazine : Bool → Slot → PlayerInventory → PlayerInventory
with_magazine primary s v =
    if primary then record v { primary_magazine = s } else record v { secondary_magazine = s }

finish_load : Bool → Loaded → PlayerInventory → PlayerInventory
unfolding update_first_empty
finish_load primary l v =
    let v' = with_magazine primary l.magazine (record v { slots = l.slots }) in
    if l.changed then record (update_first_empty v') { version = add32 v.version 1 } else v'

-- `LoadMagazineFromInventory` on the magazine of one of the weapons
unfoldable pub load_magazine : Bool → PlayerInventory → PlayerInventory
unfolding load finish_load
load_magazine primary v =
    finish_load primary (load (weapon_of primary v) (magazine_of primary v) v.slots) v

abbrev bare_inventory : PlayerInventory
bare_inventory = record {
  primary_weapon = no_slot;
  secondary_weapon = no_slot;
  armor = no_slot;
  primary_magazine = no_slot;
  secondary_magazine = no_slot;
  slots = numbered 0 inventory_slot_count;
  version = 0;
  first_empty = none;
}

-- `PlayerInventory::PlayerInventory`
unfoldable pub new_inventory : List Slot → List Slot → PlayerInventory
unfolding place_slots place_gear load_magazine update_first_empty
new_inventory inventory_slots equipment_slots =
    let v = place_gear equipment_slots bare_inventory in
    let filled = record v { slots = place_slots inventory_slots v.slots } in
    update_first_empty (load_magazine false (load_magazine true filled))

-- `ReloadMagazine`
unfoldable pub reload_magazine : Bool → PlayerInventory → Bool × PlayerInventory
unfolding load_magazine
reload_magazine primary v = let v' = load_magazine primary v in (not (v'.version == v.version), v')

pub same_blueprint : Slot → Slot → Bool
same_blueprint m s = if is_empty s then false else s.item.blueprint_id == m.item.blueprint_id

pub unload_into : Option ℕ → Option ℕ → Bool → PlayerInventory → Option ℕ × PlayerInventory
unfolding update_first_empty
unload_into (some i) free primary v =
    let m = magazine_of primary v in
    let s = get_or v.slots i no_slot in
    (
      some i,
      with_magazine primary (clear m)
          (record v { slots = set v.slots i (record s { quantity = s.quantity + m.quantity }) }),
    )
unload_into none none primary v = (none, with_magazine primary (clear (magazine_of primary v)) v)
unload_into none (some i) primary v =
    let m = magazine_of primary v in
    (
      some i,
      update_first_empty (
          with_magazine primary (clear m)
            (record v { slots = set v.slots i (put m (get_or v.slots i no_slot)) })),
    )

-- `UnloadMagazineToInventory`: the result, the slot that took the rounds, and the state. Rounds go to
-- a stack of theirs, else to the first empty slot, else they are gone.
unfoldable pub unload_magazine : Bool → PlayerInventory → Bool × Option ℕ × PlayerInventory
unfolding unload_into same_blueprint
unload_magazine primary v =
    let m = magazine_of primary v in
    if is_empty m
    then (true, none, v)
    else let (at, v') =
        unload_into (first_where (same_blueprint m) v.slots) v.first_empty primary v in
      (true, at, v')

-- The slot that an operation is given: one of the inventory's own, or one outside.
pub data SlotRef : Type 0 where
  own : ℕ → SlotRef
  outside : SlotRef

abbrev pub read : SlotRef → PlayerInventory → Slot → Slot
read (own i) v out = get_or v.slots i no_slot
read outside v out = out

abbrev pub write : SlotRef → Slot → PlayerInventory → Slot → PlayerInventory × Slot
write (own i) s v out = (record v { slots = set v.slots i s }, out)
write outside s v out = (v, s)
