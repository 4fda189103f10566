-- ===== src/Handlers/Weapons.antt =====
-- The weapon in a player's hand and what is done with it: `SetWeapons` and `GetCurrentWeaponId` of
-- src/DedicateProcess/UnityGameObjects/PlayerObject.cpp, and `Handle_C2D_RequestSwitchWeapon`,
-- `Handle_C2D_RequestReload` and `Handle_C2D_RequestWeaponFire` of ClientPacketHandler.cpp, for a session
-- that is active and has a room with its object. The notices to the other players are left out.
pub mod Hand
pub mod Fire
use extraction_server.Prelude.{
  ℕ, ◌-◌, ltb, ◌==◌, if◌then◌else◌, Bool, true, false, not, ◌&&◌, ◌||◌, Option, none, some,
}
use extraction_server.Prelude.Words.{add32, before32}
use extraction_server.Objects.Combat.{CombatObject, is_alive, take_damage, set_shield}
use extraction_server.Inventory.Blueprints.{WeaponSpec, get_weapon_spec, ArmorSpec, get_armor_spec}
use extraction_server.Inventory.Slots.{Slot, is_empty, clear}
use extraction_server.Inventory.Denials.{Deny, version_mismatch, slot_empty}
use extraction_server.Inventory.Player.{
  PlayerInventory, reload_magazine, magazine_of, with_magazine,
}

-- `_primaryWeaponId`, `_secondaryWeaponId` and `_isUsingPrimary`; 0 is no weapon.
pub record WeaponsInHand : Type 0 where
  pub primary_id : ℕ
  pub secondary_id : ℕ
  pub is_using_primary : Bool

-- `GetCurrentWeaponId`
abbrev pub current_weapon_id : WeaponsInHand → ℕ
current_weapon_id h = if h.is_using_primary then h.primary_id else h.secondary_id

-- `SetWeapons`
unfoldable pub set_weapons : ℕ → ℕ → WeaponsInHand → WeaponsInHand
set_weapons primary secondary h = record {
  primary_id = primary;
  secondary_id = secondary;
  is_using_primary =
      if h.is_using_primary && primary == 0
      then secondary == 0
      else if not h.is_using_primary && secondary == 0
      then true
      else h.is_using_primary;
}

armor_of : Option ArmorSpec → CombatObject → CombatObject
armor_of (some spec) c =
    set_shield spec.max_shield_point spec.damage_reduction_rate spec.regeneration_per_second c
armor_of none c = set_shield 0 0 0 c

-- `SetArmor`
unfoldable pub set_armor : ℕ → CombatObject → CombatObject
unfolding armor_of
set_armor id c = armor_of (get_armor_spec id) c

-- `Handle_C2D_RequestSwitchWeapon`: the version that the client saw, and the present one
unfoldable pub switch_weapon : ℕ → ℕ → ℕ → WeaponsInHand → Bool × WeaponsInHand
switch_weapon target seen version h =
    if ltb 1 target
    then (false, h)
    else if not (seen == version)
    then (false, h)
    else if (if target == 0 then h.primary_id else h.secondary_id) == 0
    then (false, h)
    else (true, record h { is_using_primary = target == 0 })

-- `Handle_C2D_RequestReload`: the reason of a refusal, and the inventory that the answer carries
unfoldable pub reload : ℕ → WeaponsInHand → PlayerInventory → Option Deny × PlayerInventory
reload seen h v =
    if not (seen == v.version)
    then (some version_mismatch, v)
    else let (loaded, v') = reload_magazine h.is_using_primary v in
      (if loaded then none else some slot_empty, v')

-- The fields of `C2DRequestWeaponFire` that the handler checks, and the shooter's object.
pub record Shot : Type 0 where
  pub fire_sequence : ℕ
  pub weapon_id : ℕ
  pub shooter : ℕ

-- What a shot changes: the next sequence number, the inventory, and the object that it hits, if the
-- room has it.
pub record Range : Type 0 where
  pub next_sequence : ℕ
  pub inventory : PlayerInventory
  pub target : Option CombatObject

hit_with : Option WeaponSpec → ℕ → CombatObject → CombatObject
hit_with none shooter c = c
hit_with (some spec) shooter c = take_damage spec.base_damage shooter c

hit_target : Shot → Option CombatObject → Option CombatObject
unfolding hit_with
hit_target s none = none
hit_target s (some c) =
    some (if is_alive c then hit_with (get_weapon_spec s.weapon_id) s.shooter c else c)

-- A magazine with one round less, cleared when it is empty
spend : Slot → Slot
spend m = if m.quantity - 1 == 0 then clear m else record m { quantity = m.quantity - 1 }

-- `Handle_C2D_RequestWeaponFire`: once the number is accepted it counts, whatever becomes of the shot.
unfoldable pub fire : Shot → WeaponsInHand → Range → Bool × Range
unfolding hit_target spend
fire s h r =
    let m = magazine_of h.is_using_primary r.inventory in
    let counted = record r { next_sequence = add32 s.fire_sequence 1 } in
    if before32 s.fire_sequence r.next_sequence
    then (false, r)
    else if not (current_weapon_id h == s.weapon_id)
    then (false, counted)
    else if is_empty m || m.quantity == 0
    then (false, counted)
    else (
      true,
      record counted {
        inventory = with_magazine h.is_using_primary (spend m) r.inventory;
        target = hit_target s r.target;
      },
    )
