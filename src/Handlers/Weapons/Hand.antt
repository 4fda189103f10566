-- ===== src/Handlers/Weapons/Hand.antt =====
-- The hand after `SetWeapons`, a switch and a reload.
use extraction_server.Prelude.{ℕ, ◌≡◌, ◌≢◌, ◌<◌, ◌⊎◌, true, false, arith, none, some}
use extraction_server.Inventory.Denials.{Deny}
use extraction_server.Inventory.Player.{PlayerInventory, magazine_of}
use extraction_server.Inventory.Player.Invariant.{IsValid}
use extraction_server.Inventory.Player.Reload.{reload_magazine_result}
use extraction_server.Handlers.Weapons.{
  WeaponsInHand, current_weapon_id, set_weapons, switch_weapon, reload,
}

-- Whatever the hand held before, after `SetWeapons` it holds one of the new weapons, unless there is
-- none; and a weapon of the slot in use that stays is not put away.
pub set_weapons_hand :
    (primary secondary : ℕ) (h : WeaponsInHand)
    → let h' = set_weapons primary secondary h in
      ((current_weapon_id h' ≢ 0) ⊎ ((primary ≡ 0) × (secondary ≡ 0)))
      × ((h'.is_using_primary ≡ h.is_using_primary)
          ⊎ (current_weapon_id (record h { primary_id = primary; secondary_id = secondary }) ≡ 0))
unfolding set_weapons
set_weapons_hand primary secondary h = ground arith

-- A switch is granted with a weapon of the asked slot in hand, or refused with the hand as it was.
pub switch_weapon_result :
    (target seen version : ℕ) (h : WeaponsInHand)
    → let (granted, h') = switch_weapon target seen version h in
      ((granted ≡ true)
        × (seen ≡ version)
        × (current_weapon_id h' ≢ 0)
        × ((target ≡ 0) × (h'.is_using_primary ≡ true)
            ⊎ (target ≡ 1) × (h'.is_using_primary ≡ false)))
      ⊎ ((granted ≡ false) × (h' ≡ h))
unfolding switch_weapon
switch_weapon_result target seen version h = ground arith

-- A reload request for a valid inventory is refused, with the inventory as it was, or granted, with
-- the version that the client saw and more rounds in the magazine of the weapon in hand.
pub reload_answer :
    (seen : ℕ) (h : WeaponsInHand) (v : PlayerInventory)
    → IsValid v
    → let (denied, v') = reload seen h v in
      (((d : Deny) × (denied ≡ some d)) × (v' ≡ v))
      ⊎ ((denied ≡ none)
          × (seen ≡ v.version)
          × ((magazine_of h.is_using_primary v).quantity
              < (magazine_of h.is_using_primary v').quantity))
unfolding reload
reload_answer seen h v k =
    let r = reload_magazine_result h.is_using_primary v k in ground (arith, r)
