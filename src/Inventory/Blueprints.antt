-- ===== src/Inventory/Blueprints.antt =====
-- src/DedicateProcess/ItemDataManager.h: the tables of items, weapons and armour. The display names
-- are left out.
use extraction_server.Prelude.{ℕ, Option, some, List, [], ◌∷◌, lookup, Bool, true, false}

pub data ItemType : Type 0 where
  none weapon armor ammo misc : ItemType

pub record WeaponSpec : Type 0 where
  pub base_damage : ℕ
  pub rpm : ℕ
  pub max_ammo : ℕ
  pub moa : ℕ
  pub v_recoil_min : ℕ
  pub v_recoil_max : ℕ
  pub h_recoil_max : ℕ
  pub spread_base : ℕ
  pub spread_max : ℕ
  pub spread_increase_per_shot : ℕ
  pub spread_recovery_rate : ℕ
  pub ammo_type : ℕ

pub record ArmorSpec : Type 0 where
  pub max_shield_point : ℕ
  pub damage_reduction_rate : ℕ
  pub regeneration_per_second : ℕ

abbrev type_map : List (ℕ × ItemType)
type_map =
    (1, weapon)
    ∷ (2, weapon)
    ∷ (3, weapon)
    ∷ (4, armor)
    ∷ (5, ammo)
    ∷ (6, ammo)
    ∷ (7, misc)
    ∷ (8, armor)
    ∷ []

abbrev pub ak_47 : WeaponSpec
ak_47 = record {
  base_damage = 4800;
  rpm = 600;
  max_ammo = 30;
  moa = 0;
  v_recoil_min = 200;
  v_recoil_max = 220;
  h_recoil_max = 50;
  spread_base = 30;
  spread_max = 800;
  spread_increase_per_shot = 120;
  spread_recovery_rate = 600;
  ammo_type = 6;
}

abbrev m4a1 : WeaponSpec
m4a1 = record {
  base_damage = 4000;
  rpm = 700;
  max_ammo = 30;
  moa = 0;
  v_recoil_min = 150;
  v_recoil_max = 165;
  h_recoil_max = 40;
  spread_base = 30;
  spread_max = 800;
  spread_increase_per_shot = 100;
  spread_recovery_rate = 600;
  ammo_type = 5;
}

abbrev scar : WeaponSpec
scar = record {
  base_damage = 4200;
  rpm = 650;
  max_ammo = 30;
  moa = 0;
  v_recoil_min = 200;
  v_recoil_max = 220;
  h_recoil_max = 50;
  spread_base = 30;
  spread_max = 800;
  spread_increase_per_shot = 120;
  spread_recovery_rate = 600;
  ammo_type = 5;
}

abbrev weapon_specs : List (ℕ × WeaponSpec)
weapon_specs = (1, ak_47) ∷ (2, m4a1) ∷ (3, scar) ∷ []

abbrev armor_specs : List (ℕ × ArmorSpec)
armor_specs =
    (
      4,
      record {
        max_shield_point = 10000;
        damage_reduction_rate = 5000;
        regeneration_per_second = 800;
      },
    )
    ∷ (
      8,
      record {
        max_shield_point = 16000;
        damage_reduction_rate = 5000;
        regeneration_per_second = 800;
      },
    )
    ∷ []

-- An item that is not in the table has no type.
type_or_none : Option ItemType → ItemType
type_or_none Option.none = none
type_or_none (some t) = t

-- `GetType`
unfoldable pub get_type : ℕ → ItemType
unfolding type_or_none lookup
get_type id = type_or_none (lookup id type_map)

-- `GetWeaponSpec`
unfoldable pub get_weapon_spec : ℕ → Option WeaponSpec
unfolding lookup
get_weapon_spec id = lookup id weapon_specs

-- `GetArmorSpec`
unfoldable pub get_armor_spec : ℕ → Option ArmorSpec
unfolding lookup
get_armor_spec id = lookup id armor_specs

abbrev pub is_weapon : ItemType → Bool
is_weapon weapon = true
is_weapon _ = false

abbrev pub is_armor : ItemType → Bool
is_armor armor = true
is_armor _ = false
