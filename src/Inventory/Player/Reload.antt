-- ===== src/Inventory/Player/Reload.antt =====
-- `ReloadMagazine` on a valid inventory.
use extraction_server.Prelude.{
  ℕ, ◌+◌, ◌<◌, ◌≡◌, ◌⊎◌, inl, inr, ◌==◌, Bool, true, false, some, arith, Bool-cases,
}
use extraction_server.Prelude.Words.{add32}
use extraction_server.Inventory.Blueprints.{WeaponSpec, get_weapon_spec}
use extraction_server.Inventory.Slots.{count, total}
use extraction_server.Inventory.Player.{
  PlayerInventory, load, load_magazine, reload_magazine, weapon_of, magazine_of, update_first_empty,
}
use extraction_server.Inventory.Player.Invariant.{IsValid, load-keeps}

-- What a player holds of a blueprint, in all slots.
unfoldable pub holdings : ℕ → PlayerInventory → ℕ
holdings b v =
    total b v.slots
    + count b v.primary_weapon
    + count b v.secondary_weapon
    + count b v.armor
    + count b v.primary_magazine
    + count b v.secondary_magazine

record ReloadFacts (primary : Bool) (v : PlayerInventory) (r : Bool × PlayerInventory)
    : Type 0 where
  pub valid : IsValid r.1
  pub conserved : (b : ℕ) → 0 < b → holdings b r.1 ≡ holdings b v
  pub refused : r.0 ≡ false → r.1 ≡ v
  pub grown : r.0 ≡ true → (magazine_of primary v).quantity < (magazine_of primary r.1).quantity

add32-changes : (n : ℕ) → (add32 n 1 == n) ≡ false
add32-changes n = ground arith

reload_facts :
    (primary : Bool) (v : PlayerInventory)
    → IsValid v
    → ReloadFacts primary v (reload_magazine primary v)
unfolding reload_magazine load_magazine update_first_empty holdings
reload_facts true v h =
    let k =
      load-keeps v.primary_weapon v.primary_magazine v.slots h.sound.primary_armed
        h.sound.slots_clean in
    elim (Bool-cases (load v.primary_weapon v.primary_magazine v.slots).changed) [
      | inl e ↦
          rw (e, add32-changes v.version)
            record {
              valid = ground (arith, h, k);
              conserved = λ b pos. omega (arith, k.conserved b pos);
              refused = λ x. ground arith;
              grown = λ x. k.grown e;
            }
      | inr e ↦ rw e record {
        valid = ground (arith, h, k);
        conserved = λ b pos. omega (arith, k.conserved b pos);
        refused = λ x. ground (arith, k.kept e);
        grown = λ x. ground arith;
      }
    ]
reload_facts false v h =
    let k =
      load-keeps v.secondary_weapon v.secondary_magazine v.slots h.sound.secondary_armed
        h.sound.slots_clean in
    elim (Bool-cases (load v.secondary_weapon v.secondary_magazine v.slots).changed) [
      | inl e ↦
          rw (e, add32-changes v.version)
            record {
              valid = ground (arith, h, k);
              conserved = λ b pos. omega (arith, k.conserved b pos);
              refused = λ x. ground arith;
              grown = λ x. k.grown e;
            }
      | inr e ↦ rw e record {
        valid = ground (arith, h, k);
        conserved = λ b pos. omega (arith, k.conserved b pos);
        refused = λ x. ground (arith, k.kept e);
        grown = λ x. ground arith;
      }
    ]

-- Reloading a valid inventory keeps it valid and moves rounds without making or losing any: of every
-- item the player holds afterwards as many as before.
pub reload_magazine-conserves :
    (primary : Bool) (v : PlayerInventory) (b : ℕ)
    → IsValid v
    → 0 < b
    → IsValid (reload_magazine primary v).1
      × (holdings b (reload_magazine primary v).1 ≡ holdings b v)
reload_magazine-conserves primary v b h pos =
    let f = reload_facts primary v h in (f.valid, f.conserved b pos)

-- The answer of a reload of a valid inventory is right: it is false when nothing at all changed, and
-- true when the magazine holds more rounds than before.
pub reload_magazine_result :
    (primary : Bool) (v : PlayerInventory)
    → IsValid v
    → let (ok, v') = reload_magazine primary v in
      ((ok ≡ false) × (v' ≡ v))
      ⊎ ((ok ≡ true) × ((magazine_of primary v).quantity < (magazine_of primary v').quantity))
reload_magazine_result primary v h =
    let f = reload_facts primary v h in
    elim (Bool-cases (reload_magazine primary v).0) [
      | inl e ↦ inr (e, f.grown e)
      | inr e ↦ inl (e, f.refused e)
    ]

-- A reload moves all it can: in a valid inventory with a weapon of the table in hand, the magazine is
-- full afterwards or no round of its kind is left in the slots.
pub reload_magazine_full :
    (primary : Bool) (v : PlayerInventory) (spec : WeaponSpec)
    → IsValid v
    → get_weapon_spec (weapon_of primary v).item.blueprint_id ≡ some spec
    → let v' = (reload_magazine primary v).1 in
      ((magazine_of primary v').quantity ≡ spec.max_ammo) ⊎ (total spec.ammo_type v'.slots ≡ 0)
unfolding reload_magazine load_magazine update_first_empty
reload_magazine_full true v spec h e =
    let k =
      load-keeps v.primary_weapon v.primary_magazine v.slots h.sound.primary_armed
        h.sound.slots_clean in
    let done = k.full_or_out spec e in
    elim (Bool-cases (load v.primary_weapon v.primary_magazine v.slots).changed) [
      | inl c ↦ rw c done
      | inr c ↦ rw c done
    ]
reload_magazine_full false v spec h e =
    let k =
      load-keeps v.secondary_weapon v.secondary_magazine v.slots h.sound.secondary_armed
        h.sound.slots_clean in
    let done = k.full_or_out spec e in
    elim (Bool-cases (load v.secondary_weapon v.secondary_magazine v.slots).changed) [
      | inl c ↦ rw c done
      | inr c ↦ rw c done
    ]
