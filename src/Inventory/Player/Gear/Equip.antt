-- ===== src/Inventory/Player/Gear/Equip.antt =====
-- Equipping a weapon: the invariant, and where every item goes.
use extraction_server.Prelude.{
  ℕ, ◌≡◌, refl, ◌⊎◌, inl, inr, Bool, true, false, Option, arith, Bool-cases, ◌≢◌, ap, ◌∙◌,
}
use extraction_server.Inventory.Blueprints.{get_type, is_weapon}
use extraction_server.Inventory.Slots.{Slot, is_empty, count, IsClean}
use extraction_server.Inventory.Player.{
  PlayerInventory, unload_magazine, weapon_of, magazine_of, with_weapon, update_first_empty,
  SlotRef, read, write,
}
use extraction_server.Inventory.Player.Invariant.{IsValid}
use extraction_server.Inventory.Player.Reload.{holdings}
use extraction_server.Inventory.Player.Unload.{UnloadFacts, unload_facts}
use extraction_server.Inventory.Denials.{
  Deny, slot_empty, item_type_mismatch, magazine_unload_failed,
}
use extraction_server.Inventory.Player.Gear.{trade, touch, equip_weapon, refused, done}
use extraction_server.Inventory.Player.Gear.Moves.{
  InRange, trade_facts, write_facts, read-IsClean, read-slots, EquipFacts, emptied-Armed,
  empty_count, settle_counts,
}

equip_moves :
    (src : SlotRef) (primary : Bool) (v v1 : PlayerInventory) (out : Slot) (at : Option ℕ)
    → InRange src
    → IsValid v
    → IsClean out
    → UnloadFacts primary v true v1
    → let t = trade (weapon_of primary v1) (read src v1 out) in
      let w = write src t.1 (with_weapon primary t.0 v1) out in
      EquipFacts primary v out (done at, touch w.0, w.1)
unfolding touch update_first_empty holdings
equip_moves src true v v1 out at small h c u =
    let t = trade v1.primary_weapon (read src v1 out) in
    let g = u.same_gear in
    let tf =
      trade_facts v1.primary_weapon (read src v1 out)
        (rw g.same_primary h.sound.primary_armed.weapon_clean)
        (read-IsClean src v1 out u.shelved.slots_clean c) in
    let w = write src t.1 (record v1 { primary_weapon = t.0 }) out in
    let wf =
      write_facts src t.1 (record v1 { primary_weapon = t.0 }) out small u.shelved.slot_count
        u.shelved.slots_clean c tf.slot_clean in
    record {
      valid = record {
        sound = record {
          slot_count = wf.slot_count;
          slots_clean = wf.slots_clean;
          primary_armed =
              emptied-Armed w.0.primary_weapon w.0.primary_magazine
                (rw wf.same_primary tf.gear_clean) (rw wf.same_magazines.0 u.emptied);
          secondary_armed =
              rw (wf.same_secondary ∙ g.same_secondary, wf.same_magazines.1 ∙ g.same_magazine)
                h.sound.secondary_armed;
          armor_clean = rw (wf.same_armor ∙ g.same_armor) h.sound.armor_clean;
        };
        knows_first_empty = refl;
      };
      out_clean = wf.out_clean;
      counts = λ b pos.
          settle_counts b true v v1 w.0 out w.1 h u
            (omega (
              arith,
              wf.counts b,
              tf.gear_counts b pos,
              tf.slot_counts b pos,
              ap (count b) wf.same_primary,
              ap (count b) g.same_primary,
              ap (count b) (wf.same_secondary ∙ g.same_secondary),
              ap (count b) (wf.same_armor ∙ g.same_armor),
              ap (count b) wf.same_magazines.0,
              ap (count b) (wf.same_magazines.1 ∙ g.same_magazine),
              empty_count b v1.primary_magazine pos u.emptied,
              ap (count b) (read-slots src v1 (record v1 { primary_weapon = t.0 }) out refl),
            ))
            (u.moved_or_lost b pos);
    }
equip_moves src false v v1 out at small h c u =
    let t = trade v1.secondary_weapon (read src v1 out) in
    let g = u.same_gear in
    let tf =
      trade_facts v1.secondary_weapon (read src v1 out)
        (rw g.same_secondary h.sound.secondary_armed.weapon_clean)
        (read-IsClean src v1 out u.shelved.slots_clean c) in
    let w = write src t.1 (record v1 { secondary_weapon = t.0 }) out in
    let wf =
      write_facts src t.1 (record v1 { secondary_weapon = t.0 }) out small u.shelved.slot_count
        u.shelved.slots_clean c tf.slot_clean in
    record {
      valid = record {
        sound = record {
          slot_count = wf.slot_count;
          slots_clean = wf.slots_clean;
          secondary_armed =
              emptied-Armed w.0.secondary_weapon w.0.secondary_magazine
                (rw wf.same_secondary tf.gear_clean) (rw wf.same_magazines.1 u.emptied);
          primary_armed =
              rw (wf.same_primary ∙ g.same_primary, wf.same_magazines.0 ∙ g.same_magazine)
                h.sound.primary_armed;
          armor_clean = rw (wf.same_armor ∙ g.same_armor) h.sound.armor_clean;
        };
        knows_first_empty = refl;
      };
      out_clean = wf.out_clean;
      counts = λ b pos.
          settle_counts b false v v1 w.0 out w.1 h u
            (omega (
              arith,
              wf.counts b,
              tf.gear_counts b pos,
              tf.slot_counts b pos,
              ap (count b) wf.same_secondary,
              ap (count b) g.same_secondary,
              ap (count b) (wf.same_primary ∙ g.same_primary),
              ap (count b) (wf.same_armor ∙ g.same_armor),
              ap (count b) wf.same_magazines.1,
              ap (count b) (wf.same_magazines.0 ∙ g.same_magazine),
              empty_count b v1.secondary_magazine pos u.emptied,
              ap (count b) (read-slots src v1 (record v1 { secondary_weapon = t.0 }) out refl),
            ))
            (u.moved_or_lost b pos);
    }

magazine-IsClean :
    (primary : Bool) (v : PlayerInventory) → IsValid v → IsClean (magazine_of primary v)
magazine-IsClean true v h = h.sound.primary_armed.magazine_clean
magazine-IsClean false v h = h.sound.secondary_armed.magazine_clean

-- Equipping a weapon in a valid inventory, from one of its slots or from a clean slot outside: a
-- refusal changes nothing, and otherwise the inventory stays valid and every item is still there,
-- but for the rounds of the magazine when no stack of theirs and no empty slot could take them.
pub equip_weapon_lem :
    (src : SlotRef) (primary : Bool) (v : PlayerInventory) (out : Slot)
    → InRange src
    → IsValid v
    → IsClean out
    → ((d : Deny) × (equip_weapon src primary v out ≡ (refused d, v, out))
        × (d ≢ magazine_unload_failed))
      ⊎ EquipFacts primary v out (equip_weapon src primary v out)
unfolding equip_weapon
equip_weapon_lem src primary v out small h c = elim (Bool-cases (is_empty (read src v out))) [
  | inl e ↦ rw e (inl (slot_empty, refl, ground arith))
  | inr e ↦ rw e (elim (Bool-cases (is_weapon (get_type (read src v out).item.blueprint_id))) [
    | inl f ↦ rw f (
        let u =
          unload_facts primary v
            (record {
              slot_count = h.sound.slot_count;
              slots_clean = h.sound.slots_clean;
              knows_first_empty = h.knows_first_empty;
            })
            (magazine-IsClean primary v h) in
        rw u.succeeds (
          inr (
            equip_moves src primary v (unload_magazine primary v).2 out
              (unload_magazine primary v).1 small h c (rw u.succeeds at u))))
    | inr f ↦ rw f (inl (item_type_mismatch, refl, ground arith))
  ])
]
