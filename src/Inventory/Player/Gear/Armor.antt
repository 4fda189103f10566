-- ===== src/Inventory/Player/Gear/Armor.antt =====
-- Putting on and taking off armour.
use extraction_server.Prelude.{
  ℕ, ◌+◌, ◌<◌, ◌≡◌, refl, ◌⊎◌, inl, inr, not, ◌&&◌, none, arith, Bool-cases, ap,
}
use extraction_server.Inventory.Blueprints.{get_type, is_armor}
use extraction_server.Inventory.Slots.{Slot, is_empty, count, IsClean}
use extraction_server.Inventory.Denials.{Deny, slot_empty, item_type_mismatch}
use extraction_server.Inventory.Player.{PlayerInventory, SlotRef, read, write, update_first_empty}
use extraction_server.Inventory.Player.Invariant.{IsValid}
use extraction_server.Inventory.Player.Reload.{holdings}
use extraction_server.Inventory.Player.Gear.{
  trade, touch, equip_armor, unequip_armor, Outcome, refused, done,
}
use extraction_server.Inventory.Player.Gear.Moves.{
  InRange, trade_facts, write_facts, read-IsClean, read-slots,
}

pub record ArmorFacts (v : PlayerInventory) (out : Slot) (r : Outcome) : Type 0 where
  pub valid : IsValid r.1
  pub out_clean : IsClean r.2
  pub counts : (b : ℕ) → 0 < b → holdings b r.1 + count b r.2 ≡ holdings b v + count b out

-- The moves of both directions: new armour, and a slot that takes what the armour slot held.
armor_moves :
    (ref : SlotRef) (v : PlayerInventory) (out gear s : Slot)
    → InRange ref
    → IsValid v
    → IsClean out
    → IsClean gear
    → IsClean s
    → ((b : ℕ) → 0 < b → count b gear ≡ count b (read ref v out))
    → ((b : ℕ) → 0 < b → count b s ≡ count b v.armor)
    → let w = write ref s (record v { armor = gear }) out in
      ArmorFacts v out (done none, touch w.0, w.1)
unfolding touch update_first_empty holdings
armor_moves ref v out gear s small h c cg cs eg es =
    let v1 = record v { armor = gear } in
    let w = write ref s v1 out in
    let wf = write_facts ref s v1 out small h.sound.slot_count h.sound.slots_clean c cs in
    record {
      valid = record {
        sound = record {
          slot_count = wf.slot_count;
          slots_clean = wf.slots_clean;
          primary_armed = rw (wf.same_primary, wf.same_magazines.0) h.sound.primary_armed;
          secondary_armed = rw (wf.same_secondary, wf.same_magazines.1) h.sound.secondary_armed;
          armor_clean = rw wf.same_armor cg;
        };
        knows_first_empty = refl;
      };
      out_clean = wf.out_clean;
      counts = λ b pos. omega (
        arith,
        wf.counts b,
        eg b pos,
        es b pos,
        ap (count b) wf.same_primary,
        ap (count b) wf.same_secondary,
        ap (count b) wf.same_armor,
        ap (count b) wf.same_magazines.0,
        ap (count b) wf.same_magazines.1,
        ap (count b) (read-slots ref v v1 out refl),
      );
    }

-- Putting on armour, from one of the slots of a valid inventory or a clean slot outside: a refusal
-- changes nothing, and otherwise the inventory stays valid and every item is still there.
pub equip_armor_lem :
    (src : SlotRef) (v : PlayerInventory) (out : Slot)
    → InRange src
    → IsValid v
    → IsClean out
    → ((d : Deny) × (equip_armor src v out ≡ (refused d, v, out)))
      ⊎ ArmorFacts v out (equip_armor src v out)
unfolding equip_armor
equip_armor_lem src v out small h c =
    let t = trade v.armor (read src v out) in
    let tf =
      trade_facts v.armor (read src v out) h.sound.armor_clean
        (read-IsClean src v out h.sound.slots_clean c) in
    elim (Bool-cases (is_empty (read src v out))) [
      | inl e ↦ rw e (inl (slot_empty, refl))
      | inr e ↦ rw e (elim (Bool-cases (is_armor (get_type (read src v out).item.blueprint_id))) [
        | inl f ↦ rw f (
            inr (
              armor_moves src v out t.0 t.1 small h c tf.gear_clean tf.slot_clean tf.gear_counts
                tf.slot_counts))
        | inr f ↦ rw f (inl (item_type_mismatch, refl))
      ])
    ]

-- Taking off armour, to one of the slots of a valid inventory or a clean slot outside: a refusal
-- changes nothing, and otherwise the inventory stays valid and every item is still there.
pub unequip_armor_lem :
    (dst : SlotRef) (v : PlayerInventory) (out : Slot)
    → InRange dst
    → IsValid v
    → IsClean out
    → ((d : Deny) × (unequip_armor dst v out ≡ (refused d, v, out)))
      ⊎ ArmorFacts v out (unequip_armor dst v out)
unfolding unequip_armor
unequip_armor_lem dst v out small h c =
    let t = trade (read dst v out) v.armor in
    let tf =
      trade_facts (read dst v out) v.armor (read-IsClean dst v out h.sound.slots_clean c)
        h.sound.armor_clean in
    let moves =
      armor_moves dst v out t.1 t.0 small h c tf.slot_clean tf.gear_clean tf.slot_counts
        tf.gear_counts in
    elim (Bool-cases (is_empty v.armor)) [
      | inl e ↦ rw e (inl (slot_empty, refl))
      | inr e ↦
          rw e
            (elim (Bool-cases (
              not (is_empty (read dst v out))
              && not (is_armor (get_type (read dst v out).item.blueprint_id)))) [
                | inl f ↦ rw f (inl (item_type_mismatch, refl))
                | inr f ↦ rw f (inr moves)
              ])
    ]
