-- ===== src/Inventory/Player/Gear/Unequip.antt =====
-- Taking a weapon off: the weapon moves first, then the rounds of its magazine.
use extraction_server.Prelude.{
  ℕ, ◌+◌, ◌<◌, ◌≡◌, refl, ◌⊎◌, inl, inr, Bool, true, false, not, none, arith, ap, ◌∙◌, sym,
  if◌then◌else◌,
}
use extraction_server.Inventory.Blueprints.{get_type, is_weapon}
use extraction_server.Inventory.Slots.{Slot, is_empty, count, total, IsClean, first_where}
use extraction_server.Inventory.Denials.{Deny, slot_empty, item_type_mismatch, bare_handed}
use extraction_server.Inventory.Player.{
  PlayerInventory, SlotRef, read, write, update_first_empty, unload_magazine, weapon_of,
  magazine_of,
}
use extraction_server.Inventory.Player.Invariant.{IsValid}
use extraction_server.Inventory.Player.Reload.{holdings}
use extraction_server.Inventory.Player.Unload.{IsShelved, MovedOrLost, unload_facts}
use extraction_server.Inventory.Player.Gear.{trade, unequip_weapon, unequip_move, Outcome, refused}
use extraction_server.Inventory.Player.Gear.Moves.{
  InRange, trade_facts, write_facts, read-IsClean, read-slots, emptied-Armed, empty_count,
}

-- Everything is still there, or the rounds of the magazine are gone and no slot is empty.
abbrev pub KeptOrLost : ℕ → Slot → PlayerInventory → Slot → PlayerInventory → Slot → Type 0
KeptOrLost b m v out v' out' =
    (holdings b v' + count b out' ≡ holdings b v + count b out)
    ⊎ ((holdings b v' + count b out' + count b m ≡ holdings b v + count b out)
        × (first_where is_empty v'.slots ≡ none))

pub record UnequipFacts (primary : Bool) (v : PlayerInventory) (out : Slot) (r : Outcome)
    : Type 0 where
  pub valid : IsValid r.1
  pub out_clean : IsClean r.2
  pub counts : (b : ℕ) → 0 < b → KeptOrLost b (magazine_of primary v) v out r.1 r.2

settle_unequip :
    (b : ℕ) (m m' : Slot) (v v2 u0 : PlayerInventory) (out out' : Slot)
    → m' ≡ m
    → u0.first_empty ≡ first_where is_empty u0.slots
    → holdings b v2 + count b out' + (total b u0.slots + count b m)
      ≡ holdings b v + count b out + total b v2.slots
    → MovedOrLost b m' u0 v2
    → KeptOrLost b m v out v2 out'
settle_unequip b m m' v v2 u0 out out' same k e (inl moved) =
    inl (omega (arith, e, moved, ap (count b) same))
settle_unequip b m m' v v2 u0 out out' same k e (inr (s, n, f)) =
    inr (omega (arith, e, ap (total b) s), ap (first_where is_empty) s ∙ sym k ∙ n)

unequip_moves :
    (primary : Bool) (dst : SlotRef) (v : PlayerInventory) (out : Slot)
    → InRange dst
    → IsValid v
    → IsClean out
    → UnequipFacts primary v out (unequip_move dst primary v out)
unfolding unequip_move update_first_empty holdings
unequip_moves true dst v out small h c =
    let t = trade (read dst v out) v.primary_weapon in
    let tf =
      trade_facts (read dst v out) v.primary_weapon (read-IsClean dst v out h.sound.slots_clean c)
        h.sound.primary_armed.weapon_clean in
    let v1 = record v { primary_weapon = t.1 } in
    let w = write dst t.0 v1 out in
    let wf =
      write_facts dst t.0 v1 out small h.sound.slot_count h.sound.slots_clean c tf.gear_clean in
    let u0 = update_first_empty w.0 in
    let shelved : IsShelved u0 = record {
      slot_count = wf.slot_count;
      slots_clean = wf.slots_clean;
      knows_first_empty = refl;
    } in
    let u =
      unload_facts true u0 shelved (rw wf.same_magazines.0 h.sound.primary_armed.magazine_clean) in
    let g = u.same_gear in
    let v2 = (unload_magazine true u0).2 in
    rw u.succeeds record {
      valid = record {
        sound = record {
          slot_count = u.shelved.slot_count;
          slots_clean = u.shelved.slots_clean;
          primary_armed =
              emptied-Armed v2.primary_weapon v2.primary_magazine
                (rw (g.same_primary ∙ wf.same_primary) tf.slot_clean) u.emptied;
          secondary_armed =
              rw (g.same_secondary ∙ wf.same_secondary, g.same_magazine ∙ wf.same_magazines.1)
                h.sound.secondary_armed;
          armor_clean = rw (g.same_armor ∙ wf.same_armor) h.sound.armor_clean;
        };
        knows_first_empty = u.shelved.knows_first_empty;
      };
      out_clean = wf.out_clean;
      counts = λ b pos.
          settle_unequip b v.primary_magazine u0.primary_magazine v v2 u0 out w.1
            wf.same_magazines.0 refl
            (omega (
              arith,
              wf.counts b,
              tf.gear_counts b pos,
              tf.slot_counts b pos,
              ap (count b) (g.same_primary ∙ wf.same_primary),
              ap (count b) (g.same_secondary ∙ wf.same_secondary),
              ap (count b) (g.same_armor ∙ wf.same_armor),
              ap (count b) (g.same_magazine ∙ wf.same_magazines.1),
              empty_count b v2.primary_magazine pos u.emptied,
              ap (count b) (read-slots dst v v1 out refl),
            ))
            (u.moved_or_lost b pos);
    }
unequip_moves false dst v out small h c =
    let t = trade (read dst v out) v.secondary_weapon in
    let tf =
      trade_facts (read dst v out) v.secondary_weapon (read-IsClean dst v out h.sound.slots_clean c)
        h.sound.secondary_armed.weapon_clean in
    let v1 = record v { secondary_weapon = t.1 } in
    let w = write dst t.0 v1 out in
    let wf =
      write_facts dst t.0 v1 out small h.sound.slot_count h.sound.slots_clean c tf.gear_clean in
    let u0 = update_first_empty w.0 in
    let shelved : IsShelved u0 = record {
      slot_count = wf.slot_count;
      slots_clean = wf.slots_clean;
      knows_first_empty = refl;
    } in
    let u =
      unload_facts false u0 shelved
        (rw wf.same_magazines.1 h.sound.secondary_armed.magazine_clean) in
    let g = u.same_gear in
    let v2 = (unload_magazine false u0).2 in
    rw u.succeeds record {
      valid = record {
        sound = record {
          slot_count = u.shelved.slot_count;
          slots_clean = u.shelved.slots_clean;
          secondary_armed =
              emptied-Armed v2.secondary_weapon v2.secondary_magazine
                (rw (g.same_secondary ∙ wf.same_secondary) tf.slot_clean) u.emptied;
          primary_armed =
              rw (g.same_primary ∙ wf.same_primary, g.same_magazine ∙ wf.same_magazines.0)
                h.sound.primary_armed;
          armor_clean = rw (g.same_armor ∙ wf.same_armor) h.sound.armor_clean;
        };
        knows_first_empty = u.shelved.knows_first_empty;
      };
      out_clean = wf.out_clean;
      counts = λ b pos.
          settle_unequip b v.secondary_magazine u0.secondary_magazine v v2 u0 out w.1
            wf.same_magazines.1 refl
            (omega (
              arith,
              wf.counts b,
              tf.gear_counts b pos,
              tf.slot_counts b pos,
              ap (count b) (g.same_secondary ∙ wf.same_secondary),
              ap (count b) (g.same_primary ∙ wf.same_primary),
              ap (count b) (g.same_armor ∙ wf.same_armor),
              ap (count b) (g.same_magazine ∙ wf.same_magazines.0),
              empty_count b v2.secondary_magazine pos u.emptied,
              ap (count b) (read-slots dst v v1 out refl),
            ))
            (u.moved_or_lost b pos);
    }

-- Refused with nothing changed, or done with what the facts say.
abbrev Fine : Bool → PlayerInventory → Slot → Outcome → Type 0
Fine primary v out r = ((d : Deny) × (r ≡ (refused d, v, out))) ⊎ UnequipFacts primary v out r

pub choose :
    {x y : Outcome} (t : Bool) (P : Outcome → Type 0)
    → (t ≡ true → P x)
    → (t ≡ false → P y)
    → P (if t then x else y)
choose true P a b = a refl
choose false P a b = b refl

-- Taking a weapon off, to one of the slots of a valid inventory or a clean slot outside: a refusal
-- changes nothing, and otherwise the inventory stays valid and every item is still there, but for the
-- rounds of the magazine when no slot is empty afterwards.
pub unequip_weapon_lem :
    (dst : SlotRef) (primary : Bool) (v : PlayerInventory) (out : Slot)
    → InRange dst
    → IsValid v
    → IsClean out
    → ((d : Deny) × (unequip_weapon dst primary v out ≡ (refused d, v, out)))
      ⊎ UnequipFacts primary v out (unequip_weapon dst primary v out)
unfolding unequip_weapon
unequip_weapon_lem dst primary v out small h c =
    let moves : Fine primary v out (unequip_move dst primary v out) =
      inr (unequip_moves primary dst v out small h c) in
    choose (is_empty (weapon_of primary v)) (Fine primary v out) (λ e. inl (slot_empty, refl))
      (λ e.
        choose (is_empty (read dst v out)) (Fine primary v out)
          (λ f.
            choose (is_empty (weapon_of (not primary) v)) (Fine primary v out)
              (λ k. inl (bare_handed, refl)) (λ k. moves))
          (λ f.
            choose (not (is_weapon (get_type (read dst v out).item.blueprint_id)))
              (Fine primary v out) (λ k. inl (item_type_mismatch, refl)) (λ k. moves)))
