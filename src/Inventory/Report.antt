-- ===== src/Inventory/Report.antt =====
-- The inventory of a recalled player as the main process gets it: `SerializeInventoryForIPC` of
-- src/DedicateProcess/PlayerSession.cpp.
use extraction_server.Prelude.{
  ℕ, ◌+◌, ◌≡◌, refl, ◌==◌, if◌then◌else◌, Bool-cases, inl, inr, Option, none, some, List, [], ◌∷◌,
  get_or, zero, suc, arith,
}
use extraction_server.Inventory.Slots.{Slot, no_slot, is_empty, count, total}
use extraction_server.Inventory.Player.{PlayerInventory}
use extraction_server.Inventory.Player.Reload.{holdings}

-- `ItemSlot` of the message.
pub record ItemSlot : Type 0 where
  pub item_id : ℕ
  pub slot_index : ℕ
  pub quantity : ℕ

abbrev pub item_slot : ℕ → Slot → ItemSlot
item_slot i s = record { item_id = s.item.blueprint_id; slot_index = i; quantity = s.quantity }

-- Both loops: over slots that begin with this index.
unfoldable pub serialize_slots : ℕ → List Slot → List ItemSlot
serialize_slots i [] = []
serialize_slots i (s ∷ ss) =
    let rest = serialize_slots (i + 1) ss in if is_empty s then rest else item_slot i s ∷ rest

-- The two lists of the message.
pub record InventoryReport : Type 0 where
  pub inventory_slots : List ItemSlot
  pub equipment_slots : List ItemSlot

-- `SerializeInventoryForIPC`
unfoldable pub serialize_inventory_for_ipc : PlayerInventory → InventoryReport
unfolding serialize_slots
serialize_inventory_for_ipc v = record {
  inventory_slots = serialize_slots 0 v.slots;
  equipment_slots = serialize_slots 0 (v.primary_weapon ∷ v.secondary_weapon ∷ v.armor ∷ []);
}

-- What the message says of an index.
abbrev pub entry_at : ℕ → List ItemSlot → Option ItemSlot
entry_at k [] = none
entry_at k (e ∷ es) = if e.slot_index == k then some e else entry_at k es

-- What it should say of a slot.
abbrev pub shown : ℕ → Slot → Option ItemSlot
shown i s = if is_empty s then none else some (item_slot i s)

-- How much of a blueprint the message has.
abbrev pub reported : ℕ → List ItemSlot → ℕ
reported b [] = 0
reported b (e ∷ es) = (if e.item_id == b then e.quantity else 0) + reported b es

entry_at-below :
    (i d k : ℕ) (ss : List Slot) → k + suc d ≡ i → entry_at k (serialize_slots i ss) ≡ none
unfolding serialize_slots
entry_at-below i d k [] h = refl
entry_at-below i d k (s ∷ ss) h =
    let rest = entry_at-below (i + 1) (suc d) k ss (omega (arith, h)) in
    elim (Bool-cases (is_empty s)) [ inl e ↦ rw e rest | inr e ↦ rw e (ground (arith, rest, h)) ]

entry_at-head :
    (i : ℕ) (s : Slot) (ss : List Slot) → entry_at i (serialize_slots i (s ∷ ss)) ≡ shown i s
unfolding serialize_slots
entry_at-head i s ss =
    let rest = entry_at-below (i + 1) 0 i ss (omega arith) in
    elim (Bool-cases (is_empty s)) [ inl e ↦ rw e rest | inr e ↦ rw e (ground (arith, rest)) ]

entry_at-serialize_slots :
    (i j k : ℕ) (ss : List Slot)
    → i + j ≡ k
    → entry_at k (serialize_slots i ss) ≡ shown k (get_or ss j no_slot)
unfolding serialize_slots
entry_at-serialize_slots i j k [] h = refl
entry_at-serialize_slots i zero k (s ∷ ss) h =
    let same : i ≡ k = omega (arith, h) in rw (← same) (entry_at-head i s ss)
entry_at-serialize_slots i (suc j) k (s ∷ ss) h =
    let rest = entry_at-serialize_slots (i + 1) j k ss (omega (arith, h)) in
    elim (Bool-cases (is_empty s)) [ inl e ↦ rw e rest | inr e ↦ rw e (ground (arith, rest, h)) ]

reported-serialize_slots :
    (b i : ℕ) (ss : List Slot) → reported b (serialize_slots i ss) ≡ total b ss
unfolding serialize_slots total
reported-serialize_slots b i [] = refl
reported-serialize_slots b i (s ∷ ss) = ground (arith, reported-serialize_slots b (i + 1) ss)

-- What the main process is told of a recalled player is the whole of its inventory but for the rounds
-- in the two magazines, which are lost: the message names every slot and every hand that holds
-- something, by its index and with its contents, and no other; and the amounts of any item in the
-- message and in the magazines add up to what the player held.
pub serialize_inventory_for_ipc_lem :
    (v : PlayerInventory) (b i : ℕ)
    → let r = serialize_inventory_for_ipc v in
      (entry_at i r.inventory_slots ≡ shown i (get_or v.slots i no_slot))
      × (entry_at 0 r.equipment_slots ≡ shown 0 v.primary_weapon)
      × (entry_at 1 r.equipment_slots ≡ shown 1 v.secondary_weapon)
      × (entry_at 2 r.equipment_slots ≡ shown 2 v.armor)
      × (reported b r.inventory_slots
            + reported b r.equipment_slots
            + count b v.primary_magazine
            + count b v.secondary_magazine
          ≡ holdings b v)
unfolding serialize_inventory_for_ipc holdings total
serialize_inventory_for_ipc_lem v b i =
    let gear = v.primary_weapon ∷ v.secondary_weapon ∷ v.armor ∷ [] in
    (
      entry_at-serialize_slots 0 i i v.slots (omega arith),
      entry_at-serialize_slots 0 0 0 gear refl,
      entry_at-serialize_slots 0 1 1 gear refl,
      entry_at-serialize_slots 0 2 2 gear refl,
      omega (arith, reported-serialize_slots b 0 v.slots, reported-serialize_slots b 0 gear),
    )
