-- ===== src/Inventory/Box.antt =====
-- src/DedicateProcess/UnityGameObjects/Container.h and PlayerLootContainer.h: the containers of a
-- room, and the one that a dead player leaves.
pub mod Loot
use extraction_server.Prelude.{
  ℕ, ◌+◌, ltb, leb, ◌==◌, if◌then◌else◌, Bool, true, false, ◌||◌, Option, none, some, List, [], ◌∷◌,
  ◌++◌, keep_if, length, get_or, set, zero, suc, not,
}
use extraction_server.Prelude.Words.{add32}
use extraction_server.Prelude.Int.{pos}
use extraction_server.Inventory.Slots.{Slot, no_slot, is_empty}
use extraction_server.Inventory.Player.{PlayerInventory}

abbrev pub default_container_volume : ℕ
default_container_volume = 30

-- The fields of `Container`; `none` is `NO_INTERACTING_PLAYER`.
pub record Box : Type 0 where
  pub slots : List Slot
  pub next_loot_slot : ℕ
  pub volume : ℕ
  pub version : ℕ
  pub interacting_player : Option ℕ

pub numbered : ℕ → ℕ → List Slot
numbered i zero = []
numbered i (suc n) = record no_slot { slot_index = pos i } ∷ numbered (i + 1) n

-- A container of this many slots, as `InitializeSlots` makes it.
unfoldable pub initialize_slots : ℕ → Box
unfolding numbered
initialize_slots n = record {
  slots = numbered 0 n;
  next_loot_slot = 0;
  volume = n;
  version = 0;
  interacting_player = none;
}

-- `PlaceItem`: the contents of the given slot in the slot of an index.
unfoldable pub place_item : ℕ → Slot → Box → Bool × Box
place_item i given c = if leb (length c.slots) i || given.quantity == 0 then (false, c) else (
  true,
  record c {
    slots =
        set c.slots i
          (record (get_or c.slots i no_slot) { item = given.item; quantity = given.quantity });
  },
)

-- `PlaceInitialLoot`
unfoldable pub place_initial_loot : Slot → Box → Bool × Box
unfolding place_item
place_initial_loot given c =
    if leb (length c.slots) c.next_loot_slot
    then (false, c)
    else let (placed, c') = place_item c.next_loot_slot given c in
      if not placed then (false, c) else (true, record c' { next_loot_slot = c.next_loot_slot + 1 })

-- The slots that `FillFrom` places, in its order.
abbrev pub possessions : PlayerInventory → List Slot
possessions v =
    v.primary_weapon ∷ v.primary_magazine ∷ v.secondary_weapon ∷ v.secondary_magazine ∷ v.armor
    ∷ v.slots

pub place_all : ℕ → List Slot → Box → Box
unfolding place_item
place_all i [] c = c
place_all i (s ∷ ss) c =
    let n = (if is_empty s then i else i + 1) in
    place_all n ss (if is_empty s then c else (place_item i s c).1)

-- `FillFrom`
unfoldable pub fill_from : PlayerInventory → Box → Box
unfolding place_all
fill_from v c = place_all 0 (possessions v) c

-- The constructor of `PlayerLootContainer`, its place in the world left out.
unfoldable pub player_loot : PlayerInventory → Box
unfolding initialize_slots fill_from
player_loot v = fill_from v (initialize_slots default_container_volume)
