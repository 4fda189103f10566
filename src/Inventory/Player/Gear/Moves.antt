-- ===== src/Inventory/Player/Gear/Moves.antt =====
-- What trades of slots, and writes through a slot reference, do to an inventory.
use extraction_server.Prelude.{
  ℕ, ◌+◌, ◌<◌, ◌≡◌, refl, ◌⊎◌, inl, inr, Bool, true, none, length, arith, All-set, All-get_or,
  length-set, sym, ap, ◌∙◌,
}
use extraction_server.Inventory.Slots.{
  Slot, no_slot, is_empty, count, total, total-set, IsClean, AllClean, first_where,
}
use extraction_server.Inventory.Player.{
  same_blueprint, PlayerInventory, magazine_of, SlotRef, own, outside, read, write,
}
use extraction_server.Inventory.Player.Invariant.{Armed, IsValid}
use extraction_server.Inventory.Player.Reload.{holdings}
use extraction_server.Inventory.Player.Unload.{no_slot-IsClean, MovedOrLost, UnloadFacts}
use extraction_server.Inventory.Player.Gear.{trade, Outcome}

-- The slot that an operation is given is one of the 25.
abbrev pub InRange : SlotRef → Type 0
InRange (own i) = i < 25
InRange outside = Unit {0}

-- A trade leaves both slots clean and changes hands completely.
pub record TradeFacts (gear s : Slot) (r : Slot × Slot) : Type 0 where
  pub gear_clean : IsClean r.0
  pub slot_clean : IsClean r.1
  pub gear_counts : (b : ℕ) → 0 < b → count b r.0 ≡ count b s
  pub slot_counts : (b : ℕ) → 0 < b → count b r.1 ≡ count b gear

pub trade_facts : (gear s : Slot) → IsClean gear → IsClean s → TradeFacts gear s (trade gear s)
unfolding trade
trade_facts gear s c d = ground arith

-- What a write through a slot reference changes.
pub record WriteFacts (ref : SlotRef) (s : Slot) (v : PlayerInventory) (out : Slot)
    (r : PlayerInventory × Slot) : Type 0 where
  pub slot_count : length r.0.slots ≡ 25
  pub slots_clean : AllClean r.0.slots
  pub out_clean : IsClean r.1
  pub counts :
      (b : ℕ)
      → total b r.0.slots + count b r.1 + count b (read ref v out)
        ≡ total b v.slots + count b out + count b s
  pub same_primary : r.0.primary_weapon ≡ v.primary_weapon
  pub same_secondary : r.0.secondary_weapon ≡ v.secondary_weapon
  pub same_armor : r.0.armor ≡ v.armor
  pub same_magazines :
      (r.0.primary_magazine ≡ v.primary_magazine) × (r.0.secondary_magazine ≡ v.secondary_magazine)

pub write_facts :
    (ref : SlotRef) (s : Slot) (v : PlayerInventory) (out : Slot)
    → InRange ref
    → length v.slots ≡ 25
    → AllClean v.slots
    → IsClean out
    → IsClean s
    → WriteFacts ref s v out (write ref s v out)
write_facts (own i) s v out small len c d e = record {
  slot_count = length-set v.slots i s ∙ len;
  slots_clean = All-set IsClean v.slots i s c e;
  out_clean = d;
  counts = λ b. omega (arith, total-set b v.slots i s (omega arith));
  same_primary = refl;
  same_secondary = refl;
  same_armor = refl;
  same_magazines = (refl, refl);
}
write_facts outside s v out small len c d e = record {
  slot_count = len;
  slots_clean = c;
  out_clean = e;
  counts = λ b. omega arith;
  same_primary = refl;
  same_secondary = refl;
  same_armor = refl;
  same_magazines = (refl, refl);
}

pub read-IsClean :
    (ref : SlotRef) (v : PlayerInventory) (out : Slot)
    → AllClean v.slots
    → IsClean out
    → IsClean (read ref v out)
read-IsClean (own i) v out c d = All-get_or IsClean v.slots i no_slot c no_slot-IsClean
read-IsClean outside v out c d = d

-- A read sees the slots only.
pub read-slots :
    (ref : SlotRef) (v v' : PlayerInventory) (out : Slot)
    → v'.slots ≡ v.slots
    → read ref v' out ≡ read ref v out
read-slots (own i) v v' out e = rw e refl
read-slots outside v v' out e = refl

-- Everything is where it was or in the slot outside, but for the rounds of a magazine that found no
-- room.
abbrev pub BalancedOrLost : ℕ → Slot → PlayerInventory → Slot → PlayerInventory → Slot → Type 0
BalancedOrLost b m v out v' out' =
    (holdings b v' + count b out' ≡ holdings b v + count b out)
    ⊎ ((holdings b v' + count b out' + count b m ≡ holdings b v + count b out)
        × (first_where (same_blueprint m) v.slots ≡ none)
        × (first_where is_empty v.slots ≡ none))

pub record EquipFacts (primary : Bool) (v : PlayerInventory) (out : Slot) (r : Outcome)
    : Type 0 where
  pub valid : IsValid r.1
  pub out_clean : IsClean r.2
  pub counts : (b : ℕ) → 0 < b → BalancedOrLost b (magazine_of primary v) v out r.1 r.2

pub emptied-Armed : (w m : Slot) → IsClean w → is_empty m ≡ true → Armed w m
emptied-Armed w m c e = ground arith

pub empty_count : (b : ℕ) (m : Slot) → 0 < b → is_empty m ≡ true → count b m ≡ 0
empty_count b m pos e = ground arith

-- From a balance that leaves the rounds of the magazine open.
pub settle_counts :
    (b : ℕ) (primary : Bool) (v v1 v' : PlayerInventory) (out out' : Slot)
    → IsValid v
    → UnloadFacts primary v true v1
    → holdings b v' + count b out' + (total b v.slots + count b (magazine_of primary v))
      ≡ holdings b v + count b out + total b v1.slots
    → MovedOrLost b (magazine_of primary v) v v1
    → BalancedOrLost b (magazine_of primary v) v out v' out'
settle_counts b primary v v1 v' out out' h u e (inl m) = inl (omega (arith, e, m))
settle_counts b primary v v1 v' out out' h u e (inr (s, n, f)) =
    inr (omega (arith, e, ap (total b) s), f, sym h.knows_first_empty ∙ n)
