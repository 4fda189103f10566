-- ===== src/Inventory/Transfer/Conserve.antt =====
-- The two slots of a transfer, and the places that they are written to.
use extraction_server.Prelude.{
  ℕ, ◌+◌, ◌<◌, ◌≡◌, refl, false, Option, none, some, List, [], length, arith, All-set, All-get_or,
  length-set, get_or-set_ne,
}
use extraction_server.Prelude.Int.{ℤ}
use extraction_server.Inventory.Slots.{
  Slot, no_slot, is_empty, count, total, total-set, IsClean, AllClean,
}
use extraction_server.Inventory.Denials.{ok}
use extraction_server.Inventory.Player.Reload.{holdings}
use extraction_server.Inventory.Player.Unload.{no_slot-IsClean}
use extraction_server.Inventory.Box.{Box}
use extraction_server.Inventory.Transfer.{
  Place, mine, theirs, interact, Store, read, write, same_place,
}

pub record Moved (start end start' end' : Slot) : Type 0 where
  pub start_clean : IsClean start'
  pub end_clean : IsClean end'
  pub counts : (b : ℕ) → 0 < b → count b start' + count b end' ≡ count b start + count b end

pub interact-Moved :
    (kind : ℕ) (q : ℤ) (start end : Slot) (r : Slot × Slot)
    → IsClean start
    → IsClean end
    → is_empty start ≡ false
    → interact kind q start end ≡ ok r
    → Moved start end r.0 r.1
unfolding interact
interact-Moved kind q start end r c d e h = ground arith

-- What the container holds of a kind, and what the two sides hold together.
unfoldable pub box_total : ℕ → Option (ℕ × Box) → ℕ
box_total b none = 0
box_total b (some (id, c)) = total b c.slots

unfoldable pub store_total : ℕ → Store → ℕ
store_total b t = holdings b t.0 + box_total b t.1

unfoldable pub BoxClean : Option (ℕ × Box) → Type 0
BoxClean none = Unit {0}
BoxClean (some (id, c)) = AllClean c.slots

unfoldable pub box_slots : Option (ℕ × Box) → List Slot
box_slots none = []
box_slots (some (id, c)) = c.slots

-- A place that the store has.
unfoldable pub PlaceIn : Place → Store → Type 0
PlaceIn (mine i) t = i < length t.0.slots
PlaceIn (theirs i) t = i < length (box_slots t.1)

-- A write changes the inventory in its slots only.
pub record Written (p : Place) (s : Slot) (t t' : Store) : Type 0 where
  pub counts : (b : ℕ) → store_total b t' + count b (read p t) ≡ store_total b t + count b s
  pub inventory_clean : AllClean t'.0.slots
  pub box_clean : BoxClean t'.1
  pub same_length : length t'.0.slots ≡ length t.0.slots
  pub slots_only : t'.0 ≡ record t.0 { slots = t'.0.slots }

pub write-Written :
    (p : Place) (s : Slot) (t : Store)
    → PlaceIn p t
    → AllClean t.0.slots
    → BoxClean t.1
    → IsClean s
    → Written p s t (write p s t)
unfolding box_slots PlaceIn BoxClean store_total box_total holdings read write
write-Written (mine i) s t small c d e = record {
  counts = λ b. omega (arith, total-set b t.0.slots i s small);
  inventory_clean = All-set IsClean t.0.slots i s c e;
  box_clean = d;
  same_length = length-set t.0.slots i s;
  slots_only = refl;
}
write-Written (theirs i) s (v, none) small c d e = absurd (omega arith)
write-Written (theirs i) s (v, some (id, box)) small c d e = record {
  counts = λ b. omega (arith, total-set b box.slots i s small);
  inventory_clean = c;
  box_clean = All-set IsClean box.slots i s d e;
  same_length = refl;
  slots_only = refl;
}

-- A write leaves the other places and their contents.
pub write_other :
    (p r : Place) (s : Slot) (t : Store)
    → same_place p r ≡ false
    → PlaceIn r t
    → (read r (write p s t) ≡ read r t) × PlaceIn r (write p s t)
unfolding box_slots PlaceIn read write same_place
write_other (mine i) (mine j) s t e small =
    (get_or-set_ne t.0.slots i j s no_slot (λ h. ground arith), rw (length-set t.0.slots i s) small)
write_other (mine i) (theirs j) s t e small = (refl, small)
write_other (theirs i) (mine j) s t e small = (refl, small)
write_other (theirs i) (theirs j) s (v, none) e small = absurd (omega arith)
write_other (theirs i) (theirs j) s (v, some (id, c)) e small =
    (get_or-set_ne c.slots i j s no_slot (λ h. ground arith), rw (length-set c.slots i s) small)

pub read-IsClean : (p : Place) (t : Store) → AllClean t.0.slots → BoxClean t.1 → IsClean (read p t)
unfolding BoxClean read
read-IsClean (mine i) t c d = All-get_or IsClean t.0.slots i no_slot c no_slot-IsClean
read-IsClean (theirs i) (v, none) c d = no_slot-IsClean
read-IsClean (theirs i) (v, some (id, box)) c d =
    All-get_or IsClean box.slots i no_slot d no_slot-IsClean
