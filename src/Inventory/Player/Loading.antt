-- ===== src/Inventory/Player/Loading.antt =====
-- The loop of `LoadMagazineFromInventory`: what it moves.
use extraction_server.Prelude.{
  ℕ, ◌+◌, ◌<◌, ◌≤◌, ◌≡◌, ◌≢◌, ◌⊎◌, true, false, List, [], ◌∷◌, length, arith, ap₂,
}
use extraction_server.Inventory.Slots.{Slot, is_empty, count, total, IsClean, AllClean}
use extraction_server.Inventory.Player.{LoadStep, load_step, Loaded, load_loop}

-- A magazine that may take rounds of a kind.
abbrev pub Takes : ℕ → Slot → Type 0
Takes ammo m = IsClean m × ((is_empty m ≡ true) ⊎ (m.item.blueprint_id ≡ ammo))

record StepFacts (ammo remaining : ℕ) (m s : Slot) (r : LoadStep) : Type 0 where
  pub takes : Takes ammo r.magazine
  pub clean : IsClean r.slot
  pub conserved : r.magazine.quantity + count ammo r.slot ≡ m.quantity + count ammo s
  pub others : (b : ℕ) → b ≢ ammo → 0 < b → count b r.slot ≡ count b s
  pub at_least : m.quantity ≤ r.magazine.quantity
  pub filled : r.magazine.quantity + r.remaining ≡ m.quantity + remaining
  pub done : (r.remaining ≡ 0) ⊎ (count ammo r.slot ≡ 0)
  pub kept : r.moved ≡ false → (r.magazine ≡ m) × (r.slot ≡ s)
  pub grown : r.moved ≡ true → m.quantity < r.magazine.quantity

load_step-facts :
    (ammo remaining : ℕ) (m s : Slot)
    → 0 < ammo
    → Takes ammo m
    → IsClean s
    → StepFacts ammo remaining m s (load_step ammo remaining m s)
unfolding load_step
load_step-facts ammo remaining m s real t c = ground arith

pub record LoadFacts (ammo remaining : ℕ) (m : Slot) (ss : List Slot) (l : Loaded) : Type 0 where
  pub takes : Takes ammo l.magazine
  pub clean : AllClean l.slots
  pub same_length : length l.slots ≡ length ss
  pub conserved : l.magazine.quantity + total ammo l.slots ≡ m.quantity + total ammo ss
  pub others : (b : ℕ) → b ≢ ammo → 0 < b → total b l.slots ≡ total b ss
  pub at_least : m.quantity ≤ l.magazine.quantity
  pub capped : l.magazine.quantity ≤ m.quantity + remaining
  pub full_or_out : (l.magazine.quantity ≡ m.quantity + remaining) ⊎ (total ammo l.slots ≡ 0)
  pub kept : l.changed ≡ false → (l.magazine ≡ m) × (l.slots ≡ ss)
  pub grown : l.changed ≡ true → m.quantity < l.magazine.quantity

pub load_loop-facts :
    (ammo remaining : ℕ) (m : Slot) (ss : List Slot)
    → 0 < ammo
    → Takes ammo m
    → AllClean ss
    → LoadFacts ammo remaining m ss (load_loop ammo remaining m ss)
unfolding load_loop total
load_loop-facts ammo remaining m [] real t c = ground arith
load_loop-facts ammo remaining m (s ∷ ss) real t c =
    let r = load_step ammo remaining m s in
    let f = load_step-facts ammo remaining m s real t c.0 in
    let g = load_loop-facts ammo r.remaining r.magazine ss real f.takes c.1 in
    record {
      takes = g.takes;
      clean = (f.clean, g.clean);
      same_length = omega (arith, g.same_length);
      conserved = omega (arith, f.conserved, g.conserved);
      others = λ b ne pos. ap₂ ◌+◌ (f.others b ne pos) (g.others b ne pos);
      at_least = omega (arith, f.at_least, g.at_least);
      capped = omega (arith, f.filled, g.capped);
      full_or_out = ground (arith, f, g);
      kept = ground (arith, f, g);
      grown = ground (arith, f, g);
    }
