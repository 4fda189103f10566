-- ===== src/Inventory/Player/Invariant.antt =====
-- The invariant of an inventory (PlayerInventory.cpp), and what loading a magazine does to it.
use extraction_server.Prelude.{
  ℕ, ◌<◌, ◌≤◌, ◌≡◌, refl, ◌⊎◌, inl, inr, true, false, some, List, length, arith, Option-cases, ◌≢◌,
  Bool-cases, lookup, ltb, ltb→lt, ◌-◌, ◌+◌,
}
use extraction_server.Inventory.Blueprints.{WeaponSpec, get_weapon_spec}
use extraction_server.Inventory.Slots.{Slot, is_empty, count, total, IsClean, AllClean, first_where}
use extraction_server.Inventory.Player.{PlayerInventory, Loaded, load_loop, load}
use extraction_server.Inventory.Player.Loading.{Takes, load_loop-facts}

-- A magazine is empty, or holds rounds of its weapon's kind, at most as many as fit.
pub record Fits (weapon magazine : Slot) (spec : WeaponSpec) : Type 0 where
  pub has_spec : get_weapon_spec weapon.item.blueprint_id ≡ some spec
  pub right_kind : magazine.item.blueprint_id ≡ spec.ammo_type
  pub within : magazine.quantity ≤ spec.max_ammo

pub record Armed (weapon magazine : Slot) : Type 0 where
  pub weapon_clean : IsClean weapon
  pub magazine_clean : IsClean magazine
  pub fits : (is_empty magazine ≡ true) ⊎ ((spec : WeaponSpec) × Fits weapon magazine spec)

-- All but the index of the first empty slot.
pub record IsSound (v : PlayerInventory) : Type 0 where
  pub slot_count : length v.slots ≡ 25
  pub slots_clean : AllClean v.slots
  pub primary_armed : Armed v.primary_weapon v.primary_magazine
  pub secondary_armed : Armed v.secondary_weapon v.secondary_magazine
  pub armor_clean : IsClean v.armor

pub record IsValid (v : PlayerInventory) : Type 0 where
  pub sound : IsSound v
  pub knows_first_empty : v.first_empty ≡ first_where is_empty v.slots

spec_positive :
    (id : ℕ) (spec : WeaponSpec)
    → get_weapon_spec id ≡ some spec
    → (0 < id) × (0 < spec.ammo_type) × (0 < spec.max_ammo)
unfolding get_weapon_spec lookup
spec_positive id spec h = ground arith

own-Takes :
    (w m : Slot) (spec : WeaponSpec)
    → Armed w m
    → get_weapon_spec w.item.blueprint_id ≡ some spec
    → Takes spec.ammo_type m
own-Takes w m spec a f = ground arith

pub record LoadKeeps (weapon magazine : Slot) (ss : List Slot) (l : Loaded) : Type 0 where
  pub armed : Armed weapon l.magazine
  pub clean : AllClean l.slots
  pub same_length : length l.slots ≡ length ss
  pub kept : l.changed ≡ false → (l.magazine ≡ magazine) × (l.slots ≡ ss)
  pub grown : l.changed ≡ true → magazine.quantity < l.magazine.quantity
  pub conserved :
      (b : ℕ) → 0 < b → count b l.magazine + total b l.slots ≡ count b magazine + total b ss
  pub full_or_out :
      (spec : WeaponSpec)
      → get_weapon_spec weapon.item.blueprint_id ≡ some spec
      → (l.magazine.quantity ≡ spec.max_ammo) ⊎ (total spec.ammo_type l.slots ≡ 0)

loaded-Armed :
    (w m : Slot) (spec : WeaponSpec)
    → IsClean w
    → get_weapon_spec w.item.blueprint_id ≡ some spec
    → Takes spec.ammo_type m
    → m.quantity ≤ spec.max_ammo
    → Armed w m
loaded-Armed w m spec c f t h = ground arith

-- What the loop keeps of the rounds it moves and of everything else, by kind.
loaded_counts :
    (ammo b : ℕ) (m m' : Slot) (ss ss' : List Slot)
    → 0 < b
    → Takes ammo m
    → Takes ammo m'
    → m'.quantity + total ammo ss' ≡ m.quantity + total ammo ss
    → (b ≢ ammo → total b ss' ≡ total b ss)
    → count b m' + total b ss' ≡ count b m + total b ss
loaded_counts ammo b m m' ss ss' pos t t' moved others = ground arith

-- With a magazine that is not full, the loop does the work.
loop_keeps :
    (w m : Slot) (ss : List Slot) (spec : WeaponSpec)
    → Armed w m
    → AllClean ss
    → get_weapon_spec w.item.blueprint_id ≡ some spec
    → m.quantity < spec.max_ammo
    → LoadKeeps w m ss (load_loop spec.ammo_type (spec.max_ammo - m.quantity) m ss)
loop_keeps w m ss spec a c f small =
    let (id, real, big) = spec_positive w.item.blueprint_id spec f in
    let t = own-Takes w m spec a f in
    let l = load_loop spec.ammo_type (spec.max_ammo - m.quantity) m ss in
    let g = load_loop-facts spec.ammo_type (spec.max_ammo - m.quantity) m ss real t c in
    record {
      armed = loaded-Armed w l.magazine spec a.weapon_clean f g.takes (omega (arith, g.capped));
      clean = g.clean;
      same_length = g.same_length;
      kept = g.kept;
      grown = g.grown;
      conserved = λ b pos.
          loaded_counts spec.ammo_type b m l.magazine ss l.slots pos t g.takes g.conserved
            (λ ne. g.others b ne pos);
      full_or_out = λ spec' f'. ground (arith, g);
    }

-- A full magazine, and one of a weapon without an entry, stay as they are.
still_keeps :
    (w m : Slot) (ss : List Slot)
    → Armed w m
    → AllClean ss
    → ((spec : WeaponSpec)
        → get_weapon_spec w.item.blueprint_id ≡ some spec
        → spec.max_ammo ≤ m.quantity)
    → LoadKeeps w m ss record { magazine = m; slots = ss; changed = false }
still_keeps w m ss a c full = record {
  armed = a;
  clean = c;
  same_length = refl;
  kept = λ e. (refl, refl);
  grown = λ e. ground arith;
  conserved = λ b pos. refl;
  full_or_out = λ spec f.
      let h = full spec f in let p = spec_positive w.item.blueprint_id spec f in ground arith;
}

pub load-keeps :
    (w m : Slot) (ss : List Slot) → Armed w m → AllClean ss → LoadKeeps w m ss (load w m ss)
unfolding load
load-keeps w m ss a c = elim (Bool-cases (is_empty w)) [
  | inl e ↦ rw e (
      still_keeps w m ss a c
        (λ spec f. let p = spec_positive w.item.blueprint_id spec f in ground arith))
  | inr e ↦ rw e (elim (Option-cases (get_weapon_spec w.item.blueprint_id)) [
    | inl f ↦ rw f (still_keeps w m ss a c (λ spec g. ground arith))
    | inr (spec, f) ↦ rw f (elim (Bool-cases (ltb m.quantity spec.max_ammo)) [
      | inl g ↦ rw g (loop_keeps w m ss spec a c f (ltb→lt m.quantity spec.max_ammo g))
      | inr g ↦ rw g (still_keeps w m ss a c (λ spec' h. ground arith))
    ])
  ])
]
