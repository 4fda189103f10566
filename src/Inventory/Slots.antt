-- ===== src/Inventory/Slots.antt =====
-- src/DedicateProcess/Items.h: items and the slots that hold them. A quantity is never negative (the
-- database holds none, and every move takes at most what is there), so it is a number.
use extraction_server.Prelude.{
  ℕ, ◌+◌, ◌<◌, ◌≡◌, ◌↔◌, All, ◌==◌, if◌then◌else◌, Bool, true, false, ◌&&◌, Option, none, some,
  List, [], ◌∷◌, length, get_or, set, arith, zero, suc, Bool-cases, inl, inr,
}
use extraction_server.Prelude.Int.{ℤ, negsuc}

pub record Item : Type 0 where
  pub instance_uid : ℕ
  pub blueprint_id : ℕ

pub record Slot : Type 0 where
  pub item : Item
  pub slot_index : ℤ
  pub quantity : ℕ

abbrev pub no_item : Item
no_item = record { instance_uid = 0; blueprint_id = 0 }

abbrev pub no_slot : Slot
no_slot = record { item = no_item; slot_index = negsuc 0; quantity = 0 }

-- `IsEmpty`
abbrev pub is_empty : Slot → Bool
is_empty s = s.quantity == 0 && s.item.blueprint_id == 0

-- `Clear`: the slot keeps its index.
abbrev pub clear : Slot → Slot
clear s = record s { item = no_item; quantity = 0 }

-- A slot with the contents of another.
abbrev pub put : Slot → Slot → Slot
put from into = record into { item = from.item; quantity = from.quantity }

-- What a slot holds of a blueprint, and what a row of slots holds of it.
abbrev pub count : ℕ → Slot → ℕ
count b s = if s.item.blueprint_id == b then s.quantity else 0

unfoldable pub total : ℕ → List Slot → ℕ
total b [] = 0
total b (s ∷ ss) = count b s + total b ss

suc_of : Option ℕ → Option ℕ
suc_of none = none
suc_of (some i) = some (suc i)

-- The loops that look for the lowest slot with a property.
unfoldable pub first_where : (Slot → Bool) → List Slot → Option ℕ
unfolding suc_of
first_where p [] = none
first_where p (s ∷ ss) = if p s then some 0 else suc_of (first_where p ss)

pub total-set :
    (b : ℕ) (ss : List Slot) (i : ℕ) (s : Slot)
    → i < length ss
    → total b (set ss i s) + count b (get_or ss i no_slot) ≡ total b ss + count b s
unfolding total
total-set b [] i s h = absurd (omega arith)
total-set b (x ∷ ss) zero s h = omega arith
total-set b (x ∷ ss) (suc i) s h = omega (arith, total-set b ss i s (omega arith))

-- What the answer of a search says.
pub Found : (Slot → Bool) → List Slot → Option ℕ → Type 0
Found p ss none = (i : ℕ) → i < length ss → p (get_or ss i no_slot) ≡ false
Found p ss (some k) =
    (k < length ss)
    × (p (get_or ss k no_slot) ≡ true)
    × ((i : ℕ) → i < k → p (get_or ss i no_slot) ≡ false)

all_below :
    (p : Slot → Bool) (s : Slot) (ss : List Slot) (n : ℕ)
    → p s ≡ false
    → ((i : ℕ) → suc i < n → p (get_or ss i no_slot) ≡ false)
    → (i : ℕ) → i < n
    → p (get_or (s ∷ ss) i no_slot) ≡ false
all_below p s ss n e f zero h = e
all_below p s ss n e f (suc i) h = f i h

Found-suc_of :
    (p : Slot → Bool) (s : Slot) (ss : List Slot) (o : Option ℕ)
    → p s ≡ false
    → Found p ss o
    → Found p (s ∷ ss) (suc_of o)
unfolding Found suc_of
Found-suc_of p s ss none e f = all_below p s ss (suc (length ss)) e (λ i h. f i (omega arith))
Found-suc_of p s ss (some k) e f =
    (omega (arith, f.0), f.1, all_below p s ss (suc k) e (λ i h. f.2 i (omega arith)))

-- A search by its loop finds the lowest slot with the property, or says that there is none.
pub first_where-Found : (p : Slot → Bool) (ss : List Slot) → Found p ss (first_where p ss)
unfolding Found first_where
first_where-Found p [] = λ i h. absurd (omega arith)
first_where-Found p (s ∷ ss) = elim (Bool-cases (p s)) [
  | inl e ↦ rw e (omega arith, e, λ i h. absurd (omega arith))
  | inr e ↦ rw e (Found-suc_of p s ss (first_where p ss) e (first_where-Found p ss))
]

pub first_where-some :
    (p : Slot → Bool) (ss : List Slot) (k : ℕ)
    → first_where p ss ≡ some k
    → (k < length ss) × (p (get_or ss k no_slot) ≡ true)
unfolding Found
first_where-some p ss k e = let f = rw e at (first_where-Found p ss) in (f.0, f.1)

-- A slot holds something exactly when it names an item.
abbrev pub IsClean : Slot → Type 0
IsClean s = (s.quantity ≡ 0) ↔ (s.item.blueprint_id ≡ 0)

-- The slots of a row are clean.
abbrev pub AllClean : List Slot → Type 0
AllClean ss = All IsClean ss
