-- ===== src/Inventory/Player/Unload.antt =====
-- `UnloadMagazineToInventory`: where the rounds of a magazine go.
use extraction_server.Prelude.{
  ℕ, ◌+◌, ◌<◌, ◌≡◌, refl, ◌⊎◌, inl, inr, Bool, true, false, not, Option, none, some, List, [], ◌∷◌,
  length, arith, Bool-cases, Option-cases, get_or, set, All-set, All-get_or, length-set, zero, suc,
  ap, sym, ◌∙◌,
}
use extraction_server.Inventory.Slots.{
  Slot, no_slot, is_empty, put, count, total, total-set, IsClean, AllClean, first_where,
  first_where-some,
}
use extraction_server.Inventory.Player.{
  PlayerInventory, unload_magazine, magazine_of, update_first_empty, same_blueprint, unload_into,
}

-- A write that leaves the property of its slot as it was changes no search for it.
pub first_where-set :
    (p : Slot → Bool) (ss : List Slot) (i : ℕ) (s : Slot)
    → p s ≡ p (get_or ss i no_slot)
    → first_where p (set ss i s) ≡ first_where p ss
unfolding first_where
first_where-set p [] i s e = refl
first_where-set p (x ∷ ss) zero s e = rw e refl
first_where-set p (x ∷ ss) (suc i) s e = rw (first_where-set p ss i s e) refl

pub no_slot-IsClean : IsClean no_slot
no_slot-IsClean = ground arith

-- The rounds of a magazine on a stack of theirs, and in an empty slot.
abbrev pub stack_top : Slot → List Slot → ℕ → Slot
stack_top m ss i = let s = get_or ss i no_slot in record s { quantity = s.quantity + m.quantity }

abbrev pub stacked : Slot → List Slot → ℕ → List Slot
stacked m ss i = set ss i (stack_top m ss i)

abbrev pub laid : Slot → List Slot → ℕ → List Slot
laid m ss i = set ss i (put m (get_or ss i no_slot))

stacked-total :
    (b : ℕ) (m : Slot) (ss : List Slot) (i : ℕ)
    → i < length ss
    → same_blueprint m (get_or ss i no_slot) ≡ true
    → total b (stacked m ss i) ≡ total b ss + count b m
unfolding same_blueprint
stacked-total b m ss i h e =
    let s = get_or ss i no_slot in
    let t = total-set b ss i (record s { quantity = s.quantity + m.quantity }) h in ground arith

laid-total :
    (b : ℕ) (m : Slot) (ss : List Slot) (i : ℕ)
    → 0 < b
    → i < length ss
    → is_empty (get_or ss i no_slot) ≡ true
    → total b (laid m ss i) ≡ total b ss + count b m
laid-total b m ss i pos h e =
    let s = get_or ss i no_slot in let t = total-set b ss i (put m s) h in ground arith

stacked-clean :
    (m : Slot) (ss : List Slot) (i : ℕ)
    → AllClean ss
    → same_blueprint m (get_or ss i no_slot) ≡ true
    → AllClean (stacked m ss i)
unfolding same_blueprint
stacked-clean m ss i c e =
    let s = get_or ss i no_slot in
    All-set IsClean ss i (record s { quantity = s.quantity + m.quantity }) c
      (let d = All-get_or IsClean ss i no_slot c no_slot-IsClean in ground arith)

laid-clean : (m : Slot) (ss : List Slot) (i : ℕ) → AllClean ss → IsClean m → AllClean (laid m ss i)
laid-clean m ss i c d = All-set IsClean ss i (put m (get_or ss i no_slot)) c d

-- The slots of an inventory are in order.
pub record IsShelved (v : PlayerInventory) : Type 0 where
  pub slot_count : length v.slots ≡ 25
  pub slots_clean : AllClean v.slots
  pub knows_first_empty : v.first_empty ≡ first_where is_empty v.slots

-- Nothing but the slots, the index of the first empty one, the version and one magazine differs.
pub record SameGear (primary : Bool) (v v' : PlayerInventory) : Type 0 where
  pub same_primary : v'.primary_weapon ≡ v.primary_weapon
  pub same_secondary : v'.secondary_weapon ≡ v.secondary_weapon
  pub same_armor : v'.armor ≡ v.armor
  pub same_magazine : magazine_of (not primary) v' ≡ magazine_of (not primary) v

-- The rounds `n` of a kind were all moved into the slots, or there was no room for any.
abbrev pub MovedOrLost : ℕ → Slot → PlayerInventory → PlayerInventory → Type 0
MovedOrLost b m v v' =
    (total b v'.slots ≡ total b v.slots + count b m)
    ⊎ ((v'.slots ≡ v.slots)
        × (v.first_empty ≡ none)
        × (first_where (same_blueprint m) v.slots ≡ none))

pub record UnloadFacts (primary : Bool) (v : PlayerInventory) (ok : Bool) (v' : PlayerInventory)
    : Type 0 where
  pub succeeds : ok ≡ true
  pub shelved : IsShelved v'
  pub same_gear : SameGear primary v v'
  pub emptied : is_empty (magazine_of primary v') ≡ true
  pub moved_or_lost : (b : ℕ) → 0 < b → MovedOrLost b (magazine_of primary v) v v'

stack-IsShelved :
    (m : Slot) (v v' : PlayerInventory) (i : ℕ)
    → IsShelved v
    → i < length v.slots
    → same_blueprint m (get_or v.slots i no_slot) ≡ true
    → v'.slots ≡ stacked m v.slots i
    → v'.first_empty ≡ v.first_empty
    → IsShelved v'
unfolding same_blueprint
stack-IsShelved m v v' i h small e same free = record {
  slot_count = ap length same ∙ length-set v.slots i (stack_top m v.slots i) ∙ h.slot_count;
  slots_clean = rw same (stacked-clean m v.slots i h.slots_clean e);
  knows_first_empty =
      free
      ∙ h.knows_first_empty
      ∙ sym (
          ap (first_where is_empty) same
          ∙ first_where-set is_empty v.slots i (stack_top m v.slots i) (ground arith));
}

into_stack :
    (primary : Bool) (v : PlayerInventory) (i : ℕ) (o : Option ℕ)
    → IsShelved v
    → i < length v.slots
    → same_blueprint (magazine_of primary v) (get_or v.slots i no_slot) ≡ true
    → UnloadFacts primary v true (unload_into (some i) o primary v).1
unfolding unload_into
into_stack true v i o h small e = record {
  succeeds = refl;
  shelved =
      stack-IsShelved v.primary_magazine v (unload_into (some i) o true v).1 i h small e refl refl;
  same_gear = record {
    same_primary = refl;
    same_secondary = refl;
    same_armor = refl;
    same_magazine = refl;
  };
  emptied = refl;
  moved_or_lost = λ b pos. inl (stacked-total b v.primary_magazine v.slots i small e);
}
into_stack false v i o h small e = record {
  succeeds = refl;
  shelved =
      stack-IsShelved v.secondary_magazine v (unload_into (some i) o false v).1 i h small e refl
        refl;
  same_gear = record {
    same_primary = refl;
    same_secondary = refl;
    same_armor = refl;
    same_magazine = refl;
  };
  emptied = refl;
  moved_or_lost = λ b pos. inl (stacked-total b v.secondary_magazine v.slots i small e);
}

into_empty :
    (primary : Bool) (v : PlayerInventory) (i : ℕ)
    → IsShelved v
    → IsClean (magazine_of primary v)
    → i < length v.slots
    → is_empty (get_or v.slots i no_slot) ≡ true
    → UnloadFacts primary v true (unload_into none (some i) primary v).1
unfolding unload_into update_first_empty
into_empty true v i h c small e = record {
  succeeds = refl;
  shelved = record {
    slot_count =
        length-set v.slots i (put v.primary_magazine (get_or v.slots i no_slot)) ∙ h.slot_count;
    slots_clean = laid-clean v.primary_magazine v.slots i h.slots_clean c;
    knows_first_empty = refl;
  };
  same_gear = record {
    same_primary = refl;
    same_secondary = refl;
    same_armor = refl;
    same_magazine = refl;
  };
  emptied = refl;
  moved_or_lost = λ b pos. inl (laid-total b v.primary_magazine v.slots i pos small e);
}
into_empty false v i h c small e = record {
  succeeds = refl;
  shelved = record {
    slot_count =
        length-set v.slots i (put v.secondary_magazine (get_or v.slots i no_slot)) ∙ h.slot_count;
    slots_clean = laid-clean v.secondary_magazine v.slots i h.slots_clean c;
    knows_first_empty = refl;
  };
  same_gear = record {
    same_primary = refl;
    same_secondary = refl;
    same_armor = refl;
    same_magazine = refl;
  };
  emptied = refl;
  moved_or_lost = λ b pos. inl (laid-total b v.secondary_magazine v.slots i pos small e);
}

into_nothing :
    (primary : Bool) (v : PlayerInventory)
    → IsShelved v
    → v.first_empty ≡ none
    → first_where (same_blueprint (magazine_of primary v)) v.slots ≡ none
    → UnloadFacts primary v true (unload_into none none primary v).1
unfolding unload_into
into_nothing true v h e f = record {
  succeeds = refl;
  shelved = record {
    slot_count = h.slot_count;
    slots_clean = h.slots_clean;
    knows_first_empty = h.knows_first_empty;
  };
  same_gear = record {
    same_primary = refl;
    same_secondary = refl;
    same_armor = refl;
    same_magazine = refl;
  };
  emptied = refl;
  moved_or_lost = λ b pos. inr (refl, e, f);
}
into_nothing false v h e f = record {
  succeeds = refl;
  shelved = record {
    slot_count = h.slot_count;
    slots_clean = h.slots_clean;
    knows_first_empty = h.knows_first_empty;
  };
  same_gear = record {
    same_primary = refl;
    same_secondary = refl;
    same_armor = refl;
    same_magazine = refl;
  };
  emptied = refl;
  moved_or_lost = λ b pos. inr (refl, e, f);
}

into_free :
    (primary : Bool) (v : PlayerInventory) (o : Option ℕ)
    → IsShelved v
    → IsClean (magazine_of primary v)
    → v.first_empty ≡ o
    → first_where (same_blueprint (magazine_of primary v)) v.slots ≡ none
    → UnloadFacts primary v true (unload_into none o primary v).1
into_free primary v none h c g f = into_nothing primary v h g f
into_free primary v (some i) h c g f =
    let at = first_where-some is_empty v.slots i (sym h.knows_first_empty ∙ g) in
    into_empty primary v i h c at.0 at.1

pub unload_facts :
    (primary : Bool) (v : PlayerInventory)
    → IsShelved v
    → IsClean (magazine_of primary v)
    → UnloadFacts primary v (unload_magazine primary v).0 (unload_magazine primary v).2
unfolding unload_magazine
unload_facts primary v h c =
    let m = magazine_of primary v in
    elim (Bool-cases (is_empty m)) [
      | inl e ↦ rw e record {
        succeeds = refl;
        shelved = h;
        same_gear = record {
          same_primary = refl;
          same_secondary = refl;
          same_armor = refl;
          same_magazine = refl;
        };
        emptied = e;
        moved_or_lost = λ b pos. inl (ground arith);
      }
      | inr e ↦ rw e (elim (Option-cases (first_where (same_blueprint m) v.slots)) [
        | inl f ↦ rw f (into_free primary v v.first_empty h c refl f)
        | inr (i, f) ↦
            (let at = first_where-some (same_blueprint m) v.slots i f in
              rw f (into_stack primary v i v.first_empty h at.0 at.1))
      ])
    ]
