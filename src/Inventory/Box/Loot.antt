-- ===== src/Inventory/Box/Loot.antt =====
-- The loot container of a dead player (PlayerLootContainer.h), item by item.
use extraction_server.Prelude.{
  ℕ, ◌+◌, ◌≤◌, ◌<◌, ◌≡◌, refl, true, false, List, [], ◌∷◌, length, arith, get_or, set, length-set,
  get_or-set_ne, Bool-cases, zero, suc, inl, inr, ap, ◌∙◌,
}
use extraction_server.Inventory.Slots.{
  Slot, no_slot, is_empty, count, total, total-set, IsClean, AllClean,
}
use extraction_server.Inventory.Player.{PlayerInventory}
use extraction_server.Inventory.Player.Invariant.{IsValid}
use extraction_server.Inventory.Player.Reload.{holdings}
use extraction_server.Inventory.Player.Gear.Moves.{empty_count}
use extraction_server.Inventory.Box.{
  Box, place_item, place_all, possessions, fill_from, initialize_slots, player_loot, numbered,
}

-- From an index on, the slots are empty.
EmptyFrom : ℕ → List Slot → Type 0
EmptyFrom n ss = (i : ℕ) → n ≤ i → is_empty (get_or ss i no_slot) ≡ true

abbrev filled : ℕ → Slot → List Slot → List Slot
filled n s ss = set ss n (record (get_or ss n no_slot) { item = s.item; quantity = s.quantity })

place_item-slots :
    (n : ℕ) (s : Slot) (c : Box)
    → n < length c.slots
    → IsClean s
    → is_empty s ≡ false
    → (place_item n s c).1.slots ≡ filled n s c.slots
unfolding place_item
place_item-slots n s c small d e = ground arith

filled-total :
    (b n : ℕ) (s : Slot) (ss : List Slot)
    → 0 < b
    → n < length ss
    → is_empty (get_or ss n no_slot) ≡ true
    → total b (filled n s ss) ≡ total b ss + count b s
filled-total b n s ss pos small e =
    let t =
      total-set b ss n (record (get_or ss n no_slot) { item = s.item; quantity = s.quantity })
        small in
    ground arith

filled-EmptyFrom :
    (n : ℕ) (s : Slot) (ss : List Slot) → EmptyFrom n ss → EmptyFrom (n + 1) (filled n s ss)
unfolding EmptyFrom
filled-EmptyFrom n s ss e = λ i h.
    rw
      (get_or-set_ne ss n i (record (get_or ss n no_slot) { item = s.item; quantity = s.quantity })
        no_slot (omega arith))
      (e i (omega arith))

place_all-skip :
    (n : ℕ) (s : Slot) (given : List Slot) (c : Box)
    → is_empty s ≡ true
    → place_all n (s ∷ given) c ≡ place_all n given c
unfolding place_all
place_all-skip n s given c e = rw e refl

place_all-put :
    (n : ℕ) (s : Slot) (given : List Slot) (c : Box)
    → is_empty s ≡ false
    → place_all n (s ∷ given) c ≡ place_all (n + 1) given (place_item n s c).1
unfolding place_all
place_all-put n s given c e = rw e refl

free : (n : ℕ) (ss : List Slot) → EmptyFrom n ss → is_empty (get_or ss n no_slot) ≡ true
unfolding EmptyFrom
free n ss e = e n (omega arith)

numbered_free : (i n k : ℕ) → is_empty (get_or (numbered i n) k no_slot) ≡ true
unfolding numbered
numbered_free i zero k = refl
numbered_free i (suc n) zero = refl
numbered_free i (suc n) (suc k) = numbered_free (i + 1) n k

numbered_empty : (i n : ℕ) → EmptyFrom 0 (numbered i n)
unfolding EmptyFrom
numbered_empty i n = λ k h. numbered_free i n k

numbered-total : (b i n : ℕ) → total b (numbered i n) ≡ 0
unfolding numbered total
numbered-total b i zero = refl
numbered-total b i (suc n) = ground (arith, numbered-total b (i + 1) n)

numbered-length : (i n : ℕ) → length (numbered i n) ≡ n
unfolding numbered
numbered-length i zero = refl
numbered-length i (suc n) = ap suc (numbered-length (i + 1) n)

-- Placing a row of clean slots into a container that is empty from an index on, with room for them,
-- adds up.
place_all-total :
    (n b : ℕ) (given : List Slot) (c : Box)
    → 0 < b
    → AllClean given
    → n + length given ≤ length c.slots
    → EmptyFrom n c.slots
    → total b (place_all n given c).slots ≡ total b c.slots + total b given
unfolding total place_all
place_all-total n b [] c pos d r e = omega arith
place_all-total n b (s ∷ given) c pos d r e = elim (Bool-cases (is_empty s)) [
  | inl f ↦ omega (
    arith,
    ap (λ x. total b x.slots) (place_all-skip n s given c f),
    place_all-total n b given c pos d.1 (omega arith) e,
    empty_count b s pos f,
  )
  | inr f ↦
      (let p = place_item-slots n s c (omega arith) d.0 f in
        let len =
          ap length p
          ∙ length-set c.slots n
              (record (get_or c.slots n no_slot) { item = s.item; quantity = s.quantity }) in
        omega (
          arith,
          ap (λ x. total b x.slots) (place_all-put n s given c f),
          place_all-total (n + 1) b given (place_item n s c).1 pos d.1 (omega (arith, len))
              (rw p (filled-EmptyFrom n s c.slots e)),
          ap (total b) p,
          filled-total b n s c.slots pos (omega arith) (free n c.slots e),
        ))
]

add_up :
    (b : ℕ) (v : PlayerInventory)
    → total b (numbered 0 30) ≡ 0
    → total b (numbered 0 30) + total b (possessions v) ≡ holdings b v
unfolding holdings total
add_up b v e = omega (arith, e)

-- A player that dies with a valid inventory leaves all of it: of every kind of item, the loot
-- container holds as many as the player held.
pub player_loot-total :
    (v : PlayerInventory) (b : ℕ) → IsValid v → 0 < b → total b (player_loot v).slots ≡ holdings b v
unfolding player_loot fill_from initialize_slots
player_loot-total v b h pos =
    let s = h.sound in
    place_all-total 0 b (possessions v) (initialize_slots 30) pos
      (
        s.primary_armed.weapon_clean,
        (
          s.primary_armed.magazine_clean,
          (
            s.secondary_armed.weapon_clean,
            (s.secondary_armed.magazine_clean, (s.armor_clean, s.slots_clean)),
          ),
        ),
      )
      (omega (arith, s.slot_count, numbered-length 0 30)) (numbered_empty 0 30)
    ∙ add_up b v (numbered-total b 0 30)
