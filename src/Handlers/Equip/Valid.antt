-- ===== src/Handlers/Equip/Valid.antt =====
-- What an accepted equipment request leaves.
use extraction_server.Prelude.{
  ℕ, leb, ltb, ◌==◌, ◌<◌, ◌≡◌, ◌⊎◌, inl, inr, if◌then◌else◌, Option, none, some, length, arith,
  get_or, All-set, All-get_or, ap, ◌∙◌, sym, Bool-cases, ltb→lt,
}
use extraction_server.Inventory.Slots.{Slot, no_slot, IsClean, AllClean}
use extraction_server.Inventory.Denials.{
  Deny, version_mismatch, server_internal, container_not_open, out_of_range, ok, ensure, require,
  >>=-ok, ensure-ok, require-ok, ok-injective,
}
use extraction_server.Inventory.Player.{PlayerInventory, SlotRef, own, outside}
use extraction_server.Inventory.Player.Invariant.{IsValid}
use extraction_server.Inventory.Player.Unload.{no_slot-IsClean}
use extraction_server.Inventory.Player.Gear.{
  Outcome, Answer, refused, done, equip_weapon, unequip_weapon, equip_armor, unequip_armor,
}
use extraction_server.Inventory.Player.Gear.Moves.{InRange}
use extraction_server.Inventory.Player.Gear.Equip.{equip_weapon_lem}
use extraction_server.Inventory.Player.Gear.Armor.{equip_armor_lem, unequip_armor_lem}
use extraction_server.Inventory.Player.Gear.Unequip.{choose, unequip_weapon_lem}
use extraction_server.Inventory.Box.{Box}
use extraction_server.Inventory.Transfer.{View, player_sentinel}
use extraction_server.Inventory.Transfer.Conserve.{BoxClean}
use extraction_server.Handlers.Equip.{
  EquipRequest, Source, find_source, find_own, find_outside, operate, Body, Equipped, conclude,
  put_back, equip_item,
}

-- The four operations alike: refused, or done with a valid inventory and a clean slot outside.
abbrev Good : Outcome → Type 0
Good r = ((d : Deny) × (r.0 ≡ refused d)) ⊎ (IsValid r.1 × IsClean r.2)

operate-Good :
    (q : EquipRequest) (ref : SlotRef) (v : PlayerInventory) (out : Slot)
    → InRange ref
    → IsValid v
    → IsClean out
    → Good (operate q ref v out)
unfolding operate
operate-Good q ref v out small h c =
    let primary = q.equipment_slot_type == 0 in
    let a : Good (equip_weapon ref primary v out) =
      elim (equip_weapon_lem ref primary v out small h c) [
        | inl (d, e, n) ↦ inl (d, ap (λ r. r.0) e)
        | inr f ↦ inr (f.valid, f.out_clean)
      ] in
    let b : Good (equip_armor ref v out) = elim (equip_armor_lem ref v out small h c) [
      | inl (d, e) ↦ inl (d, ap (λ r. r.0) e)
      | inr f ↦ inr (f.valid, f.out_clean)
    ] in
    let x : Good (unequip_weapon ref primary v out) =
      elim (unequip_weapon_lem ref primary v out small h c) [
        | inl (d, e) ↦ inl (d, ap (λ r. r.0) e)
        | inr f ↦ inr (f.valid, f.out_clean)
      ] in
    let y : Good (unequip_armor ref v out) = elim (unequip_armor_lem ref v out small h c) [
      | inl (d, e) ↦ inl (d, ap (λ r. r.0) e)
      | inr f ↦ inr (f.valid, f.out_clean)
    ] in
    choose (q.action_type == 0) Good
      (λ e. choose (leb q.equipment_slot_type 1) Good (λ f. a) (λ f. b))
      (λ e. choose (leb q.equipment_slot_type 1) Good (λ f. x) (λ f. y))

record SourceFacts (w : View) (s : Source) : Type 0 where
  pub in_range : InRange s.ref
  pub out_clean : IsClean s.out
  pub box_clean : BoxClean s.box

facts_of :
    (w : View) (s : Source) (box : Option (ℕ × Box)) (ref : SlotRef) (out : Slot)
    → s ≡ record { box = box; ref = ref; out = out }
    → InRange ref
    → IsClean out
    → BoxClean box
    → SourceFacts w s
facts_of w s box ref out e i c d = rw e record { in_range = i; out_clean = c; box_clean = d }

-- A source is a slot of the player's, or one of the room's open container.
data Origin (w : View) (q : EquipRequest) (s : Source) : Type 0 where
  from_own :
      q.object_slot_idx < 25
      → s ≡ record { box = none; ref = own q.object_slot_idx; out = no_slot }
      → Origin w q s
  from_outside :
      (id : ℕ) (box : Box)
      → w.object ≡ some (some box)
      → s ≡ record {
        box = some (id, box);
        ref = outside;
        out = get_or box.slots q.object_slot_idx no_slot;
      }
      → Origin w q s

own-Origin :
    (w : View) (q : EquipRequest) (v : PlayerInventory) (s : Source)
    → find_own q v ≡ ok s
    → Origin w q s
unfolding find_own
own-Origin w q v s e =
    let (u1, e1, r1) = >>=-ok (ensure (q.object_version == v.version) version_mismatch) _ s e in
    let (u2, e2, r2) = >>=-ok (ensure (ltb q.object_slot_idx 25) server_internal) _ s r1 in
    from_own (ltb→lt q.object_slot_idx 25 (ensure-ok _ server_internal u2 e2))
      (sym (ok-injective _ s r2))

outside-Origin :
    (w : View) (q : EquipRequest) (v : PlayerInventory) (s : Source)
    → find_outside w q v ≡ ok s
    → Origin w q s
unfolding find_outside
outside-Origin w q v s e =
    let (id, e1, r1) = >>=-ok (require w.interacting_container container_not_open) _ s e in
    let (u2, e2, r2) = >>=-ok (ensure (q.object_id == id) container_not_open) _ s r1 in
    let (u3, e3, r3) = >>=-ok (ensure w.in_room server_internal) _ s r2 in
    let (object, e4, r4) = >>=-ok (require w.object server_internal) _ s r3 in
    let (box, e5, r5) = >>=-ok (require object server_internal) _ s r4 in
    let (u6, e6, r6) = >>=-ok (ensure w.has_player_object server_internal) _ s r5 in
    let (u7, e7, r7) = >>=-ok (ensure w.near out_of_range) _ s r6 in
    let (u8, e8, r8) = >>=-ok (ensure (q.object_version == box.version) version_mismatch) _ s r7 in
    let (u9, e9, r9) =
      >>=-ok (ensure (ltb q.object_slot_idx (length box.slots)) server_internal) _ s r8 in
    let (u10, e10, r10) = >>=-ok (ensure (q.my_version == v.version) version_mismatch) _ s r9 in
    from_outside id box
      (require-ok w.object server_internal object e4
        ∙ ap some (require-ok object server_internal box e5))
      (sym (ok-injective _ s r10))

origin :
    (w : View) (q : EquipRequest) (v : PlayerInventory) (s : Source)
    → find_source w q v ≡ ok s
    → Origin w q s
unfolding find_source
origin w q v s e = elim (Bool-cases (q.object_id == player_sentinel)) [
  | inl f ↦
      own-Origin w q v s (sym (ap (λ t. if t then find_own q v else find_outside w q v) f) ∙ e)
  | inr f ↦
      outside-Origin w q v s (sym (ap (λ t. if t then find_own q v else find_outside w q v) f) ∙ e)
]

source_facts :
    (w : View) (q : EquipRequest) (s : Source)
    → ((box : Box) → w.object ≡ some (some box) → AllClean box.slots)
    → Origin w q s
    → SourceFacts w s
unfolding BoxClean
source_facts w q s d (from_own i e) =
    facts_of w s none (own q.object_slot_idx) no_slot e i no_slot-IsClean tt
source_facts w q s d (from_outside id box o e) =
    facts_of w s (some (id, box)) outside (get_or box.slots q.object_slot_idx no_slot) e tt
      (All-get_or IsClean box.slots q.object_slot_idx no_slot (d box o) no_slot-IsClean) (d box o)

put_back-clean :
    (i : ℕ) (s : Slot) (box : Option (ℕ × Box))
    → BoxClean box
    → IsClean s
    → BoxClean (put_back i s box)
unfolding put_back BoxClean
put_back-clean i s none c d = tt
put_back-clean i s (some (id, box)) c d = All-set IsClean box.slots i s c d

conclude_facts :
    (q : EquipRequest) (s : Source) (body : Body) (a : Answer) (v : PlayerInventory) (out : Slot)
    (x : Equipped)
    → BoxClean s.box
    → Good (a, v, out)
    → conclude q s body a v out ≡ ok x
    → IsValid x.inventory × BoxClean x.box
unfolding conclude
conclude_facts q s body (refused d) v out x c g e = absurd (ground arith)
conclude_facts q s body (done at) v out x c (inl (d, n)) e = absurd (ground arith)
conclude_facts q s body (done at) v out x c (inr (valid, clean)) e =
    rw (← (ok-injective _ x e)) (valid, put_back-clean q.object_slot_idx out s.box c clean)

-- When an equipment request of a player with a valid inventory is accepted, and the container that is
-- open has clean slots, then the inventory stays valid and the container clean.
pub equip_item-IsValid :
    (w : View) (q : EquipRequest) (v : PlayerInventory) (body : Body) (x : Equipped)
    → IsValid v
    → ((box : Box) → w.object ≡ some (some box) → AllClean box.slots)
    → equip_item w q v body ≡ ok x
    → IsValid x.inventory × BoxClean x.box
unfolding equip_item
equip_item-IsValid w q v body x h d e =
    let (u1, e1, r1) = >>=-ok (ensure (leb q.action_type 1) server_internal) _ x e in
    let (u2, e2, r2) = >>=-ok (ensure (leb q.equipment_slot_type 2) server_internal) _ x r1 in
    let (s, e3, r3) = >>=-ok (find_source w q v) _ x r2 in
    let f = source_facts w q s d (origin w q v s e3) in
    let r = operate q s.ref v s.out in
    conclude_facts q s body r.0 r.1 r.2 x f.box_clean
      (operate-Good q s.ref v s.out f.in_range h f.out_clean) r3
