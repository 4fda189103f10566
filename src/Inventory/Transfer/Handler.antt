-- ===== src/Inventory/Transfer/Handler.antt =====
-- The whole handler of a transfer.
use extraction_server.Prelude.{
  ℕ, ◌<◌, ◌≡◌, refl, ◌==◌, Bool, true, false, not, ◌||◌, Option, none, some, length, arith, ap, ◌∙◌,
  leb,
}
use extraction_server.Prelude.Words.{add32}
use extraction_server.Inventory.Slots.{Slot, is_empty, count, AllClean}
use extraction_server.Inventory.Denials.{
  ok, ensure, require, >>=-ok, ensure-ok, require-ok, ok-injective, server_internal, slot_empty,
}
use extraction_server.Inventory.Player.{PlayerInventory, update_first_empty}
use extraction_server.Inventory.Player.Invariant.{IsSound, IsValid}
use extraction_server.Inventory.Player.Reload.{holdings}
use extraction_server.Inventory.Box.{Box}
use extraction_server.Inventory.Transfer.{
  Request, View, find_container, Place, mine, theirs, resolve, interact, Store, read, write,
  transfer, respond, handle, player_sentinel, same_place, finish,
}
use extraction_server.Inventory.Transfer.Conserve.{
  interact-Moved, box_total, store_total, BoxClean, PlaceIn, box_slots, write-Written, write_other,
  read-IsClean,
}

abbrev is_mine : Place → Bool
is_mine (mine i) = true
is_mine (theirs i) = false

write_theirs : (p : Place) (s : Slot) (t : Store) → is_mine p ≡ false → (write p s t).0 ≡ t.0
unfolding write
write_theirs (mine i) s t e = ground arith
write_theirs (theirs i) s t e = refl

record Kept (t t' : Store) : Type 0 where
  pub valid : IsValid t'.0
  pub box_clean : BoxClean t'.1
  pub counts : (b : ℕ) → 0 < b → store_total b t' ≡ store_total b t

finish_total : (b : ℕ) (sm em : Bool) (t : Store) → store_total b (finish sm em t) ≡ store_total b t
unfolding finish store_total holdings box_total update_first_empty
finish_total b true true (v, c) = refl
finish_total b true false (v, none) = refl
finish_total b true false (v, some c) = refl
finish_total b false true (v, none) = refl
finish_total b false true (v, some c) = refl
finish_total b false false (v, none) = refl
finish_total b false false (v, some c) = refl

finish_clean : (sm em : Bool) (t : Store) → BoxClean t.1 → BoxClean (finish sm em t).1
unfolding finish BoxClean
finish_clean true true (v, c) h = h
finish_clean true false (v, none) h = h
finish_clean true false (v, some c) h = h
finish_clean false true (v, none) h = h
finish_clean false true (v, some c) h = h
finish_clean false false (v, none) h = h
finish_clean false false (v, some c) h = h

new_slots :
    (v v' : PlayerInventory)
    → IsSound v
    → AllClean v'.slots
    → length v'.slots ≡ length v.slots
    → v' ≡ record v { slots = v'.slots }
    → IsSound v'
new_slots v v' h d n e = rw e record {
  slot_count = n ∙ h.slot_count;
  slots_clean = d;
  primary_armed = h.primary_armed;
  secondary_armed = h.secondary_armed;
  armor_clean = h.armor_clean;
}

resound :
    (v : PlayerInventory)
    → IsSound v
    → (n : ℕ) → IsSound (record (update_first_empty v) { version = add32 n 1 })
unfolding update_first_empty
resound v h n = record {
  slot_count = h.slot_count;
  slots_clean = h.slots_clean;
  primary_armed = h.primary_armed;
  secondary_armed = h.secondary_armed;
  armor_clean = h.armor_clean;
}

-- The end of a transfer makes the inventory valid again if it was the player's own.
finish-IsValid :
    (sm em : Bool) (v : PlayerInventory) (t : Store)
    → IsValid v
    → AllClean t.0.slots
    → length t.0.slots ≡ length v.slots
    → t.0 ≡ record v { slots = t.0.slots }
    → (sm || em ≡ false → t.0 ≡ v)
    → IsValid (finish sm em t).0
unfolding finish update_first_empty
finish-IsValid true em v (v', c) h d n e k = record {
  sound = resound v' (new_slots v v' h.sound d n e) v'.version;
  knows_first_empty = refl;
}
finish-IsValid false true v (v', c) h d n e k = record {
  sound = resound v' (new_slots v v' h.sound d n e) v'.version;
  knows_first_empty = refl;
}
finish-IsValid false false v (v', c) h d n e k = rw (k refl) h

transfer-Kept :
    (q : Request) (from to : Place) (t t' : Store)
    → is_mine from ≡ (q.start_object_id == player_sentinel)
    → is_mine to ≡ (q.end_object_id == player_sentinel)
    → PlaceIn from t
    → PlaceIn to t
    → IsValid t.0
    → BoxClean t.1
    → transfer q from to t ≡ ok t'
    → Kept t t'
unfolding transfer
transfer-Kept q from to t t' mf mt pf pt h d e =
    let (u1, e1, r1) = >>=-ok (ensure (not (same_place from to)) server_internal) _ t' e in
    let (u2, e2, r2) = >>=-ok (ensure (not (is_empty (read from t))) slot_empty) _ t' r1 in
    let (slots, e3, r3) =
      >>=-ok (interact q.interact_type q.quantity (read from t) (read to t)) _ t' r2 in
    let differ = ensure-ok (not (same_place from to)) server_internal u1 e1 in
    let full = ensure-ok (not (is_empty (read from t))) slot_empty u2 e2 in
    let c = h.sound.slots_clean in
    let moved =
      interact-Moved q.interact_type q.quantity (read from t) (read to t) slots
        (read-IsClean from t c d) (read-IsClean to t c d) (ground arith) e3 in
    let w1 = write-Written from slots.0 t pf c d moved.start_clean in
    let (same, pt') = write_other from to slots.0 t (ground arith) pt in
    let w2 =
      write-Written to slots.1 (write from slots.0 t) pt' w1.inventory_clean w1.box_clean
        moved.end_clean in
    let t2 = write to slots.1 (write from slots.0 t) in
    let sm = q.start_object_id == player_sentinel in
    let em = q.end_object_id == player_sentinel in
    let result = ok-injective (finish sm em t2) t' r3 in
    let valid =
      finish-IsValid sm em t.0 t2 h w2.inventory_clean (w2.same_length ∙ w1.same_length)
        (w2.slots_only
          ∙ ap {A = PlayerInventory} (λ x. record x { slots = t2.0.slots }) w1.slots_only)
        (λ none_mine.
          write_theirs to slots.1 (write from slots.0 t) (ground arith)
          ∙ write_theirs from slots.0 t (ground arith)) in
    rw (← result) record {
      valid = valid;
      box_clean = finish_clean sm em t2 w2.box_clean;
      counts = λ b pos. omega (
        arith,
        finish_total b sm em t2,
        w2.counts b,
        w1.counts b,
        moved.counts b pos,
        ap (count b) same,
      );
    }

resolve_facts :
    (opened : Option (ℕ × Box)) (v : PlayerInventory) (object seen i : ℕ) (p : Place)
    → length v.slots ≡ 25
    → resolve opened v object seen i ≡ ok (some p)
    → (is_mine p ≡ (object == player_sentinel)) × PlaceIn p (v, opened)
unfolding resolve PlaceIn box_slots
resolve_facts none v object seen i p n h = ground arith
resolve_facts (some (id, c)) v object seen i p n h = ground arith

found :
    (w : View) (q : Request) (id : ℕ) (box : Box)
    → find_container w q ≡ ok (some (id, box))
    → w.object ≡ some (some box)
unfolding find_container
found w q id box e = ground arith

find_clean :
    (w : View) (q : Request) (opened : Option (ℕ × Box))
    → ((box : Box) → w.object ≡ some (some box) → AllClean box.slots)
    → find_container w q ≡ ok opened
    → BoxClean opened
unfolding find_container BoxClean
find_clean w q none d e = tt
find_clean w q (some (id, box)) d e = d box (found w q id box e)

-- When the handler accepts a request of a player with a valid inventory, and the container that is
-- open has clean slots, then the inventory stays valid and the container clean, and of every kind of
-- item the two hold together as many as before.
pub handle-conserves :
    (w : View) (q : Request) (v : PlayerInventory) (t : Store) (b : ℕ)
    → IsValid v
    → ((box : Box) → w.object ≡ some (some box) → AllClean box.slots)
    → 0 < b
    → handle w q v ≡ some (ok t)
    → IsValid t.0
      × BoxClean t.1
      × ((opened : Option (ℕ × Box)) × (find_container w q ≡ ok opened)
          × (store_total b t ≡ store_total b (v, opened)))
unfolding handle respond
handle-conserves w q v t b h d pos e =
    let e0 : (respond w q v ≡ ok t) = ground arith in
    let (u, e1, r1) = >>=-ok (ensure (leb q.interact_type 2) server_internal) _ t e0 in
    let (opened, e2, r2) = >>=-ok (find_container w q) _ t r1 in
    let (start, e3, r3) =
      >>=-ok (resolve opened v q.start_object_id q.start_version q.start_slot_idx) _ t r2 in
    let (end, e4, r4) =
      >>=-ok (resolve opened v q.end_object_id q.end_version q.end_slot_idx) _ t r3 in
    let (from, e5, r5) = >>=-ok (require start server_internal) _ t r4 in
    let (to, e6, r6) = >>=-ok (require end server_internal) _ t r5 in
    let (mf, pf) =
      resolve_facts opened v q.start_object_id q.start_version q.start_slot_idx from
        h.sound.slot_count (e3 ∙ ap ok (require-ok start server_internal from e5)) in
    let (mt, pt) =
      resolve_facts opened v q.end_object_id q.end_version q.end_slot_idx to h.sound.slot_count
        (e4 ∙ ap ok (require-ok end server_internal to e6)) in
    let k = transfer-Kept q from to (v, opened) t mf mt pf pt h (find_clean w q opened d e2) r6 in
    (k.valid, k.box_clean, (opened, e2, k.counts b pos))
