-- ===== src/Room/Detach/Flags.antt =====
-- `DetachPlayer` leaves alone what `CheckAllLeft` of src/DedicateProcess/GameRoom.cpp reads and writes.
use extraction_server.Prelude.{
  ℕ, ◌≡◌, refl, ◌∙◌, if◌then◌else◌, Bool, true, false, Option, none, some, [], ◌∷◌, lookup,
  Option-cases, inl, inr,
}
use extraction_server.Objects.Combat.{CombatObject}
use extraction_server.Inventory.Player.{PlayerInventory}
use extraction_server.Session.Leave.{detach_leave, is_dead}
use extraction_server.Room.{
  Notice, Seat, GameObject, Objects, GameRoom, broadcast, find_player_object,
}
use extraction_server.Room.Detach.{
  vacate_container, release_container, release_npc, notify, release_npcs, release_npc_authority,
  spawn_dynamic_object, spawn_player_loot_container, leave_loot, loses_items, remove_player,
  remove_found, remove_object, report, end_detach, detach_player,
}

-- Whether the end of the room was reported, and how often its destruction was reserved.
abbrev pub flags : GameRoom → Bool × ℕ
flags r = (r.all_left_reported, r.destroy_reserved)

pub flags-if :
    (b : Bool) (x y r : GameRoom)
    → flags x ≡ flags r
    → flags y ≡ flags r
    → flags (if b then x else y) ≡ flags r
flags-if true x y r p q = p
flags-if false x y r p q = q

flags-vacate_container :
    (c player : Option ℕ) (r : GameRoom) → flags (vacate_container c player r) ≡ flags r
unfolding vacate_container
flags-vacate_container none player r = refl
flags-vacate_container (some c) player r = elim (Option-cases (lookup c r.static_objects)) [
  | inl e ↦ rw (e, vacate_container) refl
  | inr (o, e) ↦ rw (e, vacate_container) refl
]

flags-notify : (n : Option Notice) (r : GameRoom) → flags (notify n r) ≡ flags r
unfolding notify broadcast
flags-notify none r = refl
flags-notify (some n) r = refl

flags-release_npcs :
    (player : ℕ) (todo done : Objects) (r : GameRoom)
    → flags (release_npcs player done todo r) ≡ flags r
unfolding release_npcs
flags-release_npcs player [] done r = refl
flags-release_npcs player ((id, o) ∷ todo) done r =
    flags-release_npcs player todo _ _ ∙ flags-notify (release_npc player id o).0 r

flags-release_npc_authority :
    (o : Option ℕ) (r : GameRoom) → flags (release_npc_authority o r) ≡ flags r
unfolding release_npc_authority
flags-release_npc_authority none r = refl
flags-release_npc_authority (some p) r = flags-release_npcs p r.dynamic_objects [] r

flags-spawn_dynamic_object :
    (id : ℕ) (o : GameObject) (r : GameRoom) → flags (spawn_dynamic_object id o r) ≡ flags r
unfolding broadcast spawn_dynamic_object
flags-spawn_dynamic_object id o r = elim (Option-cases (lookup id r.dynamic_objects)) [
  | inl e ↦ rw (spawn_dynamic_object, e) refl
  | inr (old, e) ↦ rw (spawn_dynamic_object, e) refl
]

flags-leave_loot :
    (id : ℕ) (body : CombatObject) (v : PlayerInventory) (r : GameRoom)
    → flags (leave_loot id body v r) ≡ flags r
unfolding leave_loot spawn_player_loot_container broadcast
flags-leave_loot id body v r = flags-spawn_dynamic_object r.nxt_object_id _ _

flags-remove_player :
    (k : ℕ) (s : Seat) (id : ℕ) (body : CombatObject) (r : GameRoom)
    → flags (remove_player k s id body r) ≡ flags r
unfolding remove_player broadcast
flags-remove_player k s id body r =
    let loot = leave_loot id body s.inventory r in
    let looted = (if is_dead s.leave.leave_reason then loot else r) in
    flags-if (loses_items s.leave.leave_reason) _ looted looted refl refl
    ∙ flags-if (is_dead s.leave.leave_reason) loot r r (flags-leave_loot id body s.inventory r) refl

flags-remove_object :
    (k : ℕ) (s : Seat) (o : Option ℕ) (r : GameRoom) → flags (remove_object k s o r) ≡ flags r
unfolding remove_object remove_found
flags-remove_object k s none r = refl
flags-remove_object k s (some id) r = elim (Option-cases (find_player_object id r)) [
  | inl e ↦ rw (e, remove_found) refl
  | inr (body, e) ↦ rw (e, remove_found) (flags-remove_player k s id body r)
]

pub flags-report : (b : Bool) (k : ℕ) (s : Seat) (r : GameRoom) → flags (report b k s r) ≡ flags r
flags-report true k s r = refl
flags-report false k s r = refl

pub flags-detach_player : (k : ℕ) (s : Seat) (r : GameRoom) → flags (detach_player k s r) ≡ flags r
unfolding detach_player end_detach release_container
flags-detach_player k s r =
    flags-report (detach_leave s.leave).0 k s _
    ∙ flags-remove_object k s s.object_id _
    ∙ flags-release_npc_authority s.object_id _
    ∙ flags-vacate_container s.interacting_container s.object_id _
