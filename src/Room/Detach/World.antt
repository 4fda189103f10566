-- ===== src/Room/Detach/World.antt =====
-- What `DetachPlayer` does to the objects of the room.
use extraction_server.Prelude.{
  ℕ, ◌≡◌, refl, ap, ◌∙◌, ◌==◌, ==_refl, if◌then◌else◌, Bool, true, false, Option, none, some, [],
  ◌∷◌, ◌++◌, arith, lookup, emplace, lookup-erase, Bool-cases, Option-cases, inl, inr, All,
  All-append,
}
use extraction_server.Prelude.Int.{pos}
use extraction_server.Objects.Combat.{CombatObject}
use extraction_server.Objects.Npc.{is_authority, release_authority}
use extraction_server.Inventory.Player.{PlayerInventory}
use extraction_server.Inventory.Box.{Box, player_loot}
use extraction_server.Session.Leave.{is_dead, detach_leave}
use extraction_server.Room.{
  Notice, Seat, GameObject, container, hostile_npc, scenery, Objects, GameRoom, broadcast,
  find_player_object,
}
use extraction_server.Room.Detach.{
  update_seat, release_npc, notify, release_npcs, release_npc_authority, spawn_dynamic_object,
  spawn_player_loot_container, leave_loot, remove_player, remove_found, remove_object, end_detach,
  detach_player, report, loses_items,
}

-- Is the object an NPC that the player's client drives?
abbrev pub is_driven : ℕ → GameObject → Bool
is_driven player (hostile_npc n body) = is_authority (pos player) n
is_driven player _ = false

abbrev pub Free : ℕ → ℕ × GameObject → Type 0
Free player e = is_driven player e.1 ≡ false

release_npc-Free : (player id : ℕ) (o : GameObject) → Free player (id, (release_npc player id o).1)
unfolding release_npc release_authority
release_npc-Free player id (container b) = refl
release_npc-Free player id scenery = refl
release_npc-Free player id (hostile_npc n body) = ground arith

notify-dynamic :
    (n : Option Notice) (r : GameRoom) → (notify n r).dynamic_objects ≡ r.dynamic_objects
unfolding notify broadcast
notify-dynamic none r = refl
notify-dynamic (some n) r = refl

release_npcs-Free :
    (player : ℕ) (done todo : Objects) (r : GameRoom)
    → All (Free player) done
    → All (Free player) (release_npcs player done todo r).dynamic_objects
unfolding release_npcs
release_npcs-Free player done [] r h = h
release_npcs-Free player done ((id, o) ∷ todo) r h =
    release_npcs-Free player (done ++ (id, (release_npc player id o).1) ∷ []) todo _ (
      All-append (Free player) done ((id, (release_npc player id o).1) ∷ []) h
        (release_npc-Free player id o, tt))

emplace-Free :
    (player id : ℕ) (o : GameObject) (m : Objects)
    → is_driven player o ≡ false
    → All (Free player) m
    → All (Free player) (emplace id o m)
unfolding emplace
emplace-Free player id o [] f h = (f, tt)
emplace-Free player id o ((j, w) ∷ m) f h = elim (Bool-cases (j == id)) [
  | inl e ↦ rw e h
  | inr e ↦ rw e (h.0, emplace-Free player id o m f h.1)
]

spawn-Free :
    (player id : ℕ) (b : Box) (r : GameRoom)
    → All (Free player) r.dynamic_objects
    → All (Free player) (spawn_dynamic_object id (container b) r).dynamic_objects
unfolding spawn_dynamic_object broadcast
spawn-Free player id b r h = elim (Option-cases (lookup id r.dynamic_objects)) [
  | inl e ↦ rw (e, spawn_dynamic_object) (emplace-Free player id (container b) _ refl h)
  | inr (o, e) ↦ rw (e, spawn_dynamic_object) h
]

loot-Free :
    (player id : ℕ) (lost : Bool) (body : CombatObject) (v : PlayerInventory) (r : GameRoom)
    → All (Free player) r.dynamic_objects
    → All (Free player) (if lost then leave_loot id body v r else r).dynamic_objects
unfolding leave_loot spawn_player_loot_container broadcast
loot-Free player id true body v r h = spawn-Free player r.nxt_object_id (player_loot v) _ h
loot-Free player id false body v r h = h

pub strip-dynamic :
    (b : Bool) (k : ℕ) (f : Seat → Seat) (r : GameRoom)
    → (if b then update_seat k f r else r).dynamic_objects ≡ r.dynamic_objects
strip-dynamic true k f r = refl
strip-dynamic false k f r = refl

remove_found-Free :
    (player k : ℕ) (s : Seat) (id : ℕ) (o : Option CombatObject) (r : GameRoom)
    → All (Free player) r.dynamic_objects
    → All (Free player) (remove_found k s id o r).dynamic_objects
unfolding remove_found remove_player broadcast
remove_found-Free player k s id none r h = h
remove_found-Free player k s id (some body) r h =
    rw
      (strip-dynamic (loses_items s.leave.leave_reason) k _
        (if is_dead s.leave.leave_reason then leave_loot id body s.inventory r else r))
      (loot-Free player id (is_dead s.leave.leave_reason) body s.inventory r h)

remove_found-gone :
    (k : ℕ) (s : Seat) (id : ℕ) (o : Option CombatObject) (r : GameRoom)
    → find_player_object id r ≡ o
    → lookup id (remove_found k s id o r).player_objects ≡ none
unfolding remove_found remove_player broadcast find_player_object
remove_found-gone k s id none r h = h
remove_found-gone k s id (some body) r h = rw (lookup-erase id id, ==_refl id) refl

report-objects :
    (b : Bool) (k : ℕ) (s : Seat) (r : GameRoom)
    → ((report b k s r).dynamic_objects ≡ r.dynamic_objects)
      × ((report b k s r).player_objects ≡ r.player_objects)
report-objects true k s r = (refl, refl)
report-objects false k s r = (refl, refl)

pub end_detach-objects :
    (k : ℕ) (s : Seat) (r : GameRoom)
    → ((end_detach k s r).dynamic_objects ≡ r.dynamic_objects)
      × ((end_detach k s r).player_objects ≡ r.player_objects)
unfolding end_detach
end_detach-objects k s r = report-objects (detach_leave s.leave).0 k s _

-- The same for the two steps before it.
cleared :
    (k id : ℕ) (s : Seat) (o : Option ℕ) (r : GameRoom)
    → o ≡ some id
    → let r' = remove_object k s o (release_npc_authority o r) in
      (lookup id r'.player_objects ≡ none) × All (Free id) r'.dynamic_objects
unfolding remove_object release_npc_authority
cleared k id s o r h =
    let free = release_npc_authority (some id) r in
    rw h (
      (
        remove_found-gone k s id (find_player_object id free) free refl,
        remove_found-Free id k s id (find_player_object id free) free
            (release_npcs-Free id [] r.dynamic_objects r tt),
      ))

-- A player that leaves, for any reason, is gone from the room: the room has no player object of its id
-- any more, and none of its NPCs is driven by its client.
pub detach_player-gone :
    (k id : ℕ) (s : Seat) (r : GameRoom)
    → s.object_id ≡ some id
    → (lookup id (detach_player k s r).player_objects ≡ none)
      × All (Free id) (detach_player k s r).dynamic_objects
unfolding detach_player
detach_player-gone k id s r h =
    let (same, kept) = end_detach-objects k s _ in
    let (gone, free) = cleared k id s s.object_id _ h in (ap (lookup id) kept ∙ gone, rw same free)
