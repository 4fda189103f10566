-- ===== src/Room/Detach/Sight.antt =====
-- What the calls of `DetachPlayer` do to the sessions of a room, apart from what they send.
use extraction_server.Prelude.{
  ℕ, ◌≡◌, refl, sym, ap, ◌∙◌, ◌==◌, if◌then◌else◌, Bool, true, false, ◌&&◌, Option, none, some, [],
  ◌∷◌, ◌++◌, arith, lookup, Option-cases, Bool-cases, inl, inr,
}
use extraction_server.Prelude.Lookups.{
  map_option, keys, lookup-map_values, lookup-adjust, keys-map_values, keys-adjust,
}
use extraction_server.Objects.Combat.{CombatObject}
use extraction_server.Inventory.Player.{PlayerInventory}
use extraction_server.Session.Leave.{is_dead}
use extraction_server.Room.{
  Notice, Seat, PlayerSession, Sessions, GameObject, Objects, GameRoom, broadcast, receive,
  find_player_object,
}
use extraction_server.Inventory.Player.Gear.{clear_inventory}
use extraction_server.Room.Detach.{
  update_seat, vacate_container, release_npc, notify, release_npcs, release_npc_authority,
  spawn_dynamic_object, spawn_player_loot_container, leave_loot, remove_player, remove_found,
  remove_object, loses_items,
}

-- The fields of the session of an id.
abbrev pub view : ℕ → Sessions → Option Seat
view k ss = map_option (λ (s : PlayerSession). s.seat) (lookup k ss)

-- From one room to the next, the session of an id changes by the function, no other session changes,
-- and nothing is reported.
pub record Acts (k : ℕ) (f : Seat → Seat) (r r' : GameRoom) : Type 0 where
  pub own : view k r'.sessions ≡ map_option f (view k r.sessions)
  pub others : (j : ℕ) → (j == k) ≡ false → view j r'.sessions ≡ view j r.sessions
  pub reports : r'.left_reports ≡ r.left_reports
  pub key_list : keys r'.sessions ≡ keys r.sessions

-- The same with no change at all.
pub record Quiet (r r' : GameRoom) : Type 0 where
  pub views : (j : ℕ) → view j r'.sessions ≡ view j r.sessions
  pub no_reports : r'.left_reports ≡ r.left_reports
  pub keys_kept : keys r'.sessions ≡ keys r.sessions
  pub bodies : r'.player_objects ≡ r.player_objects

pub Quiet-refl : (r : GameRoom) → Quiet r r
Quiet-refl r = record { views = λ j. refl; no_reports = refl; keys_kept = refl; bodies = refl }

pub Quiet-trans : (r r' r'' : GameRoom) → Quiet r r' → Quiet r' r'' → Quiet r r''
Quiet-trans r r' r'' a b = record {
  views = λ j. b.views j ∙ a.views j;
  no_reports = b.no_reports ∙ a.no_reports;
  keys_kept = b.keys_kept ∙ a.keys_kept;
  bodies = b.bodies ∙ a.bodies;
}

map_option-id : {A : Type 0} (o : Option A) → map_option (λ (a : A). a) o ≡ o
map_option-id none = refl
map_option-id (some a) = refl

map_option-seat :
    (f : PlayerSession → PlayerSession) (o : Option PlayerSession)
    → ((s : PlayerSession) → (f s).seat ≡ s.seat)
    → map_option (λ (s : PlayerSession). s.seat) (map_option f o)
      ≡ map_option (λ (s : PlayerSession). s.seat) o
map_option-seat f none h = refl
map_option-seat f (some s) h = ap some (h s)

receive-seat :
    (n : Notice) (e : Option ℕ) (k : ℕ) (s : PlayerSession) → (receive n e k s).seat ≡ s.seat
unfolding receive
receive-seat n e k s = ground arith

pub broadcast-Quiet : (n : Notice) (e : Option ℕ) (r : GameRoom) → Quiet r (broadcast n e r)
unfolding broadcast
broadcast-Quiet n e r = record {
  views = λ j.
      rw (lookup-map_values (receive n e) j r.sessions)
        (map_option-seat (receive n e j) (lookup j r.sessions) (receive-seat n e j));
  no_reports = refl;
  keys_kept = keys-map_values (receive n e) r.sessions;
  bodies = refl;
}

pub vacate_container-Quiet :
    (c player : Option ℕ) (r : GameRoom) → Quiet r (vacate_container c player r)
unfolding vacate_container
vacate_container-Quiet none player r = Quiet-refl r
vacate_container-Quiet (some c) player r = elim (Option-cases (lookup c r.static_objects)) [
  | inl e ↦
      rw (e, vacate_container)
        (record { views = λ j. refl; no_reports = refl; keys_kept = refl; bodies = refl })
  | inr (o, e) ↦
      rw (e, vacate_container)
        (record { views = λ j. refl; no_reports = refl; keys_kept = refl; bodies = refl })
]

notify-Quiet : (n : Option Notice) (r : GameRoom) → Quiet r (notify n r)
unfolding notify
notify-Quiet none r = Quiet-refl r
notify-Quiet (some n) r = broadcast-Quiet n none r

release_npcs-Quiet :
    (player : ℕ) (done todo : Objects) (r : GameRoom) → Quiet r (release_npcs player done todo r)
unfolding release_npcs
release_npcs-Quiet player done [] r = record {
  views = λ j. refl;
  no_reports = refl;
  keys_kept = refl;
  bodies = refl;
}
release_npcs-Quiet player done ((id, o) ∷ todo) r =
    let n = (release_npc player id o).0 in
    Quiet-trans r (notify n r) _ (notify-Quiet n r)
      (release_npcs-Quiet player (done ++ (id, (release_npc player id o).1) ∷ []) todo (notify n r))

pub release_npc_authority-Quiet :
    (player : Option ℕ) (r : GameRoom) → Quiet r (release_npc_authority player r)
unfolding release_npc_authority
release_npc_authority-Quiet none r = Quiet-refl r
release_npc_authority-Quiet (some p) r = release_npcs-Quiet p [] r.dynamic_objects r

spawn_dynamic_object-Quiet :
    (id : ℕ) (o : GameObject) (r : GameRoom) → Quiet r (spawn_dynamic_object id o r)
unfolding spawn_dynamic_object
spawn_dynamic_object-Quiet id o r = elim (Option-cases (lookup id r.dynamic_objects)) [
  | inr (old, e) ↦ rw (e, spawn_dynamic_object) (Quiet-refl r)
  | inl e ↦
      rw (e, spawn_dynamic_object)
        (let q = broadcast-Quiet _ none _ in
          record {
            views = λ j. q.views j;
            no_reports = q.no_reports;
            keys_kept = q.keys_kept;
            bodies = q.bodies;
          })
]

leave_loot-Quiet :
    (id : ℕ) (body : CombatObject) (v : PlayerInventory) (r : GameRoom)
    → Quiet r (leave_loot id body v r)
unfolding leave_loot spawn_player_loot_container
leave_loot-Quiet id body v r =
    let q = spawn_dynamic_object-Quiet r.nxt_object_id _ _ in
    Quiet-trans r _ _
      (record {
        views = λ j. q.views j;
        no_reports = q.no_reports;
        keys_kept = q.keys_kept;
        bodies = q.bodies;
      })
      (broadcast-Quiet _ none _)

pub update_seat-Acts : (k : ℕ) (f : Seat → Seat) (r : GameRoom) → Acts k f r (update_seat k f r)
update_seat-Acts k f r = record {
  own = rw (lookup-adjust g k k r.sessions) (ground (arith));
  others = λ j h. rw (lookup-adjust g k j r.sessions, h) refl;
  reports = refl;
  key_list = keys-adjust g k r.sessions;
}
  where
    g : PlayerSession → PlayerSession
    g = λ s. record s { seat = f s.seat }

map_option-comp :
    (f g : Seat → Seat) (o : Option Seat)
    → map_option g (map_option f o) ≡ map_option (λ (s : Seat). g (f s)) o
map_option-comp f g none = refl
map_option-comp f g (some s) = refl

pub Acts-trans :
    (k : ℕ) (f g : Seat → Seat) (r r' r'' : GameRoom)
    → Acts k f r r'
    → Acts k g r' r''
    → Acts k (λ s. g (f s)) r r''
Acts-trans k f g r r' r'' a b = record {
  own = b.own ∙ ap (map_option g) a.own ∙ map_option-comp f g (view k r.sessions);
  others = λ j h. b.others j h ∙ a.others j h;
  reports = b.reports ∙ a.reports;
  key_list = b.key_list ∙ a.key_list;
}

pub Quiet-Acts : (k : ℕ) (r r' : GameRoom) → Quiet r r' → Acts k (λ s. s) r r'
Quiet-Acts k r r' q = record {
  own = q.views k ∙ sym (map_option-id (view k r.sessions));
  others = λ j h. q.views j;
  reports = q.no_reports;
  key_list = q.keys_kept;
}

-- The seat of a player whose inventory is cleared, or not.
abbrev pub strip : Bool → Seat → Seat
strip true t = record t { inventory = clear_inventory t.inventory }
strip false t = t

loot-Quiet :
    (s : Seat) (id : ℕ) (body : CombatObject) (r : GameRoom)
    → Quiet r (if is_dead s.leave.leave_reason then leave_loot id body s.inventory r else r)
loot-Quiet s id body r = elim (Bool-cases (is_dead s.leave.leave_reason)) [
  | inl e ↦ rw e (leave_loot-Quiet id body s.inventory r)
  | inr e ↦ rw e (Quiet-refl r)
]

strip-Acts :
    (k : ℕ) (b : Bool) (r : GameRoom)
    → Acts k (strip b) r (
        if b
        then update_seat k (λ t. record t { inventory = clear_inventory t.inventory }) r
        else r)
strip-Acts k true r = update_seat-Acts k _ r
strip-Acts k false r = Quiet-Acts k r r (Quiet-refl r)

remove_player-Acts :
    (k : ℕ) (s : Seat) (id : ℕ) (body : CombatObject) (r : GameRoom)
    → Acts k (strip (loses_items s.leave.leave_reason)) r (remove_player k s id body r)
unfolding remove_player
remove_player-Acts k s id body r =
    let f = strip (loses_items s.leave.leave_reason) in
    let a = Quiet-Acts k r _ (loot-Quiet s id body r) in
    let b = Acts-trans k (λ t. t) f r _ _ a (strip-Acts k (loses_items s.leave.leave_reason) _) in
    let q = broadcast-Quiet _ (some k) _ in
    Acts-trans k f (λ t. t) r _ _
      (record { own = b.own; others = b.others; reports = b.reports; key_list = b.key_list })
      (Quiet-Acts k _ _ q)

abbrev pub is_found : Option CombatObject → Bool
is_found none = false
is_found (some b) = true

-- Is the object of the session in the room?
abbrev pub has_body : Option ℕ → GameRoom → Bool
has_body none r = false
has_body (some id) r = is_found (find_player_object id r)

remove_found-Acts :
    (k : ℕ) (s : Seat) (id : ℕ) (o : Option CombatObject) (r : GameRoom)
    → Acts k (strip (is_found o && loses_items s.leave.leave_reason)) r (remove_found k s id o r)
unfolding remove_found
remove_found-Acts k s id none r = Quiet-Acts k r r (Quiet-refl r)
remove_found-Acts k s id (some b) r = remove_player-Acts k s id b r

pub remove_object-Acts :
    (k : ℕ) (s : Seat) (o : Option ℕ) (r : GameRoom)
    → Acts k (strip (has_body o r && loses_items s.leave.leave_reason)) r (remove_object k s o r)
unfolding remove_object
remove_object-Acts k s none r = Quiet-Acts k r r (Quiet-refl r)
remove_object-Acts k s (some id) r = remove_found-Acts k s id (find_player_object id r) r
