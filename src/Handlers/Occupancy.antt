-- ===== src/Handlers/Occupancy.antt =====
-- Who has which container open: `Handle_C2D_RequestOpenContainer` and `Handle_C2D_CloseContainer` of
-- src/DedicateProcess/ClientPacketHandler.cpp, and `ReleaseInteractingContainer` of GameRoom.cpp.
-- Players are named by the ids of their objects. The two sides, the container that a session has open
-- and the player that a container is occupied by, are maps; `none` stands for -1 and for
-- `NO_INTERACTING_PLAYER`.
pub mod Exclusive
use extraction_server.Prelude.{ℕ, ◌==◌, if◌then◌else◌, Bool, true, false, not, Option, none, some}

pub record Occupancy : Type 0 where
  pub opened : ℕ → Option ℕ
  pub occupant : ℕ → Option ℕ

-- What the handlers read of the room: which ids are containers, which player objects have a session,
-- and the distance test of `IsPlayerNearContainer`.
pub record Room : Type 0 where
  pub is_container : ℕ → Bool
  pub has_session : ℕ → Bool
  pub is_near : ℕ → ℕ → Bool

-- A write under one key.
abbrev pub update : (ℕ → Option ℕ) → ℕ → Option ℕ → ℕ → Option ℕ
update f k v x = if x == k then v else f x

holds_id : Option ℕ → ℕ → Bool
holds_id none p = false
holds_id (some q) p = q == p

release_id : Room → ℕ → Option ℕ → Occupancy → Occupancy
unfolding holds_id
release_id r p none o = o
release_id r p (some c) o =
    if not (r.is_container c)
    then o
    else if not (holds_id (o.occupant c) p)
    then o
    else record o { occupant = update o.occupant c none }

-- `ReleaseInteractingContainer` for the session of a player object
unfoldable pub release : Room → ℕ → Occupancy → Occupancy
unfolding release_id
release r p o = release_id r p (o.opened p) (record o { opened = update o.opened p none })

-- The end of the open handler: the own container is released, the new one occupied.
occupy : Room → ℕ → ℕ → Occupancy → Occupancy
unfolding release
occupy r p c o =
    let o' = release r p o in
    record { opened = update o'.opened p (some c); occupant = update o'.occupant c (some p) }

-- A holder out of range loses the container, if it has a session.
evict : Room → ℕ → Occupancy → Occupancy
evict r h o = if r.has_session h then record o { opened = update o.opened h none } else o

open_held : Room → ℕ → ℕ → Option ℕ → Occupancy → Bool × Occupancy
unfolding evict occupy
open_held r p c none o = (true, occupy r p c o)
open_held r p c (some h) o =
    if h == p
    then (true, occupy r p c o)
    else if r.is_near h c
    then (false, o)
    else (true, occupy r p c (evict r h o))

-- `Handle_C2D_RequestOpenContainer` of a session that is active, has a room and a player object.
unfoldable pub open_container : Room → ℕ → ℕ → Occupancy → Bool × Occupancy
unfolding open_held
open_container r p c o =
    if not (r.is_container c)
    then (false, o)
    else if not (r.is_near p c)
    then (false, o)
    else open_held r p c (o.occupant c) o

close_id : Room → ℕ → Option ℕ → Occupancy → Bool × Occupancy
unfolding release
close_id r p none o = (false, o)
close_id r p (some c) o = (true, release r p o)

-- `Handle_C2D_CloseContainer` of a session that is active and has a room.
unfoldable pub close_container : Room → ℕ → Occupancy → Bool × Occupancy
unfolding close_id
close_container r p o = close_id r p (o.opened p) o
