-- ===== src/Room.antt =====
-- The state of a room, GameRoom of src/DedicateProcess/GameRoom.h, with the parts of a PlayerSession
-- that the room reads and writes, and how the room sends to its sessions. Maps are lists in iteration
-- order. Positions, yaw angles and names are left out.
pub mod Detach
pub mod Leaving
pub mod Packets
pub mod Update
use extraction_server.Prelude.{
  ℕ, ◌+◌, ◌%◌, ◌==◌, if◌then◌else◌, Bool, true, false, not, ◌&&◌, ◌||◌, Option, none, some, List,
  [], ◌∷◌, ◌++◌, lookup,
}
use extraction_server.Prelude.Lookups.{map_values}
use extraction_server.Prelude.Words.{add32}
use extraction_server.Objects.Combat.{CombatObject}
use extraction_server.Objects.Npc.{Npc}
use extraction_server.Inventory.Player.{PlayerInventory}
use extraction_server.Inventory.Report.{InventoryReport}
use extraction_server.Inventory.Box.{Box}
use extraction_server.Session.Leave.{Leave, LeaveReason, can_receive_broadcast}
use extraction_server.Session.Recall.{Recall}

-- The packets that the room sends, with the object ids they carry.
pub data Notice : Type 0 where
  player_killed : ℕ → ℕ → Notice
  object_killed : ℕ → ℕ → Notice
  despawn_player : ℕ → LeaveReason → Notice
  spawn_object : ℕ → Notice
  spawn_player : ℕ → Notice
  npc_authority : ℕ → Npc → Notice

-- What the reliable layer keeps for sending: the packets in order, `_sendRSeq`, and the sequence
-- numbers of `_pendingReliable` (Transport/Pending has the packets themselves).
pub record Channel : Type 0 where
  pub sent : List Notice
  pub send_r_seq : ℕ
  pub pending : List ℕ

-- The other fields of a session; `none` is the id -1.
pub record Seat : Type 0 where
  pub leave : Leave
  pub object_id : Option ℕ
  pub interacting_container : Option ℕ
  pub last_echo_ts : ℕ
  pub recall : Recall
  pub inventory : PlayerInventory

pub record PlayerSession : Type 0 where
  pub seat : Seat
  pub channel : Channel

abbrev pub Sessions : Type 0
Sessions = List (ℕ × PlayerSession)

-- An object that is no player: a container, an NPC, or another one.
pub data GameObject : Type 0 where
  container : Box → GameObject
  hostile_npc : Npc → CombatObject → GameObject
  scenery : GameObject

abbrev pub Objects : Type 0
Objects = List (ℕ × GameObject)

-- A report to the main process (`NotifyPlayerLeftToMain`): the session, the reason and, of a recalled
-- player, the inventory.
pub record LeftReport : Type 0 where
  pub session_id : ℕ
  pub reason : LeaveReason
  pub inventory : Option InventoryReport

-- `GameRoom`; the last two fields are what it told the process around it, in order.
pub record GameRoom : Type 0 where
  pub created_at : ℕ
  pub lifetime_expired : Bool
  pub all_left_reported : Bool
  pub last_regen_ms : ℕ
  pub nxt_object_id : ℕ
  pub sessions : Sessions
  pub static_objects : Objects
  pub dynamic_objects : Objects
  pub player_objects : List (ℕ × CombatObject)
  pub left_reports : List LeftReport
  pub destroy_reserved : ℕ

-- `MakeD2CPacketImpl` with `reliable` and `Send`: the packet takes the next number and waits for its
-- ack. `OpenSendBuffer` always finds a buffer here.
unfoldable pub send_reliable : Notice → Channel → Channel
send_reliable n c =
    let seq = add32 c.send_r_seq 1 in
    record { sent = c.sent ++ n ∷ []; send_r_seq = seq; pending = seq ∷ c.pending }

is_excepted : Option ℕ → ℕ → Bool
is_excepted none k = false
is_excepted (some e) k = k == e

-- The loop body of `BroadcastExcept`.
unfoldable pub receive : Notice → Option ℕ → ℕ → PlayerSession → PlayerSession
unfolding send_reliable is_excepted
receive n except k s =
    if not (can_receive_broadcast s.seat.leave.session_state) || is_excepted except k
    then s
    else record s { channel = send_reliable n s.channel }

-- `BroadcastExcept`; with `none`, `Broadcast`.
unfoldable pub broadcast : Notice → Option ℕ → GameRoom → GameRoom
unfolding map_values receive
broadcast n except r = record r { sessions = map_values (receive n except) r.sessions }

-- `FindNonplayerObject`
unfoldable pub find_nonplayer_object : ℕ → GameRoom → Option GameObject
unfolding lookup
find_nonplayer_object id r = elim (lookup id r.static_objects) [
  | some o ↦ some o
  | none ↦ lookup id r.dynamic_objects
]

-- `FindPlayerObject`
unfoldable pub find_player_object : ℕ → GameRoom → Option CombatObject
unfolding lookup
find_player_object id r = lookup id r.player_objects

has_object : ℕ → Option ℕ → Bool
has_object id none = false
has_object id (some o) = o == id

-- `FindSessionByObjectId`: the id of the first session that has the object.
unfoldable pub find_session_by_object_id : ℕ → Sessions → Option ℕ
unfolding has_object
find_session_by_object_id id [] = none
find_session_by_object_id id ((k, s) ∷ ss) =
    let rest = find_session_by_object_id id ss in
    if has_object id s.seat.object_id then some k else rest
