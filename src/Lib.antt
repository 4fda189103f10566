-- ===== src/Lib.antt =====
-- ExtractionServer: the game server of an extraction shooter. A main process (src/main.cpp) accepts
-- players, groups them and hands them to dedicated processes over a Unix socket; each dedicated
-- process (src/DedicateProcess) runs rooms, talks to its clients over its own reliable UDP layer, and
-- reports every player that leaves to the main process, which writes the inventory to the database.
-- This development models the logic of the dedicated process and the matchmaker of the main process.
--
-- Prelude: helpers. Numbers are native; uint32_t and uint16_t arithmetic keeps its wrap-around
--   (Prelude/Words), int32_t values that may be negative are integers (Prelude/Int), hash maps are
--   association lists (Prelude/Maps, Prelude/Lookups), and Prelude/Members tells the members of a list.
-- Transport: the reliable layer of a session, PlayerSession.cpp. Transport/Window is the receive
--   window (UpdateRRecvState, UpdateURecvState), Transport/Pending the packets that wait for an ack
--   (RegisterReliable, ProcessIncomingAck, GetRetransmitCandidates, the loop of
--   DediServerService::CheckRetransmits), Transport/Clock the round trip time (UpdateRtt).
--   ClientPacketHandler.h is Transport/Packet (the bytes of UDPHeader), Transport/Requests (the packet
--   ids of enum.h and the table that Init fills) and Transport/Entry (HandleClientPacket and
--   MakeD2CPacketImpl). The hash XXH64 is a function that the model is given.
-- Session: Session/Leave is how a session leaves (MarkLeaving, FinalizeLeave, NotifyLeftOnce, and
--   what GameRoom::ProcessLeaves and DetachPlayer do to it), Session/Recall the timed way out
--   (RecallTick of ClientPacketHandler.cpp).
-- Objects: Objects/Combat is UnityGameObjects/CombatObject.h (hit points and shield), Objects/Npc is
--   UnityGameObjects/HostileNPC.h (which client drives an NPC).
-- Inventory: Inventory/Blueprints is ItemDataManager.h, Inventory/Slots is Items.h, Inventory/Player
--   is PlayerInventory.cpp, Inventory/Box is UnityGameObjects/Container.h and PlayerLootContainer.h,
--   Inventory/Report is SerializeInventoryForIPC of PlayerSession.cpp, which a recalled player's report
--   carries, and Inventory/Transfer is Handle_C2D_RequestInteractContainerObject of
--   ClientPacketHandler.cpp.
-- Handlers: Handlers/Occupancy opens and closes containers (Handle_C2D_RequestOpenContainer,
--   Handle_C2D_CloseContainer, GameRoom::ReleaseInteractingContainer), Handlers/Weapons switches,
--   reloads and fires (UnityGameObjects/PlayerObject.cpp and three handlers), Handlers/Equip equips
--   and takes off (Handle_C2D_RequestEquipItem); all of ClientPacketHandler.cpp.
-- Room: GameRoom.h and GameRoom.cpp. Room has the state of a room and its broadcasts, Room/Detach is
--   DetachPlayer, Room/Leaving is ProcessLeaves over all sessions with what it calls (its theorems
--   relate a pass to the life of each session, Session/Leave; Room/Leaving/Calls lets any other writes
--   come between the passes), Room/Packets is FillStaticObjects and
--   FillDynamicObjects, Room/Update the shield regeneration and the spawn spots.
-- Match: src/Matchmaker.h and src/Matchmaker.cpp. Match is the queue, its buckets and the search for
--   groups, Match/Verdicts what becomes of the groups (StartMatchMakeInternal, StartMatchMake).
-- Tests: the theorems at concrete inputs.
--
-- State is passed explicitly: an operation takes the record of its component and returns the new
-- one with its result. A Slot& argument, which may point into the inventory or into a container, is a
-- reference type with a read and a write. Times are milliseconds, in the matchmaker whole seconds.
-- Every loop is structural (over the slots, the 32 bits of an ack, the waiting packets, the sessions of
-- a room, the tickets), so that no fuel is needed; the `while` of FindMatchGroup runs as many rounds as
-- its bound says. Readings of the clock are arguments: in a pass of ProcessLeaves one at the start and
-- one for each session that is marked, and one for a whole search of the matchmaker, where the source
-- reads the clock for each pivot and rounds each wait down to seconds on its own.
--
-- Not modelled: sockets, io_uring, protobuf, MySQL, Redis and logging; floating-point geometry, whose
-- answers (near a container, inside a recall zone) are Booleans that the model is given; signed
-- overflow, which is undefined in the source; a failure of OpenSendBuffer; names and positions of
-- objects; the loot distribution of the Tenerife room; the processes that rooms run in (DediManager);
-- the rest of the main process.
pub mod Prelude
pub mod Transport
pub mod Session
pub mod Objects
pub mod Inventory
pub mod Handlers
pub mod Room
pub mod Match
pub mod Tests
