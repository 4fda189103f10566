-- ===== src/Transport.antt =====
-- The custom reliable UDP channel of a player session (src/DedicateProcess/PlayerSession.h and .cpp,
-- and the packet entry of src/DedicateProcess/ClientPacketHandler.h).
pub mod Window
pub mod Pending
pub mod Clock
pub mod Packet
pub mod Entry
pub mod Requests
