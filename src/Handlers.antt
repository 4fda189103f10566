-- ===== src/Handlers.antt =====
-- The requests of clients that concern a room's containers and a player's weapons
-- (src/DedicateProcess/ClientPacketHandler.cpp).
pub mod Occupancy
pub mod Weapons
pub mod Equip
