-- ===== src/Inventory.antt =====
-- Items, the inventory of a player and the containers of a room (src/DedicateProcess/Items.h,
-- ItemDataManager.h, PlayerInventory.cpp, UnityGameObjects/Container.h).
pub mod Blueprints
pub mod Slots
pub mod Denials
pub mod Box
pub mod Transfer
pub mod Player
pub mod Report
