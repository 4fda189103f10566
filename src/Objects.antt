-- ===== src/Objects.antt =====
-- The objects of a room (src/DedicateProcess/UnityGameObjects/).
pub mod Combat
pub mod Npc
