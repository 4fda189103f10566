-- ===== src/Tests.antt =====
-- The theorems at concrete inputs.
pub mod Room
pub mod Match
pub mod Transport
pub mod Session
pub mod Objects
pub mod Inventory
pub mod Handlers
