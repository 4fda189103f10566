-- ===== src/Session.antt =====
-- The life of a player session: leaving a room and recalling from it
-- (src/DedicateProcess/PlayerSession.h and .cpp, and the parts of GameRoom.cpp and
-- ClientPacketHandler.cpp that drive them).
pub mod Leave
pub mod Recall
