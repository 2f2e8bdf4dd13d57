-- ===== src/Room.antt =====
-- Rooms: src/Room.
pub mod RoomTrigger
