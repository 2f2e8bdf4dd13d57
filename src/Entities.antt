-- ===== src/Entities.antt =====
-- Actors and their costumes: src/Entities.
pub mod BlinkState
pub mod LipAnimation
pub mod CostumeLayers
pub mod Costume
pub mod TalkingState
