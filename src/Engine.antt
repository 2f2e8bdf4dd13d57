-- ===== src/Engine.antt =====
-- Parts of the engine: src/Engine.
pub mod ThreadBase
pub mod EntityManager
pub mod InputState
pub mod TextDatabase
pub mod AchievementManager
pub mod Inventory
pub mod Cutscene
pub mod SavedDialogs
pub mod ActorSlots
pub mod Camera
pub mod Hover
pub mod Callbacks
