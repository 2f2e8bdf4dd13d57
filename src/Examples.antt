-- ===== src/Examples.antt =====
-- A small dialog, runs of the definitions on it, and the theorems at concrete inputs.
mod Scripts
mod Witnesses
mod Cutscenes
mod Inputs
mod Texts
mod Inventories
mod Triggers
mod Faces
mod Animations
mod Identifiers
mod Managers
mod Sounds
mod Files
mod Verbs
mod Slots
mod Costumes
mod Hovers
mod Talks
mod Calls
