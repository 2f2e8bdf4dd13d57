-- ===== src/Scripting.antt =====
-- What the engine does for the verbs of the player: src/Scripting/DefaultVerbExecute.hpp.
pub mod Verbs
