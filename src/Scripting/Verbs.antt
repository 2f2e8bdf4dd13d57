-- ===== src/Scripting/Verbs.antt =====
-- `DefaultVerbExecute` (src/Scripting/DefaultVerbExecute.hpp) and `Sentence` (src/Engine/Sentence.cpp): a
-- verb of the player becomes a sequence of functions, which the updates of the engine carry out.
pub mod World
pub mod Functions
pub mod Execute
pub mod Meaning
pub mod Ends
pub mod Shape
