-- ===== src/Dialog/Player.antt =====
-- `DialogPlayer` (include/engge/Dialog/DialogPlayer.hpp, src/Dialog/DialogPlayer.cpp), with the
-- visitors that it drives (src/Dialog/ConditionVisitor.cpp, src/Dialog/ExpressionVisitor.cpp).
-- A method is a function on the player.
pub mod State
pub mod Memory
pub mod Choices
pub mod Visit
pub mod Loop
pub mod Flow
pub mod Frame
pub mod Playable
pub mod Rounds
pub mod Running
pub mod Safety
pub mod Forward
pub mod Calls
pub mod Waits
pub mod Conditions
