-- ===== src/Dialog/Script.antt =====
-- `DialogScriptAbstract` (include/engge/Dialog/DialogScriptAbstract.hpp): what a dialog asks of the
-- game. The game is the squirrel machine, the actors and the clock; it is a parameter of the dialog
-- player, as a world that the calls change.
use engge.Base.{Bool, Bytes}

-- An `Action` is a `std::function<bool()>`, never empty; `call` calls it. The calls do not reach
-- back into the dialog player.
pub record DialogScript : Type 1 where
  pub World : Type 0
  pub Action : Type 0
  pub call : Action → World → Bool × World
  pub pause : Bytes → World → Action × World
  pub say : Bytes → Bytes → World → Action × World
  pub shutup : World → World
  pub wait_for : Bytes → World → Action × World
  pub wait_while : Bytes → World → Action × World
  pub execute : Bytes → World → World
  pub execute_condition : Bytes → World → Bool × World
