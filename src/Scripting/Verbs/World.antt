-- ===== src/Scripting/Verbs/World.antt =====
-- What a verb is carried out on: the scripts, the actors and the objects, which are numbers. A null
-- pointer is `none`. The verbs are those of include/engge/Engine/Verb.hpp.
use engge.Base.{ℕ, Bool, Option, List, Bytes}

pub record Verb : Type 0 where
  pub id : ℕ
  pub func : Bytes

pub data Reaching : Type 0 where
  high medium low : Reaching

pub data UseFlag : Type 0 where
  use_with use_on use_in give_to : UseFlag

-- `exists` is `rawExists` of `ScriptEngine`, and `inherits` is its `exists`; `call` is `objCall`, which
-- says whether the function was there and did not fail; `ask` is `callFunc` of a function that says
-- whether it handled the verb; `call_root` is `call`. `walk_to` lets the actor walk to an object and
-- gives the end of its path and whether that is near enough; `verb_of` is `getVerb` of the hud;
-- `receiver` is the actor that an entity is, or its owner. The scripts start no other sentence.
pub record VerbWorld : Type 1 where
  pub World : Type 0
  pub Position : Type 0
  pub same_position : Position → Position → Bool
  pub exists : Option ℕ → Bytes → World → Bool
  pub inherits : Option ℕ → Bytes → World → Bool
  pub parameter_count : Option ℕ → Bytes → World → ℕ
  pub call : Option ℕ → Bytes → List (Option ℕ) → World → Bool × World
  pub ask : Option ℕ → Bytes → ℕ → ℕ → Option ℕ → World → Bool × World
  pub call_root : Bytes → List (Option ℕ) → World → World
  pub default_object : World → Option ℕ
  pub current_actor : World → Option ℕ
  pub is_object : ℕ → Bool
  pub is_inventory_object : ℕ → World → Bool
  pub flags : ℕ → World → ℕ
  pub default_verb : ℕ → World → ℕ
  pub verb_of : ℕ → World → Option Verb
  pub receiver : Option ℕ → World → Option ℕ
  pub selectable : Option ℕ → World → Bool
  pub walk_to : ℕ → ℕ → World → (Position × Bool) × World
  pub is_walking : ℕ → World → Bool
  pub position : ℕ → World → Position
  pub play_reach : ℕ → Option Reaching → World → World
  pub stand : ℕ → World → World
  pub give_to : ℕ → ℕ → Option ℕ → World → World
  pub set_default_verb : World → World
